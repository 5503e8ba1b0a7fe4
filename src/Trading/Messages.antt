-- ===== src/Trading/Messages.antt =====
-- trading/messages.go: the messages of the trading actors. Times are in nanoseconds. `F` is
-- float64.
use distributed_framework.Actor.Pid.{Pid}
use distributed_framework.Common.{ℕ, String, Bool, List, nat_keys, string_keys}

pub record TickerUpdate (F : Type 0) : Type 0 where
  pub symbol : String
  pub price : F
  pub volume : F
  pub bid : F
  pub ask : F
  pub timestamp : ℕ

pub record KlineUpdate (F : Type 0) : Type 0 where
  pub symbol : String
  pub opening : F
  pub high : F
  pub low : F
  pub close : F
  pub volume : F
  pub interval : String
  pub timestamp : ℕ

pub record Signal (F : Type 0) : Type 0 where
  pub id : String
  pub symbol : String
  pub side : String
  pub price : F
  pub quantity : F
  pub strategy : String
  pub reason : String
  pub timestamp : ℕ

pub record Order (F : Type 0) : Type 0 where
  pub id : String
  pub symbol : String
  pub side : String
  pub kind : String
  pub price : F
  pub quantity : F
  pub filled_qty : F
  pub status : String
  pub exchange : String
  pub strategy : String
  pub create_time : ℕ
  pub update_time : ℕ

pub record OrderUpdate (F : Type 0) : Type 0 where
  pub order_id : String
  pub status : String
  pub filled_qty : F
  pub avg_price : F
  pub timestamp : ℕ

pub record RiskResult (F : Type 0) : Type 0 where
  pub approved : Bool
  pub reason : String
  pub signal : Signal F

pub record Position (F : Type 0) : Type 0 where
  pub symbol : String
  pub side : String
  pub quantity : F
  pub avg_price : F
  pub pnl : F
  pub updated_at : ℕ

-- What a trading actor is sent, one constructor for each type of message that one of them handles.
pub data TradingMessage (F : Type 0) : Type 0 where
  started stopped print_stats : TradingMessage F
  ticker_update : TickerUpdate F → TradingMessage F
  kline_update : KlineUpdate F → TradingMessage F
  subscribe_ticker unsubscribe_ticker : String → TradingMessage F
  subscribe_with_strategy : String → Pid → TradingMessage F
  signal : Signal F → TradingMessage F
  order : Order F → TradingMessage F
  order_update : OrderUpdate F → TradingMessage F
  cancel_order : String → TradingMessage F
  risk_check : Signal F → TradingMessage F
  risk_result : RiskResult F → TradingMessage F
  position : Position F → TradingMessage F
  register_strategy : Pid → List String → TradingMessage F
  register_executor : String → Pid → TradingMessage F

-- What a trading actor does: it sends, answers its sender, spawns a ticker, starts the goroutine
-- that feeds a symbol, closes the channel that ends all of these, or poisons a PID. The flag is
-- whether the goroutine makes up prices; otherwise it ends at once.
pub data TradingEffect (F : Type 0) : Type 0 where
  send : Pid → TradingMessage F → TradingEffect F
  respond : TradingMessage F → TradingEffect F
  spawn_ticker : String → Pid → TradingEffect F
  start_feed : Bool → String → TradingEffect F
  end_feeds : TradingEffect F
  poison : Pid → TradingEffect F
