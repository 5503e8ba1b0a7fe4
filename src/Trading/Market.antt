-- ===== src/Trading/Market.antt =====
-- trading/market_data.go, trading/ticker.go and trading/strategy.go: prices from the feed to the
-- strategies.
pub mod Feed
pub mod Resubscribe
pub mod Generator
use distributed_framework.Common.Dict.{Dict, lookup, insert, delete, has, values}
use distributed_framework.Actor.Pid.{Pid, to_string}
use distributed_framework.Trading.Messages.{
  TickerUpdate, KlineUpdate, Signal, Position, RiskResult, OrderUpdate, TradingMessage,
  TradingEffect, send, spawn_ticker, start_feed, end_feeds, stopped, poison, subscribe_ticker,
  unsubscribe_ticker, subscribe_with_strategy, ticker_update, kline_update, register_strategy,
  risk_check, position,
}
use distributed_framework.Common.{
  ℕ, String, Bool, Option, none, some, List, [], ◌∷◌, ◌++◌, map, if◌then◌else◌, nat_keys,
  string_keys,
}

pub record MarketData : Type 0 where
  pub tickers : Dict String Pid
  pub test_mode : Bool

unfoldable pub new_market_data : Bool → MarketData
new_market_data test_mode = record { tickers = []; test_mode = test_mode }

-- `pid` is what the engine's `Spawn` returns.
unfoldable pub subscribe :
    {F : Type 0} → MarketData → String → Pid → MarketData × List (TradingEffect F)
subscribe m symbol pid = if has symbol m.tickers then (m, []) else (
  record m { tickers = insert symbol pid m.tickers },
  spawn_ticker symbol pid ∷ start_feed m.test_mode symbol ∷ [],
)

unfoldable pub unsubscribe :
    {F : Type 0} → MarketData → String → MarketData × List (TradingEffect F)
unsubscribe m symbol = elim (lookup symbol m.tickers) [
  | none ↦ (m, [])
  | some pid ↦ (record m { tickers = delete symbol m.tickers }, poison pid ∷ [])
]

unfoldable pub to_ticker :
    {F : Type 0} → MarketData → String → TradingMessage F → List (TradingEffect F)
to_ticker m symbol msg = elim (lookup symbol m.tickers) [ none ↦ [] | some pid ↦ send pid msg ∷ [] ]

-- A receiver is stopped once, and its channel is closed then.
unfoldable pub receive :
    {F : Type 0} → Pid → MarketData → TradingMessage F → MarketData × List (TradingEffect F)
unfolding subscribe unsubscribe to_ticker
receive pid m (subscribe_ticker symbol) = subscribe m symbol pid
receive pid m (subscribe_with_strategy symbol strategy) =
    let (m', es) = subscribe m symbol pid in
    (m', es ++ to_ticker m' symbol (register_strategy strategy []))
receive pid m (unsubscribe_ticker symbol) = unsubscribe m symbol
receive pid m (ticker_update t) = (m, to_ticker m t.symbol (ticker_update t))
receive pid m stopped = (m, end_feeds ∷ [])
receive pid m other = (m, [])

pub record Ticker (F : Type 0) : Type 0 where
  pub symbol : String
  pub subscribers : Dict String Pid
  pub last_tick : Option (TickerUpdate F)

unfoldable pub new_ticker : {F : Type 0} → String → Ticker F
new_ticker symbol = record { symbol = symbol; subscribers = []; last_tick = none }

unfoldable pub tick : {F : Type 0} → Ticker F → TradingMessage F → Ticker F × List (TradingEffect F)
unfolding to_string
tick t (register_strategy pid symbols) =
    (record t { subscribers = insert (to_string pid) pid t.subscribers }, [])
tick t (ticker_update u) = (
  record t { last_tick = some u },
  map (λ pid. send pid (ticker_update u)) (values t.subscribers),
)
tick t (kline_update k) = (t, map (λ pid. send pid (kline_update k)) (values t.subscribers))
tick t other = (t, [])

-- The interface `Strategy`: each function on the state `S` of the strategy.
pub record Strategy (F S : Type 0) : Type 0 where
  pub name : String
  pub on_tick : S → TickerUpdate F → S × Option (Signal F)
  pub on_kline : S → KlineUpdate F → S × Option (Signal F)

pub record StrategyActor (F S : Type 0) : Type 0 where
  pub name : String
  pub state : S
  pub risk_manager : Pid
  pub positions : Dict String (Position F)

unfoldable pub check_signal :
    {F S : Type 0}
    → StrategyActor F S
    → ℕ
    → S × Option (Signal F)
    → StrategyActor F S × List (TradingEffect F)
check_signal a now (s', none) = (record a { state = s' }, [])
check_signal a now (s', some sig) = (
  record a { state = s' },
  send a.risk_manager (risk_check (record sig { strategy = a.name; timestamp = now })) ∷ [],
)

-- Results and order updates are only printed.
unfoldable pub strategy_receive :
    {F S : Type 0}
    → Strategy F S
    → ℕ
    → StrategyActor F S
    → TradingMessage F
    → StrategyActor F S × List (TradingEffect F)
unfolding check_signal
strategy_receive st now a (ticker_update u) = check_signal a now (st.on_tick a.state u)
strategy_receive st now a (kline_update k) = check_signal a now (st.on_kline a.state k)
strategy_receive st now a (position p) =
    (record a { positions = insert p.symbol p a.positions }, [])
strategy_receive st now a other = (a, [])
