-- ===== src/Trading/Tests.antt =====
-- trading: prices as whole numbers.
use distributed_framework.Common.Dict.{lookup}
use distributed_framework.Actor.Pid.{Pid}
use distributed_framework.Trading.Float.{Float}
use distributed_framework.Trading.Messages.{Signal, TickerUpdate, send, stopped}
use distributed_framework.Trading.Risk.{RiskConfig, RiskManager, Reasons, recent}
use distributed_framework.Trading.Risk.Rate.{within_minute, run, rate_limit}
use distributed_framework.Trading.Orders.{OrderManager, Executor}
use distributed_framework.Trading.Flow.{
  Desk, Connected, Clock, on_price, filled_order, price_to_fill,
}
use distributed_framework.Common.Dict.{insert}
use distributed_framework.Trading.Risk.{clean_old_orders, check_risk, check_size, approve}
use distributed_framework.Trading.Market.{Strategy}
use distributed_framework.Trading.Strategies.{
  ma_on_kline, record_price, calc_ma, sum_of, trade, position_of, new_signal,
}
use distributed_framework.Trading.Market as Market
use distributed_framework.Trading.Market.{MarketData}
use distributed_framework.Trading.Market.Resubscribe.{resubscribe, feeds, last_of, resubscribe_lem}
use distributed_framework.Trading.Market.Feed.{ticker_of, sends_of, subscription_lem}
use distributed_framework.Trading.Messages.{
  subscribe_with_strategy, register_strategy, ticker_update,
}
use distributed_framework.Trading.Strategies.{
  Book, MaCross, Rsi, prices_of, ma_on_tick, rsi_on_tick,
}
use distributed_framework.Trading.Strategies.Alternate.{Alternates, ma-Alternates, rsi-Alternates}
use distributed_framework.Common.{
  ℕ, ◌+◌, ◌-◌, ◌*◌, ◌/◌, ◌≤◌, String, ◌≡◌, refl, true, false, some, List, [], ◌∷◌, arith, ltb,
  nat_eq, length, nat_keys, string_keys, ◌>>=◌,
}

abbrev numbers : Float ℕ
numbers = record {
  plus = λ a b. a + b;
  minus = λ a b. a - b;
  times = λ a b. a * b;
  over = λ a b. a / b;
  negate = λ a. a;
  magnitude = λ a. a;
  of_nat = λ n. n;
  less = λ a b. ltb a b;
  at_most = λ a b. false;
  same = λ a b. nat_eq a b;
}

abbrev texts : Reasons ℕ
texts = record {
  daily_loss = λ a. "";
  too_many = λ n. "";
  too_big = λ a b. "";
  too_large_share = λ a b. "";
}

abbrev executor_pid : Pid
executor_pid = record { address = "local"; id = "executor/1" }

abbrev config : RiskConfig ℕ
config = record {
  max_position_pct = 100;
  max_daily_loss = 0;
  max_orders_per_min = 1;
  max_position_value = 1000;
  total_capital = 1000;
}

abbrev manager : RiskManager ℕ
manager = record {
  config = config;
  order_manager = executor_pid;
  daily_pnl = 0;
  positions = [];
  order_times = [];
}

abbrev buy : Signal ℕ
buy = record {
  id = "";
  symbol = "BTC";
  side = "buy";
  price = 10;
  quantity = 2;
  strategy = "ma";
  reason = "";
  timestamp = 0;
}

abbrev checks : List (ℕ × Signal ℕ)
checks = (1, buy) ∷ (2, buy) ∷ (70000000000, buy) ∷ []

rate_limit_example : within_minute 70000000000 (run numbers texts manager checks).1 ≤ 1
rate_limit_example =
    rate_limit numbers texts manager checks 70000000000 refl
      (omega arith, (omega arith, (omega arith, tt))) (omega arith)

abbrev orders : OrderManager ℕ
orders = record { executors = ("binance", executor_pid) ∷ []; orders = []; strategies = [] }

abbrev executor : Executor
executor = record {
  exchange = "binance";
  order_manager = executor_pid;
  api_key = "";
  api_secret = "";
  test_mode = true;
}

abbrev o1 : String
o1 = "1700000000-1"

abbrev book : Book ℕ
book = record { prices = ("BTC", 5 ∷ 6 ∷ []) ∷ []; positions = [] }

abbrev tick : TickerUpdate ℕ
tick = record { symbol = "BTC"; price = 9; volume = 0; bid = 0; ask = 0; timestamp = 0 }

abbrev ma : MaCross ℕ
ma = record { short_period = 1; long_period = 2; quantity = 1 }

abbrev rsi : Rsi ℕ
rsi = record { period = 2; overbought = 70; oversold = 30; quantity = 1 }

ma-Alternates_example :
    Alternates book "BTC" (ma_on_tick numbers (λ b x y. "") ma book tick)
    × (length (prices_of (ma_on_tick numbers (λ b x y. "") ma book tick).0 "BTC") ≤ 4)
unfolding prices_of lookup
ma-Alternates_example = ma-Alternates numbers (λ b x y. "") ma book tick (omega arith)

rsi-Alternates_example :
    Alternates book "BTC" (rsi_on_tick numbers (λ b x. "") rsi book tick)
    × (length (prices_of (rsi_on_tick numbers (λ b x. "") rsi book tick).0 "BTC") ≤ 6)
unfolding prices_of lookup
rsi-Alternates_example = rsi-Alternates numbers (λ b x. "") rsi book tick (omega arith)

abbrev strategy : Strategy ℕ (Book ℕ)
strategy = record {
  name = "ma";
  on_tick = ma_on_tick numbers (λ b x y. "") ma;
  on_kline = ma_on_kline numbers (λ b x y. "") ma;
}

abbrev risk_pid : Pid
risk_pid = record { address = "local"; id = "risk/1" }

abbrev order_pid : Pid
order_pid = record { address = "local"; id = "orders/1" }

abbrev desk : Desk ℕ (Book ℕ)
desk = record {
  actor = record { name = "ma"; state = book; risk_manager = risk_pid; positions = [] };
  risk = record manager { order_manager = order_pid };
  orders = orders;
  executor = record executor { order_manager = order_pid };
  risk_pid = risk_pid;
  order_pid = order_pid;
  executor_pid = executor_pid;
}

desk-Connected : Connected desk
unfolding lookup
desk-Connected = record {
  actor_risk = refl;
  risk_orders = refl;
  executor_orders = refl;
  orders_executor = refl;
  tests = refl;
}

abbrev clock : Clock
clock = record { signalled = 3; checked = 4; created = 5; opened = 6; filled = 7 }

price_to_fill_example :
    (on_price numbers texts strategy o1 clock desk tick >>= λ d. some (lookup o1 d.orders.orders))
    ≡ some (
        some (
          filled_order numbers texts strategy o1 clock
            (record buy { price = 9; quantity = 1; timestamp = 3 })))
unfolding ma_on_tick record_price prices_of calc_ma sum_of trade position_of new_signal check_risk
    clean_old_orders check_size approve lookup insert recent
price_to_fill_example =
    price_to_fill numbers texts strategy o1 clock desk tick o1 desk-Connected refl

abbrev market : MarketData
market = record { tickers = []; test_mode = true }

abbrev ticker_pid : Pid
ticker_pid = record { address = "local"; id = "ticker-BTC/1" }

subscription_lem_example :
    (sends_of {F = ℕ}
        (Market.receive ticker_pid market (subscribe_with_strategy "BTC" executor_pid)).1
      ≡ (ticker_of market "BTC" ticker_pid, register_strategy executor_pid []) ∷ [])
    × ((Market.receive ticker_pid
          (Market.receive {F = ℕ} ticker_pid market (subscribe_with_strategy "BTC" executor_pid)).0
          (ticker_update tick)).1
        ≡ send (ticker_of market "BTC" ticker_pid) (ticker_update tick) ∷ [])
subscription_lem_example = subscription_lem market "BTC" ticker_pid executor_pid tick refl

abbrev old_ticker : Pid
old_ticker = record { address = "local"; id = "ticker/1" }

abbrev fed : MarketData
fed = record { tickers = ("BTC/USDT", old_ticker) ∷ []; test_mode = true }

abbrev new_ticker_pid : Pid
new_ticker_pid = record { address = "local"; id = "ticker/2" }

fed_has : lookup "BTC/USDT" fed.tickers ≡ some old_ticker
unfolding lookup
fed_has = refl

resubscribe_lem_example :
    (feeds "BTC/USDT" 1 (resubscribe ℕ fed "BTC/USDT" (new_ticker_pid ∷ [])).1
      ≡ 1 + length (new_ticker_pid ∷ []))
    × (lookup "BTC/USDT" (resubscribe ℕ fed "BTC/USDT" (new_ticker_pid ∷ [])).0.tickers
        ≡ some (last_of old_ticker (new_ticker_pid ∷ [])))
    × (feeds "BTC/USDT"
          (1 + length (new_ticker_pid ∷ []))
          (Market.receive {F = ℕ} old_ticker fed stopped).1
        ≡ 0)
resubscribe_lem_example =
    resubscribe_lem ℕ fed "BTC/USDT" 1 old_ticker (new_ticker_pid ∷ []) refl fed_has
