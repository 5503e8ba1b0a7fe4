-- ===== src/Trading/Market/Generator.antt =====
-- trading/market_data.go: the prices that a test makes up.
use distributed_framework.Actor.Pid.{Pid}
use distributed_framework.Trading.Float.{Float}
use distributed_framework.Trading.Messages.{TickerUpdate, TradingEffect, send, ticker_update}
use distributed_framework.Common.{
  ℕ, ◌+◌, ◌%◌, String, Option, none, some, List, [], ◌∷◌, if◌then◌else◌, ◌==◌, nat_keys,
  string_keys,
}

module _ {F : Type 0} (float : Float F) where
  open float use {plus, minus, times, over, of_nat}

  unfoldable pub base_price : String → F
  base_price symbol =
      if symbol == "ETH/USDT"
      then of_nat 3000
      else if symbol == "SOL/USDT"
      then of_nat 100
      else of_nat 50000

  -- 0.01 and 0.5 as the quotients that they are the nearest floats to.
  unfoldable pub price_at : String → ℕ → F
  unfolding base_price
  price_at symbol i = plus (base_price symbol) (
      times (times (over (minus (of_nat (i % 20)) (of_nat 10)) (of_nat 100)) (base_price symbol))
        (over (of_nat 1) (of_nat 100)))

  unfoldable pub update_at : String → ℕ → ℕ → TickerUpdate F
  unfolding price_at
  update_at symbol i now = record {
    symbol = symbol;
    price = price_at symbol i;
    volume = plus (of_nat 1000) (times (of_nat (i % 100)) (of_nat 10));
    bid = minus (price_at symbol i) (over (of_nat 1) (of_nat 2));
    ask = plus (price_at symbol i) (over (of_nat 1) (of_nat 2));
    timestamp = now;
  }

  -- What the loop receives: the end of `stopCh`, or a tick, with the time and the ticker that the
  -- symbol has then.
  pub data FeedWake : Type 0 where
    stop : FeedWake
    tick : ℕ → Option Pid → FeedWake

  -- The loop of `generateTestData` from the count `i` on, which stays far below the limit of an
  -- `int`.
  unfoldable pub generate : String → ℕ → List FeedWake → List (TradingEffect F)
  unfolding update_at
  generate symbol i [] = []
  generate symbol i (stop ∷ rest) = []
  generate symbol i (tick now none ∷ rest) = generate symbol (i + 1) rest
  generate symbol i (tick now (some pid) ∷ rest) =
      send pid (ticker_update (update_at symbol i now)) ∷ generate symbol (i + 1) rest
