-- ===== src/Trading/Strategies.antt =====
-- trading/strategies: the crossing of moving averages, and the relative strength index.
pub mod Alternate
use distributed_framework.Common.Dict.{Dict, lookup, insert}
use distributed_framework.Trading.Float.{Float}
use distributed_framework.Trading.Messages.{TickerUpdate, KlineUpdate, Signal}
use distributed_framework.Common.{
  ℕ, ◌+◌, ◌-◌, ◌*◌, String, Bool, true, false, not, ◌&&◌, Option, none, some, List, [], ◌∷◌, ◌++◌,
  ltb, if◌then◌else◌, length, drop, ◌==◌, nat_keys, string_keys,
}

-- The state of both strategies: prices and positions by symbol. A missing position is the empty
-- text.
pub record Book (F : Type 0) : Type 0 where
  pub prices : Dict String (List F)
  pub positions : Dict String String

unfoldable pub new_book : {F : Type 0} → Book F
new_book = record { prices = []; positions = [] }

unfoldable pub prices_of : {F : Type 0} → Book F → String → List F
prices_of b symbol = elim (lookup symbol b.prices) [ none ↦ [] | some ps ↦ ps ]

unfoldable pub position_of : {F : Type 0} → Book F → String → String
position_of b symbol = elim (lookup symbol b.positions) [ none ↦ "" | some p ↦ p ]

-- The price is appended, and the oldest one goes where there are more than `kept`.
unfoldable pub record_price : {F : Type 0} → ℕ → Book F → String → F → Book F
unfolding prices_of
record_price kept b symbol price =
    let ps = prices_of b symbol ++ price ∷ [] in
    record b { prices = insert symbol (if ltb kept (length ps) then drop 1 ps else ps) b.prices }

-- The part of a kline that a strategy reads; the other fields have the zero values.
unfoldable pub tick_of : {F : Type 0} → Float F → KlineUpdate F → TickerUpdate F
tick_of fl k = record {
  symbol = k.symbol;
  price = k.close;
  volume = fl.of_nat 0;
  bid = fl.of_nat 0;
  ask = fl.of_nat 0;
  timestamp = 0;
}

-- A signal as a strategy makes it; `reason` is the text that `fmt.Sprintf` makes.
unfoldable pub new_signal : {F : Type 0} → TickerUpdate F → String → F → String → Signal F
new_signal t side quantity reason = record {
  id = "";
  symbol = t.symbol;
  side = side;
  price = t.price;
  quantity = quantity;
  strategy = "";
  reason = reason;
  timestamp = 0;
}

-- The end of both `OnTick` functions: buy when not long, or else sell when long.
unfoldable pub trade :
    {F : Type 0}
    → Book F
    → TickerUpdate F
    → F
    → Bool
    → String
    → Bool
    → String
    → Book F × Option (Signal F)
unfolding position_of new_signal
trade b t quantity buys buy_reason sells sell_reason =
    if buys && not (position_of b t.symbol == "long")
    then (
      record b { positions = insert t.symbol "long" b.positions },
      some (new_signal t "buy" quantity buy_reason),
    )
    else (if sells && position_of b t.symbol == "long"
        then (
          record b { positions = insert t.symbol "" b.positions },
          some (new_signal t "sell" quantity sell_reason),
        )
        else (b, none))

pub record MaCross (F : Type 0) : Type 0 where
  pub short_period : ℕ
  pub long_period : ℕ
  pub quantity : F

pub record Rsi (F : Type 0) : Type 0 where
  pub period : ℕ
  pub overbought : F
  pub oversold : F
  pub quantity : F

module _ {F : Type 0} (fl : Float F) where
  unfoldable pub sum_of : F → List F → F
  sum_of acc [] = acc
  sum_of acc (p ∷ ps) = sum_of (fl.plus acc p) ps

  -- The mean of the last `period` prices, or 0 where there are not that many.
  unfoldable pub calc_ma : List F → ℕ → F
  unfolding sum_of
  calc_ma ps period =
      if ltb (length ps) period
      then fl.of_nat 0
      else fl.over (sum_of (fl.of_nat 0) (drop (length ps - period) ps)) (fl.of_nat period)

  -- `reasons` makes the texts of a buy and of a sale out of the two averages.
  unfoldable pub ma_on_tick :
      (Bool → F → F → String) → MaCross F → Book F → TickerUpdate F → Book F × Option (Signal F)
  unfolding record_price prices_of calc_ma trade
  ma_on_tick reasons c b t =
      let b1 = record_price (c.long_period * 2) b t.symbol t.price in
      let ps = prices_of b1 t.symbol in
      let short_ma = calc_ma ps c.short_period in
      let long_ma = calc_ma ps c.long_period in
      if ltb (length ps) c.long_period
      then (b1, none)
      else trade b1 t c.quantity (fl.less long_ma short_ma) (reasons true short_ma long_ma)
          (fl.less short_ma long_ma) (reasons false short_ma long_ma)

  unfoldable pub ma_on_kline :
      (Bool → F → F → String) → MaCross F → Book F → KlineUpdate F → Book F × Option (Signal F)
  unfolding ma_on_tick tick_of
  ma_on_kline reasons c b k = ma_on_tick reasons c b (tick_of fl k)

  -- The gains and losses of the prices after the first, over that one.
  unfoldable pub moves : F → F → F → List F → F × F
  moves gains losses last [] = (gains, losses)
  moves gains losses last (p ∷ ps) =
      let change = fl.minus p last in
      if fl.less (fl.of_nat 0) change
      then moves (fl.plus gains change) losses p ps
      else moves gains (fl.plus losses (fl.magnitude change)) p ps

  unfoldable pub strength : ℕ → F × F → F
  strength period (gains, losses) =
      if fl.same losses (fl.of_nat 0)
      then fl.of_nat 100
      else (let rs =
            fl.over (fl.over gains (fl.of_nat period)) (fl.over losses (fl.of_nat period)) in
          fl.minus (fl.of_nat 100) (fl.over (fl.of_nat 100) (fl.plus (fl.of_nat 1) rs)))

  -- The index of the last `period` moves; 50 where there are not that many.
  unfoldable pub calc_rsi : List F → ℕ → F
  unfolding moves strength
  calc_rsi ps period =
      if ltb (length ps) (period + 1)
      then fl.of_nat 50
      else over_last (drop (length ps - period - 1) ps)
    where
      over_last : List F → F
      over_last [] = fl.of_nat 100
      over_last (q ∷ qs) = strength period (moves (fl.of_nat 0) (fl.of_nat 0) q qs)

  unfoldable pub rsi_on_tick :
      (Bool → F → String) → Rsi F → Book F → TickerUpdate F → Book F × Option (Signal F)
  unfolding record_price prices_of calc_rsi trade
  rsi_on_tick reasons c b t =
      let b1 = record_price (c.period * 3) b t.symbol t.price in
      let ps = prices_of b1 t.symbol in
      let rsi = calc_rsi ps c.period in
      if ltb (length ps) (c.period + 1)
      then (b1, none)
      else trade b1 t c.quantity (fl.less rsi c.oversold) (reasons true rsi)
          (fl.less c.overbought rsi) (reasons false rsi)

  unfoldable pub rsi_on_kline :
      (Bool → F → String) → Rsi F → Book F → KlineUpdate F → Book F × Option (Signal F)
  unfolding rsi_on_tick tick_of
  rsi_on_kline reasons c b k = rsi_on_tick reasons c b (tick_of fl k)
