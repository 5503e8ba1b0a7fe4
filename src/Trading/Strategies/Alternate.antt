-- ===== src/Trading/Strategies/Alternate.antt =====
-- trading/strategies: signals alternate, and the history of prices is bounded.
use distributed_framework.Common.Dict.{insert, lookup-insert}
use distributed_framework.Trading.Float.{Float}
use distributed_framework.Trading.Messages.{TickerUpdate, Signal}
use distributed_framework.Trading.Strategies.{
  calc_ma, calc_rsi, Book, prices_of, position_of, record_price, new_signal, trade, MaCross, Rsi,
  ma_on_tick, rsi_on_tick,
}
use distributed_framework.Common.{
  String, ◌≡◌, ◌≢◌, ◌⊎◌, Bool, Option, none, some, nat_keys, string_keys, refl, sym, ◌∙◌, inl, inr,
  arith, ◌==◌, ==_refl, ℕ, ◌*◌, ◌≤◌, true, false, not, ◌&&◌, List, [], ◌∷◌, ◌++◌, ltb,
  if◌then◌else◌, length, drop, length-append, ==_iff, ◌+◌, ap, subst,
}

-- The side of a signal, and whether the position of its symbol was long.
abbrev pub Alternates : {F : Type 0} → Book F → String → Book F × Option (Signal F) → Type 0
Alternates b symbol (b', none) = position_of b' symbol ≡ position_of b symbol
Alternates b symbol (b', some s) =
    (s.symbol ≡ symbol)
    × (((s.side ≡ "buy") × (position_of b symbol ≢ "long") × (position_of b' symbol ≡ "long"))
        ⊎ ((s.side ≡ "sell") × (position_of b symbol ≡ "long") × (position_of b' symbol ≢ "long")))

position-insert :
    {F : Type 0} (b : Book F) (symbol p : String)
    → position_of (record b { positions = insert symbol p b.positions }) symbol ≡ p
unfolding position_of
position-insert b symbol p =
    ground (arith, lookup-insert symbol symbol p b.positions, ==_refl symbol)

bought :
    {F : Type 0} (b : Book F) (t : TickerUpdate F) (q : F) (r : String)
    → position_of b t.symbol ≢ "long"
    → Alternates b t.symbol
        (record b { positions = insert t.symbol "long" b.positions }, some (new_signal t "buy" q r))
unfolding new_signal
bought b t q r h = (refl, inl (refl, h, position-insert b t.symbol "long"))

sold :
    {F : Type 0} (b : Book F) (t : TickerUpdate F) (q : F) (r : String)
    → position_of b t.symbol ≡ "long"
    → Alternates b t.symbol
        (record b { positions = insert t.symbol "" b.positions }, some (new_signal t "sell" q r))
unfolding new_signal
sold b t q r h = (refl, inr (refl, h, λ e. empty_ne_long (sym (position-insert b t.symbol "") ∙ e)))
  where
    empty_ne_long : ◌≢◌ {A = String} "" "long"
    empty_ne_long e = cc

-- `trade`, by whether the position is long.
abbrev by_position :
    {F : Type 0}
    → Bool
    → Book F
    → TickerUpdate F
    → F
    → Bool
    → String
    → Bool
    → String
    → Book F × Option (Signal F)
by_position long b t q buys r sells r' =
    if buys && not long
    then (
      record b { positions = insert t.symbol "long" b.positions },
      some (new_signal t "buy" q r),
    )
    else (if sells && long
        then (
          record b { positions = insert t.symbol "" b.positions },
          some (new_signal t "sell" q r'),
        )
        else (b, none))

by_position-Alternates :
    {F : Type 0} (long : Bool) (b : Book F) (t : TickerUpdate F) (q : F) (buys : Bool) (r : String)
    (sells : Bool) (r' : String)
    → (position_of b t.symbol == "long") ≡ long
    → Alternates b t.symbol (by_position long b t q buys r sells r')
by_position-Alternates true b t q true r true r' h =
    sold b t q r' ((==_iff (position_of b t.symbol) "long").0 h)
by_position-Alternates true b t q true r false r' h = refl
by_position-Alternates true b t q false r true r' h =
    sold b t q r' ((==_iff (position_of b t.symbol) "long").0 h)
by_position-Alternates true b t q false r false r' h = refl
by_position-Alternates false b t q true r sells r' h =
    bought b t q r (λ e. true_ne_false (sym ((==_iff (position_of b t.symbol) "long").1 e) ∙ h))
  where
    true_ne_false : true ≢ false
    true_ne_false e = cc
by_position-Alternates false b t q false r true r' h = refl
by_position-Alternates false b t q false r false r' h = refl

trade-Alternates :
    {F : Type 0} (b : Book F) (t : TickerUpdate F) (q : F) (buys : Bool) (r : String) (sells : Bool)
    (r' : String)
    → Alternates b t.symbol (trade b t q buys r sells r')
unfolding trade
trade-Alternates b t q buys r sells r' =
    by_position-Alternates (position_of b t.symbol == "long") b t q buys r sells r' refl

-- No signal where there are too few prices, and else a trade.
abbrev record_step :
    {F : Type 0}
    → Bool
    → Book F
    → TickerUpdate F
    → F
    → Bool
    → String
    → Bool
    → String
    → Book F × Option (Signal F)
record_step few b t q buys r sells r' = if few then (b, none) else trade b t q buys r sells r'

length-drop1 :
    {F : Type 0} (kept : ℕ) (ps : List F) (p : F)
    → length ps ≤ kept
    → length (if ltb kept (length (ps ++ p ∷ [])) then drop 1 (ps ++ p ∷ []) else ps ++ p ∷ [])
      ≤ kept
length-drop1 kept [] p h = ground arith
length-drop1 kept (q ∷ qs) p h = ground (arith, length-append qs (p ∷ []))

trade-prices :
    {F : Type 0} (b : Book F) (t : TickerUpdate F) (q : F) (buys : Bool) (r : String) (sells : Bool)
    (r' : String)
    → (trade b t q buys r sells r').0.prices ≡ b.prices
unfolding trade
trade-prices b t q buys r sells r' = ground arith

prices-record_price :
    {F : Type 0} (kept : ℕ) (b : Book F) (symbol : String) (p : F)
    → prices_of (record_price kept b symbol p) symbol ≡ (
        if ltb kept (length (prices_of b symbol ++ p ∷ []))
        then drop 1 (prices_of b symbol ++ p ∷ [])
        else prices_of b symbol ++ p ∷ [])
unfolding record_price prices_of
prices-record_price kept b symbol p = ground (
  arith,
  ==_refl symbol,
  lookup-insert symbol symbol
      (if ltb kept (length (prices_of b symbol ++ p ∷ []))
        then drop 1 (prices_of b symbol ++ p ∷ [])
        else prices_of b symbol ++ p ∷ [])
      b.prices,
)

-- Recording a price bounds the history.
record_price_lem :
    {F : Type 0} (kept : ℕ) (b : Book F) (symbol : String) (p : F)
    → length (prices_of b symbol) ≤ kept
    → length (prices_of (record_price kept b symbol p) symbol) ≤ kept
record_price_lem kept b symbol p h =
    subst (λ l. length l ≤ kept) (sym (prices-record_price kept b symbol p))
      (length-drop1 kept (prices_of b symbol) p h)

prices_of-trade :
    {F : Type 0} (b : Book F) (t : TickerUpdate F) (q : F) (buys : Bool) (r : String) (sells : Bool)
    (r' : String)
    → prices_of (trade b t q buys r sells r').0 t.symbol ≡ prices_of b t.symbol
unfolding prices_of
prices_of-trade b t q buys r sells r' =
    ap (λ d. prices_of (record { prices = d; positions = [] }) t.symbol)
      (trade-prices b t q buys r sells r')

-- The end of both strategies: too little data, or a trade.
guarded_lem :
    {F : Type 0} (few : Bool) (kept : ℕ) (b : Book F) (t : TickerUpdate F) (q : F) (buys : Bool)
    (r : String) (sells : Bool) (r' : String)
    → length (prices_of b t.symbol) ≤ kept
    → Alternates b t.symbol (record_step few b t q buys r sells r')
      × (length (prices_of (record_step few b t q buys r sells r').0 t.symbol) ≤ kept)
unfolding prices_of
guarded_lem true kept b t q buys r sells r' h = (refl, h)
guarded_lem false kept b t q buys r sells r' h = (
  trade-Alternates b t q buys r sells r',
  subst (λ l. length l ≤ kept) (sym (prices_of-trade b t q buys r sells r')) h,
)

-- From at most twice its long period of prices, the moving-average strategy keeps at most that
-- many, and it alternates: it buys only when not long and is long then, sells only when long and
-- is not long then, and changes no position without a signal.
pub ma-Alternates :
    {F : Type 0} (fl : Float F) (reasons : Bool → F → F → String) (c : MaCross F) (b : Book F)
    (t : TickerUpdate F)
    → length (prices_of b t.symbol) ≤ c.long_period * 2
    → Alternates b t.symbol (ma_on_tick fl reasons c b t)
      × (length (prices_of (ma_on_tick fl reasons c b t).0 t.symbol) ≤ c.long_period * 2)
unfolding ma_on_tick
ma-Alternates fl reasons c b t h =
    let b1 = record_price (c.long_period * 2) b t.symbol t.price in
    let ps = prices_of b1 t.symbol in
    let s = calc_ma fl ps c.short_period in
    let l = calc_ma fl ps c.long_period in
    let (x, y) =
      guarded_lem (ltb (length ps) c.long_period) (c.long_period * 2) b1 t c.quantity (fl.less l s)
        (reasons true s l) (fl.less s l) (reasons false s l)
        (record_price_lem (c.long_period * 2) b t.symbol t.price h) in
    (x, y)

-- From at most three times its period of prices, the strategy of the relative strength index keeps
-- at most that many, and it alternates in the same way.
pub rsi-Alternates :
    {F : Type 0} (fl : Float F) (reasons : Bool → F → String) (c : Rsi F) (b : Book F)
    (t : TickerUpdate F)
    → length (prices_of b t.symbol) ≤ c.period * 3
    → Alternates b t.symbol (rsi_on_tick fl reasons c b t)
      × (length (prices_of (rsi_on_tick fl reasons c b t).0 t.symbol) ≤ c.period * 3)
unfolding rsi_on_tick
rsi-Alternates fl reasons c b t h =
    let b1 = record_price (c.period * 3) b t.symbol t.price in
    let ps = prices_of b1 t.symbol in
    let i = calc_rsi fl ps c.period in
    let (x, y) =
      guarded_lem (ltb (length ps) (c.period + 1)) (c.period * 3) b1 t c.quantity
        (fl.less i c.oversold) (reasons true i) (fl.less c.overbought i) (reasons false i)
        (record_price_lem (c.period * 3) b t.symbol t.price h) in
    (x, y)
