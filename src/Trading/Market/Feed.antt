-- ===== src/Trading/Market/Feed.antt =====
-- trading/market_data.go and trading/ticker.go: who gets a price.
use distributed_framework.Common.Dict.{
  has_of_lookup_none, lookup-has, has-lookup, lookup, has, lookup-insert,
}
use distributed_framework.Actor.Pid.{Pid}
use distributed_framework.Trading.Messages.{
  spawn_ticker, start_feed, TickerUpdate, TradingMessage, TradingEffect, send,
  subscribe_with_strategy, register_strategy, ticker_update,
}
use distributed_framework.Trading.Market.{MarketData, receive, subscribe, to_ticker}
use distributed_framework.Common.{
  String, ◌≡◌, none, some, List, [], ◌∷◌, nat_keys, string_keys, ap, ◌∙◌, inl, inr, true, false,
  ◌++◌, arith, Bool-cases, ==_refl,
}

-- The ticker of a symbol that is subscribed: the one that is known, or else the one that is
-- spawned.
unfoldable pub ticker_of : MarketData → String → Pid → Pid
ticker_of m symbol spawned = elim (lookup symbol m.tickers) [ none ↦ spawned | some pid ↦ pid ]

unfoldable pub sends_of : {F : Type 0} → List (TradingEffect F) → List (Pid × TradingMessage F)
sends_of [] = []
sends_of (send p m ∷ es) = (p, m) ∷ sends_of es
sends_of (e ∷ es) = sends_of es

subscribed-lookup :
    (F : Type 0) (m : MarketData) (symbol : String) (pid : Pid)
    → lookup symbol (subscribe {F = F} m symbol pid).0.tickers ≡ some (ticker_of m symbol pid)
unfolding subscribe ticker_of
subscribed-lookup F m symbol pid = ground (
  arith,
  ==_refl symbol,
  lookup-insert symbol symbol pid m.tickers,
  has_of_lookup_none symbol m.tickers,
  lookup-has symbol m.tickers,
  has-lookup symbol m.tickers,
)

to_ticker_lem :
    {F : Type 0} (m : MarketData) (symbol : String) (msg : TradingMessage F) (pid : Pid)
    → lookup symbol m.tickers ≡ some pid
    → to_ticker m symbol msg ≡ send pid msg ∷ []
unfolding to_ticker
to_ticker_lem m symbol msg pid h = ground arith

-- Subscribing sends nothing before the registration.
sends_of-subscribe :
    {F : Type 0} (m : MarketData) (symbol : String) (pid p : Pid) (msg : TradingMessage F)
    → sends_of ((subscribe {F = F} m symbol pid).1 ++ send p msg ∷ []) ≡ (p, msg) ∷ []
unfolding subscribe sends_of
sends_of-subscribe {F = F} m symbol pid p msg = elim (Bool-cases (has symbol m.tickers)) [
  | inl e ↦ ap (λ l. sends_of (l ++ send p msg ∷ [])) (known e)
  | inr e ↦ ap (λ l. sends_of (l ++ send p msg ∷ [])) (new e)
]
  where
    known : has symbol m.tickers ≡ true → (subscribe {F = F} m symbol pid).1 ≡ []
    known e = ground arith

    new :
        has symbol m.tickers ≡ false
        → (subscribe {F = F} m symbol pid).1
          ≡ spawn_ticker symbol pid ∷ start_feed m.test_mode symbol ∷ []
    new e = ground arith

-- A strategy that subscribes to a symbol is registered with exactly one ticker, the one that the
-- symbol has or else the one that is spawned, and the next price of the symbol goes to that ticker
-- and nowhere else.
pub subscription_lem :
    {F : Type 0} (m : MarketData) (symbol : String) (pid strategy : Pid) (u : TickerUpdate F)
    → u.symbol ≡ symbol
    → (sends_of {F = F} (receive pid m (subscribe_with_strategy symbol strategy)).1
        ≡ (ticker_of m symbol pid, register_strategy strategy []) ∷ [])
      × ((receive pid
            (receive {F = F} pid m (subscribe_with_strategy symbol strategy)).0
            (ticker_update u)).1
          ≡ send (ticker_of m symbol pid) (ticker_update u) ∷ [])
unfolding receive
subscription_lem {F = F} m symbol pid strategy u h =
    let m' : MarketData = (subscribe {F = F} m symbol pid).0 in
    (
      ap (λ l. sends_of ((subscribe {F = F} m symbol pid).1 ++ l))
            (to_ticker_lem m' symbol (register_strategy strategy []) (ticker_of m symbol pid)
              (subscribed-lookup F m symbol pid))
          ∙ sends_of-subscribe m symbol pid (ticker_of m symbol pid)
              (register_strategy strategy []),
      to_ticker_lem m' u.symbol (ticker_update u) (ticker_of m symbol pid)
          (ap (λ s. lookup s m'.tickers) h ∙ subscribed-lookup F m symbol pid),
    )
