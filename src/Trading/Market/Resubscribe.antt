-- ===== src/Trading/Market/Resubscribe.antt =====
-- trading/market_data.go: the goroutines that feed a symbol which is subscribed again and again.
use distributed_framework.Common.Dict.{lookup, has, lookup-insert, has-delete, insert, delete}
use distributed_framework.Actor.Pid.{Pid}
use distributed_framework.Trading.Messages.{
  TradingEffect, start_feed, end_feeds, stopped, subscribe_ticker, unsubscribe_ticker, spawn_ticker,
  poison,
}
use distributed_framework.Trading.Market.{MarketData, subscribe, unsubscribe, receive}
use distributed_framework.Common.{
  ℕ, ◌+◌, String, ◌≡◌, some, List, [], ◌∷◌, ◌++◌, arith, if◌then◌else◌, length, ◌==◌, nat_keys,
  string_keys, refl, ◌∙◌, false, ==_refl, true, ◌&&◌,
}

-- How many goroutines feed a symbol with made-up prices after the effects, where `n` did before.
unfoldable pub feeds : {F : Type 0} → String → ℕ → List (TradingEffect F) → ℕ
feeds symbol n [] = n
feeds symbol n (start_feed test s ∷ es) = feeds symbol (if test && s == symbol then n + 1 else n) es
feeds symbol n (end_feeds ∷ es) = feeds symbol 0 es
feeds symbol n (e ∷ es) = feeds symbol n es

-- The last PID of a list, or else the first.
abbrev pub last_of : Pid → List Pid → Pid
last_of old [] = old
last_of old (pid ∷ pids) = last_of pid pids

module _ (F : Type 0) where
  -- An unsubscription and a subscription for each PID, which the new ticker gets.
  unfoldable pub resubscribe : MarketData → String → List Pid → MarketData × List (TradingEffect F)
  unfolding receive
  resubscribe m symbol [] = (m, [])
  resubscribe m symbol (pid ∷ pids) =
      let (m1, es) = receive {F = F} pid m (unsubscribe_ticker symbol) in
      let (m2, es') = receive pid m1 (subscribe_ticker symbol) in
      let (m3, es'') = resubscribe m2 symbol pids in (m3, es ++ es' ++ es'')

  abbrev renewed : MarketData → String → Pid → MarketData
  renewed m symbol pid = record m { tickers = insert symbol pid (delete symbol m.tickers) }

  unsubscribed :
      (m : MarketData) (symbol : String) (old pid : Pid)
      → lookup symbol m.tickers ≡ some old
      → receive {F = F} pid m (unsubscribe_ticker symbol)
        ≡ (record m { tickers = delete symbol m.tickers }, poison old ∷ [])
  unfolding receive
  unsubscribed m symbol old pid h = rw (h, unsubscribe) refl

  subscribed :
      (m : MarketData) (symbol : String) (pid : Pid)
      → has symbol m.tickers ≡ false
      → receive {F = F} pid m (subscribe_ticker symbol) ≡ (
        record m { tickers = insert symbol pid m.tickers },
        spawn_ticker symbol pid ∷ start_feed m.test_mode symbol ∷ [],
      )
  unfolding receive
  subscribed m symbol pid h = rw (h, subscribe) refl

  gone : (m : MarketData) (symbol : String) → has symbol (delete symbol m.tickers) ≡ false
  gone m symbol = has-delete symbol symbol m.tickers ∙ rw (==_refl symbol) refl

  there :
      (m : MarketData) (symbol : String) (pid : Pid)
      → lookup symbol (renewed m symbol pid).tickers ≡ some pid
  there m symbol pid =
      lookup-insert symbol symbol pid (delete symbol m.tickers) ∙ rw (==_refl symbol) refl

  round :
      (m : MarketData) (symbol : String) (old pid : Pid) (pids : List Pid)
      → lookup symbol m.tickers ≡ some old
      → resubscribe m symbol (pid ∷ pids) ≡ (
        (resubscribe (renewed m symbol pid) symbol pids).0,
        (poison old ∷ [])
            ++ (spawn_ticker symbol pid ∷ start_feed m.test_mode symbol ∷ [])
            ++ (resubscribe (renewed m symbol pid) symbol pids).1,
      )
  unfolding resubscribe
  round m symbol old pid pids h = rw (unsubscribed m symbol old pid h) (
      rw (subscribed (record m { tickers = delete symbol m.tickers }) symbol pid (gone m symbol))
        refl)

  none_left : (m : MarketData) (symbol : String) → resubscribe m symbol [] ≡ (m, [])
  unfolding resubscribe
  none_left m symbol = refl

  counted :
      (m : MarketData) (symbol : String) (n : ℕ) (old pid : Pid) (es : List (TradingEffect F))
      → m.test_mode ≡ true
      → feeds symbol n (
          (poison old ∷ []) ++ (spawn_ticker symbol pid ∷ start_feed m.test_mode symbol ∷ []) ++ es)
        ≡ feeds symbol (n + 1) es
  unfolding feeds
  counted m symbol n old pid es t = rw (t, ==_refl symbol) refl

  -- In test mode, a symbol that has a ticker and is unsubscribed and subscribed any number of
  -- times is fed by one more goroutine each time, while it has one ticker, the last one; a Stopped
  -- ends all these goroutines.
  pub resubscribe_lem :
      (m : MarketData) (symbol : String) (n : ℕ) (old : Pid) (pids : List Pid)
      → m.test_mode ≡ true
      → lookup symbol m.tickers ≡ some old
      → (feeds symbol n (resubscribe m symbol pids).1 ≡ n + length pids)
        × (lookup symbol (resubscribe m symbol pids).0.tickers ≡ some (last_of old pids))
        × (feeds symbol (n + length pids) (receive {F = F} old m stopped).1 ≡ 0)
  unfolding feeds receive
  resubscribe_lem m symbol n old [] t h = rw (none_left m symbol) (omega arith, h, refl)
  resubscribe_lem m symbol n old (pid ∷ pids) t h =
      let (k, l, z) =
        resubscribe_lem (renewed m symbol pid) symbol (n + 1) pid pids t (there m symbol pid) in
      rw (round m symbol old pid pids h) (
        counted m symbol n old pid (resubscribe (renewed m symbol pid) symbol pids).1 t
            ∙ k
            ∙ omega arith,
        l,
        refl,
      )
