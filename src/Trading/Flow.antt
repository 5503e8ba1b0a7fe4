-- ===== src/Trading/Flow.antt =====
-- trading: a price on its way through the strategy actor, the risk manager, the order manager and
-- the executor.
use Prim.Native.String.{len as str_len}
use distributed_framework.Common.Dict.{lookup, insert, lookup-insert}
use distributed_framework.Actor.Pid.{Pid, equals, equals_iff}
use distributed_framework.Trading.Float.{Float}
use distributed_framework.Trading.Messages.{
  Signal, Order, TickerUpdate, TradingMessage, TradingEffect, send, respond, spawn_ticker,
  start_feed, end_feeds, poison, signal, ticker_update, OrderUpdate, order, order_update,
}
use distributed_framework.Trading.Market.{Strategy, StrategyActor, strategy_receive, check_signal}
use distributed_framework.Trading.Risk.{RiskManager, Reasons, check_risk}
use distributed_framework.Trading.Risk.{receive as risk_receive}
use distributed_framework.Trading.Orders.{
  OrderManager, Executor, receive, execute, create_order, execute_order, send_to_executor,
  can_print, updated,
}
use distributed_framework.Trading.Orders.Book.{update_order_lem}
use distributed_framework.Common.{
  ℕ, String, ◌≡◌, inl, inr, true, ◌&&◌, none, some, List, [], ◌∷◌, ◌++◌, if◌then◌else◌,
  Option-cases, ◌==◌, nat_keys, string_keys, refl, Bool-cases, ◌>>=◌, Option, arith, ltb,
}

-- What the engine sends to an actor, of all that is asked of it.
unfoldable pub messages_to : {F : Type 0} → Pid → List (TradingEffect F) → List (TradingMessage F)
unfolding equals
messages_to p [] = []
messages_to p (send q m ∷ es) = if equals q p then m ∷ messages_to p es else messages_to p es
messages_to p (respond m ∷ es) = messages_to p es
messages_to p (spawn_ticker s q ∷ es) = messages_to p es
messages_to p (start_feed b s ∷ es) = messages_to p es
messages_to p (end_feeds ∷ es) = messages_to p es
messages_to p (poison q ∷ es) = messages_to p es

equals_refl : (p : Pid) → equals p p ≡ true
equals_refl p = (equals_iff p p).1 refl

-- Each message handled in turn, up to a panic.
unfoldable pub handle :
    {F A : Type 0}
    → (A → TradingMessage F → Option (A × List (TradingEffect F)))
    → A
    → List (TradingMessage F)
    → Option (A × List (TradingEffect F))
handle f a [] = some (a, [])
handle f a (m ∷ ms) = do (a1, es) ← f a m; (a2, es') ← handle f a1 ms; some (a2, es ++ es')

-- The actors of one strategy, with their PIDs.
pub record Desk (F S : Type 0) : Type 0 where
  pub actor : StrategyActor F S
  pub risk : RiskManager F
  pub orders : OrderManager F
  pub executor : Executor
  pub risk_pid : Pid
  pub order_pid : Pid
  pub executor_pid : Pid

-- The actors know one another, and the executor is a test executor of the default exchange.
pub record Connected {F S : Type 0} (d : Desk F S) : Type 0 where
  pub actor_risk : d.actor.risk_manager ≡ d.risk_pid
  pub risk_orders : d.risk.order_manager ≡ d.order_pid
  pub executor_orders : d.executor.order_manager ≡ d.order_pid
  pub orders_executor : lookup "binance" d.orders.executors ≡ some d.executor_pid
  pub tests : d.executor.test_mode ≡ true

-- The times at which the actors look at the clock.
pub record Clock : Type 0 where
  pub signalled : ℕ
  pub checked : ℕ
  pub created : ℕ
  pub opened : ℕ
  pub filled : ℕ

module _ {F S : Type 0} (fl : Float F) (texts : Reasons F) (st : Strategy F S) (id : String)
    (t : Clock) where
  -- A price at the strategy actor, and every message that comes of it at the actor it is sent to.
  -- What goes back to the strategy actor is only printed there. There is no result where an actor
  -- panics.
  unfoldable pub on_price : Desk F S → TickerUpdate F → Option (Desk F S)
  unfolding handle messages_to strategy_receive risk_receive receive execute
  on_price d u = do
    let (a, to_risk) = strategy_receive st t.signalled d.actor (ticker_update u)
    (r, to_orders) ←
        handle (λ r m. some (risk_receive fl texts r t.checked m)) d.risk
          (messages_to d.risk_pid to_risk)
    (o, to_executor) ←
        handle (λ o m. receive fl id t.created o m) d.orders (messages_to d.order_pid to_orders)
    (e, updates) ←
        handle (λ e m. execute fl t.opened t.filled e m >>= λ es. some (e, es)) d.executor
          (messages_to d.executor_pid to_executor)
    (o', es) ← handle (λ o m. receive fl id t.created o m) o (messages_to d.order_pid updates)
    some (record d { actor = a; risk = r; orders = o'; executor = e })

  -- The signal as the strategy actor passes it on.
  abbrev pub stamped : Desk F S → Signal F → Signal F
  stamped d s = record s { strategy = d.actor.name; timestamp = t.signalled }

  -- The order that a signal ends in.
  unfoldable pub filled_order : Signal F → Order F
  filled_order s = record {
    id = id;
    symbol = s.symbol;
    side = s.side;
    kind = "limit";
    price = s.price;
    quantity = s.quantity;
    filled_qty = s.quantity;
    status = "filled";
    exchange = "binance";
    strategy = s.strategy;
    create_time = t.created;
    update_time = t.filled;
  }

  abbrev opened_update : OrderUpdate F
  opened_update = record {
    order_id = id;
    status = "open";
    filled_qty = fl.of_nat 0;
    avg_price = fl.of_nat 0;
    timestamp = t.opened;
  }

  abbrev filled_update : Signal F → OrderUpdate F
  filled_update s = record {
    order_id = id;
    status = "filled";
    filled_qty = s.quantity;
    avg_price = s.price;
    timestamp = t.filled;
  }

  abbrev with_order : OrderManager F → Signal F → OrderManager F
  with_order o s = record o { orders = insert id (create_order fl id t.created s) o.orders }

  signalled :
      (d : Desk F S) (s : Signal F)
      → Connected d
      → can_print id ≡ true
      → receive fl id t.created d.orders (signal s)
        ≡ some (
          with_order d.orders s,
          send d.executor_pid (order (create_order fl id t.created s)) ∷ [],
        )
  unfolding receive create_order
  signalled d s c p = rw (p, send_to_executor, c.orders_executor) refl

  executed :
      (d : Desk F S) (s : Signal F)
      → Connected d
      → can_print id ≡ true
      → execute fl t.opened t.filled d.executor (order (create_order fl id t.created s))
        ≡ some (
            send d.order_pid (order_update opened_update)
            ∷ send d.order_pid (order_update (filled_update s))
            ∷ [])
  unfolding execute execute_order create_order
  executed d s c p = rw (p, c.tests, c.executor_orders) refl

  -- The two updates that an executed order sends, at the order manager.
  updates_handled :
      (o : OrderManager F) (s : Signal F) (other : String)
      → can_print id ≡ true
      → (o' : OrderManager F) × (es : List (TradingEffect F)) × (handle
            (λ o m. receive fl id t.created o m)
            (with_order o s)
            (order_update opened_update ∷ order_update (filled_update s) ∷ [])
          ≡ some (o', es))
        × (lookup other o'.orders
            ≡ (if id == other then some (filled_order s) else lookup other o.orders))
  unfolding handle receive filled_order updated create_order
  updates_handled o s other p =
      let (o1, es1, h1, k1) = update_order_lem fl (with_order o s) opened_update other p in
      let (o2, es2, h2, k2) = update_order_lem fl o1 (filled_update s) other p in
      (
        o2,
        es1 ++ (es2 ++ []),
        rw (h1, h2) refl,
        ground (arith, k1, k2, lookup-insert id other (create_order fl id t.created s) o.orders),
      )

  -- When a price reaches a strategy actor and every message that comes of it is handled where it
  -- is sent, no actor panics, and then, if the strategy made a signal that the risk manager
  -- approves, the order book ends with a limit order for it under the new ID at the exchange
  -- binance, which is filled in full and has the signal's symbol, side, price and quantity, the
  -- strategy's name and the times of its making and its fill, and with every other order as it
  -- was; if not, every order is as it was. The actors know one another, the executor is a test
  -- executor of that exchange, and the new ID has at least eight characters.
  pub price_to_fill :
      (d : Desk F S) (u : TickerUpdate F) (other : String)
      → Connected d
      → ltb 7 (str_len id) ≡ true
      → (on_price d u >>= λ d'. some (lookup other d'.orders.orders))
        ≡ some (elim (st.on_tick d.actor.state u).1 [
          | none ↦ lookup other d.orders.orders
          | some s ↦
              if (check_risk fl texts d.risk t.checked (stamped d s)).1.approved && id == other
              then some (filled_order (stamped d s))
              else lookup other d.orders.orders
        ])
  unfolding on_price handle messages_to strategy_receive check_signal risk_receive can_print
  price_to_fill d u other c p = elim (Option-cases (st.on_tick d.actor.state u).1) [
    | inl none_made ↦ rw none_made refl
    | inr (s, made) ↦
        let (o', es, h, k) = updates_handled d.orders (stamped d s) other p in
        elim (Bool-cases (check_risk fl texts d.risk t.checked (stamped d s)).1.approved) [
          | inl yes_approved ↦
              rw
                (
                  made,
                  check_signal,
                  c.actor_risk,
                  equals_refl d.risk_pid,
                  yes_approved,
                  c.risk_orders,
                  equals_refl d.order_pid,
                  signalled d (stamped d s) c p,
                  equals_refl d.executor_pid,
                  executed d (stamped d s) c p,
                )
                (rw (equals_refl d.order_pid, h, k) refl)
          | inr no_approved ↦
              rw (made, check_signal, c.actor_risk, equals_refl d.risk_pid, no_approved) refl
        ]
  ]
