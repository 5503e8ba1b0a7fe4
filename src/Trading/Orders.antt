-- ===== src/Trading/Orders.antt =====
-- trading/order_manager.go, trading/executor.go and trading/monitor.go: orders from a signal to
-- their end.
pub mod Book
use distributed_framework.Common.Dict.{Dict, lookup, insert}
use distributed_framework.Actor.Pid.{Pid}
use distributed_framework.Trading.Float.{Float}
use distributed_framework.Trading.Messages.{
  Signal, Order, OrderUpdate, RiskResult, TradingMessage, TradingEffect, send, started, stopped,
  register_executor, register_strategy, signal, order, order_update, cancel_order, risk_check,
  risk_result, print_stats,
}
use Prim.Native.String.{len as str_len}
use distributed_framework.Common.{
  ltb, Option, ℕ, ◌+◌, String, Bool, none, some, List, [], ◌∷◌, if◌then◌else◌, ◌==◌, nat_keys,
  string_keys,
}

-- Orders are shared by pointer with nobody: the executor gets a copy.
pub record OrderManager (F : Type 0) : Type 0 where
  pub executors : Dict String Pid
  pub orders : Dict String (Order F)
  pub strategies : Dict String Pid

unfoldable pub new_order_manager : {F : Type 0} → OrderManager F
new_order_manager = record { executors = []; orders = []; strategies = [] }

-- `id[:8]`, which is only printed, is there; where the ID is shorter the slice panics. IDs are
-- ASCII text. An operation that panics has no result here: its actor starts again as a new one.
unfoldable pub can_print : String → Bool
can_print id = ltb 7 (str_len id)

module _ {F : Type 0} (fl : Float F) where
  -- `id` is what `generateOrderID` makes, and `now` the time.
  unfoldable pub create_order : String → ℕ → Signal F → Order F
  create_order id now s = record {
    id = id;
    symbol = s.symbol;
    side = s.side;
    kind = "limit";
    price = s.price;
    quantity = s.quantity;
    filled_qty = fl.of_nat 0;
    status = "pending";
    exchange = "binance";
    strategy = s.strategy;
    create_time = now;
    update_time = 0;
  }

  unfoldable pub send_to_executor : OrderManager F → Order F → List (TradingEffect F)
  send_to_executor o ord = elim (lookup ord.exchange o.executors) [
    | none ↦ []
    | some pid ↦ send pid (order ord) ∷ []
  ]

  unfoldable pub store_strategies : Dict String Pid → Pid → List String → Dict String Pid
  store_strategies m pid [] = m
  store_strategies m pid (s ∷ ss) = store_strategies (insert s pid m) pid ss

  unfoldable pub updated : Order F → OrderUpdate F → Order F
  updated ord u = record ord {
    status = u.status;
    filled_qty = u.filled_qty;
    update_time = u.timestamp;
  }

  unfoldable pub update_order :
      OrderManager F → OrderUpdate F → Option (OrderManager F × List (TradingEffect F))
  unfolding updated can_print
  update_order o u = elim (lookup u.order_id o.orders) [
    | none ↦ some (o, [])
    | some ord ↦
        if can_print u.order_id
        then some (
          record o { orders = insert u.order_id (updated ord u) o.orders },
          elim (lookup ord.symbol o.strategies) [
            | none ↦ []
            | some pid ↦ send pid (order_update u) ∷ []
          ],
        )
        else none
  ]

  unfoldable pub forward_cancel : OrderManager F → String → List (TradingEffect F)
  forward_cancel o id = elim (lookup id o.orders) [
    | none ↦ []
    | some ord ↦ elim (lookup ord.exchange o.executors) [
      | none ↦ []
      | some pid ↦ send pid (cancel_order id) ∷ []
    ]
  ]

  unfoldable pub receive :
      String
      → ℕ
      → OrderManager F
      → TradingMessage F
      → Option (OrderManager F × List (TradingEffect F))
  unfolding can_print create_order send_to_executor store_strategies update_order forward_cancel
  receive id now o (register_executor exchange pid) =
      some (record o { executors = insert exchange pid o.executors }, [])
  receive id now o (register_strategy pid symbols) =
      some (record o { strategies = store_strategies o.strategies pid symbols }, [])
  receive id now o (signal s) =
      let ord : Order F = create_order id now s in
      if can_print ord.id
      then some (record o { orders = insert ord.id ord o.orders }, send_to_executor o ord)
      else none
  receive id now o (order_update u) = update_order o u
  receive id now o (cancel_order oid) = some (o, forward_cancel o oid)
  receive id now o other = some (o, [])

pub record Executor : Type 0 where
  pub exchange : String
  pub order_manager : Pid
  pub api_key : String
  pub api_secret : String
  pub test_mode : Bool

module _ {F : Type 0} (fl : Float F) where
  -- What the goroutine of `executeOrder` sends, in its order; `opened` and `filled` are the times
  -- that it reads. Both interface functions of the exchange answer no error.
  unfoldable pub execute_order : ℕ → ℕ → Executor → Order F → Option (List (TradingEffect F))
  unfolding can_print
  execute_order opened filled e ord =
      if can_print ord.id
      then some (
          if e.test_mode
          then (send e.order_manager (
                order_update (record {
                  order_id = ord.id;
                  status = "open";
                  filled_qty = fl.of_nat 0;
                  avg_price = fl.of_nat 0;
                  timestamp = opened;
                }))
              ∷ send e.order_manager (
                  order_update (record {
                    order_id = ord.id;
                    status = "filled";
                    filled_qty = ord.quantity;
                    avg_price = ord.price;
                    timestamp = filled;
                  }))
              ∷ [])
          else [])
      else none

  unfoldable pub cancel : ℕ → Executor → String → Option (List (TradingEffect F))
  unfolding can_print
  cancel now e id =
      if can_print id
      then some (
          if e.test_mode
          then send e.order_manager (
              order_update (record {
                order_id = id;
                status = "canceled";
                filled_qty = fl.of_nat 0;
                avg_price = fl.of_nat 0;
                timestamp = now;
              }))
            ∷ []
          else [])
      else none

  unfoldable pub execute : ℕ → ℕ → Executor → TradingMessage F → Option (List (TradingEffect F))
  unfolding execute_order cancel
  execute opened filled e (order ord) = execute_order opened filled e ord
  execute opened filled e (cancel_order id) = cancel opened e id
  execute opened filled e other = some []

pub record SystemStats (F : Type 0) : Type 0 where
  pub start_time : ℕ
  pub total_signals : ℕ
  pub approved_signals : ℕ
  pub rejected_signals : ℕ
  pub total_orders : ℕ
  pub filled_orders : ℕ
  pub canceled_orders : ℕ
  pub total_pnl : F

-- The monitor's counters, which are `int64`, as numbers. The engine's events and the statistics
-- are only printed.
unfoldable pub monitor : {F : Type 0} → SystemStats F → TradingMessage F → SystemStats F
monitor m (risk_check s) = record m { total_signals = m.total_signals + 1 }
monitor m (risk_result r) =
    if r.approved
    then record m { approved_signals = m.approved_signals + 1 }
    else record m { rejected_signals = m.rejected_signals + 1 }
monitor m (order o) = record m { total_orders = m.total_orders + 1 }
monitor m (order_update u) =
    if u.status == "filled"
    then record m { filled_orders = m.filled_orders + 1 }
    else (if u.status == "canceled"
        then record m { canceled_orders = m.canceled_orders + 1 }
        else m)
monitor m other = m
