-- ===== src/Trading/Orders/Book.antt =====
-- trading/order_manager.go: an update of an order that is kept.
use distributed_framework.Common.Dict.{lookup, insert, lookup-insert}
use distributed_framework.Trading.Float.{Float}
use distributed_framework.Trading.Messages.{OrderUpdate, TradingEffect, send, order_update}
use distributed_framework.Trading.Orders.{OrderManager, update_order, updated, can_print}
use distributed_framework.Common.{
  ◌>>=◌, String, ◌≡◌, true, some, List, [], arith, if◌then◌else◌, ◌==◌, ==_iff, nat_keys,
  string_keys, inl, inr, Option-cases, refl, none, ◌∷◌,
}

module _ {F : Type 0} (fl : Float F) where
  -- An update of an ID that can be printed goes through, and changes the order of that ID, if there
  -- is one, and no other.
  pub update_order_lem :
      (o : OrderManager F) (u : OrderUpdate F) (id : String)
      → can_print u.order_id ≡ true
      → (o' : OrderManager F) × (es : List (TradingEffect F)) × (update_order fl o u
          ≡ some (o', es))
        × (lookup id o'.orders ≡ (
            if u.order_id == id
            then lookup id o.orders >>= (λ ord. some (updated fl ord u))
            else lookup id o.orders))
  unfolding update_order
  update_order_lem o u id p = elim (Option-cases (lookup u.order_id o.orders)) [
    | inl absent ↦ (o, [], rw (update_order, absent) refl, ground (arith, ==_iff u.order_id id))
    | inr (ord, found) ↦
        let o' : OrderManager F = record o {
          orders = insert u.order_id (updated fl ord u) o.orders;
        } in
        let es : List (TradingEffect F) = elim (lookup ord.symbol o.strategies) [
          | none ↦ []
          | some pid ↦ send pid (order_update u) ∷ []
        ] in
        (
          o',
          es,
          rw (update_order, found, p) refl,
          ground (
            arith,
            ==_iff u.order_id id,
            lookup-insert u.order_id id (updated fl ord u) o.orders,
          ),
        )
  ]
