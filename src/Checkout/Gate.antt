-- ===== src/Checkout/Gate.antt =====
-- apps/api/src/store/checkout.service.ts: `renewalChargeGateInTx` and
-- `resolveSubscriptionIdForOrder`, the guard of an automatic charge.
use i_code_host_pro.Prelude.{
  ℕ, zero, suc, Bool, true, false, not, Option, none, some, List, [], ◌∷◌, find, any, if◌then◌else◌,
  ◌==◌,
}
use i_code_host_pro.Prelude.Actions.{Action, give, refuse}
use i_code_host_pro.Checkout.Types.{
  Order, Subscription, SubscriptionStatus, active, Database, Refusal, order_not_found,
  renewal_revoked, not_in_chain, no_subscription, product_changed, subscription_inactive,
}

unfoldable pub find_order : ℕ → List Order → Option Order
find_order id = find (λ o. o.id == id)

-- The parent of an order, or none where the row is missing.
abbrev pub parent : List Order → ℕ → Option ℕ
parent orders id = elim (find_order id orders) [ none ↦ none | some o ↦ o.renews_order_id ]

-- The loop: the orders at the cursor and above it, at most as many as the guard allows.
unfoldable pub ancestors : ℕ → List Order → Option ℕ → List ℕ
ancestors zero orders cursor = []
ancestors (suc guard) orders none = []
ancestors (suc guard) orders (some c) = c ∷ ancestors guard orders (parent orders c)

abbrev pub is_of_order : List ℕ → Subscription → Bool
is_of_order chain s = elim s.order_id [ none ↦ false | some o ↦ any (λ c. c == o) chain ]

-- The newest subscription of the chain.
unfoldable pub resolve_subscription_for_order : Database → Order → Option Subscription
resolve_subscription_for_order db order =
    find (is_of_order (order.id ∷ ancestors 50 db.orders order.renews_order_id)) db.subscriptions

abbrev pub is_active : SubscriptionStatus → Bool
is_active active = true
is_active _ = false

-- The row is read again under its lock by the id that was resolved.
unfoldable pub check_subscription : Order → Option Subscription → Action Database Refusal (Unit {0})
check_subscription order none = refuse (subscription_inactive none)
check_subscription order (some sub) =
    if not (is_active sub.status)
    then refuse (subscription_inactive (some sub.status))
    else if sub.product_id == order.product_id
    then give tt
    else refuse product_changed

unfoldable pub renewal_charge_gate : Order → Action Database Refusal (Unit {0})
renewal_charge_gate order db = elim order.renews_order_id [
  | none ↦ refuse not_in_chain db
  | some r ↦ elim (resolve_subscription_for_order db order) [
    | none ↦ refuse no_subscription db
    | some sub ↦ check_subscription order (find (λ s. s.id == sub.id) db.subscriptions) db
  ]
]

-- What `requireRenewalConsent` asks for, on the row that is locked.
unfoldable pub consent_gate : ℕ → Action Database Refusal (Unit {0})
consent_gate order_id db = elim (find_order order_id db.orders) [
  | none ↦ refuse order_not_found db
  | some o ↦ if not o.auto_renew then refuse renewal_revoked db else renewal_charge_gate o db
]
