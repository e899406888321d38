-- ===== src/Checkout/Confirm/Consent.antt =====
-- apps/api/src/store/checkout.service.ts: an automatic confirmation asks for the consent and for a
-- subscription that still runs.
use i_code_host_pro.Prelude.{ℕ, ◌≡◌, true, some, arith, Option-cases, inl, inr, is_some, find, ◌==◌}
use i_code_host_pro.Prelude.Actions.{done, Outcome-cases, transaction}
use i_code_host_pro.Checkout.Types.{
  Order, Subscription, Database, ConfirmPaidContext, ConfirmPaidResult, Env,
}
use i_code_host_pro.Checkout.Gate.{
  find_order, consent_gate, renewal_charge_gate, check_subscription, resolve_subscription_for_order,
  is_active,
}
use i_code_host_pro.Checkout.Confirm.{confirm_order_in_tx, confirm_order_paid}

-- The order may be charged with nobody there to agree: its automatic renewal is on, it renews an
-- order, and the subscription of its chain is active and of the same product.
pub record IsChargeable (db : Database) (o : Order) : Type 0 where
  pub consents : o.auto_renew ≡ true
  pub in_chain : is_some o.renews_order_id ≡ true
  pub resolved : Subscription
  pub of_chain : resolve_subscription_for_order db o ≡ some resolved
  pub sub : Subscription
  pub locked : find (λ s. s.id == resolved.id) db.subscriptions ≡ some sub
  pub runs : is_active sub.status ≡ true
  pub same_product : sub.product_id ≡ o.product_id

renewal_charge_gate_passes :
    (o : Order) (db : Database) (u : Unit {0})
    → o.auto_renew ≡ true
    → (renewal_charge_gate o db).0 ≡ done u
    → IsChargeable db o
unfolding renewal_charge_gate check_subscription
renewal_charge_gate_passes o db u consents h =
    elim (Option-cases (resolve_subscription_for_order db o)) [
      | inl missing ↦ absurd (ground arith)
      | inr (resolved, of_chain) ↦
          elim (Option-cases (find (λ s. s.id == resolved.id) db.subscriptions)) [
            | inl gone ↦ absurd (ground arith)
            | inr (sub, locked) ↦ record {
              consents = consents;
              in_chain = ground arith;
              resolved = resolved;
              of_chain = of_chain;
              sub = sub;
              locked = locked;
              runs = ground arith;
              same_product = ground arith;
            }
          ]
    ]

consent_gate_passes :
    (id : ℕ) (db : Database) (u : Unit {0})
    → (consent_gate id db).0 ≡ done u
    → (o : Order) × (find_order id db.orders ≡ some o) × IsChargeable db o
unfolding consent_gate
consent_gate_passes id db u h = elim (Option-cases (find_order id db.orders)) [
  | inl missing ↦ absurd (ground arith)
  | inr (o, found) ↦ (o, found, renewal_charge_gate_passes o db u (ground arith) (ground arith))
]

module _ (env : Env) (ctx : ConfirmPaidContext) (id : ℕ) (db : Database) where
  -- An automatic confirmation that is not refused was made of an order whose automatic renewal was
  -- on, that renews an order, and whose chain has an active subscription of the order's product.
  pub confirm_order_paid-IsChargeable :
      (r : ConfirmPaidResult) (db' : Database)
      → confirm_order_paid env ctx true id db ≡ (done r, db')
      → (o : Order) × (find_order id db.orders ≡ some o) × IsChargeable db o
  unfolding confirm_order_paid confirm_order_in_tx transaction
  confirm_order_paid-IsChargeable r db' h = elim (Outcome-cases (consent_gate id db).0) [
    | inl (e, fails) ↦ absurd (ground arith)
    | inr (u, passes) ↦ consent_gate_passes id db u passes
  ]
