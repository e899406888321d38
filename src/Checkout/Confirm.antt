-- ===== src/Checkout/Confirm.antt =====
-- apps/api/src/store/checkout.service.ts: `confirmOrderInTx`, `confirmOrderWithin` and
-- `confirmOrderPaid`.
pub mod Laws
pub mod Once
pub mod Paid
pub mod Consent
use i_code_host_pro.Prelude.{
  ℕ, ◌≡◌, ◌&&◌, ◌||◌, Bool, true, false, not, Option, none, some, List, [], ◌∷◌, map, find, any,
  if◌then◌else◌, ◌==◌, or_else, is_some,
}
use i_code_host_pro.Prelude.Text.{Text}
use i_code_host_pro.Prelude.Actions.{
  Outcome, Action, done, refused, give, refuse, transaction, ◌>>=◌, ◌>>◌,
}
use i_code_host_pro.Store.OrderLifecycle.{
  OrderStatus, pending_payment, paid, provisioning, active, suspended, cancelled, refunded,
  is_pending_payment, is_unpaid, invoice_paid,
}
use i_code_host_pro.Store.BillingCycle.{BillingCycle, onetime, Date, add_billing_cycle}
use i_code_host_pro.Wallet.Db.{find_customer}
use i_code_host_pro.Checkout.Types
use i_code_host_pro.Checkout.Types.{
  Order, Invoice, Note, free_note, simulator_note, wallet_note, card_note, renewal_note,
  transfer_note, Subscription, HostingPack, C3CatalogProduct, Tracking, HostingService, Database,
  free, admin_transfer, card_simulator, wallet, card, ConfirmPaidContext, SubscriptionAction,
  subscription_created, subscription_upgraded, ConfirmTxOutcome, ConfirmPaidResult, Refusal,
  order_not_found, not_confirmable, unstable, no_account, subscription_exists, pack_missing,
  snapshot_invalid, unique_violation, Env,
}
use i_code_host_pro.Checkout.Pack.{load_c3_catalog, build_c3_intent, snapshots_from_pack}
use i_code_host_pro.Checkout.Gate.{
  find_order, is_active, consent_gate, resolve_subscription_for_order,
}
use i_code_host_pro.Checkout.Settle.{
  activate_renewal, actor, arm_now, confirm_note, create_service, is_active_of, is_open, is_paid,
  is_recurring, is_service_taken, is_settled, is_taken, link_invoice, link_invoices,
  link_subscription, linked_subscription, log_status, of_order, open_c3, open_rights,
  open_subscription, pay_invoice, pay_order, repoint, settle_order, update_orders, user_of,
}

abbrev pub already : Order → Option ℕ → ConfirmTxOutcome
already order user_id = record {
  already_confirmed = true;
  order = order;
  subscription_action = none;
  user_id = user_id;
  renewal = is_some order.renews_order_id;
}

-- From the opened rights to the end.
unfoldable pub finish_order :
    Env
    → Order
    → Option ℕ
    → Option (SubscriptionAction × ℕ)
    → Action Database Refusal ConfirmTxOutcome
finish_order env order user_id opened db =
    (open_c3 env order user_id (elim opened [ none ↦ none | some (_, id) ↦ some id ])
        >> give (record {
          already_confirmed = false;
          order = order;
          subscription_action = elim opened [ none ↦ none | some (a, _) ↦ some a ];
          user_id = user_id;
          renewal = is_some order.renews_order_id;
        }))
      (link_subscription order opened db)

-- From the compare-and-set that was won to the end.
unfoldable pub complete_order :
    Env → ConfirmPaidContext → Order → Option ℕ → Action Database Refusal ConfirmTxOutcome
complete_order env ctx order user_id db =
    (open_rights env ctx order user_id >>= finish_order env order user_id)
      (settle_order env ctx order db)

-- The compare-and-set was lost: the order is read again.
unfoldable pub lost_race : Order → Option ℕ → Action Database Refusal ConfirmTxOutcome
lost_race order user_id db = elim (find_order order.id db.orders) [
  | none ↦ refuse unstable db
  | some cur ↦ if is_settled cur.status then give (already order user_id) db else refuse unstable db
]

unfoldable pub confirm_pending :
    Env → ConfirmPaidContext → Order → Option ℕ → Action Database Refusal ConfirmTxOutcome
confirm_pending env ctx order user_id db =
    let seen = env.before_cas db in
    if is_open order.id seen.orders
    then complete_order env ctx order user_id seen
    else lost_race order user_id seen

-- `confirmOrderWithin`, and the body of `confirmOrderInTx` after its gate.
unfoldable pub confirm_order_within :
    Env → ConfirmPaidContext → ℕ → Action Database Refusal ConfirmTxOutcome
confirm_order_within env ctx order_id db = elim (find_order order_id db.orders) [
  | none ↦ refuse order_not_found db
  | some order ↦
      if is_pending_payment order.status
      then confirm_pending env ctx order (user_of order db) db
      else if is_settled order.status
      then give (already order (user_of order db)) db
      else refuse (not_confirmable order.status) db
]

-- The flag is `requireRenewalConsent`.
unfoldable pub confirm_order_in_tx :
    Env → ConfirmPaidContext → Bool → ℕ → Action Database Refusal ConfirmTxOutcome
confirm_order_in_tx env ctx false order_id = confirm_order_within env ctx order_id
confirm_order_in_tx env ctx true order_id =
    consent_gate order_id >> confirm_order_within env ctx order_id

-- The audit, the mail and the launch of the provisioning are left out: their failures are caught,
-- and they write none of the tables here.
unfoldable pub confirm_order_paid :
    Env → ConfirmPaidContext → Bool → ℕ → Action Database Refusal ConfirmPaidResult
confirm_order_paid env ctx required order_id db =
    let (r, db') = transaction env.before_cas (confirm_order_in_tx env ctx required order_id) db in
    elim r [
      | refused e ↦ refuse e db'
      | done c ↦
          give
            (record {
              order_id = order_id;
              status =
                  if c.already_confirmed
                  then c.order.status
                  else if c.renewal
                  then active
                  else paid;
              already_confirmed = c.already_confirmed;
              subscription_action = if c.already_confirmed then none else c.subscription_action;
            })
            db'
    ]
