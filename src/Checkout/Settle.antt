-- ===== src/Checkout/Settle.antt =====
-- apps/api/src/store/checkout.service.ts: the writes of `confirmOrderInTx`, one after the other: the
-- compare-and-set, the invoices and the history, the rights, the link of the invoice, and the
-- hosting service.
use i_code_host_pro.Prelude.{
  ℕ, ◌&&◌, ◌||◌, Bool, true, false, not, Option, none, some, List, ◌∷◌, map, find, any,
  if◌then◌else◌, ◌==◌, or_else, is_some,
}
use i_code_host_pro.Prelude.Text.{Text}
use i_code_host_pro.Prelude.Actions.{Action, done, give, refuse, ◌>>=◌}
use i_code_host_pro.Store.OrderLifecycle.{
  OrderStatus, paid, provisioning, active, suspended, is_pending_payment, is_unpaid, invoice_paid,
}
use i_code_host_pro.Store.BillingCycle.{BillingCycle, onetime, Date, add_billing_cycle}
use i_code_host_pro.Wallet.Db.{find_customer}
use i_code_host_pro.Checkout.Types
use i_code_host_pro.Checkout.Types.{
  Order, Invoice, Note, free_note, simulator_note, wallet_note, card_note, renewal_note,
  transfer_note, Subscription, HostingPack, C3CatalogProduct, Tracking, HostingService, Database,
  free, admin_transfer, card_simulator, wallet, card, ConfirmPaidContext, SubscriptionAction,
  subscription_created, subscription_upgraded, ConfirmTxOutcome, ConfirmPaidResult, Refusal,
  order_not_found, not_confirmable, unstable, no_account, subscription_exists, pack_missing,
  snapshot_invalid, unique_violation, Env,
}
use i_code_host_pro.Checkout.Pack.{load_c3_catalog, build_c3_intent, snapshots_from_pack}
use i_code_host_pro.Checkout.Gate.{find_order, is_active, resolve_subscription_for_order}

-- The states in which an order counts as paid.
abbrev pub is_settled : OrderStatus → Bool
is_settled paid = true
is_settled provisioning = true
is_settled active = true
is_settled suspended = true
is_settled _ = false

abbrev pub is_recurring : BillingCycle → Bool
is_recurring onetime = false
is_recurring _ = true

unfoldable pub confirm_note : ConfirmPaidContext → Note
confirm_note ctx = elim ctx.source [
  | free ↦ free_note
  | admin_transfer ↦ transfer_note ctx.reference
  | card_simulator ↦ simulator_note
  | wallet ↦ wallet_note
  | card ↦ card_note
]

-- `armNow`: the consent is dated, and for a renewal it still holds.
unfoldable pub arm_now : Order → Bool
arm_now o =
    is_recurring o.billing_cycle
    && is_some o.renewal_consent_at
    && (if is_some o.renews_order_id then o.auto_renew else true)

-- The columns that the compare-and-set writes on `o`. Whether the renewal is armed, and its cycle,
-- are those of the order as it was read.
unfoldable pub pay_order : Date → Order → Order → Order
pay_order now read o =
    if is_recurring read.billing_cycle
    then record o {
      status = paid;
      paid_at = some now;
      auto_renew = arm_now read;
      next_billing_date = if arm_now read then add_billing_cycle now read.billing_cycle else none;
    }
    else record o { status = paid; paid_at = some now }

-- `order.updateMany` where the id and the status are given.
unfoldable pub update_orders : ℕ → (OrderStatus → Bool) → (Order → Order) → List Order → List Order
update_orders id p f = map (λ o. if o.id == id && p o.status then f o else o)

-- Whether the compare-and-set finds a row: the id is the primary key.
unfoldable pub is_open : ℕ → List Order → Bool
is_open id orders = elim (find_order id orders) [
  | none ↦ false
  | some o ↦ is_pending_payment o.status
]

abbrev pub is_paid : OrderStatus → Bool
is_paid paid = true
is_paid _ = false

abbrev pub of_order : ℕ → Invoice → Bool
of_order id i = elim i.order_id [ none ↦ false | some o ↦ o == id ]

unfoldable pub pay_invoice : Date → ℕ → Invoice → Invoice
pay_invoice now id i =
    if of_order id i && is_unpaid i.status
    then record i { status = invoice_paid; paid_at = some now }
    else i

unfoldable pub link_invoice : ℕ → ℕ → Invoice → Invoice
link_invoice id sub i = if of_order id i then record i { subscription_id = some sub } else i

-- `customer.userId` of the order; the foreign key has it that the customer is there.
unfoldable pub user_of : Order → Database → Option ℕ
user_of order db = elim (find_customer order.customer_id db.wallet.customers) [
  | none ↦ none
  | some c ↦ c.user_id
]

abbrev pub actor : ConfirmPaidContext → Order → Text
actor ctx order = or_else ctx.actor_email order.customer_email

abbrev pub log_status : ConfirmPaidContext → Order → OrderStatus → Note → Database → Database
log_status ctx order status note db = record db {
  history =
      record { order_id = order.id; status = status; note = note; actor_email = actor ctx order }
      ∷ db.history;
}

-- What the won compare-and-set and the two writes after it make of the tables.
unfoldable pub settle_order : Env → ConfirmPaidContext → Order → Database → Database
settle_order env ctx order db = log_status ctx order paid (confirm_note ctx) (record db {
  orders = update_orders order.id is_pending_payment (pay_order env.now order) db.orders;
  invoices = map (pay_invoice env.now order.id) db.invoices;
})

unfoldable pub activate_renewal : ConfirmPaidContext → Order → Database → Database
activate_renewal ctx order db = log_status ctx order active renewal_note (record db {
  orders = update_orders order.id is_paid (λ o. record o { status = active }) db.orders;
})

abbrev pub is_active_of : ℕ → Subscription → Bool
is_active_of user_id s = s.user_id == user_id && is_active s.status

-- A subscription other than `id` stands for the order: its column is unique.
abbrev pub is_taken : ℕ → ℕ → List Subscription → Bool
is_taken order_id id subs =
    any (λ s. not (s.id == id) && elim s.order_id [ none ↦ false | some o ↦ o == order_id ]) subs

unfoldable pub repoint : Order → ℕ → Subscription → Subscription
repoint order id s =
    if s.id == id then record s { product_id = order.product_id; order_id = some order.id } else s

-- The subscription of an order of a pack, with its id.
unfoldable pub open_subscription :
    Env → Order → Option ℕ → Action Database Refusal (SubscriptionAction × ℕ)
open_subscription env order none db = refuse no_account db
open_subscription env order (some user_id) db =
    elim (find (is_active_of user_id) db.subscriptions) [
      | some s ↦
          if env.is_hosting_c3_enabled
          then refuse subscription_exists db
          else if is_taken order.id s.id db.subscriptions
          then refuse unique_violation db
          else (
            done (subscription_upgraded, s.id),
            record db { subscriptions = map (repoint order s.id) db.subscriptions },
          )
      | none ↦
          if is_taken order.id env.new_subscription_id db.subscriptions
          then refuse unique_violation db
          else (
            done (subscription_created, env.new_subscription_id),
            record db {
              subscriptions =
                  record {
                    id = env.new_subscription_id;
                    user_id = user_id;
                    product_id = order.product_id;
                    status = Types.active;
                    order_id = some order.id;
                  }
                  ∷ db.subscriptions;
            },
          )
    ]

-- The rights of the order: what a renewal, an order of a pack and any other order get.
unfoldable pub open_rights :
    Env
    → ConfirmPaidContext
    → Order
    → Option ℕ
    → Action Database Refusal (Option (SubscriptionAction × ℕ))
open_rights env ctx order user_id db =
    if is_some order.renews_order_id
    then (done none, activate_renewal ctx order db)
    else if is_some order.pack_id
    then (open_subscription env order user_id >>= λ opened. give (some opened)) db
    else give none db

-- The subscription that was opened, or for a renewal that of the chain.
unfoldable pub linked_subscription : Order → Option (SubscriptionAction × ℕ) → Database → Option ℕ
linked_subscription order (some (_, id)) db = some id
linked_subscription order none db =
    if is_some order.renews_order_id
    then elim (resolve_subscription_for_order db order) [ none ↦ none | some s ↦ some s.id ]
    else none

abbrev pub link_invoices : ℕ → Option ℕ → List Invoice → List Invoice
link_invoices order_id none invoices = invoices
link_invoices order_id (some sub) invoices = map (link_invoice order_id sub) invoices

unfoldable pub link_subscription : Order → Option (SubscriptionAction × ℕ) → Database → Database
link_subscription order opened db = record db {
  invoices = link_invoices order.id (linked_subscription order opened db) db.invoices;
}

-- A service other than the one to make stands for the order or for the subscription.
abbrev pub is_service_taken : ℕ → Option ℕ → HostingService → Bool
is_service_taken order_id sub s =
    elim s.order_id [ none ↦ false | some o ↦ o == order_id ] || elim s.subscription_id [
      | none ↦ false
      | some x ↦ elim sub [ none ↦ false | some y ↦ x == y ]
    ]

unfoldable pub create_service :
    Env → Order → ℕ → Option ℕ → C3CatalogProduct → HostingPack → Action Database Refusal (Unit {0})
create_service env order user_id sub product pack db =
    if any (λ t. t.order_id == order.id) db.trackings
    then refuse unique_violation db
    else let tracking : Tracking = record {
      order_id = order.id;
      intent = build_c3_intent order product;
    } in
      let tracked : Database = record db { trackings = tracking ∷ db.trackings } in
      elim (snapshots_from_pack pack (some order.product_name)) [
        | none ↦ refuse snapshot_invalid tracked
        | some snapshots ↦
            if any (is_service_taken order.id sub) db.services
            then refuse unique_violation tracked
            else (
              done tt,
              record tracked {
                services =
                    record {
                      id = env.new_service_id;
                      user_id = user_id;
                      order_id = some order.id;
                      subscription_id = sub;
                      product_id = some order.product_id;
                      pack_id = order.pack_id;
                      deployment_module_id = pack.deployment_module_id;
                      snapshots = snapshots;
                    }
                    ∷ db.services;
              },
            )
      ]

-- Under the flag: the tracking and the service of a first order of a pack.
unfoldable pub open_c3 : Env → Order → Option ℕ → Option ℕ → Action Database Refusal (Unit {0})
open_c3 env order none sub db = give tt db
open_c3 env order (some user_id) sub db =
    if env.is_hosting_c3_enabled && is_some order.pack_id && not (is_some order.renews_order_id)
    then elim (load_c3_catalog order.product_id db.products) [
      | none ↦ refuse pack_missing db
      | some product ↦ elim product.pack [
        | none ↦ refuse pack_missing db
        | some pack ↦ create_service env order user_id sub product pack db
      ]
    ]
    else give tt db
