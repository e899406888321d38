-- ===== src/Store/OrderLifecycle.antt =====
-- apps/api/src/store/order-lifecycle.service.ts: `expireStalePending`, the pass that cancels orders
-- whose payment never came. The clock and the time of grace are arguments.
pub mod Laws
pub mod Invoices
mod Tests
use i_code_host_pro.Prelude.{
  ℕ, suc, ◌+◌, ◌≡◌, Bool, true, false, not, ◌&&◌, Option, none, some, List, [], ◌∷◌, any, filter,
  find, take, ltb, ◌==◌, if◌then◌else◌, is_some, map,
}

pub data OrderStatus : Type 0 where
  pending_payment paid provisioning active suspended cancelled refunded : OrderStatus

pub data InvoiceStatus : Type 0 where
  invoice_unpaid invoice_paid invoice_cancelled invoice_refunded invoice_credited : InvoiceStatus

pub record OrderRow : Type 0 where
  pub id : ℕ
  pub status : OrderStatus
  pub created_at : ℕ
  pub renews_order_id : Option ℕ

pub record Invoice : Type 0 where
  pub id : ℕ
  pub order_id : Option ℕ
  pub status : InvoiceStatus

-- A row of `OrderStatusHistory`, without its note.
pub record StatusChange : Type 0 where
  pub order_id : ℕ
  pub status : OrderStatus

-- The tables, and the orders of the audit entries `order.expired`.
pub record Shop : Type 0 where
  pub orders : List OrderRow
  pub invoices : List Invoice
  pub history : List StatusChange
  pub audit : List ℕ

abbrev pub is_pending_payment : OrderStatus → Bool
is_pending_payment pending_payment = true
is_pending_payment _ = false

abbrev pub is_unpaid : InvoiceStatus → Bool
is_unpaid invoice_unpaid = true
is_unpaid _ = false

-- The filter of `findMany`: pending, made before the cutoff, and no renewal.
unfoldable pub is_stale : ℕ → ℕ → OrderRow → Bool
is_stale now ttl_ms o =
    is_pending_payment o.status
    && (ltb (o.created_at + ttl_ms) now && not (is_some o.renews_order_id))

unfoldable pub stale_orders : ℕ → ℕ → Shop → List OrderRow
stale_orders now ttl_ms shop = take 25 (filter (is_stale now ttl_ms) shop.orders)

-- The compare-and-set on an order, and on each invoice of it.
unfoldable pub cancel_order : ℕ → OrderRow → OrderRow
cancel_order id o =
    if o.id == id && is_pending_payment o.status then record o { status = cancelled } else o

unfoldable pub cancel_invoice : ℕ → Invoice → Invoice
cancel_invoice id i =
    if elim i.order_id [ none ↦ false | some o ↦ o == id ] && is_unpaid i.status
    then record i { status = invoice_cancelled }
    else i

unfoldable pub is_open : ℕ → OrderRow → Bool
is_open id o = o.id == id && is_pending_payment o.status

-- The transaction on one order; the flag is what it returns.
unfoldable pub expire_transaction : ℕ → Shop → Shop × Bool
expire_transaction id shop =
    if any (is_open id) shop.orders
    then (
      record shop {
        orders = map (cancel_order id) shop.orders;
        invoices = map (cancel_invoice id) shop.invoices;
        history = record { order_id = id; status = cancelled } ∷ shop.history;
      },
      true,
    )
    else (shop, false)

-- How the database answers for an order.
pub data Answer : Type 0 where
  answers transaction_fails audit_fails : Answer

-- One turn of the loop; `others` is what other processes commit before the transaction.
unfoldable pub expire_one : Answer → (Shop → Shop) → ℕ → Shop → Shop × Bool
expire_one answer others id shop =
    let seen = others shop in
    let (after, done) = expire_transaction id seen in
    elim answer [
      | transaction_fails ↦ (seen, false)
      | audit_fails ↦ (after, false)
      | answers ↦ if done then (record after { audit = id ∷ after.audit }, true) else (after, false)
    ]

-- The loop, with the number of orders expired.
unfoldable pub expire_all : (ℕ → Answer) → (ℕ → Shop → Shop) → List OrderRow → Shop → Shop × ℕ
expire_all answer others [] shop = (shop, 0)
expire_all answer others (o ∷ os) shop =
    let (shop₁, done) = expire_one (answer o.id) (others o.id) o.id shop in
    let (shop₂, n) = expire_all answer others os shop₁ in (shop₂, if done then suc n else n)

unfoldable pub expire_stale_pending : (ℕ → Answer) → (ℕ → Shop → Shop) → ℕ → ℕ → Shop → Shop × ℕ
expire_stale_pending answer others now ttl_ms shop =
    expire_all answer others (stale_orders now ttl_ms shop) shop
