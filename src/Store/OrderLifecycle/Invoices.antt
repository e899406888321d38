-- ===== src/Store/OrderLifecycle/Invoices.antt =====
-- apps/api/src/store/order-lifecycle.service.ts: an order is cancelled together with its invoices.
use i_code_host_pro.Prelude.{
  ℕ, ◌≡◌, Bool, true, false, some, List, [], ◌∷◌, any, map, arith, All, Bool-cases, inl, inr,
  opt_eq, Option-cases, ◌&&◌,
}
use i_code_host_pro.Store.OrderLifecycle.{
  OrderRow, Invoice, Shop, cancelled, cancel_order, cancel_invoice, expire_transaction, Answer,
  answers, transaction_fails, audit_fails, expire_one, expire_all, expire_stale_pending,
  stale_orders, is_open, OrderStatus, is_unpaid,
}

abbrev is_cancelled : OrderStatus → Bool
is_cancelled cancelled = true
is_cancelled _ = false

-- The invoice is no unpaid invoice of the order, if the order is cancelled.
abbrev pub IsClosed : Invoice → OrderRow → Type 0
IsClosed i o =
    (opt_eq i.order_id (some o.id) && (is_unpaid i.status && is_cancelled o.status)) ≡ false

-- No cancelled order has an unpaid invoice.
unfoldable pub IsSettled : Shop → Type 0
IsSettled shop = All (λ i. All (λ o. IsClosed i o) shop.orders) shop.invoices

cancel-IsClosed :
    (id : ℕ) (i : Invoice) (o : OrderRow)
    → IsClosed i o
    → IsClosed (cancel_invoice id i) (cancel_order id o)
unfolding cancel_invoice cancel_order
cancel-IsClosed id i o h = elim (Option-cases i.order_id) [
  | inl alone ↦ ground arith
  | inr (k, e) ↦ ground arith
]

cancel-All :
    (id : ℕ) (i : Invoice) (os : List OrderRow)
    → All (IsClosed i) os
    → All (IsClosed (cancel_invoice id i)) (map (cancel_order id) os)
cancel-All id i [] h = tt
cancel-All id i (o ∷ os) (h, rest) = (cancel-IsClosed id i o h, cancel-All id i os rest)

cancel_everywhere :
    (id : ℕ) (is : List Invoice) (os : List OrderRow)
    → All (λ i. All (IsClosed i) os) is
    → All (λ i. All (IsClosed i) (map (cancel_order id) os)) (map (cancel_invoice id) is)
cancel_everywhere id [] os h = tt
cancel_everywhere id (i ∷ is) os (h, rest) = (cancel-All id i os h, cancel_everywhere id is os rest)

expire_transaction-IsSettled :
    (id : ℕ) (shop : Shop) → IsSettled shop → IsSettled (expire_transaction id shop).0
unfolding expire_transaction IsSettled
expire_transaction-IsSettled id shop h = elim (Bool-cases (any (is_open id) shop.orders)) [
  | inl there ↦ rw there (cancel_everywhere id shop.invoices shop.orders h)
  | inr gone ↦ rw gone h
]

expire_one-IsSettled :
    (answer : Answer) (others : Shop → Shop) (id : ℕ) (shop : Shop)
    → IsSettled (others shop)
    → IsSettled (expire_one answer others id shop).0
unfolding expire_one IsSettled
expire_one-IsSettled answers others id shop h =
    elim (Bool-cases (expire_transaction id (others shop)).1) [
      | inl done ↦ rw done (unfold IsSettled in expire_transaction-IsSettled id (others shop) h)
      | inr kept ↦ rw kept (unfold IsSettled in expire_transaction-IsSettled id (others shop) h)
    ]
expire_one-IsSettled transaction_fails others id shop h = h
expire_one-IsSettled audit_fails others id shop h = expire_transaction-IsSettled id (others shop) h

module _ (answer : ℕ → Answer) (others : ℕ → Shop → Shop)
    (keeps : (id : ℕ) (d : Shop) → IsSettled d → IsSettled (others id d)) where
  expire_all-IsSettled :
      (os : List OrderRow) (shop : Shop)
      → IsSettled shop
      → IsSettled (expire_all answer others os shop).0
  unfolding expire_all
  expire_all-IsSettled [] shop h = h
  expire_all-IsSettled (o ∷ os) shop h =
      expire_all-IsSettled os _
        (expire_one-IsSettled (answer o.id) (others o.id) o.id shop (keeps o.id shop h))

  -- The pass keeps it that no cancelled order has an unpaid invoice, whichever transactions and audits
  -- fail, if what other processes commit meanwhile keeps it.
  pub expire_stale_pending-IsSettled :
      (now ttl_ms : ℕ) (shop : Shop)
      → IsSettled shop
      → IsSettled (expire_stale_pending answer others now ttl_ms shop).0
  unfolding expire_stale_pending
  expire_stale_pending-IsSettled now ttl_ms shop h =
      expire_all-IsSettled (stale_orders now ttl_ms shop) shop h
