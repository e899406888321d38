-- ===== src/Store/OrderLifecycle/Tests.antt =====
-- apps/api/src/store/order-lifecycle.service.ts: a run of the pass, and the theorems applied there.
use i_code_host_pro.Prelude.{ℕ, ◌≡◌, refl, none, some, [], ◌∷◌, ◌==◌, if◌then◌else◌}
use i_code_host_pro.Store.OrderLifecycle.{
  pending_payment, cancelled, invoice_unpaid, invoice_cancelled, OrderRow, Shop, is_stale,
  stale_orders, cancel_order, cancel_invoice, is_open, expire_transaction, Answer, answers,
  transaction_fails, expire_one, expire_all, expire_stale_pending,
}
use i_code_host_pro.Store.OrderLifecycle.Laws.{find_order, expire_stale_pending_ne}
use i_code_host_pro.Store.OrderLifecycle.Invoices.{IsSettled, expire_stale_pending-IsSettled}

abbrev late : OrderRow
late = record { id = 1; status = pending_payment; created_at = 10; renews_order_id = none }

-- A late order, a renewal that is as late, and a late order whose transaction fails.
abbrev shop : Shop
shop = record {
  orders = late ∷ record late { id = 2; renews_order_id = some 1 } ∷ record late { id = 3 } ∷ [];
  invoices = record { id = 6; order_id = some 1; status = invoice_unpaid } ∷ [];
  history = [];
  audit = [];
}

abbrev answer : ℕ → Answer
answer id = if id == 3 then transaction_fails else answers

abbrev alone : ℕ → Shop → Shop
alone id d = d

shop-expired : expire_stale_pending answer alone 500 48 shop ≡ (
  record {
    orders =
        record late { status = cancelled }
        ∷ record late { id = 2; renews_order_id = some 1 }
        ∷ record late { id = 3 }
        ∷ [];
    invoices = record { id = 6; order_id = some 1; status = invoice_cancelled } ∷ [];
    history = record { order_id = 1; status = cancelled } ∷ [];
    audit = 1 ∷ [];
  },
  1,
)
unfolding expire_stale_pending stale_orders is_stale expire_all expire_one expire_transaction
    is_open cancel_order cancel_invoice
shop-expired = refl

expire_stale_pending_ne_example :
    find_order 2 (expire_stale_pending answer alone 500 48 shop).0.orders ≡ find_order 2 shop.orders
unfolding is_stale
expire_stale_pending_ne_example =
    expire_stale_pending_ne answer alone 500 48 2 shop refl (λ id d. refl)

shop-IsSettled : IsSettled shop
unfolding IsSettled
shop-IsSettled = ((refl, (refl, (refl, tt))), tt)

expire_stale_pending-IsSettled_example : IsSettled (expire_stale_pending answer alone 500 48 shop).0
expire_stale_pending-IsSettled_example =
    expire_stale_pending-IsSettled answer alone (λ id d h. h) 500 48 shop shop-IsSettled
