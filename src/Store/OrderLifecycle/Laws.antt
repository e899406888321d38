-- ===== src/Store/OrderLifecycle/Laws.antt =====
-- apps/api/src/store/order-lifecycle.service.ts: which orders the pass may touch, and what it reports.
use i_code_host_pro.Prelude.{
  ℕ, suc, zero, ◌+◌, ◌≡◌, ◌≢◌, ◌∙◌, refl, false, Option, List, [], ◌∷◌, any, filter, find, take,
  length, ◌==◌, ==_iff, if◌then◌else◌, map, arith, All, Bool-cases, inl, inr, ◌&&◌,
}
use i_code_host_pro.Store.OrderLifecycle.{
  OrderRow, Shop, is_stale, stale_orders, cancel_order, expire_transaction, Answer, answers,
  transaction_fails, audit_fails, expire_one, expire_all, expire_stale_pending,
}

abbrev pub find_order : ℕ → List OrderRow → Option OrderRow
find_order id = find (λ o. o.id == id)

find-cancel_order_ne :
    (id j : ℕ) (os : List OrderRow)
    → j ≢ id
    → find_order j (map (cancel_order id) os) ≡ find_order j os
unfolding cancel_order
find-cancel_order_ne id j [] h = refl
find-cancel_order_ne id j (o ∷ os) h = ground (arith, find-cancel_order_ne id j os h)

expire_one_ne :
    (answer : Answer) (others : Shop → Shop) (id j : ℕ) (shop : Shop)
    → j ≢ id
    → find_order j (others shop).orders ≡ find_order j shop.orders
    → find_order j (expire_one answer others id shop).0.orders ≡ find_order j shop.orders
unfolding expire_one expire_transaction
expire_one_ne answers others id j shop h same =
    ground (arith, find-cancel_order_ne id j (others shop).orders h)
expire_one_ne transaction_fails others id j shop h same = same
expire_one_ne audit_fails others id j shop h same =
    ground (arith, find-cancel_order_ne id j (others shop).orders h)

expire_one_audited :
    (answer : Answer) (others : Shop → Shop) (id : ℕ) (shop : Shop)
    → (others shop).audit ≡ shop.audit
    → let (after, done) = expire_one answer others id shop in
      length after.audit ≡ (if done then 1 else 0) + length shop.audit
unfolding expire_one expire_transaction
expire_one_audited answers others id shop same = ground arith
expire_one_audited transaction_fails others id shop same = ground arith
expire_one_audited audit_fails others id shop same = ground arith

module _ (answer : ℕ → Answer) (others : ℕ → Shop → Shop) where
  expire_all_ne :
      (j : ℕ) (os : List OrderRow) (shop : Shop)
      → All (λ o. j ≢ o.id) os
      → ((id : ℕ) (d : Shop) → find_order j (others id d).orders ≡ find_order j d.orders)
      → find_order j (expire_all answer others os shop).0.orders ≡ find_order j shop.orders
  unfolding expire_all
  expire_all_ne j [] shop h same = refl
  expire_all_ne j (o ∷ os) shop (h, rest) same =
      expire_all_ne j os (expire_one (answer o.id) (others o.id) o.id shop).0 rest same
      ∙ expire_one_ne (answer o.id) (others o.id) o.id j shop h (same o.id shop)

  -- An order is left as it was if no row with its id was stale when the pass began: a renewal, an
  -- order that is not pending and one that is too young are never expired, whichever queries fail, if
  -- other processes leave the order alone.
  pub expire_stale_pending_ne :
      (now ttl_ms j : ℕ) (shop : Shop)
      → any (λ o. (o.id == j) && is_stale now ttl_ms o) shop.orders ≡ false
      → ((id : ℕ) (d : Shop) → find_order j (others id d).orders ≡ find_order j d.orders)
      → find_order j (expire_stale_pending answer others now ttl_ms shop).0.orders
        ≡ find_order j shop.orders
  unfolding expire_stale_pending stale_orders
  expire_stale_pending_ne now ttl_ms j shop fresh same =
      expire_all_ne j _ shop (not_listed 25 shop.orders fresh) same
    where
      not_listed :
          (n : ℕ) (os : List OrderRow)
          → any (λ o. (o.id == j) && is_stale now ttl_ms o) os ≡ false
          → All (λ o. j ≢ o.id) (take n (filter (is_stale now ttl_ms) os))
      not_listed zero os h = tt
      not_listed (suc n) [] h = tt
      not_listed (suc n) (o ∷ os) h = elim (Bool-cases (is_stale now ttl_ms o)) [
        | inl stale ↦
            rw stale (λ e. absurd (ground (arith, ==_iff o.id j)), not_listed n os (ground arith))
        | inr kept ↦ rw kept (not_listed (suc n) os (ground arith))
      ]

  expire_all_audited :
      (os : List OrderRow) (shop : Shop)
      → ((k : ℕ) (d : Shop) → (others k d).audit ≡ d.audit)
      → let (after, n) = expire_all answer others os shop in
        length after.audit ≡ n + length shop.audit
  unfolding expire_all
  expire_all_audited [] shop same = omega arith
  expire_all_audited (o ∷ os) shop same =
      let one = expire_one_audited (answer o.id) (others o.id) o.id shop (same o.id shop) in
      let rest = expire_all_audited os (expire_one (answer o.id) (others o.id) o.id shop).0 same in
      ground (arith, one, rest)

  -- The number of orders that the pass reports is the number of audit entries that it writes,
  -- whichever transactions and audits fail, if other processes write no such entry.
  expire_stale_pending_audited :
      (now ttl_ms : ℕ) (shop : Shop)
      → ((k : ℕ) (d : Shop) → (others k d).audit ≡ d.audit)
      → let (after, n) = expire_stale_pending answer others now ttl_ms shop in
        length after.audit ≡ n + length shop.audit
  unfolding expire_stale_pending
  expire_stale_pending_audited now ttl_ms shop same =
      expire_all_audited (stale_orders now ttl_ms shop) shop same
