-- ===== src/Payments/RefundAccounting/Laws.antt =====
-- apps/api/src/payments/refund-accounting.ts: the sum is monotone, bounded below by each of its
-- sources, and a second run changes nothing.
use i_code_host_pro.Prelude.{
  ℕ, ◌≡◌, refl, sym, subst, Bool, true, Option, none, some, List, [], ◌∷◌, or_else, arith,
  Option-cases, inl, inr, ==_refl,
}
use i_code_host_pro.Prelude.Int.{ℤ, pos, ◌+ℤ◌, ◌≤ℤ◌, ◌<ℤ◌, max_zero, eq_ℤ_iff, eq_ℤ_refl, int_laws}
use i_code_host_pro.Payments.RefundAccounting.{
  CardPayment, needs_review, Tables, internal_settled, observed_external, is_uncertain, target,
  max_ℤ, observe, next_status, account, update_payment, find_payment, sync_refunded_cents,
}
use i_code_host_pro.Payments.RefundAccounting.Sums.{
  IsLargest, union_cents, internal_settled_sum, observe_sum,
}

max_ℤ-IsLargest : (a b c : ℤ) → IsLargest (max_ℤ (max_ℤ a b) c) a b c
max_ℤ-IsLargest a b c = record {
  first = ground arith;
  second = ground arith;
  third = ground arith;
  attained = ground arith;
}

-- The accounted sum is the largest of what was accounted before, of what the two ledgers add up to
-- and of the provider's cumulative amount.
target-IsLargest :
    (id : ℕ) (pay : CardPayment) (t : Tables) (floor : Option ℤ)
    → pay.id ≡ id
    → IsLargest
        (target pay t floor)
        pay.refunded_cents
        (union_cents id t)
        (max_zero (or_else floor (pos 0)))
unfolding target observed_external
target-IsLargest id pay t floor at =
    let os = t.observations in
    let same : internal_settled id t.refunds +ℤ observe id t.refunds os (pos 0) ≡ union_cents id t =
      rw (internal_settled_sum id t.refunds, observe_sum id t.refunds os (pos 0))
        (grind int_laws) in
    rw (at, ← same)
      (max_ℤ-IsLargest pay.refunded_cents
        (internal_settled id t.refunds +ℤ observe id t.refunds os (pos 0))
        (max_zero (or_else floor (pos 0))))

-- One run never lowers the amount, never takes a payment out of review, and puts it there with a
-- request for intervention exactly when the amount exceeds what was paid.
pub account_lem :
    (pay : CardPayment) (sum : ℤ) (uncertain : Bool)
    → pay.refunded_cents ≤ℤ sum
    → let (pay', r) = account pay sum uncertain in
      (pay'.refunded_cents ≡ sum)
      × (r.refunded_cents ≡ sum)
      × (pay.status ≡ needs_review → pay'.status ≡ needs_review)
      × (pay.amount_cents <ℤ sum
          → (pay'.status ≡ needs_review) × (pay'.intervention_needed ≡ true) × (r.overflow ≡ true))
      × (r.overflow ≡ true → pay.amount_cents <ℤ sum)
unfolding account next_status
account_lem pay sum uncertain h = ground (arith, eq_ℤ_iff sum pay.refunded_cents)

account-id :
    (pay : CardPayment) (sum : ℤ) (uncertain : Bool) → (account pay sum uncertain).0.id ≡ pay.id
unfolding account
account-id pay sum uncertain = ground arith

account_twice :
    (pay : CardPayment) (sum : ℤ) (uncertain : Bool)
    → let pay' = (account pay sum uncertain).0 in (account pay' sum uncertain).0 ≡ pay'
unfolding account next_status
account_twice pay sum uncertain = ground (arith, eq_ℤ_iff sum pay.refunded_cents, eq_ℤ_refl sum)

pub find-update_payment :
    (pay pay' : CardPayment) (ps : List CardPayment)
    → pay'.id ≡ pay.id
    → find_payment pay.id ps ≡ some pay
    → find_payment pay.id (update_payment pay' ps) ≡ some pay'
unfolding find_payment update_payment
find-update_payment pay pay' [] same h = absurd (cc)
find-update_payment pay pay' (p ∷ ps) same h =
    ground (arith, find-update_payment pay pay' ps same, ==_refl pay.id)

update_payment_twice :
    (pay : CardPayment) (ps : List CardPayment)
    → update_payment pay (update_payment pay ps) ≡ update_payment pay ps
unfolding update_payment
update_payment_twice pay [] = refl
update_payment_twice pay (p ∷ ps) = ground (arith, update_payment_twice pay ps, ==_refl pay.id)

find_payment-id :
    (id : ℕ) (pay : CardPayment) (ps : List CardPayment)
    → find_payment id ps ≡ some pay
    → pay.id ≡ id
unfolding find_payment
find_payment-id id pay [] h = absurd (cc)
find_payment-id id pay (p ∷ ps) h = ground (arith, find_payment-id id pay ps)

target_settled :
    (pay pay' : CardPayment) (t : Tables) (ps : List CardPayment) (floor : Option ℤ)
    → pay'.id ≡ pay.id
    → pay'.refunded_cents ≡ target pay t floor
    → target pay' (record t { payments = ps }) floor ≡ target pay t floor
unfolding target
target_settled pay pay' t ps floor same settled = rw (same, settled) (grind arith)

module _ (id : ℕ) (floor : Option ℤ) where
  sync_missing :
      (t : Tables) → find_payment id t.payments ≡ none → sync_refunded_cents id floor t ≡ (t, none)
  unfolding sync_refunded_cents
  sync_missing t h = rw (h, sync_refunded_cents)

  sync_found :
      (t : Tables) (pay : CardPayment)
      → find_payment id t.payments ≡ some pay
      → let (pay', result) =
          account pay (target pay t floor) (is_uncertain pay.id t.refunds t.observations) in
        sync_refunded_cents id floor t
        ≡ (record t { payments = update_payment pay' t.payments }, some result)
  unfolding sync_refunded_cents
  sync_found t pay h = rw (h, sync_refunded_cents)

  -- A second run, with the same cumulative amount and on the tables that the first left, leaves them
  -- as they are.
  pub sync_refunded_cents_twice :
      (t : Tables)
      → let t' = (sync_refunded_cents id floor t).0 in (sync_refunded_cents id floor t').0 ≡ t'
  sync_refunded_cents_twice t = elim (Option-cases (find_payment id t.payments)) [
    | inl missing ↦ rw (sync_missing t missing) (rw (sync_missing t missing))
    | inr (pay, found) ↦
        let sum = target pay t floor in
        let uncertain = is_uncertain pay.id t.refunds t.observations in
        let pay' = (account pay sum uncertain).0 in
        let t' = record t { payments = update_payment pay' t.payments } in
        let same = account-id pay sum uncertain in
        let least = target-IsLargest pay.id pay t floor refl in
        let settled = (account_lem pay sum uncertain least.first).0 in
        let at_id = find_payment-id id pay t.payments found in
        let found' =
          subst (λ k. find_payment k (update_payment pay' t.payments) ≡ some pay') at_id
            (find-update_payment pay pay' t.payments same
              (subst (λ k. find_payment k t.payments ≡ some pay) (sym at_id) found)) in
        rw (sync_found t pay found) (
          rw (sync_found t' pay' found') (
            rw
              (
                target_settled pay pay' t (update_payment pay' t.payments) floor same settled,
                same,
                account_twice pay sum uncertain,
              )
              (rw (update_payment_twice pay' t.payments))))
  ]
