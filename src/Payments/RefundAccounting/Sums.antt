-- ===== src/Payments/RefundAccounting/Sums.antt =====
-- apps/api/src/payments/refund-accounting.ts: the amount of a payment as the sum over the refunds
-- made here and the sum over the refunds that only the provider knows.
use i_code_host_pro.Prelude.{
  ℕ, ◌≡◌, refl, not, ◌&&◌, ◌||◌, ◌==◌, Bool, Option, some, List, [], ◌∷◌, filter, any, is_some,
  or_else, opt_eq, arith, if◌then◌else◌, ◌⊎◌,
}
use i_code_host_pro.Prelude.Int.{ℤ, pos, ◌+ℤ◌, ◌≤ℤ◌, ltb_ℤ, max_zero, int_laws}
use i_code_host_pro.Payments.RefundAccounting.{
  CardPayment, Tables, RefundSyncResult, is_needs_review, find_payment, Refund, RefundObservation,
  internal_settled, is_internal_ref, count_observation, observe, is_uncertain, is_refund_succeeded,
}

abbrev pub sum_of {ℓ} : {A : Type ℓ} → (A → ℤ) → List A → ℤ
sum_of f [] = pos 0
sum_of f (x ∷ xs) = f x +ℤ sum_of f xs

-- The refunds of the payment that were made here and have succeeded.
abbrev pub settled_refunds : ℕ → List Refund → List Refund
settled_refunds id =
    filter (λ r. opt_eq r.card_payment_id (some id) && is_refund_succeeded r.status)

-- The observations of the payment that no refund of it stands for.
abbrev pub outside_refunds : ℕ → List Refund → List RefundObservation → List RefundObservation
outside_refunds id refunds = filter (λ o.
    o.card_payment_id == id
    && not (
        any (λ r. opt_eq r.card_payment_id (some id) && opt_eq r.provider_ref (some o.provider_ref))
          refunds))

pub internal_settled_sum :
    (id : ℕ) (refunds : List Refund)
    → internal_settled id refunds ≡ sum_of (λ r. r.amount_cents) (settled_refunds id refunds)
unfolding internal_settled
internal_settled_sum id [] = refl
internal_settled_sum id (r ∷ rs) = ground (arith, internal_settled_sum id rs)

is_internal_ref-any :
    (id ref : ℕ) (refunds : List Refund)
    → is_internal_ref id refunds ref
      ≡ any (λ r. opt_eq r.card_payment_id (some id) && opt_eq r.provider_ref (some ref)) refunds
unfolding is_internal_ref
is_internal_ref-any id ref [] = refl
is_internal_ref-any id ref (r ∷ rs) = ground (arith, is_internal_ref-any id ref rs)

pub observe_sum :
    (id : ℕ) (refunds : List Refund) (os : List RefundObservation) (sum : ℤ)
    → observe id refunds os sum
      ≡ sum
        +ℤ sum_of (λ o. max_zero (or_else o.amount_cents (pos 0))) (outside_refunds id refunds os)
unfolding observe count_observation
observe_sum id refunds [] sum = omega int_laws
observe_sum id refunds (o ∷ os) sum =
    rw (observe_sum id refunds os (count_observation id refunds o sum))
      (grind (int_laws, is_internal_ref-any id o.provider_ref refunds))

pub is_uncertain-any :
    (id : ℕ) (refunds : List Refund) (os : List RefundObservation)
    → is_uncertain id refunds os
      ≡ any
          (λ o. not (is_some o.amount_cents) && not o.is_acknowledged)
          (outside_refunds id refunds os)
unfolding is_uncertain
is_uncertain-any id refunds [] = refl
is_uncertain-any id refunds (o ∷ os) =
    ground (arith, is_uncertain-any id refunds os, is_internal_ref-any id o.provider_ref refunds)

-- `x` is the largest of three integers.
pub record IsLargest (x a b c : ℤ) : Type 0 where
  pub first : a ≤ℤ x
  pub second : b ≤ℤ x
  pub third : c ≤ℤ x
  pub attained : (x ≡ a) ⊎ (x ≡ b) ⊎ (x ≡ c)

-- The refunds of the payment, made here and observed outside, together.
abbrev pub union_cents : ℕ → Tables → ℤ
union_cents id t =
    sum_of (λ r. r.amount_cents) (settled_refunds id t.refunds)
    +ℤ sum_of (λ o. max_zero (or_else o.amount_cents (pos 0)))
        (outside_refunds id t.refunds t.observations)

-- Some refund observed outside has no amount, and nobody acknowledged it.
abbrev pub has_unknown_amount : ℕ → Tables → Bool
has_unknown_amount id t =
    any (λ o. not (is_some o.amount_cents) && not o.is_acknowledged)
      (outside_refunds id t.refunds t.observations)

-- What a run on the payment `pay` makes of the tables, and what it returns.
pub record IsAccounted (id : ℕ) (floor : Option ℤ) (t : Tables) (pay : CardPayment) (t' : Tables)
    (result : Option RefundSyncResult) : Type 0 where
  pub after : CardPayment
  pub largest :
      IsLargest after.refunded_cents pay.refunded_cents
        (union_cents id t)
        (max_zero (or_else floor (pos 0)))
  pub stored :
      (j : ℕ)
      → find_payment j t'.payments ≡ (if j == id then some after else find_payment j t.payments)
  pub refunds : t'.refunds ≡ t.refunds
  pub observations : t'.observations ≡ t.observations
  pub in_review :
      is_needs_review after.status
      ≡ (is_needs_review pay.status || ltb_ℤ pay.amount_cents after.refunded_cents)
  pub intervention : after.intervention_needed ≡ (
      pay.intervention_needed
      || ltb_ℤ pay.amount_cents after.refunded_cents
      || has_unknown_amount id t)
  pub paid : after.amount_cents ≡ pay.amount_cents
  pub returned :
      result
      ≡ some (record {
        refunded_cents = after.refunded_cents;
        overflow = ltb_ℤ pay.amount_cents after.refunded_cents;
        changed =
            ltb_ℤ pay.amount_cents after.refunded_cents
            || ltb_ℤ pay.refunded_cents after.refunded_cents;
        uncertain = has_unknown_amount id t;
      })
