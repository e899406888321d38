-- ===== src/Payments/RefundAccounting/Union.antt =====
-- apps/api/src/payments/refund-accounting.ts: the order in which observations come does not matter.
use i_code_host_pro.Prelude.{ℕ, ◌≡◌, refl, ap, ◌∙◌, List}
use i_code_host_pro.Prelude.Int.{ℤ, pos, int_laws}
use mathlib.Core.List.{Permᴰ}
use i_code_host_pro.Payments.RefundAccounting.{
  Refund, RefundObservation, count_observation, observe, observed_external,
}

count_observation_comm :
    (id : ℕ) (refunds : List Refund) (o p : RefundObservation) (sum : ℤ)
    → count_observation id refunds o (count_observation id refunds p sum)
      ≡ count_observation id refunds p (count_observation id refunds o sum)
unfolding count_observation
count_observation_comm id refunds o p sum = grind int_laws

observe-perm :
    (id : ℕ) (refunds : List Refund) {os ps : List RefundObservation}
    → Permᴰ os ps
    → (sum : ℤ) → observe id refunds os sum ≡ observe id refunds ps sum
unfolding observe
observe-perm id refunds Permᴰ.nil sum = refl
observe-perm id refunds (Permᴰ.cons {b = o} e p) sum =
    rw e (observe-perm id refunds p (count_observation id refunds o sum))
observe-perm id refunds (Permᴰ.swap {a} {b} {l = l} e f) sum =
    rw (← e, ← f) (ap (observe id refunds l) (count_observation_comm id refunds b a sum))
observe-perm id refunds (Permᴰ.trans p q) sum =
    observe-perm id refunds p sum ∙ observe-perm id refunds q sum

-- The external sum is the same in whatever order the observations are read.
observed_external-perm :
    (id : ℕ) (refunds : List Refund) {os ps : List RefundObservation}
    → Permᴰ os ps
    → observed_external id refunds os ≡ observed_external id refunds ps
unfolding observed_external
observed_external-perm id refunds p = observe-perm id refunds p (pos 0)
