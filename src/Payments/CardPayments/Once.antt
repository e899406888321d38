-- ===== src/Payments/CardPayments/Once.antt =====
-- apps/api/src/payments/card-payments.service.ts: over any history of events, a payment is settled at
-- most once.
use i_code_host_pro.Prelude.{
  ℕ, suc, ◌≡◌, ◌≢◌, ◌≤◌, refl, sym, ap, subst, ◌∙◌, true, Option, some, List, [], ◌∷◌, arith,
  Bool-cases, inl, inr, if◌then◌else◌, ◌==◌, All,
}
use i_code_host_pro.Payments.RefundAccounting.{CardPayment, find_payment}
use i_code_host_pro.Checkout.Types.{Database}
use i_code_host_pro.Payments.CardPayments.{
  Env, ConfirmPaidInput, ConfirmOutcome, is_live, confirm_paid, outcome_of,
}
use i_code_host_pro.Payments.CardPayments.Advance.{status_rank, IsAdvance}
use i_code_host_pro.Payments.CardPayments.Settled.{KeepsCards}
use i_code_host_pro.Payments.CardPayments.Confirmed.{
  HasUniqueKeys, All-find, confirm_paid-IsAdvance,
}
use i_code_host_pro.Payments.CardPayments.Paid.{pays, confirm_paid-IsPaid}
use i_code_host_pro.Payments.CardPayments.Trace.{
  Step, confirm, Trace, stop, quiet, told, Step-IsAdvance, IsAdvance-HasUniqueKeys, find-IsAdvance,
}

-- How many outcomes say that the payment of a reference was settled.
unfoldable pub count_paid : ℕ → List ConfirmOutcome → ℕ
count_paid ref [] = 0
count_paid ref (o ∷ os) = let rest = count_paid ref os in if pays ref o then suc rest else rest

-- No payment of the reference is live.
abbrev IsClosed : ℕ → List CardPayment → Type 0
IsClosed ref = All (λ p. p.reference ≡ ref → 2 ≤ status_rank p.status)

IsAdvance-IsClosed :
    (ref : ℕ) (ps ps' : List CardPayment) → IsAdvance ps ps' → IsClosed ref ps → IsClosed ref ps'
IsAdvance-IsClosed ref [] [] a h = tt
IsAdvance-IsClosed ref [] (p' ∷ ps') a h = elim a [ ]
IsAdvance-IsClosed ref (p ∷ ps) [] a h = elim a [ ]
IsAdvance-IsClosed ref (p ∷ ps) (p' ∷ ps') a h = (
  λ mine. omega (arith, a.0.rank, h.0 (sym a.0.reference ∙ mine)),
  IsAdvance-IsClosed ref ps ps' a.1 h.1,
)

All-IsClosed :
    (ref : ℕ) (p : CardPayment) (ps : List CardPayment)
    → p.reference ≡ ref
    → All (λ q. (q.id ≢ p.id) × (q.reference ≢ p.reference)) ps
    → IsClosed ref ps
All-IsClosed ref p [] same h = tt
All-IsClosed ref p (q ∷ ps) same h =
    (λ mine. absurd (h.0.1 (mine ∙ sym same)), All-IsClosed ref p ps same h.1)

-- The one row of a reference closes it.
find-IsClosed :
    (ref id : ℕ) (r : CardPayment) (ps : List CardPayment)
    → HasUniqueKeys ps
    → find_payment id ps ≡ some r
    → r.reference ≡ ref
    → 2 ≤ status_rank r.status
    → IsClosed ref ps
unfolding find_payment
find-IsClosed ref id r [] h found same closed = tt
find-IsClosed ref id r (x ∷ ps) h found same closed = elim (Bool-cases (x.id == id)) [
  | inl here ↦
      let first : r ≡ x = ground arith in
      (
        λ mine. subst (λ p. 2 ≤ status_rank p.status) first closed,
        All-IsClosed ref x ps (ap (λ p. p.reference) (sym first) ∙ same) h.0,
      )
  | inr later ↦
      let there : find_payment id ps ≡ some r = ground arith in
      (
        λ mine. absurd (
            (All-find (λ q. (q.id ≢ x.id) × (q.reference ≢ x.reference)) _ r ps h.0 there).1
              (same ∙ sym mine)),
        find-IsClosed ref id r ps h.1 there same closed,
      )
]

live_rank : (p : CardPayment) → is_live p.status ≡ true → status_rank p.status ≤ 1
unfolding status_rank
live_rank p live = ground arith

-- A confirmation does not settle a payment that is closed, and closes the one that it settles.
confirm_closes :
    (env : Env) (input : ConfirmPaidInput) (ref : ℕ) (db : Database) (c : ConfirmOutcome)
    → KeepsCards env
    → HasUniqueKeys db.cards.payments
    → outcome_of env input db ≡ some c
    → pays ref c ≡ true
    → (¬ IsClosed ref db.cards.payments) × IsClosed ref (confirm_paid env input db).1.cards.payments
unfolding find_payment
confirm_closes env input ref db c keeps unique h paid =
    let (row, found, live, (mine, (p, there, rank))) =
      confirm_paid-IsPaid env input ref db c unique h paid in
    let a = confirm_paid-IsAdvance env input keeps db unique in
    let (p', again, step) = find-IsAdvance row.id row _ _ a found in
    let same : p ≡ p' = ground (arith, there, again) in
    (
      λ closed. omega (
        arith,
        live_rank row live,
        All-find (λ q. q.reference ≡ ref → 2 ≤ status_rank q.status) _ row db.cards.payments closed
            found mine,
      ),
      find-IsClosed ref row.id p _ (IsAdvance-HasUniqueKeys _ _ a unique) there
          (ap (λ q. q.reference) same ∙ step.reference ∙ mine) (omega (arith, rank)),
    )

Step-IsClosed :
    {db db' : Database} {o : Option ConfirmOutcome} (ref : ℕ) (c : ConfirmOutcome)
    → Step db o db'
    → HasUniqueKeys db.cards.payments
    → o ≡ some c
    → pays ref c ≡ true
    → (¬ IsClosed ref db.cards.payments) × IsClosed ref db'.cards.payments
Step-IsClosed ref c (confirm env input db keeps) unique h paid =
    confirm_closes env input ref db c keeps unique h paid
Step-IsClosed ref c _ unique h paid = absurd (ground arith)

none_paid :
    {db db' : Database} {os : List ConfirmOutcome} (ref : ℕ)
    → Trace db os db'
    → HasUniqueKeys db.cards.payments
    → IsClosed ref db.cards.payments
    → count_paid ref os ≡ 0
unfolding count_paid
none_paid ref (stop db) unique closed = refl
none_paid ref (quiet st rest) unique closed =
    let a = Step-IsAdvance st unique in
    none_paid ref rest (IsAdvance-HasUniqueKeys _ _ a unique) (IsAdvance-IsClosed ref _ _ a closed)
none_paid ref (told {o = c} st rest) unique closed =
    let a = Step-IsAdvance st unique in
    let later =
      none_paid ref rest (IsAdvance-HasUniqueKeys _ _ a unique)
        (IsAdvance-IsClosed ref _ _ a closed) in
    elim (Bool-cases (pays ref c)) [
      | inl paid ↦ absurd ((Step-IsClosed ref c st unique refl paid).0 closed)
      | inr other ↦ rw other later
    ]

-- Over any history of events, in any order, with any repetition of confirmations by webhooks and by
-- readings, at most one confirmation credits or settles the payment of a reference.
pub paid_at_most_once :
    {db db' : Database} {os : List ConfirmOutcome} (ref : ℕ)
    → Trace db os db'
    → HasUniqueKeys db.cards.payments
    → count_paid ref os ≤ 1
unfolding count_paid
paid_at_most_once ref (stop db) unique = omega arith
paid_at_most_once ref (quiet st rest) unique =
    paid_at_most_once ref rest (IsAdvance-HasUniqueKeys _ _ (Step-IsAdvance st unique) unique)
paid_at_most_once ref (told {o = c} st rest) unique =
    let unique' = IsAdvance-HasUniqueKeys _ _ (Step-IsAdvance st unique) unique in
    elim (Bool-cases (pays ref c)) [
      | inr other ↦ rw other (paid_at_most_once ref rest unique')
      | inl paid ↦
          let closed = (Step-IsClosed ref c st unique refl paid).1 in
          rw (paid, none_paid ref rest unique' closed) (omega arith)
    ]
