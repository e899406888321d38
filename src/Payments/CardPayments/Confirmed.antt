-- ===== src/Payments/CardPayments/Confirmed.antt =====
-- apps/api/src/payments/card-payments.service.ts: `confirmPaid` advances the payments.
use i_code_host_pro.Prelude.{
  ℕ, ◌≡◌, ◌≢◌, refl, ap, subst, Bool, true, Option, none, some, List, [], ◌∷◌, arith, Option-cases,
  Bool-cases, inl, inr, ◌==◌, find, All,
}
use i_code_host_pro.Prelude.Actions.{Outcome-cases, transaction}
use i_code_host_pro.Payments.RefundAccounting.{
  CardPayment, CardPaymentKind, topup, order_payment, find_payment,
}
use i_code_host_pro.Checkout.Types.{Database}
use i_code_host_pro.Payments.CardPayments.{
  Env, ConfirmPaidInput, is_live, is_terminal, is_nil, problems, locate, settle_kind, settle_live,
  confirm_row, confirm_in_tx, confirm_paid,
}
use i_code_host_pro.Payments.CardPayments.Advance.{status_rank, IsAdvance, IsAdvance-refl}
use i_code_host_pro.Payments.CardPayments.Settled.{
  KeepsCards, settle_order_in_tx-IsAdvance, settle_topup_in_tx-IsAdvance, put_payment-IsAdvance,
}

-- No two payments share an id or a reference: both columns are unique.
abbrev pub HasUniqueKeys : List CardPayment → Type 0
HasUniqueKeys [] = Unit
HasUniqueKeys (p ∷ ps) =
    All (λ q. (q.id ≢ p.id) × (q.reference ≢ p.reference)) ps × HasUniqueKeys ps

pub All-find {ℓ} :
    {A : Type 0} (P : A → Type ℓ) (q : A → Bool) (a : A) (xs : List A)
    → All P xs
    → find q xs ≡ some a
    → P a
All-find P q a [] h found = absurd (cc)
All-find P q a (x ∷ xs) h found = elim (Bool-cases (q x)) [
  | inl yes_it ↦ subst P (ground arith) h.0
  | inr skips ↦ All-find P q a xs h.1 (ground arith)
]

-- Whatever a query finds, its id finds.
find_payment-find :
    (q : CardPayment → Bool) (p : CardPayment) (ps : List CardPayment)
    → HasUniqueKeys ps
    → find q ps ≡ some p
    → find_payment p.id ps ≡ some p
unfolding find_payment
find_payment-find q p [] h found = absurd (cc)
find_payment-find q p (x ∷ ps) h found = elim (Bool-cases (q x)) [
  | inl yes_it ↦ let first : x ≡ p = ground arith in ground (arith, ap (λ r. r.id) first)
  | inr skips ↦
      let there : find q ps ≡ some p = ground arith in
      let (other, _) =
        All-find (λ r. (r.id ≢ x.id) × (r.reference ≢ x.reference)) q p ps h.0 there in
      ground (arith, other, find_payment-find q p ps h.1 there)
]

pub locate-find_payment :
    (s r : Option ℕ) (p : CardPayment) (ps : List CardPayment)
    → HasUniqueKeys ps
    → locate s r ps ≡ some p
    → find_payment p.id ps ≡ some p
unfolding locate
locate-find_payment (some s) r p ps h found = find_payment-find _ p ps h found
locate-find_payment none (some r) p ps h found = find_payment-find _ p ps h found
locate-find_payment none none p ps h found = absurd (cc)

module _ (env : Env) (input : ConfirmPaidInput) (keeps : KeepsCards env) where
  settle_kind-IsAdvance :
      (kind : CardPaymentKind) (row : CardPayment) (db : Database)
      → find_payment row.id db.cards.payments ≡ some row
      → is_live row.status ≡ true
      → IsAdvance db.cards.payments (settle_kind kind env input row db).1.cards.payments
  unfolding settle_kind
  settle_kind-IsAdvance topup row db found live =
      settle_topup_in_tx-IsAdvance env input row db found live
  settle_kind-IsAdvance order_payment row db found live =
      settle_order_in_tx-IsAdvance env input row db keeps found live

  settle_live-IsAdvance :
      (row : CardPayment) (db : Database)
      → find_payment row.id db.cards.payments ≡ some row
      → is_live row.status ≡ true
      → IsAdvance db.cards.payments (settle_live env input row db).1.cards.payments
  unfolding settle_live status_rank
  settle_live-IsAdvance row db found live = elim (Bool-cases (is_nil (problems input row))) [
    | inl agrees ↦ rw (agrees, settle_live) (settle_kind-IsAdvance row.kind row db found live)
    | inr disagrees ↦
        rw (disagrees, settle_live)
          (put_payment-IsAdvance env input row _ db found
            (record { id = refl; reference = refl; amount = refl; rank = ground arith }))
  ]

  confirm_row-IsAdvance :
      (row : CardPayment) (db : Database)
      → find_payment row.id db.cards.payments ≡ some row
      → IsAdvance db.cards.payments (confirm_row env input row db).1.cards.payments
  unfolding confirm_row
  confirm_row-IsAdvance row db found =
      elim (Bool-cases (input.provider_code == row.provider_code)) [
        | inr foreign ↦ rw (confirm_row, foreign) (IsAdvance-refl db.cards.payments)
        | inl own ↦ elim (Bool-cases (is_terminal row.status)) [
          | inl over ↦ rw (confirm_row, own, over) (IsAdvance-refl db.cards.payments)
          | inr goes_on ↦ elim (Bool-cases (is_live row.status)) [
            | inl live ↦
                rw (confirm_row, own, goes_on, live) (settle_live-IsAdvance row db found live)
            | inr given_up ↦
                rw (confirm_row, own, goes_on, given_up)
                  (put_payment-IsAdvance env input row _ db found
                    (record { id = refl; reference = refl; amount = refl; rank = omega arith }))
          ]
        ]
      ]

  confirm_in_tx-IsAdvance :
      (db : Database)
      → HasUniqueKeys db.cards.payments
      → IsAdvance db.cards.payments (confirm_in_tx env input db).1.cards.payments
  unfolding confirm_in_tx
  confirm_in_tx-IsAdvance db h =
      elim (Option-cases (locate input.session_ref input.payment_ref db.cards.payments)) [
        | inl missing ↦ rw (missing, confirm_in_tx) (IsAdvance-refl db.cards.payments)
        | inr (row, found) ↦
            rw (found, confirm_in_tx)
              (confirm_row-IsAdvance row db (
                locate-find_payment input.session_ref input.payment_ref row db.cards.payments h
                  found))
      ]

  pub confirm_paid-IsAdvance :
      (db : Database)
      → HasUniqueKeys db.cards.payments
      → IsAdvance db.cards.payments (confirm_paid env input db).1.cards.payments
  unfolding confirm_paid transaction
  confirm_paid-IsAdvance db h = elim (Outcome-cases (confirm_in_tx env input db).0) [
    | inl (e, fails) ↦
        rw (fails, confirm_paid, transaction, keeps.meanwhile db) (IsAdvance-refl db.cards.payments)
    | inr (c, works) ↦ rw (works, confirm_paid, transaction) (confirm_in_tx-IsAdvance db h)
  ]
