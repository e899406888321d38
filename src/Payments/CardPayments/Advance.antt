-- ===== src/Payments/CardPayments/Advance.antt =====
-- apps/api/src/payments/card-payments.service.ts: no event takes the status of a card payment back,
-- or changes its identity and its amount.
use i_code_host_pro.Prelude.{
  ℕ, ◌≡◌, refl, sym, subst, ◌∙◌, ◌≤◌, Bool, true, Option, some, List, [], ◌∷◌, arith, Option-cases,
  Bool-cases, inl, inr, if◌then◌else◌, map, ◌==◌,
}
use i_code_host_pro.Prelude.Int.{ℤ}
use i_code_host_pro.Payments.RefundAccounting.{
  CardPaymentStatus, created, processing, succeeded, failed, canceled, expired, partially_refunded,
  refunded, needs_review, CardPayment, Tables, account, next_status, update_payment, find_payment,
  sync_refunded_cents, target, is_uncertain,
}
use i_code_host_pro.Payments.CardPayments.Events.{update_where, update_by_id}
use i_code_host_pro.Checkout.Types.{Database}

-- How far a payment has come: open, in progress, given up, paid, and in the hands of the staff.
unfoldable pub status_rank : CardPaymentStatus → ℕ
status_rank created = 0
status_rank processing = 1
status_rank failed = 2
status_rank canceled = 2
status_rank expired = 2
status_rank succeeded = 3
status_rank partially_refunded = 3
status_rank refunded = 3
status_rank needs_review = 4

-- A row after an event: the same payment, no further back.
pub record RowAdvance (p p' : CardPayment) : Type 0 where
  pub id : p'.id ≡ p.id
  pub reference : p'.reference ≡ p.reference
  pub amount : p'.amount_cents ≡ p.amount_cents
  pub rank : status_rank p.status ≤ status_rank p'.status

-- The rows of a table after events.
abbrev pub IsAdvance : List CardPayment → List CardPayment → Type 0
IsAdvance [] [] = Unit
IsAdvance (p ∷ ps) (p' ∷ ps') = RowAdvance p p' × IsAdvance ps ps'
IsAdvance _ _ = ⊥

pub RowAdvance-refl : (p : CardPayment) → RowAdvance p p
RowAdvance-refl p = record { id = refl; reference = refl; amount = refl; rank = omega arith }

RowAdvance-trans : (p q r : CardPayment) → RowAdvance p q → RowAdvance q r → RowAdvance p r
RowAdvance-trans p q r h k = record {
  id = k.id ∙ h.id;
  reference = k.reference ∙ h.reference;
  amount = k.amount ∙ h.amount;
  rank = omega (arith, h.rank, k.rank);
}

pub IsAdvance-refl : (ps : List CardPayment) → IsAdvance ps ps
IsAdvance-refl [] = tt
IsAdvance-refl (p ∷ ps) = (RowAdvance-refl p, IsAdvance-refl ps)

pub IsAdvance-trans :
    (ps qs rs : List CardPayment) → IsAdvance ps qs → IsAdvance qs rs → IsAdvance ps rs
IsAdvance-trans [] [] [] h k = tt
IsAdvance-trans [] [] (r ∷ rs) h k = elim k [ ]
IsAdvance-trans [] (q ∷ qs) rs h k = elim h [ ]
IsAdvance-trans (p ∷ ps) [] rs h k = elim h [ ]
IsAdvance-trans (p ∷ ps) (q ∷ qs) [] h k = elim k [ ]
IsAdvance-trans (p ∷ ps) (q ∷ qs) (r ∷ rs) h k =
    (RowAdvance-trans p q r h.0 k.0, IsAdvance-trans ps qs rs h.1 k.1)

pub map-IsAdvance :
    (f : CardPayment → CardPayment) (ps : List CardPayment)
    → ((p : CardPayment) → RowAdvance p (f p))
    → IsAdvance ps (map f ps)
map-IsAdvance f [] h = tt
map-IsAdvance f (p ∷ ps) h = (h p, map-IsAdvance f ps h)

pub update_payment-IsAdvance :
    (id : ℕ) (p p' : CardPayment) (ps : List CardPayment)
    → find_payment id ps ≡ some p
    → p.id ≡ id
    → RowAdvance p p'
    → IsAdvance ps (update_payment p' ps)
unfolding update_payment find_payment
update_payment-IsAdvance id p p' [] found same h = tt
update_payment-IsAdvance id p p' (x ∷ ps) found same h =
    let ident = h.id in
    elim (Bool-cases (x.id == id)) [
      | inl here ↦
          let written : update_payment p' (x ∷ ps) ≡ p' ∷ ps = ground arith in
          let first : p ≡ x = ground arith in
          subst (IsAdvance (x ∷ ps)) (sym written)
            (subst (λ r. RowAdvance r p') first h, IsAdvance-refl ps)
      | inr later ↦
          let written : update_payment p' (x ∷ ps) ≡ x ∷ update_payment p' ps = ground arith in
          subst (IsAdvance (x ∷ ps)) (sym written)
            (RowAdvance-refl x, update_payment-IsAdvance id p p' ps (ground arith) same h)
    ]

account-RowAdvance :
    (pay : CardPayment) (sum : ℤ) (uncertain : Bool) → RowAdvance pay (account pay sum uncertain).0
unfolding account next_status status_rank
account-RowAdvance pay sum uncertain = record {
  id = ground arith;
  reference = ground arith;
  amount = ground arith;
  rank = ground arith;
}

pub update_where-IsAdvance :
    (q : CardPayment → Bool) (f : CardPayment → CardPayment) (db : Database)
    → ((p : CardPayment) → q p ≡ true → RowAdvance p (f p))
    → IsAdvance db.cards.payments (update_where q f db).cards.payments
unfolding update_where
update_where-IsAdvance q f db h =
    map-IsAdvance (λ x. if q x then f x else x) db.cards.payments
      (λ p. elim (Bool-cases (q p)) [
        | inl yes_it ↦ rw yes_it (h p yes_it)
        | inr skips ↦ rw skips (RowAdvance-refl p)
      ])

pub find_payment-id :
    (id : ℕ) (p : CardPayment) (ps : List CardPayment) → find_payment id ps ≡ some p → p.id ≡ id
unfolding find_payment
find_payment-id id p [] h = absurd (cc)
find_payment-id id p (x ∷ ps) h = ground (arith, find_payment-id id p ps)

pub update_by_id-IsAdvance :
    (id : ℕ) (f : CardPayment → CardPayment) (t : Tables)
    → ((p : CardPayment) → RowAdvance p (f p))
    → IsAdvance t.payments (update_by_id id f t).payments
unfolding update_by_id
update_by_id-IsAdvance id f t h = elim (Option-cases (find_payment id t.payments)) [
  | inl missing ↦ rw (missing, update_by_id) (IsAdvance-refl t.payments)
  | inr (p, found) ↦
      rw (found, update_by_id)
        (update_payment-IsAdvance id p (f p) t.payments found
          (find_payment-id id p t.payments found) (h p))
]

pub sync_refunded_cents-IsAdvance :
    (id : ℕ) (floor : Option ℤ) (t : Tables)
    → IsAdvance t.payments (sync_refunded_cents id floor t).0.payments
unfolding sync_refunded_cents
sync_refunded_cents-IsAdvance id floor t = elim (Option-cases (find_payment id t.payments)) [
  | inl missing ↦ rw (missing, sync_refunded_cents) (IsAdvance-refl t.payments)
  | inr (p, found) ↦
      rw (found, sync_refunded_cents)
        (update_payment-IsAdvance id p
          (account p (target p t floor) (is_uncertain p.id t.refunds t.observations)).0 t.payments
          found (find_payment-id id p t.payments found)
          (account-RowAdvance p (target p t floor) (is_uncertain p.id t.refunds t.observations)))
]
