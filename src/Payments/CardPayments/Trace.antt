-- ===== src/Payments/CardPayments/Trace.antt =====
-- apps/api/src/payments/card-payments.service.ts: any sequence of events of the card payments.
use i_code_host_pro.Prelude.{
  ℕ, ◌≡◌, ◌≢◌, sym, subst, ◌∙◌, Bool, Option, none, some, List, [], ◌∷◌, arith, Bool-cases, inl,
  inr, ◌==◌, All,
}
use i_code_host_pro.Prelude.Int.{ℤ}
use i_code_host_pro.Prelude.Text.{Text}
use i_code_host_pro.Payments.RefundAccounting.{CardPayment, find_payment}
use i_code_host_pro.Checkout.Types.{Database}
use i_code_host_pro.Payments.CardPayments.{
  Env, ConfirmPaidInput, ConfirmOutcome, confirm_paid, outcome_of,
}
use i_code_host_pro.Payments.CardPayments.Events.{
  FailureInput, mark_expired, mark_failed, mark_failure_notice, mark_processing,
  apply_charge_refunded, record_refund_observation, apply_dispute, resolve_intervention,
}
use i_code_host_pro.Payments.CardPayments.Advance.{RowAdvance, IsAdvance}
use i_code_host_pro.Payments.CardPayments.Events.Laws.{
  mark_expired-IsAdvance, mark_failed-IsAdvance, mark_failure_notice-IsAdvance,
  mark_processing-IsAdvance, apply_charge_refunded-IsAdvance, record_refund_observation-IsAdvance,
  apply_dispute-IsAdvance, resolve_intervention-IsAdvance,
}
use i_code_host_pro.Payments.CardPayments.Settled.{KeepsCards}
use i_code_host_pro.Payments.CardPayments.Confirmed.{HasUniqueKeys, confirm_paid-IsAdvance}

-- One event, by what it did to the tables: a confirmation, which tells its outcome, or another.
pub data Step : Database → Option ConfirmOutcome → Database → Type 0 where
  confirm :
      (env : Env) (input : ConfirmPaidInput) (db : Database)
      → KeepsCards env
      → Step db (outcome_of env input db) (confirm_paid env input db).1
  expire :
      (session_ref provider_code : ℕ) (db : Database)
      → Step db none (mark_expired session_ref provider_code db).0
  fail : (input : FailureInput) (db : Database) → Step db none (mark_failed input db)
  notice :
      (payment_ref provider_code : ℕ) (code message : Option Text) (db : Database)
      → Step db none (mark_failure_notice payment_ref provider_code code message db)
  progress :
      (session_ref payment_ref : Option ℕ) (provider_code : ℕ) (db : Database)
      → Step db none (mark_processing session_ref payment_ref provider_code db)
  refund_charge :
      (now payment_ref provider_code : ℕ) (amount : ℤ) (ids : List ℕ) (db : Database)
      → Step db none (apply_charge_refunded now payment_ref provider_code amount ids db)
  observe :
      (now payment_ref provider_code ref : ℕ) (amount : Option ℤ) (db : Database)
      → Step db none (record_refund_observation now payment_ref provider_code ref amount db)
  contest :
      (now payment_ref provider_code : ℕ) (closed : Bool) (db : Database)
      → Step db none (apply_dispute now payment_ref provider_code closed db)
  resolve :
      (id : ℕ) (note : Text) (db db' : Database)
      → resolve_intervention id note db ≡ some db'
      → Step db none db'

pub Step-IsAdvance :
    {db db' : Database} {o : Option ConfirmOutcome}
    → Step db o db'
    → HasUniqueKeys db.cards.payments
    → IsAdvance db.cards.payments db'.cards.payments
Step-IsAdvance (confirm env input db keeps) h = confirm_paid-IsAdvance env input keeps db h
Step-IsAdvance (expire s c db) h = mark_expired-IsAdvance db s c
Step-IsAdvance (fail input db) h = mark_failed-IsAdvance db input
Step-IsAdvance (notice r c code message db) h = mark_failure_notice-IsAdvance db r c code message
Step-IsAdvance (progress s r c db) h = mark_processing-IsAdvance db s r c
Step-IsAdvance (refund_charge now r c amount ids db) h =
    apply_charge_refunded-IsAdvance db now r c amount ids
Step-IsAdvance (observe now r c ref amount db) h =
    record_refund_observation-IsAdvance db now r c ref amount
Step-IsAdvance (contest now r c closed db) h = apply_dispute-IsAdvance db now r c closed
Step-IsAdvance (resolve id note db db' e) h = resolve_intervention-IsAdvance db id note db' e

-- The events of a history, with the outcomes of its confirmations.
pub data Trace : Database → List ConfirmOutcome → Database → Type 0 where
  stop : (db : Database) → Trace db [] db
  quiet :
      {db mid last : Database} {os : List ConfirmOutcome}
      → Step db none mid
      → Trace mid os last
      → Trace db os last
  told :
      {db mid last : Database} {o : ConfirmOutcome} {os : List ConfirmOutcome}
      → Step db (some o) mid
      → Trace mid os last
      → Trace db (o ∷ os) last

All-IsAdvance :
    (p p' : CardPayment) (ps ps' : List CardPayment)
    → p'.id ≡ p.id
    → p'.reference ≡ p.reference
    → IsAdvance ps ps'
    → All (λ q. (q.id ≢ p.id) × (q.reference ≢ p.reference)) ps
    → All (λ q. (q.id ≢ p'.id) × (q.reference ≢ p'.reference)) ps'
All-IsAdvance p p' [] [] same same_ref a h = tt
All-IsAdvance p p' [] (q' ∷ ps') same same_ref a h = elim a [ ]
All-IsAdvance p p' (q ∷ ps) [] same same_ref a h = elim a [ ]
All-IsAdvance p p' (q ∷ ps) (q' ∷ ps') same same_ref a h = (
  (λ e. h.0.0 (sym a.0.id ∙ e ∙ same), λ e. h.0.1 (sym a.0.reference ∙ e ∙ same_ref)),
  All-IsAdvance p p' ps ps' same same_ref a.1 h.1,
)

-- Unique keys stay unique.
pub IsAdvance-HasUniqueKeys :
    (ps ps' : List CardPayment) → IsAdvance ps ps' → HasUniqueKeys ps → HasUniqueKeys ps'
IsAdvance-HasUniqueKeys [] [] a h = tt
IsAdvance-HasUniqueKeys [] (p' ∷ ps') a h = elim a [ ]
IsAdvance-HasUniqueKeys (p ∷ ps) [] a h = elim a [ ]
IsAdvance-HasUniqueKeys (p ∷ ps) (p' ∷ ps') a h =
    (All-IsAdvance p p' ps ps' a.0.id a.0.reference a.1 h.0, IsAdvance-HasUniqueKeys ps ps' a.1 h.1)

pub find-IsAdvance :
    (id : ℕ) (p : CardPayment) (ps ps' : List CardPayment)
    → IsAdvance ps ps'
    → find_payment id ps ≡ some p
    → (p' : CardPayment) × (find_payment id ps' ≡ some p') × RowAdvance p p'
unfolding find_payment
find-IsAdvance id p [] ps' a h = absurd (cc)
find-IsAdvance id p (x ∷ ps) [] a h = elim a [ ]
find-IsAdvance id p (x ∷ ps) (x' ∷ ps') a h =
    let ident = a.0.id in
    elim (Bool-cases (x.id == id)) [
      | inl here ↦
          let first : x ≡ p = ground arith in
          (x', ground arith, subst (λ r. RowAdvance r x') first a.0)
      | inr later ↦
          let (p', there, step) = find-IsAdvance id p ps ps' a.1 (ground arith) in
          (p', ground arith, step)
    ]
