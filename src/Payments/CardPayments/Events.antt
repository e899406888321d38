-- ===== src/Payments/CardPayments/Events.antt =====
-- apps/api/src/payments/card-payments.service.ts: the other events of a card payment, from
-- `markExpired` to `resolveIntervention`. Each is one transaction of the database.
pub mod Laws
use i_code_host_pro.Prelude.{
  ℕ, suc, ◌≡◌, ◌&&◌, ◌||◌, Bool, true, false, not, Option, none, some, List, [], ◌∷◌, find, any,
  map, if◌then◌else◌, ◌==◌, is_some, length, filter, take,
}
use i_code_host_pro.Prelude.Int.{ℤ, max_zero}
use i_code_host_pro.Prelude.Text.{Text}
use i_code_host_pro.Wallet.Types.{WalletTx}
use i_code_host_pro.Payments.RefundAccounting.{
  CardPaymentStatus, created, processing, failed, canceled, expired, resolved, uncertain_call,
  Reason, outside_refund, dispute, note_of, CardPayment, RefundObservation, Tables, of_payment,
  update_payment, find_payment, sync_refunded_cents, is_internal_ref,
}
use i_code_host_pro.Checkout.Types.{Database}
use i_code_host_pro.Payments.CardPayments.{is_live, same_ref, close_call}

abbrev pub is_created : CardPaymentStatus → Bool
is_created created = true
is_created _ = false

-- The rows of a source: its session if it has one, or its payment.
unfoldable pub of_source : Option ℕ → Option ℕ → CardPayment → Bool
of_source (some s) payment_ref p = same_ref p.provider_session_ref s
of_source none (some r) p = same_ref p.provider_payment_ref r
of_source none none p = false

-- `cardPayment.updateMany`
unfoldable pub update_where :
    (CardPayment → Bool) → (CardPayment → CardPayment) → Database → Database
update_where p f db = record db {
  cards = record db.cards { payments = map (λ x. if p x then f x else x) db.cards.payments };
}

-- `markExpired`, with the flag that it returns.
unfoldable pub mark_expired : ℕ → ℕ → Database → Database × Bool
mark_expired session_ref provider_code db =
    let p = λ (x : CardPayment).
      same_ref x.provider_session_ref session_ref
      && (x.provider_code == provider_code && is_created x.status) in
    (
      update_where p (λ x. record (close_call x) { status = expired }) db,
      length (filter p db.cards.payments) == 1,
    )

-- The two statuses that `markFailed` may write.
pub data Failure : Type 0 where
  as_failed as_canceled : Failure

abbrev pub failure_status : Failure → CardPaymentStatus
failure_status as_failed = failed
failure_status as_canceled = canceled

abbrev pub cut : ℕ → Option Text → Option Text
cut n none = none
cut n (some t) = some (take n t)

pub record FailureInput : Type 0 where
  pub session_ref : Option ℕ
  pub payment_ref : Option ℕ
  pub provider_code : ℕ
  pub status : Failure
  pub code : Option Text
  pub message : Option Text

unfoldable pub mark_failed : FailureInput → Database → Database
mark_failed input =
    update_where
      (λ x.
        of_source input.session_ref input.payment_ref x
        && (x.provider_code == input.provider_code && is_live x.status))
      (λ x. record (close_call x) {
        status = failure_status input.status;
        failure_code = input.code;
        failure_message = cut 500 input.message;
      })

unfoldable pub mark_failure_notice : ℕ → ℕ → Option Text → Option Text → Database → Database
mark_failure_notice payment_ref provider_code code message =
    update_where
      (λ x.
        same_ref x.provider_payment_ref payment_ref
        && (x.provider_code == provider_code && is_live x.status))
      (λ x. record x { failure_code = code; failure_message = cut 500 message })

unfoldable pub mark_processing : Option ℕ → Option ℕ → ℕ → Database → Database
mark_processing session_ref payment_ref provider_code =
    update_where
      (λ x.
        of_source session_ref payment_ref x
        && (x.provider_code == provider_code && is_created x.status))
      (λ x. record x { status = processing })

-- `findFirst` by the payment's reference at a provider.
unfoldable pub find_at_provider : ℕ → ℕ → List CardPayment → Option CardPayment
find_at_provider payment_ref provider_code =
    find (λ p. same_ref p.provider_payment_ref payment_ref && p.provider_code == provider_code)

-- `cardPayment.update` by id.
unfoldable pub update_by_id : ℕ → (CardPayment → CardPayment) → Tables → Tables
update_by_id id f t = elim (find_payment id t.payments) [
  | none ↦ t
  | some p ↦ record t { payments = update_payment (f p) t.payments }
]

abbrev pub flag_intervention : Reason → CardPayment → CardPayment
flag_intervention reason p = record p {
  intervention_needed = true;
  intervention_reason = some reason;
}

-- The wallet transaction of a payment is marked; no balance changes.
abbrev pub mark_disputed : ℕ → Option ℕ → Database → Database
mark_disputed now none db = db
mark_disputed now (some id) db = record db {
  wallet = record db.wallet {
    transactions =
        map (λ (t : WalletTx). if t.id == id then record t { disputed_at = some now } else t)
          db.wallet.transactions;
  };
}

abbrev pub flag_outside : Bool → ℕ → Tables → Tables
flag_outside true id t = t
flag_outside false id t = update_by_id id (flag_intervention outside_refund) t

-- `applyChargeRefunded`: the cumulative amount that the provider reports is a floor, and a refund
-- that was not made here asks for an intervention.
unfoldable pub apply_charge_refunded : ℕ → ℕ → ℕ → ℤ → List ℕ → Database → Database
apply_charge_refunded now payment_ref provider_code amount charge_refund_ids db =
    elim (find_at_provider payment_ref provider_code db.cards.payments) [
      | none ↦ db
      | some row ↦
          let ours = any (λ r. is_internal_ref row.id db.cards.refunds r) charge_refund_ids in
          let synced = (sync_refunded_cents row.id (some (max_zero amount)) db.cards).0 in
          mark_disputed now (if ours then none else row.wallet_transaction_id)
            (record db { cards = flag_outside ours row.id synced })
    ]

-- The `upsert` of an observation: a later amount fills in one that was not known, and no amount
-- leaves the one that is known.
unfoldable pub upsert_observation :
    ℕ → ℕ → Option ℤ → List RefundObservation → List RefundObservation
upsert_observation id ref amount [] =
    record {
      card_payment_id = id;
      provider_ref = ref;
      amount_cents = amount;
      is_acknowledged = false;
    }
    ∷ []
upsert_observation id ref amount (o ∷ os) =
    let later = upsert_observation id ref amount os in
    if o.card_payment_id == id && o.provider_ref == ref
    then record o { amount_cents = if is_some amount then amount else o.amount_cents } ∷ os
    else o ∷ later

-- `recordRefundObservation`
unfoldable pub record_refund_observation : ℕ → ℕ → ℕ → ℕ → Option ℤ → Database → Database
record_refund_observation now payment_ref provider_code ref amount db =
    elim (find_at_provider payment_ref provider_code db.cards.payments) [
      | none ↦ db
      | some row ↦
          let observed : Tables = record db.cards {
            observations = upsert_observation row.id ref amount db.cards.observations;
          } in
          let flagged =
            flag_outside (is_internal_ref row.id db.cards.refunds ref) row.id observed in
          mark_disputed now row.wallet_transaction_id
            (record db { cards = (sync_refunded_cents row.id none flagged).0 })
    ]

-- `applyDispute`; the flag says that the dispute is closed.
unfoldable pub apply_dispute : ℕ → ℕ → ℕ → Bool → Database → Database
apply_dispute now payment_ref provider_code closed db =
    elim (find_at_provider payment_ref provider_code db.cards.payments) [
      | none ↦ db
      | some row ↦ mark_disputed now row.wallet_transaction_id (record db {
        cards =
            update_by_id row.id
              (λ p. record (flag_intervention (dispute closed) p) { disputed_at = some now })
              db.cards;
      })
    ]

abbrev pub is_uncertain_call : CardPayment → Bool
is_uncertain_call p = elim p.provider_call_state [ some uncertain_call ↦ true | _ ↦ false ]

abbrev pub acknowledge : ℕ → RefundObservation → RefundObservation
acknowledge id o = if o.card_payment_id == id then record o { is_acknowledged = true } else o

-- What `resolveIntervention` writes.
abbrev pub resolve_payment : Text → CardPayment → CardPayment
resolve_payment note p = record p {
  intervention_needed = false;
  intervention_reason = some (note_of (take 300 note));
  provider_call_state = if is_uncertain_call p then some resolved else p.provider_call_state;
}

unfoldable pub close_intervention : ℕ → Text → Database → Database
close_intervention id note db = record db {
  cards = record (update_by_id id (resolve_payment note) db.cards) {
    observations = map (acknowledge id) db.cards.observations;
  };
}

-- No result where no intervention is waiting.
unfoldable pub resolve_intervention : ℕ → Text → Database → Option Database
resolve_intervention id note db = elim (find_payment id db.cards.payments) [
  | none ↦ none
  | some p ↦ if p.intervention_needed then some (close_intervention id note db) else none
]
