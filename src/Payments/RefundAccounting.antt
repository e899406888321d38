-- ===== src/Payments/RefundAccounting.antt =====
-- apps/api/src/payments/refund-accounting.ts: `syncRefundedCents`, the amount that has been
-- refunded on a card payment, as the union of the refunds made here and of those observed at the
-- provider. The row lock makes one run of it atomic: it is a function on the tables.
pub mod Sums
pub mod Laws
pub mod Union
use i_code_host_pro.Prelude.{
  ℕ, ◌≡◌, ◌&&◌, ◌||◌, not, Bool, true, false, Option, none, some, List, [], ◌∷◌, if◌then◌else◌,
  ◌==◌, or_else, find, any, is_some,
}
use i_code_host_pro.Prelude.Text.{Text}
use i_code_host_pro.Prelude.Int.{ℤ, pos, ◌+ℤ◌, ltb_ℤ, leb_ℤ, eq_ℤ, max_zero}

pub data CardPaymentStatus : Type 0 where
  created processing succeeded failed canceled expired : CardPaymentStatus
  partially_refunded refunded needs_review : CardPaymentStatus

pub data RefundStatus : Type 0 where
  refund_pending refund_succeeded refund_failed : RefundStatus

pub data CardPaymentKind : Type 0 where
  topup order_payment : CardPaymentKind

-- The state of the call that opens a session at the provider; `none` in the column is no call.
pub data ProviderCallState : Type 0 where
  dispatched resolved uncertain_call : ProviderCallState

-- What of a confirmation disagrees with the payment.
pub data Problem : Type 0 where
  merchant_problem reference_problem : Problem
  amount_missing amount_problem currency_missing_problem currency_problem : Problem
  live_problem client_problem : Problem

-- The reason of an intervention: the amounts of an overflow, an observation with no amount, and the
-- texts that the other services write.
pub data Reason : Type 0 where
  overflow_reason : ℤ → ℤ → Reason
  unknown_amount contradictory wallet_currency_reason : Reason
  no_order order_missing settlement_refused settled_otherwise outside_refund : Reason
  incoherent : List Problem → Reason
  order_incoherent : List Problem → Reason
  dispute : Bool → Reason
  note_of : Text → Reason

-- A row of `CardPayment`. References, codes of providers and accounts are only compared.
pub record CardPayment : Type 0 where
  pub id : ℕ
  pub reference : ℕ
  pub customer_id : ℕ
  pub order_id : Option ℕ
  pub kind : CardPaymentKind
  pub status : CardPaymentStatus
  pub amount_cents : ℤ
  pub currency : Text
  pub provider_code : ℕ
  pub merchant_account : ℕ
  pub livemode : Option Bool
  pub provider_session_ref : Option ℕ
  pub provider_payment_ref : Option ℕ
  pub wallet_transaction_id : Option ℕ
  pub refunded_cents : ℤ
  pub pending_refund_cents : ℤ
  pub provider_call_state : Option ProviderCallState
  pub dispatch_owner : Option ℕ
  pub dispatch_claimed_at : Option ℕ
  pub failure_code : Option Text
  pub failure_message : Option Text
  pub paid_at : Option ℕ
  pub disputed_at : Option ℕ
  pub intervention_needed : Bool
  pub intervention_reason : Option Reason

pub data RefundKind : Type 0 where
  wallet_credit external_card : RefundKind

-- A row of `Refund`.
pub record Refund : Type 0 where
  pub id : ℕ
  pub order_id : Option ℕ
  pub invoice_id : Option ℕ
  pub card_payment_id : Option ℕ
  pub kind : RefundKind
  pub status : RefundStatus
  pub amount_cents : ℤ
  pub currency : Text
  pub reason : Option Text
  pub issue_credit_note : Bool
  pub idempotency_key : Text
  pub wallet_transaction_id : Option ℕ
  pub credit_note_invoice_id : Option ℕ
  pub provider_ref : Option ℕ

-- A refund that the provider was seen to have made. No amount means that it is not known.
pub record RefundObservation : Type 0 where
  pub card_payment_id : ℕ
  pub provider_ref : ℕ
  pub amount_cents : Option ℤ
  pub is_acknowledged : Bool

pub record Tables : Type 0 where
  pub payments : List CardPayment
  pub refunds : List Refund
  pub observations : List RefundObservation

pub record RefundSyncResult : Type 0 where
  pub refunded_cents : ℤ
  pub overflow : Bool
  pub changed : Bool
  pub uncertain : Bool

abbrev pub is_refund_succeeded : RefundStatus → Bool
is_refund_succeeded refund_succeeded = true
is_refund_succeeded _ = false

abbrev pub is_needs_review : CardPaymentStatus → Bool
is_needs_review needs_review = true
is_needs_review _ = false

abbrev pub of_payment : ℕ → Refund → Bool
of_payment id r = elim r.card_payment_id [ none ↦ false | some p ↦ p == id ]

-- The sum of the refunds of a payment that have succeeded.
unfoldable pub internal_settled : ℕ → List Refund → ℤ
internal_settled id [] = pos 0
internal_settled id (r ∷ rs) =
    if of_payment id r && is_refund_succeeded r.status
    then r.amount_cents +ℤ internal_settled id rs
    else internal_settled id rs

-- Whether a provider reference is that of a refund of the payment, whatever its status.
unfoldable pub is_internal_ref : ℕ → List Refund → ℕ → Bool
is_internal_ref id refunds ref =
    any (λ r. of_payment id r && elim r.provider_ref [ none ↦ false | some p ↦ p == ref ]) refunds

-- What one turn of the loop over the observations makes of the sum: an observation of another
-- payment, one that a refund of the payment stands for and one with no amount count for nothing.
unfoldable pub count_observation : ℕ → List Refund → RefundObservation → ℤ → ℤ
count_observation id refunds o sum =
    if not (o.card_payment_id == id) || is_internal_ref id refunds o.provider_ref
    then sum
    else elim o.amount_cents [ none ↦ sum | some a ↦ sum +ℤ max_zero a ]

-- The loop, on the observations and the sum so far.
unfoldable pub observe : ℕ → List Refund → List RefundObservation → ℤ → ℤ
observe id refunds [] sum = sum
observe id refunds (o ∷ os) sum = observe id refunds os (count_observation id refunds o sum)

unfoldable pub observed_external : ℕ → List Refund → List RefundObservation → ℤ
unfolding observe
observed_external id refunds os = observe id refunds os (pos 0)

-- Whether some such observation has no amount and was not acknowledged.
unfoldable pub is_uncertain : ℕ → List Refund → List RefundObservation → Bool
is_uncertain id refunds os =
    any
      (λ o.
        o.card_payment_id == id
        && not (is_internal_ref id refunds o.provider_ref)
        && not (is_some o.amount_cents)
        && not o.is_acknowledged)
      os

abbrev pub max_ℤ : ℤ → ℤ → ℤ
max_ℤ a b = if ltb_ℤ a b then b else a

-- `target`; the cumulative amount that the provider reports is a floor.
unfoldable pub target : CardPayment → Tables → Option ℤ → ℤ
target pay t observed_cumulative =
    max_ℤ
      (max_ℤ pay.refunded_cents
        (internal_settled pay.id t.refunds +ℤ observed_external pay.id t.refunds t.observations))
      (max_zero (or_else observed_cumulative (pos 0)))

-- `nextStatus`, or the status as it was.
unfoldable pub next_status : CardPayment → ℤ → CardPaymentStatus
next_status pay sum =
    if is_needs_review pay.status || leb_ℤ sum (pos 0)
    then pay.status
    else if leb_ℤ pay.amount_cents sum
    then refunded
    else partially_refunded

-- What the function makes of the row that it has locked, and what it returns.
unfoldable pub account : CardPayment → ℤ → Bool → CardPayment × RefundSyncResult
account pay sum uncertain =
    if ltb_ℤ pay.amount_cents sum
    then (
      record pay {
        refunded_cents = sum;
        status = needs_review;
        intervention_needed = true;
        intervention_reason = some (overflow_reason sum pay.amount_cents);
      },
      record { refunded_cents = sum; overflow = true; changed = true; uncertain = uncertain },
    )
    else if not uncertain && eq_ℤ sum pay.refunded_cents
    then (
      pay,
      record {
        refunded_cents = pay.refunded_cents;
        overflow = false;
        changed = false;
        uncertain = uncertain;
      },
    )
    else (
      record pay {
        refunded_cents = sum;
        status = next_status pay sum;
        intervention_needed = if uncertain then true else pay.intervention_needed;
        intervention_reason = if uncertain then some unknown_amount else pay.intervention_reason;
      },
      record {
        refunded_cents = sum;
        overflow = false;
        changed = not (eq_ℤ sum pay.refunded_cents);
        uncertain = uncertain;
      },
    )

-- `cardPayment.update` by id: the id is the primary key.
unfoldable pub update_payment : CardPayment → List CardPayment → List CardPayment
update_payment pay [] = []
update_payment pay (p ∷ ps) = if p.id == pay.id then pay ∷ ps else p ∷ update_payment pay ps

unfoldable pub find_payment : ℕ → List CardPayment → Option CardPayment
find_payment id = find (λ p. p.id == id)

unfoldable pub sync_refunded_cents : ℕ → Option ℤ → Tables → Tables × Option RefundSyncResult
sync_refunded_cents id observed_cumulative t = elim (find_payment id t.payments) [
  | none ↦ (t, none)
  | some pay ↦
      let (pay', result) =
        account pay (target pay t observed_cumulative)
          (is_uncertain pay.id t.refunds t.observations) in
      (record t { payments = update_payment pay' t.payments }, some result)
]
