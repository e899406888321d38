-- ===== src/Payments/CardPayments.antt =====
-- apps/api/src/payments/card-payments.service.ts: `confirmPaid`, `settleTopupInTx` and
-- `settleOrderInTx`, the confirmation of a card payment by a signed webhook or a reading at the
-- provider.
pub mod Events
pub mod Advance
pub mod Settled
pub mod Confirmed
pub mod Trace
pub mod Paid
pub mod Once
pub mod Separate
pub mod Books
mod Tests
use i_code_host_pro.Prelude.{
  ℕ, ◌≡◌, ◌&&◌, ◌||◌, Bool, true, false, not, Option, none, some, List, [], ◌∷◌, ◌++◌, find,
  if◌then◌else◌, ◌==◌, or_else, is_some,
}
use i_code_host_pro.Prelude.Int.{ℤ, Number, integer, not_integer, eq_ℤ}
use i_code_host_pro.Prelude.Text.{Text, text_eq, to_upper_case, to_lower_case}
use i_code_host_pro.Prelude.Actions.{
  Outcome, Action, done, refused, give, refuse, transaction, ◌>>=◌, ◌>>◌,
}
use i_code_host_pro.Wallet.Types.{ApplyWalletInput, credit_type, credit, ok, err}
use i_code_host_pro.Wallet.Db.{find_customer, find_by_key}
use i_code_host_pro.Wallet.Apply
use i_code_host_pro.Wallet.Apply.{apply_with_client}
use i_code_host_pro.Payments.RefundAccounting.{
  CardPaymentStatus, created, processing, succeeded, failed, canceled, expired, partially_refunded,
  refunded, needs_review, topup, order_payment, resolved, Problem, merchant_problem,
  reference_problem, amount_missing, amount_problem, currency_missing_problem, currency_problem,
  live_problem, client_problem, Reason, contradictory, wallet_currency_reason, no_order,
  order_missing, settlement_refused, settled_otherwise, incoherent, order_incoherent, CardPayment,
  update_payment, find_payment, CardPaymentKind,
}
use i_code_host_pro.Checkout.Types.{
  Order, Database, ConfirmPaidContext, card, Refusal, order_not_found, renewal_revoked,
  not_in_chain, no_subscription, product_changed, subscription_inactive, not_confirmable, unstable,
  no_account, subscription_exists, pack_missing, snapshot_invalid, unique_violation, wallet_refused,
}
use i_code_host_pro.Checkout.Types
use i_code_host_pro.Checkout.Gate.{find_order}
use i_code_host_pro.Checkout.Confirm.{confirm_order_within}

-- `ConfirmPaidInput`; `undefined` and `null` are both `none`, and no reference is empty.
pub record ConfirmPaidInput : Type 0 where
  pub session_ref : Option ℕ
  pub payment_ref : Option ℕ
  pub amount_total_cents : Option Number
  pub currency : Option Text
  pub livemode : Option Bool
  pub provider_code : ℕ
  pub merchant_account : Option ℕ
  pub reference : Option ℕ

-- `ConfirmOutcome`, with the references of the payments and the reason of a review.
pub data ConfirmOutcome : Type 0 where
  credited : ℕ → ℤ → ConfirmOutcome
  settled : ℕ → ℕ → ConfirmOutcome
  already_done : ℕ → ConfirmOutcome
  to_review : ℕ → Reason → ConfirmOutcome
  foreign_provider late_event : ℕ → ConfirmOutcome
  not_found : ConfirmOutcome

-- What the process takes from outside: the clock, the environments of the wallet and of the
-- checkout, the key `cardpay:<id>` and the note of a top-up, and what other processes commit
-- before the end of a transaction that is rolled back.
pub record Env : Type 0 where
  pub now : ℕ
  pub wallet_env : Apply.Env
  pub checkout_env : Types.Env
  pub cardpay_key : ℕ → ℕ
  pub recharge_note : ℕ → Text
  pub meanwhile : Database → Database

-- `TERMINAL_STATUSES`
abbrev pub is_terminal : CardPaymentStatus → Bool
is_terminal succeeded = true
is_terminal partially_refunded = true
is_terminal refunded = true
is_terminal needs_review = true
is_terminal _ = false

-- `LIVE_CARD_STATUSES`
abbrev pub is_live : CardPaymentStatus → Bool
is_live created = true
is_live processing = true
is_live _ = false

abbrev pub same_ref : Option ℕ → ℕ → Bool
same_ref none r = false
same_ref (some x) r = x == r

-- The row that the references of a source find; the session's comes first.
unfoldable pub locate : Option ℕ → Option ℕ → List CardPayment → Option CardPayment
locate (some s) payment_ref = find (λ p. same_ref p.provider_session_ref s)
locate none (some r) = find (λ p. same_ref p.provider_payment_ref r)
locate none none = λ ps. none

abbrev pub put_payment : CardPayment → Database → Database
put_payment pay db = record db {
  cards = record db.cards { payments = update_payment pay db.cards.payments };
}

abbrev pub flag : Bool → Problem → List Problem
flag false p = []
flag true p = p ∷ []

abbrev pub differs : Option ℕ → ℕ → Bool
differs none b = false
differs (some a) b = not (a == b)

unfoldable pub amount_problems : Option Number → ℤ → List Problem
amount_problems none amount = amount_missing ∷ []
amount_problems (some not_integer) amount = amount_problem ∷ []
amount_problems (some (integer z)) amount = flag (not (eq_ℤ z amount)) amount_problem

unfoldable pub currency_problems : Option Text → Text → List Problem
currency_problems none currency = currency_missing_problem ∷ []
currency_problems (some c) currency =
    flag (not (text_eq (to_lower_case c) (to_lower_case currency))) currency_problem

-- `problems`: what of the source disagrees with the payment.
unfoldable pub problems : ConfirmPaidInput → CardPayment → List Problem
problems input row =
    flag (differs input.merchant_account row.merchant_account) merchant_problem
    ++ flag (differs input.reference row.reference) reference_problem
    ++ amount_problems input.amount_total_cents row.amount_cents
    ++ currency_problems input.currency row.currency
    ++ flag (or_else input.livemode false) live_problem

-- A decision ends the claim on the call that opened the session.
abbrev pub close_call : CardPayment → CardPayment
close_call row = record row {
  provider_call_state = some resolved;
  dispatch_owner = none;
  dispatch_claimed_at = none;
}

abbrev pub put_in_review : Reason → CardPayment → CardPayment
put_in_review reason row = record row {
  status = needs_review;
  intervention_needed = true;
  intervention_reason = some reason;
}

-- What a payment that is settled keeps of the source.
abbrev pub settle_row : Env → ConfirmPaidInput → CardPayment → CardPayment
settle_row env input row = record (close_call row) {
  paid_at = some env.now;
  provider_payment_ref =
      if is_some input.payment_ref then input.payment_ref else row.provider_payment_ref;
  livemode = if is_some input.livemode then input.livemode else row.livemode;
}

-- The compare-and-set on a payment that is still live: whether it wrote.
unfoldable pub cas_live : ℕ → (CardPayment → CardPayment) → Database → Bool × Database
cas_live id f db = elim (find_payment id db.cards.payments) [
  | none ↦ (false, db)
  | some p ↦ if is_live p.status then (true, put_payment (f p) db) else (false, db)
]

-- The input of the credit.
unfoldable pub credit_input : Env → CardPayment → ApplyWalletInput
credit_input env row = record {
  amount_cents = integer row.amount_cents;
  idempotency_key = env.cardpay_key row.id;
  currency = some (to_upper_case row.currency);
  type = some credit_type;
  note = some (env.recharge_note row.reference);
  reference = some row.reference;
  order_id = none;
  invoice_id = none;
  payment_method_id = none;
  method_name = none;
}

abbrev pub succeed_row : Env → ConfirmPaidInput → CardPayment → CardPayment
succeed_row env input row = record (settle_row env input row) { status = succeeded }

-- The row of a top-up, with the wallet transaction of its key.
abbrev pub credit_row : Env → ConfirmPaidInput → ℕ → Database → CardPayment → CardPayment
credit_row env input id db row = record (succeed_row env input row) {
  wallet_transaction_id = elim (find_by_key (env.cardpay_key id) db.wallet.transactions) [
    | none ↦ none
    | some t ↦ some t.id
  ];
}

-- The compare-and-set after a credit that left the given balance.
unfoldable pub mark_credited :
    Env → ConfirmPaidInput → CardPayment → ℤ → Action Database Refusal ConfirmOutcome
mark_credited env input row balance db =
    let (won, db') = cas_live row.id (credit_row env input row.id db) db in
    give (if won then credited row.reference balance else already_done row.reference) db'

-- The credit of the wallet, in the transaction of the payment.
unfoldable pub credit_topup :
    Env → ConfirmPaidInput → CardPayment → Action Database Refusal ConfirmOutcome
credit_topup env input row db =
    let (r, w) =
      apply_with_client env.wallet_env row.customer_id (credit_input env row) credit db.wallet in
    elim r [
      | err e ↦ refuse (wallet_refused e) (record db { wallet = w })
      | ok applied ↦ mark_credited env input row applied.balance_cents (record db { wallet = w })
    ]

unfoldable pub settle_topup_in_tx :
    Env → ConfirmPaidInput → CardPayment → Action Database Refusal ConfirmOutcome
settle_topup_in_tx env input row db = elim (find_customer row.customer_id db.wallet.customers) [
  | none ↦ give not_found db
  | some customer ↦
      if text_eq (to_upper_case customer.wallet_currency) (to_upper_case row.currency)
      then credit_topup env input row db
      else give (to_review row.reference wallet_currency_reason)
          (put_payment (put_in_review wallet_currency_reason row) db)
]

-- `review` of `settleOrderInTx`.
unfoldable pub review : Env → CardPayment → Reason → Action Database Refusal ConfirmOutcome
review env row reason db =
    give (to_review row.reference reason)
      (put_payment (record (close_call (put_in_review reason row)) { paid_at = some env.now }) db)

unfoldable pub mismatches : Order → CardPayment → List Problem
mismatches order row =
    flag (not (order.customer_id == row.customer_id)) client_problem
    ++ flag (not (eq_ℤ order.amount_ttc_cents row.amount_cents)) amount_problem
    ++ flag (not (text_eq (to_upper_case order.currency) (to_upper_case row.currency)))
        currency_problem

-- The classes of exceptions that the `catch` turns into a review.
abbrev pub is_caught : Refusal → Bool
is_caught unique_violation = false
is_caught (wallet_refused e) = false
is_caught _ = true

abbrev pub card_context : CardPayment → ConfirmPaidContext
card_context row = record { source = card; actor_email = none; reference = some row.reference }

unfoldable pub mark_settled :
    Env → ConfirmPaidInput → CardPayment → ℕ → Bool → Action Database Refusal ConfirmOutcome
mark_settled env input row order_id true db =
    let (won, db') =
      cas_live row.id
        (λ p. record (settle_row env input p) {
          intervention_needed = true;
          intervention_reason = some settled_otherwise;
        })
        db in
    give (to_review row.reference settled_otherwise) db'
mark_settled env input row order_id false db =
    let (won, db') = cas_live row.id (succeed_row env input) db in
    give (if won then settled row.reference order_id else already_done row.reference) db'

-- The confirmation of the order, in the transaction of the payment. What it wrote before a refusal
-- that is caught stands.
unfoldable pub settle_order_of :
    Env → ConfirmPaidInput → CardPayment → ℕ → Action Database Refusal ConfirmOutcome
settle_order_of env input row order_id db =
    let (r, db') = confirm_order_within env.checkout_env (card_context row) order_id db in
    elim r [
      | refused e ↦ if is_caught e then review env row settlement_refused db' else refuse e db'
      | done c ↦ mark_settled env input row order_id c.already_confirmed db'
    ]

abbrev pub is_nil : List Problem → Bool
is_nil [] = true
is_nil (_ ∷ _) = false

unfoldable pub settle_order_in_tx :
    Env → ConfirmPaidInput → CardPayment → Action Database Refusal ConfirmOutcome
settle_order_in_tx env input row db = elim row.order_id [
  | none ↦ review env row no_order db
  | some order_id ↦ elim (find_order order_id db.orders) [
    | none ↦ review env row order_missing db
    | some order ↦
        if is_nil (mismatches order row)
        then settle_order_of env input row order_id db
        else review env row (order_incoherent (mismatches order row)) db
  ]
]

-- The two ways of a payment.
unfoldable pub settle_kind :
    CardPaymentKind → Env → ConfirmPaidInput → CardPayment → Action Database Refusal ConfirmOutcome
settle_kind order_payment = settle_order_in_tx
settle_kind topup = settle_topup_in_tx

-- A payment that is live and was found by a source of its provider.
unfoldable pub settle_live :
    Env → ConfirmPaidInput → CardPayment → Action Database Refusal ConfirmOutcome
settle_live env input row db =
    if is_nil (problems input row)
    then settle_kind row.kind env input row db
    else give (to_review row.reference (incoherent (problems input row)))
        (put_payment (close_call (put_in_review (incoherent (problems input row)) row)) db)

unfoldable pub confirm_row :
    Env → ConfirmPaidInput → CardPayment → Action Database Refusal ConfirmOutcome
confirm_row env input row db =
    if not (input.provider_code == row.provider_code)
    then give (foreign_provider row.reference) db
    else if is_terminal row.status
    then give (already_done row.reference) db
    else if is_live row.status
    then settle_live env input row db
    else give (late_event row.reference) (
        put_payment
          (record row { intervention_needed = true; intervention_reason = some contradictory }) db)

unfoldable pub confirm_in_tx : Env → ConfirmPaidInput → Action Database Refusal ConfirmOutcome
confirm_in_tx env input db = elim (locate input.session_ref input.payment_ref db.cards.payments) [
  | none ↦ give not_found db
  | some row ↦ confirm_row env input row db
]

-- The mail and the provisioning that follow the commit are left out.
unfoldable pub confirm_paid : Env → ConfirmPaidInput → Action Database Refusal ConfirmOutcome
confirm_paid env input db = transaction env.meanwhile (confirm_in_tx env input) db

-- The outcome of a confirmation that was committed.
unfoldable pub outcome_of : Env → ConfirmPaidInput → Database → Option ConfirmOutcome
outcome_of env input db = elim (confirm_paid env input db).0 [ done c ↦ some c | refused e ↦ none ]
