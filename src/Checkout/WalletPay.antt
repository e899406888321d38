-- ===== src/Checkout/WalletPay.antt =====
-- apps/api/src/store/checkout.service.ts: `payOrderWithWallet`, the payment of an order by the
-- balance, and apps/api/src/payments/blocking-payment.guard.ts.
pub mod Laws
pub mod Exclusive
mod Tests
use i_code_host_pro.Prelude.{
  ℕ, ◌≡◌, ◌&&◌, ◌||◌, Bool, true, false, not, Option, none, some, List, [], ◌∷◌, find,
  if◌then◌else◌, ◌==◌, opt_eq, is_some,
}
use i_code_host_pro.Prelude.Int.{ℤ, pos, integer, ◌+ℤ◌, ◌-ℤ◌, eq_ℤ, leb_ℤ, ltb_ℤ}
use i_code_host_pro.Prelude.Text.{Text, codes, text_eq}
use i_code_host_pro.Prelude.Actions.{
  Outcome, Action, done, refused, give, refuse, transaction, ◌>>=◌, ◌>>◌,
}
use i_code_host_pro.Wallet.Types.{
  Customer, WalletTx, ApplyWalletInput, debit_type, debit, is_succeeded, type_eq, ok, err,
}
use i_code_host_pro.Wallet.Db.{find_customer, find_by_key}
use i_code_host_pro.Wallet.Apply
use i_code_host_pro.Wallet.Apply.{apply_with_client}
use i_code_host_pro.Store.OrderLifecycle.{OrderStatus, active, paid, is_pending_payment}
use i_code_host_pro.Payments.RefundAccounting.{CardPayment, is_needs_review}
use i_code_host_pro.Payments.CardPayments.{is_live}
use i_code_host_pro.Payments.CardPayments.Events.{is_uncertain_call}
use i_code_host_pro.Checkout.Types
use i_code_host_pro.Checkout.Types.{
  Order, Database, ConfirmPaidContext, ConfirmTxOutcome, SubscriptionAction, wallet, Refusal,
  order_not_found, renewal_revoked, wallet_disabled, currency_unsupported, cannot_pay,
  card_payment_in_progress, payment_unresolved, partial_debit, wallet_refused,
}
use i_code_host_pro.Checkout.Gate.{find_order, renewal_charge_gate}
use i_code_host_pro.Checkout.Confirm.{confirm_order_within}

-- The fields of `JwtPayload` that are read.
pub record User : Type 0 where
  pub id : ℕ
  pub email : Text

pub record PayWithWalletResult : Type 0 where
  pub order_id : ℕ
  pub status : OrderStatus
  pub balance_cents : ℤ
  pub amount_ttc_cents : ℤ
  pub replayed : Bool
  pub already_confirmed : Bool
  pub subscription_action : Option SubscriptionAction

-- What the process takes from outside: the environments of the confirmation and of the wallet, the
-- setting that opens the wallet, the key `wallet-pay:<id>`, and what other processes commit between
-- the first read of the order and its lock.
pub record Env : Type 0 where
  pub confirm_env : Types.Env
  pub wallet_env : Apply.Env
  pub is_wallet_enabled : Bool
  pub wallet_pay_key : ℕ → ℕ
  pub before_lock : Database → Database

-- The card payment of the order that is still open.
unfoldable pub live_card : ℕ → List CardPayment → Option CardPayment
live_card order_id = find (λ p. opt_eq p.order_id (some order_id) && is_live p.status)

-- The card payment of the customer that blocks any other payment.
unfoldable pub blocking_payment : ℕ → List CardPayment → Option CardPayment
blocking_payment customer_id = find (λ p.
    p.customer_id == customer_id
    && (is_uncertain_call p || is_needs_review p.status && p.intervention_needed))

-- Whether a wallet transaction is the debit that paid the order.
unfoldable pub is_debit_of : ℕ → ℤ → Text → WalletTx → Bool
is_debit_of customer_id amount currency t =
    t.customer_id == customer_id
    && type_eq t.type debit_type
    && eq_ℤ t.amount_cents amount
    && text_eq t.currency currency
    && is_succeeded t.status

-- `netDebited`: the debits of the order that succeeded, less its credits.
unfoldable pub net_debited : ℕ → ℕ → List WalletTx → ℤ
net_debited customer_id order_id [] = pos 0
net_debited customer_id order_id (t ∷ ts) =
    let rest = net_debited customer_id order_id ts in
    if t.customer_id == customer_id && opt_eq t.order_id (some order_id) && is_succeeded t.status
    then if type_eq t.type debit_type then t.amount_cents +ℤ rest else rest -ℤ t.amount_cents
    else rest

unfoldable pub debit_input : Env → Order → ℤ → ApplyWalletInput
debit_input env order amount = record {
  amount_cents = integer amount;
  idempotency_key = env.wallet_pay_key order.id;
  currency = some order.currency;
  type = none;
  note = some (codes "Règlement commande par solde");
  reference = none;
  order_id = some order.id;
  invoice_id = none;
  payment_method_id = none;
  method_name = some (codes "Solde du portefeuille");
}

abbrev pub balance_of : ℕ → Database → ℤ
balance_of customer_id db = elim (find_customer customer_id db.wallet.customers) [
  | none ↦ pos 0
  | some c ↦ c.wallet_balance_cents
]

abbrev pub pay_context : Env → User → Order → ConfirmPaidContext
pay_context env user preview = record {
  source = wallet;
  actor_email = some user.email;
  reference = some (env.wallet_pay_key preview.id);
}

-- What the transaction returns.
unfoldable pub report : Order → ConfirmTxOutcome → Action Database Refusal PayWithWalletResult
report preview c db =
    give
      (record {
        order_id = preview.id;
        status = if c.renewal then active else paid;
        balance_cents = balance_of preview.customer_id db;
        amount_ttc_cents = preview.amount_ttc_cents;
        replayed = false;
        already_confirmed = c.already_confirmed;
        subscription_action = c.subscription_action;
      })
      db

-- `confirmOrderInTx`, and the result.
unfoldable pub confirm_and_report : Env → User → Order → Action Database Refusal PayWithWalletResult
confirm_and_report env user preview =
    confirm_order_within env.confirm_env (pay_context env user preview) preview.id
    >>= report preview

-- The debit, unless earlier debits of the order cover it.
unfoldable pub debit_order : Env → Order → Order → Action Database Refusal (Unit {0})
debit_order env preview row db =
    let net = net_debited preview.customer_id preview.id db.wallet.transactions in
    if leb_ℤ row.amount_ttc_cents net
    then give tt db
    else if ltb_ℤ (pos 0) net
    then refuse partial_debit db
    else (let (r, w) =
          apply_with_client env.wallet_env preview.customer_id
            (debit_input env preview row.amount_ttc_cents) debit db.wallet in
        elim r [
          | err e ↦ refuse (wallet_refused e) (record db { wallet = w })
          | ok applied ↦ give tt (record db { wallet = w })
        ])

-- No card payment stands in the way.
unfoldable pub card_gate : Order → Action Database Refusal (Unit {0})
card_gate preview db = elim (live_card preview.id db.cards.payments) [
  | some p ↦ refuse (card_payment_in_progress p.reference) db
  | none ↦ elim (blocking_payment preview.customer_id db.cards.payments) [
    | some p ↦ refuse (payment_unresolved p.reference) db
    | none ↦ give tt db
  ]
]

-- What an automatic charge asks of the row that is locked.
unfoldable pub charge_gate : Bool → Order → Action Database Refusal (Unit {0})
charge_gate false row db = give tt db
charge_gate true row db =
    if row.auto_renew then renewal_charge_gate row db else refuse renewal_revoked db

-- An order that is not pending: its own debit makes the call a replay.
unfoldable pub replay_payment :
    Env → Order → OrderStatus → ℤ → Text → ℤ → Action Database Refusal PayWithWalletResult
replay_payment env preview status amount currency balance db =
    elim (find_by_key (env.wallet_pay_key preview.id) db.wallet.transactions) [
      | none ↦ refuse (cannot_pay status) db
      | some prior ↦
          if is_debit_of preview.customer_id amount currency prior
          then give
              (record {
                order_id = preview.id;
                status = status;
                balance_cents = balance;
                amount_ttc_cents = preview.amount_ttc_cents;
                replayed = true;
                already_confirmed = true;
                subscription_action = none;
              })
              db
          else refuse (cannot_pay status) db
    ]

-- The payment of an order that is pending under its lock.
unfoldable pub pay_pending :
    Env → User → Bool → Order → Order → Action Database Refusal PayWithWalletResult
pay_pending env user required preview row = card_gate preview >>= λ _.
    charge_gate required row >>= λ _.
    debit_order env preview row >>= λ _. confirm_and_report env user preview

-- The body of the transaction, from the lock of the order on.
unfoldable pub pay_locked : Env → User → Bool → Order → Action Database Refusal PayWithWalletResult
pay_locked env user required preview db = elim (find_order preview.id db.orders) [
  | none ↦ refuse order_not_found db
  | some row ↦
      if is_pending_payment row.status
      then pay_pending env user required preview row db
      else replay_payment env preview row.status row.amount_ttc_cents row.currency
          (balance_of preview.customer_id db) db
]

abbrev pub usd : Text
usd = codes "USD"

unfoldable pub pay_order_with_wallet :
    Env → ℕ → User → Bool → Action Database Refusal PayWithWalletResult
pay_order_with_wallet env order_id user required db =
    if not env.is_wallet_enabled
    then refuse wallet_disabled db
    else elim (find_order order_id db.orders) [
      | none ↦ refuse order_not_found db
      | some preview ↦ elim (find_customer preview.customer_id db.wallet.customers) [
        | none ↦ refuse order_not_found db
        | some customer ↦
            if not (opt_eq customer.user_id (some user.id))
            then refuse order_not_found db
            else if not (text_eq preview.currency usd)
            then refuse currency_unsupported db
            else if is_pending_payment preview.status
            then transaction env.confirm_env.before_cas (pay_locked env user required preview)
                (env.before_lock db)
            else replay_payment env preview preview.status preview.amount_ttc_cents preview.currency
                customer.wallet_balance_cents db
      ]
    ]
