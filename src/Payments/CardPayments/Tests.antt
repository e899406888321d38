-- ===== src/Payments/CardPayments/Tests.antt =====
-- apps/api/src/payments/card-payments.service.ts: the theorems applied at a top-up and at the payment
-- of an order.
use i_code_host_pro.Prelude.{ℕ, ◌≡◌, ◌≤◌, refl, false, none, some, [], ◌∷◌, arith}
use i_code_host_pro.Prelude.Int.{ℤ, pos, integer, ◌+ℤ◌}
use i_code_host_pro.Prelude.Text.{
  codes, text_eq, to_upper_case, to_lower_case, upper, lower, trim, trim_start, is_space,
}
use i_code_host_pro.Prelude.Actions.{transaction}
use i_code_host_pro.Wallet.Types.{Customer}
use i_code_host_pro.Wallet.Ledger.{IsBook}
use i_code_host_pro.Wallet.Db.{create_tx, increment}
use i_code_host_pro.Wallet.Apply.{
  apply_with_client, checked, apply_in_tx, locked_apply, guard_operation, assert_amount,
  assert_operation_currency, is_currency_code, balance_change, applied_row, effective_type,
}
use i_code_host_pro.Store.OrderLifecycle.{pending_payment}
use i_code_host_pro.Store.BillingCycle.{Date, onetime}
use i_code_host_pro.Payments.RefundAccounting.{
  CardPayment, topup, order_payment, created, find_payment, update_payment,
}
use i_code_host_pro.Checkout.Types.{Order, Database}
use i_code_host_pro.Payments.CardPayments.{
  Env, ConfirmPaidInput, credited, already_done, outcome_of, confirm_paid, confirm_in_tx,
  confirm_row, settle_live, settle_kind, settle_topup_in_tx, credit_topup, credit_input,
  mark_credited, cas_live, problems, amount_problems, currency_problems, locate, settle_order_in_tx,
}
use i_code_host_pro.Payments.CardPayments.Settled.{KeepsCards}
use i_code_host_pro.Payments.CardPayments.Confirmed.{HasUniqueKeys}
use i_code_host_pro.Payments.CardPayments.Trace.{Trace, stop, told, confirm}
use i_code_host_pro.Payments.CardPayments.Once.{count_paid, paid_at_most_once}
use i_code_host_pro.Payments.CardPayments.Separate.{settle_order_in_tx-wallet}
use i_code_host_pro.Payments.CardPayments.Books.{KeepsBooks, confirm_paid-IsBook}

-- A customer with no account.
abbrev guest : Customer
guest = record {
  id = 1;
  email = codes "g@h.i";
  name = codes "Guest";
  user_id = none;
  wallet_balance_cents = pos 0;
  wallet_currency = codes "USD";
}

abbrev recharge : CardPayment
recharge = record {
  id = 1;
  reference = 11;
  customer_id = 1;
  order_id = none;
  kind = topup;
  status = created;
  amount_cents = pos 900;
  currency = codes "usd";
  provider_code = 1;
  merchant_account = 2;
  livemode = none;
  provider_session_ref = some 21;
  provider_payment_ref = none;
  wallet_transaction_id = none;
  refunded_cents = pos 0;
  pending_refund_cents = pos 0;
  provider_call_state = none;
  dispatch_owner = none;
  dispatch_claimed_at = none;
  failure_code = none;
  failure_message = none;
  paid_at = none;
  disputed_at = none;
  intervention_needed = false;
  intervention_reason = none;
}

abbrev purchase : CardPayment
purchase = record recharge {
  id = 2;
  reference = 12;
  order_id = some 4;
  kind = order_payment;
  provider_session_ref = some 31;
}

-- A pending order of a pack.
abbrev order : Order
order = record {
  id = 4;
  customer_id = 1;
  customer_email = codes "g@h.i";
  product_id = 7;
  product_name = codes "Start";
  pack_id = some 8;
  status = pending_payment;
  billing_cycle = onetime;
  currency = codes "USD";
  amount_ttc_cents = pos 900;
  requested_subdomain = none;
  requested_domain_id = none;
  paid_at = none;
  next_billing_date = none;
  auto_renew = false;
  renewal_consent_at = none;
  renews_order_id = none;
}

abbrev shop : Database
shop = record {
  orders = order ∷ [];
  invoices = [];
  history = [];
  subscriptions = [];
  products = [];
  trackings = [];
  services = [];
  wallet = record { users = []; customers = guest ∷ []; transactions = [] };
  cards = record { payments = recharge ∷ purchase ∷ []; refunds = []; observations = [] };
}

abbrev today : Date
today = record { year = 2026; month = 0; day = 31; ms_of_day = 0 }

abbrev alone : Env
alone = record {
  now = 1000;
  wallet_env = record {
    new_id = 30;
    now = 1000;
    before_tx = λ db. db;
    before_lock = λ db. db;
    after_abort = λ db. db;
  };
  checkout_env = record {
    now = today;
    is_hosting_c3_enabled = false;
    new_subscription_id = 50;
    new_service_id = 51;
    before_cas = λ db. db;
  };
  cardpay_key = λ id. id;
  recharge_note = λ r. codes "Recharge";
  meanwhile = λ db. db;
}

abbrev event : ConfirmPaidInput
event = record {
  session_ref = some 21;
  payment_ref = some 22;
  amount_total_cents = some (integer (pos 900));
  currency = some (codes "usd");
  livemode = some false;
  provider_code = 1;
  merchant_account = some 2;
  reference = none;
}

alone-KeepsCards : KeepsCards alone
alone-KeepsCards = record { meanwhile = λ db. refl; before_cas = λ db. refl }

shop-HasUniqueKeys : HasUniqueKeys shop.cards.payments
shop-HasUniqueKeys = (((ground arith, ground arith), tt), (tt, tt))

abbrev after : Database
after = (confirm_paid alone event shop).1

-- The same event twice: it credits, then it is known.
twice : Trace shop (credited 11 (pos 900) ∷ already_done 11 ∷ []) (confirm_paid alone event after).1
unfolding outcome_of confirm_paid confirm_in_tx confirm_row settle_live settle_kind
    settle_topup_in_tx credit_topup credit_input mark_credited cas_live problems amount_problems
    currency_problems locate transaction find_payment update_payment text_eq to_upper_case
    to_lower_case upper lower trim trim_start is_space create_tx increment apply_with_client checked
    apply_in_tx locked_apply guard_operation assert_amount assert_operation_currency
    is_currency_code balance_change applied_row effective_type ◌+ℤ◌
twice =
    told (confirm alone event shop alone-KeepsCards)
      (told (confirm alone event after alone-KeepsCards) (stop _))

paid_at_most_once_example : count_paid 11 (credited 11 (pos 900) ∷ already_done 11 ∷ []) ≤ 1
paid_at_most_once_example = paid_at_most_once 11 twice shop-HasUniqueKeys

abbrev opening : ℕ → ℤ
opening _ = pos 0

alone-KeepsBooks : KeepsBooks opening alone
alone-KeepsBooks = record {
  wallet = record { before_tx = λ db h. h; before_lock = λ db h. h; after_abort = λ db h. h };
  meanwhile = λ db h. h;
  before_cas = λ db. refl;
}

shop-IsBook : IsBook opening shop.wallet
unfolding ◌+ℤ◌
shop-IsBook = record {
  balanced = λ id c e. ground arith;
  solvent = λ id c e. ground arith;
  unique_keys = tt;
  unique_refs = tt;
  positive = tt;
}

confirm_paid-IsBook_example : IsBook opening (confirm_paid alone event shop).1.wallet
confirm_paid-IsBook_example =
    confirm_paid-IsBook opening alone event alone-KeepsBooks shop shop-IsBook

settle_order_in_tx-wallet_example :
    (settle_order_in_tx alone event purchase shop).1.wallet ≡ shop.wallet
settle_order_in_tx-wallet_example = settle_order_in_tx-wallet alone event purchase shop (λ d. refl)
