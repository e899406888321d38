-- ===== src/Checkout/WalletPay/Tests.antt =====
-- apps/api/src/store/checkout.service.ts: the theorems applied at a renewal that its customer pays by
-- the balance.
use i_code_host_pro.Prelude.{ℕ, ◌≡◌, refl, true, false, none, some, arith}
use i_code_host_pro.Prelude.Int.{ℤ, pos, ◌+ℤ◌, ◌-ℤ◌}
use i_code_host_pro.Prelude.Text.{codes, text_eq, to_upper_case, upper, trim, trim_start, is_space}
use i_code_host_pro.Prelude.Actions.{done, transaction}
use i_code_host_pro.Wallet.Ledger.{IsBook}
use i_code_host_pro.Wallet.Db.{create_tx, increment}
use i_code_host_pro.Wallet.Apply.{
  apply_with_client, checked, apply_in_tx, locked_apply, guard_operation, assert_amount,
  assert_operation_currency, is_currency_code, balance_change, applied_row, effective_type,
}
use i_code_host_pro.Store.OrderLifecycle.{active}
use i_code_host_pro.Checkout.Types.{Order, Database}
use i_code_host_pro.Checkout.Gate.{find_order, ancestors, resolve_subscription_for_order}
use i_code_host_pro.Checkout.Confirm.{
  finish_order, complete_order, confirm_pending, confirm_order_within,
}
use i_code_host_pro.Checkout.Settle.{
  confirm_note, arm_now, pay_order, is_open, update_orders, pay_invoice, link_invoice, user_of,
  settle_order, activate_renewal, open_rights, linked_subscription, link_subscription, open_c3,
}
use i_code_host_pro.Checkout.WalletPay.{
  Env, User, PayWithWalletResult, live_card, blocking_payment, net_debited, debit_input, report,
  confirm_and_report, debit_order, card_gate, charge_gate, pay_pending, pay_locked,
  pay_order_with_wallet,
}
use i_code_host_pro.Checkout.WalletPay.Laws.{KeepsBooks, pay_order_with_wallet-IsBook}
use i_code_host_pro.Checkout.WalletPay.Exclusive.{IsExclusive, pay_order_with_wallet-IsExclusive}
use i_code_host_pro.Checkout.Tests.{shop, alone}

abbrev bob_user : User
bob_user = record { id = 2; email = codes "b@c.d" }

abbrev shop_env : Env
shop_env = record {
  confirm_env = alone;
  wallet_env = record {
    new_id = 30;
    now = 1000;
    before_tx = λ db. db;
    before_lock = λ db. db;
    after_abort = λ db. db;
  };
  is_wallet_enabled = true;
  wallet_pay_key = λ id. id;
  before_lock = λ db. db;
}

abbrev opening : ℕ → ℤ
opening _ = pos 900

shop_env-KeepsBooks : KeepsBooks opening shop_env
shop_env-KeepsBooks = record {
  wallet = record { before_tx = λ db h. h; before_lock = λ db h. h; after_abort = λ db h. h };
  before_lock = λ db h. h;
  before_cas = λ db. refl;
}

shop-IsBook : IsBook opening shop.wallet
unfolding ◌+ℤ◌
shop-IsBook = record {
  balanced = λ id c e. ground arith;
  solvent = λ id c e. ground arith;
  unique_keys = tt;
  unique_refs = tt;
  positive = tt;
}

pay_order_with_wallet-IsBook_example :
    IsBook opening (pay_order_with_wallet shop_env 4 bob_user false shop).1.wallet
pay_order_with_wallet-IsBook_example =
    pay_order_with_wallet-IsBook opening shop_env shop_env-KeepsBooks 4 bob_user false shop
      shop-IsBook

abbrev after : Database
after = (pay_order_with_wallet shop_env 4 bob_user false shop).1

abbrev receipt : PayWithWalletResult
receipt = record {
  order_id = 4;
  status = active;
  balance_cents = pos 0;
  amount_ttc_cents = pos 900;
  replayed = false;
  already_confirmed = false;
  subscription_action = none;
}

renewal-paid : pay_order_with_wallet shop_env 4 bob_user false shop ≡ (done receipt, after)
unfolding find_order ancestors resolve_subscription_for_order confirm_note arm_now pay_order is_open
    update_orders pay_invoice link_invoice user_of settle_order activate_renewal open_rights
    linked_subscription link_subscription open_c3 finish_order complete_order confirm_pending
    confirm_order_within transaction live_card blocking_payment net_debited debit_input report
    confirm_and_report debit_order card_gate charge_gate pay_pending pay_locked
    pay_order_with_wallet text_eq to_upper_case upper trim trim_start is_space create_tx increment
    apply_with_client checked apply_in_tx locked_apply guard_operation assert_amount
    assert_operation_currency is_currency_code balance_change applied_row effective_type ◌+ℤ◌ ◌-ℤ◌
renewal-paid = refl

pay_order_with_wallet-IsExclusive_example :
    (o : Order) × (find_order 4 shop.orders ≡ some o)
    × (user_of o shop ≡ some 2)
    × IsExclusive o.id o.customer_id shop after
pay_order_with_wallet-IsExclusive_example =
    pay_order_with_wallet-IsExclusive shop_env bob_user false 4 shop receipt after renewal-paid refl
