-- ===== src/Wallet/Tests.antt =====
-- apps/api/src/wallet/wallet.service.ts: runs at concrete tables, and the theorems applied there.
use i_code_host_pro.Prelude.{
  ℕ, ◌≡◌, refl, true, false, Option, none, some, [], ◌∷◌, arith, ◌+◌, ◌==◌, if◌then◌else◌,
}
use i_code_host_pro.Prelude.Int.{ℤ, pos, ◌+ℤ◌, ◌-ℤ◌, integer}
use i_code_host_pro.Prelude.Text.{
  Text, codes, text_eq, trim, trim_start, to_upper_case, upper, is_space,
}
use i_code_host_pro.Wallet.Types.{
  Customer, WalletTx, ApplyWalletInput, ApplyResult, debit, credit_type, pending, ok, err, Db,
  already_processed, debit_type, succeeded, canceled,
}
use i_code_host_pro.Wallet.Db.{find_customer, find_tx, create_tx, increment}
use i_code_host_pro.Wallet.Ledger.{IsBook}
use i_code_host_pro.Wallet.Apply.{
  Env, apply, apply_in_tx, locked_apply, on_unique_violation, credit_wallet, debit_wallet,
  guard_operation, assert_operation_currency, is_currency_code, effective_type, applied_row,
  balance_change, usd,
}
use i_code_host_pro.Wallet.Apply.Books.{Keeps, credit_wallet-IsBook, debit_wallet-IsBook}
use i_code_host_pro.Wallet.Apply.First.{IsApplied, apply_first}
use i_code_host_pro.Wallet.Apply.Replay.{apply_twice}
use i_code_host_pro.Wallet.Recharge.{
  Admin, Validated, Generated, CreateRechargeInput, validate_recharge, settle_pending, settle,
  reject_recharge, cancel, rejection_note,
}
use i_code_host_pro.Wallet.Recharge.Books.{KeepsRow, validate_recharge-IsBook}
use i_code_host_pro.Wallet.Recharge.Once.{
  validate_recharge_credits, validate_recharge_once, reject_recharge_final,
}

abbrev alice : Customer
alice = record {
  id = 1;
  email = codes "a@b.c";
  name = codes "Alice";
  user_id = none;
  wallet_balance_cents = pos 500;
  wallet_currency = usd;
}

-- A pending bank transfer of 20.00.
abbrev deposit : WalletTx
deposit = record {
  id = 9;
  customer_id = 1;
  type = credit_type;
  amount_cents = pos 2000;
  currency = usd;
  status = pending;
  idempotency_key = 77;
  reference = some 5;
  bank_ref = none;
  order_id = none;
  invoice_id = none;
  note = none;
  payment_method_id = none;
  method_name = none;
  proof_file_name = none;
  proof_path = none;
  proof_mime = none;
  admin_actor_id = none;
  admin_actor_email = none;
  processed_at = none;
  disputed_at = none;
}

abbrev tables : Db
tables = record { users = []; customers = alice ∷ []; transactions = deposit ∷ [] }

abbrev opening : ℕ → ℤ
opening _ = pos 500

abbrev alone : Env
alone = record {
  new_id = 30;
  now = 1000;
  before_tx = λ db. db;
  before_lock = λ db. db;
  after_abort = λ db. db;
}

abbrev input : ApplyWalletInput
input = record {
  amount_cents = integer (pos 300);
  idempotency_key = 12;
  currency = some usd;
  type = none;
  note = none;
  reference = none;
  order_id = some 4;
  invoice_id = none;
  payment_method_id = none;
  method_name = none;
}

abbrev boss : Admin
boss = record { id = 2; email = codes "x@y.z" }

tables-IsBook : IsBook opening tables
unfolding ◌+ℤ◌
tables-IsBook = record {
  balanced = λ id c e. ground arith;
  solvent = λ id c e. ground arith;
  unique_keys = (refl, tt);
  unique_refs = (refl, refl, tt);
  positive = (omega arith, tt);
}

alone-Keeps : Keeps (IsBook opening) alone
alone-Keeps = record { before_tx = λ db h. h; before_lock = λ db h. h; after_abort = λ db h. h }

debit_300 :
    (apply alone 1 input debit tables).0 ≡ ok (record { balance_cents = pos 200; replayed = false })
unfolding apply apply_in_tx locked_apply on_unique_violation create_tx increment guard_operation
    assert_operation_currency is_currency_code trim trim_start is_space to_upper_case upper text_eq
    balance_change applied_row effective_type ◌+ℤ◌ ◌-ℤ◌
debit_300 = refl

credit_wallet-IsBook_example : IsBook opening (credit_wallet alone 1 input tables).1
credit_wallet-IsBook_example =
    credit_wallet-IsBook opening alone 1 input tables alone-Keeps tables-IsBook
      (unfold effective_type in refl)

debit_wallet-IsBook_example : IsBook opening (debit_wallet alone 1 input tables).1
unfolding effective_type
debit_wallet-IsBook_example =
    debit_wallet-IsBook opening alone 1 input tables alone-Keeps tables-IsBook refl

-- The tables after the debit.
abbrev paid : Db
paid = record tables {
  customers = record alice { wallet_balance_cents = pos 200 } ∷ [];
  transactions =
      record deposit {
        id = 30;
        type = debit_type;
        amount_cents = pos 300;
        status = succeeded;
        idempotency_key = 12;
        reference = none;
        order_id = some 4;
        processed_at = some 1000;
      }
      ∷ deposit
      ∷ [];
}

abbrev receipt : ApplyResult
receipt = record { balance_cents = pos 200; replayed = false }

input-paid : apply alone 1 input debit tables ≡ (ok receipt, paid)
unfolding apply apply_in_tx locked_apply on_unique_violation create_tx increment guard_operation
    assert_operation_currency is_currency_code trim trim_start is_space to_upper_case upper text_eq
    balance_change applied_row effective_type ◌+ℤ◌ ◌-ℤ◌
input-paid = refl

apply_first_example : IsApplied 1 input debit (pos 300) tables receipt paid
apply_first_example =
    apply_first alone 1 input debit tables receipt paid (pos 300) input-paid refl refl

apply_twice_example :
    apply alone 1 input debit paid ≡ (ok (record receipt { replayed = true }), paid)
apply_twice_example = apply_twice alone alone 1 input debit tables receipt paid input-paid refl

-- Another process commits the same key before the lock.
abbrev raced : Env
raced = record alone { before_lock = λ db. paid }

abbrev bank_ref : Option Text
bank_ref = some (codes " VIR-1 ")

deposit-KeepsRow : KeepsRow 9 (λ db. db) tables
deposit-KeepsRow = record { same_row = λ row t e f. ground arith }

validate_recharge-IsBook_example :
    IsBook opening (validate_recharge (λ db. db) 50 9 boss bank_ref tables).1
validate_recharge-IsBook_example =
    validate_recharge-IsBook (λ db. db) 50 9 boss bank_ref opening tables tables-IsBook
      tables-IsBook deposit-KeepsRow

validate_recharge_credits_example :
    let (r, db') = validate_recharge (λ db. db) 50 9 boss bank_ref tables in
    let after = pos 500 +ℤ pos 2000 in
    let ref = trim (codes " VIR-1 ") in
    (r
      ≡ ok (record {
        balance_cents = after;
        bank_ref = ref;
        amount_cents = pos 2000;
        currency = usd;
      }))
    × ((j : ℕ)
        → find_customer j db'.customers ≡ (
            if j == 1
            then some (record alice { wallet_balance_cents = after })
            else find_customer j tables.customers))
    × ((j : ℕ)
        → find_tx j db'.transactions ≡ (
            if j == 9
            then some (record deposit {
              status = succeeded;
              processed_at = some 50;
              admin_actor_id = some 2;
              admin_actor_email = some (codes "x@y.z");
              bank_ref = some ref;
            })
            else find_tx j tables.transactions))
    × (db'.users ≡ [])
unfolding trim trim_start is_space ◌+ℤ◌
validate_recharge_credits_example =
    validate_recharge_credits (λ db. db) 50 9 boss bank_ref tables deposit deposit alice refl refl
      refl refl refl refl refl (omega arith)

-- The tables after the validation.
abbrev validated : Validated
validated = record {
  balance_cents = pos 2500;
  bank_ref = codes "VIR-1";
  amount_cents = pos 2000;
  currency = usd;
}

abbrev settled : Db
settled = record tables {
  customers = record alice { wallet_balance_cents = pos 2500 } ∷ [];
  transactions =
      record deposit {
        status = succeeded;
        processed_at = some 50;
        admin_actor_id = some 2;
        admin_actor_email = some (codes "x@y.z");
        bank_ref = some (codes "VIR-1");
      }
      ∷ [];
}

deposit-validated : validate_recharge (λ db. db) 50 9 boss bank_ref tables ≡ (ok validated, settled)
unfolding validate_recharge settle_pending settle increment trim trim_start is_space text_eq ◌+ℤ◌
deposit-validated = refl

validate_recharge_once_example :
    validate_recharge (λ db. db) 60 9 boss (some (codes "VIR-2")) settled
    ≡ (err already_processed, settled)
unfolding trim trim_start is_space
validate_recharge_once_example =
    validate_recharge_once (λ db. db) 50 60 9 boss boss bank_ref (some (codes "VIR-2")) tables
      validated settled deposit-validated deposit-KeepsRow refl

-- The tables after a rejection.
abbrev rejected : Db
rejected = record tables {
  transactions =
      record deposit {
        status = canceled;
        processed_at = some 50;
        admin_actor_id = some 2;
        admin_actor_email = some (codes "x@y.z");
        note = some (codes "REJET");
      }
      ∷ [];
}

deposit-rejected : reject_recharge (λ db. db) 50 9 boss none tables ≡ (ok tt, rejected)
unfolding reject_recharge cancel rejection_note
deposit-rejected = refl

reject_recharge_final_example :
    (rejected.customers ≡ tables.customers)
    × (validate_recharge (λ db. db) 60 9 boss bank_ref rejected ≡ (err already_processed, rejected))
unfolding trim trim_start is_space
reject_recharge_final_example =
    reject_recharge_final (λ db. db) 50 60 9 boss boss none bank_ref tables rejected deposit alice
      deposit-rejected refl refl refl refl

abbrev request : CreateRechargeInput
request = record {
  amount_cents = integer (pos 4000);
  note = some (codes " hello ");
  proof = none;
  payment_method_id = none;
}

-- The first reference is taken, the second is free.
abbrev generate : ℕ → Generated
generate n = record { id = 40 + n; reference = 5 + n; idempotency_key = 90 + n }
