-- ===== src/Wallet/Recharge.antt =====
-- apps/api/src/wallet/wallet.service.ts: `createRecharge`, `validateRecharge` and
-- `rejectRecharge`, the bank transfers that an administrator turns into a credit.
pub mod Rows
pub mod Books
pub mod Once
pub mod Deposits
use i_code_host_pro.Prelude.{
  ℕ, zero, suc, ◌≡◌, ◌&&◌, ◌||◌, not, ◌++◌, Bool, true, false, Option, none, some, List, [], ◌∷◌,
  if◌then◌else◌, ◌==◌, or_else, any, ltb, length, ◌+◌, map,
}
use i_code_host_pro.Prelude.Int.{ℤ, pos, ltb_ℤ, Number}
use i_code_host_pro.Prelude.Text.{Text, codes, trim, is_empty}
use i_code_host_pro.Wallet.Types.{
  TxType, credit_type, TxStatus, pending, succeeded, canceled, type_eq, is_pending, WalletTx,
  Customer, Error, amount_too_small, amount_too_large, bank_ref_invalid, recharge_not_found,
  unexpected_type, already_processed, bank_ref_reused, customer_not_found, unique_violation, Result,
  ok, err, Db, Action, pure, raise, gets, or_raise, lift, ◌>>=◌, ◌>>◌, raise_if, modify, key_reused,
  UniqueField,
}
use i_code_host_pro.Wallet.Db.{
  find_customer, find_tx, create_tx, increment, update_tx, without_tx, same_bank_ref,
}
use i_code_host_pro.Wallet.Apply.{cents, assert_amount, usd}

abbrev pub recharge_min_cents : ℤ
recharge_min_cents = pos 100

abbrev pub recharge_max_cents : ℤ
recharge_max_cents = pos 10000000

-- A proof file that was stored for a recharge.
pub record Proof : Type 0 where
  pub file_name : Text
  pub path : Text
  pub mime : Text

pub record CreateRechargeInput : Type 0 where
  pub amount_cents : Number
  pub note : Option Text
  pub proof : Option Proof
  pub payment_method_id : Option ℕ

-- What one attempt generates: the row's id, its reference and its idempotency key.
pub record Generated : Type 0 where
  pub id : ℕ
  pub reference : ℕ
  pub idempotency_key : ℕ

abbrev pub opt_map : {A B : Type 0} → (A → B) → Option A → Option B
opt_map f none = none
opt_map f (some a) = some (f a)

-- `s?.trim() || null`
abbrev pub trimmed_or_null : Option Text → Option Text
trimmed_or_null none = none
trimmed_or_null (some s) = if is_empty (trim s) then none else some (trim s)

-- The row of a deposit: pending, with no effect on the balance. The currency is the column's
-- default.
unfoldable pub recharge_row : ℕ → CreateRechargeInput → Generated → WalletTx
recharge_row customer_id input g = record {
  id = g.id;
  customer_id = customer_id;
  type = credit_type;
  amount_cents = cents input.amount_cents;
  currency = usd;
  status = pending;
  idempotency_key = g.idempotency_key;
  reference = some g.reference;
  bank_ref = none;
  order_id = none;
  invoice_id = none;
  note = trimmed_or_null input.note;
  payment_method_id = input.payment_method_id;
  method_name = some (codes "Virement bancaire");
  proof_file_name = opt_map (λ p. p.file_name) input.proof;
  proof_path = opt_map (λ p. p.path) input.proof;
  proof_mime = opt_map (λ p. p.mime) input.proof;
  admin_actor_id = none;
  admin_actor_email = none;
  processed_at = none;
  disputed_at = none;
}

-- What one attempt makes of its insertion: a collision on a unique column is tried again, any
-- other error passes.
unfoldable pub after_insert :
    WalletTx → (UniqueField → Action WalletTx) → Result (Unit {0}) × Db → Result WalletTx × Db
after_insert row again (ok _, db) = (ok row, db)
after_insert row again (err (unique_violation f), db) = again f db
after_insert row again (err e, db) = (err e, db)

-- The attempts left, the one at hand, and the error to raise when none is left.
unfoldable pub create_attempts :
    ℕ → ℕ → Error → ℕ → CreateRechargeInput → (ℕ → Generated) → Action WalletTx
create_attempts zero attempt last customer_id input generate db = raise last db
create_attempts (suc left) attempt last customer_id input generate db =
    let row = recharge_row customer_id input (generate attempt) in
    after_insert row
      (λ f. create_attempts left (attempt + 1) (unique_violation f) customer_id input generate)
      (create_tx row db)

unfoldable pub create_recharge : ℕ → CreateRechargeInput → (ℕ → Generated) → Action WalletTx
create_recharge customer_id input generate = do
  lift (assert_amount input.amount_cents)
  lift (raise_if (ltb_ℤ (cents input.amount_cents) recharge_min_cents) amount_too_small)
  lift (raise_if (ltb_ℤ recharge_max_cents (cents input.amount_cents)) amount_too_large)
  create_attempts 3 0 key_reused customer_id input generate

pub record Admin : Type 0 where
  pub id : ℕ
  pub email : Text

-- What `validateRecharge` returns.
pub record Validated : Type 0 where
  pub balance_cents : ℤ
  pub bank_ref : Text
  pub amount_cents : ℤ
  pub currency : Text

-- The fields that the validation sets.
unfoldable pub settle : ℕ → Admin → Text → WalletTx → WalletTx
settle now admin ref t = record t {
  status = succeeded;
  processed_at = some now;
  admin_actor_id = some admin.id;
  admin_actor_email = some admin.email;
  bank_ref = some ref;
}

-- The compare-and-set from PENDING: it fails if the row is no longer pending, or if its bank
-- reference stands on another row.
unfoldable pub settle_pending : ℕ → ℕ → Admin → Text → Action (Unit {0})
settle_pending id now admin ref db = elim (find_tx id db.transactions) [
  | none ↦ raise already_processed db
  | some t ↦
      if not (is_pending t.status)
      then raise already_processed db
      else if any (same_bank_ref (some ref)) (without_tx id db.transactions)
      then raise bank_ref_reused db
      else (ok tt, record db { transactions = update_tx id (settle now admin ref) db.transactions })
]

-- `before_lock` is what other processes commit before the row lock of the customer is granted.
unfoldable pub validate_recharge : (Db → Db) → ℕ → ℕ → Admin → Option Text → Action Validated
validate_recharge before_lock now id admin bank_ref = do
  let ref = trim (or_else bank_ref [])
  lift (raise_if (ltb (length ref) 3 || ltb 64 (length ref)) bank_ref_invalid)
  row ← or_raise (← gets (λ db. find_tx id db.transactions)) recharge_not_found
  lift (raise_if (not (type_eq row.type credit_type)) unexpected_type)
  modify before_lock
  or_raise (← gets (λ db. find_customer row.customer_id db.customers)) customer_not_found
  settle_pending id now admin ref
  balance ← increment row.customer_id row.amount_cents
  pure (record {
    balance_cents = balance;
    bank_ref = ref;
    amount_cents = row.amount_cents;
    currency = row.currency;
  })

-- The note of a rejected row: what it had, and the reason.
unfoldable pub rejection_note : Option Text → Option Text → Text
rejection_note note reason = elim note [
  | none ↦ suffix
  | some n ↦ if is_empty n then suffix else n ++ (codes " · " ++ suffix)
]
  where
    suffix : Text
    suffix = elim reason [
      | none ↦ codes "REJET"
      | some r ↦ if is_empty r then codes "REJET" else codes "REJET : " ++ r
    ]

unfoldable pub cancel : ℕ → Admin → Text → WalletTx → WalletTx
cancel now admin note t = record t {
  status = canceled;
  processed_at = some now;
  admin_actor_id = some admin.id;
  admin_actor_email = some admin.email;
  note = some note;
}

-- `before_update` is what other processes commit between the read and the compare-and-set.
unfoldable pub reject_recharge : (Db → Db) → ℕ → ℕ → Admin → Option Text → Action (Unit {0})
reject_recharge before_update now id admin reason = do
  row ← or_raise (← gets (λ db. find_tx id db.transactions)) recharge_not_found
  let note = rejection_note row.note reason
  modify before_update
  current ← or_raise (← gets (λ db. find_tx id db.transactions)) already_processed
  lift (raise_if (not (is_pending current.status)) already_processed)
  modify (λ db. record db { transactions = update_tx id (cancel now admin note) db.transactions })
