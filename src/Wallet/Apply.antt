-- ===== src/Wallet/Apply.antt =====
-- apps/api/src/wallet/wallet.service.ts: `assertAmount`, `assertOperationCurrency`,
-- `operationIdentityMatches`, `replayResult`, `applyInTx`, `apply`, `credit`, `debit` and
-- `applyWithClient`.

pub mod Outcome
pub mod Books
pub mod Replay
pub mod First
use i_code_host_pro.Prelude.{
  ℕ, ◌≡◌, ◌&&◌, ◌||◌, not, Bool, true, false, Option, none, some, List, [], ◌∷◌, if◌then◌else◌,
  ◌==◌, or_else, opt_eq, is_some,
}
use i_code_host_pro.Prelude.Int.{
  ℤ, pos, negsuc, ◌-ℤ◌, leb_ℤ, ltb_ℤ, eq_ℤ, Number, integer, not_integer,
}
use i_code_host_pro.Prelude.Text.{
  Text, codes, text_eq, trim, to_upper_case, is_upper, is_lower, is_empty,
}
use i_code_host_pro.Wallet.Types.{
  TxType, credit_type, debit_type, TxStatus, succeeded, Direction, credit, debit, type_eq,
  is_succeeded, Customer, WalletTx, ApplyWalletInput, ApplyResult, Error, invalid_amount,
  currency_missing, currency_invalid, customer_not_found, wallet_currency_unknown,
  currency_mismatch, insufficient_balance, key_reused, unique_violation, Result, ok, err, Db,
  Action, pure, raise, gets, or_raise, lift, ◌>>=◌, ◌>>◌, raise_if, modify,
}
use i_code_host_pro.Wallet.Db.{find_customer, find_by_key, create_tx, increment}

-- The integer that a checked amount is.
abbrev pub cents : Number → ℤ
cents (integer z) = z
cents not_integer = pos 0

unfoldable pub assert_amount : Number → Result (Unit {0})
assert_amount not_integer = err invalid_amount
assert_amount (integer z) = raise_if (leb_ℤ z (pos 0)) invalid_amount

abbrev pub is_letter : ℕ → Bool
is_letter x = is_upper x || is_lower x

-- /^[A-Za-z]{3}$/
unfoldable pub is_currency_code : Text → Bool
is_currency_code (a ∷ b ∷ c ∷ []) = is_letter a && is_letter b && is_letter c
is_currency_code _ = false

unfoldable pub assert_operation_currency : Option Text → Result Text
assert_operation_currency currency =
    let raw = trim (or_else currency []) in
    if is_empty raw
    then err currency_missing
    else if is_currency_code raw
    then ok (to_upper_case raw)
    else err currency_invalid

abbrev pub usd : Text
usd = codes "USD"

-- `input.type ?? (direction === 'credit' ? CREDIT : DEBIT)`
unfoldable pub effective_type : ApplyWalletInput → Direction → TxType
effective_type input credit = or_else input.type credit_type
effective_type input debit = or_else input.type debit_type

unfoldable pub operation_identity_matches : WalletTx → ℕ → ApplyWalletInput → Direction → Bool
operation_identity_matches row customer_id input direction =
    row.customer_id == customer_id
    && type_eq row.type (effective_type input direction)
    && eq_ℤ row.amount_cents (cents input.amount_cents)
    && text_eq row.currency (or_else input.currency usd)
    && is_succeeded row.status
    && opt_eq row.order_id input.order_id
    && opt_eq row.invoice_id input.invoice_id
    && opt_eq row.reference input.reference

unfoldable pub replay_result : WalletTx → ℕ → ApplyWalletInput → Direction → Action ApplyResult
replay_result row customer_id input direction = do
  lift (raise_if (not (operation_identity_matches row customer_id input direction)) key_reused)
  customer ← or_raise (← gets (λ db. find_customer customer_id db.customers)) customer_not_found
  pure (record { balance_cents = customer.wallet_balance_cents; replayed = true })

abbrev pub is_debit : Direction → Bool
is_debit credit = false
is_debit debit = true

-- The guards that `applyInTx` makes on the locked row of the customer.
unfoldable pub guard_operation : Customer → ApplyWalletInput → Direction → Result (Unit {0})
guard_operation customer input direction = elim (assert_operation_currency input.currency) [
  | err e ↦ err e
  | ok wanted ↦
      let owned = to_upper_case (trim customer.wallet_currency) in
      if is_empty owned
      then err wallet_currency_unknown
      else if not (text_eq wanted owned)
      then err currency_mismatch
      else if is_debit direction && ltb_ℤ customer.wallet_balance_cents (cents input.amount_cents)
      then err insufficient_balance
      else ok tt
]

-- The row that `applyInTx` inserts; `id` and `now` are the generated key and the clock.
unfoldable pub applied_row : ℕ → ℕ → ℕ → ApplyWalletInput → Direction → WalletTx
applied_row id now customer_id input direction = record {
  id = id;
  customer_id = customer_id;
  type = effective_type input direction;
  amount_cents = cents input.amount_cents;
  currency = or_else input.currency usd;
  status = succeeded;
  idempotency_key = input.idempotency_key;
  reference = input.reference;
  bank_ref = none;
  order_id = input.order_id;
  invoice_id = input.invoice_id;
  note = input.note;
  payment_method_id = input.payment_method_id;
  method_name = input.method_name;
  proof_file_name = none;
  proof_path = none;
  proof_mime = none;
  admin_actor_id = none;
  admin_actor_email = none;
  processed_at = some now;
  disputed_at = none;
}

-- The change of the balance: an increment or a decrement by the amount.
unfoldable pub balance_change : ApplyWalletInput → Direction → ℤ
balance_change input credit = cents input.amount_cents
balance_change input debit = pos 0 -ℤ cents input.amount_cents

-- What the process takes from outside: the generated key, the clock, and what other processes
-- commit before the transaction, before its row lock is granted, and before the read that follows
-- an aborted insertion.
pub record Env : Type 0 where
  pub new_id : ℕ
  pub now : ℕ
  pub before_tx : Db → Db
  pub before_lock : Db → Db
  pub after_abort : Db → Db

-- `applyInTx` from the row lock on. Every error comes before the first write that succeeds, so a
-- rollback has nothing to undo.
unfoldable pub locked_apply : Env → ℕ → ApplyWalletInput → Direction → Action ApplyResult
locked_apply env customer_id input direction = do
  customer ← or_raise (← gets (λ db. find_customer customer_id db.customers)) customer_not_found
  lift (guard_operation customer input direction)
  create_tx (applied_row env.new_id env.now customer_id input direction)
  balance ← increment customer_id (balance_change input direction)
  pure (record { balance_cents = balance; replayed = false })

unfoldable pub apply_in_tx : Env → ℕ → ApplyWalletInput → Direction → Action ApplyResult
apply_in_tx env customer_id input direction db =
    elim (find_by_key input.idempotency_key db.transactions) [
      | some dup ↦ replay_result dup customer_id input direction db
      | none ↦ locked_apply env customer_id input direction (env.before_lock db)
    ]

-- The `catch` of `apply`: a P2002 is read again and decided, any other error passes.
unfoldable pub on_unique_violation :
    Env → ℕ → ApplyWalletInput → Direction → Result ApplyResult × Db → Result ApplyResult × Db
on_unique_violation env customer_id input direction (err (unique_violation field), db) =
    let db' = env.after_abort db in
    elim (find_by_key input.idempotency_key db'.transactions) [
      | some existing ↦ replay_result existing customer_id input direction db'
      | none ↦ raise key_reused db'
    ]
on_unique_violation env customer_id input direction (r, db) = (r, db)

unfoldable pub apply : Env → ℕ → ApplyWalletInput → Direction → Action ApplyResult
apply env customer_id input direction db =
    elim (find_by_key input.idempotency_key db.transactions) [
      | some pre ↦ replay_result pre customer_id input direction db
      | none ↦
          on_unique_violation env customer_id input direction
            (apply_in_tx env customer_id input direction (env.before_tx db))
    ]

-- The checks that `credit`, `debit` and `applyWithClient` begin with.
unfoldable pub checked : ApplyWalletInput → Action ApplyResult → Action ApplyResult
checked input k = do
  lift (assert_amount input.amount_cents)
  lift (assert_operation_currency input.currency)
  k

unfoldable pub credit_wallet : Env → ℕ → ApplyWalletInput → Action ApplyResult
credit_wallet env customer_id input = checked input (apply env customer_id input credit)

unfoldable pub debit_wallet : Env → ℕ → ApplyWalletInput → Action ApplyResult
debit_wallet env customer_id input = checked input (apply env customer_id input debit)

unfoldable pub apply_with_client : Env → ℕ → ApplyWalletInput → Direction → Action ApplyResult
apply_with_client env customer_id input direction =
    checked input (apply_in_tx env customer_id input direction)
