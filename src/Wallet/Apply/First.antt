-- ===== src/Wallet/Apply/First.antt =====
-- apps/api/src/wallet/wallet.service.ts: what the first execution of an operation did.
use i_code_host_pro.Prelude.{
  ℕ, ◌≡◌, refl, false, none, some, [], ◌∷◌, arith, if◌then◌else◌, ◌==◌, or_else,
}
use i_code_host_pro.Prelude.Int.{ℤ, ◌+ℤ◌, ◌-ℤ◌, ◌≤ℤ◌, int_laws, integer}
use i_code_host_pro.Prelude.Text.{trim, to_upper_case, text_eq_iff}
use i_code_host_pro.Wallet.Types.{
  Customer, ApplyWalletInput, ApplyResult, Direction, credit, debit, succeeded, TxType, credit_type,
  debit_type, ok, Db, WalletTx,
}
use i_code_host_pro.Wallet.Db.{find_customer, find_by_key}
use i_code_host_pro.Wallet.Ledger.{find-add_balance_at}
use i_code_host_pro.Wallet.Apply.{
  Env, applied_row, apply, guard_operation, effective_type, balance_change,
  assert_operation_currency, cents,
}
use i_code_host_pro.Wallet.Apply.Replay.{apply-IsWritten}

-- A credit adds the amount; a debit takes it, and the balance covered it.
abbrev pub IsMoved : Direction → (amount before after : ℤ) → Type 0
IsMoved credit amount before after = after ≡ before +ℤ amount
IsMoved debit amount before after = (amount ≤ℤ before) × (after ≡ before -ℤ amount)

-- The type of the ledger row where the caller names none.
abbrev pub default_type : Direction → TxType
default_type credit = credit_type
default_type debit = debit_type

-- The operation moved `amount` for the customer on the tables `seen`, which became `db'`.
pub record IsApplied (customer_id : ℕ) (input : ApplyWalletInput) (direction : Direction)
    (amount : ℤ) (seen : Db) (r : ApplyResult) (db' : Db) : Type 0 where
  pub customer : Customer
  pub row : WalletTx
  pub found : find_customer customer_id seen.customers ≡ some customer
  pub same_currency :
      to_upper_case (trim (or_else input.currency []))
      ≡ to_upper_case (trim customer.wallet_currency)
  pub moved : IsMoved direction amount customer.wallet_balance_cents r.balance_cents
  pub stored :
      (j : ℕ)
      → find_customer j db'.customers ≡ (
          if j == customer_id
          then some (record customer { wallet_balance_cents = r.balance_cents })
          else find_customer j seen.customers)
  pub first_of_key : find_by_key input.idempotency_key seen.transactions ≡ none
  pub ledger : db'.transactions ≡ row ∷ seen.transactions
  pub users : db'.users ≡ seen.users
  pub of_customer : row.customer_id ≡ customer_id
  pub of_amount : row.amount_cents ≡ amount
  pub of_type : row.type ≡ or_else input.type (default_type direction)
  pub is_done : row.status ≡ succeeded
  pub of_key : row.idempotency_key ≡ input.idempotency_key
  pub of_reference : row.reference ≡ input.reference
  pub of_order : row.order_id ≡ input.order_id
  pub of_invoice : row.invoice_id ≡ input.invoice_id

guard_operation-IsMoved :
    (c : Customer) (input : ApplyWalletInput) (direction : Direction) (amount after : ℤ)
    → input.amount_cents ≡ integer amount
    → guard_operation c input direction ≡ ok tt
    → after ≡ c.wallet_balance_cents +ℤ balance_change input direction
    → IsMoved direction amount c.wallet_balance_cents after
unfolding guard_operation balance_change
guard_operation-IsMoved c input credit amount after e g h = rw (h, e)
guard_operation-IsMoved c input debit amount after e g h =
    let before = c.wallet_balance_cents in
    let covered : cents input.amount_cents ≤ℤ before = ground arith in
    (rw e at covered, rw (h, e) (omega int_laws))

effective_type_lem :
    (input : ApplyWalletInput) (direction : Direction)
    → effective_type input direction ≡ or_else input.type (default_type direction)
unfolding effective_type
effective_type_lem input credit = refl
effective_type_lem input debit = refl

guard_operation-currency :
    (c : Customer) (input : ApplyWalletInput) (direction : Direction)
    → guard_operation c input direction ≡ ok tt
    → to_upper_case (trim (or_else input.currency [])) ≡ to_upper_case (trim c.wallet_currency)
unfolding guard_operation assert_operation_currency
guard_operation-currency c input direction g =
    let raw = trim (or_else input.currency []) in
    ground (arith, text_eq_iff (to_upper_case raw) (to_upper_case (trim c.wallet_currency)))

-- A first execution of an operation on an integer amount found its customer under the lock with a
-- wallet in the operation's currency and no row of its key; a credit added the amount to the
-- balance, and a debit took it from a balance that covered it; the balance stored is the one
-- reported, every other customer and the users are as they were, and the ledger got one row, which
-- is settled and has the operation's customer, amount, type, key, reference, order and invoice.
pub apply_first :
    (env : Env) (customer_id : ℕ) (input : ApplyWalletInput) (direction : Direction) (db : Db)
    (r : ApplyResult) (db' : Db) (amount : ℤ)
    → apply env customer_id input direction db ≡ (ok r, db')
    → r.replayed ≡ false
    → input.amount_cents ≡ integer amount
    → IsApplied customer_id input direction amount (env.before_lock (env.before_tx db)) r db'
unfolding applied_row
apply_first env customer_id input direction db r db' amount h first e =
    let w = apply-IsWritten env customer_id input direction db r db' h first in
    let seen = env.before_lock (env.before_tx db) in
    rw w.written (record {
      customer = w.customer;
      row = applied_row env.new_id env.now customer_id input direction;
      found = w.found;
      same_currency = guard_operation-currency w.customer input direction w.guarded;
      moved =
          guard_operation-IsMoved w.customer input direction amount r.balance_cents e w.guarded
            w.balance;
      stored = λ j.
          find-add_balance_at customer_id j (balance_change input direction) r.balance_cents
            w.customer seen.customers w.found w.balance;
      first_of_key = w.fresh;
      ledger = refl;
      users = refl;
      of_customer = refl;
      of_amount = rw e;
      of_type = effective_type_lem input direction;
      is_done = refl;
      of_key = refl;
      of_reference = refl;
      of_order = refl;
      of_invoice = refl;
    })
