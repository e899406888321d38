-- ===== src/Wallet/Apply/Outcome.antt =====
-- apps/api/src/wallet/wallet.service.ts: how one application of an operation can end.
use i_code_host_pro.Prelude.{
  ℕ, ◌≡◌, false, none, some, ◌∷◌, map, arith, Option-cases, inl, inr, any,
}
use i_code_host_pro.Prelude.Int.{◌+ℤ◌}
use i_code_host_pro.Wallet.Types.{
  Customer, ApplyWalletInput, ApplyResult, Direction, Error, ok, err, Db, WalletTx,
}
use i_code_host_pro.Wallet.Db.{
  find_customer, find_by_key, create_tx, increment, add_balance, same_reference,
}
use i_code_host_pro.Wallet.Apply.{
  Env, guard_operation, applied_row, balance_change, locked_apply, replay_result,
}

-- A replay only reads.
pub replay_result_reads :
    (row : WalletTx) (customer_id : ℕ) (input : ApplyWalletInput) (direction : Direction) (db : Db)
    → (replay_result row customer_id input direction db).1 ≡ db
unfolding replay_result
replay_result_reads row customer_id input direction db = ground arith

module _ (env : Env) (customer_id : ℕ) (input : ApplyWalletInput) (direction : Direction) where
  -- The row and the increment that an operation writes.
  abbrev pub after_write : Db → Db
  after_write db = record db {
    customers = map (add_balance customer_id (balance_change input direction)) db.customers;
    transactions = applied_row env.new_id env.now customer_id input direction ∷ db.transactions;
  }

  -- The operation was written on `db`: it passed every guard under the lock.
  pub record IsWritten (db : Db) (r : ApplyResult) (db' : Db) : Type 0 where
    pub customer : Customer
    pub found : find_customer customer_id db.customers ≡ some customer
    pub guarded : guard_operation customer input direction ≡ ok tt
    pub fresh : find_by_key input.idempotency_key db.transactions ≡ none
    pub fresh_ref : any (same_reference input.reference) db.transactions ≡ false
    pub written : db' ≡ after_write db
    pub balance : r.balance_cents ≡ customer.wallet_balance_cents +ℤ balance_change input direction
    pub first : r.replayed ≡ false

  pub locked_apply-IsWritten :
      (db : Db) (r : ApplyResult) (db' : Db)
      → locked_apply env customer_id input direction db ≡ (ok r, db')
      → IsWritten db r db'
  unfolding locked_apply create_tx increment applied_row
  locked_apply-IsWritten db r db' h = elim (Option-cases (find_customer customer_id db.customers)) [
    | inl missing ↦ absurd (ground arith)
    | inr (c, found) ↦ record {
      customer = c;
      found = found;
      guarded = ground arith;
      fresh = ground arith;
      fresh_ref = ground arith;
      written = ground arith;
      balance = ground arith;
      first = ground arith;
    }
  ]

  pub locked_apply_refused :
      (db : Db) (e : Error) (db' : Db)
      → locked_apply env customer_id input direction db ≡ (err e, db')
      → db' ≡ db
  unfolding locked_apply create_tx increment
  locked_apply_refused db e db' h = ground arith
