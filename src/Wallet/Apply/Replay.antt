-- ===== src/Wallet/Apply/Replay.antt =====
-- apps/api/src/wallet/wallet.service.ts: idempotency of an operation, and lost races.
use i_code_host_pro.Prelude.{
  ℕ, ◌≡◌, refl, true, false, none, some, arith, Option-cases, inl, inr, ◌⊎◌, ==_refl, opt_eq_refl,
  or_else, subst,
}
use i_code_host_pro.Prelude.Int.{eq_ℤ_refl}
use i_code_host_pro.Prelude.Text.{text_eq_refl}
use i_code_host_pro.Wallet.Types.{
  Customer, ApplyWalletInput, ApplyResult, Direction, type_eq, credit_type, debit_type, refund_type,
  adjustment_type, TxType, key_reused, unique_violation, Result, ok, err, Db, WalletTx,
}
use i_code_host_pro.Wallet.Db.{find_customer, find_by_key, create_tx}
use i_code_host_pro.Wallet.Ledger.{find-add_balance_self}
use i_code_host_pro.Wallet.Apply.{
  Env, cents, effective_type, applied_row, balance_change, locked_apply, replay_result, usd,
  on_unique_violation, apply_in_tx, apply, operation_identity_matches,
}
use i_code_host_pro.Wallet.Apply.Outcome.{
  after_write, IsWritten, locked_apply-IsWritten, replay_result_reads,
}

type_eq_refl : (t : TxType) → type_eq t t ≡ true
type_eq_refl credit_type = refl
type_eq_refl debit_type = refl
type_eq_refl refund_type = refl
type_eq_refl adjustment_type = refl

-- The row that an operation inserts is recognised as that operation.
applied_row-matches :
    (id now customer_id : ℕ) (input : ApplyWalletInput) (direction : Direction)
    → operation_identity_matches
        (applied_row id now customer_id input direction)
        customer_id
        input
        direction
      ≡ true
unfolding operation_identity_matches applied_row
applied_row-matches id now customer_id input direction = rw (
  ==_refl customer_id,
  type_eq_refl (effective_type input direction),
  eq_ℤ_refl (cents input.amount_cents),
  text_eq_refl (or_else input.currency usd),
  opt_eq_refl input.order_id,
  opt_eq_refl input.invoice_id,
  opt_eq_refl input.reference,
)

module _ (env : Env) (customer_id : ℕ) (input : ApplyWalletInput) (direction : Direction) (db : Db)
    {row : WalletTx} (known : find_by_key input.idempotency_key db.transactions ≡ some row) where
  -- A key that stands for the same operation is answered with the present balance, and nothing is
  -- written, whatever other processes do.
  pub apply_replays :
      {c : Customer}
      → operation_identity_matches row customer_id input direction ≡ true
      → find_customer customer_id db.customers ≡ some c
      → apply env customer_id input direction db
        ≡ (ok (record { balance_cents = c.wallet_balance_cents; replayed = true }), db)
  unfolding apply replay_result
  apply_replays same found = ground arith

  -- If the key stands on a row of another operation, one that differs in customer, type, amount,
  -- currency, status, order, invoice or reference, the operation is refused and nothing is written.
  pub apply_key_reused :
      operation_identity_matches row customer_id input direction ≡ false
      → apply env customer_id input direction db ≡ (err key_reused, db)
  unfolding apply replay_result
  apply_key_reused other = ground arith

replay_result_replayed :
    (row : WalletTx) (customer_id : ℕ) (input : ApplyWalletInput) (direction : Direction) (db : Db)
    (r : ApplyResult) (db' : Db)
    → replay_result row customer_id input direction db ≡ (ok r, db')
    → r.replayed ≡ true
unfolding replay_result
replay_result_replayed row customer_id input direction db r db' h =
    elim (Option-cases (find_customer customer_id db.customers)) [
      | inl missing ↦ absurd (ground arith)
      | inr (c, found) ↦ ground arith
    ]

module _ (env : Env) (customer_id : ℕ) (input : ApplyWalletInput) (direction : Direction) where
  on_unique_violation_first :
      (r₀ : Result ApplyResult) (db₀ : Db) (r : ApplyResult) (db' : Db)
      → on_unique_violation env customer_id input direction (r₀, db₀) ≡ (ok r, db')
      → r.replayed ≡ false
      → ◌≡◌ {A = Result ApplyResult × Db} (r₀, db₀) (ok r, db')
  unfolding on_unique_violation
  on_unique_violation_first (err (unique_violation field)) db₀ r db' h first =
      let db₁ = env.after_abort db₀ in
      elim (Option-cases (find_by_key input.idempotency_key db₁.transactions)) [
        | inl gone ↦ absurd (ground arith)
        | inr (row, e) ↦ absurd (
            cc (
              replay_result_replayed row customer_id input direction db₁ r db'
                (rw (e, on_unique_violation) at h)))
      ]
  on_unique_violation_first r₀ db₀ r db' h first = h

  -- An operation that reports a first execution found its customer under the lock, passed every
  -- guard, and met no row with its key or its reference; it wrote exactly its row and its change of
  -- the balance, and reports the balance after it.
  pub apply-IsWritten :
      (db : Db) (r : ApplyResult) (db' : Db)
      → apply env customer_id input direction db ≡ (ok r, db')
      → r.replayed ≡ false
      → IsWritten env customer_id input direction (env.before_lock (env.before_tx db)) r db'
  unfolding apply apply_in_tx
  apply-IsWritten db r db' h first =
      elim (Option-cases (find_by_key input.idempotency_key db.transactions)) [
        | inl fresh ↦ locked_apply-IsWritten env customer_id input direction _ r db' (
            in_tx_first (env.before_tx db)
              (on_unique_violation_first _ _ r db' (rw (fresh, apply) at h) first))
        | inr (row, e) ↦ absurd (
            cc (
              replay_result_replayed row customer_id input direction db r db' (rw (e, apply) at h)))
      ]
    where
      in_tx_first :
          (db₀ : Db)
          → apply_in_tx env customer_id input direction db₀ ≡ (ok r, db')
          → locked_apply env customer_id input direction (env.before_lock db₀) ≡ (ok r, db')
      in_tx_first db₀ k = elim (Option-cases (find_by_key input.idempotency_key db₀.transactions)) [
        | inl fresh ↦ (rw (fresh, apply_in_tx) at k)
        | inr (row, e) ↦ absurd (
            cc (
              replay_result_replayed row customer_id input direction db₀ r db'
                (rw (e, apply_in_tx) at k)))
      ]

-- An operation that reported a first execution, run again with the same input on the tables that it
-- left, reports the same balance as a replay and writes nothing, whatever the second process's clock
-- and generated key and whatever other processes would commit during it.
pub apply_twice :
    (env later : Env) (customer_id : ℕ) (input : ApplyWalletInput) (direction : Direction) (db : Db)
    (r : ApplyResult) (db' : Db)
    → apply env customer_id input direction db ≡ (ok r, db')
    → r.replayed ≡ false
    → apply later customer_id input direction db' ≡ (ok (record r { replayed = true }), db')
unfolding applied_row
apply_twice env later customer_id input direction db r db' h first =
    let w = apply-IsWritten env customer_id input direction db r db' h first in
    let base = env.before_lock (env.before_tx db) in
    rw (w.written, w.balance)
      (apply_replays later customer_id input direction
        (after_write env customer_id input direction base) (known base)
        (applied_row-matches env.new_id env.now customer_id input direction)
        (find-add_balance_self customer_id (balance_change input direction) w.customer
          base.customers w.found))
  where
    known :
        (base : Db)
        → find_by_key input.idempotency_key
            (after_write env customer_id input direction base).transactions
          ≡ some (applied_row env.new_id env.now customer_id input direction)
    known base = ground (arith, ==_refl input.idempotency_key)

module _ (env : Env) (customer_id : ℕ) (input : ApplyWalletInput) (direction : Direction) where
  locked_apply_taken :
      (db : Db) (row : WalletTx)
      → find_by_key input.idempotency_key db.transactions ≡ some row
      → (locked_apply env customer_id input direction db).1 ≡ db
  unfolding locked_apply create_tx applied_row
  locked_apply_taken db row there = ground arith

  on_unique_violation_reads :
      (r : Result ApplyResult) (db : Db)
      → let db' = (on_unique_violation env customer_id input direction (r, db)).1 in
        (db' ≡ db) ⊎ (db' ≡ env.after_abort db)
  unfolding on_unique_violation
  on_unique_violation_reads (err (unique_violation field)) db =
      let db₁ = env.after_abort db in
      elim (Option-cases (find_by_key input.idempotency_key db₁.transactions)) [
        | inl gone ↦ inr (rw (gone, on_unique_violation))
        | inr (row, e) ↦
            inr (
              rw (e, on_unique_violation) (replay_result_reads row customer_id input direction db₁))
      ]
  on_unique_violation_reads r db = inl refl

  -- If another process commits the same key after this one's reads of the key and before its row
  -- lock is granted, this one writes nothing: it leaves the tables as it last read them.
  apply_lost_race :
      (db : Db) (row : WalletTx)
      → find_by_key input.idempotency_key db.transactions ≡ none
      → find_by_key input.idempotency_key (env.before_tx db).transactions ≡ none
      → find_by_key input.idempotency_key (env.before_lock (env.before_tx db)).transactions
        ≡ some row
      → let db' = (apply env customer_id input direction db).1 in
        let seen = env.before_lock (env.before_tx db) in (db' ≡ seen) ⊎ (db' ≡ env.after_abort seen)
  unfolding apply apply_in_tx
  apply_lost_race db row absent absent' there =
      let seen = env.before_lock (env.before_tx db) in
      let tried = locked_apply env customer_id input direction seen in
      rw (absent, apply, absent', apply_in_tx)
        (subst
          (λ d.
            let db' = (on_unique_violation env customer_id input direction tried).1 in
            (db' ≡ d) ⊎ (db' ≡ env.after_abort d))
          (locked_apply_taken seen row there) (on_unique_violation_reads tried.0 tried.1))
