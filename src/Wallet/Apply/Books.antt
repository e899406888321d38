-- ===== src/Wallet/Apply/Books.antt =====
-- apps/api/src/wallet/wallet.service.ts: `credit`, `debit` and `applyWithClient` keep the books.
use i_code_host_pro.Prelude.{
  ℕ, ◌≡◌, refl, sym, false, none, some, List, ◌∷◌, arith, subst, ◌==◌, Option-cases, inl, inr,
  if◌then◌else◌, any,
}
use i_code_host_pro.Prelude.Int.{ℤ, pos, ◌+ℤ◌, ◌≤ℤ◌, int_laws, Number, integer, not_integer}
use i_code_host_pro.Wallet.Types.{
  Customer, ApplyWalletInput, ApplyResult, Direction, credit, debit, debit_type, type_eq,
  unique_violation, Result, ok, err, Db, WalletTx, succeeded, Result-cases, Action,
}
use i_code_host_pro.Wallet.Db.{find_customer, find_by_key, same_reference}
use i_code_host_pro.Wallet.Ledger.{
  IsBook, net, add_balance-IsBalanced, add_balance-IsSolvent, signed, any-same_bank_ref-none,
}
use i_code_host_pro.Wallet.Apply.{
  Env, cents, effective_type, guard_operation, applied_row, balance_change, locked_apply,
  on_unique_violation, apply_in_tx, apply, assert_amount, is_debit, checked, credit_wallet,
  debit_wallet, apply_with_client, assert_operation_currency,
}
use i_code_host_pro.Wallet.Apply.Outcome.{
  after_write, locked_apply-IsWritten, locked_apply_refused, replay_result_reads,
}

-- The type that a caller asks for agrees with the direction: DEBIT exactly for a debit.
abbrev pub IsConsistent : ApplyWalletInput → Direction → Type 0
IsConsistent input direction =
    type_eq (effective_type input direction) debit_type ≡ is_debit direction

abbrev pub IsPositive : ApplyWalletInput → Type 0
IsPositive input = pos 1 ≤ℤ cents input.amount_cents

signed-effective_type :
    (input : ApplyWalletInput) (direction : Direction)
    → IsConsistent input direction
    → signed (effective_type input direction) succeeded (cents input.amount_cents)
      ≡ balance_change input direction
unfolding balance_change effective_type
signed-effective_type input credit consistent = ground arith
signed-effective_type input debit consistent = ground arith

-- The guard under the lock covers the change of the balance.
guard_covers :
    (c : Customer) (input : ApplyWalletInput) (direction : Direction)
    → guard_operation c input direction ≡ ok tt
    → IsPositive input
    → pos 0 ≤ℤ c.wallet_balance_cents
    → pos 0 ≤ℤ c.wallet_balance_cents +ℤ balance_change input direction
unfolding guard_operation balance_change
guard_covers c input credit g p s = omega int_laws
guard_covers c input debit g p s = grind int_laws

-- What other processes commit meanwhile keeps `P`.
pub record Keeps {ℓ} (P : Db → Type ℓ) (env : Env) : Type ℓ where
  pub before_tx : (db : Db) → P db → P (env.before_tx db)
  pub before_lock : (db : Db) → P db → P (env.before_lock db)
  pub after_abort : (db : Db) → P db → P (env.after_abort db)

module _ (env : Env) (customer_id : ℕ) (input : ApplyWalletInput) (direction : Direction)
    (consistent : IsConsistent input direction) where
  net-applied :
      (j : ℕ) (ts : List WalletTx)
      → net j (applied_row env.new_id env.now customer_id input direction ∷ ts)
        ≡ (if j == customer_id then net j ts +ℤ balance_change input direction else net j ts)
  unfolding applied_row
  net-applied j ts = grind (int_laws, signed-effective_type input direction consistent)

  module _ (opening : ℕ → ℤ) (positive : IsPositive input) where
    write-IsBook :
        (db : Db) (c : Customer)
        → IsBook opening db
        → find_customer customer_id db.customers ≡ some c
        → guard_operation c input direction ≡ ok tt
        → find_by_key input.idempotency_key db.transactions ≡ none
        → any (same_reference input.reference) db.transactions ≡ false
        → IsBook opening (after_write env customer_id input direction db)
    unfolding applied_row
    write-IsBook db c book found guarded fresh fresh_ref = record {
      balanced =
          add_balance-IsBalanced opening db (row ∷ db.transactions) customer_id
            (balance_change input direction) book.balanced (λ j. net-applied j db.transactions);
      solvent =
          add_balance-IsSolvent db (row ∷ db.transactions) customer_id
            (balance_change input direction) book.solvent
            (λ c' e.
              subst (λ k. pos 0 ≤ℤ k.wallet_balance_cents +ℤ balance_change input direction)
                (only c' e)
                (guard_covers c input direction guarded positive
                  (book.solvent customer_id c found)));
      unique_keys = (fresh, book.unique_keys);
      unique_refs = (fresh_ref, any-same_bank_ref-none db.transactions, book.unique_refs);
      positive = (positive, book.positive);
    }
      where
        row : WalletTx
        row = applied_row env.new_id env.now customer_id input direction

        only : (c' : Customer) → find_customer customer_id db.customers ≡ some c' → c ≡ c'
        only c' e = cc

    -- One run under the lock keeps the books, however it ends.
    locked_apply-IsBook :
        (db : Db) (r : Result ApplyResult) (db' : Db)
        → locked_apply env customer_id input direction db ≡ (r, db')
        → IsBook opening db
        → IsBook opening db'
    locked_apply-IsBook db (err e) db' h book =
        subst (IsBook opening)
          (sym (locked_apply_refused env customer_id input direction db e db' h)) book
    locked_apply-IsBook db (ok r) db' h book =
        let w = locked_apply-IsWritten env customer_id input direction db r db' h in
        subst (IsBook opening) (sym w.written)
          (write-IsBook db w.customer book w.found w.guarded w.fresh w.fresh_ref)

    apply_in_tx-IsBook :
        (db : Db)
        → Keeps (IsBook opening) env
        → IsBook opening db
        → IsBook opening (apply_in_tx env customer_id input direction db).1
    unfolding apply_in_tx
    apply_in_tx-IsBook db others book =
        elim (Option-cases (find_by_key input.idempotency_key db.transactions)) [
          | inl fresh ↦
              rw (fresh, apply_in_tx)
                (locked_apply-IsBook (env.before_lock db) _ _ refl (others.before_lock db book))
          | inr (dup, e) ↦
              rw (e, apply_in_tx) (rw (replay_result_reads dup customer_id input direction db) book)
        ]

    on_unique_violation-IsBook :
        (r : Result ApplyResult) (db : Db)
        → Keeps (IsBook opening) env
        → IsBook opening db
        → IsBook opening (on_unique_violation env customer_id input direction (r, db)).1
    unfolding on_unique_violation
    on_unique_violation-IsBook (err (unique_violation field)) db others book =
        let db' = env.after_abort db in
        elim (Option-cases (find_by_key input.idempotency_key db'.transactions)) [
          | inl gone ↦ rw (gone, on_unique_violation) (others.after_abort db book)
          | inr (row, e) ↦
              rw (e, on_unique_violation)
                (rw (replay_result_reads row customer_id input direction db')
                  (others.after_abort db book))
        ]
    on_unique_violation-IsBook r db others book = book

    apply-IsBook :
        (db : Db)
        → Keeps (IsBook opening) env
        → IsBook opening db
        → IsBook opening (apply env customer_id input direction db).1
    unfolding apply
    apply-IsBook db others book =
        elim (Option-cases (find_by_key input.idempotency_key db.transactions)) [
          | inl fresh ↦
              rw (fresh, apply)
                (on_unique_violation-IsBook _ _ others
                  (apply_in_tx-IsBook (env.before_tx db) others (others.before_tx db book)))
          | inr (row, e) ↦
              rw (e, apply) (rw (replay_result_reads row customer_id input direction db) book)
        ]

-- An amount that the guard lets through is positive.
assert_amount-positive : (n : Number) → assert_amount n ≡ ok tt → pos 1 ≤ℤ cents n
unfolding assert_amount
assert_amount-positive (integer z) h = ground arith
assert_amount-positive not_integer h = cc

checked-IsBook :
    (opening : ℕ → ℤ) (input : ApplyWalletInput) (k : Action ApplyResult) (db : Db)
    → (IsPositive input → IsBook opening (k db).1)
    → IsBook opening db
    → IsBook opening (checked input k db).1
unfolding checked
checked-IsBook opening input k db after book =
    elim (Result-cases (assert_amount input.amount_cents)) [
      | inl (e, refused) ↦ rw (refused, checked) book
      | inr (a, passed) ↦ elim (Result-cases (assert_operation_currency input.currency)) [
        | inl (e, refused) ↦ rw (passed, refused, checked) book
        | inr (c, accepted) ↦
            rw (passed, accepted, checked)
              (after (assert_amount-positive input.amount_cents passed))
      ]
    ]

module _ (opening : ℕ → ℤ) (env : Env) (customer_id : ℕ) (input : ApplyWalletInput) (db : Db)
    (others : Keeps (IsBook opening) env) (book : IsBook opening db) where
  -- However a credit ends, the books are kept: each balance is its opening value plus the net of its
  -- ledger and is not negative, no key or reference is listed twice, and every amount is positive;
  -- provided that the books hold before, that the type asked for is not DEBIT, and that what other
  -- processes commit meanwhile keeps the books.
  pub credit_wallet-IsBook :
      IsConsistent input credit → IsBook opening (credit_wallet env customer_id input db).1
  unfolding credit_wallet
  credit_wallet-IsBook consistent =
      checked-IsBook opening input (apply env customer_id input credit) db
        (λ positive.
          apply-IsBook env customer_id input credit consistent opening positive db others book)
        book

  -- However a debit ends, the books are kept: each balance is its opening value plus the net of its
  -- ledger and is not negative, no key or reference is listed twice, and every amount is positive;
  -- provided that the books hold before, that the type asked for is DEBIT or none, and that what
  -- other processes commit meanwhile keeps the books.
  pub debit_wallet-IsBook :
      IsConsistent input debit → IsBook opening (debit_wallet env customer_id input db).1
  unfolding debit_wallet
  debit_wallet-IsBook consistent =
      checked-IsBook opening input (apply env customer_id input debit) db
        (λ positive.
          apply-IsBook env customer_id input debit consistent opening positive db others book)
        book

  -- However a credit or a debit inside a caller's transaction ends, the books are kept, if they hold
  -- before, if the type asked for fits the direction, and if what other processes commit meanwhile
  -- keeps them.
  pub apply_with_client-IsBook :
      (direction : Direction)
      → IsConsistent input direction
      → IsBook opening (apply_with_client env customer_id input direction db).1
  unfolding apply_with_client
  apply_with_client-IsBook direction consistent =
      checked-IsBook opening input (apply_in_tx env customer_id input direction) db
        (λ positive.
          apply_in_tx-IsBook env customer_id input direction consistent opening positive db others
            book)
        book
