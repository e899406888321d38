-- ===== src/Wallet/Recharge/Deposits.antt =====
-- apps/api/src/wallet/wallet.service.ts: a deposit and a rejection keep the books.
use i_code_host_pro.Prelude.{
  ℕ, zero, suc, ◌+◌, ◌≡◌, refl, sym, subst, false, Option, none, ◌∷◌, arith, any, Option-cases,
  Bool-cases, inl, inr, ◌⊎◌,
}
use i_code_host_pro.Prelude.Int.{ℤ, pos, ◌≤ℤ◌, int_laws, ltb_ℤ}
use i_code_host_pro.Prelude.Text.{Text}
use i_code_host_pro.Wallet.Types.{
  WalletTx, Error, unique_violation, Result, ok, err, Db, Result-cases, UniqueField,
  idempotency_key_field, reference_field, bank_ref_field, foreign_key_violation, key_reused,
}
use i_code_host_pro.Wallet.Db.{find_customer, find_by_key, create_tx, same_reference, same_bank_ref}
use i_code_host_pro.Wallet.Ledger.{IsBook, any-same_bank_ref-none}
use i_code_host_pro.Wallet.Apply.{cents, assert_amount}
use i_code_host_pro.Wallet.Recharge.{
  Admin, reject_recharge, rejection_note, create_recharge, create_attempts, recharge_row,
  CreateRechargeInput, Generated, recharge_min_cents, recharge_max_cents, after_insert,
}
use i_code_host_pro.Wallet.Recharge.Rows.{
  net-cancel, cancel-HasUniqueKeys, cancel-HasUniqueRefs, cancel-positive,
}
use i_code_host_pro.Wallet.Recharge.Once.{IsRejected, reject_recharge-IsRejected}

reject_recharge_refused :
    (others : Db → Db) (now id : ℕ) (admin : Admin) (reason : Option Text) (db : Db) (e : Error)
    (db' : Db)
    → reject_recharge others now id admin reason db ≡ (err e, db')
    → (db' ≡ db) ⊎ (db' ≡ others db)
unfolding reject_recharge
reject_recharge_refused others now id admin reason db e db' h = ground arith

-- A rejection, accepted or refused, keeps the books if what other processes commit meanwhile does.
reject_recharge-IsBook :
    (others : Db → Db) (now id : ℕ) (admin : Admin) (reason : Option Text) (opening : ℕ → ℤ)
    (db : Db)
    → IsBook opening db
    → IsBook opening (others db)
    → IsBook opening (reject_recharge others now id admin reason db).1
reject_recharge-IsBook others now id admin reason opening db book books =
    let (r, db') = reject_recharge others now id admin reason db in go r db' refl
  where
    after_cancel : (db' : Db) → IsRejected others now id admin reason db db' → IsBook opening db'
    after_cancel db' w =
        let note = rejection_note w.row.note reason in
        let ts = (others db).transactions in
        subst (IsBook opening) (sym w.written) (record {
          balanced = λ j c e.
              rw (net-cancel id now admin note j w.current ts w.current_found w.was_pending)
                (books.balanced j c e);
          solvent = books.solvent;
          unique_keys = cancel-HasUniqueKeys id now admin note ts books.unique_keys;
          unique_refs = cancel-HasUniqueRefs id now admin note ts books.unique_refs;
          positive = cancel-positive id now admin note ts books.positive;
        })

    go :
        (r : Result (Unit {0})) (db' : Db)
        → reject_recharge others now id admin reason db ≡ (r, db')
        → IsBook opening db'
    go (ok _) db' h =
        after_cancel db' (reject_recharge-IsRejected others now id admin reason db db' h)
    go (err e) db' h = elim (reject_recharge_refused others now id admin reason db e db' h) [
      | inl same ↦ subst (IsBook opening) (sym same) book
      | inr same ↦ subst (IsBook opening) (sym same) books
    ]

module _ (row : WalletTx) (db : Db) where
  -- What an insertion has checked when it succeeds.
  record IsInserted : Type 0 where
    inserted : create_tx row db ≡ (ok tt, record db { transactions = row ∷ db.transactions })
    fresh : find_by_key row.idempotency_key db.transactions ≡ none
    fresh_ref : any (same_reference row.reference) db.transactions ≡ false

  create_tx-cases : ((e : Error) × (create_tx row db ≡ (err e, db))) ⊎ IsInserted
  unfolding create_tx
  create_tx-cases = elim (Option-cases (find_by_key row.idempotency_key db.transactions)) [
    | inr (t, e) ↦ inl (unique_violation idempotency_key_field, rw (e, create_tx))
    | inl fresh ↦ elim (Bool-cases (any (same_reference row.reference) db.transactions)) [
      | inl taken ↦ inl (unique_violation reference_field, rw (fresh, taken, create_tx))
      | inr free ↦ elim (Bool-cases (any (same_bank_ref row.bank_ref) db.transactions)) [
        | inl used ↦ inl (unique_violation bank_ref_field, rw (fresh, free, used, create_tx))
        | inr unused ↦ elim (Option-cases (find_customer row.customer_id db.customers)) [
          | inl unknown ↦ inl (foreign_key_violation, rw (fresh, free, unused, unknown, create_tx))
          | inr (c, known) ↦ inr (record {
            inserted = rw (fresh, free, unused, known, create_tx);
            fresh = fresh;
            fresh_ref = free;
          })
        ]
      ]
    ]
  ]

module _ (opening : ℕ → ℤ) (customer_id : ℕ) (input : CreateRechargeInput) where
  insert-IsBook :
      (g : Generated) (db : Db)
      → pos 1 ≤ℤ cents input.amount_cents
      → IsInserted (recharge_row customer_id input g) db
      → IsBook opening db
      → IsBook opening
          (record db { transactions = recharge_row customer_id input g ∷ db.transactions })
  unfolding recharge_row
  insert-IsBook g db positive w book = record {
    balanced = λ j c e. grind (int_laws, book.balanced j c e);
    solvent = book.solvent;
    unique_keys = (w.fresh, book.unique_keys);
    unique_refs = (w.fresh_ref, any-same_bank_ref-none db.transactions, book.unique_refs);
    positive = (positive, book.positive);
  }

  after_insert-IsBook :
      (row : WalletTx) (again : UniqueField → Db → Result WalletTx × Db) (e : Error) (db : Db)
      → ((f : UniqueField) → IsBook opening (again f db).1)
      → IsBook opening db
      → IsBook opening (after_insert row again (err e, db)).1
  unfolding after_insert
  after_insert-IsBook row again (unique_violation f) db rest book = rest f
  after_insert-IsBook row again e db rest book = book

  create_attempts-IsBook :
      (left attempt : ℕ) (last : Error) (generate : ℕ → Generated) (db : Db)
      → pos 1 ≤ℤ cents input.amount_cents
      → IsBook opening db
      → IsBook opening (create_attempts left attempt last customer_id input generate db).1
  unfolding create_attempts
  create_attempts-IsBook zero attempt last generate db positive book = book
  create_attempts-IsBook (suc left) attempt last generate db positive book =
      let row = recharge_row customer_id input (generate attempt) in
      elim (create_tx-cases row db) [
        | inl (e, refused) ↦ rw refused (
            after_insert-IsBook row _ e db
              (λ f.
                create_attempts-IsBook left (attempt + 1) (unique_violation f) generate db positive
                  book)
              book)
        | inr w ↦
            rw w.inserted
              (unfold after_insert in insert-IsBook (generate attempt) db positive w book)
      ]

  -- A deposit request, accepted or refused, keeps the books: a pending row counts for nothing.
  create_recharge-IsBook :
      (generate : ℕ → Generated) (db : Db)
      → IsBook opening db
      → IsBook opening (create_recharge customer_id input generate db).1
  unfolding create_recharge
  create_recharge-IsBook generate db book = elim (Result-cases (assert_amount input.amount_cents)) [
    | inl (e, refused) ↦ rw refused book
    | inr (a, passed) ↦ elim (Bool-cases (ltb_ℤ (cents input.amount_cents) recharge_min_cents)) [
      | inl small ↦ rw (passed, small) book
      | inr enough ↦ elim (Bool-cases (ltb_ℤ recharge_max_cents (cents input.amount_cents))) [
        | inl large ↦ rw (passed, enough, large) book
        | inr within ↦
            rw (passed, enough, within)
              (create_attempts-IsBook 3 0 key_reused generate db (ground arith) book)
      ]
    ]
  ]
