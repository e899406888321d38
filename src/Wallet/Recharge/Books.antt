-- ===== src/Wallet/Recharge/Books.antt =====
-- apps/api/src/wallet/wallet.service.ts: a recharge keeps the books from its deposit to its
-- validation or its rejection, and it is credited once.
use i_code_host_pro.Prelude.{
  ℕ, ◌≡◌, refl, sym, subst, false, Option, some, [], arith, any, Option-cases, inl, inr, or_else,
  map, ◌⊎◌, ap, ◌∙◌,
}
use i_code_host_pro.Prelude.Int.{ℤ, ◌+ℤ◌, int_laws, pos_part, neg_part}
use i_code_host_pro.Prelude.Text.{Text, trim}
use i_code_host_pro.Wallet.Types.{
  Customer, WalletTx, credit_type, pending, Error, Result, ok, err, Db,
}
use i_code_host_pro.Wallet.Db.{
  find_customer, find_tx, increment, update_tx, without_tx, add_balance, same_bank_ref,
}
use i_code_host_pro.Wallet.Ledger.{IsBook, add_balance-IsBalanced, add_balance-IsSolvent}
use i_code_host_pro.Wallet.Recharge.{Admin, Validated, settle, settle_pending, validate_recharge}
use i_code_host_pro.Wallet.Recharge.Rows.{
  find_tx-positive, net-settle, settle-HasUniqueKeys, settle-HasUniqueRefs, settle-positive,
}

-- What other processes commit meanwhile keeps the customer, the type and the amount of the row
-- `id`, which no operation of the service changes.
pub record KeepsRow (id : ℕ) (others : Db → Db) (db : Db) : Type 0 where
  pub same_row :
      (row t : WalletTx)
      → find_tx id db.transactions ≡ some row
      → find_tx id (others db).transactions ≡ some t
      → (t.customer_id ≡ row.customer_id)
        × (t.type ≡ row.type)
        × (t.amount_cents ≡ row.amount_cents)

module _ (others : Db → Db) (now id : ℕ) (admin : Admin) (bank_ref : Option Text) where
  -- The ends of a validation that succeeds: the row that was found, the row and the customer under
  -- the lock, and what was written.
  pub record IsValidated (db : Db) (v : Validated) (db' : Db) : Type 0 where
    pub row : WalletTx
    pub current : WalletTx
    pub customer : Customer
    pub row_found : find_tx id db.transactions ≡ some row
    pub is_credit : row.type ≡ credit_type
    pub current_found : find_tx id (others db).transactions ≡ some current
    pub was_pending : current.status ≡ pending
    pub customer_found : find_customer row.customer_id (others db).customers ≡ some customer
    pub unused_ref :
        any
          (same_bank_ref (some (trim (or_else bank_ref []))))
          (without_tx id (others db).transactions)
        ≡ false
    pub written : db' ≡ record (others db) {
      customers = map (add_balance row.customer_id row.amount_cents) (others db).customers;
      transactions =
          update_tx id (settle now admin (trim (or_else bank_ref []))) (others db).transactions;
    }
    pub reported : v ≡ record {
      balance_cents = customer.wallet_balance_cents +ℤ row.amount_cents;
      bank_ref = trim (or_else bank_ref []);
      amount_cents = row.amount_cents;
      currency = row.currency;
    }

  pub validate_recharge-IsValidated :
      (db : Db) (v : Validated) (db' : Db)
      → validate_recharge others now id admin bank_ref db ≡ (ok v, db')
      → IsValidated db v db'
  unfolding validate_recharge settle_pending increment
  validate_recharge-IsValidated db v db' h = elim (Option-cases (find_tx id db.transactions)) [
    | inl missing ↦ absurd (ground arith)
    | inr (row, found) ↦ elim (Option-cases (find_tx id (others db).transactions)) [
      | inl gone ↦ absurd (ground arith)
      | inr (current, there) ↦
          elim (Option-cases (find_customer row.customer_id (others db).customers)) [
            | inl unknown ↦ absurd (ground arith)
            | inr (c, known) ↦ record {
              row = row;
              current = current;
              customer = c;
              row_found = found;
              is_credit = ground arith;
              current_found = there;
              was_pending = ground arith;
              customer_found = known;
              unused_ref = ground arith;
              written = ground arith;
              reported = ground arith;
            }
          ]
    ]
  ]

  -- A validation that is refused writes nothing.
  validate_recharge_refused :
      (db : Db) (e : Error) (db' : Db)
      → validate_recharge others now id admin bank_ref db ≡ (err e, db')
      → (db' ≡ db) ⊎ (db' ≡ others db)
  unfolding validate_recharge settle_pending increment
  validate_recharge_refused db e db' h = ground arith

  -- A validation, accepted or refused, keeps the books, if what other processes commit while it
  -- waits for the row lock does and leaves the row's customer, type and amount alone.
  pub validate_recharge-IsBook :
      (opening : ℕ → ℤ) (db : Db)
      → IsBook opening db
      → IsBook opening (others db)
      → KeepsRow id others db
      → IsBook opening (validate_recharge others now id admin bank_ref db).1
  validate_recharge-IsBook opening db book books kept =
      let (r, db') = validate_recharge others now id admin bank_ref db in go r db' refl
    where
      after_settle : (v : Validated) (db' : Db) → IsValidated db v db' → IsBook opening db'
      after_settle v db' w =
          let seen = others db in
          let (owner, kind, amount) = kept.same_row w.row w.current w.row_found w.current_found in
          let ref = trim (or_else bank_ref []) in
          let ts = update_tx id (settle now admin ref) seen.transactions in
          let moved = λ (j : ℕ).
            net-settle id now admin ref j w.current seen.transactions w.current_found w.was_pending
              (kind ∙ w.is_credit) in
          let grown =
            find_tx-positive id w.current seen.transactions w.current_found books.positive in
          subst (IsBook opening) (sym w.written) (record {
            balanced =
                add_balance-IsBalanced opening seen ts w.row.customer_id w.row.amount_cents
                  books.balanced (λ j. rw (moved j, owner, amount));
            solvent =
                add_balance-IsSolvent seen ts w.row.customer_id w.row.amount_cents books.solvent
                  (λ c e. omega (
                    int_laws,
                    books.solvent w.row.customer_id c e,
                    ap pos_part amount,
                    ap neg_part amount,
                  ));
            unique_keys = settle-HasUniqueKeys id now admin ref seen.transactions books.unique_keys;
            unique_refs =
                settle-HasUniqueRefs id now admin ref seen.transactions w.unused_ref
                  books.unique_refs;
            positive = settle-positive id now admin ref seen.transactions books.positive;
          })

      go :
          (r : Result Validated) (db' : Db)
          → validate_recharge others now id admin bank_ref db ≡ (r, db')
          → IsBook opening db'
      go (ok v) db' h = after_settle v db' (validate_recharge-IsValidated db v db' h)
      go (err e) db' h = elim (validate_recharge_refused db e db' h) [
        | inl same ↦ subst (IsBook opening) (sym same) book
        | inr same ↦ subst (IsBook opening) (sym same) books
      ]
