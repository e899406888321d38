-- ===== src/Wallet/Recharge/Once.antt =====
-- apps/api/src/wallet/wallet.service.ts: a recharge is credited once, by the amount of its row, and
-- a rejected one never.
use i_code_host_pro.Prelude.{
  ℕ, ◌≡◌, refl, ◌==◌, false, Option, some, List, [], ◌∷◌, arith, any, Option-cases, Bool-cases, inl,
  inr, or_else, ◌||◌, ltb, length, ◌∙◌, map, if◌then◌else◌,
}
use i_code_host_pro.Prelude.Int.{pos, ◌+ℤ◌, ◌≤ℤ◌}
use i_code_host_pro.Prelude.Text.{Text, trim}
use i_code_host_pro.Wallet.Types.{
  Customer, WalletTx, credit_type, pending, succeeded, is_pending, ok, err, Db, already_processed,
}
use i_code_host_pro.Wallet.Db.{
  find_customer, find_tx, increment, update_tx, without_tx, same_bank_ref, add_balance,
}
use i_code_host_pro.Wallet.Ledger.{find-add_balance_self, find-add_balance_at}
use i_code_host_pro.Wallet.Recharge.{
  Admin, Validated, settle, settle_pending, validate_recharge, cancel, reject_recharge,
  rejection_note,
}
use i_code_host_pro.Wallet.Recharge.Books.{KeepsRow, validate_recharge-IsValidated}

-- The reference has 3 to 64 characters once trimmed.
abbrev pub IsBankRef : Option Text → Type 0
IsBankRef bank_ref = let n = length (trim (or_else bank_ref [])) in (ltb n 3 || ltb 64 n) ≡ false

find_tx-update :
    (id : ℕ) (f : WalletTx → WalletTx) (t : WalletTx) (ts : List WalletTx)
    → ((y : WalletTx) → (f y).id ≡ y.id)
    → find_tx id ts ≡ some t
    → find_tx id (update_tx id f ts) ≡ some (f t)
find_tx-update id f t [] k h = absurd (cc)
find_tx-update id f t (x ∷ xs) k h = elim (Bool-cases (x.id == id)) [
  | inl hit ↦ ground (arith, k x)
  | inr miss ↦ ground (arith, find_tx-update id f t xs k)
]

find_tx-update_at :
    (id j : ℕ) (f : WalletTx → WalletTx) (t : WalletTx) (ts : List WalletTx)
    → ((y : WalletTx) → (f y).id ≡ y.id)
    → find_tx id ts ≡ some t
    → find_tx j (update_tx id f ts) ≡ (if j == id then some (f t) else find_tx j ts)
find_tx-update_at id j f t [] k h = absurd (cc)
find_tx-update_at id j f t (x ∷ xs) k h = elim (Bool-cases (x.id == id)) [
  | inl hit ↦ ground (arith, k x)
  | inr miss ↦ ground (arith, find_tx-update_at id j f t xs k)
]

module _ (others : Db → Db) (now id : ℕ) (admin : Admin) (bank_ref : Option Text) (db : Db)
    (row current : WalletTx) (c : Customer) (len : IsBankRef bank_ref)
    (found : find_tx id db.transactions ≡ some row) (credit : row.type ≡ credit_type)
    (known : find_customer row.customer_id (others db).customers ≡ some c)
    (there : find_tx id (others db).transactions ≡ some current) (waits : current.status ≡ pending)
    (unused : any
        (same_bank_ref (some (trim (or_else bank_ref []))))
        (without_tx id (others db).transactions)
      ≡ false)
    (fits : c.wallet_balance_cents +ℤ row.amount_cents ≤ℤ pos 2147483647) where
  validate_recharge_lem : validate_recharge others now id admin bank_ref db ≡ (
    ok (record {
      balance_cents = c.wallet_balance_cents +ℤ row.amount_cents;
      bank_ref = trim (or_else bank_ref []);
      amount_cents = row.amount_cents;
      currency = row.currency;
    }),
    record (others db) {
      customers = map (add_balance row.customer_id row.amount_cents) (others db).customers;
      transactions =
          update_tx id (settle now admin (trim (or_else bank_ref []))) (others db).transactions;
    },
  )
  unfolding validate_recharge settle_pending increment
  validate_recharge_lem = ground arith

  -- A credit row of a known customer that is pending under the lock is validated with any bank
  -- reference of 3 to 64 characters that no other row has, if the column has room for the balance
  -- plus the amount. The result is the balance of the
  -- customer plus the amount of the row, and so is the balance stored. The row is stored as settled,
  -- with the instant, the administrator and the reference, and otherwise as it was under the lock.
  -- Every other customer, every other row and the users are as they were under the lock. The
  -- currency of the row need not be that of the wallet.
  pub validate_recharge_credits :
      let (r, db') = validate_recharge others now id admin bank_ref db in
      let after = c.wallet_balance_cents +ℤ row.amount_cents in
      let ref = trim (or_else bank_ref []) in
      (r
        ≡ ok (record {
          balance_cents = after;
          bank_ref = ref;
          amount_cents = row.amount_cents;
          currency = row.currency;
        }))
      × ((j : ℕ)
          → find_customer j db'.customers ≡ (
              if j == row.customer_id
              then some (record c { wallet_balance_cents = after })
              else find_customer j (others db).customers))
      × ((j : ℕ)
          → find_tx j db'.transactions ≡ (
              if j == id
              then some (record current {
                status = succeeded;
                processed_at = some now;
                admin_actor_id = some admin.id;
                admin_actor_email = some admin.email;
                bank_ref = some ref;
              })
              else find_tx j (others db).transactions))
      × (db'.users ≡ (others db).users)
  unfolding settle
  validate_recharge_credits = rw validate_recharge_lem (
    refl,
    λ j.
        find-add_balance_at row.customer_id j row.amount_cents _ c (others db).customers known refl,
    λ j.
        find_tx-update_at id j (settle now admin (trim (or_else bank_ref []))) current
          (others db).transactions (λ y. refl) there,
    refl,
  )

-- A credit row that is no longer pending is refused, and nothing is written.
pub validate_recharge_processed :
    (now id : ℕ) (admin : Admin) (bank_ref : Option Text) (db : Db) (row : WalletTx) (c : Customer)
    → IsBankRef bank_ref
    → find_tx id db.transactions ≡ some row
    → row.type ≡ credit_type
    → is_pending row.status ≡ false
    → find_customer row.customer_id db.customers ≡ some c
    → validate_recharge (λ d. d) now id admin bank_ref db ≡ (err already_processed, db)
unfolding validate_recharge settle_pending
validate_recharge_processed now id admin bank_ref db row c len found credit p known = ground arith

-- A validated recharge cannot be validated again, with any reference of the right length and by
-- any administrator: on the tables that the first left, the second call is refused and writes
-- nothing, if what other processes commit during the first leaves the row's customer, type and
-- amount alone.
pub validate_recharge_once :
    (others : Db → Db) (now later id : ℕ) (admin other : Admin) (bank_ref second : Option Text)
    (db : Db) (v : Validated) (db' : Db)
    → validate_recharge others now id admin bank_ref db ≡ (ok v, db')
    → KeepsRow id others db
    → IsBankRef second
    → validate_recharge (λ d. d) later id other second db' ≡ (err already_processed, db')
unfolding settle
validate_recharge_once others now later id admin other bank_ref second db v db' h kept len =
    let w = validate_recharge-IsValidated others now id admin bank_ref db v db' h in
    let (owner, kind, amount) = kept.same_row w.row w.current w.row_found w.current_found in
    let ref = trim (or_else bank_ref []) in
    let settled = settle now admin ref w.current in
    rw w.written (
      validate_recharge_processed later id other second _ settled
        (record w.customer {
          wallet_balance_cents = w.customer.wallet_balance_cents +ℤ w.row.amount_cents;
        })
        len
        (find_tx-update id (settle now admin ref) w.current (others db).transactions (λ y. refl)
          w.current_found)
        (kind ∙ w.is_credit) refl
        (rw owner (
          find-add_balance_self w.row.customer_id w.row.amount_cents w.customer
            (others db).customers w.customer_found)))

-- The row that a rejection cancels, and what it writes.
pub record IsRejected (others : Db → Db) (now id : ℕ) (admin : Admin) (reason : Option Text)
    (db db' : Db) : Type 0 where
  pub row : WalletTx
  pub current : WalletTx
  pub row_found : find_tx id db.transactions ≡ some row
  pub current_found : find_tx id (others db).transactions ≡ some current
  pub was_pending : current.status ≡ pending
  pub written : db' ≡ record (others db) {
    transactions =
        update_tx id (cancel now admin (rejection_note row.note reason)) (others db).transactions;
  }

pub reject_recharge-IsRejected :
    (others : Db → Db) (now id : ℕ) (admin : Admin) (reason : Option Text) (db db' : Db)
    → reject_recharge others now id admin reason db ≡ (ok tt, db')
    → IsRejected others now id admin reason db db'
unfolding reject_recharge
reject_recharge-IsRejected others now id admin reason db db' h =
    elim (Option-cases (find_tx id db.transactions)) [
      | inl missing ↦ absurd (ground arith)
      | inr (row, found) ↦ elim (Option-cases (find_tx id (others db).transactions)) [
        | inl gone ↦ absurd (ground arith)
        | inr (t, there) ↦ record {
          row = row;
          current = t;
          row_found = found;
          current_found = there;
          was_pending = ground arith;
          written = ground arith;
        }
      ]
    ]

-- A rejection that succeeds leaves the customers as other processes left them, and the rejected
-- recharge, a credit row of a known customer, can no longer be validated on the tables that it left.
pub reject_recharge_final :
    (others : Db → Db) (now later id : ℕ) (admin other : Admin) (reason bank_ref : Option Text)
    (db db' : Db) (row : WalletTx) (c : Customer)
    → reject_recharge others now id admin reason db ≡ (ok tt, db')
    → find_tx id (others db).transactions ≡ some row
    → row.type ≡ credit_type
    → find_customer row.customer_id (others db).customers ≡ some c
    → IsBankRef bank_ref
    → (db'.customers ≡ (others db).customers)
      × (validate_recharge (λ d. d) later id other bank_ref db' ≡ (err already_processed, db'))
unfolding cancel
reject_recharge_final others now later id admin other reason bank_ref db db' row c h there credit
      known len =
    let w = reject_recharge-IsRejected others now id admin reason db db' h in
    let note = rejection_note w.row.note reason in
    rw w.written (
      refl,
      validate_recharge_processed later id other bank_ref _ (cancel now admin note row) c len
          (find_tx-update id (cancel now admin note) row (others db).transactions (λ y. refl) there)
          credit refl known,
    )
