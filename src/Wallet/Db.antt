-- ===== src/Wallet/Db.antt =====
-- apps/api/prisma/schema.prisma (Customer, WalletTransaction): the queries that wallet.service.ts
-- makes of its tables, with the unique columns and the foreign key that PostgreSQL enforces.
use i_code_host_pro.Prelude.{
  ℕ, Bool, false, Option, none, some, List, [], ◌∷◌, map, find, any, if◌then◌else◌, ◌==◌, is_some,
}
use i_code_host_pro.Prelude.Int.{ℤ, ◌+ℤ◌}
use i_code_host_pro.Prelude.Text.{Text, text_eq}
use i_code_host_pro.Wallet.Types.{
  Customer, WalletTx, Action, raise, ok, unique_violation, record_not_found, foreign_key_violation,
  idempotency_key_field, reference_field, bank_ref_field,
}

abbrev pub find_customer : ℕ → List Customer → Option Customer
find_customer id = find (λ c. c.id == id)

abbrev pub find_by_key : ℕ → List WalletTx → Option WalletTx
find_by_key key = find (λ t. t.idempotency_key == key)

abbrev pub find_tx : ℕ → List WalletTx → Option WalletTx
find_tx id = find (λ t. t.id == id)

-- A unique column that is null collides with nothing.
abbrev pub same_reference : Option ℕ → WalletTx → Bool
same_reference none t = false
same_reference (some r) t = elim t.reference [ none ↦ false | some s ↦ s == r ]

abbrev pub same_bank_ref : Option Text → WalletTx → Bool
same_bank_ref none t = false
same_bank_ref (some r) t = elim t.bank_ref [ none ↦ false | some s ↦ text_eq s r ]

-- `walletTransaction.create`
unfoldable pub create_tx : WalletTx → Action (Unit {0})
create_tx row db =
    if is_some (find_by_key row.idempotency_key db.transactions)
    then raise (unique_violation idempotency_key_field) db
    else if any (same_reference row.reference) db.transactions
    then raise (unique_violation reference_field) db
    else if any (same_bank_ref row.bank_ref) db.transactions
    then raise (unique_violation bank_ref_field) db
    else if is_some (find_customer row.customer_id db.customers)
    then (ok tt, record db { transactions = row ∷ db.transactions })
    else raise foreign_key_violation db

abbrev pub add_balance : ℕ → ℤ → Customer → Customer
add_balance id delta c =
    if c.id == id then record c { wallet_balance_cents = c.wallet_balance_cents +ℤ delta } else c

-- `customer.update` with an increment of the balance, and the balance that it returns.
unfoldable pub increment : ℕ → ℤ → Action ℤ
increment id delta db = elim (find_customer id db.customers) [
  | none ↦ raise record_not_found db
  | some c ↦ (
    ok (c.wallet_balance_cents +ℤ delta),
    record db { customers = map (add_balance id delta) db.customers },
  )
]

-- The row of an id is one row, since the id is the primary key: an update by id changes the row
-- that a query by id finds.
abbrev pub update_tx : ℕ → (WalletTx → WalletTx) → List WalletTx → List WalletTx
update_tx id f [] = []
update_tx id f (t ∷ ts) = if t.id == id then f t ∷ ts else t ∷ update_tx id f ts

-- All rows but the one of an id.
abbrev pub without_tx : ℕ → List WalletTx → List WalletTx
without_tx id [] = []
without_tx id (t ∷ ts) = if t.id == id then ts else t ∷ without_tx id ts
