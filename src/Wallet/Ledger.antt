-- ===== src/Wallet/Ledger.antt =====
-- The promise of apps/api/src/wallet/wallet.service.ts: a balance is what the ledger of wallet
-- transactions says, it is never negative, and a key or a bank reference is used once.
use i_code_host_pro.Prelude.{
  ℕ, ◌≡◌, ◌≢◌, refl, false, none, some, List, [], ◌∷◌, if◌then◌else◌, ◌==◌, All, arith, Bool-cases,
  inl, inr, map, subst, ==_iff, any,
}
use i_code_host_pro.Prelude.Int.{ℤ, pos, ◌+ℤ◌, ◌-ℤ◌, ◌≤ℤ◌, int_laws}
use i_code_host_pro.Wallet.Types.{debit_type, TxType, TxStatus, succeeded, Customer, WalletTx, Db}
use i_code_host_pro.Wallet.Db.{
  find_customer, find_by_key, add_balance, same_bank_ref, same_reference,
}

-- What a transaction of a type and a status adds to the balance.
abbrev pub signed : TxType → TxStatus → ℤ → ℤ
signed debit_type succeeded a = pos 0 -ℤ a
signed _ succeeded a = a
signed _ _ a = pos 0

abbrev pub net : ℕ → List WalletTx → ℤ
net id [] = pos 0
net id (t ∷ ts) =
    (if t.customer_id == id then signed t.type t.status t.amount_cents else pos 0) +ℤ net id ts

-- Every balance is its opening value plus the net of its ledger.
abbrev pub IsBalanced : (ℕ → ℤ) → Db → Type 0
IsBalanced opening db =
    (id : ℕ) (c : Customer)
    → find_customer id db.customers ≡ some c
    → c.wallet_balance_cents ≡ opening id +ℤ net id db.transactions

-- No balance is below zero.
abbrev pub IsSolvent : Db → Type 0
IsSolvent db =
    (id : ℕ) (c : Customer)
    → find_customer id db.customers ≡ some c
    → pos 0 ≤ℤ c.wallet_balance_cents

-- No idempotency key is listed twice.
abbrev pub HasUniqueKeys : List WalletTx → Type 0
HasUniqueKeys [] = Unit
HasUniqueKeys (t ∷ ts) = (find_by_key t.idempotency_key ts ≡ none) × HasUniqueKeys ts

pub find-add_balance_self :
    (id : ℕ) (delta : ℤ) (c : Customer) (cs : List Customer)
    → find_customer id cs ≡ some c
    → find_customer id (map (add_balance id delta) cs)
      ≡ some (record c { wallet_balance_cents = c.wallet_balance_cents +ℤ delta })
find-add_balance_self id delta c [] h = ground arith
find-add_balance_self id delta c (x ∷ xs) h = ground (arith, find-add_balance_self id delta c xs)

pub find-add_balance_ne :
    (id j : ℕ) (delta : ℤ) (cs : List Customer)
    → j ≢ id
    → find_customer j (map (add_balance id delta) cs) ≡ find_customer j cs
find-add_balance_ne id j delta [] h = refl
find-add_balance_ne id j delta (x ∷ xs) h = ground (arith, find-add_balance_ne id j delta xs)

pub find-add_balance_at :
    (id j : ℕ) (delta after : ℤ) (c : Customer) (cs : List Customer)
    → find_customer id cs ≡ some c
    → after ≡ c.wallet_balance_cents +ℤ delta
    → find_customer j (map (add_balance id delta) cs)
      ≡ (if j == id then some (record c { wallet_balance_cents = after }) else find_customer j cs)
find-add_balance_at id j delta after c cs found e = elim (Bool-cases (j == id)) [
  | inl same ↦ rw (same, e, (==_iff j id).0 same) (find-add_balance_self id delta c cs found)
  | inr other ↦ rw other (find-add_balance_ne id j delta cs (ground arith))
]

-- A customer found after the update was there before it, with the balance that it had.
pub find-add_balance :
    (id j : ℕ) (delta : ℤ) (cs : List Customer) (c' : Customer)
    → find_customer j (map (add_balance id delta) cs) ≡ some c'
    → (c : Customer) × (find_customer j cs ≡ some c)
      × (c'.wallet_balance_cents
          ≡ (if j == id then c.wallet_balance_cents +ℤ delta else c.wallet_balance_cents))
find-add_balance id j delta [] c' h = absurd (cc)
find-add_balance id j delta (x ∷ xs) c' h = elim (Bool-cases (x.id == j)) [
  | inl hit ↦ (x, ground arith, ground arith)
  | inr miss ↦ let (c, e, b) = find-add_balance id j delta xs c' (ground arith) in (c, rw miss e, b)
]

-- Adding to one balance what the ledger gained for it keeps the books balanced.
pub add_balance-IsBalanced :
    (opening : ℕ → ℤ) (db : Db) (ts : List WalletTx) (id : ℕ) (delta : ℤ)
    → IsBalanced opening db
    → ((j : ℕ)
        → net j ts ≡ (if j == id then net j db.transactions +ℤ delta else net j db.transactions))
    → IsBalanced opening
        (record db { customers = map (add_balance id delta) db.customers; transactions = ts })
add_balance-IsBalanced opening db ts id delta h moved j c' e =
    let (c, found, balance) = find-add_balance id j delta db.customers c' e in
    elim (Bool-cases (j == id)) [
      | inl same ↦ rw (balance, moved j, same, h j c found) (omega int_laws)
      | inr differs ↦ rw (balance, moved j, differs, h j c found)
    ]

-- An addition that leaves the one balance above zero leaves all of them so.
pub add_balance-IsSolvent :
    (db : Db) (ts : List WalletTx) (id : ℕ) (delta : ℤ)
    → IsSolvent db
    → ((c : Customer)
        → find_customer id db.customers ≡ some c
        → pos 0 ≤ℤ c.wallet_balance_cents +ℤ delta)
    → IsSolvent
        (record db { customers = map (add_balance id delta) db.customers; transactions = ts })
add_balance-IsSolvent db ts id delta h enough j c' e =
    let (c, found, balance) = find-add_balance id j delta db.customers c' e in
    elim (Bool-cases (j == id)) [
      | inl same ↦
          rw (balance, same)
            (enough c
              (subst (λ k. find_customer k db.customers ≡ some c) ((==_iff j id).0 same) found))
      | inr differs ↦ rw (balance, differs) (h j c found)
    ]

-- No reference and no bank reference is listed twice.
abbrev pub HasUniqueRefs : List WalletTx → Type 0
HasUniqueRefs [] = Unit
HasUniqueRefs (t ∷ ts) =
    (any (same_reference t.reference) ts ≡ false)
    × (any (same_bank_ref t.bank_ref) ts ≡ false)
    × HasUniqueRefs ts

-- What holds of the wallet's tables between two operations.
pub record IsBook (opening : ℕ → ℤ) (db : Db) : Type 0 where
  pub balanced : IsBalanced opening db
  pub solvent : IsSolvent db
  pub unique_keys : HasUniqueKeys db.transactions
  pub unique_refs : HasUniqueRefs db.transactions
  pub positive : All (λ t. pos 1 ≤ℤ t.amount_cents) db.transactions

pub any-same_bank_ref-none : (ts : List WalletTx) → any (same_bank_ref none) ts ≡ false
any-same_bank_ref-none [] = refl
any-same_bank_ref-none (t ∷ ts) = any-same_bank_ref-none ts
