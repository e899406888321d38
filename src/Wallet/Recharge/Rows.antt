-- ===== src/Wallet/Recharge/Rows.antt =====
-- apps/api/src/wallet/wallet.service.ts: what the settlement and the cancellation of one pending
-- row change in the ledger.
use i_code_host_pro.Prelude.{
  ℕ, ◌≡◌, refl, false, Option, none, some, List, [], ◌∷◌, arith, ◌==◌, any, All, if◌then◌else◌,
  Bool-cases, inl, inr,
}
use i_code_host_pro.Prelude.Int.{pos, ◌+ℤ◌, ◌≤ℤ◌, int_laws}
use i_code_host_pro.Prelude.Text.{Text, text_eq_iff, text_eq_refl}
use i_code_host_pro.Wallet.Types.{WalletTx, credit_type, pending}
use i_code_host_pro.Wallet.Db.{
  find_by_key, find_tx, update_tx, without_tx, same_reference, same_bank_ref,
}
use i_code_host_pro.Wallet.Ledger.{net, HasUniqueKeys, HasUniqueRefs, any-same_bank_ref-none}
use i_code_host_pro.Wallet.Recharge.{Admin, settle, cancel}

pub find_tx-positive :
    (id : ℕ) (t : WalletTx) (ts : List WalletTx)
    → find_tx id ts ≡ some t
    → All (λ x. pos 1 ≤ℤ x.amount_cents) ts
    → pos 1 ≤ℤ t.amount_cents
find_tx-positive id t [] h p = absurd (cc)
find_tx-positive id t (x ∷ xs) h p = ground (arith, find_tx-positive id t xs)

module _ (id now : ℕ) (admin : Admin) (ref : Text) where
  pub net-settle :
      (j : ℕ) (t : WalletTx) (ts : List WalletTx)
      → find_tx id ts ≡ some t
      → t.status ≡ pending
      → t.type ≡ credit_type
      → net j (update_tx id (settle now admin ref) ts)
        ≡ (if j == t.customer_id then net j ts +ℤ t.amount_cents else net j ts)
  unfolding settle
  net-settle j t [] h p c = absurd (cc)
  net-settle j t (x ∷ xs) h p c = elim (Bool-cases (x.id == id)) [
    | inl hit ↦ grind int_laws
    | inr miss ↦ grind (int_laws, net-settle j t xs)
  ]

  find_by_key-settle :
      (k : ℕ) (ts : List WalletTx)
      → find_by_key k ts ≡ none
      → find_by_key k (update_tx id (settle now admin ref) ts) ≡ none
  unfolding settle
  find_by_key-settle k [] h = refl
  find_by_key-settle k (x ∷ xs) h = ground (arith, find_by_key-settle k xs)

  pub settle-HasUniqueKeys :
      (ts : List WalletTx)
      → HasUniqueKeys ts
      → HasUniqueKeys (update_tx id (settle now admin ref) ts)
  unfolding settle
  settle-HasUniqueKeys [] h = tt
  settle-HasUniqueKeys (x ∷ xs) h =
      ground (arith, settle-HasUniqueKeys xs, find_by_key-settle x.idempotency_key xs)

  reference-settle :
      (r : Option ℕ) (ts : List WalletTx)
      → any (same_reference r) ts ≡ false
      → any (same_reference r) (update_tx id (settle now admin ref) ts) ≡ false
  unfolding settle
  reference-settle r [] h = refl
  reference-settle none (x ∷ xs) h = ground (arith, reference-settle none xs)
  reference-settle (some a) (x ∷ xs) h = ground (arith, reference-settle (some a) xs)

  bank_ref-settle :
      (b : Option Text) (ts : List WalletTx)
      → (b ≡ some ref → ⊥)
      → any (same_bank_ref b) ts ≡ false
      → any (same_bank_ref b) (update_tx id (settle now admin ref) ts) ≡ false
  unfolding settle
  bank_ref-settle none ts n h = any-same_bank_ref-none (update_tx id (settle now admin ref) ts)
  bank_ref-settle (some r) [] n h = refl
  bank_ref-settle (some r) (y ∷ ys) n h =
      ground (arith, text_eq_iff ref r, bank_ref-settle (some r) ys n)

  differs : (x : WalletTx) → same_bank_ref (some ref) x ≡ false → x.bank_ref ≡ some ref → ⊥
  differs x h e = ground (arith, text_eq_refl ref)

  pub settle-HasUniqueRefs :
      (ts : List WalletTx)
      → any (same_bank_ref (some ref)) (without_tx id ts) ≡ false
      → HasUniqueRefs ts
      → HasUniqueRefs (update_tx id (settle now admin ref) ts)
  unfolding settle
  settle-HasUniqueRefs [] n h = tt
  settle-HasUniqueRefs (x ∷ xs) n h = ground (
    arith,
    settle-HasUniqueRefs xs,
    bank_ref-settle x.bank_ref xs,
    differs x,
    reference-settle x.reference xs,
  )

  pub settle-positive :
      (ts : List WalletTx)
      → All (λ x. pos 1 ≤ℤ x.amount_cents) ts
      → All (λ x. pos 1 ≤ℤ x.amount_cents) (update_tx id (settle now admin ref) ts)
  unfolding settle
  settle-positive [] h = tt
  settle-positive (x ∷ xs) h = ground (arith, settle-positive xs)

-- A pending row that is cancelled counts for nothing before and after.
module _ (id now : ℕ) (admin : Admin) (note : Text) where
  pub net-cancel :
      (j : ℕ) (t : WalletTx) (ts : List WalletTx)
      → find_tx id ts ≡ some t
      → t.status ≡ pending
      → net j (update_tx id (cancel now admin note) ts) ≡ net j ts
  unfolding cancel
  net-cancel j t [] h p = absurd (cc)
  net-cancel j t (x ∷ xs) h p = elim (Bool-cases (x.id == id)) [
    | inl hit ↦ grind int_laws
    | inr miss ↦ grind (int_laws, net-cancel j t xs)
  ]

  find_by_key-cancel :
      (k : ℕ) (ts : List WalletTx)
      → find_by_key k ts ≡ none
      → find_by_key k (update_tx id (cancel now admin note) ts) ≡ none
  unfolding cancel
  find_by_key-cancel k [] h = refl
  find_by_key-cancel k (x ∷ xs) h = ground (arith, find_by_key-cancel k xs)

  pub cancel-HasUniqueKeys :
      (ts : List WalletTx)
      → HasUniqueKeys ts
      → HasUniqueKeys (update_tx id (cancel now admin note) ts)
  unfolding cancel
  cancel-HasUniqueKeys [] h = tt
  cancel-HasUniqueKeys (x ∷ xs) h =
      ground (arith, cancel-HasUniqueKeys xs, find_by_key-cancel x.idempotency_key xs)

  same-cancel :
      (r : Option ℕ) (b : Option Text) (ts : List WalletTx)
      → (any (same_reference r) (update_tx id (cancel now admin note) ts)
          ≡ any (same_reference r) ts)
        × (any (same_bank_ref b) (update_tx id (cancel now admin note) ts)
            ≡ any (same_bank_ref b) ts)
  unfolding cancel
  same-cancel r b [] = (refl, refl)
  same-cancel none none (x ∷ xs) = ground (arith, same-cancel none none xs)
  same-cancel none (some b) (x ∷ xs) = ground (arith, same-cancel none (some b) xs)
  same-cancel (some r) none (x ∷ xs) = ground (arith, same-cancel (some r) none xs)
  same-cancel (some r) (some b) (x ∷ xs) = ground (arith, same-cancel (some r) (some b) xs)

  pub cancel-HasUniqueRefs :
      (ts : List WalletTx)
      → HasUniqueRefs ts
      → HasUniqueRefs (update_tx id (cancel now admin note) ts)
  unfolding cancel
  cancel-HasUniqueRefs [] h = tt
  cancel-HasUniqueRefs (x ∷ xs) h =
      ground (arith, cancel-HasUniqueRefs xs, same-cancel x.reference x.bank_ref xs)

  pub cancel-positive :
      (ts : List WalletTx)
      → All (λ x. pos 1 ≤ℤ x.amount_cents) ts
      → All (λ x. pos 1 ≤ℤ x.amount_cents) (update_tx id (cancel now admin note) ts)
  unfolding cancel
  cancel-positive [] h = tt
  cancel-positive (x ∷ xs) h = ground (arith, cancel-positive xs)
