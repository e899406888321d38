-- ===== src/Wallet/Types.antt =====
-- apps/api/src/wallet/wallet.service.ts and apps/api/prisma/schema.prisma: the rows, the inputs
-- and the errors of the wallet.
use i_code_host_pro.Prelude.{
  ℕ, ◌≡◌, Bool, true, false, Option, none, some, List, refl, inl, inr, ◌⊎◌,
}
use i_code_host_pro.Prelude.Int.{ℤ, Number}
use i_code_host_pro.Prelude.Text.{Text}

pub data TxType : Type 0 where
  credit_type debit_type refund_type adjustment_type : TxType

pub data TxStatus : Type 0 where
  pending succeeded failed canceled : TxStatus

pub data Direction : Type 0 where
  credit debit : Direction

abbrev pub type_eq : TxType → TxType → Bool
type_eq credit_type credit_type = true
type_eq debit_type debit_type = true
type_eq refund_type refund_type = true
type_eq adjustment_type adjustment_type = true
type_eq _ _ = false

abbrev pub is_pending : TxStatus → Bool
is_pending pending = true
is_pending _ = false

abbrev pub is_succeeded : TxStatus → Bool
is_succeeded succeeded = true
is_succeeded _ = false

-- A row of `Customer`.
pub record Customer : Type 0 where
  pub id : ℕ
  pub email : Text
  pub name : Text
  pub user_id : Option ℕ
  pub wallet_balance_cents : ℤ
  pub wallet_currency : Text

-- A row of `User`.
pub record User : Type 0 where
  pub id : ℕ
  pub email : Text
  pub name : Option Text
  pub is_active : Bool

-- A row of `WalletTransaction`.
pub record WalletTx : Type 0 where
  pub id : ℕ
  pub customer_id : ℕ
  pub type : TxType
  pub amount_cents : ℤ
  pub currency : Text
  pub status : TxStatus
  pub idempotency_key : ℕ
  pub reference : Option ℕ
  pub bank_ref : Option Text
  pub order_id : Option ℕ
  pub invoice_id : Option ℕ
  pub note : Option Text
  pub payment_method_id : Option ℕ
  pub method_name : Option Text
  pub proof_file_name : Option Text
  pub proof_path : Option Text
  pub proof_mime : Option Text
  pub admin_actor_id : Option ℕ
  pub admin_actor_email : Option Text
  pub processed_at : Option ℕ
  pub disputed_at : Option ℕ

-- `ApplyWalletInput`; `undefined` and `null` are both `none`.
pub record ApplyWalletInput : Type 0 where
  pub amount_cents : Number
  pub idempotency_key : ℕ
  pub currency : Option Text
  pub type : Option TxType
  pub note : Option Text
  pub reference : Option ℕ
  pub order_id : Option ℕ
  pub invoice_id : Option ℕ
  pub payment_method_id : Option ℕ
  pub method_name : Option Text

-- `ApplyResult`
pub record ApplyResult : Type 0 where
  pub balance_cents : ℤ
  pub replayed : Bool

-- The unique column that a rejected write names (Prisma P2002).
pub data UniqueField : Type 0 where
  idempotency_key_field reference_field bank_ref_field email_field user_id_field : UniqueField

pub data Error : Type 0 where
  invalid_amount currency_missing currency_invalid amount_too_small amount_too_large : Error
  bank_ref_invalid : Error
  customer_not_found recharge_not_found account_disabled : Error
  wallet_currency_unknown currency_mismatch insufficient_balance key_reused : Error
  unexpected_type already_processed bank_ref_reused linked_to_other_account : Error
  unique_violation : UniqueField → Error
  foreign_key_violation record_not_found : Error

pub data Result (A : Type 0) : Type 0 where
  ok : A → Result A
  err : Error → Result A

-- The tables that the service reads and writes.
pub record Db : Type 0 where
  pub users : List User
  pub customers : List Customer
  pub transactions : List WalletTx

abbrev pub Action : Type 0 → Type 0
Action A = Db → Result A × Db

module _ {A : Type 0} where
  abbrev pub pure : A → Action A
  pure a db = (ok a, db)

  abbrev pub raise : Error → Action A
  raise e db = (err e, db)

  abbrev pub gets : (Db → A) → Action A
  gets f db = (ok (f db), db)

  abbrev pub or_raise : Option A → Error → Action A
  or_raise none e = raise e
  or_raise (some a) _ = pure a

  -- A check that reads no table.
  abbrev pub lift : Result A → Action A
  lift r db = (r, db)

infixl 5 ◌>>=◌ ◌>>◌
abbrev pub ◌>>=◌ : {A B : Type 0} → Action A → (A → Action B) → Action B
◌>>=◌ m f db = let (r, db') = m db in elim r [ ok a ↦ f a db' | err e ↦ raise e db' ]

abbrev pub ◌>>◌ : {A B : Type 0} → Action A → Action B → Action B
m >> k = m >>= λ _. k

abbrev pub raise_if : Bool → Error → Result (Unit {0})
raise_if true e = err e
raise_if false e = ok tt

abbrev pub modify : (Db → Db) → Action (Unit {0})
modify f db = (ok tt, f db)

-- To split on a result and keep the equation.
pub Result-cases :
    {A : Type 0} (r : Result A) → ((e : Error) × (r ≡ err e)) ⊎ ((a : A) × (r ≡ ok a))
Result-cases (err e) = inl (e, refl)
Result-cases (ok a) = inr (a, refl)
