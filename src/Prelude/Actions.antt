-- ===== src/Prelude/Actions.antt =====
-- A service call that reads and writes a state and may be refused. What it wrote before a refusal
-- stands until a transaction takes it back.
use mathlib.Core.Path.{◌≡◌, refl}
use mathlib.Core.Logic.{◌⊎◌, inl, inr}
use native.Mathlib.Omega.{arith}

pub data Outcome (E : Type 0) (A : Type 0) : Type 0 where
  done : A → Outcome E A
  refused : E → Outcome E A

abbrev pub Action : Type 0 → Type 0 → Type 0 → Type 0
Action S E A = S → Outcome E A × S

infixl 5 ◌>>=◌ ◌>>◌
module _ {S E A : Type 0} where
  abbrev pub give : A → Action S E A
  give a s = (done a, s)

  abbrev pub refuse : E → Action S E A
  refuse e s = (refused e, s)

  -- A transaction: a refusal takes back what it wrote, and leaves what others committed meanwhile.
  unfoldable pub transaction : (S → S) → Action S E A → Action S E A
  transaction others m s =
      let (r, s') = m s in elim r [ done a ↦ (done a, s') | refused e ↦ (refused e, others s) ]

  abbrev pub ◌>>=◌ : {B : Type 0} → Action S E A → (A → Action S E B) → Action S E B
  ◌>>=◌ first next s =
      let (r, later) = first s in elim r [ refused e ↦ (refused e, later) | done a ↦ next a later ]

abbrev pub ◌>>◌ : {S E A B : Type 0} → Action S E A → Action S E B → Action S E B
first >> next = first >>= λ _. next

-- To split on an outcome and keep the equation.
pub Outcome-cases :
    {E A : Type 0} (r : Outcome E A) → ((e : E) × (r ≡ refused e)) ⊎ ((a : A) × (r ≡ done a))
Outcome-cases (refused e) = inl (e, refl)
Outcome-cases (done a) = inr (a, refl)

-- A property that both parts of a sequence keep holds of the state after it.
pub >>=_keeps {ℓ} :
    {S E A B : Type 0} (P : S → Type ℓ) (first : Action S E A) (next : A → Action S E B) (s : S)
    → P (first s).1
    → ((a : A) (later : S) → P later → P (next a later).1)
    → P ((first >>= next) s).1
>>=_keeps P first next s h keeps = elim (Outcome-cases (first s).0) [
  | inl (e, r) ↦ rw (r, ◌>>=◌) h
  | inr (a, r) ↦ rw (r, ◌>>=◌) (keeps a (first s).1 h)
]

-- A sequence that ends well ran both of its parts.
pub >>=_done :
    {S E A B : Type 0} (first : Action S E A) (next : A → Action S E B) (s s' : S) (b : B)
    → (first >>= next) s ≡ (done b, s')
    → (a : A) × ((first s).0 ≡ done a) × (next a (first s).1 ≡ (done b, s'))
>>=_done first next s s' b h = elim (Outcome-cases (first s).0) [
  | inl (e, r) ↦ absurd (ground arith)
  | inr (a, r) ↦ (a, r, ground arith)
]
