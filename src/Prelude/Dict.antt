-- ===== src/Prelude/Dict.antt =====
-- A JavaScript `Map` with keys that are only compared, as an association list in insertion order.
use Prim.Native.Nat.{ℕ}
use mathlib.Core.Path.{◌≡◌, refl}
use mathlib.Core.Option.{Option, none, some}
use mathlib.Core.List.{List, [], ◌∷◌}
use native.Mathlib.Omega.{arith}
use i_code_host_pro.Prelude.Tests.{◌==◌, if◌then◌else◌}

pub record Entry {ℓ} (V : Type ℓ) : Type ℓ where
  pub key : ℕ
  pub value : V

abbrev pub Dict {ℓ} : Type ℓ → Type ℓ
Dict V = List (Entry V)

module _ {ℓ} {V : Type ℓ} where
  -- `m.get(k)`
  unfoldable pub lookup : ℕ → Dict V → Option V
  lookup key [] = none
  lookup key (e ∷ rest) =
      let later = lookup key rest in if e.key == key then some e.value else later

  -- `m.set(k, v)`: a key that is there keeps its place.
  unfoldable pub insert : ℕ → V → Dict V → Dict V
  insert key value [] = record { key = key; value = value } ∷ []
  insert key value (e ∷ rest) =
      let later = insert key value rest in
      if e.key == key then record e { value = value } ∷ rest else e ∷ later

  -- `m.delete(k)`
  unfoldable pub erase : ℕ → Dict V → Dict V
  erase key [] = []
  erase key (e ∷ rest) = let later = erase key rest in if e.key == key then later else e ∷ later

  pub lookup-insert :
      (set_key key : ℕ) (value : V) (m : Dict V)
      → lookup key (insert set_key value m) ≡ (if set_key == key then some value else lookup key m)
  unfolding lookup insert
  lookup-insert set_key key value [] = refl
  lookup-insert set_key key value (e ∷ rest) = ground (arith, lookup-insert set_key key value rest)

  pub lookup-erase :
      (gone key : ℕ) (m : Dict V)
      → lookup key (erase gone m) ≡ (if gone == key then none else lookup key m)
  unfolding lookup erase
  lookup-erase gone key [] = ground arith
  lookup-erase gone key (e ∷ rest) = ground (arith, lookup-erase gone key rest)
