-- ===== src/Reconcile/Validation.antt =====
-- apps/api/src/store/reconcile-settings.ts: `validateReconcileSettings`, on whatever values the
-- settings have when it runs.
pub mod Laws
use i_code_host_pro.Prelude.{
  ℕ, ◌≡◌, Bool, true, false, not, ◌&&◌, ◌||◌, List, [], ◌∷◌, ◌++◌, any, if◌then◌else◌,
}
use i_code_host_pro.Prelude.Int.{ℤ, pos, ltb_ℤ, eq_ℤ}
use i_code_host_pro.Reconcile.Settings.{
  Key, backoff_initial, max_backoff, numeric_keys, min_of, max_of,
}

-- A JavaScript value. A finite number is its floor and the bits after the binary point; values of
-- another type are told apart by a number.
pub data Value : Type 0 where
  finite : ℤ → List Bool → Value
  nan infinity neg_infinity : Value
  no_number : ℕ → Value

abbrev pub whole : ℕ → Value
whole n = finite (pos n) []

-- `typeof value === 'number'`
abbrev pub is_number : Value → Bool
is_number (no_number i) = false
is_number _ = true

-- `Number.isInteger`
abbrev pub is_integer : Value → Bool
is_integer (finite z bits) = not (any (λ b. b) bits)
is_integer _ = false

abbrev pub less_bits : List Bool → List Bool → Bool
less_bits [] ds = any (λ b. b) ds
less_bits (b ∷ bs) [] = false
less_bits (false ∷ bs) (true ∷ ds) = true
less_bits (true ∷ bs) (false ∷ ds) = false
less_bits (_ ∷ bs) (_ ∷ ds) = less_bits bs ds

-- `a < b`; `loose` is the comparison where a value is no number.
abbrev pub less : (Value → Value → Bool) → Value → Value → Bool
less loose (no_number i) b = loose (no_number i) b
less loose a (no_number i) = loose a (no_number i)
less loose (finite a bs) (finite c ds) = ltb_ℤ a c || (eq_ℤ a c && less_bits bs ds)
less loose (finite a bs) infinity = true
less loose neg_infinity (finite c ds) = true
less loose neg_infinity infinity = true
less loose _ _ = false

-- The issues: the keys whose values are no integers within bounds and, last, the pair.
pub data Issue : Type 0 where
  out_of_bounds : Key → Issue
  pair : Issue

unfoldable pub is_refused : (Value → Value → Bool) → Key → Value → Bool
is_refused loose k v =
    not (is_number v)
    || not (is_integer v)
    || less loose v (whole (min_of k))
    || less loose (whole (max_of k)) v

-- The loop over the numeric keys; `value` is `settings[key]`.
unfoldable pub bound_issues : (Value → Value → Bool) → (Key → Value) → List Key → List Issue
bound_issues loose value [] = []
bound_issues loose value (k ∷ ks) =
    let rest = bound_issues loose value ks in
    if is_refused loose k (value k) then out_of_bounds k ∷ rest else rest

unfoldable pub validate_reconcile_settings : (Value → Value → Bool) → (Key → Value) → List Issue
validate_reconcile_settings loose value =
    bound_issues loose value numeric_keys
    ++ (if less loose (value max_backoff) (value backoff_initial) then pair ∷ [] else [])
