-- ===== src/Reconcile/Validation/Laws.antt =====
-- apps/api/src/store/reconcile-settings.ts: which settings the validation lets pass.
use i_code_host_pro.Prelude.{
  ℕ, ◌≤◌, ◌≡◌, ◌↔◌, refl, Bool, true, false, List, [], ◌∷◌, ◌++◌, arith, any, All, Bool-cases, inl,
  inr, ltb, if◌then◌else◌,
}
use i_code_host_pro.Prelude.Int.{pos, negsuc}
use i_code_host_pro.Reconcile.Settings.{
  Key, scan_interval, batch, lease, attempt_alert, backoff_initial, max_backoff, numeric_keys,
  min_of, max_of,
}
use i_code_host_pro.Reconcile.Validation.{
  Value, finite, nan, infinity, neg_infinity, no_number, less_bits, less, Issue, pair, is_refused,
  bound_issues, validate_reconcile_settings,
}

-- The value is the integer `n`.
abbrev pub IsWhole : ℕ → Value → Type 0
IsWhole n (finite z bits) = (z ≡ pos n) × (any (λ b. b) bits ≡ false)
IsWhole n _ = ⊥

-- Each setting is an integer within its bounds, and the first delay is not above the largest.
pub record IsAcceptable (value : Key → Value) : Type 0 where
  pub number : Key → ℕ
  pub integral : (k : Key) → IsWhole (number k) (value k)
  pub bounds : (k : Key) → (min_of k ≤ number k) × (number k ≤ max_of k)
  pub ordered : number backoff_initial ≤ number max_backoff

abbrev IsBounded : Key → Value → Type 0
IsBounded k v = (n : ℕ) × IsWhole n v × (min_of k ≤ n) × (n ≤ max_of k)

less_bits-zero : (bs ds : List Bool) → any (λ b. b) ds ≡ false → less_bits bs ds ≡ false
less_bits-zero [] ds h = h
less_bits-zero (b ∷ bs) [] h = refl
less_bits-zero (false ∷ bs) (false ∷ ds) h = less_bits-zero bs ds h
less_bits-zero (true ∷ bs) (false ∷ ds) h = refl
less_bits-zero (b ∷ bs) (true ∷ ds) h = absurd (cc)

module _ (loose : Value → Value → Bool) where
  is_refused-IsBounded : (k : Key) (v : Value) → is_refused loose k v ≡ false → IsBounded k v
  unfolding is_refused
  is_refused-IsBounded k (finite (pos n) bs) h =
      (n, (refl, ground arith), ground arith, ground arith)
  is_refused-IsBounded k (finite (negsuc n) bs) h = absurd (ground arith)
  is_refused-IsBounded k nan h = absurd (cc)
  is_refused-IsBounded k infinity h = absurd (cc)
  is_refused-IsBounded k neg_infinity h = absurd (cc)
  is_refused-IsBounded k (no_number i) h = absurd (cc)

  IsBounded-is_refused : (k : Key) (v : Value) → IsBounded k v → is_refused loose k v ≡ false
  unfolding is_refused
  IsBounded-is_refused k (finite z bs) (n, (e, zero), lo, hi) =
      ground (arith, less_bits-zero bs [] refl)
  IsBounded-is_refused k nan (n, h, lo, hi) = absurd h
  IsBounded-is_refused k infinity (n, h, lo, hi) = absurd h
  IsBounded-is_refused k neg_infinity (n, h, lo, hi) = absurd h
  IsBounded-is_refused k (no_number i) (n, h, lo, hi) = absurd h

  bound_issues-nil :
      (value : Key → Value) (ks : List Key)
      → (bound_issues loose value ks ≡ []) ↔ All (λ k. IsBounded k (value k)) ks
  unfolding bound_issues
  bound_issues-nil value [] = (λ _. tt, λ _. refl)
  bound_issues-nil value (k ∷ ks) =
      let rest = bound_issues-nil value ks in
      let into = is_refused-IsBounded k (value k) in
      let back = IsBounded-is_refused k (value k) in
      elim (Bool-cases (is_refused loose k (value k))) [
        | inl refused ↦ (λ h. absurd (cc (rw refused at h)), λ (b, _). absurd (cc (back b)))
        | inr passed ↦ rw passed (λ h. (into passed, rest.0 h), λ (_, bs). rest.1 bs)
      ]

append-eq-nil : (xs ys : List Issue) → xs ++ ys ≡ [] → (xs ≡ []) × (ys ≡ [])
append-eq-nil [] ys h = (refl, h)
append-eq-nil (x ∷ xs) ys h = absurd (cc)

-- Integers compare as numbers do, whatever bits their zero fraction is written with.
less-IsWhole :
    (loose : Value → Value → Bool) (m n : ℕ) (v w : Value)
    → IsWhole m v
    → IsWhole n w
    → less loose v w ≡ ltb m n
less-IsWhole loose m n (finite y bs) (finite z ds) (e, zero) (f, zero') =
    ground (arith, less_bits-zero bs ds zero')
less-IsWhole loose m n (finite y bs) nan h k = absurd k
less-IsWhole loose m n (finite y bs) infinity h k = absurd k
less-IsWhole loose m n (finite y bs) neg_infinity h k = absurd k
less-IsWhole loose m n (finite y bs) (no_number i) h k = absurd k
less-IsWhole loose m n nan w h k = absurd h
less-IsWhole loose m n infinity w h k = absurd h
less-IsWhole loose m n neg_infinity w h k = absurd h
less-IsWhole loose m n (no_number i) w h k = absurd h

no_pair : (m n : ℕ) → ◌≡◌ {A = List Issue} (if ltb m n then pair ∷ [] else []) [] → n ≤ m
no_pair m n h = ground arith

at_keys :
    (value : Key → Value)
    → All (λ k. IsBounded k (value k)) numeric_keys
    → (k : Key) → IsBounded k (value k)
at_keys value h scan_interval = h.0
at_keys value h batch = h.1.0
at_keys value h lease = h.1.1.0
at_keys value h attempt_alert = h.1.1.1.0
at_keys value h backoff_initial = h.1.1.1.1.0
at_keys value h max_backoff = h.1.1.1.1.1.0

-- The validation finds no issue exactly when every numeric setting is a number, an integer and within
-- its bounds, and the first delay is not above the largest, however values that are no numbers
-- compare.
pub validate_reconcile_settings_iff :
    (loose : Value → Value → Bool) (value : Key → Value)
    → (validate_reconcile_settings loose value ≡ []) ↔ IsAcceptable value
unfolding validate_reconcile_settings
validate_reconcile_settings_iff loose value = (
  λ h.
      let (none_out, ordered) = append-eq-nil (bound_issues loose value numeric_keys) _ h in
      let at = at_keys value ((bound_issues-nil loose value numeric_keys).0 none_out) in
      let (m, first, _, _) = at max_backoff in
      let (n, second, _, _) = at backoff_initial in
      let compared =
        less-IsWhole loose m n (value max_backoff) (value backoff_initial) first second in
      record {
        number = λ k. (at k).0;
        integral = λ k. (at k).1;
        bounds = λ k. ((at k).2, (at k).3);
        ordered = no_pair m n (rw compared at ordered);
      },
  λ v.
      let bounded : (k : Key) → IsBounded k (value k) =
        λ k. (v.number k, v.integral k, (v.bounds k).0, (v.bounds k).1) in
      let compared =
        less-IsWhole loose (v.number max_backoff) (v.number backoff_initial) (value max_backoff)
          (value backoff_initial) (v.integral max_backoff) (v.integral backoff_initial) in
      let o = v.ordered in
      let none_out = (bound_issues-nil loose value numeric_keys).1 (
        bounded scan_interval,
        (
          bounded batch,
          (
            bounded lease,
            (bounded attempt_alert, (bounded backoff_initial, (bounded max_backoff, tt))),
          ),
        ),
      ) in
      rw (none_out, compared) (ground arith),
)
