-- ===== src/Reconcile/Settings/Bounds.antt =====
-- apps/api/src/store/reconcile-settings.ts and reconcile-backoff.ts: whatever the environment and the
-- database say, the resolved settings are within their bounds and the delays between them.
use i_code_host_pro.Prelude.{
  ℕ, ◌-◌, ◌*◌, ◌^◌, ◌≤◌, ◌≡◌, Bool, Option, none, some, List, [], ◌∷◌, ltb, if◌then◌else◌, arith,
  Option-cases, Bool-cases, inl, inr, min,
}
use i_code_host_pro.Prelude.Int.{pos, negsuc, Number, integer, not_integer}
use i_code_host_pro.Prelude.Text.{Text, trim}
use i_code_host_pro.Reconcile.Settings.{
  ReconcileSettings, reconcile_default_settings, Key, scan_interval, numeric_keys, min_of, max_of,
  get, set, within, EnvVars, env_enabled, env_number, env_step, env_loop, repair_pair,
  resolve_reconcile_settings, Overrides, override_step, override_loop, apply_reconcile_overrides,
  reconcile_backoff_delay_ms, override_enabled,
}

-- Each numeric setting is within its bounds.
abbrev pub InBounds : ReconcileSettings → Type 0
InBounds s = (k : Key) → (min_of k ≤ get k s) × (get k s ≤ max_of k)

-- And the first delay is not above the largest.
pub record IsValid (s : ReconcileSettings) : Type 0 where
  pub bounds : InBounds s
  pub ordered : s.backoff_initial_ms ≤ s.max_backoff_ms

within-bounds :
    (k : Key) (v : Number) {n : ℕ} → within k v ≡ some n → (min_of k ≤ n) × (n ≤ max_of k)
unfolding within
within-bounds k not_integer h = absurd (cc)
within-bounds k (integer (negsuc m)) h = absurd (cc)
within-bounds k (integer (pos m)) h = ground arith

set-InBounds :
    (j : Key) (n : ℕ) (s : ReconcileSettings)
    → InBounds s
    → min_of j ≤ n
    → n ≤ max_of j
    → InBounds (set j n s)
set-InBounds j n s h lo hi k = ground (arith, h k)

default-InBounds : InBounds reconcile_default_settings
default-InBounds scan_interval = omega arith
default-InBounds _ = omega arith

env_number-bounds :
    (parse : Text → Number) (k : Key) (raw : Option Text) {n : ℕ}
    → env_number parse k raw ≡ some n
    → (min_of k ≤ n) × (n ≤ max_of k)
unfolding env_number
env_number-bounds parse k none {n} h = absurd (cc)
env_number-bounds parse k (some raw) {n} h =
    ground (arith, within-bounds k (parse (trim raw)) {n = n})

module _ (parse : Text → Number) (env : EnvVars) where
  env_step-InBounds :
      (k : Key) (s : ReconcileSettings) → InBounds s → InBounds (env_step parse env k s).0
  unfolding env_step
  env_step-InBounds k s h = elim (Option-cases (env_number parse k (env.number k))) [
    | inl unset ↦ rw (unset, env_step) h
    | inr (n, e) ↦
        let (lo, hi) = env_number-bounds parse k (env.number k) e in
        rw (e, env_step) (set-InBounds k n s h lo hi)
  ]

  env_loop-InBounds :
      (ks : List Key) (s : ReconcileSettings) → InBounds s → InBounds (env_loop parse env ks s).0
  unfolding env_loop
  env_loop-InBounds [] s h = h
  env_loop-InBounds (k ∷ ks) s h =
      env_loop-InBounds ks (env_step parse env k s).0 (env_step-InBounds k s h)

env_enabled-InBounds :
    (raw : Option Text) (s : ReconcileSettings) → InBounds s → InBounds (env_enabled raw s).0
unfolding env_enabled
env_enabled-InBounds none s h = h
env_enabled-InBounds (some raw) s h = λ k. ground (arith, h k)

repair_pair-IsValid : (s : ReconcileSettings) → InBounds s → IsValid (repair_pair s).0
unfolding repair_pair
repair_pair-IsValid s h = elim (Bool-cases (ltb s.max_backoff_ms s.backoff_initial_ms)) [
  | inl below ↦ rw below (record { bounds = λ k. pair-InBounds k; ordered = omega arith })
  | inr above ↦ rw above (record { bounds = h; ordered = ground arith })
]
  where
    pair-InBounds :
        (k : Key)
        → let s' = record s { max_backoff_ms = 3600000; backoff_initial_ms = 30000 } in
          (min_of k ≤ get k s') × (get k s' ≤ max_of k)
    pair-InBounds k = ground (arith, h k)

-- Whatever the environment holds, the settings resolved from it are within their bounds, with the
-- first delay not above the largest.
pub resolve_reconcile_settings-IsValid :
    (parse : Text → Number) (env : EnvVars) → IsValid (resolve_reconcile_settings parse env).0
unfolding resolve_reconcile_settings
resolve_reconcile_settings-IsValid parse env = repair_pair-IsValid _ (
    env_loop-InBounds parse env numeric_keys _
      (env_enabled-InBounds env.enabled reconcile_default_settings default-InBounds))

override_step-InBounds :
    (ov : Overrides) (k : Key) (s : ReconcileSettings)
    → InBounds s
    → InBounds (override_step ov k s).0
unfolding override_step
override_step-InBounds ov k s h = elim (Option-cases (ov.number k)) [
  | inl absent ↦ rw (absent, override_step) h
  | inr (v, e) ↦ elim (Option-cases (within k v)) [
    | inl invalid ↦ rw (e, override_step, invalid) h
    | inr (n, f) ↦
        let (lo, hi) = within-bounds k v f in rw (e, override_step, f) (set-InBounds k n s h lo hi)
  ]
]

override_loop-InBounds :
    (ov : Overrides) (ks : List Key) (s : ReconcileSettings)
    → InBounds s
    → InBounds (override_loop ov ks s).0
unfolding override_loop
override_loop-InBounds ov [] s h = h
override_loop-InBounds ov (k ∷ ks) s h =
    override_loop-InBounds ov ks (override_step ov k s).0 (override_step-InBounds ov k s h)

override_enabled-InBounds :
    (b : Option Bool) (s : ReconcileSettings) → InBounds s → InBounds (override_enabled b s)
unfolding override_enabled
override_enabled-InBounds none s h = h
override_enabled-InBounds (some b) s h = λ k. ground (arith, h k)

-- Whatever the overrides of the database are, applying them to settings within their bounds gives
-- settings within their bounds, with the first delay not above the largest.
pub apply_reconcile_overrides-IsValid :
    (base : ReconcileSettings) (ov : Overrides)
    → InBounds base
    → IsValid (apply_reconcile_overrides base ov).0
unfolding apply_reconcile_overrides
apply_reconcile_overrides-IsValid base ov h =
    repair_pair-IsValid _
      (override_loop-InBounds ov numeric_keys _ (override_enabled-InBounds ov.enabled base h))

-- The delay is the first delay doubled at each attempt after the first, up to the largest.
pub reconcile_backoff_delay_ms_lem :
    (attempt : ℕ) (s : ReconcileSettings)
    → reconcile_backoff_delay_ms attempt s
      ≡ min (s.backoff_initial_ms * 2 ^ (attempt - 1)) s.max_backoff_ms
unfolding reconcile_backoff_delay_ms
reconcile_backoff_delay_ms_lem attempt s =
    let e : (if ltb attempt 1 then 1 else attempt) - 1 ≡ attempt - 1 = ground arith in
    rw e (ground arith)
