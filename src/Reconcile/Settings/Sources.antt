-- ===== src/Reconcile/Settings/Sources.antt =====
-- apps/api/src/store/reconcile-settings.ts: which source wins for each setting, and which one is
-- reported.
use i_code_host_pro.Prelude.{
  ℕ, ◌≡◌, refl, sym, ◌||◌, ◌≤◌, ◌∙◌, Bool, true, false, ◌&&◌, Option, none, some, ltb, or_else,
  if◌then◌else◌, ==_refl, arith, Option-cases, inl, inr, ◌==◌,
}
use i_code_host_pro.Prelude.Int.{pos, negsuc, Number, integer, not_integer}
use i_code_host_pro.Prelude.Text.{Text}
use i_code_host_pro.Reconcile.Settings.{
  ReconcileSettings, reconcile_default_settings, Key, scan_interval, batch, lease, attempt_alert,
  backoff_initial, max_backoff, numeric_keys, min_of, max_of, get, set, within, EnvVars,
  env_enabled, env_number, env_step, env_loop, repair_pair, resolve_reconcile_settings, Overrides,
  override_step, override_enabled, override_loop, apply_reconcile_overrides, Source, database,
  env_source, default_source, source_of, resolve_reconcile_settings_full,
}
use i_code_host_pro.Reconcile.Settings.Bounds.{
  resolve_reconcile_settings-IsValid, apply_reconcile_overrides-IsValid,
}

abbrev pub default_of : Key → ℕ
default_of k = get k reconcile_default_settings

-- The override that a column gives a key: none if it is null, or no integer within bounds.
abbrev pub override_number : Key → Option Number → Option ℕ
override_number k none = none
override_number k (some v) = within k v

abbrev pub is_pair : Key → Bool
is_pair backoff_initial = true
is_pair max_backoff = true
is_pair _ = false

-- Numbers of which the first delay is above the largest.
abbrev pub is_crossed : (Key → ℕ) → Bool
is_crossed f = ltb (f max_backoff) (f backoff_initial)

-- A crossed pair is replaced by its defaults.
abbrev pub uncrossed : (Key → ℕ) → Key → ℕ
uncrossed f k = if is_pair k && is_crossed f then default_of k else f k

-- What the environment and the defaults say, the pair aside.
abbrev pub from_env : (Text → Number) → EnvVars → Key → ℕ
from_env parse env k = or_else (env_number parse k (env.number k)) (default_of k)

-- What the overrides say on top of a resolved environment, the pair aside.
abbrev pub from_overrides : (Text → Number) → EnvVars → Overrides → Key → ℕ
from_overrides parse env ov k =
    or_else (override_number k (ov.number k)) (uncrossed (from_env parse env) k)

abbrev set_all : (Key → ℕ) → ReconcileSettings → ReconcileSettings
set_all f s = record s {
  scan_interval_ms = f scan_interval;
  batch_size = f batch;
  lease_ms = f lease;
  attempt_alert_threshold = f attempt_alert;
  backoff_initial_ms = f backoff_initial;
  max_backoff_ms = f max_backoff;
}

get-set_all : (f : Key → ℕ) (s : ReconcileSettings) (k : Key) → get k (set_all f s) ≡ f k
get-set_all f s k = ground arith

set-get : (k : Key) (s : ReconcileSettings) → set k (get k s) s ≡ s
set-get k s = ground arith

module _ (parse : Text → Number) (env : EnvVars) where
  env_step-set :
      (k : Key) (s : ReconcileSettings)
      → (env_step parse env k s).0 ≡ set k (or_else (env_number parse k (env.number k)) (get k s)) s
  unfolding env_step
  env_step-set k s = elim (Option-cases (env_number parse k (env.number k))) [
    | inl unset ↦ rw (unset, env_step) (sym (set-get k s))
    | inr (n, e) ↦ rw (e, env_step)
  ]

  env_loop-set_all :
      (s : ReconcileSettings)
      → (env_loop parse env numeric_keys s).0
        ≡ set_all (λ k. or_else (env_number parse k (env.number k)) (get k s)) s
  unfolding env_loop
  env_loop-set_all s = simp (env_step-set)

module _ (ov : Overrides) where
  override_step-set :
      (k : Key) (s : ReconcileSettings)
      → (override_step ov k s).0 ≡ set k (or_else (override_number k (ov.number k)) (get k s)) s
  unfolding override_step
  override_step-set k s = elim (Option-cases (ov.number k)) [
    | inl absent ↦ rw (absent, override_step) (sym (set-get k s))
    | inr (v, e) ↦ elim (Option-cases (within k v)) [
      | inl invalid ↦ rw (e, override_step, invalid) (sym (set-get k s))
      | inr (n, f) ↦ rw (e, override_step, f)
    ]
  ]

  override_loop-set_all :
      (s : ReconcileSettings)
      → (override_loop ov numeric_keys s).0
        ≡ set_all (λ k. or_else (override_number k (ov.number k)) (get k s)) s
  unfolding override_loop
  override_loop-set_all s = simp (override_step-set)

get-env_enabled :
    (raw : Option Text) (s : ReconcileSettings) (k : Key) → get k (env_enabled raw s).0 ≡ get k s
unfolding env_enabled
get-env_enabled none s k = refl
get-env_enabled (some raw) s k = ground arith

get-override_enabled :
    (b : Option Bool) (s : ReconcileSettings) (k : Key) → get k (override_enabled b s) ≡ get k s
unfolding override_enabled
get-override_enabled none s k = refl
get-override_enabled (some b) s k = ground arith

get-repair_pair :
    (s : ReconcileSettings) (f : Key → ℕ)
    → ((k : Key) → get k s ≡ f k)
    → (k : Key) → get k (repair_pair s).0 ≡ uncrossed f k
unfolding repair_pair
get-repair_pair s f h k = ground (arith, h k, h max_backoff, h backoff_initial)

module _ (parse : Text → Number) (env : EnvVars) (ov : Overrides) where
  get-resolve :
      (k : Key) → get k (resolve_reconcile_settings parse env).0 ≡ uncrossed (from_env parse env) k
  unfolding resolve_reconcile_settings
  get-resolve = get-repair_pair _ (from_env parse env) (λ k.
      let s = (env_enabled env.enabled reconcile_default_settings).0 in
      rw (
        env_loop-set_all parse env s,
        get-set_all _ s k,
        get-env_enabled env.enabled reconcile_default_settings k,
      ))

  -- The value of each numeric setting is its override where that is an integer within bounds, else
  -- its variable of the environment where that is one, else its default, but for the pair of delays:
  -- the environment's pair falls back to its defaults as a whole if the first delay is above the
  -- largest, and so does the pair that the overrides make of it.
  pub resolve_reconcile_settings_full_value :
      (k : Key)
      → get k (resolve_reconcile_settings_full parse env ov).0
        ≡ uncrossed (from_overrides parse env ov) k
  unfolding resolve_reconcile_settings_full apply_reconcile_overrides
  resolve_reconcile_settings_full_value =
      let base = (resolve_reconcile_settings parse env).0 in
      get-repair_pair _ (from_overrides parse env ov) (λ k.
        let s = override_enabled ov.enabled base in
        rw (
          override_loop-set_all ov s,
          get-set_all _ s k,
          get-override_enabled ov.enabled base k,
          get-resolve k,
        ))

-- The first of an override, a variable of the environment and a default that there is, with its
-- source.
abbrev pub first_of : Option ℕ → Option ℕ → ℕ → ℕ × Source
first_of (some n) e d = (n, database)
first_of none (some n) d = (n, env_source)
first_of none none d = (d, default_source)

abbrev report : Option ℕ → Option ℕ → ℕ → Source
report o e v =
    if elim o [ some n ↦ v == n | none ↦ false ]
    then database
    else elim e [ none ↦ default_source | some n ↦ if v == n then env_source else default_source ]

report-first_of :
    (o e : Option ℕ) (d v : ℕ)
    → v ≡ or_else o (or_else e d)
    → ◌≡◌ {A = ℕ × Source} (v, report o e v) (first_of o e d)
report-first_of (some n) e d v h = rw (h, ==_refl n)
report-first_of none (some n) d v h = rw (h, ==_refl n)
report-first_of none none d v h = rw h

-- An override out of bounds is not the value of a setting within bounds.
override_number-eq :
    (k : Key) (o : Option Number) (v : ℕ)
    → min_of k ≤ v
    → v ≤ max_of k
    → (elim o [ some (integer (pos n)) ↦ v == n | _ ↦ false ])
      ≡ (elim (override_number k o) [ some n ↦ v == n | none ↦ false ])
unfolding within
override_number-eq k none v lo hi = refl
override_number-eq k (some not_integer) v lo hi = refl
override_number-eq k (some (integer (negsuc n))) v lo hi = refl
override_number-eq k (some (integer (pos n))) v lo hi = ground arith

source_of-report :
    (parse : Text → Number) (env : EnvVars) (ov : Overrides) (k : Key) (v : ℕ)
    → min_of k ≤ v
    → v ≤ max_of k
    → source_of parse env ov k v
      ≡ report (override_number k (ov.number k)) (env_number parse k (env.number k)) v
unfolding source_of
source_of-report parse env ov k v lo hi = rw (override_number-eq k (ov.number k) v lo hi)

uncrossed-from_overrides :
    (parse : Text → Number) (env : EnvVars) (ov : Overrides) (k : Key)
    → (is_pair k && (is_crossed (from_env parse env) || is_crossed (from_overrides parse env ov)))
      ≡ false
    → uncrossed (from_overrides parse env ov) k
      ≡ or_else (override_number k (ov.number k)) (from_env parse env k)
uncrossed-from_overrides parse env ov k h = ground arith

-- For the delays where the pair is crossed neither in the environment nor with the overrides, and
-- for the other settings always: the value is the override that is an integer within bounds and is
-- reported as the database's, else the variable of the environment that is one and is reported as
-- the environment's, else the default and is reported as such.
pub resolve_reconcile_settings_full_sources :
    (parse : Text → Number) (env : EnvVars) (ov : Overrides) (k : Key)
    → (is_pair k && (is_crossed (from_env parse env) || is_crossed (from_overrides parse env ov)))
      ≡ false
    → let (s, sources) = resolve_reconcile_settings_full parse env ov in
      (get k s, sources k)
      ≡ first_of
          (override_number k (ov.number k))
          (env_number parse k (env.number k))
          (default_of k)
unfolding resolve_reconcile_settings_full
resolve_reconcile_settings_full_sources parse env ov k h =
    let base = resolve_reconcile_settings-IsValid parse env in
    let (lo, hi) = (apply_reconcile_overrides-IsValid _ ov base.bounds).bounds k in
    let value =
      resolve_reconcile_settings_full_value parse env ov k
      ∙ uncrossed-from_overrides parse env ov k h in
    rw (source_of-report parse env ov k _ lo hi) (
      report-first_of (override_number k (ov.number k)) (env_number parse k (env.number k))
        (default_of k) _ value)
