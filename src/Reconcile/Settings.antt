-- ===== src/Reconcile/Settings.antt =====
-- apps/api/src/store/reconcile-settings.ts and reconcile-backoff.ts: the settings of the
-- reconciler, from the database, the environment and the defaults, and the delay between attempts.
-- `Number(text)` is an argument, `parse`, of which nothing is assumed.
pub mod Bounds
pub mod Sources
use i_code_host_pro.Prelude.{
  ℕ, zero, suc, ◌+◌, ◌-◌, ◌*◌, ◌^◌, ◌/◌, ◌≡◌, Bool, true, false, not, ◌&&◌, ◌||◌, Option, none,
  some, List, [], ◌∷◌, ◌++◌, ltb, leb, ◌==◌, if◌then◌else◌, min,
}
use i_code_host_pro.Prelude.Int.{ℤ, pos, negsuc, Number, integer, not_integer}
use i_code_host_pro.Prelude.Text.{Text, codes, text_eq, trim, to_lower_case, is_empty}

pub record ReconcileSettings : Type 0 where
  pub enabled : Bool
  pub scan_interval_ms : ℕ
  pub batch_size : ℕ
  pub lease_ms : ℕ
  pub attempt_alert_threshold : ℕ
  pub backoff_initial_ms : ℕ
  pub max_backoff_ms : ℕ

abbrev pub reconcile_default_settings : ReconcileSettings
reconcile_default_settings = record {
  enabled = false;
  scan_interval_ms = 30000;
  batch_size = 10;
  lease_ms = 120000;
  attempt_alert_threshold = 12;
  backoff_initial_ms = 30000;
  max_backoff_ms = 3600000;
}

-- The numeric settings.
pub data Key : Type 0 where
  scan_interval batch lease attempt_alert backoff_initial max_backoff : Key

abbrev pub numeric_keys : List Key
numeric_keys = scan_interval ∷ batch ∷ lease ∷ attempt_alert ∷ backoff_initial ∷ max_backoff ∷ []

abbrev pub min_of : Key → ℕ
min_of scan_interval = 10000
min_of batch = 1
min_of lease = 30000
min_of attempt_alert = 1
min_of backoff_initial = 10000
min_of max_backoff = 60000

abbrev pub max_of : Key → ℕ
max_of scan_interval = 900000
max_of batch = 100
max_of lease = 1800000
max_of attempt_alert = 100
max_of backoff_initial = 1800000
max_of max_backoff = 86400000

-- `settings[key]`
abbrev pub get : Key → ReconcileSettings → ℕ
get scan_interval s = s.scan_interval_ms
get batch s = s.batch_size
get lease s = s.lease_ms
get attempt_alert s = s.attempt_alert_threshold
get backoff_initial s = s.backoff_initial_ms
get max_backoff s = s.max_backoff_ms

-- `settings[key] = n`
abbrev pub set : Key → ℕ → ReconcileSettings → ReconcileSettings
set scan_interval n s = record s { scan_interval_ms = n }
set batch n s = record s { batch_size = n }
set lease n s = record s { lease_ms = n }
set attempt_alert n s = record s { attempt_alert_threshold = n }
set backoff_initial n s = record s { backoff_initial_ms = n }
set max_backoff n s = record s { max_backoff_ms = n }

-- The value of a number that is an integer within the bounds of the key.
unfoldable pub within : Key → Number → Option ℕ
within k not_integer = none
within k (integer (negsuc n)) = none
within k (integer (pos n)) = if ltb n (min_of k) || ltb (max_of k) n then none else some n

-- The environment, by the setting that each variable is for.
pub record EnvVars : Type 0 where
  pub enabled : Option Text
  pub number : Key → Option Text

-- The warnings that go to the callback.
pub data Warning : Type 0 where
  enabled_invalid pair_invalid : Warning
  env_invalid override_invalid : Key → Warning

-- A truth value of the environment.
unfoldable pub parse_bool : Text → Option Bool
parse_bool raw =
    let lower = to_lower_case (trim raw) in
    if text_eq lower (codes "true") || text_eq lower (codes "1")
    then some true
    else if text_eq lower (codes "false") || text_eq lower (codes "0")
    then some false
    else none

unfoldable pub env_enabled : Option Text → ReconcileSettings → ReconcileSettings × List Warning
env_enabled none s = (s, [])
env_enabled (some raw) s = if is_empty (trim raw) then (s, []) else elim (parse_bool raw) [
  | some b ↦ (record s { enabled = b }, [])
  | none ↦ (s, enabled_invalid ∷ [])
]

-- The number that a variable of the environment gives a key: none if it is unset, blank, or no
-- integer within bounds.
unfoldable pub env_number : (Text → Number) → Key → Option Text → Option ℕ
env_number parse k none = none
env_number parse k (some raw) = if is_empty (trim raw) then none else within k (parse (trim raw))

unfoldable pub is_set : Option Text → Bool
is_set none = false
is_set (some raw) = not (is_empty (trim raw))

-- One turn of the loop over the numeric keys.
unfoldable pub env_step :
    (Text → Number) → EnvVars → Key → ReconcileSettings → ReconcileSettings × List Warning
env_step parse env k s = elim (env_number parse k (env.number k)) [
  | some n ↦ (set k n s, [])
  | none ↦ (s, if is_set (env.number k) then env_invalid k ∷ [] else [])
]

unfoldable pub env_loop :
    (Text → Number) → EnvVars → List Key → ReconcileSettings → ReconcileSettings × List Warning
env_loop parse env [] s = (s, [])
env_loop parse env (k ∷ ks) s =
    let (s', w) = env_step parse env k s in let (s″, ws) = env_loop parse env ks s' in (s″, w ++ ws)

-- The pair falls back to its defaults if the largest delay is below the first.
unfoldable pub repair_pair : ReconcileSettings → ReconcileSettings × List Warning
repair_pair s =
    if ltb s.max_backoff_ms s.backoff_initial_ms
    then (
      record s {
        max_backoff_ms = reconcile_default_settings.max_backoff_ms;
        backoff_initial_ms = reconcile_default_settings.backoff_initial_ms;
      },
      pair_invalid ∷ [],
    )
    else (s, [])

unfoldable pub resolve_reconcile_settings :
    (Text → Number) → EnvVars → ReconcileSettings × List Warning
resolve_reconcile_settings parse env =
    let (s₀, w₀) = env_enabled env.enabled reconcile_default_settings in
    let (s₁, w₁) = env_loop parse env numeric_keys s₀ in
    let (s₂, w₂) = repair_pair s₁ in (s₂, w₀ ++ (w₁ ++ w₂))

-- The nullable columns of `ReconcileSetting`.
pub record Overrides : Type 0 where
  pub enabled : Option Bool
  pub number : Key → Option Number

unfoldable pub override_step :
    Overrides → Key → ReconcileSettings → ReconcileSettings × List Warning
override_step ov k s = elim (ov.number k) [
  | none ↦ (s, [])
  | some v ↦ elim (within k v) [ some n ↦ (set k n s, []) | none ↦ (s, override_invalid k ∷ []) ]
]

unfoldable pub override_loop :
    Overrides → List Key → ReconcileSettings → ReconcileSettings × List Warning
override_loop ov [] s = (s, [])
override_loop ov (k ∷ ks) s =
    let (s', w) = override_step ov k s in let (s″, ws) = override_loop ov ks s' in (s″, w ++ ws)

unfoldable pub override_enabled : Option Bool → ReconcileSettings → ReconcileSettings
override_enabled none s = s
override_enabled (some b) s = record s { enabled = b }

unfoldable pub apply_reconcile_overrides :
    ReconcileSettings → Overrides → ReconcileSettings × List Warning
apply_reconcile_overrides base ov =
    let s₀ = override_enabled ov.enabled base in
    let (s₁, w₁) = override_loop ov numeric_keys s₀ in
    let (s₂, w₂) = repair_pair s₁ in (s₂, w₁ ++ w₂)

pub data Source : Type 0 where
  database env_source default_source : Source

-- The source that is reported for a numeric setting with its resolved value.
unfoldable pub source_of : (Text → Number) → EnvVars → Overrides → Key → ℕ → Source
source_of parse env ov k value =
    if elim (ov.number k) [ some (integer (pos n)) ↦ value == n | _ ↦ false ]
    then database
    else elim (env_number parse k (env.number k)) [
      | none ↦ default_source
      | some n ↦ if value == n then env_source else default_source
    ]

-- `resolveReconcileSettingsFull`, with the sources of the numeric settings.
unfoldable pub resolve_reconcile_settings_full :
    (Text → Number) → EnvVars → Overrides → ReconcileSettings × (Key → Source)
resolve_reconcile_settings_full parse env ov =
    let s = (apply_reconcile_overrides (resolve_reconcile_settings parse env).0 ov).0 in
    (s, λ k. source_of parse env ov k (get k s))

-- `reconcileBackoffDelayMs`: 2^(n - 1) is compared with max / initial without rounding, as
-- multiplication does on integers.
unfoldable pub reconcile_backoff_delay_ms : ℕ → ReconcileSettings → ℕ
reconcile_backoff_delay_ms attempt s =
    let n = if ltb attempt 1 then 1 else attempt in
    let factor = 2 ^ (n - 1) in
    if ltb s.max_backoff_ms (factor * s.backoff_initial_ms)
    then s.max_backoff_ms
    else min (s.backoff_initial_ms * factor) s.max_backoff_ms
