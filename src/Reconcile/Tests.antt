-- ===== src/Reconcile/Tests.antt =====
-- apps/api/src/store/reconcile-settings.ts and reconcile-backoff.ts: the theorems applied at a
-- concrete environment.
use i_code_host_pro.Prelude.{ℕ, ◌≡◌, ◌↔◌, refl, Bool, true, false, Option, none, some, [], ◌∷◌}
use i_code_host_pro.Prelude.Int.{pos, Number, integer, not_integer}
use i_code_host_pro.Prelude.Text.{Text, codes, trim, trim_start, is_space}
use i_code_host_pro.Reconcile.Settings.{
  reconcile_default_settings, Key, scan_interval, batch, max_backoff, get, EnvVars, Overrides,
  Source, env_source, backoff_initial, within, env_enabled, env_loop, env_step, env_number,
  override_enabled, override_loop, override_step, repair_pair, source_of, apply_reconcile_overrides,
  resolve_reconcile_settings, resolve_reconcile_settings_full,
}
use i_code_host_pro.Reconcile.Settings.Bounds.{IsValid, resolve_reconcile_settings-IsValid}
use i_code_host_pro.Reconcile.Validation.{
  Value, finite, whole, out_of_bounds, validate_reconcile_settings, bound_issues, is_refused,
}
use i_code_host_pro.Reconcile.Validation.Laws.{IsAcceptable, validate_reconcile_settings_iff}
use i_code_host_pro.Reconcile.Settings.Sources.{
  uncrossed, from_overrides, resolve_reconcile_settings_full_value,
  resolve_reconcile_settings_full_sources,
}

-- The number that a text of digits stands for; here, one for all texts.
abbrev parse : Text → Number
parse t = integer (pos 20)

abbrev numbers : Key → Option Text
numbers batch = some (codes " 20 ")
numbers scan_interval = some (codes "20")
numbers _ = none

abbrev env : EnvVars
env = record { enabled = some (codes "true"); number = numbers }

abbrev columns : Key → Option Number
columns max_backoff = some (integer (pos 60000))
columns batch = some not_integer
columns _ = none

abbrev ov : Overrides
ov = record { enabled = none; number = columns }

resolve_reconcile_settings-IsValid_example : IsValid (resolve_reconcile_settings parse env).0
resolve_reconcile_settings-IsValid_example = resolve_reconcile_settings-IsValid parse env

-- No value below or above another.
abbrev never : Value → Value → Bool
never v w = false

-- The defaults, but for a batch of two and a half.
abbrev half_batch : Key → Value
half_batch batch = finite (pos 2) (true ∷ [])
half_batch k = whole (get k reconcile_default_settings)

validate_reconcile_settings_iff_example :
    (validate_reconcile_settings never half_batch ≡ []) ↔ IsAcceptable half_batch
validate_reconcile_settings_iff_example = validate_reconcile_settings_iff never half_batch

half_batch_refused : validate_reconcile_settings never half_batch ≡ out_of_bounds batch ∷ []
unfolding validate_reconcile_settings bound_issues is_refused
half_batch_refused = refl

-- The defaults.
abbrev defaults : Key → Value
defaults k = whole (get k reconcile_default_settings)

defaults_pass : validate_reconcile_settings never defaults ≡ []
unfolding validate_reconcile_settings bound_issues is_refused
defaults_pass = refl

resolve_reconcile_settings_full_value_example :
    get batch (resolve_reconcile_settings_full parse env ov).0
    ≡ uncrossed (from_overrides parse env ov) batch
resolve_reconcile_settings_full_value_example =
    resolve_reconcile_settings_full_value parse env ov batch

-- The column of the batch is no integer, so the environment's 20 stands.
resolve_reconcile_settings_full_sources_example :
    let (s, sources) = resolve_reconcile_settings_full parse env ov in
    ◌≡◌ {A = ℕ × Source} (get batch s, sources batch) (20, env_source)
unfolding env_number within trim trim_start is_space
resolve_reconcile_settings_full_sources_example =
    resolve_reconcile_settings_full_sources parse env ov batch refl

-- A first delay of 30000 in the environment, and overrides that cross the pair.
abbrev crossed_numbers : Key → Option Text
crossed_numbers backoff_initial = some (codes "30000")
crossed_numbers _ = none

abbrev crossed_columns : Key → Option Number
crossed_columns backoff_initial = some (integer (pos 1800000))
crossed_columns max_backoff = some (integer (pos 60000))
crossed_columns _ = none

abbrev thirty_seconds : Text → Number
thirty_seconds t = integer (pos 30000)

abbrev crossed_env : EnvVars
crossed_env = record { enabled = none; number = crossed_numbers }

abbrev crossed_ov : Overrides
crossed_ov = record { enabled = none; number = crossed_columns }

-- The pair falls back to its defaults, and its first delay is reported as the environment's.
crossed_pair :
    let (s, sources) = resolve_reconcile_settings_full thirty_seconds crossed_env crossed_ov in
    ◌≡◌ {A = ℕ × Source} (get backoff_initial s, sources backoff_initial) (30000, env_source)
unfolding resolve_reconcile_settings_full resolve_reconcile_settings apply_reconcile_overrides
    env_enabled env_loop env_step env_number override_enabled override_loop override_step
    repair_pair within source_of trim trim_start is_space
crossed_pair = refl
