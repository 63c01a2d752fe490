-- ===== src/Config.antt =====
-- config.go and the defaults of orchestrator.go's initialize.
use gorch.Base.{
  ℕ, ◌*◌, ℤ, pos, is_zero, if◌then◌else◌, Bool, true, false, Option, none, List, [], ◌∷◌, ◌≡◌,
}
use gorch.Service.{Func}

-- config, in nanoseconds. The log level is the number of its iota constant.
pub record Config : Type 0 where
  pub logger : Option Func
  pub log_level : ℤ
  pub log_level_set : Bool
  pub default_start_timeout : ℤ
  pub failed_start_timeout : ℤ
  pub health_interval : ℤ
  pub health_timeout : ℤ
  pub health_threshold : ℤ
  pub health_disabled : Bool
  pub on_before_start : Option Func
  pub on_after_start : Option Func
  pub on_before_stop : Option Func
  pub on_after_stop : Option Func
  pub on_state_change : Option Func
  pub on_crash : Option Func
  pub before_health_check : Option Func
  pub after_health_check : Option Func

-- config{}
abbrev pub zero_config : Config
zero_config = record {
  logger = none;
  log_level = pos 0;
  log_level_set = false;
  default_start_timeout = pos 0;
  failed_start_timeout = pos 0;
  health_interval = pos 0;
  health_timeout = pos 0;
  health_threshold = pos 0;
  health_disabled = false;
  on_before_start = none;
  on_after_start = none;
  on_before_stop = none;
  on_after_stop = none;
  on_state_change = none;
  on_crash = none;
  before_health_check = none;
  after_health_check = none;
}

-- An Option, or a HealthCheckOption, is a closure over the configuration.
abbrev pub ConfigOption : Type 0
ConfigOption = Config → Config

unfoldable pub apply_config_options : Config → List ConfigOption → Config
apply_config_options c [] = c
apply_config_options c (opt ∷ opts) = apply_config_options (opt c) opts

unfoldable pub with_log_level : ℤ → ConfigOption
with_log_level lvl c = record c { log_level = lvl; log_level_set = true }

unfoldable pub with_health_checks : ℤ → List ConfigOption → ConfigOption
unfolding apply_config_options
with_health_checks interval opts c =
    apply_config_options (record c { health_interval = interval }) opts

unfoldable pub with_health_checks_disabled : ConfigOption
with_health_checks_disabled c = record c { health_disabled = true }

unfoldable pub with_logger : Option Func → ConfigOption
with_logger l c = record c { logger = l }

unfoldable pub with_default_start_timeout : ℤ → ConfigOption
with_default_start_timeout d c = record c { default_start_timeout = d }

unfoldable pub with_failed_start_timeout : ℤ → ConfigOption
with_failed_start_timeout d c = record c { failed_start_timeout = d }

unfoldable pub with_probe_timeout : ℤ → ConfigOption
with_probe_timeout d c = record c { health_timeout = d }

unfoldable pub with_failure_threshold : ℤ → ConfigOption
with_failure_threshold n c = record c { health_threshold = n }

unfoldable pub with_global_on_before_start : Option Func → ConfigOption
with_global_on_before_start fn c = record c { on_before_start = fn }

unfoldable pub with_global_on_after_start : Option Func → ConfigOption
with_global_on_after_start fn c = record c { on_after_start = fn }

unfoldable pub with_global_on_before_stop : Option Func → ConfigOption
with_global_on_before_stop fn c = record c { on_before_stop = fn }

unfoldable pub with_global_on_after_stop : Option Func → ConfigOption
with_global_on_after_stop fn c = record c { on_after_stop = fn }

unfoldable pub with_on_state_change : Option Func → ConfigOption
with_on_state_change fn c = record c { on_state_change = fn }

unfoldable pub with_on_crash : Option Func → ConfigOption
with_on_crash fn c = record c { on_crash = fn }

unfoldable pub with_before_health_check : Option Func → ConfigOption
with_before_health_check fn c = record c { before_health_check = fn }

unfoldable pub with_after_health_check : Option Func → ConfigOption
with_after_health_check fn c = record c { after_health_check = fn }

-- A setting that is 0 takes its default.
abbrev pub default_to : ℤ → ℤ → ℤ
default_to value a = if is_zero a then value else a

abbrev pub seconds : ℕ → ℤ
seconds n = pos (n * 1000000000)

abbrev pub health_defaults : Config → Config
health_defaults c = if c.health_disabled then record c { health_interval = pos 0 } else record c {
  health_interval = default_to (seconds 30) c.health_interval;
  health_timeout = default_to (seconds 5) c.health_timeout;
  health_threshold = default_to (pos 3) c.health_threshold;
}

-- initialize: the configuration that it leaves. LogLevelInfo is 1.
unfoldable pub initialize : List ConfigOption → Config
unfolding apply_config_options
initialize opts =
    let c = apply_config_options zero_config opts in
    let levelled = if c.log_level_set then c else record c { log_level = pos 1 } in
    let checked = health_defaults levelled in
    record checked { failed_start_timeout = default_to (seconds 30) checked.failed_start_timeout }

-- The settings with which the orchestrator runs.
pub record IsSettled (c : Config) : Type 0 where
  pub no_checks : c.health_disabled ≡ true → c.health_interval ≡ pos 0
  pub checks :
      c.health_disabled ≡ false
      → (is_zero c.health_interval ≡ false)
        × (is_zero c.health_timeout ≡ false)
        × (is_zero c.health_threshold ≡ false)
  pub rollback : is_zero c.failed_start_timeout ≡ false
