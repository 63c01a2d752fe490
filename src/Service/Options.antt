-- ===== src/Service/Options.antt =====
-- service.go: the registration and stop options. register.go: applyRegisterOptions.
use gorch.Base.{ℤ, pos, Name, name_discrete, true, false, List, [], ◌∷◌, ◌++◌, Option, none, ite}
use gorch.Service.{
  Func, CronMode, cron_parallel, RegisterConfig, RegisterOption, StopConfig, StopOption,
}

-- registerConfig{}
abbrev pub zero_config : RegisterConfig
zero_config = record {
  cron_spec = "";
  cron_mode = cron_parallel;
  cron_set = false;
  factory = none;
  name = "";
  depends_on = [];
  start_timeout = pos 0;
  run_once = false;
  max_retries = pos 0;
  backoff = none;
  reset_after = pos 0;
  on_before_start = none;
  on_after_start = none;
  on_before_stop = none;
  on_after_stop = none;
  group = "";
  labels = [];
  soft_depends_on = [];
  stop_timeout = pos 0;
  start_condition = none;
}

unfoldable pub with_cron : Name → CronMode → RegisterOption
with_cron spec mode cfg = record cfg { cron_spec = spec; cron_mode = mode; cron_set = true }

unfoldable pub with_self_heal : Option Func → RegisterOption
with_self_heal factory cfg = record cfg { factory = factory }

unfoldable pub with_name : Name → RegisterOption
with_name name cfg = record cfg { name = name }

unfoldable pub depends_on : List Name → RegisterOption
depends_on names cfg = record cfg { depends_on = cfg.depends_on ++ names }

unfoldable pub with_start_timeout : ℤ → RegisterOption
with_start_timeout d cfg = record cfg { start_timeout = d }

unfoldable pub with_run_once : RegisterOption
with_run_once cfg = record cfg { run_once = true }

unfoldable pub with_max_retries : ℤ → RegisterOption
with_max_retries max cfg = record cfg { max_retries = max }

unfoldable pub with_backoff : Option Func → RegisterOption
with_backoff b cfg = record cfg { backoff = b }

unfoldable pub with_reset_after : ℤ → RegisterOption
with_reset_after d cfg = record cfg { reset_after = d }

unfoldable pub with_on_before_start : Option Func → RegisterOption
with_on_before_start fn cfg = record cfg { on_before_start = fn }

unfoldable pub with_on_after_start : Option Func → RegisterOption
with_on_after_start fn cfg = record cfg { on_after_start = fn }

unfoldable pub with_on_before_stop : Option Func → RegisterOption
with_on_before_stop fn cfg = record cfg { on_before_stop = fn }

unfoldable pub with_on_after_stop : Option Func → RegisterOption
with_on_after_stop fn cfg = record cfg { on_after_stop = fn }

unfoldable pub with_group : Name → RegisterOption
with_group name cfg = record cfg { group = name }

-- A write into the labels map.
pub set_label : Name → Name → List (Name × Name) → List (Name × Name)
set_label key value [] = (key, value) ∷ []
set_label key value ((k, v) ∷ rest) =
    ite (name_discrete k key) ((k, value) ∷ rest) ((k, v) ∷ set_label key value rest)

unfoldable pub with_label : Name → Name → RegisterOption
unfolding set_label
with_label key value cfg = record cfg { labels = set_label key value cfg.labels }

unfoldable pub depends_on_soft : List Name → RegisterOption
depends_on_soft names cfg = record cfg { soft_depends_on = cfg.soft_depends_on ++ names }

unfoldable pub with_stop_timeout : ℤ → RegisterOption
with_stop_timeout d cfg = record cfg { stop_timeout = d }

unfoldable pub with_start_condition : Option Func → RegisterOption
with_start_condition fn cfg = record cfg { start_condition = fn }

unfoldable pub apply_options : RegisterConfig → List RegisterOption → RegisterConfig
apply_options cfg [] = cfg
apply_options cfg (opt ∷ opts) = apply_options (opt cfg) opts

unfoldable pub apply_register_options : List RegisterOption → RegisterConfig
unfolding apply_options
apply_register_options opts = apply_options zero_config opts

abbrev zero_stop : StopConfig
zero_stop = record { cascade = false; orphans = false }

unfoldable pub with_cascade_stop : StopOption
with_cascade_stop cfg = record cfg { cascade = true }

unfoldable pub orphans : StopOption
orphans cfg = record cfg { orphans = true }

apply_stop : StopConfig → List StopOption → StopConfig
apply_stop cfg [] = cfg
apply_stop cfg (opt ∷ opts) = apply_stop (opt cfg) opts

unfoldable pub apply_stop_options : List StopOption → StopConfig
unfolding apply_stop
apply_stop_options opts = apply_stop zero_stop opts
