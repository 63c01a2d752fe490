-- ===== src/Service.antt =====
-- service.go: what a caller hands to the orchestrator. Code of the caller (a service's methods, its
-- hooks, a factory) is known by an identity only: what a call of it does is an input of the
-- operation that makes the call.
pub mod Errors
pub mod Options
use gorch.Base.{ℕ, ℤ, Name, Bool, List, Option, none}

-- The identity of a closure or a method of the caller.
abbrev pub Func : Type 0
Func = ℕ

-- A Service, with the optional interfaces that its value implements.
pub record Service : Type 0 where
  pub start : Func
  pub stop : Func
  pub validator : Option Func
  pub health_checker : Option Func
  pub readiness_checker : Option Func

-- &funcService{startFn, stopFn}: it has the two methods and no optional interface. A nil
-- stopFn stands as a function that returns nil, as Stop then does.
abbrev pub func_service : Func → Func → Service
func_service start_fn stop_fn = record {
  start = start_fn;
  stop = stop_fn;
  validator = none;
  health_checker = none;
  readiness_checker = none;
}

-- cron.go: what an overlapping tick does.
pub data CronMode : Type 0 where
  cron_parallel cron_queue cron_skip : CronMode

pub record RegisterConfig : Type 0 where
  pub cron_spec : Name
  pub cron_mode : CronMode
  pub cron_set : Bool
  pub factory : Option Func
  pub name : Name
  pub depends_on : List Name
  pub start_timeout : ℤ
  pub run_once : Bool
  pub max_retries : ℤ
  pub backoff : Option Func
  pub reset_after : ℤ
  pub on_before_start : Option Func
  pub on_after_start : Option Func
  pub on_before_stop : Option Func
  pub on_after_stop : Option Func
  pub group : Name
  pub labels : List (Name × Name)
  pub soft_depends_on : List Name
  pub stop_timeout : ℤ
  pub start_condition : Option Func

-- A RegisterOption is a closure over the configuration.
abbrev pub RegisterOption : Type 0
RegisterOption = RegisterConfig → RegisterConfig

pub record StopConfig : Type 0 where
  pub cascade : Bool
  pub orphans : Bool

abbrev pub StopOption : Type 0
StopOption = StopConfig → StopConfig
