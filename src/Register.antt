-- ===== src/Register.antt =====
-- register.go: registration before Start and on a running orchestrator (a hot add).
pub mod Insert
pub mod Acyclic
pub mod Checks
pub mod Admitted
pub mod Parts
pub mod Outcome
pub mod Race
use Prim.Native.String.{◌++◌ as append}
use gorch.Base.{
  ℕ, zero, suc, ◌/◌, ◌%◌, ◌==◌, ltb, if◌then◌else◌, Bool, true, false, not, ◌&&◌, ◌||◌, List, [],
  ◌∷◌, ◌++◌, Option, none, some, Name, name_discrete, ite,
}
use gorch.Entry.{ServiceEntry, new_entry}
use gorch.Graph.{lookup_entry, depends_on_path}
use gorch.Orchestrator.{Ref, Orchestrator, write, write_name}
use gorch.Service.{Func, func_service, Service, RegisterConfig, RegisterOption}
use gorch.Service.Errors.{
  Error, Result, ok, err, wraps, reject_if, ◌>>=◌, ◌>>◌, Call, call_err, unsupported_option,
  invalid_cron, duplicate_name, dependency_cycle, dependency_not_found, dependency_removing,
  orchestrator_stopping, orchestrator_stopped, nil_service,
}
use gorch.Service.Options.{apply_register_options, with_name}

abbrev digit : ℕ → Name
digit n =
    if n == 0
    then "0"
    else if n == 1
    then "1"
    else if n == 2
    then "2"
    else if n == 3
    then "3"
    else if n == 4
    then "4"
    else if n == 5
    then "5"
    else if n == 6
    then "6"
    else if n == 7
    then "7"
    else if n == 8
    then "8"
    else "9"

-- %d of a number, on fuel above its value.
decimal : ℕ → ℕ → Name
decimal zero n = ""
decimal (suc fuel) n =
    let rest = append (decimal fuel (n / 10)) (digit (n % 10)) in if ltb n 10 then digit n else rest

-- fmt.Sprintf("$%d", seq)
unfoldable pub auto_name : ℕ → Name
unfolding decimal
auto_name seq = append "$" (decimal (suc seq) seq)

abbrev pub is_empty : Name → Bool
is_empty n = ite (name_discrete n "") true false

abbrev pub is_some {ℓ} : {A : Type ℓ} → Option A → Bool
is_some none = false
is_some (some _) = true

-- What follows the lookups of a dependency: the check for a path back to the new name.
abbrev pub no_path_back : Orchestrator → Ref → Name → Result (Unit {0})
no_path_back o r name = do found ← depends_on_path o (some r) name; reject_if found dependency_cycle

abbrev pub check_hard : Orchestrator → Name → Name → Result (Unit {0})
check_hard o name dep =
    ite (name_discrete dep name) (err (wraps dependency_cycle)) (elim (lookup_entry o dep) [
      | none ↦ err (wraps dependency_not_found)
      | some r ↦ do reject_if (o.store r).removing dependency_removing; no_path_back o r name
    ])

abbrev pub check_soft : Orchestrator → Name → Name → Result (Unit {0})
check_soft o name dep =
    ite (name_discrete dep name) (err (wraps dependency_cycle))
      (elim (lookup_entry o dep) [ none ↦ ok tt | some r ↦ no_path_back o r name ])

-- A loop over dependencies that stops at the first error.
unfoldable pub check_each : (Name → Result (Unit {0})) → List Name → Result (Unit {0})
check_each check [] = ok tt
check_each check (dep ∷ deps) = let rest = check_each check deps in check dep >> rest

-- The checks of a named configuration against the graph.
unfoldable pub check_graph : Orchestrator → RegisterConfig → Result RegisterConfig
unfolding check_each
check_graph o cfg = do
  reject_if (is_some (o.name_index cfg.name)) duplicate_name
  check_each (check_hard o cfg.name) cfg.depends_on
  check_each (check_soft o cfg.name) cfg.soft_depends_on
  ok cfg

abbrev pub named : Orchestrator → RegisterConfig → RegisterConfig
named o cfg = record cfg {
  name = if is_empty cfg.name then auto_name (suc o.auto_seq) else cfg.name;
}

-- The state changes by the sequence number only, and only once the option checks have passed.
abbrev pub name_and_check :
    Orchestrator → RegisterConfig → Result (Unit {0}) → Orchestrator × Result RegisterConfig
name_and_check o cfg (err e) = (o, err e)
name_and_check o cfg (ok _) = (record o { auto_seq = suc o.auto_seq }, check_graph o (named o cfg))

module _ (parses : Name → Bool) where
  -- validateCronSpec: `parses` is cronSpecParser.Parse of robfig/cron.
  abbrev pub validate_cron_spec : Name → Result (Unit {0})
  validate_cron_spec spec = reject_if (not (parses spec)) invalid_cron

  -- The checks that come before the name.
  abbrev pub check_options : RegisterConfig → Result (Unit {0})
  check_options cfg = do
    reject_if (is_some cfg.factory && (not (is_empty cfg.cron_spec) || cfg.run_once))
        unsupported_option
    if cfg.cron_set then validate_cron_spec cfg.cron_spec else ok tt

  unfoldable pub validate_register_config_locked :
      Orchestrator → RegisterConfig → Orchestrator × Result RegisterConfig
  unfolding check_graph
  validate_register_config_locked o cfg = name_and_check o cfg (check_options cfg)

-- A new entry at the end of the list and under its name.
abbrev pub insert_entry : Orchestrator → ServiceEntry → Orchestrator
insert_entry o e = record o {
  entries = o.entries ++ o.next_ref ∷ [];
  name_index = write_name o.name_index e.name (some o.next_ref);
  store = write o.store o.next_ref e;
  next_ref = suc o.next_ref;
}

unfoldable pub append_static_entry_locked : Orchestrator → Service → RegisterConfig → Orchestrator
unfolding new_entry
append_static_entry_locked o svc cfg = insert_entry o (new_entry svc cfg)

unfoldable pub membership_gate_locked : Orchestrator → Result (Unit {0})
membership_gate_locked o = do
  reject_if o.stopping orchestrator_stopping
  reject_if o.stopped orchestrator_stopped

-- A hot add binds the entry's logger at once.
abbrev pub commit_if :
    Orchestrator → Service → RegisterConfig → Result (Unit {0}) → Orchestrator × Result (Unit {0})
unfolding new_entry
commit_if o svc cfg (err e) = (o, err e)
commit_if o svc cfg (ok _) =
    (insert_entry o (record (new_entry svc cfg) { logger = some cfg.name }), ok tt)

unfoldable pub commit_dynamic_locked :
    Orchestrator → Service → RegisterConfig → Orchestrator × Result (Unit {0})
unfolding membership_gate_locked
commit_dynamic_locked o svc cfg =
    commit_if o svc cfg
      (membership_gate_locked o >> reject_if (is_some (o.name_index cfg.name)) duplicate_name)

-- A registration gives the lock back where it has found the orchestrator started, and around a call of
-- Validate: the time in between, with the configuration that the next part goes on with.
pub data Phase : Type 0 where
  finished : Result (Unit {0}) → Phase
  waiting_static waiting_dynamic : Service → RegisterConfig → Phase

-- What Register has found under its first lock: a started orchestrator, or it has gone on.
pub data Found : Type 0 where
  found_started : Service → RegisterConfig → Found
  gone_on : Phase → Found

-- Validate, append, under one lock.
abbrev pub append_valid :
    Service → Orchestrator × Result RegisterConfig → Orchestrator × Result (Unit {0})
unfolding append_static_entry_locked
append_valid svc (o, err e) = (o, err e)
append_valid svc (o, ok cfg) = (append_static_entry_locked o svc cfg, ok tt)

abbrev pub commit_valid :
    Service → Orchestrator × Result RegisterConfig → Orchestrator × Result (Unit {0})
unfolding commit_dynamic_locked
commit_valid svc (o, err e) = (o, err e)
commit_valid svc (o, ok cfg) = commit_dynamic_locked o svc cfg

abbrev pub finish : Orchestrator × Result (Unit {0}) → Orchestrator × Phase
finish (o, r) = (o, finished r)

abbrev pub wait_dynamic : Service → Orchestrator × Result RegisterConfig → Orchestrator × Phase
wait_dynamic svc (o, err e) = (o, finished (err e))
wait_dynamic svc (o, ok cfg) = (o, waiting_dynamic svc cfg)

-- callErr(v.Validate), if the service is a Validator; `call` is what the call does.
abbrev pub validation : Service → Call → Option Error
unfolding call_err
validation svc call = elim svc.validator [ none ↦ none | some _ ↦ call_err call ]

abbrev pub unless :
    Option Error
    → Orchestrator
    → Orchestrator × Result (Unit {0})
    → Orchestrator × Result (Unit {0})
unless (some e) o rest = (o, err e)
unless none o rest = rest

module _ (parses : Name → Bool) where
  -- The first critical section of registerDynamicCfg, at what the gate says.
  abbrev pub begin_dynamic :
      Orchestrator → Service → RegisterConfig → Result (Unit {0}) → Orchestrator × Phase
  unfolding validate_register_config_locked
  begin_dynamic o svc cfg (err e) = (o, finished (err e))
  begin_dynamic o svc cfg (ok _) = wait_dynamic svc (validate_register_config_locked parses o cfg)

  abbrev pub begin_static :
      Orchestrator → Service → RegisterConfig → Option Func → Orchestrator × Phase
  unfolding validate_register_config_locked
  begin_static o svc cfg (some _) = (o, waiting_static svc cfg)
  begin_static o svc cfg none =
      finish (append_valid svc (validate_register_config_locked parses o cfg))

  -- Register up to the point where it gives the lock back for the first time.
  unfoldable pub register_begin :
      Orchestrator → Option Service → List RegisterOption → Orchestrator × Found
  unfolding apply_register_options
  register_begin o none opts = (o, gone_on (finished (err (wraps nil_service))))
  register_begin o (some svc) opts =
      let cfg = apply_register_options opts in
      let static = begin_static o svc cfg svc.validator in
      if o.started then (o, found_started svc cfg) else (static.0, gone_on static.1)

  -- The first critical section of registerDynamicCfg, for a service that goes there.
  unfoldable pub register_check : Orchestrator → Found → Orchestrator × Phase
  unfolding membership_gate_locked
  register_check o (found_started svc cfg) = begin_dynamic o svc cfg (membership_gate_locked o)
  register_check o (gone_on phase) = (o, phase)

  -- The rest, on the state that the lock is taken again in.
  unfoldable pub register_finish : Orchestrator → Phase → Call → Orchestrator × Result (Unit {0})
  unfolding validate_register_config_locked commit_dynamic_locked
  register_finish o (finished r) call = (o, r)
  register_finish o (waiting_static svc cfg) call =
      let checked = validate_register_config_locked parses o cfg in
      unless (validation svc call) o
        (if o.started then commit_valid svc checked else append_valid svc checked)
  register_finish o (waiting_dynamic svc cfg) call =
      unless (validation svc call) o (commit_dynamic_locked o svc cfg)

  -- A registration with nothing of another goroutine between its parts.
  unfoldable pub register :
      Orchestrator → Option Service → List RegisterOption → Call → Orchestrator × Result (Unit {0})
  unfolding register_begin register_check register_finish
  register o svc opts call =
      let begun = register_begin o svc opts in
      let checked = register_check begun.0 begun.1 in register_finish checked.0 checked.1 call

  -- RegisterFunc: the options of the caller come after the name.
  unfoldable pub register_func :
      Orchestrator
      → Name
      → Option Func
      → Func
      → List RegisterOption
      → Call
      → Orchestrator × Result (Unit {0})
  unfolding register with_name
  register_func o name none stop_fn opts call = (o, err (wraps nil_service))
  register_func o name (some start_fn) stop_fn opts call =
      register o (some (func_service start_fn stop_fn)) (with_name name ∷ opts) call
