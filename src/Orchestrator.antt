-- ===== src/Orchestrator.antt =====
-- orchestrator.go: the state that the operations share. Entries are pointers into a store, as the
-- list and the name index of the program hold pointers to the same entries.
pub mod Registry
use gorch.Base.{
  ℕ, ◌==◌, if◌then◌else◌, Bool, List, [], ◌∷◌, Option, none, some, Name, name_discrete, ite,
}
use gorch.Config.{Config}
use gorch.Entry.{ServiceEntry}
use gorch.Messenger.{Messenger}
use gorch.Runtime.{Runtime, Context}
use gorch.Service.{Func}
use gorch.Service.Errors.{Error}
use gorch.Status.{ServiceStatus}

-- A *serviceEntry.
abbrev pub Ref : Type 0
Ref = ℕ

pub record Metrics : Type 0 where
  pub starts : ℕ
  pub stops : ℕ
  pub crashes : ℕ
  pub restarts : ℕ
  pub health_fails : ℕ
  pub cron_failures : ℕ
  pub abandoned_goroutines : ℕ

-- A call of a hook whose outcome the program drops.
pub data Callback : Type 0 where
  on_state_change : Name → ServiceStatus → ServiceStatus → Callback
  on_crash : Name → Error → Callback
  after_start : Func → Name → Option Error → Callback
  after_stop : Func → Name → Option Error → Callback
  after_health_check : Name → Option Error → Callback

-- `calls` are the callbacks made, last first. `wg` is the WaitGroup's counter, and `wg_panic` is set
-- by a Done at 0. A once is spent or not.
pub record Orchestrator : Type 0 where
  pub cfg : Config
  pub started : Bool
  pub start_claimed : Bool
  pub stopping : Bool
  pub stopped : Bool
  pub entries : List Ref
  pub name_index : Name → Option Ref
  pub auto_seq : ℕ
  pub owner_seq : ℕ
  pub metrics : Metrics
  pub store : Ref → ServiceEntry
  pub next_ref : Ref
  pub rt : Runtime
  pub ctx : Option Context
  pub wg : ℕ
  pub wg_panic : Bool
  pub start_once : Bool
  pub stop_once : Bool
  pub shutdown_done : Bool
  pub messenger : Messenger
  pub calls : List Callback

-- A write to one entry.
abbrev pub write : (Ref → ServiceEntry) → Ref → ServiceEntry → Ref → ServiceEntry
write store r e j = if j == r then e else store j

-- nameIndex[name] = v, and delete(nameIndex, name) for none.
abbrev pub write_name : (Name → Option Ref) → Name → Option Ref → Name → Option Ref
write_name index name v n = ite (name_discrete n name) v (index n)

abbrev pub find_named : (Ref → ServiceEntry) → Name → List Ref → Option Ref
find_named store name [] = none
find_named store name (r ∷ rs) =
    ite (name_discrete (store r).cfg.name name) (some r) (find_named store name rs)

abbrev pub modify : Orchestrator → Ref → (ServiceEntry → ServiceEntry) → Orchestrator
modify o r f = record o { store = write o.store r (f (o.store r)) }

abbrev pub notify : Orchestrator → Callback → Orchestrator
notify o c = record o { calls = c ∷ o.calls }
