-- ===== src/Status.antt =====
-- health.go: the lifecycle states of a service and their names.
use gorch.Base.{Name, Bool, true, false}

-- StatusRegistered to StatusSucceeded, in the order of the iota block.
pub data ServiceStatus : Type 0 where
  registered starting running stopping stopped crashed succeeded : ServiceStatus

unfoldable pub string : ServiceStatus → Name
string registered = "registered"
string starting = "starting"
string running = "running"
string stopping = "stopping"
string stopped = "stopped"
string crashed = "crashed"
string succeeded = "succeeded"

unfoldable pub ServiceStatus-discrete : Discrete ServiceStatus
ServiceStatus-discrete = hlevel

-- The two tests that the code makes of a status.
abbrev pub is_running : ServiceStatus → Bool
is_running running = true
is_running _ = false

abbrev pub is_succeeded : ServiceStatus → Bool
is_succeeded succeeded = true
is_succeeded _ = false

abbrev pub is_stopping : ServiceStatus → Bool
is_stopping stopping = true
is_stopping _ = false

-- s == StatusRunning || s == StatusStarting
abbrev pub is_active : ServiceStatus → Bool
is_active running = true
is_active starting = true
is_active _ = false

-- s == StatusRunning || s == StatusSucceeded: what satisfies a hard dependency.
abbrev pub satisfies : ServiceStatus → Bool
satisfies running = true
satisfies succeeded = true
satisfies _ = false
