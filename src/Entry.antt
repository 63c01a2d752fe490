-- ===== src/Entry.antt =====
-- entry.go: the record of one registered service.
use gorch.Base.{
  ℕ, ◌==◌, if◌then◌else◌, Bool, true, false, not, ◌&&◌, ◌||◌, List, [], ◌∷◌, Option, none, some,
  Name,
}
use gorch.Status.{ServiceStatus, registered}
use gorch.Service.{Service, RegisterConfig}
use gorch.Cron.{CronTrack, zero_track, reset_cron_accounting}
use gorch.Runtime.{Runtime, Context, Chan, has_err, cancel?}

-- serviceEntry, less its mutexes. A cancel func stands as the context that it cancels, a logger as
-- the service name that it is bound to, and a goroutine id of 0 is none.
pub record ServiceEntry : Type 0 where
  pub svc : Service
  pub cfg : RegisterConfig
  pub logger : Option Name
  pub name : Name
  pub status : ServiceStatus
  pub cancel : Option Context
  pub started_at : ℕ
  pub owners : List ℕ
  pub teardown : Option Context
  pub teardown_cancel : Option Context
  pub retry_count : ℕ
  pub stable_since : ℕ
  pub health_failures : ℕ
  pub cron_id : ℕ
  pub wg_done : Bool
  pub starting : Bool
  pub removing : Bool
  pub start_goid : ℕ
  pub stop_goid : ℕ
  pub removed : Bool
  pub done : Option Chan
  pub running : Bool
  pub stops_counted : Bool
  pub track : CronTrack
  pub open track use *

unfoldable pub lifecycle_owned_by : ServiceEntry → ℕ → Bool
lifecycle_owned_by e goid = not (goid == 0) && (e.start_goid == goid || e.stop_goid == goid)

abbrev pub cancelled? : Runtime → Option Context → Bool
cancelled? rt none = false
cancelled? rt (some c) = has_err rt c

unfoldable pub teardown_active : Runtime → ServiceEntry → Bool
teardown_active rt e = if e.removing then true else cancelled? rt e.teardown

-- `entry.done` is open: an instance is live.
abbrev pub has_live_instance : Runtime → ServiceEntry → Bool
has_live_instance rt e = elim e.done [ none ↦ false | some c ↦ not (rt.closed c) ]

-- &serviceEntry{svc: svc, cfg: cfg, name: cfg.name, status: StatusRegistered}
unfoldable pub new_entry : Service → RegisterConfig → ServiceEntry
new_entry svc cfg = record {
  svc = svc;
  cfg = cfg;
  logger = none;
  name = cfg.name;
  status = registered;
  cancel = none;
  started_at = 0;
  owners = [];
  teardown = none;
  teardown_cancel = none;
  retry_count = 0;
  stable_since = 0;
  health_failures = 0;
  cron_id = 0;
  wg_done = false;
  starting = false;
  removing = false;
  start_goid = 0;
  stop_goid = 0;
  removed = false;
  done = none;
  running = false;
  stops_counted = false;
  track = zero_track;
}

unfoldable pub reset_entry_locked : Runtime → ServiceEntry → Runtime × ServiceEntry
unfolding reset_cron_accounting
reset_entry_locked rt e =
    let (rt', track) = reset_cron_accounting rt e.track in
    (
      rt',
      record e {
        status = registered;
        wg_done = false;
        cancel = none;
        done = none;
        teardown = none;
        teardown_cancel = none;
        retry_count = 0;
        health_failures = 0;
        stable_since = 0;
        stops_counted = false;
        running = false;
        start_goid = 0;
        stop_goid = 0;
        cron_id = 0;
        track = track;
      },
    )

abbrev pub same_context : Context → Context → Bool
same_context [] [] = true
same_context (a ∷ as') (b ∷ bs) = a == b && same_context as' bs
same_context _ _ = false

-- `e.teardown != ctx`, where the caller owns `ctx` (nil if it had none).
abbrev pub same? : Option Context → Option Context → Bool
same? none none = true
same? (some c) (some d) = same_context c d
same? _ _ = false

unfoldable pub release_teardown_if :
    Runtime → ServiceEntry → Option Context → Runtime × ServiceEntry
release_teardown_if rt e ctx =
    if same? e.teardown ctx
    then (cancel? rt e.teardown_cancel, record e { teardown = none; teardown_cancel = none })
    else (rt, e)

-- The set of owners: no id stands twice in it.
abbrev pub without_id : List ℕ → ℕ → List ℕ
without_id [] id = []
without_id (i ∷ is') id = let rest = without_id is' id in if i == id then rest else i ∷ rest

unfoldable pub add_owner_id : ServiceEntry → ℕ → ServiceEntry
add_owner_id e id = record e { owners = id ∷ without_id e.owners id }

unfoldable pub remove_owner_id : ServiceEntry → ℕ → ServiceEntry
remove_owner_id e id = record e { owners = without_id e.owners id }

unfoldable pub take_owners : ServiceEntry → ServiceEntry × List ℕ
take_owners e = (record e { owners = [] }, e.owners)
