-- ===== src/Groups/Live.antt =====
-- What a stop without a teardown, as StopGroup makes it, leaves of the instance.
use gorch.Base.{
  if◌then◌else◌, Bool, Bool-cases, true, false, not, Option, none, some, ◌≡◌, refl, ap, ◌∙◌, inl,
  inr, arith,
}
use gorch.Entry.{has_live_instance}
use gorch.Lifecycle.{set_field, set_status, begin_stop, account_stop, finish_stop}
use gorch.Lifecycle.Same.{Same, set_status_err-Same, run_stop_sequence-Same}
use gorch.Lifecycle.Stopped.Ends.{stop_one_service-stopped}
use gorch.Runtime.{Runtime, Chan}
use gorch.Lifecycle.Stop.{
  Run, run_stop_sequence, no_deadline, stop_one_service_deadline, commit, stop_one_service,
}
use gorch.Membership.{claim, already}
use gorch.Orchestrator.{Ref, Orchestrator}
use gorch.Service.Errors.{Error, ok}
use gorch.Status.{ServiceStatus, is_succeeded, is_running, stopping, stopped}

-- The exit channel of an entry and the runtime are the same.
record Kept (o : Orchestrator) (r : Ref) (o' : Orchestrator) : Type 0 where
  same_done : (o'.store r).done ≡ (o.store r).done
  same_rt : o'.rt ≡ o.rt

Kept-by : {o a b : Orchestrator} (r : Ref) → Kept o r a → Same a b → Kept o r b
Kept-by r k s = record {
  same_done = ap (λ st. (st r).done) s.same_store ∙ k.same_done;
  same_rt = s.same_rt ∙ k.same_rt;
}

set_status-Kept :
    (o a : Orchestrator) (r : Ref) (s : ServiceStatus) → Kept o r a → Kept o r (set_status a r s)
unfolding set_status
set_status-Kept o a r s k =
    Kept-by {a = set_field a r s} r
      (record { same_done = ground (arith, k.same_done); same_rt = k.same_rt })
      (set_status_err-Same a r s none)

begin_stop-Kept : (o : Orchestrator) (r : Ref) → Kept o r (begin_stop o r).0
unfolding begin_stop
begin_stop-Kept o r = pick (is_succeeded (o.store r).status)
  where
    pick : (b : Bool) → Kept o r (if b then o else set_status o r stopping)
    pick true = record { same_done = refl; same_rt = refl }
    pick false = set_status-Kept o o r stopping (record { same_done = refl; same_rt = refl })

account_stop-Kept : (o a : Orchestrator) (r : Ref) → Kept o r a → Kept o r (account_stop a r)
unfolding account_stop
account_stop-Kept o a r k = elim (Bool-cases (a.store r).stops_counted) [
  | inl e ↦ rw (e, account_stop) k
  | inr e ↦
      rw (e, account_stop) (record { same_done = ground (arith, k.same_done); same_rt = k.same_rt })
]

finish_stop-Kept :
    (o a : Orchestrator) (r : Ref) (b : Bool) → Kept o r a → Kept o r (finish_stop a r b)
unfolding finish_stop
finish_stop-Kept o a r b k = pick (is_succeeded (a.store r).status) b
  where
    set : Kept o r (set_status a r stopped)
    set = set_status-Kept o a r stopped k

    pick :
        (c d : Bool)
        → Kept o r (
            if c
            then a
            else if d
            then account_stop (set_status a r stopped) r
            else set_status a r stopped)
    pick true d = k
    pick false true = account_stop-Kept o (set_status a r stopped) r set
    pick false false = set

stop_one_service-Kept :
    (o : Orchestrator) (r : Ref) (hook stop : Run) → Kept o r (stop_one_service o r hook stop).0
unfolding stop_one_service stop_one_service_deadline commit
stop_one_service-Kept o r hook stop = pick ran.2
  where
    begun : Orchestrator
    begun = (begin_stop o r).0

    ran : Orchestrator × Option Error × Bool
    ran = run_stop_sequence begun r false hook stop

    swept : Kept o r ran.0
    swept = Kept-by r (begin_stop-Kept o r) (run_stop_sequence-Same begun r false hook stop)

    pick : (b : Bool) → Kept o r (if b then finish_stop ran.0 r (begin_stop o r).1 else ran.0)
    pick true = finish_stop-Kept o ran.0 r (begin_stop o r).1 swept
    pick false = swept

-- A stop as StopGroup makes it, where its hook and its Stop return: the entry is reported Stopped, but
-- no context is cancelled and nothing is awaited, so that an instance that runs still runs, and a
-- StartService that comes then finds nothing to do.
pub stop_one_service-live :
    (o : Orchestrator) (r : Ref) (hook stop : Run)
    → is_succeeded (o.store r).status ≡ false
    → has_live_instance o.rt (o.store r) ≡ true
    → (stop_one_service_deadline o r no_deadline hook stop).2 ≡ true
    → let o' = (stop_one_service o r hook stop).0 in
      ((o'.store r).status ≡ stopped)
      × (o'.rt ≡ o.rt)
      × (has_live_instance o'.rt (o'.store r) ≡ true)
      × ((claim o' (ok r)).1 ≡ already)
stop_one_service-live o r hook stop down live done =
    let o' = (stop_one_service o r hook stop).0 in
    let kept = stop_one_service-Kept o r hook stop in
    let is_stopped = stop_one_service-stopped o r hook stop down done in
    let still : has_live_instance o'.rt (o'.store r) ≡ true =
      ap (λ d. live_by d o'.rt) kept.same_done
      ∙ ap (live_by (o.store r).done) kept.same_rt
      ∙ live in
    (is_stopped, kept.same_rt, still, left_alone o' (ap is_running is_stopped) still)
  where
    live_by : Option Chan → Runtime → Bool
    live_by d rt = elim d [ none ↦ false | some c ↦ not (rt.closed c) ]

    left_alone :
        (a : Orchestrator)
        → is_running (a.store r).status ≡ false
        → has_live_instance a.rt (a.store r) ≡ true
        → (claim a (ok r)).1 ≡ already
    left_alone a h k = rw (h, k) refl
