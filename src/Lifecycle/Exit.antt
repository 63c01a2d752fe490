-- ===== src/Lifecycle/Exit.antt =====
-- lifecycle.go: handleServiceDone, from the end of an instance's Start to its own end or to the next
-- instance of the entry.
use gorch.Base.{ℕ, suc, if◌then◌else◌, Bool, true, false, not, ◌&&◌, Option, none, some, pos, ltb_ℤ}
use gorch.Entry.{teardown_active, release_teardown_if}
use gorch.Lifecycle.{
  is_failure, set_status, set_status_err, account_stop, release_owner, new_owner, ctx_done,
  release_wg,
}
use gorch.Lifecycle.Stop.{Run, run_stop_sequence}
use gorch.Orchestrator.{Ref, Orchestrator, modify}
use gorch.Runtime.{Context, Chan, has_err, with_cancel, new_context, cancel?, make_chan, close_chan}
use gorch.Service.{Service}
use gorch.Service.Errors.{Error}
use gorch.Status.{running, stopped, crashed}

unfoldable pub is_torn_down : Orchestrator → Ref → Bool
unfolding teardown_active
is_torn_down o r = teardown_active o.rt (o.store r)

unfoldable pub count_stopped : Orchestrator → Ref → Orchestrator
unfolding set_status account_stop
count_stopped o r = account_stop (set_status o r stopped) r

-- The status that an instance with no self-heal leaves.
unfoldable pub settle : Orchestrator → Ref → Option Error → Orchestrator
unfolding set_status_err
settle o r exit =
    if (o.store r).removing
    then o
    else if is_torn_down o r
    then count_stopped o r
    else if is_failure exit
    then set_status_err o r crashed exit
    else count_stopped o r

unfoldable pub release_teardown : Orchestrator → Ref → Option Context → Orchestrator
unfolding release_teardown_if
release_teardown o r ctx =
    let released = release_teardown_if o.rt (o.store r) ctx in
    record (modify o r (λ e. released.1)) { rt = released.0 }

-- The branch with no factory. The deferred releases run last.
unfoldable pub plain_exit : Orchestrator → Ref → Option Error → ℕ → Orchestrator
unfolding release_wg release_owner
plain_exit o r exit owner =
    let settled = if ctx_done o then o else settle o r exit in
    release_owner (release_teardown (release_wg settled r) r (o.store r).teardown) r owner

-- What the branch with a factory comes to before its wait: a panic on a nil o.ctx, the end of the
-- instance, or a wait for a backoff or for the context.
pub data HealExit : Type 0 where
  panic : HealExit
  ended : Orchestrator → HealExit
  waits : Orchestrator → Context → HealExit

unfoldable pub end_instance : Orchestrator → Ref → ℕ → Orchestrator
unfolding release_wg release_owner
end_instance o r owner = release_owner (release_wg o r) r owner

-- `stable` is whether the service was up for resetAfter.
abbrev pub reset_retries : Orchestrator → Ref → Bool → Orchestrator
reset_retries o r stable =
    if ltb_ℤ (pos 0) (o.store r).cfg.reset_after && stable
    then modify o r (λ e. record e { retry_count = 0 })
    else o

unfoldable pub report_crash : Orchestrator → Ref → Option Error → Orchestrator
unfolding set_status_err
report_crash o r exit =
    if is_failure exit && not (is_torn_down o r) then set_status_err o r crashed exit else o

abbrev pub retries_spent : Orchestrator → Ref → Bool
retries_spent o r =
    let e = o.store r in
    ltb_ℤ (pos 0) e.cfg.max_retries && not (ltb_ℤ (pos e.retry_count) e.cfg.max_retries)

unfoldable pub give_up : Orchestrator → Ref → Option Error → Orchestrator
unfolding set_status set_status_err
give_up o r exit =
    if (o.store r).removing
    then o
    else if is_torn_down o r
    then set_status o r stopped
    else if is_failure exit
    then o
    else set_status_err o r crashed exit

abbrev pub count_retry : Orchestrator → Ref → Orchestrator
count_retry o r = modify o r (λ e. record e { retry_count = suc e.retry_count })

unfoldable pub report_gone : Orchestrator → Ref → Option Error → Orchestrator
unfolding set_status
report_gone o r exit =
    if not (is_failure exit) && not (is_torn_down o r) then set_status o r stopped else o

abbrev pub teardown_or : Orchestrator → Ref → Context → Context
teardown_or o r instance_ctx = elim (o.store r).teardown [ none ↦ instance_ctx | some c ↦ c ]

-- The restart policy of an instance under the context `instance_ctx`.
unfoldable pub heal : Orchestrator → Ref → Option Error → ℕ → Context → HealExit
unfolding release_owner
heal o r exit owner instance_ctx =
    if retries_spent o r
    then ended (end_instance (give_up o r exit) r owner)
    else (let gone = release_owner (report_gone (count_retry o r) r exit) r owner in
        waits gone (teardown_or gone r instance_ctx))

abbrev pub heal_under :
    Orchestrator → Option Context → Ref → Option Error → ℕ → Context → Bool → HealExit
heal_under o none r exit owner instance_ctx stable = panic
heal_under o (some c) r exit owner instance_ctx stable =
    if has_err o.rt c
    then ended (end_instance o r owner)
    else heal (report_crash (reset_retries o r stable) r exit) r exit owner instance_ctx

unfoldable pub heal_exit : Orchestrator → Ref → Option Error → ℕ → Context → Bool → HealExit
heal_exit o r exit owner instance_ctx stable = heal_under o o.ctx r exit owner instance_ctx stable

-- The new instance: its own context under the teardown, its own owner and exit channel. `now` is
-- the clock. The caller starts its goroutine.
unfoldable pub install : Orchestrator → Ref → Context → Service → ℕ → Orchestrator × Chan
unfolding new_owner set_status
install o r teardown svc now =
    let ctx = with_cancel o.rt teardown in
    let fresh =
      record (modify o r (λ e. record e {
        stops_counted = false;
        svc = svc;
        logger = some e.name;
        stable_since = now;
        cancel = some ctx;
      })) { rt = new_context o.rt } in
    let owned = (new_owner fresh r).0 in
    let done = owned.rt.next_chan in
    let open_ = record (modify owned r (λ e. record e { done = some done })) {
      rt = make_chan owned.rt;
    } in
    (set_status open_ r running, done)

abbrev pub count_restart : Orchestrator → Orchestrator
count_restart o = record o { metrics = record o.metrics { restarts = suc o.metrics.restarts } }

-- Cleanup of the dead instance, and the next one of the entry.
unfoldable pub restart : Orchestrator → Ref → Context → Run → Run → Service → ℕ → Orchestrator
unfolding run_stop_sequence install
restart o r teardown hook stop svc now =
    let cut = record o { rt = cancel? o.rt (o.store r).cancel } in
    let cleaned = (run_stop_sequence cut r true hook stop).0 in
    count_restart (install cleaned r teardown svc now).0

-- A teardown that came during the wait.
unfoldable pub abandon_heal : Orchestrator → Ref → ℕ → Orchestrator
unfolding set_status
abandon_heal o r owner =
    end_instance (if (o.store r).removing then o else set_status o r stopped) r owner

-- After the wait, with true where a new instance runs. The deferred release of the dead instance's
-- owner comes last.
unfoldable pub heal_wake :
    Orchestrator → Ref → ℕ → Context → Run → Run → Service → ℕ → Orchestrator × Bool
unfolding restart release_owner
heal_wake o r owner teardown hook stop svc now =
    if has_err o.rt teardown
    then (abandon_heal o r owner, false)
    else (release_owner (restart o r teardown hook stop svc now) r owner, true)

-- spawnInstance: `done` is closed once the exit has been handled.
unfoldable pub close_done : Orchestrator → Chan → Orchestrator
close_done o done = record o { rt = close_chan o.rt done }
