-- ===== src/Replace/Swap.antt =====
-- A ReplaceService swaps the service or leaves the old one in place.
use gorch.Base.{
  if◌then◌else◌, Bool, true, false, [], Option, none, some, ◌≡◌, refl, sym, ap, subst, ◌∙◌, ◌⊎◌,
  arith,
}
use gorch.Entry.{take_owners}
use gorch.Lifecycle.{finish_stop, drain_service}
use gorch.Lifecycle.Stop.{
  Run, Deadline, Planned, commit, cut_off, Meanwhile, stop_entry, stop_entry_end,
}
use gorch.Orchestrator.{Ref, Orchestrator, modify}
use gorch.Service.{Service}
use gorch.Service.Errors.{Error, Call}
use gorch.Lifecycle.Held.{
  Held, ◌still◌, Held-refl, drain_owners-store, finish_stop-Held, sequence-Held, cut_off-Held,
  drain_service-Held,
}
use gorch.Lifecycle.Stopped.Ends.{begun_in, ran_in, ended_in, stop_entry-down}
use gorch.Membership.{set_starting}
use gorch.Replace.{
  Replacement, failed, ready, after_stop, install_service, on_validated, validate, replace_swap,
}
use gorch.Status.{ServiceStatus, is_succeeded, stopped}

-- What a drain leaves of the entry.
drained-owners : (o : Orchestrator) (r : Ref) → ((drain_service o r).store r).owners ≡ []
unfolding drain_service take_owners
drained-owners o r =
    let taken = modify o r (λ e. record e { owners = [] }) in
    ap (λ st. (st r).owners) (drain_owners-store taken (o.store r).owners) ∙ ground arith

drained-status :
    (o : Orchestrator) (r : Ref) → ((drain_service o r).store r).status ≡ (o.store r).status
unfolding drain_service take_owners
drained-status o r =
    let taken = modify o r (λ e. record e { owners = [] }) in
    ap (λ st. (st r).status) (drain_owners-store taken (o.store r).owners) ∙ ground arith

-- A stopped entry, or a gate that has succeeded.
abbrev pub IsDown : ServiceStatus → Type 0
IsDown s = (s ≡ stopped) ⊎ (is_succeeded s ≡ true)

-- The two ends of a replacement.
pub data SwapEnd (o : Orchestrator) (r : Ref) (svc : Service) : Replacement → Type 0 where
  old_kept :
      (o' : Orchestrator) (e : Error)
      → (o'.store r).svc ≡ (o.store r).svc
      → (o'.store r).starting ≡ false
      → SwapEnd o r svc (failed o' e)
  new_installed :
      (o' : Orchestrator)
      → (o'.store r).svc ≡ svc
      → (o'.store r).owners ≡ []
      → IsDown (o'.store r).status
      → (o'.store r).starting ≡ (o.store r).starting
      → SwapEnd o r svc (ready o')

-- A stop keeps the service and the marks where what runs beside it does.
stop_entry-Held :
    (o : Orchestrator) (r : Ref) (d : Deadline) (exited : Bool) (others : Meanwhile)
    (hook stop : Run)
    → Held r (cut_off o r) (begun_in o r d others hook stop)
    → Held r (ran_in o r d others hook stop).0 (ended_in o r d others hook stop)
    → Held r o (stop_entry o r d exited others hook stop).0
unfolding stop_entry stop_entry_end commit
stop_entry-Held o r d exited others hook stop first second = by_wait exited
  where
    ran : Orchestrator × Bool × Bool × Option Error
    ran = ran_in o r d others hook stop

    last : Orchestrator
    last = ended_in o r d others hook stop

    whole : Held r o last
    whole =
        cut_off-Held o
        still first
        still sequence-Held (begun_in o r d others hook stop) d hook stop
        still second

    committed : (b : Bool) → Held r last (if b then finish_stop last r ran.1 else last)
    committed true = finish_stop-Held last ran.1
    committed false = Held-refl last

    by_wait : (b : Bool) → Held r o (stop_entry_end last r ran.1 ran.2 b ran.3).0
    by_wait true = whole still committed ran.2
    by_wait false = whole

-- A ReplaceService that has taken its entry either fails, with the old service in place and the
-- reservation given back; or it installs the new service, and the entry is then Stopped, or a gate that
-- has succeeded, has no owner left and is still reserved. What other goroutines do in the stop, the
-- instance's exit among it, may be anything that leaves the entry's service and marks.
pub replace_swap-SwapEnd :
    (o : Orchestrator) (r : Ref) (svc : Service) (validation : Call) (p : Planned)
    → Held r (cut_off o r) (begun_in o r p.deadline p.others p.hook p.stop)
    → Held r
        (ran_in o r p.deadline p.others p.hook p.stop).0
        (ended_in o r p.deadline p.others p.hook p.stop)
    → SwapEnd o r svc (replace_swap o r svc validation p)
unfolding replace_swap on_validated
replace_swap-SwapEnd o r svc validation p first second = by_validation (validate svc validation)
  where
    ran : Orchestrator × Option Error
    ran = stop_entry o r p.deadline p.exited p.others p.hook p.stop

    drained : Orchestrator
    drained = drain_service ran.0 r

    held : Held r o drained
    held =
        stop_entry-Held o r p.deadline p.exited p.others p.hook p.stop first second
        still drain_service-Held ran.0

    by_stop : (e : Option Error) → ran.1 ≡ e → SwapEnd o r svc (after_stop drained r svc e)
    by_stop (some e) h = old_kept _ e (ground arith ∙ held.same_svc) (ground arith)
    by_stop none h =
        let down = stop_entry-down o r p.deadline p.exited p.others p.hook p.stop h in
        new_installed (install_service drained r svc) (ground arith)
          (ground arith ∙ drained-owners ran.0 r)
          (subst IsDown (sym (ground arith ∙ drained-status ran.0 r)) down)
          (ground arith ∙ held.same_starting)

    by_validation : (v : Option Error) → SwapEnd o r svc (on_validated o r svc p v)
    by_validation (some e) = old_kept (set_starting o r false) e (ground arith) (ground arith)
    by_validation none = by_stop ran.1 refl
