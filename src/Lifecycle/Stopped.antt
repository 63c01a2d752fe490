-- ===== src/Lifecycle/Stopped.antt =====
-- What the stop of one entry leaves: its status, the stop metric and the error.
pub mod Bills
pub mod Ends
pub mod Exits
use gorch.Base.{
  ℕ, suc, if◌then◌else◌, Bool, Bool-cases, true, false, not, ◌&&◌, Option, none, some, ite,
  name_discrete, ◌≡◌, refl, sym, ap, subst, ◌∙◌, inl, inr, arith,
}
use gorch.Lifecycle.{is_set, set_status, begin_stop, account_stop, finish_stop, record_abandoned}
use gorch.Lifecycle.Same.{
  Same, set_status_err-Same, run_stop_sequence-Same, run_stop_sequence-error,
}
use gorch.Lifecycle.Stop.{
  Run, Deadline, no_deadline, met, missed, stop_one_service_deadline, commit, cut_off, drain_ticks,
  cancel_entry, remove_cron_entry, stop_entry, stop_one_service,
}
use gorch.Orchestrator.{Ref, Orchestrator}
use gorch.Service.Errors.{Error, join?, wraps, stop_timeout}
use gorch.Status.{ServiceStatus, is_succeeded, is_active, stopping, stopped}

-- The status and the latch of an entry, and the stops counted.
pub record Facts (o : Orchestrator) (r : Ref) (s : ServiceStatus) (c : Bool) (n : ℕ) : Type 0 where
  pub has_status : (o.store r).status ≡ s
  pub has_latch : (o.store r).stops_counted ≡ c
  pub has_stops : o.metrics.stops ≡ n

pub Same-Facts :
    {o o' : Orchestrator} (r : Ref) {s : ServiceStatus} {c : Bool} {n : ℕ}
    → Same o o'
    → Facts o r s c n
    → Facts o' r s c n
Same-Facts r k f = record {
  has_status = ap (λ st. (st r).status) k.same_store ∙ f.has_status;
  has_latch = ap (λ st. (st r).stops_counted) k.same_store ∙ f.has_latch;
  has_stops = k.same_stops ∙ f.has_stops;
}

pub set_status-Facts :
    (o : Orchestrator) (r : Ref) (s s' : ServiceStatus) (c : Bool) (n : ℕ)
    → Facts o r s c n
    → Facts (set_status o r s') r s' c n
unfolding set_status
set_status-Facts o r s s' c n f = Same-Facts r (set_status_err-Same o r s' none) (record {
  has_status = ground arith;
  has_latch = ground (arith, f.has_latch);
  has_stops = f.has_stops;
})

abbrev pub after_begin : ServiceStatus → ServiceStatus
after_begin s = if is_succeeded s then s else stopping

pub begin_stop-Facts :
    (o : Orchestrator) (r : Ref) (s : ServiceStatus) (c : Bool) (n : ℕ)
    → Facts o r s c n
    → Facts (begin_stop o r).0 r (after_begin s) c n
unfolding begin_stop
begin_stop-Facts o r s c n f = elim (Bool-cases (is_succeeded s)) [
  | inl e ↦ rw (ap is_succeeded f.has_status ∙ e, begin_stop) (rw e f)
  | inr e ↦
      rw (ap is_succeeded f.has_status ∙ e, begin_stop)
        (rw e (set_status-Facts o r s stopping c n f))
]

abbrev pub after_finish : ServiceStatus → ServiceStatus
after_finish s = if is_succeeded s then s else stopped

-- The stops that a finished stop counts.
abbrev pub stops_after : ServiceStatus → Bool → Bool → ℕ → ℕ
stops_after s was_active c n = if not (is_succeeded s) && was_active && not c then suc n else n

pub account_stop-Facts :
    (o : Orchestrator) (r : Ref) (s : ServiceStatus) (c : Bool) (n : ℕ)
    → Facts o r s c n
    → Facts (account_stop o r) r s true (if not c then suc n else n)
unfolding account_stop
account_stop-Facts o r s true n f = rw (f.has_latch, account_stop) f
account_stop-Facts o r s false n f =
    rw (f.has_latch, account_stop)
      (record {
        has_status = ground (arith, f.has_status);
        has_latch = ground arith;
        has_stops = ap suc f.has_stops;
      })

pub finish_stop-Facts :
    (o : Orchestrator) (r : Ref) (was_active : Bool) (s : ServiceStatus) (c : Bool) (n : ℕ)
    → Facts o r s c n
    → ((finish_stop o r was_active).store r).status ≡ after_finish s
      × ((finish_stop o r was_active).metrics.stops ≡ stops_after s was_active c n)
unfolding finish_stop
finish_stop-Facts o r was_active s c n f = elim (Bool-cases (is_succeeded s)) [
  | inl e ↦ rw (ap is_succeeded f.has_status ∙ e, finish_stop) (rw e (f.has_status, f.has_stops))
  | inr e ↦
      let set = set_status-Facts o r s stopped c n f in
      rw (ap is_succeeded f.has_status ∙ e, finish_stop) (rw e (counted was_active set))
]
  where
    counted :
        (b : Bool)
        → Facts (set_status o r stopped) r stopped c n
        → (((if b then account_stop (set_status o r stopped) r else set_status o r stopped).store
              r).status
            ≡ stopped)
          × ((if b
                then account_stop (set_status o r stopped) r
                else set_status o r stopped).metrics.stops
              ≡ (if b && not c then suc n else n))
    counted true g =
        let a = account_stop-Facts (set_status o r stopped) r stopped c n g in
        (a.has_status, a.has_stops)
    counted false g = (g.has_status, g.has_stops)

pub cut_off-Facts :
    (o : Orchestrator) (r : Ref)
    → Facts (cut_off o r) r (o.store r).status (o.store r).stops_counted o.metrics.stops
unfolding cut_off drain_ticks remove_cron_entry
cut_off-Facts o r = pick (name_discrete (o.store r).cfg.cron_spec "")
  where
    drained : Orchestrator
    drained = drain_ticks (remove_cron_entry (cancel_entry o r) r) r

    pick :
        (d : Dec ((o.store r).cfg.cron_spec ≡ ""))
        → Facts
            (ite d (cancel_entry o r) drained)
            r
            (o.store r).status
            (o.store r).stops_counted
            o.metrics.stops
    pick (yes e) = record { has_status = refl; has_latch = refl; has_stops = refl }
    pick (no k) = record { has_status = ground arith; has_latch = ground arith; has_stops = refl }
