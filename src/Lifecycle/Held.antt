-- ===== src/Lifecycle/Held.antt =====
-- What a stop leaves of an entry beside its status: its service and its marks.
use gorch.Base.{
  ℕ, if◌then◌else◌, Bool, Bool-cases, true, false, List, [], ◌∷◌, none, ite, name_discrete, ◌≡◌,
  refl, ap, ◌∙◌, inl, inr, arith,
}
use gorch.Entry.{take_owners}
use gorch.Lifecycle.{
  set_field, set_status, begin_stop, account_stop, finish_stop, record_abandoned, drain_owners,
  drain_service,
}
use gorch.Lifecycle.Same.{Same, set_status_err-Same, run_stop_sequence-Same}
use gorch.Lifecycle.Stop.{
  Run, Deadline, no_deadline, met, missed, stop_one_service_deadline, cut_off, cancel_entry,
  remove_cron_entry, drain_ticks,
}
use gorch.Messenger.{drain_owner}
use gorch.Orchestrator.{Ref, Orchestrator, modify}
use gorch.Status.{ServiceStatus, is_succeeded, stopping, stopped}

-- The service of an entry and its marks are the same.
pub record Held (r : Ref) (a b : Orchestrator) : Type 0 where
  pub same_svc : (b.store r).svc ≡ (a.store r).svc
  pub same_starting : (b.store r).starting ≡ (a.store r).starting
  pub same_removing : (b.store r).removing ≡ (a.store r).removing

pub drain_owners-store : (o : Orchestrator) (ids : List ℕ) → (drain_owners o ids).store ≡ o.store
unfolding drain_owners
drain_owners-store o [] = refl
drain_owners-store o (id ∷ ids) =
    drain_owners-store (record o { messenger = drain_owner o.messenger id }) ids

module _ {r : Ref} where
  infixr 5 ◌still◌
  pub ◌still◌ : {a b c : Orchestrator} → Held r a b → Held r b c → Held r a c
  p still q = record {
    same_svc = q.same_svc ∙ p.same_svc;
    same_starting = q.same_starting ∙ p.same_starting;
    same_removing = q.same_removing ∙ p.same_removing;
  }

  pub Held-refl : (o : Orchestrator) → Held r o o
  Held-refl o = record { same_svc = refl; same_starting = refl; same_removing = refl }

  Same-Held : {a b : Orchestrator} → Same a b → Held r a b
  Same-Held s = record {
    same_svc = ap (λ st. (st r).svc) s.same_store;
    same_starting = ap (λ st. (st r).starting) s.same_store;
    same_removing = ap (λ st. (st r).removing) s.same_store;
  }

  pub set_status-Held : (o : Orchestrator) (s : ServiceStatus) → Held r o (set_status o r s)
  unfolding set_status
  set_status-Held o s =
      let written : Held r o (set_field o r s) = record {
        same_svc = ground arith;
        same_starting = ground arith;
        same_removing = ground arith;
      } in
      written still Same-Held (set_status_err-Same o r s none)

  begin_stop-Held : (o : Orchestrator) → Held r o (begin_stop o r).0
  unfolding begin_stop
  begin_stop-Held o = pick (is_succeeded (o.store r).status)
    where
      pick : (b : Bool) → Held r o (if b then o else set_status o r stopping)
      pick true = Held-refl o
      pick false = set_status-Held o stopping

  pub account_stop-Held : (o : Orchestrator) → Held r o (account_stop o r)
  unfolding account_stop
  account_stop-Held o = elim (Bool-cases (o.store r).stops_counted) [
    | inl e ↦ rw (e, account_stop) (Held-refl o)
    | inr e ↦
        rw (e, account_stop)
          (record {
            same_svc = ground arith;
            same_starting = ground arith;
            same_removing = ground arith;
          })
  ]

  pub finish_stop-Held : (o : Orchestrator) (b : Bool) → Held r o (finish_stop o r b)
  unfolding finish_stop
  finish_stop-Held o b = pick (is_succeeded (o.store r).status) b
    where
      pick :
          (c d : Bool)
          → Held r o (
              if c
              then o
              else if d
              then account_stop (set_status o r stopped) r
              else set_status o r stopped)
      pick true d = Held-refl o
      pick false true = set_status-Held o stopped still account_stop-Held (set_status o r stopped)
      pick false false = set_status-Held o stopped

  pub sequence-Held :
      (o : Orchestrator) (d : Deadline) (hook stop : Run)
      → Held r o (stop_one_service_deadline o r d hook stop).0
  unfolding stop_one_service_deadline record_abandoned
  sequence-Held o missed hook stop =
      begin_stop-Held o still record { same_svc = refl; same_starting = refl; same_removing = refl }
  sequence-Held o met hook stop =
      begin_stop-Held o still Same-Held (run_stop_sequence-Same (begin_stop o r).0 r true hook stop)
  sequence-Held o no_deadline hook stop =
      begin_stop-Held o
      still Same-Held (run_stop_sequence-Same (begin_stop o r).0 r false hook stop)

  pub cut_off-Held : (o : Orchestrator) → Held r o (cut_off o r)
  unfolding cut_off drain_ticks remove_cron_entry
  cut_off-Held o = pick (name_discrete (o.store r).cfg.cron_spec "")
    where
      pick :
          (d : Dec ((o.store r).cfg.cron_spec ≡ ""))
          → Held r o
              (ite d (cancel_entry o r) (drain_ticks (remove_cron_entry (cancel_entry o r) r) r))
      pick (yes e) = record { same_svc = refl; same_starting = refl; same_removing = refl }
      pick (no n) = record {
        same_svc = ground arith;
        same_starting = ground arith;
        same_removing = ground arith;
      }

  pub drain_service-Held : (o : Orchestrator) → Held r o (drain_service o r)
  unfolding drain_service take_owners
  drain_service-Held o =
      let taken = modify o r (λ e. record e { owners = [] }) in
      let same = drain_owners-store taken (o.store r).owners in
      record {
        same_svc = ap (λ st. (st r).svc) same ∙ ground arith;
        same_starting = ap (λ st. (st r).starting) same ∙ ground arith;
        same_removing = ap (λ st. (st r).removing) same ∙ ground arith;
      }
