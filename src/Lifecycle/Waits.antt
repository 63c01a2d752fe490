-- ===== src/Lifecycle/Waits.antt =====
-- The wait group of the orchestrator against the goroutines that run instances, over every order of
-- the steps that lifecycle.go makes.
pub mod Steps
use gorch.Base.{
  ℕ, suc, if◌then◌else◌, true, false, Bool, Bool-cases, List, [], ◌∷◌, length, Memᴰ, Distinct,
  Option, ℕ_discrete, ◌≡◌, inl, inr, refl, sym, ap, subst, ◌∙◌, arith,
}
use gorch.Config.{Config}
use gorch.Lifecycle.{is_set, ctx_done, release_wg, wg_done_once, set_status}
use gorch.Lifecycle.Exit.{
  HealExit, ended, waits, plain_exit, heal_exit, heal_wake, end_instance, abandon_heal, restart,
  settle, release_teardown,
}
use gorch.Lifecycle.Start.{
  Instance, Window, launch, prepare, start_prelude, start_finish, run_once, Finish,
}
use gorch.Lifecycle.Steady.{
  Tally, crash_calls, Steady, Steady-refl, ◌then◌, if-Steady, set_status-Steady,
  release_owner-Steady,
}
use gorch.Lifecycle.Steady.Exits.{restart-Steady, settle-Steady, release_teardown-Steady}
use gorch.Lifecycle.Steady.Heals.{Ended, no_context, instance_ends, instance_waits, heal_exit-Ended}
use gorch.Lifecycle.Steady.Starts.{left, start_prelude-Steady, prepare-Steady, start_finish-Steady}
use gorch.Lifecycle.Stop.{
  Run, Deadline, cut_off, stop_one_service_deadline, stop_entry_end, tear_down_end,
}
use gorch.Lifecycle.Loose.{Loose, run_once-Loose}
use gorch.Membership.{filter_out}
use gorch.Membership.Remove.{filter_out-head, filter_out-mem, filter_out-Distinct}
use mathlib.Core.List.Memᴰ.{cases_cons}
use gorch.Orchestrator.{Ref, Orchestrator}
use gorch.Runtime.{Context, has_err}
use gorch.Service.{Service}
use gorch.Service.Errors.{Error, Call, Result}
use gorch.Status.{running, stopped}

-- `flight` are the entries whose instance has a goroutine: in its Start, or in handleServiceDone.
pub record Machine : Type 0 where
  pub o : Orchestrator
  pub flight : List Ref

abbrev pub machine : Orchestrator → List Ref → Machine
machine o flight = record { o = o; flight = flight }

-- The steps, each with the goroutine of an entry that makes it. The parts of
-- a stop are steps of their own, so that exits come between them: the cut, the stop sequence, and the
-- end of the wait; so is the removal of entries at the end of a teardown.
pub data Step : Machine → Machine → Type 0 where
  begins :
      (m : Machine) (r : Ref) (hook : Call) (cond : Result Bool)
      → Step m (machine (left (start_prelude m.o r hook cond)) m.flight)
  prepares :
      (m : Machine) (r : Ref) (parent : Context) (now : ℕ)
      → Step m (machine (prepare m.o r parent now).0 m.flight)
  runs_once :
      (m : Machine) (r : Ref) (i : Instance) (f : Finish)
      → ¬ (Memᴰ r m.flight)
      → Step m (machine (run_once m.o r i f).0 m.flight)
  launches :
      (m : Machine) (r : Ref)
      → ¬ (Memᴰ r m.flight)
      → Step m (machine (launch m.o r).0 (r ∷ m.flight))
  finishes :
      (m : Machine) (r : Ref) (i : Instance) (w : Window)
      → Step m (machine (start_finish m.o r i w).0 m.flight)
  exits :
      (m : Machine) (r : Ref) (e : Option Error) (owner : ℕ)
      → Memᴰ r m.flight
      → Step m (machine (plain_exit m.o r e owner) (filter_out r m.flight))
  ends :
      (m : Machine) (r : Ref) (e : Option Error) (owner : ℕ) (c : Context) (stable : Bool)
      (o' : Orchestrator)
      → Memᴰ r m.flight
      → heal_exit m.o r e owner c stable ≡ ended o'
      → Step m (machine o' (filter_out r m.flight))
  waits_on :
      (m : Machine) (r : Ref) (e : Option Error) (owner : ℕ) (c d : Context) (stable : Bool)
      (o' : Orchestrator)
      → Memᴰ r m.flight
      → heal_exit m.o r e owner c stable ≡ waits o' d
      → Step m (machine o' m.flight)
  wakes :
      (m : Machine) (r : Ref) (owner : ℕ) (c : Context) (hook stop : Run) (svc : Service) (now : ℕ)
      → Memᴰ r m.flight
      → Step m (
          machine (heal_wake m.o r owner c hook stop svc now).0 (
            if (heal_wake m.o r owner c hook stop svc now).1
            then m.flight
            else filter_out r m.flight))
  cuts : (m : Machine) (r : Ref) → Step m (machine (cut_off m.o r) m.flight)
  sequences :
      (m : Machine) (r : Ref) (d : Deadline) (hook stop : Run)
      → Step m (machine (stop_one_service_deadline m.o r d hook stop).0 m.flight)
  commits :
      (m : Machine) (r : Ref) (was_active completed exited : Bool) (e : Option Error)
      → Step m (machine (stop_entry_end m.o r was_active completed exited e).0 m.flight)
  tears_down :
      (m : Machine) (remove : Bool) (set : List Ref)
      → Step m (machine (tear_down_end m.o remove set) m.flight)

pub data Reach (s : Machine) : Machine → Type 0 where
  here : Reach s s
  next : {t u : Machine} → Reach s t → Step t u → Reach s u

-- Where OnCrash is set, it was called once for each counted crash.
abbrev pub IsTold : Orchestrator → Type 0
IsTold o = is_set o.cfg.on_crash ≡ true → crash_calls o.calls ≡ o.metrics.crashes

pub Tally-IsTold : (a b : Orchestrator) → b.cfg ≡ a.cfg → Tally a b → IsTold a → IsTold b
Tally-IsTold a b same t v h =
    let was = ap (λ (k : Config). is_set k.on_crash) (sym same) ∙ h in omega (arith, t was, v was)

-- The counter is the number of goroutines, no Done came at 0, and the latch of each entry in flight
-- is still to be set; and crashes are told.
pub record IsMatched (m : Machine) : Type 0 where
  pub counted : m.o.wg ≡ length m.flight
  pub unbroken : m.o.wg_panic ≡ false
  pub once : Distinct m.flight
  pub unset : (r : Ref) → Memᴰ r m.flight → (m.o.store r).wg_done ≡ false
  pub told : IsTold m.o

pub Steady-IsMatched :
    (m : Machine) (o' : Orchestrator)
    → Steady m.o o'
    → IsMatched m
    → IsMatched (machine o' m.flight)
Steady-IsMatched m o' s v = record {
  counted = s.same_wg ∙ v.counted;
  unbroken = s.same_panic ∙ v.unbroken;
  once = v.once;
  unset = λ r k. s.same_latch r ∙ v.unset r k;
  told = Tally-IsTold m.o o' s.same_cfg s.tally v.told;
}
