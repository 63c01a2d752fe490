-- ===== src/Lifecycle/Steady/Heals.antt =====
-- The two ends of heal_exit, for the wait group.
use gorch.Base.{ℕ, if◌then◌else◌, true, false, Bool, Option, none, some}
use gorch.Lifecycle.Exit.{
  HealExit, panic, ended, waits, heal_exit, heal, end_instance, give_up, report_crash,
  reset_retries, retries_spent, report_gone, count_retry, teardown_or, heal_under,
}
use gorch.Lifecycle.{release_owner}
use gorch.Lifecycle.Steady.{Steady, Steady-refl, ◌then◌}
use gorch.Lifecycle.Steady.Exits.{
  give_up-Steady, report_crash-Steady, reset_retries-Steady, wait-Steady,
}
use gorch.Orchestrator.{Ref, Orchestrator}
use gorch.Runtime.{Context, has_err}
use gorch.Service.Errors.{Error}

-- Where an exit ends, the wait group is left alone up to the release of the instance.
pub data Ended (o : Orchestrator) (r : Ref) (owner : ℕ) : HealExit → Type 0 where
  no_context : Ended o r owner panic
  instance_ends : (a : Orchestrator) → Steady o a → Ended o r owner (ended (end_instance a r owner))
  instance_waits : (a : Orchestrator) (c : Context) → Steady o a → Ended o r owner (waits a c)

if-Ended :
    (b : Bool) (o : Orchestrator) (r : Ref) (owner : ℕ) (x y : HealExit)
    → Ended o r owner x
    → Ended o r owner y
    → Ended o r owner (if b then x else y)
if-Ended true o r owner x y p q = p
if-Ended false o r owner x y p q = q

widen :
    (o a : Orchestrator) (r : Ref) (owner : ℕ) (x : HealExit)
    → Steady o a
    → Ended a r owner x
    → Ended o r owner x
widen o a r owner x s no_context = no_context
widen o a r owner x s (instance_ends b q) = instance_ends b (s then q)
widen o a r owner x s (instance_waits b c q) = instance_waits b c (s then q)

heal-Ended :
    (o : Orchestrator) (r : Ref) (e : Option Error) (owner : ℕ) (c : Context)
    → Ended o r owner (heal o r e owner c)
unfolding heal
heal-Ended o r e owner c =
    let gone = release_owner (report_gone (count_retry o r) r e) r owner in
    if-Ended (retries_spent o r) o r owner _ _
      (instance_ends (give_up o r e) (give_up-Steady o r e))
      (instance_waits gone (teardown_or gone r c) (wait-Steady o r e owner))

heal_under-Ended :
    (o : Orchestrator) (ctx : Option Context) (r : Ref) (e : Option Error) (owner : ℕ) (c : Context)
    (stable : Bool)
    → Ended o r owner (heal_under o ctx r e owner c stable)
heal_under-Ended o none r e owner c stable = no_context
heal_under-Ended o (some d) r e owner c stable =
    let reset = reset_retries o r stable in
    let told = report_crash reset r e in
    if-Ended (has_err o.rt d) o r owner _ _ (instance_ends o (Steady-refl o)) (
      widen o told r owner _ (reset_retries-Steady o r stable then report_crash-Steady reset r e)
        (heal-Ended told r e owner c))

pub heal_exit-Ended :
    (o : Orchestrator) (r : Ref) (e : Option Error) (owner : ℕ) (c : Context) (stable : Bool)
    → Ended o r owner (heal_exit o r e owner c stable)
unfolding heal_exit
heal_exit-Ended o r e owner c stable = heal_under-Ended o o.ctx r e owner c stable
