-- ===== src/Lifecycle/Steady/Starts.antt =====
-- The parts of startOneService that leave the wait group alone.
use gorch.Base.{
  ℕ, if◌then◌else◌, true, false, Bool, ◌||◌, Option, none, some, Option-cases, Bool-cases, ltb_ℤ,
  pos, inl, inr, refl,
}
use gorch.Lifecycle.{after_start_hook, set_status, new_owner}
use gorch.Lifecycle.Start.{
  Prelude, returns, goes_on, start_prelude, run_before_hook, condition, on_condition, give_back,
  prepare, call_after_start_hook, Instance, Window, reported, elapsed, on_window, start_failure,
  start_finish, timeout_of,
}
use gorch.Lifecycle.Steady.{
  Steady, Steady-refl, ◌then◌, if-Steady_pair, modify-Steady, set_status-Steady, new_owner-Steady,
}
use gorch.Orchestrator.{Ref, Orchestrator, modify}
use gorch.Runtime.{Context, cancel?, with_cancel, new_context}
use gorch.Service.Errors.{Error, Call, Result, ok, err, other}
use gorch.Status.{starting, stopped}

-- The state that a prelude leaves.
abbrev pub left : Prelude → Orchestrator
left (returns o e) = o
left (goes_on o) = o

give_back-Steady :
    (o : Orchestrator) (r : Ref) (e : Option Error) → Steady o (left (give_back o r e))
unfolding give_back
give_back-Steady o r e =
    set_status-Steady o r stopped
    then modify-Steady (set_status o r stopped) r (λ q. record q { starting = false }) refl

on_condition-Steady :
    (o : Orchestrator) (r : Ref) (c : Result Bool) → Steady o (left (on_condition o r c))
on_condition-Steady o r (err e) = give_back-Steady o r (some e)
on_condition-Steady o r (ok false) = give_back-Steady o r none
on_condition-Steady o r (ok true) = Steady-refl o

pub start_prelude-Steady :
    (o : Orchestrator) (r : Ref) (hook : Call) (cond : Result Bool)
    → Steady o (left (start_prelude o r hook cond))
unfolding start_prelude
start_prelude-Steady o r hook cond =
    elim (Bool-cases ((o.store r).removed || (o.store r).removing)) [
      | inl k ↦ rw (k, start_prelude) (Steady-refl o)
      | inr k ↦
          rw (k, start_prelude)
            (elim (Option-cases (run_before_hook begun r hook)) [
              | inl e ↦ rw e (begins then on_condition-Steady begun r (condition begun r cond))
              | inr (f, e) ↦ rw e (begins then give_back-Steady begun r (some f))
            ])
    ]
  where
    begun : Orchestrator
    begun = modify o r (λ e. record e { starting = true; stops_counted = false })

    begins : Steady o begun
    begins = modify-Steady o r (λ e. record e { starting = true; stops_counted = false }) refl

pub prepare-Steady :
    (o : Orchestrator) (r : Ref) (parent : Context) (now : ℕ) → Steady o (prepare o r parent now).0
unfolding prepare
prepare-Steady o r parent now =
    let owned = (new_owner (set_status o r starting) r).0 in
    let entry_ctx = with_cancel owned.rt parent in
    set_status-Steady o r starting
    then new_owner-Steady (set_status o r starting) r
    then modify-Steady owned r
        (λ e. record e {
          teardown = some entry_ctx;
          teardown_cancel = some entry_ctx;
          cancel = some (with_cancel (new_context owned.rt) entry_ctx);
          started_at = now;
          stable_since = now;
        })
        refl
    then record {
      same_wg = refl;
      same_panic = refl;
      same_latch = λ j. refl;
      same_cfg = refl;
      tally = λ h. refl;
    }

pub after-Steady :
    (o : Orchestrator) (r : Ref) (e : Option Error) → Steady o (call_after_start_hook o r e)
unfolding call_after_start_hook
after-Steady o r e = elim (Option-cases (after_start_hook o r)) [
  | inl k ↦ rw (k, call_after_start_hook) (Steady-refl o)
  | inr (f, k) ↦
      rw (k, call_after_start_hook)
        (record {
          same_wg = refl;
          same_panic = refl;
          same_latch = λ j. refl;
          same_cfg = refl;
          tally = λ h. refl;
        })
]

on_window-Steady :
    (o : Orchestrator) (r : Ref) (i : Instance) (w : Window) → Steady o (on_window o r i w).0
unfolding on_window
on_window-Steady o r i (reported e) = after-Steady o r (start_failure e)
on_window-Steady o r i elapsed =
    let cut = record o { rt = cancel? o.rt (some i.svc_ctx) } in
    record {
      same_wg = refl;
      same_panic = refl;
      same_latch = λ j. refl;
      same_cfg = refl;
      tally = λ h. refl;
    }
    then after-Steady cut r (some other)

pub start_finish-Steady :
    (o : Orchestrator) (r : Ref) (i : Instance) (w : Window) → Steady o (start_finish o r i w).0
unfolding start_finish
start_finish-Steady o r i w =
    if-Steady_pair (ltb_ℤ (pos 0) (timeout_of o r)) o (on_window o r i w)
      (call_after_start_hook o r none, none) (on_window-Steady o r i w) (after-Steady o r none)
    then modify-Steady _ r (λ q. record q { starting = false }) refl
