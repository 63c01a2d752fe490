-- ===== src/Tests/Grouped.antt =====
-- The services of one group, with no name: the store and the service that waits for it.
use gorch.Base.{true, List, [], ◌∷◌, Memᴰ, none, some, name_discrete, ◌≡◌, ◌↔◌, refl}
use gorch.Entry.{new_entry, has_live_instance}
use gorch.Groups.{stop_group_begin}
use gorch.Groups.Apart.{IsStoppable, Takes, by_stop_group, stop_group_begin-taken, Takes-exclusive}
use gorch.Groups.Live.{stop_one_service-live}
use gorch.Lifecycle.{begin_stop, stop_hook}
use gorch.Lifecycle.Stop.{
  Run, on_time, stop_one_service, stop_one_service_deadline, run_stop_sequence,
  call_before_stop_hook, stop_service_bounded, is?,
}
use gorch.Membership.{mark_removing, claim, already}
use gorch.Orchestrator.{Ref, Orchestrator, modify}
use gorch.Register.{membership_gate_locked}
use gorch.Service.Errors.{returned, ok, call_err}
use gorch.Status.{running, stopped}
use gorch.Lifecycle.Stop.{no_deadline, Planned, undisturbed, cut_off}
use gorch.Lifecycle.Held.{Held-refl}
use gorch.Lifecycle.Stopped.Ends.{ran_in}
use gorch.Replace.{replace_swap}
use gorch.Replace.Swap.{SwapEnd, replace_swap-SwapEnd}
use gorch.Tests.{empty, db_only, small, entry, plain}

abbrev taken : List Ref
taken = 0 ∷ 1 ∷ []

abbrev frozen : Orchestrator
frozen = mark_removing true small taken

freezes : stop_group_begin small "" ≡ (frozen, ok taken)
unfolding stop_group_begin membership_gate_locked name_discrete small db_only empty entry new_entry
freezes = refl

stop_group_begin-taken_example :
    (Memᴰ 0 taken ↔ (Memᴰ 0 small.entries × IsStoppable "" (small.store 0)))
    × (Memᴰ 0 taken → (frozen.store 0).removing ≡ true)
    × (¬ (Memᴰ 0 taken) → frozen.store 0 ≡ small.store 0)
stop_group_begin-taken_example = stop_group_begin-taken small frozen "" taken 0 freezes

Takes-exclusive_example : ¬ (Takes frozen frozen 1)
Takes-exclusive_example =
    Takes-exclusive small frozen frozen frozen 1
      (by_stop_group "" taken freezes (Memᴰ.tail (Memᴰ.head refl))) refl

-- The store runs.
abbrev up : Orchestrator
up = modify db_only 0 (λ e. record e { status = running; done = some 5 })

abbrev returns : Run
returns = on_time (returned none)

stop_one_service-live_example :
    let o' = (stop_one_service up 0 returns returns).0 in
    ((o'.store 0).status ≡ stopped)
    × (o'.rt ≡ up.rt)
    × (has_live_instance o'.rt (o'.store 0) ≡ true)
    × ((claim o' (ok 0)).1 ≡ already)
unfolding stop_one_service_deadline begin_stop run_stop_sequence call_before_stop_hook
    stop_service_bounded is? stop_hook call_err db_only empty entry new_entry
stop_one_service-live_example = stop_one_service-live up 0 returns returns refl refl refl

abbrev quick_stop : Planned
quick_stop = record {
  entry = 0;
  deadline = no_deadline;
  exited = true;
  others = undisturbed;
  hook = returns;
  stop = returns;
}

replace_swap-SwapEnd_example :
    SwapEnd up 0 plain (replace_swap up 0 plain (returned none) quick_stop)
replace_swap-SwapEnd_example =
    replace_swap-SwapEnd up 0 plain (returned none) quick_stop (Held-refl (cut_off up 0))
      (Held-refl (ran_in up 0 no_deadline undisturbed returns returns).0)
