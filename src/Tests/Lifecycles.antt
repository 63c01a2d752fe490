-- ===== src/Tests/Lifecycles.antt =====
-- Services that start, crash and stop, and a Start that failed.
use gorch.Base.{true, false, List, [], ◌∷◌, Memᴰ, Distinct, Option, none, some, ◌≡◌, ◌↔◌, refl}
use gorch.Lifecycle.Exit.{panic, heal_exit, plain_exit}
use gorch.Lifecycle.Start.{launch}
use gorch.Lifecycle.Stop.{Run, Meanwhile, on_time, late}
use gorch.Lifecycle.Waits.{Machine, machine, Reach, here, next, launches, exits, IsMatched}
use gorch.Lifecycle.Waits.Steps.{Reach-IsMatched}
use gorch.Lifecycle.Whole.{claim_start, reset_after_start_failure, stop_order}
use gorch.Lifecycle.Whole.Failure.{IsFresh, reset_after_start_failure-IsFresh, heal_exit-reset}
use gorch.Lifecycle.Whole.Order.{stop_order_total}
use gorch.Membership.{filter_out}
use gorch.Orchestrator.{Ref, Orchestrator, modify}
use gorch.Status.{running}
use gorch.Service.Errors.{Error, ok, returned, user}
use gorch.Tests.{empty, db_only, small, small-IsRegistry}

-- One service, and a hook for crashes.
abbrev watched : Orchestrator
watched = record db_only { cfg = record db_only.cfg { on_crash = some 9 } }

abbrev idle : Machine
idle = machine watched []

abbrev launched : Machine
unfolding launch
launched = machine (launch watched 0).0 (0 ∷ [])

abbrev crashed_once : Machine
unfolding plain_exit launched
crashed_once = machine (plain_exit launched.o 0 (some (user 3)) 0) (filter_out 0 (0 ∷ []))

one_crash : Reach idle crashed_once
unfolding launched crashed_once
one_crash =
    next (next here (launches idle 0 (λ m. elim m [ ])))
      (exits launched 0 (some (user 3)) 0 (Memᴰ.head refl))

Reach-IsMatched_example : IsMatched crashed_once
unfolding db_only empty
Reach-IsMatched_example = Reach-IsMatched one_crash (record {
  counted = refl;
  unbroken = refl;
  once = tt;
  unset = λ r m. elim m [ ];
  told = λ h. refl;
})

-- A store that runs under a teardown context. Its before-stop hook overruns, and its instance exits
-- once it is cancelled: the exit makes the entry Stopped and counts the stop.
abbrev live : Orchestrator
live =
    record (modify db_only 0 (λ e. record e {
      cfg = record e.cfg { on_before_stop = some 4 };
      status = running;
      teardown = some (3 ∷ []);
      teardown_cancel = some (3 ∷ []);
      done = some 5;
    })) { ctx = some (2 ∷ []) }

abbrev exits_late : Meanwhile
exits_late = record { early = λ o. o; late = λ o. plain_exit o 0 none 0 }

abbrev returns : Run
returns = on_time (returned none)

stop_order_total_example :
    (order : List Ref) × (e : Option Error) × (stop_order small ≡ some (order, e))
    × ((r : Ref) → Memᴰ r small.entries ↔ Memᴰ r order)
    × Distinct order
stop_order_total_example = stop_order_total small small-IsRegistry

reset_after_start_failure-IsFresh_example :
    let after = (reset_after_start_failure small (0 ∷ 1 ∷ []) false true).0 in
    ((claim_start after).1 ≡ ok tt)
    × (after.start_once ≡ false)
    × ((r : Ref) → Memᴰ r (0 ∷ 1 ∷ []) → IsFresh (after.store r))
reset_after_start_failure-IsFresh_example =
    reset_after_start_failure-IsFresh small (0 ∷ 1 ∷ []) false true

heal_exit-reset_example :
    heal_exit
      (reset_after_start_failure small (0 ∷ 1 ∷ []) false true).0
      1
      (some (user 3))
      2
      (5 ∷ [])
      false
    ≡ panic
heal_exit-reset_example =
    heal_exit-reset small (0 ∷ 1 ∷ []) false true 1 (some (user 3)) 2 (5 ∷ []) false
