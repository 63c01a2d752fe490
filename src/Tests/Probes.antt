-- ===== src/Tests/Probes.antt =====
-- A self-heal service under a health threshold of 2, and a cron service that skips ticks.
use gorch.Base.{arith, ℕ, ◌+◌, ◌≤◌, [], ◌∷◌, some, pos, ◌≡◌, refl}
use gorch.Cron.{zero_track, cron_begin}
use gorch.Entry.{new_entry, add_owner_id}
use gorch.Health.{health_still_current}
use gorch.Health.Threshold.{failing, Counts, failing-threshold}
use gorch.Lifecycle.{new_owner}
use gorch.Messenger.{register_owner}
use gorch.Orchestrator.{Orchestrator, modify}
use gorch.Runtime.{cancel?}
use gorch.Service.{cron_skip}
use gorch.Service.Errors.{user}
use gorch.Status.{running}
use gorch.Tests.{empty, db_only, entry}
use gorch.Ticks.{
  Tick, refused_tick, skipped, invoked, invoke_cron_begin, admit, admit_by, call_start,
}
use gorch.Ticks.Skip.{Floor, floor, flight_at, IsAlone, here, next, calls, skips, Reach-IsAlone}
use gorch.Base.{name_discrete}

abbrev sick : Orchestrator
sick =
    modify (record db_only { cfg = record db_only.cfg { health_threshold = pos 2 } }) 0
      (λ e. record e {
        status = running;
        cancel = some (3 ∷ []);
        cfg = record e.cfg { factory = some 4 };
      })

sick-Counts : Counts sick 0 2 0 0 (some (3 ∷ [])) sick.rt
unfolding health_still_current name_discrete db_only empty entry new_entry
sick-Counts = record {
  is_current = refl;
  has_factory = refl;
  under = refl;
  counted = refl;
  cancels = refl;
  fails_counted = refl;
  same_rt = refl;
}

failing-threshold_example :
    ((k : ℕ) → k ≤ 1 → Counts (failing sick 0 (user 1) k) 0 2 k (k + 0) (some (3 ∷ [])) sick.rt)
    × Counts (failing sick 0 (user 1) 2) 0 2 0 2 (some (3 ∷ [])) (cancel? sick.rt (some (3 ∷ [])))
failing-threshold_example =
    failing-threshold sick 0 (user 1) 1 0 (some (3 ∷ [])) sick.rt sick-Counts

abbrev due : Orchestrator
due = modify db_only 0 (λ e. record e {
  cfg = record e.cfg { cron_mode = cron_skip };
  track = record zero_track { cron_ctx = some (8 ∷ []); cron_gen = 1 };
})

abbrev state_of : Tick → Orchestrator
state_of (refused_tick o) = o
state_of (skipped o) = o
state_of (invoked o owner c) = o

abbrev ticking : Orchestrator
unfolding invoke_cron_begin
ticking = state_of (invoke_cron_begin due 0 1)

ticks : invoke_cron_begin due 0 1 ≡ invoked ticking 1 (0 ∷ 8 ∷ [])
unfolding ticking invoke_cron_begin cron_begin admit admit_by call_start new_owner register_owner
    add_owner_id db_only empty entry new_entry
ticks = refl

abbrev skipping : Orchestrator
unfolding invoke_cron_begin
skipping = state_of (invoke_cron_begin ticking 0 1)

skips_it : invoke_cron_begin ticking 0 1 ≡ skipped skipping
unfolding skipping ticking invoke_cron_begin cron_begin admit admit_by call_start new_owner
    register_owner add_owner_id db_only empty entry new_entry
skips_it = refl

abbrev idle_floor : Floor
idle_floor = floor due (λ j. 0)

idle_floor-IsAlone : IsAlone idle_floor
unfolding db_only empty entry new_entry
idle_floor-IsAlone r s = ground arith

Reach-IsAlone_example : IsAlone (floor skipping (flight_at (λ j. 0) 0 1))
Reach-IsAlone_example =
    Reach-IsAlone
      (next (next here (calls idle_floor 0 1 1 (0 ∷ 8 ∷ []) ticking ticks))
        (skips (floor ticking (flight_at (λ j. 0) 0 1)) 0 1 skipping skips_it))
      idle_floor-IsAlone
