-- ===== src/Tests/Ticks.antt =====
-- A schedule with one tick in flight, and its drain.
use gorch.Base.{ℕ, true, [], ◌∷◌, none, ◌≡◌, ◌↔◌, refl, Memᴰ}
use gorch.Cron.{zero_track, cron_begin, cron_end, cron_drain, start_cron_schedule}
use gorch.Cron.Invariant.{
  Schedule, ticks, begins, ends, schedules, Reach, here, next, IsCounted, Reach-IsCounted,
  after_begin, after_end, after_schedule, after_drain, count,
}
use gorch.Cron.Drain.{Quiet, cron_drain-closes, cron_drain-eq-none_iff}
use gorch.Tests.{quiet}

abbrev fresh : Schedule
fresh = record { rt = quiet; track = zero_track; flight = [] }

fresh-IsCounted : IsCounted fresh
fresh-IsCounted = record { active = refl; past = tt; latched = tt; unmade = λ c _. refl }

abbrev scheduled : Schedule
unfolding start_cron_schedule
scheduled = after_schedule fresh []

abbrev ticking : Schedule
unfolding cron_begin
ticking = after_begin scheduled 1

one_tick : Reach fresh ticking
unfolding start_cron_schedule cron_begin scheduled ticking
one_tick = next (next here (schedules fresh [])) (ticks (begins scheduled 1 (0 ∷ []) refl))

Reach-IsCounted_example : IsCounted ticking
Reach-IsCounted_example = Reach-IsCounted one_tick fresh-IsCounted

ticking-IsCounted : IsCounted ticking
ticking-IsCounted = Reach-IsCounted one_tick fresh-IsCounted

abbrev drained : Schedule
unfolding ticking cron_drain
drained = after_drain ticking

abbrev ended : Schedule
unfolding drained cron_end
ended = after_end drained 1

last_tick : Quiet drained ended
unfolding drained ended ticking scheduled cron_drain cron_end
last_tick = Quiet.next Quiet.here (ends drained 1 (Memᴰ.head refl))

cron_drain-closes_example :
    ((ended.rt.closed 0 ≡ true) ↔ (count ended.track.cron_gen ended.flight ≡ 0))
    × ((gen : ℕ) → (cron_begin ended.rt ended.track gen).1 ≡ none)
unfolding cron_drain cron_begin start_cron_schedule ticking scheduled drained
cron_drain-closes_example = cron_drain-closes ticking ended 0 ticking-IsCounted refl last_tick

cron_drain-eq-none_iff_example :
    ((cron_drain ticking.rt ticking.track).2 ≡ none)
    ↔ (count ticking.track.cron_gen ticking.flight ≡ 0)
cron_drain-eq-none_iff_example = cron_drain-eq-none_iff ticking ticking-IsCounted
