-- ===== src/Cron.antt =====
-- entry.go: the accounting of a cron schedule's ticks. A tick presents the generation of the
-- schedule that dispatched it.
pub mod Invariant
pub mod Drain
use gorch.Base.{
  ℕ, suc, ◌==◌, if◌then◌else◌, Bool, true, false, not, ◌&&◌, ◌||◌, Option, none, some, ℤ, pos, ◌+ℤ◌,
  ◌-ℤ◌, is_zero,
}
use gorch.Runtime.{
  Runtime, Context, Chan, has_err, with_cancel, new_context, cancel?, make_chan, close_chan,
}

-- The fields of serviceEntry that cronTrackMu guards.
pub record CronTrack : Type 0 where
  pub cron_ctx : Option Context
  pub cron_cancel : Option Context
  pub cron_gen : ℕ
  pub cron_active : ℤ
  pub cron_draining : Bool
  pub cron_drained : Option Chan

abbrev pub zero_track : CronTrack
zero_track = record {
  cron_ctx = none;
  cron_cancel = none;
  cron_gen = 0;
  cron_active = pos 0;
  cron_draining = false;
  cron_drained = none;
}

unfoldable pub reset_cron_accounting : Runtime → CronTrack → Runtime × CronTrack
reset_cron_accounting rt e = (
  cancel? rt e.cron_cancel,
  record {
    cron_gen = suc e.cron_gen;
    cron_ctx = none;
    cron_cancel = none;
    cron_active = pos 0;
    cron_draining = false;
    cron_drained = none;
  },
)

unfoldable pub start_cron_schedule : Runtime → CronTrack → Context → Runtime × CronTrack × ℕ
start_cron_schedule rt e parent =
    let released = cancel? rt e.cron_cancel in
    let ctx = with_cancel released parent in
    (
      new_context released,
      record {
        cron_gen = suc e.cron_gen;
        cron_ctx = some ctx;
        cron_cancel = some ctx;
        cron_active = pos 0;
        cron_draining = false;
        cron_drained = none;
      },
      suc e.cron_gen,
    )

-- `e.cronDraining || e.cronCtx == nil || gen != e.cronGen || e.cronCtx.Err() != nil`
abbrev pub refuses : Runtime → CronTrack → ℕ → Bool
refuses rt e gen = elim e.cron_ctx [
  | none ↦ true
  | some ctx ↦ e.cron_draining || not (gen == e.cron_gen) || has_err rt ctx
]

unfoldable pub cron_begin : Runtime → CronTrack → ℕ → CronTrack × Option Context
cron_begin rt e gen =
    if refuses rt e gen
    then (e, none)
    else (record e { cron_active = e.cron_active +ℤ pos 1 }, e.cron_ctx)

-- The last tick of a draining schedule closes the latch.
abbrev settle : Runtime → CronTrack → Runtime × CronTrack
settle rt e = elim e.cron_drained [
  | none ↦ (rt, e)
  | some ch ↦
      if is_zero e.cron_active && e.cron_draining
      then (close_chan rt ch, record e { cron_drained = none })
      else (rt, e)
]

unfoldable pub cron_end : Runtime → CronTrack → ℕ → Runtime × CronTrack
cron_end rt e gen =
    if gen == e.cron_gen
    then settle rt (record e { cron_active = e.cron_active -ℤ pos 1 })
    else (rt, e)

-- The latch to wait on: the old one, or a new one.
abbrev latch : Runtime → CronTrack → Runtime × CronTrack × Option Chan
latch rt e = elim e.cron_drained [
  | some ch ↦ (rt, e, some ch)
  | none ↦ (make_chan rt, record e { cron_drained = some rt.next_chan }, some rt.next_chan)
]

unfoldable pub cron_drain : Runtime → CronTrack → Runtime × CronTrack × Option Chan
cron_drain rt e =
    let stopped = cancel? rt e.cron_cancel in
    let draining = record e { cron_draining = true } in
    if is_zero e.cron_active then (stopped, draining, none) else latch stopped draining
