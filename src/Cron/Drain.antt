-- ===== src/Cron/Drain.antt =====
-- What a caller of cronDrain may rely on while it waits: stopEntry of membership.go.
use gorch.Base.{ℕ, ◌<◌, ◌≡◌, true, false, Memᴰ, none, some, arith, ◌⊎◌, ◌↔◌}
use gorch.Runtime.{Chan}
use gorch.Cron.{cron_begin, cron_end, cron_drain}
use gorch.Cron.Invariant.{
  Schedule, TickStep, begins, ends, drains, IsCounted, count, count-erase_self, count-erase_ne,
  after_end, after_drain, begin_facts, TickStep-IsCounted,
}

-- Ticks and drains, and no new schedule and no reset.
pub data Quiet (s : Schedule) : Schedule → Type 0 where
  here : Quiet s s
  next : {t u : Schedule} → Quiet s t → TickStep t u → Quiet s u

-- The schedule is draining, and `ch` is closed exactly if no tick is left.
abbrev pub Waits : Chan → Schedule → Type 0
Waits ch s =
    (s.track.cron_draining ≡ true)
    × ((s.track.cron_drained ≡ some ch)
          × (s.rt.closed ch ≡ false)
          × (0 < count s.track.cron_gen s.flight)
        ⊎ (s.rt.closed ch ≡ true)
          × (count s.track.cron_gen s.flight ≡ 0)
          × (s.track.cron_drained ≡ none))

ends-Waits :
    (ch : Chan) (s : Schedule) (gen : ℕ)
    → Memᴰ gen s.flight
    → IsCounted s
    → Waits ch s
    → Waits ch (after_end s gen)
unfolding cron_end
ends-Waits ch s gen m v w =
    ground (arith, v.active, count-erase_self m, count-erase_ne gen s.track.cron_gen s.flight)

drains-Waits : (ch : Chan) (s : Schedule) → IsCounted s → Waits ch s → Waits ch (after_drain s)
unfolding cron_drain
drains-Waits ch s v w = ground (arith, v.active)

TickStep-Waits : (ch : Chan) {s t : Schedule} → TickStep s t → IsCounted s → Waits ch s → Waits ch t
TickStep-Waits ch (begins s gen ctx h) v w =
    let (_, open_, _) = begin_facts s gen ctx h in absurd (ground (arith, open_, w.0))
TickStep-Waits ch (ends s gen m) v w = ends-Waits ch s gen m v w
TickStep-Waits ch (drains s) v w = drains-Waits ch s v w

Quiet-Waits :
    (ch : Chan) {s t : Schedule} → Quiet s t → IsCounted s → Waits ch s → IsCounted t × Waits ch t
Quiet-Waits ch here v w = (v, w)
Quiet-Waits ch (next q st) v w =
    let (v', w') = Quiet-Waits ch q v w in (TickStep-IsCounted st v', TickStep-Waits ch st v' w')

drain-Waits :
    (s : Schedule) (ch : Chan)
    → IsCounted s
    → (cron_drain s.rt s.track).2 ≡ some ch
    → Waits ch (after_drain s)
unfolding cron_drain
drain-Waits s ch v h = ground (arith, v.active, v.latched, v.unmade s.rt.next_chan)

-- The channel that cronDrain returns: however the ticks in flight end afterwards, and whatever
-- further drains are made, as long as the entry is not scheduled anew or reset it is closed
-- exactly when no tick of the generation is in flight any more, and no tick begins.
pub cron_drain-closes :
    (s t : Schedule) (ch : Chan)
    → IsCounted s
    → (cron_drain s.rt s.track).2 ≡ some ch
    → Quiet (after_drain s) t
    → ((t.rt.closed ch ≡ true) ↔ (count t.track.cron_gen t.flight ≡ 0))
      × ((gen : ℕ) → (cron_begin t.rt t.track gen).1 ≡ none)
unfolding cron_begin
cron_drain-closes s t ch v h q =
    let (_, w) = Quiet-Waits ch q (TickStep-IsCounted (drains s) v) (drain-Waits s ch v h) in
    ((λ c. ground (arith, w), λ z. ground (arith, w)), λ gen. ground (arith, w.0))

-- cronDrain returns no channel exactly if no tick of the current generation is in flight: those that
-- an earlier schedule dispatched are not waited for.
pub cron_drain-eq-none_iff :
    (s : Schedule)
    → IsCounted s
    → ((cron_drain s.rt s.track).2 ≡ none) ↔ (count s.track.cron_gen s.flight ≡ 0)
unfolding cron_drain
cron_drain-eq-none_iff s v = (λ e. ground (arith, v.active), λ z. ground (arith, v.active))
