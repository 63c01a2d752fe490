-- ===== src/Cron/Invariant.antt =====
-- The tick accounting of entry.go over every order of schedules, ticks, drains and resets.
use gorch.Base.{
  ℕ, suc, ◌≤◌, ◌<◌, ◌≡◌, refl, sym, subst, ◌==◌, if◌then◌else◌, true, false, List, [], ◌∷◌, Memᴰ,
  All, Option, none, some, pos, arith,
}
use gorch.Runtime.{Runtime, Context, Chan}
use gorch.Cron.{
  CronTrack, reset_cron_accounting, start_cron_schedule, cron_begin, cron_end, cron_drain,
}

-- A schedule with the generations of the ticks between their cron_begin and their cron_end.
pub record Schedule : Type 0 where
  pub rt : Runtime
  pub track : CronTrack
  pub flight : List ℕ

abbrev pub count : ℕ → List ℕ → ℕ
count g [] = 0
count g (x ∷ xs) = let rest = count g xs in if x == g then suc rest else rest

abbrev pub erase : ℕ → List ℕ → List ℕ
erase g [] = []
erase g (x ∷ xs) = let rest = erase g xs in if x == g then xs else x ∷ rest

pub count-erase_self : {g : ℕ} {xs : List ℕ} → Memᴰ g xs → suc (count g (erase g xs)) ≡ count g xs
count-erase_self (Memᴰ.head e) = ground arith
count-erase_self (Memᴰ.tail m) = ground (arith, count-erase_self m)

pub count-erase_ne : (g h : ℕ) (xs : List ℕ) → (g == h) ≡ false → count h (erase g xs) ≡ count h xs
count-erase_ne g h [] n = refl
count-erase_ne g h (x ∷ xs) n = ground (arith, count-erase_ne g h xs n)

-- No tick is of a generation above `k`.
abbrev pub Past : ℕ → List ℕ → Type 0
Past k = All (λ g. g ≤ k)

erase-Past : (k g : ℕ) (xs : List ℕ) → Past k xs → Past k (erase g xs)
erase-Past k g [] h = tt
erase-Past k g (x ∷ xs) h = ground (arith, erase-Past k g xs h.1)

Past-suc : (k : ℕ) (xs : List ℕ) → Past k xs → Past (suc k) xs
Past-suc k [] h = tt
Past-suc k (x ∷ xs) h = (omega arith, Past-suc k xs h.1)

count_future : (k : ℕ) (xs : List ℕ) → Past k xs → count (suc k) xs ≡ 0
count_future k [] h = refl
count_future k (x ∷ xs) h = ground (arith, count_future k xs h.1)

abbrev pub after_begin : Schedule → ℕ → Schedule
after_begin s gen = record s { track = (cron_begin s.rt s.track gen).0; flight = gen ∷ s.flight }

abbrev pub after_end : Schedule → ℕ → Schedule
after_end s gen =
    let (rt, track) = cron_end s.rt s.track gen in
    record { rt = rt; track = track; flight = erase gen s.flight }

abbrev pub after_drain : Schedule → Schedule
after_drain s =
    let (rt, track, latch) = cron_drain s.rt s.track in record s { rt = rt; track = track }

-- The steps of one schedule: its ticks, and a drain.
pub data TickStep : Schedule → Schedule → Type 0 where
  begins :
      (s : Schedule) (gen : ℕ) (ctx : Context)
      → (cron_begin s.rt s.track gen).1 ≡ some ctx
      → TickStep s (after_begin s gen)
  ends : (s : Schedule) (gen : ℕ) → Memᴰ gen s.flight → TickStep s (after_end s gen)
  drains : (s : Schedule) → TickStep s (after_drain s)

abbrev pub after_schedule : Schedule → Context → Schedule
after_schedule s parent =
    let (rt, track, gen) = start_cron_schedule s.rt s.track parent in
    record s { rt = rt; track = track }

abbrev pub after_reset : Schedule → Schedule
after_reset s =
    let (rt, track) = reset_cron_accounting s.rt s.track in record s { rt = rt; track = track }

-- Those, and the ones that begin or drop a schedule.
pub data Step : Schedule → Schedule → Type 0 where
  ticks : {s t : Schedule} → TickStep s t → Step s t
  schedules : (s : Schedule) (parent : Context) → Step s (after_schedule s parent)
  resets : (s : Schedule) → Step s (after_reset s)

pub data Reach (s : Schedule) : Schedule → Type 0 where
  here : Reach s s
  next : {t u : Schedule} → Reach s t → Step t u → Reach s u

-- The latch of a drain is open, and some tick is still to close it.
abbrev pub IsLatch : Schedule → Option Chan → Type 0
IsLatch s none = Unit {0}
IsLatch s (some ch) =
    (s.track.cron_draining ≡ true)
    × (s.rt.closed ch ≡ false)
    × (0 < count s.track.cron_gen s.flight)
    × (ch < s.rt.next_chan)

pub record IsCounted (s : Schedule) : Type 0 where
  pub active : s.track.cron_active ≡ pos (count s.track.cron_gen s.flight)
  pub past : Past s.track.cron_gen s.flight
  pub latched : IsLatch s s.track.cron_drained
  pub unmade : (c : Chan) → s.rt.next_chan ≤ c → s.rt.closed c ≡ false

-- A tick that is let in is of the live schedule, and changes no more than the counter.
pub begin_facts :
    (s : Schedule) (gen : ℕ) (ctx : Context)
    → (cron_begin s.rt s.track gen).1 ≡ some ctx
    → (gen ≡ s.track.cron_gen)
      × (s.track.cron_draining ≡ false)
      × ((cron_begin s.rt s.track gen).0.cron_gen ≡ s.track.cron_gen)
unfolding cron_begin
begin_facts s gen ctx h = ground arith

pub drain-cron_gen : (s : Schedule) → (after_drain s).track.cron_gen ≡ s.track.cron_gen
unfolding cron_drain
drain-cron_gen s = ground arith

pub end-cron_gen : (s : Schedule) (gen : ℕ) → (after_end s gen).track.cron_gen ≡ s.track.cron_gen
unfolding cron_end
end-cron_gen s gen = ground arith

begins-Past :
    (s : Schedule) (gen : ℕ) (ctx : Context)
    → (cron_begin s.rt s.track gen).1 ≡ some ctx
    → Past s.track.cron_gen s.flight
    → Past (after_begin s gen).track.cron_gen (after_begin s gen).flight
begins-Past s gen ctx h past =
    let (own, _, kept) = begin_facts s gen ctx h in
    subst (λ k. Past k (gen ∷ s.flight)) (sym kept) (omega arith, past)

begins-IsCounted :
    (s : Schedule) (gen : ℕ) (ctx : Context)
    → (cron_begin s.rt s.track gen).1 ≡ some ctx
    → IsCounted s
    → IsCounted (after_begin s gen)
unfolding cron_begin
begins-IsCounted s gen ctx h v = record {
  active = ground (arith, v.active);
  past = begins-Past s gen ctx h v.past;
  latched = ground (arith, v.latched);
  unmade = v.unmade;
}

drains-IsCounted : (s : Schedule) → IsCounted s → IsCounted (after_drain s)
unfolding cron_drain
drains-IsCounted s v = record {
  active = ground (arith, v.active);
  past = subst (λ k. Past k s.flight) (sym (drain-cron_gen s)) v.past;
  latched = ground (arith, v.latched, v.active, v.unmade s.rt.next_chan);
  unmade = λ c h. ground (arith, v.unmade c);
}

ends-IsCounted :
    (s : Schedule) (gen : ℕ) → Memᴰ gen s.flight → IsCounted s → IsCounted (after_end s gen)
unfolding cron_end
ends-IsCounted s gen m v = record {
  active =
      ground (arith, v.active, count-erase_self m, count-erase_ne gen s.track.cron_gen s.flight);
  past =
      subst (λ k. Past k (erase gen s.flight)) (sym (end-cron_gen s gen))
        (erase-Past s.track.cron_gen gen s.flight v.past);
  latched = ground (
    arith,
    v.latched,
    v.active,
    count-erase_self m,
    count-erase_ne gen s.track.cron_gen s.flight,
  );
  unmade = λ c h. ground (arith, v.unmade c, v.latched);
}

schedules-IsCounted :
    (s : Schedule) (parent : Context) → IsCounted s → IsCounted (after_schedule s parent)
unfolding start_cron_schedule
schedules-IsCounted s parent v = record {
  active = ground (arith, count_future s.track.cron_gen s.flight v.past);
  past = Past-suc s.track.cron_gen s.flight v.past;
  latched = tt;
  unmade = λ c h. ground (arith, v.unmade c);
}

resets-IsCounted : (s : Schedule) → IsCounted s → IsCounted (after_reset s)
unfolding reset_cron_accounting
resets-IsCounted s v = record {
  active = ground (arith, count_future s.track.cron_gen s.flight v.past);
  past = Past-suc s.track.cron_gen s.flight v.past;
  latched = tt;
  unmade = λ c h. ground (arith, v.unmade c);
}

pub TickStep-IsCounted : {s t : Schedule} → TickStep s t → IsCounted s → IsCounted t
TickStep-IsCounted (begins s gen ctx h) v = begins-IsCounted s gen ctx h v
TickStep-IsCounted (ends s gen m) v = ends-IsCounted s gen m v
TickStep-IsCounted (drains s) v = drains-IsCounted s v

Step-IsCounted : {s t : Schedule} → Step s t → IsCounted s → IsCounted t
Step-IsCounted (ticks st) v = TickStep-IsCounted st v
Step-IsCounted (schedules s parent) v = schedules-IsCounted s parent v
Step-IsCounted (resets s) v = resets-IsCounted s v

-- From a schedule whose accounting is right, whatever ticks begin and end and whatever drains,
-- schedules and resets come between them: the counter is the number of ticks of the live
-- generation in flight (so it is never negative), no tick is of a later generation, and the latch
-- of a drain, if there is one, is open and waits for at least one tick (so it is closed once).
pub Reach-IsCounted : {s t : Schedule} → Reach s t → IsCounted s → IsCounted t
Reach-IsCounted here v = v
Reach-IsCounted (next r st) v = Step-IsCounted st (Reach-IsCounted r v)
