-- ===== src/Ticks/Skip.antt =====
-- The invocations of cron services against their CronSkip flags, over every order in which ticks come
-- and end.
use gorch.Base.{
  ℕ, suc, ◌==◌, if◌then◌else◌, Bool, true, false, ℕ_discrete, ◌≡◌, sym, ap, subst, ◌∙◌, arith,
}
use gorch.Orchestrator.{Ref, Orchestrator}
use gorch.Runtime.{Context}
use gorch.Service.Errors.{Call}
use gorch.Service.{RegisterConfig}
use gorch.Ticks.{Tick, refused_tick, skipped, invoked, is_skip, invoke_cron_begin, invoke_cron_end}
use gorch.Ticks.Flags.{
  skips_overlaps, Moved, Began, was_refused, was_skipped, was_called, invoke_cron_begin-Began,
  invoke_cron_end-Moved, Kept,
}

-- `flight` counts, for each entry, the invocations of its Start that have not returned.
pub record Floor : Type 0 where
  pub o : Orchestrator
  pub flight : Ref → ℕ

abbrev pub floor : Orchestrator → (Ref → ℕ) → Floor
floor o flight = record { o = o; flight = flight }

abbrev pub flight_at : (Ref → ℕ) → Ref → ℕ → Ref → ℕ
flight_at flight x n j = if j == x then n else flight j

-- A tick of an entry, whatever schedule dispatched it, comes and is refused, skipped or calls Start; a
-- Start that is in flight returns; or another operation changes anything but flags and configurations.
pub data Step : Floor → Floor → Type 0 where
  refuses :
      (m : Floor) (x : Ref) (gen : ℕ) (p : Orchestrator)
      → invoke_cron_begin m.o x gen ≡ refused_tick p
      → Step m (floor p m.flight)
  skips :
      (m : Floor) (x : Ref) (gen : ℕ) (p : Orchestrator)
      → invoke_cron_begin m.o x gen ≡ skipped p
      → Step m (floor p m.flight)
  calls :
      (m : Floor) (x : Ref) (gen owner : ℕ) (c : Context) (p : Orchestrator)
      → invoke_cron_begin m.o x gen ≡ invoked p owner c
      → Step m (floor p (flight_at m.flight x (suc (m.flight x))))
  returns :
      (m : Floor) (x : Ref) (n gen owner : ℕ) (c : Context) (call : Call)
      → m.flight x ≡ suc n
      → Step m (floor (invoke_cron_end m.o x gen owner c call) (flight_at m.flight x n))
  elsewhere : (m : Floor) (p : Orchestrator) → Kept m.o p → Step m (floor p m.flight)

pub data Reach (s : Floor) : Floor → Type 0 where
  here : Reach s s
  next : {t u : Floor} → Reach s t → Step t u → Reach s u

-- An entry in the mode CronSkip has one invocation in flight where its flag is set, and else none.
abbrev pub IsAlone : Floor → Type 0
IsAlone m =
    (r : Ref) → skips_overlaps m.o r ≡ true → m.flight r ≡ (if (m.o.store r).running then 1 else 0)

Kept-IsAlone : (m : Floor) (p : Orchestrator) → Kept m.o p → IsAlone m → IsAlone (floor p m.flight)
Kept-IsAlone m p k v r s =
    v r (ap (λ (z : RegisterConfig). is_skip z.cron_mode) (sym (k.same_cfg r)) ∙ s)
    ∙ ap (λ b. if b then 1 else 0) (sym (k.same_running r))

Moved-IsAlone :
    (m : Floor) (p : Orchestrator) (x : Ref) (n : ℕ) (before after : Bool)
    → Moved m.o p x before after
    → (m.flight x ≡ (if before then 1 else 0) → n ≡ (if after then 1 else 0))
    → IsAlone m
    → IsAlone (floor p (flight_at m.flight x n))
Moved-IsAlone m p x n before after k count v r s =
    let mode = ap (λ (z : RegisterConfig). is_skip z.cron_mode) (sym (k.cfgs r)) ∙ s in
    elim (ℕ_discrete r x) [
      | yes e ↦
          let here = subst (λ z. skips_overlaps m.o z ≡ true) e mode in
          let counted = count (v x here ∙ ap (λ b. if b then 1 else 0) (k.was here)) in
          let flag : (p.store r).running ≡ after =
            ap (λ z. (p.store z).running) e ∙ k.is_now here in
          ground (arith, e) ∙ counted ∙ ap (λ b. if b then 1 else 0) (sym flag)
      | no d ↦ ground (arith, d) ∙ v r mode ∙ ap (λ b. if b then 1 else 0) (sym (k.others r d))
    ]

last_one : (b : Bool) (m n : ℕ) → m ≡ suc n → m ≡ (if b then 1 else 0) → n ≡ 0
last_one true m n h k = omega (arith, h, k)
last_one false m n h k = omega (arith, h, k)

Step-IsAlone : {m t : Floor} → Step m t → IsAlone m → IsAlone t
Step-IsAlone (refuses m x gen p h) v = by_tick (invoke_cron_begin-Began m.o x gen) h
  where
    by_tick : {t : Tick} → Began m.o x t → t ≡ refused_tick p → IsAlone (floor p m.flight)
    by_tick (was_refused q k) e =
        let same : q ≡ p = cc e in
        subst (λ z. IsAlone (floor z m.flight)) same (Kept-IsAlone m q k v)
    by_tick (was_skipped q k) e = cc e
    by_tick (was_called q owner c k) e = cc e
Step-IsAlone (skips m x gen p h) v = by_tick (invoke_cron_begin-Began m.o x gen) h
  where
    by_tick : {t : Tick} → Began m.o x t → t ≡ skipped p → IsAlone (floor p m.flight)
    by_tick (was_refused q k) e = cc e
    by_tick (was_skipped q k) e =
        let same : q ≡ p = cc e in
        subst (λ z. IsAlone (floor z m.flight)) same (Kept-IsAlone m q k v)
    by_tick (was_called q owner c k) e = cc e
Step-IsAlone (calls m x gen owner c p h) v = by_tick (invoke_cron_begin-Began m.o x gen) h
  where
    by_tick :
        {t : Tick}
        → Began m.o x t
        → t ≡ invoked p owner c
        → IsAlone (floor p (flight_at m.flight x (suc (m.flight x))))
    by_tick (was_refused q k) e = cc e
    by_tick (was_skipped q k) e = cc e
    by_tick (was_called q owner' c' k) e =
        let same : q ≡ p = cc e in
        subst (λ z. IsAlone (floor z (flight_at m.flight x (suc (m.flight x))))) same
          (Moved-IsAlone m q x (suc (m.flight x)) false true k (λ z. ap suc z) v)
Step-IsAlone (returns m x n gen owner c call h) v =
    Moved-IsAlone m (invoke_cron_end m.o x gen owner c call) x n (m.o.store x).running false
      (invoke_cron_end-Moved m.o x gen owner c call)
      (λ z. last_one (m.o.store x).running (m.flight x) n h z) v
Step-IsAlone (elsewhere m p k) v = Kept-IsAlone m p k v

-- CronSkip runs one invocation of an entry at a time. Whatever ticks of whatever schedules come and are
-- refused, skipped or invoked, and whenever the calls of Start return, an entry in that mode has one
-- invocation in flight exactly while its flag is set, and else none. The other operations in between
-- leave the flags and configurations: a reset of the entry, which clears its flag, is not among them.
pub Reach-IsAlone : {s t : Floor} → Reach s t → IsAlone s → IsAlone t
Reach-IsAlone here v = v
Reach-IsAlone (next r st) v = Step-IsAlone st (Reach-IsAlone r v)
