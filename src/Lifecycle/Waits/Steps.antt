-- ===== src/Lifecycle/Waits/Steps.antt =====
-- Each step keeps the count of the wait group, and so does every run.
use gorch.Base.{
  ℕ, suc, if◌then◌else◌, Bool-cases, List, [], ◌∷◌, length, Memᴰ, Distinct, Option, ℕ_discrete, ◌≡◌,
  inl, inr, refl, sym, ap, subst, ◌∙◌, arith,
}
use gorch.Lifecycle.{ctx_done, release_wg, wg_done_once, set_status}
use gorch.Lifecycle.Exit.{
  HealExit, ended, waits, plain_exit, heal_wake, end_instance, abandon_heal, restart, settle,
  release_teardown,
}
use gorch.Lifecycle.Start.{launch, prepare, start_prelude, start_finish, run_once}
use gorch.Lifecycle.Steady.{
  Steady, Steady-refl, ◌then◌, if-Steady, set_status-Steady, release_owner-Steady,
}
use gorch.Lifecycle.Steady.Exits.{restart-Steady, settle-Steady, release_teardown-Steady}
use gorch.Lifecycle.Steady.Heals.{Ended, no_context, instance_ends, instance_waits, heal_exit-Ended}
use gorch.Lifecycle.Steady.Starts.{left, start_prelude-Steady, prepare-Steady, start_finish-Steady}
use gorch.Lifecycle.Stop.{Run, cut_off, stop_one_service_deadline, stop_entry_end, tear_down_end}
use gorch.Lifecycle.Steady.Stops.{
  cut_off-Steady, stop_one_service_deadline-Steady, stop_entry_end-Steady,
}
use gorch.Lifecycle.Loose.{Loose, run_once-Loose, tear_down_end-Loose}
use gorch.Membership.{filter_out}
use gorch.Membership.Remove.{filter_out-head, filter_out-mem, filter_out-Distinct}
use mathlib.Core.List.Memᴰ.{cases_cons}
use gorch.Orchestrator.{Ref, Orchestrator}
use gorch.Runtime.{Context, has_err}
use gorch.Service.{Service}
use gorch.Service.Errors.{Error}
use gorch.Status.{running, stopped}
use gorch.Lifecycle.Waits.{
  begins, prepares, runs_once, launches, finishes, exits, ends, waits_on, wakes, cuts, sequences,
  commits, tears_down, here, next,
}
use gorch.Lifecycle.Waits.{Machine, machine, Step, Reach, Tally-IsTold, IsMatched, Steady-IsMatched}

filter_out-absent : (r : Ref) (xs : List Ref) → ¬ (Memᴰ r xs) → filter_out r xs ≡ xs
filter_out-absent r [] n = refl
filter_out-absent r (x ∷ xs) n =
    filter_out-head r x xs (λ e. n (Memᴰ.head (sym e)))
    ∙ ap (λ ys. x ∷ ys) (filter_out-absent r xs (λ m. n (Memᴰ.tail m)))

-- One goroutine less.
length-filter_out :
    (r : Ref) (xs : List Ref) → Distinct xs → Memᴰ r xs → suc (length (filter_out r xs)) ≡ length xs
length-filter_out r [] d m = elim m [ ]
length-filter_out r (x ∷ xs) d m = elim (ℕ_discrete x r) [
  | yes k ↦
      let skip : filter_out r (x ∷ xs) ≡ filter_out r xs = ground (arith, k) in
      ap suc
        (ap length (skip ∙ filter_out-absent r xs (λ z. d.0 (subst (λ y. Memᴰ y xs) (sym k) z))))
  | no n ↦ elim (cases_cons m) [
    | inl e ↦ absurd (n (sym e))
    | inr t ↦ ap suc (ap length (filter_out-head r x xs n)) ∙ ap suc (length-filter_out r xs d.1 t)
  ]
]

-- The exit of an entry in flight passes Done once.
release_wg-IsMatched :
    (m : Machine) (r : Ref)
    → Memᴰ r m.flight
    → IsMatched m
    → IsMatched (machine (release_wg m.o r) (filter_out r m.flight))
unfolding release_wg
release_wg-IsMatched m r k v =
    let unset = v.unset r k in
    let fewer = length-filter_out r m.flight v.once k in
    let one : m.o.wg ≡ suc (length (filter_out r m.flight)) = v.counted ∙ sym fewer in
    rw (unset, release_wg)
      (rw (one, wg_done_once)
        (record {
          counted = refl;
          unbroken = v.unbroken;
          once = filter_out-Distinct r m.flight v.once;
          unset =
              λ j h. let (old, n) = filter_out-mem r m.flight h in ground (arith, n, v.unset j old);
          told = v.told;
        }))

launch-IsMatched :
    (m : Machine) (r : Ref)
    → ¬ (Memᴰ r m.flight)
    → IsMatched m
    → IsMatched (machine (launch m.o r).0 (r ∷ m.flight))
unfolding launch
launch-IsMatched m r n v =
    let run = set_status-Steady m.o r running in
    record {
      counted = ap suc (run.same_wg ∙ v.counted);
      unbroken = run.same_panic ∙ v.unbroken;
      once = (n, v.once);
      unset = λ j h. elim (ℕ_discrete j r) [
        | yes e ↦ ground (arith, e)
        | no k ↦ elim (cases_cons h) [
          | inl e ↦ absurd (k e)
          | inr t ↦ ground (arith, k, run.same_latch j ∙ v.unset j t)
        ]
      ];
      told = Tally-IsTold m.o (set_status m.o r running) run.same_cfg run.tally v.told;
    }

end_instance-IsMatched :
    (m : Machine) (a : Orchestrator) (r : Ref) (owner : ℕ)
    → Memᴰ r m.flight
    → Steady m.o a
    → IsMatched m
    → IsMatched (machine (end_instance a r owner) (filter_out r m.flight))
unfolding end_instance
end_instance-IsMatched m a r owner k s v =
    let released = machine (release_wg a r) (filter_out r m.flight) in
    Steady-IsMatched released _ (release_owner-Steady (release_wg a r) r owner)
      (release_wg-IsMatched (machine a m.flight) r k (Steady-IsMatched m a s v))

plain_exit-IsMatched :
    (m : Machine) (r : Ref) (e : Option Error) (owner : ℕ)
    → Memᴰ r m.flight
    → IsMatched m
    → IsMatched (machine (plain_exit m.o r e owner) (filter_out r m.flight))
unfolding plain_exit
plain_exit-IsMatched m r e owner k v =
    let settled = if ctx_done m.o then m.o else settle m.o r e in
    let s = if-Steady (ctx_done m.o) m.o _ _ (Steady-refl m.o) (settle-Steady m.o r e) in
    let released = machine (release_wg settled r) (filter_out r m.flight) in
    let torn = release_teardown released.o r (m.o.store r).teardown in
    Steady-IsMatched released _
      (release_teardown-Steady released.o r (m.o.store r).teardown
        then release_owner-Steady torn r owner)
      (release_wg-IsMatched (machine settled m.flight) r k (Steady-IsMatched m settled s v))

-- The two ends of a self-heal exit, by what heal_exit came to.
Ended-IsMatched :
    (m : Machine) (r : Ref) (owner : ℕ) (x : HealExit) (o' : Orchestrator)
    → Ended m.o r owner x
    → x ≡ ended o'
    → Memᴰ r m.flight
    → IsMatched m
    → IsMatched (machine o' (filter_out r m.flight))
Ended-IsMatched m r owner x o' no_context e k v = cc e
Ended-IsMatched m r owner x o' (instance_ends a s) e k v =
    subst (λ z. IsMatched (machine z (filter_out r m.flight))) (ended_inj e)
      (end_instance-IsMatched m a r owner k s v)
  where
    ended_inj : {p q : Orchestrator} → ended p ≡ ended q → p ≡ q
    ended_inj h = cc h
Ended-IsMatched m r owner x o' (instance_waits a c s) e k v = cc e

Waits-IsMatched :
    (m : Machine) (r : Ref) (owner : ℕ) (x : HealExit) (o' : Orchestrator) (d : Context)
    → Ended m.o r owner x
    → x ≡ waits o' d
    → IsMatched m
    → IsMatched (machine o' m.flight)
Waits-IsMatched m r owner x o' d no_context e v = cc e
Waits-IsMatched m r owner x o' d (instance_ends a s) e v = cc e
Waits-IsMatched m r owner x o' d (instance_waits a c s) e v =
    subst (λ z. IsMatched (machine z m.flight)) (waits_inj e) (Steady-IsMatched m a s v)
  where
    waits_inj : {p q : Orchestrator} {a b : Context} → waits p a ≡ waits q b → p ≡ q
    waits_inj h = cc h

heal_wake-IsMatched :
    (m : Machine) (r : Ref) (owner : ℕ) (c : Context) (hook stop : Run) (svc : Service) (now : ℕ)
    → Memᴰ r m.flight
    → IsMatched m
    → IsMatched (
        machine (heal_wake m.o r owner c hook stop svc now).0 (
          if (heal_wake m.o r owner c hook stop svc now).1
          then m.flight
          else filter_out r m.flight))
unfolding heal_wake abandon_heal
heal_wake-IsMatched m r owner c hook stop svc now k v = elim (Bool-cases (has_err m.o.rt c)) [
  | inl e ↦
      rw (e, heal_wake)
        (end_instance-IsMatched m _ r owner k
          (if-Steady (m.o.store r).removing m.o _ _ (Steady-refl m.o)
            (set_status-Steady m.o r stopped))
          v)
  | inr e ↦
      let again = restart m.o r c hook stop svc now in
      rw (e, heal_wake)
        (Steady-IsMatched m _
          (restart-Steady m.o r c hook stop svc now then release_owner-Steady again r owner) v)
]

Loose-IsMatched :
    (m : Machine) (o' : Orchestrator)
    → Loose (λ r. Memᴰ r m.flight) m.o o'
    → IsMatched m
    → IsMatched (machine o' m.flight)
Loose-IsMatched m o' s v = record {
  counted = s.same_wg ∙ v.counted;
  unbroken = s.same_panic ∙ v.unbroken;
  once = v.once;
  unset = λ r k. s.stays r k (v.unset r k);
  told = Tally-IsTold m.o o' s.same_cfg s.tally v.told;
}

Step-IsMatched : {m m' : Machine} → Step m m' → IsMatched m → IsMatched m'
Step-IsMatched (begins m r hook cond) v =
    Steady-IsMatched m (left (start_prelude m.o r hook cond)) (start_prelude-Steady m.o r hook cond)
      v
Step-IsMatched (prepares m r parent now) v =
    Steady-IsMatched m (prepare m.o r parent now).0 (prepare-Steady m.o r parent now) v
Step-IsMatched (runs_once m r i f n) v =
    Loose-IsMatched m (run_once m.o r i f).0
      (run_once-Loose m.o r i f (λ j k e. n (subst (λ z. Memᴰ z m.flight) e k))) v
Step-IsMatched (launches m r n) v = launch-IsMatched m r n v
Step-IsMatched (finishes m r i w) v =
    Steady-IsMatched m (start_finish m.o r i w).0 (start_finish-Steady m.o r i w) v
Step-IsMatched (exits m r e owner k) v = plain_exit-IsMatched m r e owner k v
Step-IsMatched (ends m r e owner c stable o' k h) v =
    Ended-IsMatched m r owner _ o' (heal_exit-Ended m.o r e owner c stable) h k v
Step-IsMatched (waits_on m r e owner c d stable o' k h) v =
    Waits-IsMatched m r owner _ o' d (heal_exit-Ended m.o r e owner c stable) h v
Step-IsMatched (wakes m r owner c hook stop svc now k) v =
    heal_wake-IsMatched m r owner c hook stop svc now k v
Step-IsMatched (cuts m r) v = Steady-IsMatched m (cut_off m.o r) (cut_off-Steady m.o r) v
Step-IsMatched (sequences m r d hook stop) v =
    Steady-IsMatched m (stop_one_service_deadline m.o r d hook stop).0
      (stop_one_service_deadline-Steady m.o r d hook stop) v
Step-IsMatched (commits m r was_active completed exited e) v =
    Steady-IsMatched m (stop_entry_end m.o r was_active completed exited e).0
      (stop_entry_end-Steady m.o r was_active completed exited e) v
Step-IsMatched (tears_down m remove set) v =
    Loose-IsMatched m (tear_down_end m.o remove set) (tear_down_end-Loose m.o remove set) v

-- From a state in which it holds, such as one before the first start, and whatever starts, exits,
-- restarts and parts of stops and teardowns come in whatever order, where no entry is launched or run once that has a
-- goroutine: the counter of the wait group is the number of goroutines that run instances, no Done
-- comes at 0 (it would panic), no entry has two goroutines, and each goroutine's exit is still to pass
-- its one Done. Where OnCrash is set, it was called once for each crash in the metrics.
pub Reach-IsMatched : {s t : Machine} → Reach s t → IsMatched s → IsMatched t
Reach-IsMatched here v = v
Reach-IsMatched (next r st) v = Step-IsMatched st (Reach-IsMatched r v)
