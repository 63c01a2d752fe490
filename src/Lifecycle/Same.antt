-- ===== src/Lifecycle/Same.antt =====
-- The steps of lifecycle.go that leave the entries and the stop metric alone, and the errors of a stop.
use gorch.Base.{
  if◌then◌else◌, Bool, Bool-cases, true, false, not, ◌&&◌, Option, none, some, Option-cases, ltb_ℤ,
  pos, ◌≡◌, refl, ◌∙◌, inl, inr,
}
use gorch.Lifecycle.{
  set_field, tell_change, count_crash, tell_crash, is_crashed, is_set, crash_cause, same_status,
  set_status_err, record_abandoned, stop_hook, after_stop_hook,
}
use gorch.Lifecycle.Stop.{
  Run, on_time, late, timed, hook_overrun, call_before_stop_hook, stop_service_bounded,
  tell_after_stop, is?, run_stop_sequence,
}
use gorch.Orchestrator.{Ref, Orchestrator, Callback, notify, on_state_change, on_crash}
use gorch.Service.Errors.{Error, join?, other}
use gorch.Status.{ServiceStatus}

-- The store, the count of stops and the runtime are the same.
pub record Same (o o' : Orchestrator) : Type 0 where
  pub same_store : o'.store ≡ o.store
  pub same_stops : o'.metrics.stops ≡ o.metrics.stops
  pub same_rt : o'.rt ≡ o.rt

pub Same-refl : (o : Orchestrator) → Same o o
Same-refl o = record { same_store = refl; same_stops = refl; same_rt = refl }

infixr 5 ◌andthen◌
pub ◌andthen◌ : {a b c : Orchestrator} → Same a b → Same b c → Same a c
p andthen q = record {
  same_store = q.same_store ∙ p.same_store;
  same_stops = q.same_stops ∙ p.same_stops;
  same_rt = q.same_rt ∙ p.same_rt;
}

pub if-Same : (b : Bool) (o x y : Orchestrator) → Same o x → Same o y → Same o (if b then x else y)
if-Same true o x y p q = p
if-Same false o x y p q = q

notify-Same : (o : Orchestrator) (c : Callback) → Same o (notify o c)
notify-Same o c = record { same_store = refl; same_stops = refl; same_rt = refl }

tell_change-Same :
    (o : Orchestrator) (r : Ref) (old s : ServiceStatus) → Same o (tell_change o r old s)
tell_change-Same o r old s =
    if-Same (is_set o.cfg.on_state_change && not (same_status old s)) o
      (notify o (on_state_change (o.store r).name old s)) o (notify-Same o _) (Same-refl o)

tell_crash-Same : (o : Orchestrator) (r : Ref) (e : Option Error) → Same o (tell_crash o r e)
tell_crash-Same o r e =
    if-Same (is_set o.cfg.on_crash) o (notify o (on_crash (o.store r).name (crash_cause e))) o
      (notify-Same o _) (Same-refl o)

-- A change of status writes it, and nothing else of the store.
pub set_status_err-Same :
    (o : Orchestrator) (r : Ref) (s : ServiceStatus) (e : Option Error)
    → Same (set_field o r s) (set_status_err o r s e)
unfolding set_status_err
set_status_err-Same o r s e =
    let set = set_field o r s in
    let told = tell_change set r (o.store r).status s in
    let to_told = tell_change-Same set r (o.store r).status s in
    if-Same (is_crashed s) set (tell_crash (count_crash told) r e) told
      (to_told
        andthen record { same_store = refl; same_stops = refl; same_rt = refl }
        andthen tell_crash-Same (count_crash told) r e)
      to_told

timed-Same : (o : Orchestrator) (e : Error) (run : Run) → Same o (timed o e run).0
unfolding timed record_abandoned
timed-Same o e (on_time c) = Same-refl o
timed-Same o e (late c) = record { same_store = refl; same_stops = refl; same_rt = refl }

hook-Same :
    (o : Orchestrator) (r : Ref) (bounded : Bool) (hook : Run)
    → Same o (call_before_stop_hook o r bounded hook).0
unfolding call_before_stop_hook
hook-Same o r bounded hook = elim (Option-cases (stop_hook o r)) [
  | inl e ↦ rw (e, call_before_stop_hook) (Same-refl o)
  | inr (f, e) ↦ elim (Bool-cases bounded) [
    | inl k ↦ rw (e, call_before_stop_hook) (rw k (timed-Same o hook_overrun hook))
    | inr k ↦ rw (e, call_before_stop_hook) (rw k (Same-refl o))
  ]
]

stop_service_bounded-Same :
    (o : Orchestrator) (r : Ref) (stop : Run) → Same o (stop_service_bounded o r stop).0
unfolding stop_service_bounded
stop_service_bounded-Same o r stop =
    elim (Bool-cases (ltb_ℤ (pos 0) (o.store r).cfg.stop_timeout)) [
      | inl k ↦ rw (k, stop_service_bounded) (timed-Same o other stop)
      | inr k ↦ rw (k, stop_service_bounded) (Same-refl o)
    ]

tell_after_stop-Same :
    (o : Orchestrator) (r : Ref) (e : Option Error) → Same o (tell_after_stop o r e)
unfolding tell_after_stop
tell_after_stop-Same o r e = elim (Option-cases (after_stop_hook o r)) [
  | inl k ↦ rw (k, tell_after_stop) (Same-refl o)
  | inr (f, k) ↦
      rw (k, tell_after_stop) (record { same_store = refl; same_stops = refl; same_rt = refl })
]

pub run_stop_sequence-Same :
    (o : Orchestrator) (r : Ref) (bounded : Bool) (hook stop : Run)
    → Same o (run_stop_sequence o r bounded hook stop).0
unfolding run_stop_sequence
run_stop_sequence-Same o r bounded hook stop =
    let hooked = call_before_stop_hook o r bounded hook in
    let ran = stop_service_bounded hooked.0 r stop in
    hook-Same o r bounded hook
    andthen stop_service_bounded-Same hooked.0 r stop
    andthen tell_after_stop-Same ran.0 r ran.1

-- A call that its timer overtook has an error.
timed-error :
    (o : Orchestrator) (e : Error) (run : Run)
    → (timed o e run).2 ≡ false
    → is_set (timed o e run).1 ≡ true
unfolding timed
timed-error o e (on_time c) h = cc h
timed-error o e (late c) h = refl

stop_service_bounded-error :
    (o : Orchestrator) (r : Ref) (stop : Run)
    → (stop_service_bounded o r stop).2 ≡ false
    → is_set (stop_service_bounded o r stop).1 ≡ true
unfolding stop_service_bounded
stop_service_bounded-error o r stop =
    elim (Bool-cases (ltb_ℤ (pos 0) (o.store r).cfg.stop_timeout)) [
      | inl k ↦ rw (k, stop_service_bounded) (timed-error o other stop)
      | inr k ↦ rw (k, stop_service_bounded) (λ h. cc h)
    ]

joined-error :
    (a b : Option Error) (returned : Bool)
    → (returned ≡ false → is_set b ≡ true)
    → not (is? a) && returned ≡ false
    → is_set (join? a b) ≡ true
unfolding is? join?
joined-error none b returned h k = h k
joined-error (some a) none returned h k = refl
joined-error (some a) (some b) returned h k = refl

-- A sequence that is not complete has an error.
pub run_stop_sequence-error :
    (o : Orchestrator) (r : Ref) (bounded : Bool) (hook stop : Run)
    → (run_stop_sequence o r bounded hook stop).2 ≡ false
    → is_set (run_stop_sequence o r bounded hook stop).1 ≡ true
unfolding run_stop_sequence
run_stop_sequence-error o r bounded hook stop h =
    let hooked = call_before_stop_hook o r bounded hook in
    joined-error hooked.1 (stop_service_bounded hooked.0 r stop).1
      (stop_service_bounded hooked.0 r stop).2 (stop_service_bounded-error hooked.0 r stop) h
