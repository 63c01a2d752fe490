-- ===== src/Groups/Apart.antt =====
-- The operations that reserve entries never hold one together.
use gorch.Base.{
  ℕ, Bool, Bool-cases, true, false, not, ◌&&◌, ◌||◌, ite, name_discrete, List, [], ◌∷◌, Memᴰ, Name,
  ◌≡◌, ◌≢◌, ◌↔◌, refl, sym, ap, subst, ◌∙◌, inl, inr, arith,
}
use mathlib.Core.Bool.{false≢true}
use mathlib.Core.List.Memᴰ.{cases_cons}
use gorch.Entry.{ServiceEntry, lifecycle_owned_by, has_live_instance}
use gorch.Status.{is_active}
use gorch.Groups.{
  Selection, select_group, in_group, can_start, can_stop, mark_starting, take_start,
  start_group_begin, take_stop, stop_group_begin, unregister_group_begin, unregister_group_checks,
  checked_set, group_set,
}
use gorch.Lifecycle.Whole.{select, is_persistent, no_spec}
use gorch.Lifecycle.Whole.Order.{select-mem, mem-select}
use gorch.Membership.{
  is_busy, mark_removing, tear_down_begin, tear_down_checks, start_service_begin, claimed,
  set_starting, check_set,
}
use gorch.Membership.Claim.{claimed-IsStartable}
use gorch.Membership.Freeze.{mark-sets, check_set-ok, checked-idle, reserve_set-ok}
use gorch.Orchestrator.{Ref, Orchestrator, modify}
use gorch.Register.{membership_gate_locked}
use gorch.Register.Checks.{bind-ok, reject_if-ok}
use gorch.Service.{StopConfig, StopOption}
use gorch.Service.Errors.{
  Result, ok, err, ◌>>◌, reject_if, unsupported_option, reentrant_membership, membership_busy,
}
use gorch.Service.Options.{apply_stop_options}

-- Marks: those of StartGroup stay, and the others change nothing else.
mark_starting-keeps :
    (o : Orchestrator) (rs : List Ref) (r : Ref)
    → (o.store r).starting ≡ true
    → ((mark_starting o rs).store r).starting ≡ true
mark_starting-keeps o [] r h = h
mark_starting-keeps o (x ∷ rs) r h =
    mark_starting-keeps (set_starting o x true) rs r (ground (arith, h))

mark_starting-sets :
    (o : Orchestrator) (rs : List Ref) {r : Ref}
    → Memᴰ r rs
    → ((mark_starting o rs).store r).starting ≡ true
mark_starting-sets o [] m = elim m [ ]
mark_starting-sets o (x ∷ rs) {r} m = elim (cases_cons m) [
  | inl k ↦ mark_starting-keeps (set_starting o x true) rs r (ground (arith, k))
  | inr t ↦ mark_starting-sets (set_starting o x true) rs t
]

mark_removing-other :
    (b : Bool) (o : Orchestrator) (rs : List Ref) (r : Ref)
    → ¬ (Memᴰ r rs)
    → (mark_removing b o rs).store r ≡ o.store r
mark_removing-other b o [] r n = refl
mark_removing-other b o (x ∷ rs) r n =
    let k : r ≢ x = λ e. n (Memᴰ.head e) in
    mark_removing-other b (modify o x (λ e. record e { removing = b })) rs r (λ m. n (Memᴰ.tail m))
    ∙ ground (arith, k)

busy_if-starting : (e : ServiceEntry) → e.starting ≡ true → is_busy e ≡ true
busy_if-starting e h = elim (Bool-cases e.removing) [
  | inl k ↦ ground (arith, h, k)
  | inr k ↦ ground (arith, h, k)
]

busy_if-removing : (e : ServiceEntry) → e.removing ≡ true → is_busy e ≡ true
busy_if-removing e h = ground (arith, h)

-- What a StopGroup takes.
take_stop-ok :
    (o p : Orchestrator) (group : Name) (gate : Result (Unit {0})) (taken : List Ref)
    → take_stop o group gate ≡ (p, ok taken)
    → (taken ≡ select (can_stop group) o o.entries) × (p ≡ mark_removing true o taken)
take_stop-ok o p group (err e) taken h = cc h
take_stop-ok o p group (ok u) taken h =
    let same : select (can_stop group) o o.entries ≡ taken = cc h in
    (sym same, subst (λ z. p ≡ mark_removing true o z) same (cc h))

take_start-ok :
    (o p : Orchestrator) (group : Name) (gate : Result (Unit {0})) (s : Selection)
    → take_start o group gate ≡ (p, ok s)
    → (s ≡ select_group o group) × (p ≡ mark_starting o s.reserved)
take_start-ok o p group (err e) s h = cc h
take_start-ok o p group (ok u) s h =
    let same : select_group o group ≡ s = cc h in
    (sym same, subst (λ (z : Selection). p ≡ mark_starting o z.reserved) same (cc h))

and_left : (a b : Bool) → a && b ≡ true → a ≡ true
and_left true b h = refl
and_left false b h = cc h

and_right : (a b : Bool) → a && b ≡ true → b ≡ true
and_right true b h = h
and_right false b h = cc h

not-true : (b : Bool) → not b ≡ true → b ≡ false
not-true true h = cc h
not-true false h = refl

-- What a StopGroup takes: an entry of the group that is neither a cron service nor a runOnce gate, and
-- that no operation has reserved.
pub record IsStoppable (group : Name) (e : ServiceEntry) : Type 0 where
  pub in_it : e.cfg.group ≡ group
  pub no_cron : e.cfg.cron_spec ≡ ""
  pub no_gate : e.cfg.run_once ≡ false
  pub no_starting : e.starting ≡ false
  pub no_removing : e.removing ≡ false

decided : (a b : Name) → ite (name_discrete a b) true false ≡ true → a ≡ b
decided a b = pick (name_discrete a b)
  where
    pick : (d : Dec (a ≡ b)) → ite d true false ≡ true → a ≡ b
    pick (yes e) h = e
    pick (no k) h = cc h

decides : (a b : Name) → a ≡ b → ite (name_discrete a b) true false ≡ true
decides a b e = pick (name_discrete a b)
  where
    pick : (d : Dec (a ≡ b)) → ite d true false ≡ true
    pick (yes e) = refl
    pick (no k) = absurd (k e)

or-free : (a b : Bool) → not (a || b) ≡ true → (a ≡ false) × (b ≡ false)
or-free true b h = cc h
or-free false true h = cc h
or-free false false h = (refl, refl)

all_hold :
    (a b c d : Bool)
    → a ≡ true
    → b ≡ true
    → c ≡ false
    → d ≡ false
    → a && (b && not c) && not d ≡ true
all_hold a b c d ha hb hc hd = rw (ha, hb, hc, hd) refl

can_stop-IsStoppable :
    (group : Name) (e : ServiceEntry) → (can_stop group e ≡ true) ↔ IsStoppable group e
can_stop-IsStoppable group e = (
  (λ h.
      let kind = and_left (in_group group e && is_persistent e) (not (is_busy e)) h in
      let free =
        or-free e.removing e.starting
          (and_right (in_group group e && is_persistent e) (not (is_busy e)) h) in
      let persistent = and_right (in_group group e) (is_persistent e) kind in
      record {
        in_it = decided e.cfg.group group (and_left (in_group group e) (is_persistent e) kind);
        no_cron = decided e.cfg.cron_spec "" (and_left (no_spec e) (not e.cfg.run_once) persistent);
        no_gate = not-true e.cfg.run_once (and_right (no_spec e) (not e.cfg.run_once) persistent);
        no_starting = free.1;
        no_removing = free.0;
      }),
  (λ s.
      all_hold (in_group group e) (no_spec e) e.cfg.run_once (is_busy e)
        (decides e.cfg.group group s.in_it) (decides e.cfg.cron_spec "" s.no_cron) s.no_gate
        (ap (λ b. b || e.starting) s.no_removing ∙ s.no_starting)),
)

-- A StopGroup takes exactly the entries of its group that are neither cron services nor runOnce gates
-- and that no operation has reserved, as starting or as removing; it marks them as removing and changes
-- no other entry.
pub stop_group_begin-taken :
    (o p : Orchestrator) (group : Name) (taken : List Ref) (r : Ref)
    → stop_group_begin o group ≡ (p, ok taken)
    → (Memᴰ r taken ↔ (Memᴰ r o.entries × IsStoppable group (o.store r)))
      × (Memᴰ r taken → (p.store r).removing ≡ true)
      × (¬ (Memᴰ r taken) → p.store r ≡ o.store r)
unfolding stop_group_begin
stop_group_begin-taken o p group taken r h =
    let (same, changed) = take_stop-ok o p group (membership_gate_locked o) taken h in
    (
      (
        (λ m.
            let (listed, k) = select-mem (can_stop group) o o.entries (subst (Memᴰ r) same m) in
            (listed, (can_stop-IsStoppable group (o.store r)).0 k)),
        (λ (m, s). subst (Memᴰ r) (sym same) (
            mem-select (can_stop group) o o.entries m
              ((can_stop-IsStoppable group (o.store r)).1 s))),
      ),
      (λ m. subst (λ q. (q.store r).removing ≡ true) (sym changed) (mark-sets o taken m)),
      (λ n. ap (λ (q : Orchestrator). q.store r) changed ∙ mark_removing-other true o taken r n),
    )

-- One of the operations that reserve, from `o` to `p`, has taken an entry.
pub data Takes (o p : Orchestrator) (r : Ref) : Type 0 where
  by_start_service :
      (goid : ℕ) (name : Name) → start_service_begin goid o name ≡ (p, claimed r) → Takes o p r
  by_tear_down :
      (goid : ℕ) (name : Name) (opts : List StopOption) (set : List Ref)
      → tear_down_begin goid o name opts ≡ (p, ok set)
      → Memᴰ r set
      → Takes o p r
  by_start_group :
      (group : Name) (s : Selection)
      → start_group_begin o group ≡ (p, ok s)
      → Memᴰ r s.reserved
      → Takes o p r
  by_stop_group :
      (group : Name) (taken : List Ref)
      → stop_group_begin o group ≡ (p, ok taken)
      → Memᴰ r taken
      → Takes o p r
  by_unregister_group :
      (goid : ℕ) (group : Name) (opts : List StopOption) (set : List Ref)
      → unregister_group_begin goid o group opts ≡ (p, ok set)
      → Memᴰ r set
      → Takes o p r

checked_set-idle :
    (goid : ℕ) (o : Orchestrator) (cfg : StopConfig) (members set : List Ref) {r : Ref}
    → checked_set goid o cfg members ≡ ok set
    → Memᴰ r set
    → is_busy (o.store r) ≡ false
unfolding checked_set
checked_set-idle goid o cfg [] set {r} h m =
    let none_in : [] ≡ set = cc h in elim (subst (Memᴰ r) (sym none_in) m) [ ]
checked_set-idle goid o cfg (x ∷ xs) set {r} h m =
    let owned = λ (e : Ref). reject_if (lifecycle_owned_by (o.store e) goid) reentrant_membership in
    let busy = λ (e : Ref). reject_if (is_busy (o.store e)) membership_busy in
    let last = λ (s : List Ref). check_set busy s >> ok s in
    let (s, _, h1) = bind-ok (group_set o (x ∷ xs) cfg) (λ z. check_set owned z >> last z) set h in
    let (_, _, h2) = bind-ok (check_set owned s) (λ _. last s) set h1 in
    let (_, idle, h3) = bind-ok (check_set busy s) (λ _. ok s) set h2 in
    let same : s ≡ set = cc h3 in
    reject_if-ok (is_busy (o.store r)) membership_busy tt
      (check_set-ok busy s idle (subst (Memᴰ r) (sym same) m))

Takes-idle : (o p : Orchestrator) (r : Ref) → Takes o p r → is_busy (o.store r) ≡ false
unfolding tear_down_begin start_group_begin stop_group_begin unregister_group_begin
    unregister_group_checks
Takes-idle o p r (by_start_service goid name h) = (claimed-IsStartable goid o p name r h).0.idle
Takes-idle o p r (by_tear_down goid name opts set h m) =
    let cfg = apply_stop_options opts in
    checked-idle goid o name cfg set
      (reserve_set-ok goid o name p (tear_down_checks goid o name cfg) set h).0 m
Takes-idle o p r (by_start_group group s h m) =
    let (same, _) = take_start-ok o p group _ s h in
    let e = o.store r in
    let (_, k) =
      select-mem (λ q. in_group group q && can_start o.rt q) o o.entries
        (subst (λ (z : Selection). Memᴰ r z.reserved) same m) in
    let free = and_right (in_group group e) (can_start o.rt e) k in
    not-true (is_busy e) (
      and_left (not (is_busy e)) (not (is_active e.status)) (
        and_left (not (is_busy e) && not (is_active e.status)) (not (has_live_instance o.rt e))
          free))
Takes-idle o p r (by_stop_group group taken h m) =
    let (same, _) = take_stop-ok o p group _ taken h in
    let (_, k) = select-mem (can_stop group) o o.entries (subst (Memᴰ r) same m) in
    let e = o.store r in
    not-true (is_busy e) (and_right (in_group group e && is_persistent e) (not (is_busy e)) k)
Takes-idle o p r (by_unregister_group goid group opts set h m) =
    let cfg = apply_stop_options opts in
    let (checked, _) =
      reserve_set-ok goid o group p (unregister_group_checks goid o group cfg) set h in
    let (_, _, h1) =
      bind-ok (reject_if (cfg.cascade && cfg.orphans) unsupported_option) _ set checked in
    let (_, _, h2) = bind-ok (membership_gate_locked o) _ set h1 in
    checked_set-idle goid o cfg (select (in_group group) o o.entries) set h2 m

Takes-marks : (o p : Orchestrator) (r : Ref) → Takes o p r → is_busy (p.store r) ≡ true
unfolding tear_down_begin start_group_begin stop_group_begin unregister_group_begin
Takes-marks o p r (by_start_service goid name h) =
    subst (λ q. is_busy (q.store r) ≡ true) (sym (claimed-IsStartable goid o p name r h).1)
      (busy_if-starting ((set_starting o r true).store r) (ground arith))
Takes-marks o p r (by_tear_down goid name opts set h m) =
    let (_, changed) =
      reserve_set-ok goid o name p (tear_down_checks goid o name (apply_stop_options opts)) set h in
    subst (λ q. is_busy (q.store r) ≡ true) (sym changed)
      (busy_if-removing ((mark_removing true o set).store r) (mark-sets o set m))
Takes-marks o p r (by_start_group group s h m) =
    let (_, changed) = take_start-ok o p group _ s h in
    subst (λ q. is_busy (q.store r) ≡ true) (sym changed)
      (busy_if-starting ((mark_starting o s.reserved).store r) (mark_starting-sets o s.reserved m))
Takes-marks o p r (by_stop_group group taken h m) =
    busy_if-removing (p.store r) ((stop_group_begin-taken o p group taken r h).1 m)
Takes-marks o p r (by_unregister_group goid group opts set h m) =
    let (_, changed) =
      reserve_set-ok goid o group p (unregister_group_checks goid o group (apply_stop_options opts))
        set h in
    subst (λ q. is_busy (q.store r) ≡ true) (sym changed)
      (busy_if-removing ((mark_removing true o set).store r) (mark-sets o set m))

-- StartService, StopService, Unregister, StartGroup, StopGroup and UnregisterGroup reserve an entry for
-- themselves: once one of them has taken it, no other takes it in a state in which the mark still
-- stands, whatever else has changed.
pub Takes-exclusive :
    (o p p' q : Orchestrator) (r : Ref)
    → Takes o p r
    → is_busy (p'.store r) ≡ is_busy (p.store r)
    → ¬ (Takes p' q r)
Takes-exclusive o p p' q r first stands second =
    false≢true (sym (Takes-idle p' q r second) ∙ stands ∙ Takes-marks o p r first)
