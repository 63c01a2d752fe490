-- ===== src/Membership/Freeze.antt =====
-- What the reservation of a teardown holds back until it is given up.
use gorch.Base.{
  ℕ, Bool, true, false, ◌&&◌, List, [], ◌∷◌, Memᴰ, Option, some, Name, ◌≡◌, sym, ap, subst, ◌∙◌,
  inl, inr, arith,
}
use mathlib.Core.List.Memᴰ.{cases_cons}
use gorch.Entry.{lifecycle_owned_by}
use gorch.Graph.{lookup_entry}
use gorch.Orchestrator.{Ref, Orchestrator, write}
use gorch.Orchestrator.Registry.{IsRegistry}
use gorch.Register.{register, membership_gate_locked}
use gorch.Register.Outcome.{register-Outcome}
use gorch.Register.Parts.{Outcome, refused, refused_late, added}
use gorch.Register.Checks.{bind-ok, reject_if-ok}
use mathlib.Core.Bool.{false≢true}
use gorch.Service.{Service, RegisterConfig, RegisterOption, StopConfig, StopOption}
use gorch.Service.Options.{apply_stop_options, apply_register_options}
use gorch.Service.Errors.{
  Call, Result, ok, err, ◌>>=◌, ◌>>◌, reject_if, membership_busy, reentrant_membership,
  unsupported_option,
}
use gorch.Membership.{
  tear_down_begin, tear_down_checks, check_set, is_busy, mark_removing, reserve_set, find_entry,
  select_set,
}

pub check_set-ok :
    (check : Ref → Result Unit) (es : List Ref) {r : Ref}
    → check_set check es ≡ ok tt
    → Memᴰ r es
    → check r ≡ ok tt
check_set-ok check [] h m = elim m [ ]
check_set-ok check (e ∷ es) h m =
    let (_, first, rest) = bind-ok (check e) (λ _. check_set check es) tt h in
    elim (cases_cons m) [ inl k ↦ ap check k ∙ first | inr t ↦ check_set-ok check es rest t ]

-- The marks change the entries' flags only, and none is taken back.
mark-keeps :
    (o : Orchestrator) (es : List Ref) (r : Ref)
    → (o.store r).removing ≡ true
    → ((mark_removing true o es).store r).removing ≡ true
mark-keeps o [] r h = h
mark-keeps o (e ∷ es) r h =
    mark-keeps (record o { store = write o.store e (record (o.store e) { removing = true }) }) es r
      (ground (arith, h))

pub mark-sets :
    (o : Orchestrator) (es : List Ref) {r : Ref}
    → Memᴰ r es
    → ((mark_removing true o es).store r).removing ≡ true
mark-sets o [] m = elim m [ ]
mark-sets o (e ∷ es) {r} m =
    let o' = record o { store = write o.store e (record (o.store e) { removing = true }) } in
    elim (cases_cons m) [
      | inl k ↦ mark-keeps o' es r (ground (arith, k))
      | inr t ↦ mark-sets o' es t
    ]

module _ (goid : ℕ) (o : Orchestrator) (name : Name) where
  pub reserve_set-ok :
      (p : Orchestrator) (checked : Result (List Ref)) (set : List Ref)
      → reserve_set o checked ≡ (p, ok set)
      → (checked ≡ ok set) × (p ≡ mark_removing true o set)
  reserve_set-ok p (err e) set h = cc h
  reserve_set-ok p (ok s) set h =
      let same : s ≡ set = cc h in (ap ok same, subst (λ z. p ≡ mark_removing true o z) same (cc h))

  pub checked-idle :
      (cfg : StopConfig) (set : List Ref) {r : Ref}
      → tear_down_checks goid o name cfg ≡ ok set
      → Memᴰ r set
      → is_busy (o.store r) ≡ false
  unfolding tear_down_checks lifecycle_owned_by
  checked-idle cfg set {r} h m =
      let owned =
        λ (e : Ref). reject_if (lifecycle_owned_by (o.store e) goid) reentrant_membership in
      let busy = λ (e : Ref). reject_if (is_busy (o.store e)) membership_busy in
      let last = λ (s : List Ref). check_set busy s >> ok s in
      let third = λ (s : List Ref). check_set owned s >> last s in
      let second = λ (entry : Ref). select_set o name entry cfg >>= third in
      let (_, _, h1) =
        bind-ok (reject_if (cfg.cascade && cfg.orphans) unsupported_option)
          (λ _. membership_gate_locked o >> (find_entry o name >>= second)) set h in
      let (_, _, h2) =
        bind-ok (membership_gate_locked o) (λ _. find_entry o name >>= second) set h1 in
      let (entry, _, h3) = bind-ok (find_entry o name) second set h2 in
      let (s, _, h4) = bind-ok (select_set o name entry cfg) third set h3 in
      let (_, _, h5) = bind-ok (check_set owned s) (λ _. last s) set h4 in
      let (_, idle, h6) = bind-ok (check_set busy s) (λ _. ok s) set h5 in
      let same : s ≡ set = cc h6 in
      reject_if-ok (is_busy (o.store r)) membership_busy tt
        (check_set-ok busy s idle (subst (Memᴰ r) (sym same) m))

-- An added entry has no hard dependency on an entry that is being removed.
added-apart :
    (parses : Name → Bool) (q : Orchestrator) (svc : Option Service) (cfg : RegisterConfig)
    (call : Call) (x : Orchestrator × Result Unit) (d : Name) (r : Ref)
    → Outcome parses q svc cfg call x
    → Memᴰ d cfg.depends_on
    → lookup_entry q d ≡ some r
    → (q.store r).removing ≡ true
    → ¬ (x.1 ≡ ok tt)
added-apart parses q svc cfg call x d r (refused e) m l marked h = cc h
added-apart parses q svc cfg call x d r (refused_late e) m l marked h = cc h
added-apart parses q svc cfg call x d r (added s c logger _ passed) m l marked h =
    let same : c.depends_on ≡ cfg.depends_on =
      ap (λ (z : RegisterConfig). z.depends_on) passed.is_named.same_options in
    let (t, found, free) = passed.is_accepted.hard_ready d (subst (Memᴰ d) (sym same) m) in
    let here : t ≡ r = cc (found, l) in
    false≢true (sym free ∙ ap (λ z. (q.store z).removing) here ∙ marked)

-- An entry that a StopService or an Unregister has reserved was reserved by no other operation before,
-- and is then marked as removing. In every later state of the registry in which the mark stands, a
-- Register that is made there as a whole and names the entry as a hard dependency does not succeed. A
-- soft dependency on it is not refused, nor is a hot add that had passed its checks before.
pub tear_down_begin-freezes :
    (goid : ℕ) (o p q : Orchestrator) (name d : Name) (opts : List StopOption) (set : List Ref)
    (r : Ref) (parses : Name → Bool) (svc : Option Service) (options : List RegisterOption)
    (call : Call)
    → tear_down_begin goid o name opts ≡ (p, ok set)
    → Memᴰ r set
    → IsRegistry q
    → (q.store r).removing ≡ (p.store r).removing
    → lookup_entry q d ≡ some r
    → Memᴰ d (apply_register_options options).depends_on
    → (is_busy (o.store r) ≡ false)
      × ((p.store r).removing ≡ true)
      × ¬ ((register parses q svc options call).1 ≡ ok tt)
unfolding tear_down_begin
tear_down_begin-freezes goid o p q name d opts set r parses svc options call h m reg stands l
      named =
    let (checked, changed) =
      reserve_set-ok goid o name p (tear_down_checks goid o name (apply_stop_options opts)) set h in
    let marked : (p.store r).removing ≡ true =
      subst (λ z. (z.store r).removing ≡ true) (sym changed) (mark-sets o set m) in
    (
      checked-idle goid o name (apply_stop_options opts) set checked m,
      marked,
      added-apart parses q svc (apply_register_options options) call
          (register parses q svc options call) d r (register-Outcome parses q svc options call reg)
          named l (stands ∙ marked),
    )
