-- ===== src/Membership/Claim.antt =====
-- A claim on an entry excludes every other operation on it until it is given back.
use gorch.Base.{
  ℕ, if◌then◌else◌, Bool, true, false, not, ◌||◌, ◌⊎◌, ◌≢◌, List, [], ◌∷◌, Memᴰ, some, Name, ◌≡◌,
  refl, sym, ap, subst, ◌∙◌, Bool-cases, Option-cases, inl, inr, arith,
}
use gorch.Entry.{has_live_instance, lifecycle_owned_by}
use gorch.Graph.{lookup_entry}
use gorch.Orchestrator.{Ref, Orchestrator, write}
use gorch.Runtime.{Chan}
use mathlib.Core.Bool.{false≢true}
use mathlib.Core.List.Memᴰ.{cases_cons}
use gorch.Orchestrator.Registry.{IsRegistry, lookup_entry-eq}
use gorch.Service.Errors.{
  Error, ok, wraps, ◌>>=◌, ◌>>◌, reject_if, Result-cases, reentrant_membership, membership_busy,
  orchestrator_stopping, orchestrator_stopped, orchestrator_not_started,
}
use gorch.Register.Checks.{bind-ok, reject_if-ok}
use gorch.Status.{
  ServiceStatus, registered, running, stopping, stopped, crashed, succeeded, is_running, satisfies,
}
use gorch.Membership.{
  start_service_begin, start_checks, start_gate, entry_gate, find_entry, claim, refused, claimed,
  set_starting, is_busy, check_hard_dependencies_locked,
}

-- What StartService has found of an entry that it claims.
pub record IsStartable (goid : ℕ) (o : Orchestrator) (name : Name) (r : Ref) : Type 0 where
  pub open_gate : start_gate o ≡ ok tt
  pub is_found : lookup_entry o name ≡ some r
  pub unowned : lifecycle_owned_by (o.store r) goid ≡ false
  pub idle : is_busy (o.store r) ≡ false
  pub satisfied : check_hard_dependencies_locked o (o.store r).cfg.depends_on ≡ ok tt
  pub down : is_running (o.store r).status ≡ false
  pub no_instance : has_live_instance o.rt (o.store r) ≡ false

find_entry-ok :
    (o : Orchestrator) (name : Name) (r : Ref)
    → find_entry o name ≡ ok r
    → lookup_entry o name ≡ some r
find_entry-ok o name r h = elim (Option-cases (lookup_entry o name)) [
  | inl l ↦ cc (rw (l, find_entry) at h)
  | inr (s, l) ↦ l ∙ ap some (cc (rw (l, find_entry) at h))
]

module _ (goid : ℕ) (o : Orchestrator) (name : Name) where
  claim-claimed :
      (p : Orchestrator) (r : Ref)
      → claim o (start_checks goid o name) ≡ (p, claimed r)
      → (start_checks goid o name ≡ ok r)
        × (is_running (o.store r).status ≡ false)
        × (has_live_instance o.rt (o.store r) ≡ false)
        × (p ≡ set_starting o r true)
  claim-claimed p r h = elim (Result-cases (start_checks goid o name)) [
    | inl (e, k) ↦ cc (rw k at h)
    | inr (s, k) ↦ elim (Bool-cases (is_running (o.store s).status)) [
      | inl a ↦ cc (rw (k, a) at h)
      | inr a ↦ elim (Bool-cases (has_live_instance o.rt (o.store s))) [
        | inl b ↦ cc (rw (k, a, b) at h)
        | inr b ↦
            let h' : (set_starting o s true, claimed s) ≡ (p, claimed r) = rw (k, a, b) at h in
            let same : s ≡ r = cc h' in
            (
              k ∙ ap ok same,
              subst (λ z. is_running (o.store z).status ≡ false) same a,
              subst (λ z. has_live_instance o.rt (o.store z) ≡ false) same b,
              subst (λ z. p ≡ set_starting o z true) same (cc h'),
            )
      ]
    ]
  ]

  checks-IsStartable :
      (r : Ref)
      → start_checks goid o name ≡ ok r
      → is_running (o.store r).status ≡ false
      → has_live_instance o.rt (o.store r) ≡ false
      → IsStartable goid o name r
  unfolding start_checks lifecycle_owned_by entry_gate
  checks-IsStartable r h down dead =
      let (_, gate, h1) =
        bind-ok (start_gate o)
          (λ _. find_entry o name >>= λ s.
            entry_gate goid o s
            >> (check_hard_dependencies_locked o (o.store s).cfg.depends_on >> ok s))
          r h in
      let (s, found, h2) =
        bind-ok (find_entry o name)
          (λ s.
            entry_gate goid o s
            >> (check_hard_dependencies_locked o (o.store s).cfg.depends_on >> ok s))
          r h1 in
      let (_, passed, h3) =
        bind-ok (entry_gate goid o s)
          (λ _. check_hard_dependencies_locked o (o.store s).cfg.depends_on >> ok s) r h2 in
      let (_, deps, h4) =
        bind-ok (check_hard_dependencies_locked o (o.store s).cfg.depends_on) (λ _. ok s) r h3 in
      let same : s ≡ r = cc h4 in
      let (_, owned, busy) =
        bind-ok (reject_if (lifecycle_owned_by (o.store s) goid) reentrant_membership)
          (λ _. reject_if (is_busy (o.store s)) membership_busy) tt passed in
      record {
        open_gate = gate;
        is_found = find_entry-ok o name s found ∙ ap some same;
        unowned =
            subst (λ z. lifecycle_owned_by (o.store z) goid ≡ false) same
              (reject_if-ok (lifecycle_owned_by (o.store s) goid) reentrant_membership tt owned);
        idle =
            subst (λ z. is_busy (o.store z) ≡ false) same
              (reject_if-ok (is_busy (o.store s)) membership_busy tt busy);
        satisfied =
            subst (λ z. check_hard_dependencies_locked o (o.store z).cfg.depends_on ≡ ok tt) same
              deps;
        down = down;
        no_instance = dead;
      }

pub claimed-IsStartable :
    (goid : ℕ) (o p : Orchestrator) (name : Name) (r : Ref)
    → start_service_begin goid o name ≡ (p, claimed r)
    → IsStartable goid o name r × (p ≡ set_starting o r true)
unfolding start_service_begin
claimed-IsStartable goid o p name r h =
    let (checked, down, dead, changed) = claim-claimed goid o name p r h in
    (checks-IsStartable goid o name r checked down dead, changed)

-- A dependency that is up: registered, and running or a succeeded gate.
abbrev pub IsUp : Orchestrator → Name → Type 0
IsUp o dep =
    (s : Ref) × (lookup_entry o dep ≡ some s)
    × (((o.store s).status ≡ running) ⊎ ((o.store s).status ≡ succeeded))

satisfies_up : (s : ServiceStatus) → satisfies s ≡ true → (s ≡ running) ⊎ (s ≡ succeeded)
satisfies_up running h = inl refl
satisfies_up succeeded h = inr refl
satisfies_up registered h = cc h
satisfies_up ServiceStatus.starting h = cc h
satisfies_up stopping h = cc h
satisfies_up stopped h = cc h
satisfies_up crashed h = cc h

dependencies-IsUp :
    (o : Orchestrator) (deps : List Name)
    → check_hard_dependencies_locked o deps ≡ ok tt
    → (dep : Name) → Memᴰ dep deps
    → IsUp o dep
unfolding check_hard_dependencies_locked
dependencies-IsUp o [] h dep m = elim m [ ]
dependencies-IsUp o (d ∷ deps) h dep m = elim (Option-cases (lookup_entry o d)) [
  | inl l ↦ cc (rw (l, check_hard_dependencies_locked) at h)
  | inr (s, l) ↦ elim (Bool-cases (satisfies (o.store s).status)) [
    | inl k ↦ elim (cases_cons m) [
      | inl e ↦ subst (IsUp o) (sym e) (s, l, satisfies_up (o.store s).status k)
      | inr t ↦ dependencies-IsUp o deps (rw (l, k, check_hard_dependencies_locked) at h) dep t
    ]
    | inr k ↦ cc (rw (l, k, check_hard_dependencies_locked) at h)
  ]
]

-- All that StartService has found of an entry that it claims for the goroutine `goid`.
pub record IsClaimable (goid : ℕ) (o : Orchestrator) (name : Name) (r : Ref) : Type 0 where
  pub is_started : o.started ≡ true
  pub not_stopping : o.stopping ≡ false
  pub not_stopped : o.stopped ≡ false
  pub is_named : lookup_entry o name ≡ some r
  pub not_owned : lifecycle_owned_by (o.store r) goid ≡ false
  pub not_removing : (o.store r).removing ≡ false
  pub not_starting : (o.store r).starting ≡ false
  pub dependencies : (dep : Name) → Memᴰ dep (o.store r).cfg.depends_on → IsUp o dep
  pub not_running : (o.store r).status ≢ running
  pub exited : (c : Chan) → (o.store r).done ≡ some c → o.rt.closed c ≡ true

or-false : (a b : Bool) → a || b ≡ false → (a ≡ false) × (b ≡ false)
or-false true b h = cc h
or-false false b h = (refl, h)

not-false : (b : Bool) → not b ≡ false → b ≡ true
not-false true h = refl
not-false false h = cc h

gate-started :
    (o : Orchestrator)
    → start_gate o ≡ ok tt
    → (o.started ≡ true) × (o.stopping ≡ false) × (o.stopped ≡ false)
gate-started o h =
    let last = reject_if (not o.started) orchestrator_not_started in
    let (_, a, h1) =
      bind-ok (reject_if o.stopping orchestrator_stopping)
        (λ _. reject_if o.stopped orchestrator_stopped >> last) tt h in
    let (_, b, c) = bind-ok (reject_if o.stopped orchestrator_stopped) (λ _. last) tt h1 in
    (
      not-false o.started (reject_if-ok (not o.started) orchestrator_not_started tt c),
      reject_if-ok o.stopping orchestrator_stopping tt a,
      reject_if-ok o.stopped orchestrator_stopped tt b,
    )

-- StartService claims an entry only where the orchestrator is started and neither stopping nor
-- stopped; the name is the entry's; the caller is not the goroutine that runs the entry's own Start or
-- Stop; no operation has reserved it, as starting or as removing; every hard dependency is a registered
-- entry that is running or succeeded; and the entry is not running and its exit channel, if it has one,
-- is closed. It changes nothing but the entry's starting flag.
pub start_service_begin-claimed :
    (goid : ℕ) (o p : Orchestrator) (name : Name) (r : Ref)
    → start_service_begin goid o name ≡ (p, claimed r)
    → IsClaimable goid o name r
      × (p ≡ record o { store = write o.store r (record (o.store r) { starting = true }) })
start_service_begin-claimed goid o p name r h =
    let (ready, changed) = claimed-IsStartable goid o p name r h in
    let (on, unstopping, unstopped) = gate-started o ready.open_gate in
    let (unmarked, unclaimed) = or-false (o.store r).removing (o.store r).starting ready.idle in
    (
      record {
        is_started = on;
        not_stopping = unstopping;
        not_stopped = unstopped;
        is_named = ready.is_found;
        not_owned = ready.unowned;
        not_removing = unmarked;
        not_starting = unclaimed;
        dependencies = dependencies-IsUp o (o.store r).cfg.depends_on ready.satisfied;
        not_running = λ e. false≢true (sym ready.down ∙ ap is_running e);
        exited = λ c e. not-false (o.rt.closed c) (rw e at ready.no_instance);
      },
      changed,
    )

-- The refusals of an entry that is reserved: to its own goroutine, and to another one.
abbrev pub collision : Bool → Error
collision own = wraps (if own then reentrant_membership else membership_busy)

reserved-refused :
    (goid : ℕ) (p : Orchestrator) (name : Name) (r : Ref)
    → start_gate p ≡ ok tt
    → lookup_entry p name ≡ some r
    → is_busy (p.store r) ≡ true
    → start_service_begin goid p name
      ≡ (p, refused (collision (lifecycle_owned_by (p.store r) goid)))
unfolding start_service_begin start_checks entry_gate lifecycle_owned_by
reserved-refused goid p name r gate l busy =
    elim (Bool-cases (lifecycle_owned_by (p.store r) goid)) [
      | inl e ↦ rw (gate, l, find_entry, e) refl
      | inr e ↦ rw (gate, l, find_entry, e, busy) refl
    ]

-- Once StartService has claimed an entry, no second StartService of that name claims it, by whichever
-- goroutine: it is refused and changes nothing.
pub start_service_begin-exclusive :
    (goid again : ℕ) (o p : Orchestrator) (name : Name) (r : Ref)
    → IsRegistry o
    → start_service_begin goid o name ≡ (p, claimed r)
    → start_service_begin again p name
      ≡ (p, refused (collision (lifecycle_owned_by (p.store r) again)))
unfolding lookup_entry
start_service_begin-exclusive goid again o p name r reg h =
    let (ready, changed) = claimed-IsStartable goid o p name r h in
    let at_name : o.name_index name ≡ some r = sym (lookup_entry-eq o reg name) ∙ ready.is_found in
    subst
      (λ q.
        start_service_begin again q name
        ≡ (q, refused (collision (lifecycle_owned_by (q.store r) again))))
      (sym changed)
      (reserved-refused again (set_starting o r true) name r ready.open_gate
        (rw (at_name, lookup_entry) refl) (ground arith))
