-- ===== src/Register/Checks.antt =====
-- What an accepted configuration has passed.
use gorch.Base.{
  ◌≡◌, refl, sym, subst, ap, ◌∙◌, List, [], ◌∷◌, ◌++◌, Memᴰ, mem-append_cases, Option, none, some,
  Name, name_discrete, Option-cases, ◌≢◌, inl, inr, if_pos, if_neg, Bool, true, false,
}
use mathlib.Core.List.Memᴰ.{cases_cons}
use gorch.Graph.{lookup_entry, depends_on_path}
use gorch.Graph.Search.{depends_on_path-decides}
use gorch.Graph.Paths.{DependsOn}
use gorch.Orchestrator.{Ref, Orchestrator}
use gorch.Orchestrator.Registry.{IsRegistry, lookup_entry-eq, lookup-name, registry-Resolves}
use gorch.Service.{RegisterConfig}
use gorch.Service.Errors.{
  Sentinel, Result, ok, err, ◌>>=◌, ◌>>◌, reject_if, dependency_cycle, dependency_removing,
  duplicate_name,
}
use gorch.Register.{check_hard, check_soft, check_each, check_graph, no_path_back, is_some}
use gorch.Register.Acyclic.{NoPathBack}

pub bind-ok {ℓ κ} :
    {A : Type ℓ} {B : Type κ} (m : Result A) (f : A → Result B) (b : B)
    → (m >>= f) ≡ ok b
    → (a : A) × (m ≡ ok a) × (f a ≡ ok b)
bind-ok (ok a) f b h = (a, refl, h)
bind-ok (err e) f b h = cc

pub reject_if-ok : (c : Bool) (s : Sentinel) (u : Unit) → reject_if c s ≡ ok u → c ≡ false
reject_if-ok true s u h = cc
reject_if-ok false s u h = refl

is_some-false {ℓ} : {A : Type ℓ} (x : Option A) → is_some x ≡ false → x ≡ none
is_some-false none h = refl
is_some-false (some a) h = cc

check_each-ok :
    (check : Name → Result Unit) (deps : List Name)
    → check_each check deps ≡ ok tt
    → (d : Name) → Memᴰ d deps
    → check d ≡ ok tt
unfolding check_each
check_each-ok check [] h d m = elim m [ ]
check_each-ok check (x ∷ deps) h d m =
    let (_, first, rest) = bind-ok (check x) (λ _. check_each check deps) tt h in
    elim (cases_cons m) [ inl e ↦ ap check e ∙ first | inr k ↦ check_each-ok check deps rest d k ]

module _ (o : Orchestrator) (reg : IsRegistry o) (name : Name) where
  no_path_back-ok :
      (d : Name) (r : Ref)
      → lookup_entry o d ≡ some r
      → no_path_back o r name ≡ ok tt
      → ¬ (DependsOn o name r)
  no_path_back-ok d r l h p =
      let (b, found, rejected) =
        bind-ok (depends_on_path o (some r) name) (λ x. reject_if x dependency_cycle) tt h in
      let m = (reg.indexed d r (sym (lookup_entry-eq o reg d) ∙ l)).0 in
      let decides =
        depends_on_path-decides o r name b (registry-Resolves o reg) (lookup-name o reg r m)
          found in
      cc (decides.1 p, reject_if-ok b dependency_cycle tt rejected)

  -- An accepted hard dependency is another service, registered and not on its way out, with no path back.
  pub check_hard-ok :
      (d : Name)
      → check_hard o name d ≡ ok tt
      → (d ≢ name)
        × ((r : Ref) × (lookup_entry o d ≡ some r)
            × ((o.store r).removing ≡ false)
            × ¬ (DependsOn o name r))
  check_hard-ok d h = elim (name_discrete d name) [
    | yes e ↦ cc (rw (if_pos _ e) at h)
    | no k ↦ elim (Option-cases (lookup_entry o d)) [
      | inl l ↦ cc (rw (if_neg _ k, l) at h)
      | inr (r, l) ↦
          let (_, idle, path) =
            bind-ok (reject_if (o.store r).removing dependency_removing)
              (λ _. no_path_back o r name) tt (rw (if_neg _ k, l) at h) in
          (
            k,
            (
              r,
              l,
              reject_if-ok (o.store r).removing dependency_removing tt idle,
              no_path_back-ok d r l path,
            ),
          )
    ]
  ]

  check_soft-ok :
      (d : Name)
      → check_soft o name d ≡ ok tt
      → (d ≢ name) × ((r : Ref) → lookup_entry o d ≡ some r → ¬ (DependsOn o name r))
  check_soft-ok d h = elim (name_discrete d name) [
    | yes e ↦ cc (rw (if_pos _ e) at h)
    | no k ↦ (k, λ r l. no_path_back-ok d r l (rw (if_neg _ k, l) at h))
  ]

-- What an accepted configuration is like in the graph it was checked against.
pub record IsAccepted (o : Orchestrator) (cfg : RegisterConfig) : Type 0 where
  pub is_free : o.name_index cfg.name ≡ none
  pub hard_ready :
      (d : Name)
      → Memᴰ d cfg.depends_on
      → (r : Ref) × (lookup_entry o d ≡ some r) × ((o.store r).removing ≡ false)
  pub no_cycle : NoPathBack o cfg.name (cfg.depends_on ++ cfg.soft_depends_on)

pub check_graph-ok :
    (o : Orchestrator) (reg : IsRegistry o) (cfg c : RegisterConfig)
    → check_graph o cfg ≡ ok c
    → (cfg ≡ c) × IsAccepted o cfg
unfolding check_graph
check_graph-ok o reg cfg c h =
    let (_, free, h1) =
      bind-ok (reject_if (is_some (o.name_index cfg.name)) duplicate_name)
        (λ _.
          check_each (check_hard o cfg.name) cfg.depends_on
          >> (check_each (check_soft o cfg.name) cfg.soft_depends_on >> ok cfg))
        c h in
    let (_, hard, h2) =
      bind-ok (check_each (check_hard o cfg.name) cfg.depends_on)
        (λ _. check_each (check_soft o cfg.name) cfg.soft_depends_on >> ok cfg) c h1 in
    let (_, soft, same) =
      bind-ok (check_each (check_soft o cfg.name) cfg.soft_depends_on) (λ _. ok cfg) c h2 in
    let each_hard = λ (d : Name) (m : Memᴰ d cfg.depends_on).
      check_hard-ok o reg cfg.name d
        (check_each-ok (check_hard o cfg.name) cfg.depends_on hard d m) in
    (
      cc same,
      record {
        is_free =
            is_some-false (o.name_index cfg.name)
              (reject_if-ok (is_some (o.name_index cfg.name)) duplicate_name tt free);
        hard_ready = λ d m. let (_, (r, l, idle, _)) = each_hard d m in (r, l, idle);
        no_cycle = λ d m. elim (mem-append_cases cfg.depends_on m) [
          | inl a ↦
              let (ne, (r, l, _, path)) = each_hard d a in
              (ne, λ s k. subst (λ q. ¬ (DependsOn o cfg.name q)) (cc (l, k)) path)
          | inr b ↦
              check_soft-ok o reg cfg.name d
                (check_each-ok (check_soft o cfg.name) cfg.soft_depends_on soft d b)
        ];
      },
    )
