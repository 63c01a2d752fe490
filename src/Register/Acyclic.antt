-- ===== src/Register/Acyclic.antt =====
-- The dependency graph stays acyclic: what the cycle checks of a registration are for.
use gorch.Base.{
  ◌≡◌, refl, sym, subst, ap, ◌∙◌, List, ◌++◌, Memᴰ, none, some, Name, name_discrete, ◌≢◌, ◌⊎◌, inl,
  inr,
}
use gorch.Entry.{ServiceEntry}
use gorch.Graph.{lookup_entry}
use gorch.Graph.Paths.{edges, DependsOn, direct, through}
use gorch.Orchestrator.{Ref, Orchestrator}
use gorch.Orchestrator.Registry.{IsRegistry, lookup_entry-eq, lookup-name}
use gorch.Register.{insert_entry}
use gorch.Register.Insert.{
  insert-IsRegistry, lookup_new, lookup_old, store_old, store_new, mem_cases,
}

-- No registered entry depends on itself, by hard and soft dependencies.
abbrev pub IsAcyclic : Orchestrator → Type 0
IsAcyclic o = (r : Ref) → Memᴰ r o.entries → ¬ (DependsOn o (o.store r).name r)

DependsOn-trans :
    (o : Orchestrator) (m : Name) {t : Name} {r : Ref} (s : Ref)
    → DependsOn o m r
    → lookup_entry o m ≡ some s
    → DependsOn o t s
    → DependsOn o t r
DependsOn-trans o m s (direct e) l q = through m e l q
DependsOn-trans o m s (through d e k p) l q = through d e k (DependsOn-trans o m s p l q)

-- What the loops over the dependencies check of a new entry.
abbrev pub NoPathBack : Orchestrator → Name → List Name → Type 0
NoPathBack o name deps =
    (d : Name)
    → Memᴰ d deps
    → (d ≢ name) × ((r : Ref) → lookup_entry o d ≡ some r → ¬ (DependsOn o name r))

module _ (o : Orchestrator) (e : ServiceEntry) (reg : IsRegistry o) (own : e.cfg.name ≡ e.name)
    (free : o.name_index e.name ≡ none)
    (checked : NoPathBack o e.name (e.cfg.depends_on ++ e.cfg.soft_depends_on)) where
  abbrev o' : Orchestrator
  o' = insert_entry o e

  edges_old : (r : Ref) → Memᴰ r o.entries → edges o' r ≡ edges o r
  edges_old r m =
      ap (λ (x : ServiceEntry). x.cfg.depends_on ++ x.cfg.soft_depends_on)
        (store_old o e reg own free r m)

  edges_new : edges o' o.next_ref ≡ e.cfg.depends_on ++ e.cfg.soft_depends_on
  edges_new =
      ap (λ (x : ServiceEntry). x.cfg.depends_on ++ x.cfg.soft_depends_on)
        (store_new o e reg own free)

  found_old : (d : Name) (s : Ref) → lookup_entry o d ≡ some s → Memᴰ s o.entries
  found_old d s l = (reg.indexed d s (sym (lookup_entry-eq o reg d) ∙ l)).0

  -- A path from an old entry was there before, or reaches the new name first.
  split_path :
      (t : Name) {r : Ref}
      → DependsOn o' t r
      → Memᴰ r o.entries
      → DependsOn o t r ⊎ (DependsOn o e.name r × DependsOn o' t o.next_ref)
  split_path t {r} (direct m) at_r = inl (direct (subst (Memᴰ t) (edges_old r at_r) m))
  split_path t {r} (through d {next = s} m l p) at_r =
      let m' : Memᴰ d (edges o r) = subst (Memᴰ d) (edges_old r at_r) m in
      elim (name_discrete d e.name) [
        | yes k ↦
            let same : o.next_ref ≡ s =
              cc (lookup_new o e reg own free, subst (λ n. lookup_entry o' n ≡ some s) k l) in
            inr (direct (subst (λ n. Memᴰ n (edges o r)) k m'), subst (DependsOn o' t) (sym same) p)
        | no k ↦
            let l' : lookup_entry o d ≡ some s = sym (lookup_old o e reg own free d k) ∙ l in
            elim (split_path t p (found_old d s l')) [
              | inl q ↦ inl (through d m' l' q)
              | inr (q, back) ↦ inr (through d m' l' q, back)
            ]
      ]

  -- The new entry is on no cycle.
  new_acyclic : {r : Ref} → DependsOn o' e.name r → r ≡ o.next_ref → ⊥
  new_acyclic (direct m) k =
      (checked e.name (subst (Memᴰ e.name) edges_new (subst (λ q. Memᴰ e.name (edges o' q)) k m))).0
        refl
  new_acyclic (through d {next = s} m l p) k =
      let (ne, no_path) =
        checked d (subst (Memᴰ d) edges_new (subst (λ q. Memᴰ d (edges o' q)) k m)) in
      let l' : lookup_entry o d ≡ some s = sym (lookup_old o e reg own free d ne) ∙ l in
      elim (split_path e.name p (found_old d s l')) [
        | inl q ↦ no_path s l' q
        | inr (q, _) ↦ no_path s l' q
      ]

  -- A path of the old graph is one of the new graph.
  keep_path : {t : Name} {r : Ref} → DependsOn o t r → Memᴰ r o.entries → DependsOn o' t r
  keep_path {t} {r} (direct m) at_r = direct (subst (Memᴰ t) (sym (edges_old r at_r)) m)
  keep_path {t} {r} (through d {next = s} m l p) at_r =
      let other : d ≢ e.name =
        λ k. cc (free, sym (lookup_entry-eq o reg d) ∙ l, ap o.name_index k) in
      through d (subst (Memᴰ d) (sym (edges_old r at_r)) m)
        (lookup_old o e reg own free d other ∙ l) (keep_path p (found_old d s l))

  pub insert-IsAcyclic : IsAcyclic o → IsAcyclic o'
  insert-IsAcyclic acyclic r m p = elim (mem_cases o e reg own free r m) [
    | inr k ↦
        let named : (o'.store r).name ≡ e.name =
          ap (λ q. (o'.store q).name) k
          ∙ ap (λ (x : ServiceEntry). x.name) (store_new o e reg own free) in
        new_acyclic (subst (λ n. DependsOn o' n r) named p) k
    | inl at_r ↦
        let same : (o'.store r).name ≡ (o.store r).name =
          ap (λ (x : ServiceEntry). x.name) (store_old o e reg own free r at_r) in
        elim (split_path (o'.store r).name p at_r) [
          | inl q ↦ acyclic r at_r (subst (λ n. DependsOn o n r) same q)
          | inr (q, back) ↦
              new_acyclic
                (DependsOn-trans o' (o'.store r).name r back
                  (lookup-name o' (insert-IsRegistry o e reg own free) r m) (keep_path q at_r))
                refl
        ]
  ]
