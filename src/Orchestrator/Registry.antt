-- ===== src/Orchestrator/Registry.antt =====
-- The invariant of the registry: the entry list and the name index hold the same entries.
use gorch.Graph.{lookup_entry}
use gorch.Graph.Paths.{Resolves}
use gorch.Base.{
  sym, ◌∙◌, subst, List, [], ◌∷◌, Option-cases, if_pos, if_neg, name_discrete, inl, inr, ◌<◌, ◌≡◌,
  Memᴰ, Distinct, some, Name,
}
use gorch.Orchestrator.{Ref, Orchestrator, find_named}

pub record IsRegistry (o : Orchestrator) : Type 0 where
  pub indexed :
      (n : Name) (r : Ref) → o.name_index n ≡ some r → Memᴰ r o.entries × ((o.store r).name ≡ n)
  pub listed : (r : Ref) → Memᴰ r o.entries → o.name_index (o.store r).name ≡ some r
  pub same_name : (r : Ref) → Memᴰ r o.entries → (o.store r).cfg.name ≡ (o.store r).name
  pub made : (r : Ref) → Memᴰ r o.entries → r < o.next_ref
  pub distinct : Distinct o.entries

module _ (o : Orchestrator) (reg : IsRegistry o) where
  find_named-some :
      (n : Name) (rs : List Ref) (r : Ref)
      → find_named o.store n rs ≡ some r
      → Memᴰ r rs × ((o.store r).cfg.name ≡ n)
  find_named-some n [] r h = cc
  find_named-some n (x ∷ rs) r h = elim (name_discrete (o.store x).cfg.name n) [
    | yes e ↦ let same : x ≡ r = cc (rw (if_pos _ e) at h) in (Memᴰ.head (sym same), rw (← same) e)
    | no k ↦ let (m, e) = find_named-some n rs r (rw (if_neg _ k) at h) in (Memᴰ.tail m, e)
  ]

  -- In a registry the scan of the list finds nothing that the index lacks.
  pub lookup_entry-eq : (n : Name) → lookup_entry o n ≡ o.name_index n
  unfolding lookup_entry
  lookup_entry-eq n = elim (Option-cases (o.name_index n)) [
    | inr (r, e) ↦ rw (e, lookup_entry)
    | inl e ↦ elim (Option-cases (find_named o.store n o.entries)) [
      | inl f ↦ rw (e, lookup_entry) f
      | inr (r, f) ↦
          let (m, k) = find_named-some n o.entries r f in
          let at_n : o.name_index n ≡ some r =
            subst (λ z. o.name_index z ≡ some r) (sym (reg.same_name r m) ∙ k) (reg.listed r m) in
          cc at_n
    ]
  ]

  pub registry-Resolves : Resolves o
  registry-Resolves n r e = (reg.indexed n r (sym (lookup_entry-eq n) ∙ e)).1

  pub lookup-name : (r : Ref) → Memᴰ r o.entries → lookup_entry o (o.store r).name ≡ some r
  lookup-name r m = lookup_entry-eq (o.store r).name ∙ reg.listed r m
