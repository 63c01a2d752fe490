-- ===== src/Register/Insert.antt =====
-- A new entry under a free name keeps the registry in order.
use gorch.Base.{
  ◌≡◌, refl, sym, subst, ap, ◌∙◌, [], ◌∷◌, Memᴰ, mem-append_cases, mem-append_left,
  mem-append_right, Distinct-append, none, some, Name, name_discrete, if_pos, if_neg, ◌≢◌, ◌⊎◌, inl,
  inr, arith,
}
use mathlib.Core.List.Memᴰ.{cases_cons}
use gorch.Entry.{ServiceEntry}
use gorch.Graph.{lookup_entry}
use gorch.Orchestrator.{Ref, Orchestrator}
use gorch.Orchestrator.Registry.{IsRegistry, lookup_entry-eq}
use gorch.Register.{insert_entry}

module _ (o : Orchestrator) (e : ServiceEntry) (reg : IsRegistry o) (own : e.cfg.name ≡ e.name)
    (free : o.name_index e.name ≡ none) where
  abbrev o' : Orchestrator
  o' = insert_entry o e

  pub store_old : (r : Ref) → Memᴰ r o.entries → o'.store r ≡ o.store r
  store_old r m = ground (arith, reg.made r m)

  pub store_new : o'.store o.next_ref ≡ e
  store_new = ground arith

  named_otherwise : (r : Ref) → Memᴰ r o.entries → (o.store r).name ≢ e.name
  named_otherwise r m h =
      let at_r : o.name_index e.name ≡ some r =
        subst (λ n. o.name_index n ≡ some r) h (reg.listed r m) in
      cc (at_r, free)

  pub mem_cases : (r : Ref) → Memᴰ r o'.entries → Memᴰ r o.entries ⊎ (r ≡ o.next_ref)
  mem_cases r m = elim (mem-append_cases o.entries m) [
    | inl a ↦ inl a
    | inr b ↦ elim (cases_cons b) [ inl h ↦ inr h | inr t ↦ elim t [ ] ]
  ]

  insert-indexed :
      (n : Name) (r : Ref) → o'.name_index n ≡ some r → Memᴰ r o'.entries × ((o'.store r).name ≡ n)
  insert-indexed n r h = elim (name_discrete n e.name) [
    | yes k ↦
        let same : o.next_ref ≡ r = cc (rw (if_pos _ k) at h) in
        (
          mem-append_right o.entries (Memᴰ.head (sym same)),
          subst (λ q. (o'.store q).name ≡ n) same
              (ap (λ (x : ServiceEntry). x.name) store_new ∙ sym k),
        )
    | no k ↦
        let (m, named) = reg.indexed n r (rw (if_neg _ k) at h) in
        (mem-append_left _ m, ap (λ (x : ServiceEntry). x.name) (store_old r m) ∙ named)
  ]

  insert-listed : (r : Ref) → Memᴰ r o'.entries → o'.name_index (o'.store r).name ≡ some r
  insert-listed r m = elim (mem_cases r m) [
    | inl a ↦
        subst (λ (x : ServiceEntry). o'.name_index x.name ≡ some r) (sym (store_old r a))
          (rw (if_neg _ (named_otherwise r a)) (reg.listed r a))
    | inr k ↦
        subst (λ q. o'.name_index (o'.store q).name ≡ some q) (sym k)
          (subst (λ (x : ServiceEntry). o'.name_index x.name ≡ some o.next_ref) (sym store_new)
            (rw (if_pos (name_discrete e.name e.name) refl)))
  ]

  pub insert-IsRegistry : IsRegistry o'
  insert-IsRegistry = record {
    indexed = insert-indexed;
    listed = insert-listed;
    same_name = λ r m. elim (mem_cases r m) [
      | inl a ↦
          subst (λ (x : ServiceEntry). x.cfg.name ≡ x.name) (sym (store_old r a))
            (reg.same_name r a)
      | inr k ↦
          subst (λ q. (o'.store q).cfg.name ≡ (o'.store q).name) (sym k)
            (subst (λ (x : ServiceEntry). x.cfg.name ≡ x.name) (sym store_new) own)
    ];
    made =
        λ r m. elim (mem_cases r m) [ inl a ↦ omega (arith, reg.made r a) | inr k ↦ omega arith ];
    distinct =
        Distinct-append o.entries (o.next_ref ∷ []) reg.distinct (λ k. elim k [ ], tt)
          (λ a m k. elim (cases_cons k) [
            | inl h ↦ absurd (omega (arith, reg.made a m))
            | inr t ↦ elim t [ ]
          ]);
  }

  -- Lookup finds the new entry under its name, and the old ones as before.
  pub lookup_new : lookup_entry o' e.name ≡ some o.next_ref
  lookup_new =
      lookup_entry-eq o' insert-IsRegistry e.name
      ∙ if_pos (name_discrete e.name e.name) refl (some o.next_ref) (o.name_index e.name)

  pub lookup_old : (n : Name) → n ≢ e.name → lookup_entry o' n ≡ lookup_entry o n
  lookup_old n k =
      lookup_entry-eq o' insert-IsRegistry n
      ∙ if_neg (name_discrete n e.name) k (some o.next_ref) (o.name_index n)
      ∙ sym (lookup_entry-eq o reg n)
