-- ===== src/Topo/Cycles.antt =====
-- When topoSort fails, and what a stop does then.
use gorch.Base.{
  ℕ, suc, ◌<◌, ◌≡◌, refl, sym, subst, ap, ◌∙◌, List, [], ◌∷◌, Memᴰ, Distinct, Option, none, some,
  Name, ◌↔◌, ◌⊎◌, inl, inr, length, zero, arith,
}
use mathlib.Core.List.{append-nil}
use gorch.Entry.{ServiceEntry}
use gorch.Orchestrator.{Ref}
use gorch.Service.Errors.{Error, Result, ok, err, wraps, dependency_cycle}
use gorch.Topo.{
  names_of, by_name, keys, no_edges, add_entries, rounds, topo_sort, topo_sort_for_stop,
}
use gorch.Topo.Edges.{mem_of-all_edges}
use gorch.Topo.Levels.{IsStuck, flat}
use gorch.Topo.Ends.{rounds-IsStuck}
use gorch.Topo.Order.{
  deps_of, es, node_set, start, start-IsAt, keys-eq, length-names_of, by_name-some,
  topo_sort-ne-none, topo_sort-levels,
}

module _ (store : Ref → ServiceEntry) (entries : List Ref) where
  -- A number for each name that falls along every dependency inside the set: there is no cycle.
  abbrev pub IsRank : (Name → ℕ) → Type 0
  IsRank rank =
      (r s : Ref)
      → Memᴰ r entries
      → Memᴰ s entries
      → Memᴰ (store s).name (deps_of store r)
      → rank (store s).name < rank (store r).name

  stuck :
      (e : Error)
      → Distinct (names_of store entries)
      → topo_sort store entries ≡ some (err e)
      → (e ≡ wraps dependency_cycle) × IsStuck store (es store entries) (keys store entries)
  unfolding topo_sort
  stuck e d h =
      rounds-IsStuck store (es store entries) (node_set store entries) (length entries)
        (start store entries) e (start-IsAt store entries)
        (subst
          (λ n.
            rounds (length entries) n (keys store entries)
              (add_entries (by_name store entries) store entries no_edges).children
              (by_name store entries) (start store entries)
            ≡ some (err e))
          (sym (length-names_of store entries) ∙ ap length (sym (keys-eq store entries d))) h)

  -- A rank falls for ever along stuck names.
  descend :
      (rank : Name → ℕ) (k : ℕ) (n : Name)
      → IsRank rank
      → (st : IsStuck store (es store entries) (keys store entries)) → rank n < k
      → Memᴰ n (keys store entries)
      → ¬ (Memᴰ n st.visited)
      → ⊥
  descend rank zero n ranked st lt m f = absurd (omega arith)
  descend rank (suc k) n ranked st lt m f =
      let (d, edge, g) = st.waits n m f in
      let (r, at_r, named, dep, s, present) =
        mem_of-all_edges (by_name store entries) store entries (d, n) edge in
      let (at_s, named_s) = by_name-some store entries d s present in
      let lower : rank d < rank n =
        subst (λ z. rank z < rank n) named_s
          (subst (λ z. rank (store s).name < rank z) named
            (ranked r s at_r at_s (subst (λ z. Memᴰ z (deps_of store r)) (sym named_s) dep))) in
      descend rank k d ranked st (omega (arith, lower, lt))
        ((node_set store entries).inside d n edge) g

  -- On entries of different names the sort has one error, ErrDependencyCycle, and it never comes
  -- if the dependencies inside the set can be ranked.
  pub topo_sort-err :
      (e : Error)
      → Distinct (names_of store entries)
      → topo_sort store entries ≡ some (err e)
      → (e ≡ wraps dependency_cycle) × ((rank : Name → ℕ) → ¬ (IsRank rank))
  topo_sort-err e d h =
      let (same, st) = stuck e d h in
      (
        same,
        λ rank ranked.
            descend rank (suc (rank st.first)) st.first ranked st (omega arith) st.first_inside
              st.first_unvisited,
      )

  -- A teardown reaches exactly the entries that it was given, each once and also where they hold a
  -- cycle; the error is then ErrDependencyCycle, and nil if there is an order.
  pub topo_sort_for_stop_total :
      Distinct (names_of store entries)
      → (levels : List (List Ref)) × (e : Option Error) × (topo_sort_for_stop store entries
          ≡ some (levels, e))
        × ((r : Ref) → Memᴰ r entries ↔ Memᴰ r (flat levels))
        × Distinct (names_of store (flat levels))
        × ((e ≡ none) × (topo_sort store entries ≡ some (ok levels))
            ⊎ (e ≡ some (wraps dependency_cycle)) × (levels ≡ entries ∷ []))
  unfolding topo_sort_for_stop
  topo_sort_for_stop_total d = by_result (topo_sort store entries) refl
    where
      by_result :
          (o : Option (Result (List (List Ref))))
          → topo_sort store entries ≡ o
          → (levels : List (List Ref)) × (e : Option Error) × (topo_sort_for_stop store entries
              ≡ some (levels, e))
            × ((r : Ref) → Memᴰ r entries ↔ Memᴰ r (flat levels))
            × Distinct (names_of store (flat levels))
            × ((e ≡ none) × (topo_sort store entries ≡ some (ok levels))
                ⊎ (e ≡ some (wraps dependency_cycle)) × (levels ≡ entries ∷ []))
      by_result none h = absurd (topo_sort-ne-none store entries h)
      by_result (some (ok levels)) h =
          let (same, once, _) = topo_sort-levels store entries levels d h in
          (levels, none, rw (h, topo_sort_for_stop), same, once, inl (refl, h))
      by_result (some (err e)) h = (
        entries ∷ [],
        some e,
        rw (h, topo_sort_for_stop),
        λ r. rw append-nil (λ m. m, λ m. m),
        rw append-nil d,
        inr (ap some (topo_sort-err e d h).0, refl),
      )
