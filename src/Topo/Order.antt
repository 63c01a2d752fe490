-- ===== src/Topo/Order.antt =====
-- topoSort as its callers see it: Start, Stop, and the group operations.
use gorch.Base.{
  suc, ◌≡◌, refl, sym, subst, ap, ◌∙◌, length, List, [], ◌∷◌, ◌++◌, Memᴰ, mem_dec, mem-append_left,
  mem-append_right, Distinct, Distinct-covers, none, some, Option-cases, Name, name_discrete,
  if_pos, if_neg, ◌≢◌, inl, inr, ◌↔◌, arith,
}
use mathlib.Core.List.Memᴰ.{cases_cons}
use mathlib.Core.List.{append_assoc, map-append}
use gorch.Entry.{ServiceEntry}
use gorch.Orchestrator.{Ref}
use gorch.Service.Errors.{ok}
use gorch.Topo.{Progress, names_of, by_name, keys, no_edges, add_entries, topo_sort}
use gorch.Topo.Edges.{Edge, all_edges, built, mem-all_edges, mem_of-all_edges}
use gorch.Topo.Levels.{IsNodeSet, IsAt, Levelled, level_names, flat}
use gorch.Topo.Ends.{rounds-ne-none}
use gorch.Topo.Loop.{IsComplete, rounds-IsComplete}

module _ (store : Ref → ServiceEntry) where
  name_of-mem : {r : Ref} {rs : List Ref} → Memᴰ r rs → Memᴰ (store r).name (names_of store rs)
  name_of-mem (Memᴰ.head e) = Memᴰ.head (ap (λ q. (store q).name) e)
  name_of-mem (Memᴰ.tail m) = Memᴰ.tail (name_of-mem m)

  mem_of-names :
      (n : Name) (rs : List Ref)
      → Memᴰ n (names_of store rs)
      → (r : Ref) × Memᴰ r rs × ((store r).name ≡ n)
  mem_of-names n [] m = elim m [ ]
  mem_of-names n (r ∷ rs) m = elim (cases_cons m) [
    | inl e ↦ (r, Memᴰ.head refl, sym e)
    | inr t ↦ let (s, k, e) = mem_of-names n rs t in (s, Memᴰ.tail k, e)
  ]

  pub by_name-some :
      (rs : List Ref) (n : Name) (r : Ref)
      → by_name store rs n ≡ some r
      → Memᴰ r rs × ((store r).name ≡ n)
  unfolding by_name
  by_name-some [] n r h = cc
  by_name-some (x ∷ rs) n r h = elim (Option-cases (by_name store rs n)) [
    | inr (s, e) ↦
        let same : s ≡ r = cc (rw (e, by_name) at h) in
        let (m, k) = by_name-some rs n r (e ∙ ap some same) in (Memᴰ.tail m, k)
    | inl e ↦ elim (name_discrete (store x).name n) [
      | yes k ↦
          let same : x ≡ r = cc (rw (e, if_pos _ k) at h) in (Memᴰ.head (sym same), rw (← same) k)
      | no k ↦ cc (rw (e, if_neg _ k) at h)
    ]
  ]

  by_name-mem :
      (n : Name) (rs : List Ref)
      → Memᴰ n (names_of store rs)
      → (r : Ref) × (by_name store rs n ≡ some r)
  unfolding by_name
  by_name-mem n [] m = elim m [ ]
  by_name-mem n (x ∷ rs) m = elim (Option-cases (by_name store rs n)) [
    | inr (s, e) ↦ (s, rw e)
    | inl e ↦ elim (cases_cons m) [
      | inl k ↦ (x, rw e (rw (if_pos _ (sym k))))
      | inr t ↦ let (s, e') = by_name-mem n rs t in cc (e, e')
    ]
  ]

  mem-keys : (n : Name) (rs : List Ref) → Memᴰ n (names_of store rs) → Memᴰ n (keys store rs)
  unfolding keys
  mem-keys n [] m = elim m [ ]
  mem-keys n (x ∷ rs) m = elim (mem_dec name_discrete (store x).name (names_of store rs)) [
    | yes k ↦ rw (if_pos _ k) (
        mem-keys n rs (elim (cases_cons m) [
          | inl e ↦ subst (λ z. Memᴰ z (names_of store rs)) (sym e) k
          | inr t ↦ t
        ]))
    | no k ↦
        rw (if_neg _ k)
          (elim (cases_cons m) [ inl e ↦ Memᴰ.head e | inr t ↦ Memᴰ.tail (mem-keys n rs t) ])
  ]

  mem_of-keys : (n : Name) (rs : List Ref) → Memᴰ n (keys store rs) → Memᴰ n (names_of store rs)
  unfolding keys
  mem_of-keys n [] m = elim m [ ]
  mem_of-keys n (x ∷ rs) m = elim (mem_dec name_discrete (store x).name (names_of store rs)) [
    | yes k ↦ Memᴰ.tail (mem_of-keys n rs (rw (if_pos _ k) at m))
    | no k ↦ elim (cases_cons (rw (if_neg _ k) at m)) [
      | inl e ↦ Memᴰ.head e
      | inr t ↦ Memᴰ.tail (mem_of-keys n rs t)
    ]
  ]

  Distinct-keys : (rs : List Ref) → Distinct (keys store rs)
  unfolding keys
  Distinct-keys [] = tt
  Distinct-keys (x ∷ rs) = elim (mem_dec name_discrete (store x).name (names_of store rs)) [
    | yes k ↦ rw (if_pos _ k) (Distinct-keys rs)
    | no k ↦ rw (if_neg _ k) (λ m. k (mem_of-keys (store x).name rs m), Distinct-keys rs)
  ]

  pub keys-eq : (rs : List Ref) → Distinct (names_of store rs) → keys store rs ≡ names_of store rs
  unfolding keys
  keys-eq [] d = refl
  keys-eq (r ∷ rs) d = rw (if_neg _ d.0) (ap (◌∷◌ (store r).name) (keys-eq rs d.1))

  pub length-names_of : (rs : List Ref) → length (names_of store rs) ≡ length rs
  length-names_of [] = refl
  length-names_of (r ∷ rs) = ap suc (length-names_of rs)

  -- Entries of different names are told apart by their names.
  same_entry :
      (rs : List Ref) (r s : Ref)
      → Distinct (names_of store rs)
      → Memᴰ r rs
      → Memᴰ s rs
      → (store r).name ≡ (store s).name
      → r ≡ s
  same_entry [] r s d m k e = elim m [ ]
  same_entry (x ∷ rs) r s d m k e = elim (cases_cons m) [
    | inl a ↦ elim (cases_cons k) [
      | inl b ↦ a ∙ sym b
      | inr b ↦ absurd (
          d.0 (
            subst (λ n. Memᴰ n (names_of store rs)) (sym e ∙ ap (λ q. (store q).name) a)
              (name_of-mem b)))
    ]
    | inr a ↦ elim (cases_cons k) [
      | inl b ↦ absurd (
          d.0 (
            subst (λ n. Memᴰ n (names_of store rs)) (e ∙ ap (λ q. (store q).name) b)
              (name_of-mem a)))
      | inr b ↦ same_entry rs r s d.1 a b e
    ]
  ]

  -- The hard and the soft dependencies of an entry.
  abbrev pub deps_of : Ref → List Name
  deps_of r = (store r).cfg.depends_on ++ (store r).cfg.soft_depends_on

  module _ (entries : List Ref) where
    abbrev pub es : List Edge
    es = all_edges (by_name store entries) store entries

    pub node_set :
        IsNodeSet store es
          (keys store entries)
          (add_entries (by_name store entries) store entries no_edges).children
          (by_name store entries)
    node_set = record {
      kids_of = (built (by_name store entries) store entries).kids_of;
      distinct = Distinct-keys entries;
      named = λ n m.
          let (r, e) = by_name-mem n entries (mem_of-keys n entries m) in
          (r, e, (by_name-some entries n r e).1);
      inside = λ d c m.
          let (r, a, b, k, s, e) =
            mem_of-all_edges (by_name store entries) store entries (d, c) m in
          let (j, named) = by_name-some entries d s e in
          mem-keys d entries (subst (λ n. Memᴰ n (names_of store entries)) named (name_of-mem j));
    }

    abbrev pub start : Progress
    start = record {
      visited = [];
      in_degree = (add_entries (by_name store entries) store entries no_edges).in_degree;
    }

    pub start-IsAt : IsAt store es (keys store entries) start
    start-IsAt = record {
      counts = (built (by_name store entries) store entries).degrees;
      visited_distinct = tt;
      visited_inside = λ n m. elim m [ ];
    }

    -- The sort returns, on any list of entries: a round for each is enough.
    pub topo_sort-ne-none : topo_sort store entries ≢ none
    unfolding topo_sort
    topo_sort-ne-none =
        rounds-ne-none store es node_set (length entries) (length entries) start start-IsAt
          (omega arith)

    complete :
        (levels : List (List Ref))
        → topo_sort store entries ≡ some (ok levels)
        → IsComplete store es node_set (length entries) [] levels
    unfolding topo_sort
    complete levels h =
        rounds-IsComplete store es node_set (length entries) (length entries) start levels
          start-IsAt h

    level_names-flat :
        (levels : List (List Ref)) → level_names store es levels ≡ names_of store (flat levels)
    level_names-flat [] = refl
    level_names-flat (level ∷ levels) =
        ap (◌++◌ (names_of store level)) (level_names-flat levels)
        ∙ sym (map-append (λ r. (store r).name) level (flat levels))

    -- The levels before the one that an entry stands in hold its dependencies.
    before_level :
        (v : List Name) (before : List (List Ref)) (level : List Ref) (after : List (List Ref))
        (c d : Name)
        → Levelled store es v (before ++ level ∷ after)
        → Memᴰ c (names_of store level)
        → Memᴰ (d, c) es
        → Memᴰ d (v ++ level_names store es before)
    before_level v [] level after c d h m e = mem-append_left [] (h.0 c d m e)
    before_level v (l ∷ before) level after c d h m e =
        subst (Memᴰ d) (append_assoc v (names_of store l) (level_names store es before))
          (before_level (v ++ names_of store l) before level after c d h.1 m e)

    flat-append : (xs ys : List (List Ref)) → flat (xs ++ ys) ≡ flat xs ++ flat ys
    flat-append [] ys = refl
    flat-append (x ∷ xs) ys =
        ap (◌++◌ x) (flat-append xs ys) ∙ sym (append_assoc x (flat xs) (flat ys))

  -- On entries of different names, the levels hold each entry once and nothing else, and every
  -- dependency of an entry of a level that is in the set, hard or soft, stands in an earlier level.
  pub topo_sort-levels :
      (entries : List Ref) (levels : List (List Ref))
      → Distinct (names_of store entries)
      → topo_sort store entries ≡ some (ok levels)
      → ((r : Ref) → Memᴰ r entries ↔ Memᴰ r (flat levels))
        × Distinct (names_of store (flat levels))
        × ((before : List (List Ref)) (level : List Ref) (after : List (List Ref)) (r s : Ref)
            → levels ≡ before ++ level ∷ after
            → Memᴰ r level
            → Memᴰ s entries
            → Memᴰ (store s).name (deps_of r)
            → Memᴰ s (flat before))
  topo_sort-levels entries levels d h = (
    λ r. (covered r, of_set r),
    subst Distinct (level_names-flat entries levels) c.each_once,
    earlier,
  )
    where
      c : IsComplete store (es entries) (node_set entries) (length entries) [] levels
      c = complete entries levels h

      of_set : (r : Ref) → Memᴰ r (flat levels) → Memᴰ r entries
      of_set r m = (by_name-some entries (store r).name r (c.own r m)).0

      named :
          (s : Ref)
          → Memᴰ s entries
          → (n : Name) → (store s).name ≡ n
          → (rs : List Ref) → ((q : Ref) → Memᴰ q rs → Memᴰ q entries)
          → Memᴰ n (names_of store rs)
          → Memᴰ s rs
      named s k n e rs sub m =
          let (q, j, e') = mem_of-names n rs m in
          subst (λ z. Memᴰ z rs) (same_entry entries q s d (sub q j) k (e' ∙ sym e)) j

      all_names :
          (n : Name) → Memᴰ n (names_of store entries) → Memᴰ n (names_of store (flat levels))
      all_names n m = elim (mem_dec name_discrete n (names_of store (flat levels))) [
        | yes j ↦ j
        | no f ↦ absurd (
            Distinct-covers (names_of store (flat levels)) (names_of store entries)
              (subst Distinct (level_names-flat entries levels) c.each_once)
              (λ a k.
                mem_of-keys a entries
                  (c.all_inside a (subst (Memᴰ a) (sym (level_names-flat entries levels)) k)))
              (omega (
                arith,
                length-names_of entries,
                c.enough,
                ap length (level_names-flat entries levels),
              ))
              n m f)
      ]

      covered : (r : Ref) → Memᴰ r entries → Memᴰ r (flat levels)
      covered r m = named r m (store r).name refl (flat levels) of_set (all_names _ (name_of-mem m))

      earlier :
          (before : List (List Ref)) (level : List Ref) (after : List (List Ref)) (r s : Ref)
          → levels ≡ before ++ level ∷ after
          → Memᴰ r level
          → Memᴰ s entries
          → Memᴰ (store s).name (deps_of r)
          → Memᴰ s (flat before)
      earlier before level after r s e m k dep =
          let at_r : Memᴰ r (flat levels) =
            subst (λ l. Memᴰ r (flat l)) (sym e)
              (subst (Memᴰ r) (sym (flat-append entries before (level ∷ after)))
                (mem-append_right (flat before) (mem-append_left (flat after) m))) in
          let (q, present) = by_name-mem (store s).name entries (name_of-mem k) in
          let edge : Memᴰ ((store s).name, (store r).name) (es entries) =
            mem-all_edges (by_name store entries) store (store s).name (of_set r at_r) dep
              present in
          named s k (store s).name refl (flat before)
            (λ z j. of_set z (
              subst (λ l. Memᴰ z (flat l)) (sym e)
                (subst (Memᴰ z) (sym (flat-append entries before (level ∷ after)))
                  (mem-append_left (level ++ flat after) j))))
            (subst (Memᴰ (store s).name) (level_names-flat entries before) (
              before_level entries [] before level after (store r).name (store s).name
                (subst (Levelled store (es entries) []) e c.levelled) (name_of-mem m) edge))
