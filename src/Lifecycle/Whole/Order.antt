-- ===== src/Lifecycle/Whole/Order.antt =====
-- Stop reaches every entry of the registry once.
use gorch.Base.{
  Bool, Bool-cases, true, false, not, ◌&&◌, ◌||◌, List, [], ◌∷◌, ◌++◌, Memᴰ, mem-append_cases,
  mem-append_left, mem-append_right, Distinct, Distinct-append, Option, some, Name, ◌≡◌, ◌↔◌, refl,
  sym, ap, subst, ◌∙◌, inl, inr,
}
use mathlib.Core.List.Memᴰ.{cases_cons}
use gorch.Entry.{ServiceEntry}
use gorch.Lifecycle.Whole.{
  select, is_persistent, is_not_persistent, no_spec, persistent_entries, non_persistent_entries,
  last_first, stop_order,
}
use mathlib.Core.Bool.{false≢true}
use gorch.Orchestrator.Registry.{IsRegistry}
use gorch.Orchestrator.{Ref, Orchestrator}
use gorch.Service.Errors.{Error}
use gorch.Topo.{names_of}
use gorch.Topo.Cycles.{topo_sort_for_stop_total}
use gorch.Topo.Levels.{flat}

-- The two tests are each other's negation.
other_test : (e : ServiceEntry) → is_not_persistent e ≡ not (is_persistent e)
other_test e = opposite (no_spec e) e.cfg.run_once
  where
    opposite : (a b : Bool) → b || not a ≡ not (a && not b)
    opposite true true = refl
    opposite true false = refl
    opposite false true = refl
    opposite false false = refl

pub select-mem :
    (test : ServiceEntry → Bool) (o : Orchestrator) (rs : List Ref) {r : Ref}
    → Memᴰ r (select test o rs)
    → Memᴰ r rs × (test (o.store r) ≡ true)
select-mem test o [] m = elim m [ ]
select-mem test o (x ∷ rs) {r} m = elim (Bool-cases (test (o.store x))) [
  | inl k ↦ elim (cases_cons (rw k at m)) [
    | inl e ↦ (Memᴰ.head e, ap (λ z. test (o.store z)) e ∙ k)
    | inr t ↦ let (m', h) = select-mem test o rs t in (Memᴰ.tail m', h)
  ]
  | inr k ↦ let (m', h) = select-mem test o rs (rw k at m) in (Memᴰ.tail m', h)
]

pub mem-select :
    (test : ServiceEntry → Bool) (o : Orchestrator) (rs : List Ref) {r : Ref}
    → Memᴰ r rs
    → test (o.store r) ≡ true
    → Memᴰ r (select test o rs)
mem-select test o [] m h = elim m [ ]
mem-select test o (x ∷ rs) {r} m h = elim (Bool-cases (test (o.store x))) [
  | inl k ↦
      rw k
        (elim (cases_cons m) [ inl e ↦ Memᴰ.head e | inr t ↦ Memᴰ.tail (mem-select test o rs t h) ])
  | inr k ↦ rw k (elim (cases_cons m) [
    | inl e ↦ cc (ap (λ z. test (o.store z)) e, h, k)
    | inr t ↦ mem-select test o rs t h
  ])
]

select-Distinct :
    (test : ServiceEntry → Bool) (o : Orchestrator) (rs : List Ref)
    → Distinct rs
    → Distinct (select test o rs)
select-Distinct test o [] d = tt
select-Distinct test o (x ∷ rs) d = elim (Bool-cases (test (o.store x))) [
  | inl k ↦ rw k ((λ m. d.0 (select-mem test o rs m).0), select-Distinct test o rs d.1)
  | inr k ↦ rw k (select-Distinct test o rs d.1)
]

-- Names of a list of entries.
names-mem :
    (store : Ref → ServiceEntry) (rs : List Ref) {n : Name}
    → Memᴰ n (names_of store rs)
    → (r : Ref) × Memᴰ r rs × (n ≡ (store r).name)
names-mem store [] m = elim m [ ]
names-mem store (x ∷ rs) m = elim (cases_cons m) [
  | inl e ↦ (x, Memᴰ.head refl, e)
  | inr t ↦ let (r, k, e) = names-mem store rs t in (r, Memᴰ.tail k, e)
]

mem-names :
    (store : Ref → ServiceEntry) (rs : List Ref) {r : Ref}
    → Memᴰ r rs
    → Memᴰ (store r).name (names_of store rs)
mem-names store [] m = elim m [ ]
mem-names store (x ∷ rs) (Memᴰ.head e) = Memᴰ.head (ap (λ z. (store z).name) e)
mem-names store (x ∷ rs) (Memᴰ.tail m) = Memᴰ.tail (mem-names store rs m)

names-Distinct :
    (store : Ref → ServiceEntry) (rs : List Ref)
    → ((r s : Ref) → Memᴰ r rs → Memᴰ s rs → (store r).name ≡ (store s).name → r ≡ s)
    → Distinct rs
    → Distinct (names_of store rs)
names-Distinct store [] inj d = tt
names-Distinct store (x ∷ rs) inj d = (
  λ m.
      let (r, k, e) = names-mem store rs m in
      d.0 (subst (λ z. Memᴰ z rs) (sym (inj x r (Memᴰ.head refl) (Memᴰ.tail k) e)) k),
  names-Distinct store rs (λ r s m k. inj r s (Memᴰ.tail m) (Memᴰ.tail k)) d.1,
)

Distinct-names :
    (store : Ref → ServiceEntry) (rs : List Ref) → Distinct (names_of store rs) → Distinct rs
Distinct-names store [] d = tt
Distinct-names store (x ∷ rs) d = ((λ m. d.0 (mem-names store rs m)), Distinct-names store rs d.1)

-- The levels in the other order hold the same entries.
last_first-mem :
    (levels : List (List Ref)) {r : Ref} → Memᴰ r (last_first levels) → Memᴰ r (flat levels)
last_first-mem [] m = m
last_first-mem (l ∷ ls) m = elim (mem-append_cases (last_first ls) m) [
  | inl k ↦ mem-append_right l (last_first-mem ls k)
  | inr k ↦ mem-append_left (flat ls) k
]

mem-last_first :
    (levels : List (List Ref)) {r : Ref} → Memᴰ r (flat levels) → Memᴰ r (last_first levels)
mem-last_first [] m = m
mem-last_first (l ∷ ls) m = elim (mem-append_cases l m) [
  | inl k ↦ mem-append_right (last_first ls) k
  | inr k ↦ mem-append_left l (mem-last_first ls k)
]

-- A list without repeats, cut in two.
Distinct-cut :
    (xs ys : List Ref)
    → Distinct (xs ++ ys)
    → Distinct xs × Distinct ys × ((r : Ref) → Memᴰ r xs → ¬ (Memᴰ r ys))
Distinct-cut [] ys d = (tt, d, λ r m. elim m [ ])
Distinct-cut (x ∷ xs) ys d =
    let (a, b, apart) = Distinct-cut xs ys d.1 in
    (
      ((λ m. d.0 (mem-append_left ys m)), a),
      b,
      λ r m k. elim (cases_cons m) [
        | inl e ↦ d.0 (mem-append_right xs (subst (λ z. Memᴰ z ys) e k))
        | inr t ↦ apart r t k
      ],
    )

last_first-Distinct :
    (levels : List (List Ref)) → Distinct (flat levels) → Distinct (last_first levels)
last_first-Distinct [] d = tt
last_first-Distinct (l ∷ ls) d =
    let (a, b, apart) = Distinct-cut l (flat ls) d in
    Distinct-append (last_first ls) l (last_first-Distinct ls b) a
      (λ r m k. apart r k (last_first-mem ls m))

-- In a registry the order of Stop exists, also where a hard or soft cycle stands among the persistent
-- services, and it names every entry of the registry exactly once.
pub stop_order_total :
    (o : Orchestrator)
    → IsRegistry o
    → (order : List Ref) × (e : Option Error) × (stop_order o ≡ some (order, e))
      × ((r : Ref) → Memᴰ r o.entries ↔ Memᴰ r order)
      × Distinct order
unfolding stop_order persistent_entries non_persistent_entries
stop_order_total o reg =
    let (levels, e, eq, same, once, _) = topo_sort_for_stop_total o.store persistent names_apart in
    (
      last_first levels ++ rest,
      e,
      rw (eq, stop_order),
      λ r. (
        λ m. elim (Bool-cases (is_persistent (o.store r))) [
          | inl k ↦
              mem-append_left rest
                (mem-last_first levels ((same r).0 (mem-select is_persistent o o.entries m k)))
          | inr k ↦
              mem-append_right (last_first levels)
                (mem-select is_not_persistent o o.entries m (other_test (o.store r) ∙ ap not k))
        ],
        λ m. elim (mem-append_cases (last_first levels) m) [
          | inl k ↦ (select-mem is_persistent o o.entries ((same r).1 (last_first-mem levels k))).0
          | inr k ↦ (select-mem is_not_persistent o o.entries k).0
        ],
      ),
      Distinct-append (last_first levels) rest
          (last_first-Distinct levels (Distinct-names o.store (flat levels) once))
          (select-Distinct is_not_persistent o o.entries reg.distinct)
          (λ r m k.
            let one =
              (select-mem is_persistent o o.entries ((same r).1 (last_first-mem levels m))).1 in
            let two = (select-mem is_not_persistent o o.entries k).1 in
            false≢true (sym (ap not one) ∙ sym (other_test (o.store r)) ∙ two)),
    )
  where
    persistent : List Ref
    persistent = persistent_entries o

    rest : List Ref
    rest = non_persistent_entries o

    inside : {r : Ref} → Memᴰ r persistent → Memᴰ r o.entries
    inside m = (select-mem is_persistent o o.entries m).0

    some_inj : {a b : Ref} → some a ≡ some b → a ≡ b
    some_inj h = cc h

    names_apart : Distinct (names_of o.store persistent)
    names_apart =
        names-Distinct o.store persistent
          (λ r s m k e.
            some_inj (sym (reg.listed r (inside m)) ∙ ap o.name_index e ∙ reg.listed s (inside k)))
          (select-Distinct is_persistent o o.entries reg.distinct)
