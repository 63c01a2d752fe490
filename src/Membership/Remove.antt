-- ===== src/Membership/Remove.antt =====
-- A removal takes the entry out of the registry and leaves the rest in order.
use gorch.Base.{
  List, [], ◌∷◌, ◌++◌, Memᴰ, none, some, Name, name_discrete, if_pos, if_neg, ◌≡◌, ◌≢◌, refl, sym,
  ap, subst, ◌∙◌, inl, inr, arith, ℕ_discrete, Distinct,
}
use mathlib.Core.List.Memᴰ.{cases_cons}
use gorch.Entry.{ServiceEntry}
use gorch.Graph.{lookup_entry}
use gorch.Graph.Paths.{edges, DependsOn, direct, through}
use gorch.Orchestrator.{Ref, Orchestrator}
use gorch.Orchestrator.Registry.{IsRegistry, lookup_entry-eq}
use gorch.Register.Acyclic.{IsAcyclic}
use gorch.Membership.{remove_entry_locked, filter_out}

pub filter_out-head :
    (e x : Ref) (es : List Ref) → x ≢ e → filter_out e (x ∷ es) ≡ x ∷ filter_out e es
filter_out-head e x es k = ground arith

pub filter_out-mem :
    (e : Ref) (es : List Ref) {r : Ref} → Memᴰ r (filter_out e es) → Memᴰ r es × (r ≢ e)
filter_out-mem e [] m = elim m [ ]
filter_out-mem e (x ∷ es) {r} m = elim (ℕ_discrete x e) [
  | yes k ↦
      let skip : filter_out e (x ∷ es) ≡ filter_out e es = ground (arith, k) in
      let (m', n) = filter_out-mem e es (subst (Memᴰ r) skip m) in (Memᴰ.tail m', n)
  | no k ↦ elim (cases_cons (subst (Memᴰ r) (filter_out-head e x es k) m)) [
    | inl h ↦ (Memᴰ.head h, λ z. k (sym h ∙ z))
    | inr t ↦ let (m', n) = filter_out-mem e es t in (Memᴰ.tail m', n)
  ]
]

pub mem-filter_out :
    (e : Ref) (es : List Ref) {r : Ref} → Memᴰ r es → r ≢ e → Memᴰ r (filter_out e es)
mem-filter_out e [] m n = elim m [ ]
mem-filter_out e (x ∷ es) {r} m n = elim (ℕ_discrete x e) [
  | yes k ↦
      let skip : filter_out e (x ∷ es) ≡ filter_out e es = ground (arith, k) in
      elim (cases_cons m) [
        | inl h ↦ absurd (n (h ∙ k))
        | inr t ↦ subst (Memᴰ r) (sym skip) (mem-filter_out e es t n)
      ]
  | no k ↦
      subst (Memᴰ r) (sym (filter_out-head e x es k))
        (elim (cases_cons m) [ inl h ↦ Memᴰ.head h | inr t ↦ Memᴰ.tail (mem-filter_out e es t n) ])
]

pub filter_out-Distinct : (e : Ref) (es : List Ref) → Distinct es → Distinct (filter_out e es)
filter_out-Distinct e [] d = tt
filter_out-Distinct e (x ∷ es) d = elim (ℕ_discrete x e) [
  | yes k ↦
      let skip : filter_out e (x ∷ es) ≡ filter_out e es = ground (arith, k) in
      subst Distinct (sym skip) (filter_out-Distinct e es d.1)
  | no k ↦
      subst Distinct (sym (filter_out-head e x es k))
        ((λ m. d.0 (filter_out-mem e es m).0), filter_out-Distinct e es d.1)
]

module _ (o : Orchestrator) (entry : Ref) (reg : IsRegistry o)
    (at_entry : Memᴰ entry o.entries) where
  abbrev o' : Orchestrator
  o' = remove_entry_locked o entry

  abbrev gone : Name
  gone = (o.store entry).name

  entries_eq : o'.entries ≡ filter_out entry o.entries
  unfolding remove_entry_locked
  entries_eq = refl

  kept : (r : Ref) → Memᴰ r o'.entries → Memᴰ r o.entries × (r ≢ entry)
  kept r m = filter_out-mem entry o.entries (subst (Memᴰ r) entries_eq m)

  store_kept : (r : Ref) → r ≢ entry → o'.store r ≡ o.store r
  unfolding remove_entry_locked
  store_kept r k = ground arith

  index_gone : o'.name_index gone ≡ none
  unfolding remove_entry_locked
  index_gone = if_pos (name_discrete gone gone) refl none (o.name_index gone)

  index_kept : (n : Name) → n ≢ gone → o'.name_index n ≡ o.name_index n
  unfolding remove_entry_locked
  index_kept n k = if_neg (name_discrete n gone) k none (o.name_index n)

  other_name : (r : Ref) → Memᴰ r o.entries → r ≢ entry → (o.store r).name ≢ gone
  other_name r m k h =
      let at_r = reg.listed r m in
      let at_e : o.name_index (o.store r).name ≡ some entry =
        subst (λ n. o.name_index n ≡ some entry) (sym h) (reg.listed entry at_entry) in
      k (cc (at_r, at_e))

  removed-indexed :
      (n : Name) (r : Ref)
      → o'.name_index n ≡ some r
      → Memᴰ r o'.entries × ((o'.store r).name ≡ n) × (o.name_index n ≡ some r)
  removed-indexed n r h = elim (name_discrete n gone) [
    | yes k ↦
        let lost : o'.name_index n ≡ none =
          subst (λ z. o'.name_index z ≡ none) (sym k) index_gone in
        cc (h, lost)
    | no k ↦
        let h' : o.name_index n ≡ some r = sym (index_kept n k) ∙ h in
        let (m, named) = reg.indexed n r h' in
        let other : r ≢ entry = λ z. k (sym named ∙ ap (λ q. (o.store q).name) z) in
        (
          subst (Memᴰ r) (sym entries_eq) (mem-filter_out entry o.entries m other),
          ap (λ (x : ServiceEntry). x.name) (store_kept r other) ∙ named,
          h',
        )
  ]

  removed-listed : (r : Ref) → Memᴰ r o'.entries → o'.name_index (o'.store r).name ≡ some r
  removed-listed r m =
      let (m', k) = kept r m in
      ap (λ (x : ServiceEntry). o'.name_index x.name) (store_kept r k)
      ∙ index_kept (o.store r).name (other_name r m' k)
      ∙ reg.listed r m'

  next_ref_kept : o'.next_ref ≡ o.next_ref
  unfolding remove_entry_locked
  next_ref_kept = refl

  removed-IsRegistry : IsRegistry o'
  removed-IsRegistry = record {
    indexed = λ n r h. let (m, e, _) = removed-indexed n r h in (m, e);
    listed = removed-listed;
    same_name = λ r m.
        let (m', k) = kept r m in
        subst (λ (x : ServiceEntry). x.cfg.name ≡ x.name) (sym (store_kept r k))
          (reg.same_name r m');
    made = λ r m. let (m', _) = kept r m in omega (arith, reg.made r m', next_ref_kept);
    distinct = subst Distinct (sym entries_eq) (filter_out-Distinct entry o.entries reg.distinct);
  }

  old_path : {t : Name} {r : Ref} → DependsOn o' t r → Memᴰ r o'.entries → DependsOn o t r
  old_path {t} {r} (direct m) at_r = direct (subst (Memᴰ t) (old_edges r at_r) m)
    where
      old_edges : (q : Ref) → Memᴰ q o'.entries → edges o' q ≡ edges o q
      old_edges q at_q =
          ap (λ (x : ServiceEntry). x.cfg.depends_on ++ x.cfg.soft_depends_on)
            (store_kept q (kept q at_q).1)
  old_path {t} {r} (through d {next = s} m l p) at_r =
      let (at_s, _, found) =
        removed-indexed d s (sym (lookup_entry-eq o' removed-IsRegistry d) ∙ l) in
      let same : edges o' r ≡ edges o r =
        ap (λ (x : ServiceEntry). x.cfg.depends_on ++ x.cfg.soft_depends_on)
          (store_kept r (kept r at_r).1) in
      through d (subst (Memᴰ d) same m) (lookup_entry-eq o reg d ∙ found) (old_path p at_s)

-- Removing a registered entry keeps the registry in order and the graph acyclic; the entry's name is
-- found no more, and every other name is found as before.
pub remove_entry_locked-keeps :
    (o : Orchestrator) (entry : Ref)
    → IsRegistry o
    → IsAcyclic o
    → Memᴰ entry o.entries
    → IsRegistry (remove_entry_locked o entry)
      × IsAcyclic (remove_entry_locked o entry)
      × (lookup_entry (remove_entry_locked o entry) (o.store entry).name ≡ none)
      × ((n : Name)
          → n ≢ (o.store entry).name
          → lookup_entry (remove_entry_locked o entry) n ≡ lookup_entry o n)
remove_entry_locked-keeps o entry reg acyclic m =
    let reg' = removed-IsRegistry o entry reg m in
    let found = lookup_entry-eq (remove_entry_locked o entry) reg' in
    (
      reg',
      (λ r at_r p.
          let (at_old, k) = kept o entry reg m r at_r in
          let named = ap (λ (x : ServiceEntry). x.name) (store_kept o entry reg m r k) in
          acyclic r at_old (subst (λ n. DependsOn o n r) named (old_path o entry reg m p at_r))),
      found (o.store entry).name ∙ index_gone o entry reg m,
      (λ n k. found n ∙ index_kept o entry reg m n k ∙ sym (lookup_entry-eq o reg n)),
    )
