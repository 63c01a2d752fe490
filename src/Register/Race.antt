-- ===== src/Register/Race.antt =====
-- Two hot adds whose critical sections interleave: registerDynamicCfg gives the lock back between the
-- checks of the graph and commitDynamicLocked, which repeats only the gate and the duplicate name.
use gorch.Base.{
  ◌≡◌, refl, sym, subst, ap, ◌∙◌, [], ◌∷◌, ◌++◌, Memᴰ, mem-append_left, mem-append_right, none,
  some, name_discrete, ◌≢◌, if_neg,
}
use gorch.Entry.{ServiceEntry, new_entry}
use gorch.Graph.Paths.{edges, DependsOn, direct, through}
use gorch.Orchestrator.{Orchestrator}
use gorch.Orchestrator.Registry.{IsRegistry}
use gorch.Service.{Service, RegisterConfig}
use gorch.Service.Errors.{Result, ok, ◌>>◌, reject_if, duplicate_name}
use gorch.Register.{
  insert_entry, commit_dynamic_locked, membership_gate_locked, check_graph, is_some, commit_if,
}
use gorch.Register.Checks.{check_graph-ok}
use gorch.Register.Acyclic.{IsAcyclic}
use gorch.Register.Insert.{insert-IsRegistry, lookup_new, store_old, store_new}
use gorch.Register.Parts.{entry_of}

-- A commit that passes the gate under a free name.
commit-eq :
    (o : Orchestrator) (s : Service) (cfg : RegisterConfig)
    → membership_gate_locked o ≡ ok tt
    → o.name_index cfg.name ≡ none
    → commit_dynamic_locked o s cfg ≡ (insert_entry o (entry_of s cfg (some cfg.name)), ok tt)
unfolding commit_dynamic_locked new_entry
commit-eq o s cfg gate free =
    ap (λ g. commit_if o s cfg (g >> reject_if (is_some (o.name_index cfg.name)) duplicate_name))
      gate
    ∙ ap (λ n. commit_if o s cfg (reject_if (is_some n) duplicate_name)) free

module _ (o : Orchestrator) (sx sy : Service) (cx cy : RegisterConfig) (reg : IsRegistry o)
    (other : cy.name ≢ cx.name) (free_x : o.name_index cx.name ≡ none)
    (free_y : o.name_index cy.name ≡ none) (y : Memᴰ cy.name cx.soft_depends_on)
    (x : Memᴰ cx.name cy.soft_depends_on) where
  abbrev ex : ServiceEntry
  ex = entry_of sx cx (some cx.name)

  abbrev ey : ServiceEntry
  ey = entry_of sy cy (some cy.name)

  abbrev o1 : Orchestrator
  o1 = insert_entry o ex

  abbrev o2 : Orchestrator
  o2 = insert_entry o1 ey

  still_free : o1.name_index cy.name ≡ none
  unfolding new_entry
  still_free =
      if_neg (name_discrete cy.name cx.name) other (some o.next_ref) (o.name_index cy.name) ∙ free_y

  both-cyclic : ¬ (IsAcyclic o2)
  unfolding new_entry
  both-cyclic acyclic =
      let reg1 = insert-IsRegistry o ex reg refl free_x in
      let at_x : Memᴰ o.next_ref o1.entries = mem-append_right o.entries (Memᴰ.head refl) in
      let kept : o2.store o.next_ref ≡ ex =
        store_old o1 ey reg1 refl still_free o.next_ref at_x ∙ store_new o ex reg refl free_x in
      let found_y = lookup_new o1 ey reg1 refl still_free in
      let back : DependsOn o2 cx.name o1.next_ref = direct (
        subst (λ (e : ServiceEntry). Memᴰ cx.name (e.cfg.depends_on ++ e.cfg.soft_depends_on))
          (sym (store_new o1 ey reg1 refl still_free)) (mem-append_right cy.depends_on x)) in
      let out : Memᴰ cy.name (edges o2 o.next_ref) =
        subst (λ (e : ServiceEntry). Memᴰ cy.name (e.cfg.depends_on ++ e.cfg.soft_depends_on))
          (sym kept) (mem-append_right cx.depends_on y) in
      acyclic o.next_ref (mem-append_left (o1.next_ref ∷ []) at_x) (
        subst (λ (e : ServiceEntry). DependsOn o2 e.name o.next_ref) (sym kept)
          (through cy.name out found_y back))

-- Two hot adds of different names that name each other as soft dependencies, whose checks both pass in
-- the same state, both succeed when they commit one after the other, and the graph is then cyclic.
pub hot_adds-cyclic :
    (o : Orchestrator) (sx sy : Service) (cx cy : RegisterConfig)
    → IsRegistry o
    → membership_gate_locked o ≡ ok tt
    → check_graph o cx ≡ ok cx
    → check_graph o cy ≡ ok cy
    → cy.name ≢ cx.name
    → Memᴰ cy.name cx.soft_depends_on
    → Memᴰ cx.name cy.soft_depends_on
    → (commit_dynamic_locked o sx cx).1 ≡ ok tt
      × (commit_dynamic_locked (commit_dynamic_locked o sx cx).0 sy cy).1 ≡ ok tt
      × ¬ (IsAcyclic (commit_dynamic_locked (commit_dynamic_locked o sx cx).0 sy cy).0)
unfolding membership_gate_locked new_entry
hot_adds-cyclic o sx sy cx cy reg gate check_x check_y other y x =
    let free_x = ((check_graph-ok o reg cx cx check_x).1).is_free in
    let free_y = ((check_graph-ok o reg cy cy check_y).1).is_free in
    let first = commit-eq o sx cx gate free_x in
    let second =
      commit-eq (insert_entry o (entry_of sx cx (some cx.name))) sy cy gate
        (still_free o sx sy cx cy reg other free_x free_y y x) in
    let both =
      ap (λ (p : Orchestrator × Result Unit). commit_dynamic_locked p.0 sy cy) first ∙ second in
    (
      ap (λ (p : Orchestrator × Result Unit). p.1) first,
      ap (λ (p : Orchestrator × Result Unit). p.1) both,
      subst (λ (p : Orchestrator × Result Unit). ¬ (IsAcyclic p.0)) (sym both)
          (both-cyclic o sx sy cx cy reg other free_x free_y y x),
    )
