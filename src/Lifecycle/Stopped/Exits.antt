-- ===== src/Lifecycle/Stopped/Exits.antt =====
-- The exit handler of an instance that a stop waits for.
use gorch.Base.{
  ℕ, zero, suc, ◌==◌, if◌then◌else◌, Bool, Bool-cases, true, false, not, Option, ◌≡◌, refl, ◌∙◌,
  inl, inr, arith,
}
use gorch.Entry.{same?, release_teardown_if, remove_owner_id}
use gorch.Lifecycle.{ctx_done, release_wg, wg_done_once, release_owner, set_status}
use gorch.Lifecycle.Exit.{is_torn_down, count_stopped, settle, release_teardown, plain_exit}
use gorch.Lifecycle.Held.{set_status-Held, account_stop-Held}
use gorch.Lifecycle.Stopped.{set_status-Facts, account_stop-Facts}
use gorch.Lifecycle.Stopped.Bills.{Exiting}
use gorch.Orchestrator.{Ref, Orchestrator, modify}
use gorch.Runtime.{Context}
use gorch.Service.Errors.{Error}
use gorch.Status.{stopped}

-- Another goroutine that leaves the entry alone.
pub Exiting-refl : (r : Ref) (o : Orchestrator) → Exiting r o o
Exiting-refl r o = record {
  status_end = inl refl;
  held = λ _. refl;
  same_mark = refl;
  billed = inl (refl, refl);
}

-- The releases that come after the status.
record Left (r : Ref) (a b : Orchestrator) : Type 0 where
  same_status : (b.store r).status ≡ (a.store r).status
  same_latch : (b.store r).stops_counted ≡ (a.store r).stops_counted
  same_removing : (b.store r).removing ≡ (a.store r).removing
  same_stops : b.metrics.stops ≡ a.metrics.stops

infixr 5 ◌also◌
◌also◌ : {r : Ref} {a b c : Orchestrator} → Left r a b → Left r b c → Left r a c
p also q = record {
  same_status = q.same_status ∙ p.same_status;
  same_latch = q.same_latch ∙ p.same_latch;
  same_removing = q.same_removing ∙ p.same_removing;
  same_stops = q.same_stops ∙ p.same_stops;
}

Left-refl : (r : Ref) (o : Orchestrator) → Left r o o
Left-refl r o = record {
  same_status = refl;
  same_latch = refl;
  same_removing = refl;
  same_stops = refl;
}

wg_done_once-Left : (o : Orchestrator) (r : Ref) (n : ℕ) → o.wg ≡ n → Left r o (wg_done_once o)
wg_done_once-Left o r zero h =
    rw h (record { same_status = refl; same_latch = refl; same_removing = refl; same_stops = refl })
wg_done_once-Left o r (suc n) h =
    rw h (record { same_status = refl; same_latch = refl; same_removing = refl; same_stops = refl })

release_wg-Left : (o : Orchestrator) (r : Ref) → Left r o (release_wg o r)
unfolding release_wg
release_wg-Left o r = elim (Bool-cases (o.store r).wg_done) [
  | inl e ↦ rw (e, release_wg) (Left-refl r o)
  | inr e ↦
      let set = modify o r (λ x. record x { wg_done = true }) in
      let flagged : Left r o set = record {
        same_status = ground arith;
        same_latch = ground arith;
        same_removing = ground arith;
        same_stops = refl;
      } in
      rw (e, release_wg) (flagged also wg_done_once-Left set r set.wg refl)
]

release_teardown-Left :
    (o : Orchestrator) (r : Ref) (ctx : Option Context) → Left r o (release_teardown o r ctx)
unfolding release_teardown release_teardown_if
release_teardown-Left o r ctx = elim (Bool-cases (same? (o.store r).teardown ctx)) [
  | inl e ↦
      rw (e, release_teardown, release_teardown_if)
        (record {
          same_status = ground arith;
          same_latch = ground arith;
          same_removing = ground arith;
          same_stops = refl;
        })
  | inr e ↦
      rw (e, release_teardown, release_teardown_if)
        (record {
          same_status = ground arith;
          same_latch = ground arith;
          same_removing = ground arith;
          same_stops = refl;
        })
]

release_owner-Left : (o : Orchestrator) (r : Ref) (id : ℕ) → Left r o (release_owner o r id)
unfolding release_owner remove_owner_id
release_owner-Left o r id = elim (Bool-cases (id == 0)) [
  | inl e ↦ rw (e, release_owner) (Left-refl r o)
  | inr e ↦
      rw (e, release_owner)
        (record {
          same_status = ground arith;
          same_latch = ground arith;
          same_removing = ground arith;
          same_stops = refl;
        })
]

Exiting-Left : {r : Ref} {a b c : Orchestrator} → Exiting r a b → Left r b c → Exiting r a c
Exiting-Left {r} x k = record {
  status_end = elim x.status_end [
    | inl e ↦ inl (k.same_status ∙ e)
    | inr e ↦ inr (k.same_status ∙ e)
  ];
  held = λ m. k.same_status ∙ x.held m;
  same_mark = k.same_removing ∙ x.same_mark;
  billed = elim x.billed [
    | inl (p, q) ↦ inl (k.same_latch ∙ p, k.same_stops ∙ q)
    | inr (p, q) ↦ inr (k.same_latch ∙ p, k.same_stops ∙ q)
  ];
}

count_stopped-Exiting :
    (o : Orchestrator) (r : Ref) → (o.store r).removing ≡ false → Exiting r o (count_stopped o r)
unfolding count_stopped
count_stopped-Exiting o r unmarked =
    let c = (o.store r).stops_counted in
    let set =
      set_status-Facts o r (o.store r).status stopped c o.metrics.stops
        (record { has_status = refl; has_latch = refl; has_stops = refl }) in
    let counted = account_stop-Facts (set_status o r stopped) r stopped c o.metrics.stops set in
    record {
      status_end = inr counted.has_status;
      held = λ m. cc (unmarked, m);
      same_mark =
          (account_stop-Held {r = r} (set_status o r stopped)).same_removing
          ∙ (set_status-Held {r = r} o stopped).same_removing;
      billed = inr (counted.has_latch, counted.has_stops ∙ bill c);
    }
  where
    bill :
        (b : Bool)
        → (if not b then suc o.metrics.stops else o.metrics.stops)
          ≡ (if b then o.metrics.stops else suc o.metrics.stops)
    bill true = refl
    bill false = refl

settle-Exiting :
    (o : Orchestrator) (r : Ref) (e : Option Error)
    → is_torn_down o r ≡ true
    → Exiting r o (settle o r e)
unfolding settle
settle-Exiting o r e torn = elim (Bool-cases (o.store r).removing) [
  | inl k ↦ rw (k, settle) (Exiting-refl r o)
  | inr k ↦ rw (k, torn, settle) (count_stopped-Exiting o r k)
]

-- The exit of an instance with no self-heal, once its teardown has begun.
pub plain_exit-Exiting :
    (o : Orchestrator) (r : Ref) (e : Option Error) (owner : ℕ)
    → is_torn_down o r ≡ true
    → Exiting r o (plain_exit o r e owner)
unfolding plain_exit
plain_exit-Exiting o r e owner torn = Exiting-Left settled (
    release_wg-Left first r
    also release_teardown-Left (release_wg first r) r (o.store r).teardown
    also release_owner-Left (release_teardown (release_wg first r) r (o.store r).teardown) r owner)
  where
    first : Orchestrator
    first = if ctx_done o then o else settle o r e

    settled : Exiting r o first
    settled = by_context (ctx_done o)
      where
        by_context : (b : Bool) → Exiting r o (if b then o else settle o r e)
        by_context true = Exiting-refl r o
        by_context false = settle-Exiting o r e torn
