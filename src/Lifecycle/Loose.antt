-- ===== src/Lifecycle/Loose.antt =====
-- The steps of lifecycle.go and membership.go that touch the latch of some entries, but set none of an
-- entry that a predicate holds of.
use gorch.Base.{
  ℕ, if◌then◌else◌, Bool, true, false, List, [], ◌∷◌, Option, none, ℕ_discrete, ◌≡◌, ◌≢◌, refl, ◌∙◌,
  arith,
}
use gorch.Entry.{reset_entry_locked, take_owners}
use gorch.Lifecycle.{set_status, set_status_err, release_owner, drain_service, drain_owners}
use gorch.Lifecycle.Start.{
  Instance, Finish, finish_err, run_once, settle_once, drop_contexts, count_start,
  call_after_start_hook, is_once_failure,
}
use gorch.Lifecycle.Steady.{
  Steady, Steady-refl, Tally, Tally-trans, ◌then◌, modify-Steady, set_status-Steady,
  set_status_err-Steady, release_owner-Steady,
}
use gorch.Lifecycle.Steady.Starts.{after-Steady}
use gorch.Lifecycle.Stop.{tear_down_end, remove_all, drain_all}
use gorch.Messenger.{drain_owner}
use gorch.Membership.{mark_removing, remove_entry_locked}
use gorch.Orchestrator.{Ref, Orchestrator, modify}
use gorch.Service.Errors.{Error}
use gorch.Status.{running, crashed, succeeded}

pub record Loose (P : Ref → Type 0) (o o' : Orchestrator) : Type 0 where
  pub same_wg : o'.wg ≡ o.wg
  pub same_panic : o'.wg_panic ≡ o.wg_panic
  pub stays : (j : Ref) → P j → (o.store j).wg_done ≡ false → (o'.store j).wg_done ≡ false
  pub same_cfg : o'.cfg ≡ o.cfg
  pub tally : Tally o o'

module _ {P : Ref → Type 0} where
  pub Steady-Loose : {a b : Orchestrator} → Steady a b → Loose P a b
  Steady-Loose s = record {
    same_wg = s.same_wg;
    same_panic = s.same_panic;
    stays = λ j p h. s.same_latch j ∙ h;
    same_cfg = s.same_cfg;
    tally = s.tally;
  }

  infixr 5 ◌also◌
  pub ◌also◌ : {a b c : Orchestrator} → Loose P a b → Loose P b c → Loose P a c
  ◌also◌ {a} {b} {c} p q = record {
    same_wg = q.same_wg ∙ p.same_wg;
    same_panic = q.same_panic ∙ p.same_panic;
    stays = λ j k h. q.stays j k (p.stays j k h);
    same_cfg = q.same_cfg ∙ p.same_cfg;
    tally = Tally-trans a b c p.same_cfg p.tally q.tally;
  }

  settle_once-Loose :
      (o : Orchestrator) (r : Ref) (e : Option Error)
      → ((j : Ref) → P j → j ≢ r)
      → Loose P o (settle_once o r e).0
  unfolding settle_once
  settle_once-Loose o r e apart = pick (is_once_failure e)
    where
      failed : Orchestrator
      failed = set_status_err o r crashed e

      latched : Orchestrator
      latched = modify o r (λ q. record q { wg_done = true })

      good : Orchestrator
      good = set_status latched r succeeded

      passed : Loose P o latched
      passed = record {
        same_wg = refl;
        same_panic = refl;
        stays = λ j p h. let n = apart j p in ground (arith, n, h);
        same_cfg = refl;
        tally = λ h. refl;
      }

      pick :
          (b : Bool)
          → let (o', _) : Orchestrator × Option Error =
              if b
              then (call_after_start_hook failed r e, e)
              else (call_after_start_hook good r none, none) in
            Loose P o o'
      pick true = Steady-Loose (set_status_err-Steady o r crashed e then after-Steady failed r e)
      pick false =
          passed
          also Steady-Loose (set_status-Steady latched r succeeded then after-Steady good r none)

  pub run_once-Loose :
      (o : Orchestrator) (r : Ref) (i : Instance) (f : Finish)
      → ((j : Ref) → P j → j ≢ r)
      → Loose P o (run_once o r i f).0
  unfolding run_once
  run_once-Loose o r i f apart =
      let ran = count_start (set_status o r running) in
      let dropped = drop_contexts ran r i in
      let settled = (settle_once dropped r (finish_err f)).0 in
      Steady-Loose (
        set_status-Steady o r running
        then record {
          same_wg = refl;
          same_panic = refl;
          same_latch = λ j. refl;
          same_cfg = refl;
          tally = λ h. refl;
        }
        then modify-Steady ran r
            (λ e. record e { cancel = none; teardown = none; teardown_cancel = none }) refl
        then record {
          same_wg = refl;
          same_panic = refl;
          same_latch = λ j. refl;
          same_cfg = refl;
          tally = λ h. refl;
        })
      also settle_once-Loose dropped r (finish_err f) apart
      also Steady-Loose (
          release_owner-Steady settled r i.owner
          then modify-Steady (release_owner settled r i.owner) r
              (λ e. record e { starting = false }) refl)

  remove_entry_locked-Loose : (o : Orchestrator) (r : Ref) → Loose P o (remove_entry_locked o r)
  unfolding remove_entry_locked reset_entry_locked
  remove_entry_locked-Loose o r = record {
    same_wg = refl;
    same_panic = refl;
    stays =
        λ j p h. elim (ℕ_discrete j r) [ yes e ↦ ground (arith, e) | no n ↦ ground (arith, n, h) ];
    same_cfg = refl;
    tally = λ h. refl;
  }

  remove_all-Loose : (o : Orchestrator) (rs : List Ref) → Loose P o (remove_all o rs)
  unfolding remove_all
  remove_all-Loose o [] = Steady-Loose (Steady-refl o)
  remove_all-Loose o (r ∷ rs) =
      remove_entry_locked-Loose o r also remove_all-Loose (remove_entry_locked o r) rs

drain_owners-Steady : (o : Orchestrator) (ids : List ℕ) → Steady o (drain_owners o ids)
unfolding drain_owners
drain_owners-Steady o [] = Steady-refl o
drain_owners-Steady o (id ∷ ids) =
    record {
      same_wg = refl;
      same_panic = refl;
      same_latch = λ j. refl;
      same_cfg = refl;
      tally = λ h. refl;
    }
    then drain_owners-Steady (record o { messenger = drain_owner o.messenger id }) ids

drain_all-Steady : (o : Orchestrator) (rs : List Ref) → Steady o (drain_all o rs)
unfolding drain_all drain_service take_owners
drain_all-Steady o [] = Steady-refl o
drain_all-Steady o (r ∷ rs) =
    let taken = modify o r (λ e. record e { owners = [] }) in
    modify-Steady o r (λ e. record e { owners = [] }) refl
    then drain_owners-Steady taken (o.store r).owners
    then drain_all-Steady (drain_service o r) rs

mark_removing-Steady :
    (b : Bool) (o : Orchestrator) (rs : List Ref) → Steady o (mark_removing b o rs)
mark_removing-Steady b o [] = Steady-refl o
mark_removing-Steady b o (r ∷ rs) =
    let marked = modify o r (λ e. record e { removing = b }) in
    modify-Steady o r (λ e. record e { removing = b }) refl then mark_removing-Steady b marked rs

pub tear_down_end-Loose :
    {P : Ref → Type 0} (o : Orchestrator) (remove : Bool) (set : List Ref)
    → Loose P o (tear_down_end o remove set)
unfolding tear_down_end
tear_down_end-Loose o remove set =
    let removed = if remove then remove_all o set else o in
    may_remove remove o set
    also Steady-Loose
        (drain_all-Steady removed set then mark_removing-Steady false (drain_all removed set) set)
  where
    may_remove :
        {P : Ref → Type 0} (b : Bool) (a : Orchestrator) (rs : List Ref)
        → Loose P a (if b then remove_all a rs else a)
    may_remove true a rs = remove_all-Loose a rs
    may_remove false a rs = Steady-Loose (Steady-refl a)
