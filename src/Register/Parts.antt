-- ===== src/Register/Parts.antt =====
-- What the critical sections of a registration come to.
use gorch.Base.{
  suc, ◌≡◌, refl, sym, ◌∙◌, subst, Option, none, some, Name, Bool, true, false, if◌then◌else◌,
}
use gorch.Entry.{ServiceEntry, new_entry}
use gorch.Orchestrator.{Orchestrator}
use gorch.Orchestrator.Registry.{IsRegistry}
use gorch.Service.{Func, Service, RegisterConfig}
use gorch.Service.Errors.{Error, Result, ok, err, Call, ◌>>◌, reject_if, duplicate_name}
use gorch.Register.{
  insert_entry, validate_register_config_locked, append_static_entry_locked, commit_dynamic_locked,
  membership_gate_locked, register_finish, check_options, check_graph, named, append_valid,
  commit_valid, begin_static, begin_dynamic, validation, is_some, waiting_static, unless,
  wait_dynamic, commit_if, name_and_check,
}
use mathlib.Core.Bool.{false≢true}
use gorch.Register.Admitted.{
  IsFit, check_options-IsFit, IsNamed, named-IsNamed, IsValid, validation-IsValid, IsOpen,
  gate-IsOpen, IsAdmitted,
}
use gorch.Register.Checks.{IsAccepted, check_graph-ok, bind-ok}

-- The next sequence number.
abbrev pub next_seq : Orchestrator → Orchestrator
next_seq o = record o { auto_seq = suc o.auto_seq }

abbrev pub entry_of : Service → RegisterConfig → Option Name → ServiceEntry
unfolding new_entry
entry_of svc cfg logger = record (new_entry svc cfg) { logger = logger }

-- The three ends of a registration in a state: refused before the naming, refused after it, or done.
pub data Outcome (parses : Name → Bool) (o : Orchestrator) (svc : Option Service)
    (cfg : RegisterConfig) (call : Call) : Orchestrator × Result (Unit {0}) → Type 0 where
  refused : (e : Error) → Outcome parses o svc cfg call (o, err e)
  refused_late : (e : Error) → Outcome parses o svc cfg call (next_seq o, err e)
  added :
      (s : Service) (c : RegisterConfig) (logger : Option Name)
      → svc ≡ some s
      → IsAdmitted parses o s call cfg c
      → Outcome parses o svc cfg call (next_seq (insert_entry o (entry_of s c logger)), ok tt)

-- What validation under the lock comes to.
pub data Validated (parses : Name → Bool) (o : Orchestrator) (cfg : RegisterConfig)
    : Orchestrator × Result RegisterConfig → Type 0 where
  bad : (e : Error) → Validated parses o cfg (o, err e)
  bad_late : (e : Error) → Validated parses o cfg (next_seq o, err e)
  good :
      (c : RegisterConfig)
      → IsFit parses cfg
      → IsNamed o cfg c
      → IsAccepted o c
      → Validated parses o cfg (next_seq o, ok c)

module _ (parses : Name → Bool) (o : Orchestrator) (cfg : RegisterConfig) where
  pub name_and_check-Validated :
      (r : Result Unit)
      → IsRegistry o
      → check_options parses cfg ≡ r
      → Validated parses o cfg (name_and_check o cfg r)
  name_and_check-Validated (err e) reg fit = bad e
  name_and_check-Validated (ok _) reg fit = checked (check_graph o (named o cfg)) refl
    where
      checked :
          (r : Result RegisterConfig)
          → check_graph o (named o cfg) ≡ r
          → Validated parses o cfg (next_seq o, r)
      checked (err e) h = bad_late e
      checked (ok c) h =
          let (same, acc) = check_graph-ok o reg (named o cfg) c h in
          good c (check_options-IsFit parses cfg fit)
            (subst (IsNamed o cfg) same (named-IsNamed o cfg)) (subst (IsAccepted o) same acc)

  pub validate-Validated :
      IsRegistry o → Validated parses o cfg (validate_register_config_locked parses o cfg)
  unfolding validate_register_config_locked
  validate-Validated reg = name_and_check-Validated (check_options parses cfg) reg refl

module _ (parses : Name → Bool) (o : Orchestrator) (s : Service) (cfg : RegisterConfig)
    (call : Call) (valid : IsValid s call) where
  pub append-Outcome :
      (p : Orchestrator × Result RegisterConfig)
      → o.started ≡ false
      → Validated parses o cfg p
      → Outcome parses o (some s) cfg call (append_valid s p)
  unfolding append_static_entry_locked new_entry
  append-Outcome p idle (bad e) = refused e
  append-Outcome p idle (bad_late e) = refused_late e
  append-Outcome p idle (good c fit name acc) = added s c none refl (record {
    is_fit = fit;
    is_named = name;
    is_valid = valid;
    is_open = λ h. absurd (false≢true (sym idle ∙ h));
    is_accepted = acc;
  })

  pub commit-Outcome :
      (c : RegisterConfig) (r : Result Unit)
      → (r ≡ ok tt → IsOpen o)
      → IsFit parses cfg
      → IsNamed o cfg c
      → IsAccepted o c
      → Outcome parses o (some s) cfg call (commit_if (next_seq o) s c r)
  unfolding new_entry
  commit-Outcome c (err e) gate fit name acc = refused_late e
  commit-Outcome c (ok _) gate fit name acc = added s c (some c.name) refl (record {
    is_fit = fit;
    is_named = name;
    is_valid = valid;
    is_open = λ _. gate refl;
    is_accepted = acc;
  })

  pub commit_dynamic-Outcome :
      (c : RegisterConfig)
      → IsFit parses cfg
      → IsNamed o cfg c
      → IsAccepted o c
      → Outcome parses o (some s) cfg call (commit_dynamic_locked (next_seq o) s c)
  unfolding commit_dynamic_locked membership_gate_locked
  commit_dynamic-Outcome c =
      let free = reject_if (is_some (o.name_index c.name)) duplicate_name in
      commit-Outcome c (membership_gate_locked o >> free)
        (λ h. gate-IsOpen o ((bind-ok (membership_gate_locked o) (λ _. free) tt h).1))

  pub commit_valid-Outcome :
      (p : Orchestrator × Result RegisterConfig)
      → Validated parses o cfg p
      → Outcome parses o (some s) cfg call (commit_valid s p)
  unfolding commit_valid
  commit_valid-Outcome p (bad e) = refused e
  commit_valid-Outcome p (bad_late e) = refused_late e
  commit_valid-Outcome p (good c fit name acc) = commit_dynamic-Outcome c fit name acc

module _ (parses : Name → Bool) (o : Orchestrator) (s : Service) (cfg : RegisterConfig)
    (call : Call) where
  -- The second critical section of a hot add, on what the first one has left.
  pub dynamic-Outcome :
      (p : Orchestrator × Result RegisterConfig)
      → Validated parses o cfg p
      → Outcome parses o
          (some s)
          cfg
          call
          (register_finish parses (wait_dynamic s p).0 (wait_dynamic s p).1 call)
  unfolding register_finish
  dynamic-Outcome p (bad e) = refused e
  dynamic-Outcome p (bad_late e) = refused_late e
  dynamic-Outcome p (good c fit name acc) = by_call (validation s call) refl
    where
      by_call :
          (v : Option Error)
          → validation s call ≡ v
          → Outcome parses o
              (some s)
              cfg
              call
              (unless v (next_seq o) (commit_dynamic_locked (next_seq o) s c))
      by_call (some e) h = refused_late e
      by_call none h =
          commit_dynamic-Outcome parses o s cfg call (validation-IsValid s call h) c fit name acc

  pub begin_dynamic-Outcome :
      (gate : Result Unit)
      → IsRegistry o
      → Outcome parses o (some s) cfg call (
          register_finish parses
            (begin_dynamic parses o s cfg gate).0
            (begin_dynamic parses o s cfg gate).1
            call)
  unfolding register_finish
  begin_dynamic-Outcome (err e) reg = refused e
  begin_dynamic-Outcome (ok _) reg =
      dynamic-Outcome (validate_register_config_locked parses o cfg)
        (validate-Validated parses o cfg reg)

  pub waiting-Outcome :
      IsRegistry o
      → Outcome parses o (some s) cfg call (register_finish parses o (waiting_static s cfg) call)
  unfolding register_finish
  waiting-Outcome reg = by_call (validation s call) refl
    where
      checked : Orchestrator × Result RegisterConfig
      checked = validate_register_config_locked parses o cfg

      by_start :
          (b : Bool)
          → o.started ≡ b
          → IsValid s call
          → Outcome parses o
              (some s)
              cfg
              call
              (if b then commit_valid s checked else append_valid s checked)
      by_start true h valid =
          commit_valid-Outcome parses o s cfg call valid checked
            (validate-Validated parses o cfg reg)
      by_start false h valid =
          append-Outcome parses o s cfg call valid checked h (validate-Validated parses o cfg reg)

      by_call :
          (v : Option Error)
          → validation s call ≡ v
          → Outcome parses o
              (some s)
              cfg
              call
              (unless v o (if o.started then commit_valid s checked else append_valid s checked))
      by_call (some e) h = refused e
      by_call none h = by_start o.started refl (validation-IsValid s call h)

  pub begin_static-Outcome :
      (v : Option Func)
      → s.validator ≡ v
      → o.started ≡ false
      → IsRegistry o
      → Outcome parses o (some s) cfg call (
          register_finish parses
            (begin_static parses o s cfg v).0
            (begin_static parses o s cfg v).1
            call)
  unfolding register_finish
  begin_static-Outcome none bare idle reg =
      append-Outcome parses o s cfg call (λ f e. cc (bare, e))
        (validate_register_config_locked parses o cfg) idle (validate-Validated parses o cfg reg)
  begin_static-Outcome (some _) bare idle reg = waiting-Outcome reg
