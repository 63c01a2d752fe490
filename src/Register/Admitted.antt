-- ===== src/Register/Admitted.antt =====
-- What a registration checks apart from the graph, each condition in the words of its documentation.
use gorch.Base.{
  ◌≡◌, ◌≢◌, refl, sym, ap, ◌∙◌, none, some, Name, name_discrete, ite, Bool, true, false, not, ◌&&◌,
  ◌||◌, if◌then◌else◌, suc,
}
use gorch.Orchestrator.{Orchestrator}
use gorch.Register.{
  check_options, validate_cron_spec, membership_gate_locked, validation, named, is_some, is_empty,
  auto_name,
}
use gorch.Register.Checks.{IsAccepted, bind-ok, reject_if-ok}
use gorch.Service.{Func, Service, RegisterConfig}
use gorch.Service.Errors.{
  panics, ok, reject_if, Call, returned, call_err, unsupported_option, invalid_cron,
  orchestrator_stopping, orchestrator_stopped,
}

-- Options that go together: a service with a factory is neither a cron service nor a gate, and a
-- schedule parses.
pub record IsFit (parses : Name → Bool) (cfg : RegisterConfig) : Type 0 where
  pub restartable :
      (f : Func) → cfg.factory ≡ some f → (cfg.cron_spec ≡ "") × (cfg.run_once ≡ false)
  pub parsed : cfg.cron_set ≡ true → parses cfg.cron_spec ≡ true

is_empty-eq : (n : Name) → not (is_empty n) ≡ false → n ≡ ""
is_empty-eq n = pick (name_discrete n "")
  where
    pick : (d : Dec (n ≡ "")) → not (ite d true false) ≡ false → n ≡ ""
    pick (yes e) h = e
    pick (no k) h = cc h

or-left : (a b : Bool) → a || b ≡ false → a ≡ false
or-left true b h = cc h
or-left false b h = refl

or-right : (a b : Bool) → a || b ≡ false → b ≡ false
or-right true b h = cc h
or-right false b h = h

not-false : (b : Bool) → not b ≡ false → b ≡ true
not-false true h = refl
not-false false h = cc h

pub check_options-IsFit :
    (parses : Name → Bool) (cfg : RegisterConfig)
    → check_options parses cfg ≡ ok tt
    → IsFit parses cfg
check_options-IsFit parses cfg h =
    let odd = not (is_empty cfg.cron_spec) || cfg.run_once in
    let spec = λ (b : Bool). if b then validate_cron_spec parses cfg.cron_spec else ok tt in
    let (_, apart, good) =
      bind-ok (reject_if (is_some cfg.factory && odd) unsupported_option) (λ _. spec cfg.cron_set)
        tt h in
    let even = reject_if-ok (is_some cfg.factory && odd) unsupported_option tt apart in
    record {
      restartable = λ f e.
          let both : odd ≡ false = ap (λ z. is_some z && odd) (sym e) ∙ even in
          (
            is_empty-eq cfg.cron_spec (or-left (not (is_empty cfg.cron_spec)) cfg.run_once both),
            or-right (not (is_empty cfg.cron_spec)) cfg.run_once both,
          );
      parsed = λ e.
          not-false (parses cfg.cron_spec)
            (reject_if-ok (not (parses cfg.cron_spec)) invalid_cron tt (ap spec (sym e) ∙ good));
    }

-- The configuration of the new entry is that of the options, with a name: theirs, or the next
-- automatic one.
pub record IsNamed (o : Orchestrator) (cfg c : RegisterConfig) : Type 0 where
  pub same_options : c ≡ record cfg { name = c.name }
  pub own_name : cfg.name ≢ "" → c.name ≡ cfg.name
  pub given_name : cfg.name ≡ "" → c.name ≡ auto_name (suc o.auto_seq)

pub named-IsNamed : (o : Orchestrator) (cfg : RegisterConfig) → IsNamed o cfg (named o cfg)
named-IsNamed o cfg = record {
  same_options = refl;
  own_name = own (name_discrete cfg.name "");
  given_name = given (name_discrete cfg.name "");
}
  where
    own :
        (d : Dec (cfg.name ≡ ""))
        → cfg.name ≢ ""
        → (if ite d true false then auto_name (suc o.auto_seq) else cfg.name) ≡ cfg.name
    own (yes e) n = absurd (n e)
    own (no k) n = refl

    given :
        (d : Dec (cfg.name ≡ ""))
        → cfg.name ≡ ""
        → (if ite d true false then auto_name (suc o.auto_seq) else cfg.name)
          ≡ auto_name (suc o.auto_seq)
    given (yes e) h = refl
    given (no k) h = absurd (k h)

-- A service that can validate itself did so without an error.
abbrev pub IsValid : Service → Call → Type 0
IsValid s call = (f : Func) → s.validator ≡ some f → call ≡ returned none

returned-none : (call : Call) → call_err call ≡ none → call ≡ returned none
unfolding call_err
returned-none (returned e) h = ap returned h
returned-none panics h = cc h

pub validation-IsValid : (s : Service) (call : Call) → validation s call ≡ none → IsValid s call
unfolding validation call_err
validation-IsValid s call h f e = returned-none call (rw e at h)

-- No registration is made while the orchestrator stops or after it.
abbrev pub IsOpen : Orchestrator → Type 0
IsOpen o = (o.stopping ≡ false) × (o.stopped ≡ false)

pub gate-IsOpen : (o : Orchestrator) → membership_gate_locked o ≡ ok tt → IsOpen o
unfolding membership_gate_locked
gate-IsOpen o h =
    let (_, a, b) =
      bind-ok (reject_if o.stopping orchestrator_stopping)
        (λ _. reject_if o.stopped orchestrator_stopped) tt h in
    (
      reject_if-ok o.stopping orchestrator_stopping tt a,
      reject_if-ok o.stopped orchestrator_stopped tt b,
    )

-- All that an added entry has passed.
pub record IsAdmitted (parses : Name → Bool) (o : Orchestrator) (s : Service) (call : Call)
    (cfg c : RegisterConfig) : Type 0 where
  pub is_fit : IsFit parses cfg
  pub is_named : IsNamed o cfg c
  pub is_valid : IsValid s call
  pub is_open : o.started ≡ true → IsOpen o
  pub is_accepted : IsAccepted o c
