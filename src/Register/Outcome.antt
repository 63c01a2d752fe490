-- ===== src/Register/Outcome.antt =====
-- What a registration comes to, and what follows for the registry and the graph.
use gorch.Base.{◌≡◌, refl, List, Option, none, some, Name, Bool, true, false, if◌then◌else◌}
use gorch.Entry.{new_entry}
use gorch.Graph.{lookup_entry}
use gorch.Graph.Paths.{DependsOn, direct, through}
use gorch.Orchestrator.{Ref, Orchestrator}
use gorch.Orchestrator.Registry.{IsRegistry}
use gorch.Service.{Service, RegisterConfig, RegisterOption}
use gorch.Service.Errors.{Result, wraps, nil_service, Call}
use gorch.Service.Options.{apply_register_options}
use gorch.Register.{
  insert_entry, membership_gate_locked, register_begin, register_finish, register_check, Found,
  found_started, gone_on, register, begin_static,
}
use gorch.Register.Acyclic.{IsAcyclic, insert-IsAcyclic}
use gorch.Register.Insert.{insert-IsRegistry}
use gorch.Register.Parts.{
  refused, refused_late, added, next_seq, entry_of, Outcome, begin_dynamic-Outcome,
  begin_static-Outcome,
}

-- Registration in a state that is a registry ends in one of three ways. It is refused and nothing is
-- changed; or it is refused and only the next automatic name is changed; or it adds one entry, at
-- the end of the list and under its name, with the service and status registered. An added entry has
-- the configuration of the options, under their name or the next automatic one; its factory, if it
-- has one, stands with neither a schedule nor runOnce, and a schedule parses; its service's own
-- Validate, if it has one, returned nil; a started orchestrator is neither stopping nor stopped; the
-- name was free, every hard dependency is a registered entry that is not being removed, and no
-- dependency leads back to the name.
pub register-Outcome :
    (parses : Name → Bool) (o : Orchestrator) (svc : Option Service) (opts : List RegisterOption)
    (call : Call)
    → IsRegistry o
    → Outcome parses o svc (apply_register_options opts) call (register parses o svc opts call)
unfolding register register_begin register_check register_finish
register-Outcome parses o none opts call reg = refused (wraps nil_service)
register-Outcome parses o (some s) opts call reg = by_start o.started refl
  where
    cfg : RegisterConfig
    cfg = apply_register_options opts

    live : Orchestrator × Found
    live = (o, found_started s cfg)

    static : Orchestrator × Found
    static = let begun = begin_static parses o s cfg s.validator in (begun.0, gone_on begun.1)

    by_start :
        (b : Bool)
        → o.started ≡ b
        → let checked =
            register_check parses (if b then live else static).0 (if b then live else static).1 in
          Outcome parses o (some s) cfg call (register_finish parses checked.0 checked.1 call)
    by_start true h = begin_dynamic-Outcome parses o s cfg call (membership_gate_locked o) reg
    by_start false h = begin_static-Outcome parses o s cfg call s.validator refl h reg

-- A new automatic name is no change of the graph.
next_seq-DependsOn :
    (o : Orchestrator) {t : Name} {r : Ref} → DependsOn (next_seq o) t r → DependsOn o t r
unfolding lookup_entry
next_seq-DependsOn o (direct m) = direct m
next_seq-DependsOn o (through d m l p) = through d m l (next_seq-DependsOn o p)

next_seq-keeps :
    (o : Orchestrator)
    → IsRegistry o
    → IsAcyclic o
    → IsRegistry (next_seq o) × IsAcyclic (next_seq o)
next_seq-keeps o reg acyclic = (
  record {
    indexed = reg.indexed;
    listed = reg.listed;
    same_name = reg.same_name;
    made = reg.made;
    distinct = reg.distinct;
  },
  λ r m p. acyclic r m (next_seq-DependsOn o p),
)

Outcome-keeps :
    (parses : Name → Bool) (o : Orchestrator) (svc : Option Service) (cfg : RegisterConfig)
    (call : Call) (p : Orchestrator × Result (Unit {0}))
    → IsRegistry o
    → IsAcyclic o
    → Outcome parses o svc cfg call p
    → IsRegistry p.0 × IsAcyclic p.0
unfolding new_entry
Outcome-keeps parses o svc cfg call p reg acyclic (refused e) = (reg, acyclic)
Outcome-keeps parses o svc cfg call p reg acyclic (refused_late e) = next_seq-keeps o reg acyclic
Outcome-keeps parses o svc cfg call p reg acyclic (added s c logger _ passed) =
    let e = entry_of s c logger in
    let acc = passed.is_accepted in
    next_seq-keeps (insert_entry o e) (insert-IsRegistry o e reg refl acc.is_free)
      (insert-IsAcyclic o e reg refl acc.is_free acc.no_cycle acyclic)

-- Registration keeps the registry in order and the dependency graph acyclic: after it, succeed or
-- not, list and index hold the same entries under their names, none twice, and no entry depends on
-- itself by hard and soft dependencies. No other operation comes between the parts of the
-- registration.
pub register-keeps_IsAcyclic :
    (parses : Name → Bool) (o : Orchestrator) (svc : Option Service) (opts : List RegisterOption)
    (call : Call)
    → IsRegistry o
    → IsAcyclic o
    → IsRegistry (register parses o svc opts call).0 × IsAcyclic (register parses o svc opts call).0
register-keeps_IsAcyclic parses o svc opts call reg acyclic =
    Outcome-keeps parses o svc (apply_register_options opts) call (register parses o svc opts call)
      reg acyclic (register-Outcome parses o svc opts call reg)
