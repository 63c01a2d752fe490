-- ===== src/Service/Errors.antt =====
-- service.go: the sentinel errors, and what errors.Is finds in an error.
use gorch.Base.{
  ℕ, Name, Bool, true, false, ◌||◌, List, Option, none, some, ite, ◌≡◌, refl, ◌⊎◌, inl, inr,
}

pub data Sentinel : Type 0 where
  already_started invalid_cron stop_timeout duplicate_name nil_service hook_timeout : Sentinel
  dependency_cycle start_aborted unsupported_option invalid_buffer_size nil_context : Sentinel
  service_not_found has_dependents orchestrator_stopping orchestrator_stopped : Sentinel
  orchestrator_not_started dependency_not_running dependency_not_found : Sentinel
  dependency_removing dependency_depth_exceeded reentrant_membership membership_busy : Sentinel

unfoldable pub Sentinel-discrete : Discrete Sentinel
Sentinel-discrete = hlevel

-- An error, less its text. `wraps` is fmt.Errorf with %w, `names` a *HasDependentsError, `user` a
-- value that code of the caller returned, `panicked` a recovered panic, `canceled` is
-- context.Canceled, `other` a plain text, and `join` is errors.Join.
pub data Error : Type 0 where
  wraps : Sentinel → Error
  names : Name → List Name → Error
  user : ℕ → Error
  panicked canceled other : Error
  join : Error → Error → Error

unfoldable pub is : Error → Sentinel → Bool
is (wraps s) t = ite (Sentinel-discrete s t) true false
is (names n ns) t = ite (Sentinel-discrete has_dependents t) true false
is (join e f) t = is e t || is f t
is _ t = false

-- errors.Join over a nil and an error.
unfoldable pub join? : Option Error → Option Error → Option Error
join? none f = f
join? (some e) none = some e
join? (some e) (some f) = some (join e f)

-- What a Go function with an error as its last result returns.
pub data Result {ℓ} (A : Type ℓ) : Type ℓ where
  err : Error → Result A
  ok : A → Result A

-- `if bad { return e }`
abbrev pub reject_if : Bool → Sentinel → Result (Unit {0})
reject_if true s = err (wraps s)
reject_if false s = ok tt

-- `if err != nil { return err }`, and what comes after it.
infixl 5 ◌>>=◌
abbrev pub ◌>>=◌ {ℓ κ} : {T : Type ℓ} {U : Type κ} → Result T → (T → Result U) → Result U
err failure >>= rest = err failure
ok value >>= rest = rest value

-- The same where the result is an error or nil.
infixl 5 ◌>>◌
abbrev pub ◌>>◌ {κ} : {U : Type κ} → Result (Unit {0}) → Result U → Result U
check >> rest = check >>= λ nothing. rest

-- To split on a computed result and keep the equation.
pub Result-cases {ℓ} :
    {A : Type ℓ} (r : Result A) → ((e : Error) × (r ≡ err e)) ⊎ ((a : A) × (r ≡ ok a))
Result-cases (ok a) = inr (a, refl)
Result-cases (err e) = inl (e, refl)

-- What a call of the caller's code does.
pub data Call : Type 0 where
  returned : Option Error → Call
  panics : Call

-- safety.go: callErr turns a panic into an error.
unfoldable pub call_err : Call → Option Error
call_err (returned e) = e
call_err panics = some panicked
