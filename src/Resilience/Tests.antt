-- ===== src/Resilience/Tests.antt =====
-- The resilience package on a library whose substitutions change nothing, with attempts run by a loop.
use sight_stalker.Prelude.{
  ℕ, zero, suc, ◌≤◌, ◌≡◌, refl, ap, inl, Bool, true, false, [], ◌∷◌, none, codes, Outcome, ok,
  raised, if◌then◌else◌, arith, text_eq,
}
use sight_stalker.Exec.{Exec}
use sight_stalker.Errors.{
  Exc, project, plain, timeout, browser_runtime, session_lifecycle_error,
  persistence_security_error, keyboard_interrupt, operational_error,
}
use sight_stalker.Security.Fixture.{plain_library}
use sight_stalker.Resilience.Operator.{OperatorError, kind_text}
use sight_stalker.Resilience.Native.{native_error, no_overrides, attributes, timeout_failure}
use sight_stalker.Resilience.Classification.{classify_exception, looks_like_missing_schema}
use sight_stalker.Resilience.Classification.Labels.{IsConsistent, classify_exception-IsConsistent}
use sight_stalker.Resilience.Classification.Bounds.{
  IsTold, classify_exception-IsTold, IsSanitized, native_error-IsSanitized,
}
use sight_stalker.Resilience.Retry.{
  RetryPolicy, IsValidPolicy, idempotent, non_idempotent, Tenacity, retry_sync, effective_attempts,
  is_retryable_exception, in_kinds,
}
use sight_stalker.Resilience.Retry.Attempts.{
  retry_sync-non_idempotent, retry_sync-refuses, IsRun, retry_sync-IsRun,
}

module _ {S T : Type 0} where
  after : (Exc → Bool) → Outcome Exc T × S → Exec Exc S T → Outcome Exc T × S
  after p (ok value, s) rest = (ok value, s)
  after p (raised e, s) rest = if p e then rest s else (raised e, s)

  attempts : ℕ → (Exc → Bool) → Exec Exc S T → Exec Exc S T
  unfolding after
  attempts zero p func s = func s
  attempts (suc zero) p func s = func s
  attempts (suc (suc n)) p func s = after p (func s) (attempts (suc n) p func)

  attempts-returned :
      (n : ℕ) (p : Exc → Bool) (func : Exec Exc S T) (s s' : S) (value : T)
      → func s ≡ (ok value, s')
      → attempts n p func s ≡ (ok value, s')
  unfolding attempts
  attempts-returned zero p func s s' value h = h
  attempts-returned (suc zero) p func s s' value h = h
  attempts-returned (suc (suc n)) p func s s' value h =
      ap (λ r. after p r (attempts (suc n) p func)) h

  attempts-refused :
      (n : ℕ) (p : Exc → Bool) (func : Exec Exc S T) (s s' : S) (e : Exc)
      → func s ≡ (raised e, s')
      → p e ≡ false
      → attempts n p func s ≡ (raised e, s')
  unfolding attempts
  attempts-refused zero p func s s' e h final = h
  attempts-refused (suc zero) p func s s' e h final = h
  attempts-refused (suc (suc n)) p func s s' e h final = rw (h, final) refl

  attempts-again :
      (n : ℕ) (p : Exc → Bool) (func : Exec Exc S T) (s s' : S) (e : Exc)
      → func s ≡ (raised e, s')
      → p e ≡ true
      → attempts (suc (suc n)) p func s ≡ attempts (suc n) p func s'
  unfolding attempts
  attempts-again n p func s s' e h retryable = rw (h, retryable) refl

  unfoldable loop : Tenacity S T
  unfolding attempts
  loop = record {
    retrying = attempts;
    returned = attempts-returned;
    refused = attempts-refused;
    exhausted = λ p func s s' e h. h;
    again = attempts-again;
  }

abbrev closed : Exc
closed = plain session_lifecycle_error (codes "SessionLifecycleError") (codes "closed")

-- Fails on each of the first two calls; the state counts the calls.
flaky : Exec Exc ℕ ℕ
flaky zero = (raised closed, 1)
flaky (suc zero) = (raised closed, 2)
flaky (suc (suc n)) = (ok n, suc (suc (suc n)))

flaky-counts : (n : ℕ) → (flaky n).1 ≡ suc n
unfolding flaky
flaky-counts zero = refl
flaky-counts (suc zero) = refl
flaky-counts (suc (suc n)) = refl

abbrev three : RetryPolicy
three = record { max_attempts = 3; retry_on_kinds = browser_runtime ∷ [] }

three-IsValidPolicy : IsValidPolicy three
three-IsValidPolicy = record { least = omega arith; most = omega arith }

retried : retry_sync plain_library loop flaky three idempotent 0 ≡ (ok 0, 3)
unfolding retry_sync loop attempts after flaky effective_attempts is_retryable_exception
    classify_exception in_kinds kind_text text_eq
retried = refl

retry_sync-non_idempotent_example :
    retry_sync plain_library loop flaky three non_idempotent 0 ≡ flaky 0
retry_sync-non_idempotent_example = retry_sync-non_idempotent plain_library loop flaky three 0

retry_sync-IsRun_example :
    IsRun plain_library loop
      (λ n. n)
      flaky
      3
      0
      (retry_sync plain_library loop flaky three idempotent 0)
    × (3 ≤ 10)
retry_sync-IsRun_example =
    retry_sync-IsRun plain_library loop (λ n. n) flaky three idempotent 0 three-IsValidPolicy
      flaky-counts

abbrev unsafe : Exc
unsafe = plain persistence_security_error (codes "PersistenceSecurityError") (codes "unsafe url")

refusing : Exec Exc ℕ ℕ
refusing n = (raised unsafe, suc n)

abbrev unsafe_told : OperatorError
unsafe_told = record {
  type = codes "SecurityError";
  message = codes "unsafe url";
  kind = sight_stalker.Errors.security_refusal;
  severity = sight_stalker.Errors.error;
  recoverability = sight_stalker.Errors.do_not_retry;
  exit_code = 6;
  code = none;
  details = none;
}

refuses : refusing 0 ≡ (raised unsafe, 1)
unfolding refusing
refuses = refl

unsafe_classified : classify_exception plain_library unsafe ≡ ok unsafe_told
unfolding classify_exception
unsafe_classified = refl

retry_sync-refuses_example :
    retry_sync plain_library loop refusing three idempotent 0 ≡ (raised unsafe, 1)
retry_sync-refuses_example =
    retry_sync-refuses plain_library loop refusing three idempotent 0 1 unsafe unsafe_told refuses
      unsafe_classified (inl refl)

classify_exception-IsConsistent_example : IsConsistent unsafe_told
classify_exception-IsConsistent_example =
    classify_exception-IsConsistent plain_library persistence_security_error
      (codes "PersistenceSecurityError") (codes "unsafe url") unsafe_told unsafe_classified

classify_exception-IsTold_example : IsTold unsafe (classify_exception plain_library unsafe)
classify_exception-IsTold_example = classify_exception-IsTold plain_library unsafe (omega arith)

native_error-IsSanitized_example : IsSanitized plain_library (
    classify_exception plain_library (
      project
        (native_error plain_library (attributes timeout_failure) (codes "slow") no_overrides)))
native_error-IsSanitized_example =
    native_error-IsSanitized plain_library (attributes timeout_failure) (codes "slow") no_overrides

missing_schema :
    looks_like_missing_schema plain_library
      (plain operational_error (codes "OperationalError") (codes "no such table: runs"))
    ≡ true
unfolding looks_like_missing_schema
missing_schema = refl
