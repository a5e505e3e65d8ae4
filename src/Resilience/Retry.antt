-- ===== src/Resilience/Retry.antt =====
-- resilience/retry.py: `retry_sync`. How long tenacity waits between attempts is left out.
pub mod Attempts
use sight_stalker.Prelude.{
  ℕ, suc, ◌≡◌, ◌≤◌, Bool, true, false, ◌||◌, List, [], ◌∷◌, Outcome, ok, raised, leb, if◌then◌else◌,
  ◌==◌, text_eq,
}
use sight_stalker.Exec.{Exec}
use sight_stalker.Errors.{
  Exc, plain, keyboard_interrupt, system_exit, ErrorKind, usage, configuration, security_refusal,
}
use sight_stalker.Security.Redaction.{TextLibrary}
use sight_stalker.Resilience.Operator.{OperatorError, kind_text}
use sight_stalker.Resilience.Classification.{classify_exception}

pub data OperationSafety : Type 0 where
  side_effect_free idempotent non_idempotent : OperationSafety

-- The fields that say whether to retry. The delays are not modelled.
pub record RetryPolicy : Type 0 where
  pub max_attempts : ℕ
  pub retry_on_kinds : List ErrorKind

abbrev pub default_policy : RetryPolicy
default_policy = record { max_attempts = 1; retry_on_kinds = [] }

-- `Field(ge=1, le=10)`
pub record IsValidPolicy (policy : RetryPolicy) : Type 0 where
  pub least : 1 ≤ policy.max_attempts
  pub most : policy.max_attempts ≤ 10

attempts_on : ℕ → List ErrorKind → ℕ
attempts_on n [] = 1
attempts_on n (kind ∷ kinds) = n

unfoldable pub effective_attempts : RetryPolicy → OperationSafety → ℕ
unfolding attempts_on
effective_attempts policy non_idempotent = 1
effective_attempts policy _ =
    if leb policy.max_attempts 1 then 1 else attempts_on policy.max_attempts policy.retry_on_kinds

-- `kind in kinds`
unfoldable pub in_kinds : ErrorKind → List ErrorKind → Bool
unfolding kind_text
in_kinds kind [] = false
in_kinds kind (k ∷ kinds) = kind_text kind == kind_text k || in_kinds kind kinds

abbrev pub never_retry_kinds : List ErrorKind
never_retry_kinds = security_refusal ∷ usage ∷ configuration ∷ []

on_classified : RetryPolicy → Outcome Exc OperatorError → Bool
unfolding in_kinds
on_classified policy (raised e) = false
on_classified policy (ok operator) =
    if in_kinds operator.kind never_retry_kinds
    then false
    else in_kinds operator.kind policy.retry_on_kinds

-- What `classify_exception` raises for an exception other than the two tested first is an `Exception`.
unfoldable pub is_retryable_exception : TextLibrary → Exc → RetryPolicy → Bool
unfolding classify_exception on_classified
is_retryable_exception lib (plain keyboard_interrupt name text) policy = false
is_retryable_exception lib (plain system_exit name text) policy = false
is_retryable_exception lib e policy = on_classified policy (classify_exception lib e)

-- `tenacity.Retrying(stop=stop_after_attempt(n), retry=p, reraise=True)(func)`, as the documentation of
-- tenacity has it. The predicate is asked of failed attempts only, as `_make_retry_predicate` does.
pub record Tenacity (S T : Type 0) : Type 0 where
  pub retrying : ℕ → (Exc → Bool) → Exec Exc S T → Exec Exc S T
  pub returned :
      (n : ℕ) (p : Exc → Bool) (func : Exec Exc S T) (s s' : S) (value : T)
      → func s ≡ (ok value, s')
      → retrying n p func s ≡ (ok value, s')
  pub refused :
      (n : ℕ) (p : Exc → Bool) (func : Exec Exc S T) (s s' : S) (e : Exc)
      → func s ≡ (raised e, s')
      → p e ≡ false
      → retrying n p func s ≡ (raised e, s')
  pub exhausted :
      (p : Exc → Bool) (func : Exec Exc S T) (s s' : S) (e : Exc)
      → func s ≡ (raised e, s')
      → retrying 1 p func s ≡ (raised e, s')
  pub again :
      (n : ℕ) (p : Exc → Bool) (func : Exec Exc S T) (s s' : S) (e : Exc)
      → func s ≡ (raised e, s')
      → p e ≡ true
      → retrying (suc (suc n)) p func s ≡ retrying (suc n) p func s'

module _ {S T : Type 0} (lib : TextLibrary) (tenacity : Tenacity S T) where
  unfoldable pub retry_sync : Exec Exc S T → RetryPolicy → OperationSafety → Exec Exc S T
  unfolding effective_attempts is_retryable_exception
  retry_sync func policy safety =
      tenacity.retrying (effective_attempts policy safety)
        (λ e. is_retryable_exception lib e policy) func
