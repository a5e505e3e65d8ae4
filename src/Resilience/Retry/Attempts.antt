-- ===== src/Resilience/Retry/Attempts.antt =====
-- How often `retry_sync` calls the function, and which call's result it hands on.
use sight_stalker.Prelude.{
  ℕ, zero, suc, ◌+◌, ◌≡◌, refl, sym, ap, ◌∙◌, ◌≤◌, ◌⊎◌, inl, inr, Bool, true, false, List, [], ◌∷◌,
  Outcome, ok, raised, arith, Bool-cases, if◌then◌else◌, leb, Text, codes, Option, some, ◌==◌,
  text_eq,
}
use mathlib.Core.Path.{subst}
use mathlib.Core.Logic.{if_neg}
use mathlib.Core.Option.{some-injective}
use mathlib.Core.List.{Memᴰ}
use sight_stalker.Exec.{Exec}
use sight_stalker.Errors.{
  Exc, plain, keyboard_interrupt, system_exit, cancelled_error, other_base_exception, value_error,
  profile_lock_unavailable, other_exception, persistence_security_error, persistence_error,
  diagnostic_error, diagnostic_persistence_error, session_lifecycle_error, session_state_error,
  artifact_error, operational_error, sqlalchemy_error, project, cli, ErrorKind, usage,
  configuration, security_refusal, browser_runtime, persistence, artifact, diagnostic, timeout,
  integrity, external, internal,
}
use sight_stalker.Security.Redaction.{TextLibrary}
use sight_stalker.Resilience.Operator.{OperatorError, kind_text}
use sight_stalker.Resilience.Classification.{classify_exception}
use sight_stalker.Resilience.Retry.{
  OperationSafety, side_effect_free, idempotent, non_idempotent, RetryPolicy, IsValidPolicy,
  attempts_on, effective_attempts, in_kinds, never_retry_kinds, on_classified,
  is_retryable_exception, Tenacity, retry_sync,
}

attempts_kinds-le :
    (n : ℕ) (kinds : List ErrorKind)
    → 1 ≤ n
    → (1 ≤ (if leb n 1 then 1 else attempts_on n kinds))
      × ((if leb n 1 then 1 else attempts_on n kinds) ≤ n)
unfolding attempts_on
attempts_kinds-le n [] h = ground arith
attempts_kinds-le n (kind ∷ kinds) h = ground arith

attempts_tests-le :
    (policy : RetryPolicy)
    → IsValidPolicy policy
    → (1 ≤ (
        if leb policy.max_attempts 1
        then 1
        else attempts_on policy.max_attempts policy.retry_on_kinds))
      × ((if leb policy.max_attempts 1
            then 1
            else attempts_on policy.max_attempts policy.retry_on_kinds)
          ≤ policy.max_attempts)
unfolding attempts_on
attempts_tests-le policy valid =
    attempts_kinds-le policy.max_attempts policy.retry_on_kinds valid.least

attempts-le :
    (policy : RetryPolicy) (safety : OperationSafety)
    → IsValidPolicy policy
    → (1 ≤ effective_attempts policy safety)
      × (effective_attempts policy safety ≤ policy.max_attempts)
unfolding effective_attempts attempts_on
attempts-le policy non_idempotent valid = (omega arith, valid.least)
attempts-le policy side_effect_free valid = attempts_tests-le policy valid
attempts-le policy idempotent valid = attempts_tests-le policy valid

-- The kind that a text names.
kind_of : Text → Option ErrorKind
unfolding text_eq
kind_of text =
    if text == codes "usage"
    then some usage
    else if text == codes "configuration"
    then some configuration
    else if text == codes "security_refusal"
    then some security_refusal
    else if text == codes "browser_runtime"
    then some browser_runtime
    else if text == codes "persistence"
    then some persistence
    else if text == codes "artifact"
    then some artifact
    else if text == codes "diagnostic"
    then some diagnostic
    else if text == codes "timeout"
    then some timeout
    else if text == codes "integrity"
    then some integrity
    else if text == codes "external"
    then some external
    else some internal

kind_of-kind_text : (kind : ErrorKind) → kind_of (kind_text kind) ≡ some kind
unfolding kind_of kind_text text_eq
kind_of-kind_text usage = refl
kind_of-kind_text configuration = refl
kind_of-kind_text security_refusal = refl
kind_of-kind_text browser_runtime = refl
kind_of-kind_text persistence = refl
kind_of-kind_text artifact = refl
kind_of-kind_text diagnostic = refl
kind_of-kind_text timeout = refl
kind_of-kind_text integrity = refl
kind_of-kind_text external = refl
kind_of-kind_text internal = refl

kind_text-injective : (k l : ErrorKind) → kind_text k ≡ kind_text l → k ≡ l
kind_text-injective k l h =
    some-injective k l (sym (kind_of-kind_text k) ∙ ap kind_of h ∙ kind_of-kind_text l)

-- A kind that is not in the list is not found there.
in_kinds-absent :
    (kind : ErrorKind) (kinds : List ErrorKind) → ¬ Memᴰ kind kinds → in_kinds kind kinds ≡ false
unfolding in_kinds
in_kinds-absent kind [] absent = refl
in_kinds-absent kind (k ∷ kinds) absent =
    let later = in_kinds-absent kind kinds (λ m. absent (Memᴰ.tail m)) in
    elim (text_eq.dec (kind_text kind) (kind_text k)) [
      | yes same ↦ absurd (absent (Memᴰ.head (kind_text-injective kind k same)))
      | no differ ↦ rw (if_neg _ differ) later
    ]

module _ {S T : Type 0} (lib : TextLibrary) (tenacity : Tenacity S T) where
  -- One attempt is one call.
  single :
      (p : Exc → Bool) (func : Exec Exc S T) (s s' : S) (r : Outcome Exc T)
      → func s ≡ (r, s')
      → tenacity.retrying 1 p func s ≡ (r, s')
  single p func s s' (ok value) h = tenacity.returned 1 p func s s' value h
  single p func s s' (raised e) h = tenacity.exhausted p func s s' e h

  -- A non-idempotent operation is run exactly once, whatever the policy: `retry_sync` is the call.
  pub retry_sync-non_idempotent :
      (func : Exec Exc S T) (policy : RetryPolicy) (s : S)
      → retry_sync lib tenacity func policy non_idempotent s ≡ func s
  unfolding retry_sync effective_attempts
  retry_sync-non_idempotent func policy s = single _ func s (func s).1 (func s).0 refl

  -- A failure whose kind is one of `_NEVER_RETRY_KINDS`, or which is not among the kinds of the policy,
  -- is not retried.
  on_classified-false :
      (policy : RetryPolicy) (told : OperatorError)
      → in_kinds told.kind never_retry_kinds ≡ true
        ⊎ in_kinds told.kind policy.retry_on_kinds ≡ false
      → on_classified policy (ok told) ≡ false
  unfolding on_classified
  on_classified-false policy told (inl never) = ground arith
  on_classified-false policy told (inr other) = ground arith

  refused_kind :
      (policy : RetryPolicy) (told : OperatorError)
      → told.kind ≡ security_refusal
        ⊎ told.kind ≡ usage
        ⊎ told.kind ≡ configuration
        ⊎ ¬ Memᴰ told.kind policy.retry_on_kinds
      → in_kinds told.kind never_retry_kinds ≡ true
        ⊎ in_kinds told.kind policy.retry_on_kinds ≡ false
  unfolding in_kinds kind_text text_eq
  refused_kind policy told (inl e) = inl (rw e refl)
  refused_kind policy told (inr (inl e)) = inl (rw e refl)
  refused_kind policy told (inr (inr (inl e))) = inl (rw e refl)
  refused_kind policy told (inr (inr (inr absent))) =
      inr (in_kinds-absent told.kind policy.retry_on_kinds absent)

  is_retryable_exception-false :
      (e : Exc) (policy : RetryPolicy)
      → on_classified policy (classify_exception lib e) ≡ false
      → is_retryable_exception lib e policy ≡ false
  unfolding is_retryable_exception
  is_retryable_exception-false (project e) policy h = h
  is_retryable_exception-false (cli e) policy h = h
  is_retryable_exception-false (plain keyboard_interrupt name text) policy h = refl
  is_retryable_exception-false (plain system_exit name text) policy h = refl
  is_retryable_exception-false (plain cancelled_error name text) policy h = h
  is_retryable_exception-false (plain other_base_exception name text) policy h = h
  is_retryable_exception-false (plain persistence_security_error name text) policy h = h
  is_retryable_exception-false (plain persistence_error name text) policy h = h
  is_retryable_exception-false (plain diagnostic_error name text) policy h = h
  is_retryable_exception-false (plain diagnostic_persistence_error name text) policy h = h
  is_retryable_exception-false (plain session_lifecycle_error name text) policy h = h
  is_retryable_exception-false (plain session_state_error name text) policy h = h
  is_retryable_exception-false (plain artifact_error name text) policy h = h
  is_retryable_exception-false (plain operational_error name text) policy h = h
  is_retryable_exception-false (plain sqlalchemy_error name text) policy h = h
  is_retryable_exception-false (plain value_error name text) policy h = h
  is_retryable_exception-false (plain profile_lock_unavailable name text) policy h = h
  is_retryable_exception-false (plain other_exception name text) policy h = h

  -- A failure that is classified as a security refusal, a usage error or a configuration error, whatever
  -- kinds the policy lists, or as of a kind that the policy does not list, is raised at once, after the
  -- one call that raised it, whatever the policy and the safety of the operation.
  pub retry_sync-refuses :
      (func : Exec Exc S T) (policy : RetryPolicy) (safety : OperationSafety) (s s' : S) (e : Exc)
      (told : OperatorError)
      → func s ≡ (raised e, s')
      → classify_exception lib e ≡ ok told
      → told.kind ≡ security_refusal
        ⊎ told.kind ≡ usage
        ⊎ told.kind ≡ configuration
        ⊎ ¬ Memᴰ told.kind policy.retry_on_kinds
      → retry_sync lib tenacity func policy safety s ≡ (raised e, s')
  unfolding retry_sync
  retry_sync-refuses func policy safety s s' e told h c k = tenacity.refused _ _ func s s' e h (
      is_retryable_exception-false e policy (
        ap (on_classified policy) c ∙ on_classified-false policy told (refused_kind policy told k)))

  -- `r` is the result of the last of at least one and at most `n` calls of `func`, counted by `calls`.
  pub record IsRun (calls : S → ℕ) (func : Exec Exc S T) (n : ℕ) (s : S) (r : Outcome Exc T × S)
      : Type 0 where
    pub result : (last : S) × (r ≡ func last) × (calls r.1 ≡ suc (calls last))
    pub least : suc (calls s) ≤ calls r.1
    pub most : calls r.1 ≤ n + calls s

  one_call-IsRun :
      (calls : S → ℕ) (func : Exec Exc S T)
      → ((s : S) → calls (func s).1 ≡ suc (calls s))
      → (n : ℕ) (s : S) → IsRun calls func (suc n) s (func s)
  one_call-IsRun calls func counts n s = record {
    result = (s, refl, counts s);
    least = omega (arith, counts s);
    most = omega (arith, counts s);
  }

  later-IsRun :
      (calls : S → ℕ) (func : Exec Exc S T) (n : ℕ) (s s' : S) (r : Outcome Exc T × S)
      → calls s' ≡ suc (calls s)
      → IsRun calls func n s' r
      → IsRun calls func (suc n) s r
  later-IsRun calls func n s s' r h run = record {
    result = run.result;
    least = omega (arith, h, run.least);
    most = omega (arith, h, run.most);
  }

  after_call-IsRun :
      (p : Exc → Bool) (calls : S → ℕ) (func : Exec Exc S T)
      → ((s : S) → calls (func s).1 ≡ suc (calls s))
      → (n : ℕ) (s s' : S) (r : Outcome Exc T) → func s ≡ (r, s')
      → IsRun calls func (suc n) s (tenacity.retrying (suc n) p func s)
  after_call-IsRun p calls func counts n s s' (ok value) h =
      subst (IsRun calls func (suc n) s) (h ∙ sym (tenacity.returned (suc n) p func s s' value h))
        (one_call-IsRun calls func counts n s)
  after_call-IsRun p calls func counts zero s s' (raised e) h =
      subst (IsRun calls func 1 s) (h ∙ sym (tenacity.exhausted p func s s' e h))
        (one_call-IsRun calls func counts 0 s)
  after_call-IsRun p calls func counts (suc n) s s' (raised e) h = elim (Bool-cases (p e)) [
    | inl retryable ↦
        subst (IsRun calls func (suc (suc n)) s) (sym (tenacity.again n p func s s' e h retryable))
          (later-IsRun calls func (suc n) s s' _ (ap (λ r. calls r.1) (sym h) ∙ counts s)
            (after_call-IsRun p calls func counts n s' (func s').1 (func s').0 refl))
    | inr final ↦
        subst (IsRun calls func (suc (suc n)) s)
          (h ∙ sym (tenacity.refused (suc (suc n)) p func s s' e h final))
          (one_call-IsRun calls func counts (suc n) s)
  ]

  at_most-IsRun :
      (p : Exc → Bool) (calls : S → ℕ) (func : Exec Exc S T)
      → ((s : S) → calls (func s).1 ≡ suc (calls s))
      → (n : ℕ) (s : S) → 1 ≤ n
      → IsRun calls func n s (tenacity.retrying n p func s)
  at_most-IsRun p calls func counts zero s h = absurd (omega (arith, h))
  at_most-IsRun p calls func counts (suc n) s h =
      after_call-IsRun p calls func counts n s (func s).1 (func s).0 refl

  widen-IsRun :
      (calls : S → ℕ) (func : Exec Exc S T) (m n : ℕ) (s : S) (r : Outcome Exc T × S)
      → m ≤ n
      → IsRun calls func m s r
      → IsRun calls func n s r
  widen-IsRun calls func m n s r h run = record {
    result = run.result;
    least = run.least;
    most = omega (arith, h, run.most);
  }

  -- Under a valid policy the function is called at least once and at most `max_attempts` times, which
  -- is at most 10, and what `retry_sync` returns or raises, and the state it leaves, are those of the
  -- last call. `calls` counts the calls in the state.
  pub retry_sync-IsRun :
      (calls : S → ℕ) (func : Exec Exc S T) (policy : RetryPolicy) (safety : OperationSafety)
      (s : S)
      → IsValidPolicy policy
      → ((s : S) → calls (func s).1 ≡ suc (calls s))
      → IsRun calls func policy.max_attempts s (retry_sync lib tenacity func policy safety s)
        × (policy.max_attempts ≤ 10)
  unfolding retry_sync
  retry_sync-IsRun calls func policy safety s valid counts =
      let (some_call, few) = attempts-le policy safety valid in
      (
        widen-IsRun calls func _ _ s _ few (at_most-IsRun _ calls func counts _ s some_call),
        valid.most,
      )
