-- ===== src/Sessions/Manager/Trace.antt =====
-- Which resources a trace of calls has left open, and in what order calls may stand.
use sight_stalker.Prelude.{Bool, true, false, List, [], ◌∷◌, ◌≡◌, is_some, none}
use sight_stalker.Sessions.Collaborators.{Collaborators}
use sight_stalker.Sessions.Manager.State.{
  Call, profile_layout, acquire, launch, new_context, close_context, close_runtime, release, Event,
  event, Managed,
}

-- The lock was acquired, and no release was called since.
abbrev pub lock_open : List Event → Bool
lock_open [] = false
lock_open (event acquire true ∷ t) = true
lock_open (event release b ∷ t) = false
lock_open (_ ∷ t) = lock_open t

-- The engine was launched, and the runtime's close was not called since.
abbrev pub runtime_open : List Event → Bool
runtime_open [] = false
runtime_open (event launch true ∷ t) = true
runtime_open (event close_runtime b ∷ t) = false
runtime_open (_ ∷ t) = runtime_open t

-- A context was created, and its close was not called since.
abbrev pub context_open : List Event → Bool
context_open [] = false
context_open (event new_context true ∷ t) = true
context_open (event close_context b ∷ t) = false
context_open (_ ∷ t) = context_open t

-- All calls but the profile layout and the acquisition itself want the lock.
abbrev pub needs_lock : Call → Bool
needs_lock profile_layout = false
needs_lock acquire = false
needs_lock _ = true

-- Each call that wants the lock was made while it was held.
abbrev pub UnderLock : List Event → Type 0
UnderLock [] = Unit
UnderLock (event k b ∷ t) = (needs_lock k ≡ true → lock_open t ≡ true) × UnderLock t

-- The attributes agree with the calls, and nothing is open without the lock.
pub record IsConsistent {c : Collaborators} (s : Managed c) : Type 0 where
  pub lock : is_some s.lock ≡ lock_open s.trace
  pub runtime : is_some s.runtime ≡ runtime_open s.trace
  pub context : is_some s.context ≡ context_open s.trace
  pub runtime_locked : is_some s.runtime ≡ true → is_some s.lock ≡ true
  pub context_locked : is_some s.context ≡ true → is_some s.lock ≡ true
  pub guarded : UnderLock s.trace

-- The same with the lock held.
pub record IsHeld {c : Collaborators} (s : Managed c) : Type 0 where
  pub consistent : IsConsistent s
  pub held : is_some s.lock ≡ true

-- No resource is left open.
abbrev pub AllClosed : List Event → Type 0
AllClosed t = (lock_open t ≡ false) × (runtime_open t ≡ false) × (context_open t ≡ false)

-- Nothing is open, and each call that wants the lock was made while it was held.
pub record IsReleased {c : Collaborators} (s : Managed c) : Type 0 where
  pub closed : AllClosed s.trace
  pub unlocked : s.lock ≡ none
  pub guarded : UnderLock s.trace

-- The calls of a trace, without their outcomes.
abbrev pub calls : List Event → List Call
calls [] = []
calls (event k b ∷ t) = k ∷ calls t
