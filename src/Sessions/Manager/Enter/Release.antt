-- ===== src/Sessions/Manager/Enter/Release.antt =====
-- `__aenter__` either holds everything, or has given everything back.
use sight_stalker.Prelude.{
  ◌≡◌, ◌≢◌, ◌⊎◌, refl, true, false, none, ok, raised, is_raised, Outcome, is_some, arith, text_eq,
}
use sight_stalker.Exec.{Exec, ◌>>◌, continue}
use sight_stalker.Errors.{Exc}
use sight_stalker.Models.Identifiers.{matches_id, profile_prefix, session_prefix}
use sight_stalker.Models.Paths.{path_eq}
use sight_stalker.Sessions.Collaborators.{Collaborators}
use sight_stalker.Sessions.Manager.State.{
  is_ok, profile_layout, Opened, Managed, open_context, perform,
}
use sight_stalker.Sessions.Manager.Trace.{IsConsistent, IsHeld, IsReleased}
use sight_stalker.Sessions.Manager.Enter.{
  same_dir, guards, acquire_lock, locked_body, body, enter_failure_cleanup, finish_enter,
  enter_guarded, aenter,
}
use sight_stalker.Sessions.Manager.Enter.Locking.{
  IsRunning, locked_body-IsHeld, locked_body-IsRunning,
}

module _ (c : Collaborators) (o : Opened) where
  enter_failure_cleanup-IsReleased :
      (s : Managed c) → IsConsistent s → IsReleased (enter_failure_cleanup c o s)
  unfolding enter_failure_cleanup perform
  enter_failure_cleanup-IsReleased s h = ground arith

  -- Before the lock is held nothing is open.
  record IsIdle (s : Managed c) : Type 0 where
    consistent : IsConsistent s
    unlocked : s.lock ≡ none
    no_runtime : s.runtime ≡ none
    no_context : s.context ≡ none

  -- `Q` where the step returned, and consistency where it raised.
  abbrev Post : (Managed c → Type 0) → Outcome Exc (Unit {0}) × Managed c → Type 0
  Post Q (ok _, s) = Q s
  Post Q (raised e, s) = IsConsistent s

  -- Everything is in place, and the lock is held.
  pub record IsReady (s : Managed c) : Type 0 where
    pub held : IsHeld s
    pub running : IsRunning c o s

  Post-pair :
      (r : Outcome Exc (Unit {0})) (s : Managed c)
      → IsHeld s
      → (r ≡ ok tt → IsRunning c o s)
      → Post IsReady (r, s)
  Post-pair (ok u) s h run = record { held = h; running = run refl }
  Post-pair (raised e) s h run = h.consistent

  locked_body-Post : (s : Managed c) → IsHeld s → Post IsReady (locked_body c o s)
  locked_body-Post s h =
      Post-pair (locked_body c o s).0 (locked_body c o s).1 ((locked_body-IsHeld c o).at s h)
        (locked_body-IsRunning c o s)

  Post-continue :
      (P Q : Managed c → Type 0) (m : Outcome Exc (Unit {0}) × Managed c)
      (f : Exec Exc (Managed c) (Unit {0}))
      → Post P m
      → ((s : Managed c) → P s → Post Q (f s))
      → Post Q (continue m (λ _. f))
  Post-continue P Q (ok u, s) f h k = k s h
  Post-continue P Q (raised e, s) f h k = h

  profile_layout-Post :
      (s : Managed c)
      → IsIdle s
      → Post IsIdle (perform profile_layout (c.ensure_profile_layout o.profile.profile_id) s)
  unfolding perform
  profile_layout-Post s h = ground arith

  acquire_lock-Post : (s : Managed c) → IsIdle s → Post IsHeld (acquire_lock c o s)
  unfolding acquire_lock perform
  acquire_lock-Post s h = ground arith

  body-Post : (s : Managed c) → IsIdle s → Post IsReady (body c o s)
  unfolding body perform
  body-Post s h =
      Post-continue IsIdle IsReady
        (perform profile_layout (c.ensure_profile_layout o.profile.profile_id) s)
        (acquire_lock c o >> locked_body c o) (profile_layout-Post s h)
        (λ t idle.
          Post-continue IsHeld IsReady (acquire_lock c o t) (locked_body c o)
            (acquire_lock-Post t idle) locked_body-Post)

  -- What holds after `__aenter__`, by its outcome.
  abbrev Finished : Outcome Exc (Unit {0}) × Managed c → Type 0
  Finished (ok _, s) = IsReady s × (s.entered ≡ true)
  Finished (raised e, s) = IsReleased s

  finish_enter-Finished :
      (m : Outcome Exc (Unit {0}) × Managed c) → Post IsReady m → Finished (finish_enter c o m)
  unfolding finish_enter
  finish_enter-Finished (ok u, s) h = ground arith
  finish_enter-Finished (raised e, s) h = enter_failure_cleanup-IsReleased s h

  open_context-IsIdle : (w : c.World) → IsIdle (open_context c w)
  unfolding open_context
  open_context-IsIdle w = ground arith

  enter_guarded-Finished :
      (r : Outcome Exc (Unit {0})) (s : Managed c) → IsIdle s → Finished (enter_guarded c o r s)
  unfolding enter_guarded
  enter_guarded-Finished (ok u) s h = finish_enter-Finished (body c o s) (body-Post s h)
  enter_guarded-Finished (raised e) s h = ground arith

  aenter-Finished : (w : c.World) → Finished (aenter c o (open_context c w))
  unfolding aenter
  aenter-Finished w = enter_guarded-Finished _ _ (open_context-IsIdle w)

  -- If `__aenter__` raises, for any reason and at any step, then no lock, runtime or context is left
  -- open: each that was obtained has had its release or close called, the lock attribute is cleared,
  -- and every call that wants the profile lock was made while the lock was held.
  pub aenter_failure-IsReleased :
      (w : c.World) (e : Exc)
      → (aenter c o (open_context c w)).0 ≡ raised e
      → IsReleased (aenter c o (open_context c w)).1
  aenter_failure-IsReleased w e h = ground (arith, aenter-Finished w)

  -- If `__aenter__` returns, then the profile lock is held, runtime, context and both records are in
  -- place, the attributes agree with the calls made, and every call that wants the lock was made while
  -- it was held.
  pub aenter_success-IsReady :
      (w : c.World)
      → (aenter c o (open_context c w)).0 ≡ ok tt
      → IsReady (aenter c o (open_context c w)).1
  aenter_success-IsReady w h = ground (arith, aenter-Finished w)

  -- A precondition that fails is reported before any effect: if the identifiers do not agree or do not
  -- meet their patterns, if a deferred launch feature is asked for, or if the profile directory does
  -- not resolve to what the authority's resolves to, or cannot be resolved, `__aenter__` raises and leaves the manager's state, its world
  -- included, as it was.
  pub aenter_rejects :
      (s : Managed c)
      → (o.profile.profile_id ≢ o.session.profile_id)
        ⊎ (o.request.session_id ≢ o.session.session_id)
        ⊎ (matches_id profile_prefix o.profile.profile_id ≡ false)
        ⊎ (matches_id session_prefix o.session.session_id ≡ false)
        ⊎ (is_some o.session.config.launch.user_data_dir ≡ true)
        ⊎ (is_some o.session.config.launch.fingerprint ≡ true)
        ⊎ (c.resolve o.profile.profile_dir s.world
            ≢ c.resolve (c.profile_dir o.profile.profile_id) s.world)
        ⊎ (is_ok (c.resolve o.profile.profile_dir s.world) ≡ false)
      → (is_raised (aenter c o s).0 ≡ true) × ((aenter c o s).1 ≡ s)
  unfolding aenter guards same_dir
  aenter_rejects s h = ground arith
