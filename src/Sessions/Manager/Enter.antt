-- ===== src/Sessions/Manager/Enter.antt =====
-- `ManagedSessionContext.__aenter__`.
mod Locking
pub mod Release
mod Tests
use sight_stalker.Prelude.{
  Bool, true, false, not, ◌&&◌, List, [], ◌∷◌, Option, none, some, Text, codes, Outcome, ok, raised,
  is_some, ◌==◌, text_eq, if◌then◌else◌,
}
use sight_stalker.Exec.{Exec, ◌>>=◌, ◌>>◌, pure, modify}
use sight_stalker.Errors.{Exc, plain, value_error}
use sight_stalker.Models.Artifacts.{ArtifactRef}
use sight_stalker.Models.Browser.{BrowserState}
use sight_stalker.Models.Identifiers.{matches_id, profile_prefix, session_prefix, running}
use sight_stalker.Models.Json.{nil}
use sight_stalker.Models.Paths.{FilePath, path_eq}
use sight_stalker.Sessions.Collaborators.{Collaborators}
use sight_stalker.Sessions.Manager.State.{
  Call, profile_layout, acquire, run_layout, read_state, write_initial, launch, new_context,
  close_context, close_runtime, release, Opened, Managed, perform, now, collected_artifacts,
  build_launch_config, build_metadata,
}

-- `raise ValueError(text)`, or of its subclass `ValidationError` where pydantic raises.
abbrev pub value_error_of : Text → Exc
value_error_of text = plain value_error (codes "ValueError") text

abbrev pub validation_error : Exc
validation_error = plain value_error (codes "ValidationError") (codes "string_pattern_mismatch")

module _ (c : Collaborators) (o : Opened) where
  open o use {session, profile, request, run_id, context_id}

  -- Step 6, on what `Path.resolve()` returns or raises for the two directories.
  same_dir : Outcome Exc FilePath → Outcome Exc FilePath → Outcome Exc (Unit {0})
  same_dir (raised e) authority = raised e
  same_dir (ok dir) (raised e) = raised e
  same_dir (ok dir) (ok authority) =
      if dir == authority
      then ok tt
      else raised
          (value_error_of (codes "profile.profile_dir does not match the SessionPaths authority"))

  -- Steps 1 to 6 of `__aenter__`, which have no effect.
  guards : c.World → Outcome Exc (Unit {0})
  unfolding same_dir
  guards w =
      if not (profile.profile_id == session.profile_id)
      then raised (value_error_of (codes "profile.profile_id does not match session.profile_id"))
      else if not (request.session_id == session.session_id)
      then raised (value_error_of (codes "request.session_id does not match session.session_id"))
      else if not (matches_id profile_prefix profile.profile_id)
      then raised validation_error
      else if not (matches_id session_prefix session.session_id)
      then raised validation_error
      else if not (matches_id session_prefix request.session_id)
      then raised validation_error
      else if is_some session.config.launch.user_data_dir
      then raised (
          value_error_of (
            codes
              "BrowserLaunchConfig.user_data_dir is not supported by SESSION-STATE-1; persistent browser profiles are deferred to a future persistent-profile PR"))
      else if is_some session.config.launch.fingerprint
      then raised (
          value_error_of
            (codes "FingerprintConfig mapping is deferred to profile/fingerprint registry PRs"))
      else same_dir (c.resolve profile.profile_dir w)
          (c.resolve (c.profile_dir profile.profile_id) w)

  -- Step 10.
  acquire_lock : Exec Exc (Managed c) (Unit {0})
  acquire_lock = do
    lock ← perform acquire (c.acquire profile)
    modify (λ s. record s { lock = some lock })

  -- Step 12.
  restart_clock : Exec Exc (Managed c) (Unit {0})
  restart_clock s = let (t, s') = now s in (ok tt, record s' { started_at = t })

  -- `_resolve_initial_state`
  resolve_prior : Option ArtifactRef → Exec Exc (Managed c) BrowserState
  resolve_prior none = pure (record {
    cookies = nil;
    origins = nil;
    indexed_db_included = false;
    engine_name = session.config.launch.engine_name;
    schema_version = codes "browser_state_v1";
  })
  resolve_prior (some prior) = perform read_state (c.read_state prior)

  resolve_initial_state : Exec Exc (Managed c) BrowserState
  unfolding resolve_prior
  resolve_initial_state =
      resolve_prior
        (if session.config.persist_storage_state then session.latest_final_state else none)

  -- Step 14.
  write_snapshot : BrowserState → Exec Exc (Managed c) (Unit {0})
  write_snapshot state =
      if session.config.persist_storage_state && session.config.capture_initial_storage_state
      then (do
        ref ←
            perform write_initial
              (c.write_initial_state profile.profile_id run_id session.session_id state)
        modify (λ s. record s { initial_ref = some ref }))
      else pure tt

  -- Steps 15 and 16.
  launch_engine : Exec Exc (Managed c) (Unit {0})
  launch_engine = do
    runtime ← perform launch (c.launch (build_launch_config session request.headed_override))
    modify (λ s. record s { runtime = some runtime })

  -- Step 17, at the runtime that step 16 stored.
  create_on : Option c.Runtime → BrowserState → Exec Exc (Managed c) (Unit {0})
  create_on none state = pure tt
  create_on (some runtime) state = do
    context ← perform new_context (
        c.new_context runtime session.config.context
          (if session.config.persist_storage_state then some state else none) context_id)
    modify (λ s. record s { context = some context })

  create_context : BrowserState → Exec Exc (Managed c) (Unit {0})
  unfolding create_on
  create_context state s = create_on s.runtime state s

  -- Steps 18 and 19; a record's `created_at` is the time of its construction.
  describe_run : Exec Exc (Managed c) (Unit {0})
  describe_run s =
      let (run_created, s₁) = now s in
      let (context_created, s₂) = now s₁ in
      (
        ok tt,
        record s₂ {
          run_record = some (record {
            created_at = run_created;
            updated_at = none;
            run_id = run_id;
            session_id = session.session_id;
            status = running;
            started_at = some s.started_at;
            completed_at = none;
            start_url = request.start_url;
            error_type = none;
            error_message_redacted = none;
            artifacts = collected_artifacts s.initial_ref s.final_ref;
            metadata = build_metadata request;
          });
          context_record = some (record {
            created_at = context_created;
            updated_at = none;
            context_id = context_id;
            run_id = run_id;
            session_id = session.session_id;
            initial_storage_state = s.initial_ref;
            final_storage_state = none;
            closed_at = none;
          });
        },
      )

  -- Steps 11 to 19, which run with the lock held.
  pub locked_body : Exec Exc (Managed c) (Unit {0})
  locked_body = do
    perform run_layout (c.ensure_run_layout profile.profile_id run_id)
    restart_clock
    initial_state ← resolve_initial_state
    write_snapshot initial_state
    launch_engine
    create_context initial_state
    describe_run

  -- The `try` block.
  body : Exec Exc (Managed c) (Unit {0})
  body = do
    perform profile_layout (c.ensure_profile_layout profile.profile_id)
    acquire_lock
    locked_body

  close_open_context : Option c.Context → Managed c → Managed c
  close_open_context none s = s
  close_open_context (some context) s = (perform close_context (c.close_context context) s).1

  close_open_runtime : Option c.Runtime → Managed c → Managed c
  close_open_runtime none s = s
  close_open_runtime (some runtime) s = (perform close_runtime (c.close_runtime runtime) s).1

  release_held : Option c.Lock → Managed c → Managed c
  release_held none s = s
  release_held (some lock) s = record ((perform release (c.release lock) s).1) { lock = none }

  -- `_enter_failure_cleanup`: every exception is dropped.
  enter_failure_cleanup : Managed c → Managed c
  unfolding close_open_context close_open_runtime release_held
  enter_failure_cleanup s =
      let s₁ = close_open_context s.context s in
      let s₂ = close_open_runtime s₁.runtime s₁ in release_held s₂.lock s₂

  finish_enter : Outcome Exc (Unit {0}) × Managed c → Outcome Exc (Unit {0}) × Managed c
  finish_enter (ok _, s) = (ok tt, record s { entered = true })
  finish_enter (raised e, s) = (raised e, enter_failure_cleanup s)

  enter_guarded : Outcome Exc (Unit {0}) → Exec Exc (Managed c) (Unit {0})
  enter_guarded (ok _) s = finish_enter (body s)
  enter_guarded (raised e) s = (raised e, s)

  -- `__aenter__`
  pub aenter : Exec Exc (Managed c) (Unit {0})
  unfolding enter_guarded
  aenter s = enter_guarded (guards s.world) s
