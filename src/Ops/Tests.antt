-- ===== src/Ops/Tests.antt =====
-- Effective sessions and failures on fixed inputs.
use sight_stalker.Prelude.{ok, ◌≡◌, refl, [], none, some, Text, codes, true}
use sight_stalker.Errors.{Exc, plain, other_exception, is_exception}
use sight_stalker.Models.Identifiers.{headless, browser_mode_eq}
use sight_stalker.Security.Fixture.{plain_library}
use sight_stalker.Sessions.Manager.State.{mode_of}
use sight_stalker.Sessions.Manager.Fixture.{some_profile, some_session, some_request}
use sight_stalker.Resilience.Classification.{classify_exception}
use sight_stalker.Environment.Models.{LaunchConfigOverrides, RunConfigOverrides}
use sight_stalker.Environment.Services.{default_services}
use sight_stalker.Environment.Resolver.{resolve}
use sight_stalker.Ops.Modes.{effective_session}
use sight_stalker.Ops.Modes.Branches.{HasMode, effective_session-agrees, effective_session-HasMode}
use sight_stalker.Ops.Failures.{
  initializer, config_failure, enter_failure, run_failure, persist_failure,
}
use sight_stalker.Models.Json.{Fields, string, end, field}
use sight_stalker.Ops.Extra.{is_json_safe, sanitize_extra_value, safe_extra}
use sight_stalker.Ops.Extra.Clean.{IsCleaned, safe_extra-IsCleaned}
use sight_stalker.Ops.Failures.Told.{
  IsToldWith, phase_exit_code, phase_label, failures-IsToldWith, failures_hide,
}

effective_session-agrees_example :
    effective_session plain_library
      (some (resolve (default_services plain_library [])))
      some_profile
      some_session
      some_request
      (some true)
      none
    ≡ effective_session plain_library none some_profile some_session some_request (some true) none
effective_session-agrees_example =
    effective_session-agrees plain_library [] (some true) some_profile some_session some_request
      refl

effective_session-HasMode_example :
    HasMode (mode_of true) (
      effective_session plain_library
        (some (resolve (default_services plain_library [])))
        some_profile
        some_session
        some_request
        (some true)
        none)
    × HasMode (mode_of true) (
        effective_session plain_library none some_profile some_session some_request
          (some true)
          none)
effective_session-HasMode_example =
    effective_session-HasMode plain_library (default_services plain_library []) true none
      some_profile some_session some_request

abbrev headless_launch : LaunchConfigOverrides
headless_launch = record { mode = some headless; slow_mo_ms = none; timeout_ms = none }

abbrev headless_run : RunConfigOverrides
headless_run = record { launch = some headless_launch; context = none; environment = none }

abbrev broken : Text → Exc
broken text = plain other_exception (codes "OSError") text

catchable : (text : Text) → is_exception (broken text) ≡ true
unfolding is_exception
catchable text = refl

failures-IsToldWith_example :
    IsToldWith 6
      (codes "SecurityError")
      (classify_exception plain_library (config_failure plain_library (broken [])))
    × IsToldWith 4
        (codes "BrowserError")
        (classify_exception plain_library (enter_failure plain_library (broken [])))
    × IsToldWith
        (phase_exit_code initializer)
        (phase_label initializer)
        (classify_exception plain_library (run_failure plain_library initializer (broken [])))
    × IsToldWith 3
        (codes "PersistenceError")
        (classify_exception plain_library (persist_failure plain_library (broken [])))
failures-IsToldWith_example =
    failures-IsToldWith plain_library initializer (broken []) refl (catchable []) refl

failures_hide_example :
    (config_failure plain_library (broken (codes "a"))
      ≡ config_failure plain_library (broken (codes "b")))
    × (enter_failure plain_library (broken (codes "a"))
        ≡ enter_failure plain_library (broken (codes "b")))
    × (run_failure plain_library initializer (broken (codes "a"))
        ≡ run_failure plain_library initializer (broken (codes "b")))
    × (persist_failure plain_library (broken (codes "a"))
        ≡ persist_failure plain_library (broken (codes "b")))
failures_hide_example =
    failures_hide plain_library initializer (broken (codes "a")) (broken (codes "b")) refl refl
      (catchable (codes "a")) refl refl (catchable (codes "b")) refl

abbrev extra : Fields
extra =
    field (codes "note") (string (codes "done")) (field (codes "token") (string (codes "abc")) end)

token_kept : safe_extra plain_library extra ≡ ok extra
unfolding safe_extra is_json_safe sanitize_extra_value
token_kept = refl

safe_extra-IsCleaned_example : IsCleaned plain_library extra (safe_extra plain_library extra)
safe_extra-IsCleaned_example = safe_extra-IsCleaned plain_library extra
