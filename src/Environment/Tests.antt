-- ===== src/Environment/Tests.antt =====
-- A resolution with a stored profile and an override.
use sight_stalker.Prelude.{◌≡◌, refl, [], ◌∷◌, none, some, codes, ok, text_eq}
use sight_stalker.Models.Browser.{dark}
use sight_stalker.Security.Fixture.{plain_library}
use sight_stalker.Sessions.Manager.Fixture.{some_profile, some_session, some_request}
use sight_stalker.Environment.Models.{EnvironmentProfile, RunConfigOverrides}
use sight_stalker.Environment.Services.{
  Profiles, add_all, load_profile, default_services, select_default,
}
use sight_stalker.Environment.Resolver.{
  resolve, environment_overrides, env_contributed, overridden_context_fields, applied_fields,
}
use sight_stalker.Environment.Resolver.Precedence.{IsResolved, resolve-IsResolved}
use sight_stalker.Environment.Resolver.Marker.{IsMarked, resolve-IsMarked}
use sight_stalker.Environment.Resolver.Applied.{IsExactFor, resolve-IsExactFor}

abbrev night : EnvironmentProfile
night = record {
  profile_id = codes "fp_night";
  name = codes "night";
  description = none;
  user_agent = none;
  viewport = none;
  locale = some (codes "de-DE");
  timezone_id = some (codes "Europe/Berlin");
  color_scheme = some dark;
  reduced_motion = none;
  navigator = none;
  schema_version = codes "environment_profile_v1";
}

abbrev overrides : RunConfigOverrides
overrides = record {
  launch = none;
  context = some (record {
    user_agent = none;
    viewport = none;
    locale = some (codes "en-US");
    timezone_id = none;
    color_scheme = none;
    reduced_motion = none;
    default_timeout_ms = none;
    navigation_timeout_ms = some 60000;
  });
  environment = some (record { environment_profile_id = some (codes "fp_night") });
}

abbrev stored : Profiles
stored = (codes "fp_night", night) ∷ []

found : load_profile plain_library stored (codes "fp_night") ≡ ok night
unfolding load_profile text_eq
found = refl

selected :
    select_default some_profile some_session some_request (environment_overrides (some overrides))
    ≡ ok (some (codes "fp_night"))
unfolding select_default environment_overrides
selected = refl

names_applied :
    applied_fields (env_contributed night) (overridden_context_fields overrides.context)
    ≡ codes "color_scheme" ∷ codes "timezone_id" ∷ []
unfolding applied_fields env_contributed overridden_context_fields text_eq
names_applied = refl

resolve-IsResolved_example :
    IsResolved plain_library stored (some overrides) (some night) some_session (
      resolve
        (default_services plain_library stored)
        some_profile
        some_session
        some_request
        (some overrides))
resolve-IsResolved_example =
    resolve-IsResolved plain_library stored (some overrides) (some night) some_profile some_session
      some_request found

resolve-IsMarked_example : IsMarked (
    resolve
      (default_services plain_library (add_all (night ∷ []) []))
      some_profile
      some_session
      some_request
      (some overrides))
resolve-IsMarked_example =
    resolve-IsMarked plain_library (night ∷ []) (some overrides) some_profile some_session
      some_request

resolve-IsExactFor_example : IsExactFor (some overrides) night (
    resolve
      (default_services plain_library stored)
      some_profile
      some_session
      some_request
      (some overrides))
unfolding default_services
resolve-IsExactFor_example =
    resolve-IsExactFor (default_services plain_library stored) (some overrides) some_profile
      some_session some_request (codes "fp_night") night selected found
