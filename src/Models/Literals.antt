-- ===== src/Models/Literals.antt =====
-- The texts of the literals, and pydantic's check that a text is one of them.
use sight_stalker.Prelude.{
  ◌≡◌, refl, List, [], ◌∷◌, Text, codes, Outcome, ok, raised, ◌==◌, text_eq, if◌then◌else◌,
}
use sight_stalker.Errors.{Exc, plain, value_error}
use sight_stalker.Models.Browser.{
  ViewportPreset, desktop_1366x768, desktop_1440x900, desktop_1920x1080, mobile_390x844, custom,
  ColorScheme, ReducedMotion,
}
use sight_stalker.Models.Identifiers.{
  BrowserEngineName, camoufox, playwright_chromium, playwright_firefox, playwright_webkit, mock,
  BrowserMode, headless, headed, RunStatus, pending, starting, running, succeeded, failed,
  cancelled, HealthStatus, unknown, healthy, degraded, unhealthy, ArtifactType, screenshot, trace,
  storage_state_initial, storage_state_final, fingerprint_profile, run_log, diagnostic_bundle,
}

abbrev pub literal_error : Exc
literal_error = plain value_error (codes "ValidationError") (codes "literal_error")

unfoldable pub literal_of {ℓ} : {A : Type ℓ} → List (Text × A) → Text → Outcome Exc A
unfolding text_eq
literal_of [] text = raised literal_error
literal_of ((name, value) ∷ rest) text = if text == name then ok value else literal_of rest text

unfoldable pub engine_text : BrowserEngineName → Text
engine_text camoufox = codes "camoufox"
engine_text playwright_chromium = codes "playwright_chromium"
engine_text playwright_firefox = codes "playwright_firefox"
engine_text playwright_webkit = codes "playwright_webkit"
engine_text mock = codes "mock"

unfoldable pub engine_of : Text → Outcome Exc BrowserEngineName
unfolding literal_of
engine_of = literal_of (
    (codes "camoufox", camoufox)
    ∷ (codes "playwright_chromium", playwright_chromium)
    ∷ (codes "playwright_firefox", playwright_firefox)
    ∷ (codes "playwright_webkit", playwright_webkit)
    ∷ (codes "mock", mock)
    ∷ [])

unfoldable pub mode_text : BrowserMode → Text
mode_text headless = codes "headless"
mode_text headed = codes "headed"

unfoldable pub browser_mode_of : Text → Outcome Exc BrowserMode
unfolding literal_of
browser_mode_of = literal_of ((codes "headless", headless) ∷ (codes "headed", headed) ∷ [])

unfoldable pub preset_text : ViewportPreset → Text
preset_text desktop_1366x768 = codes "desktop_1366x768"
preset_text desktop_1440x900 = codes "desktop_1440x900"
preset_text desktop_1920x1080 = codes "desktop_1920x1080"
preset_text mobile_390x844 = codes "mobile_390x844"
preset_text custom = codes "custom"

unfoldable pub preset_of : Text → Outcome Exc ViewportPreset
unfolding literal_of
preset_of = literal_of (
    (codes "desktop_1366x768", desktop_1366x768)
    ∷ (codes "desktop_1440x900", desktop_1440x900)
    ∷ (codes "desktop_1920x1080", desktop_1920x1080)
    ∷ (codes "mobile_390x844", mobile_390x844)
    ∷ (codes "custom", custom)
    ∷ [])

unfoldable pub run_status_text : RunStatus → Text
run_status_text pending = codes "pending"
run_status_text starting = codes "starting"
run_status_text running = codes "running"
run_status_text succeeded = codes "succeeded"
run_status_text failed = codes "failed"
run_status_text cancelled = codes "cancelled"

unfoldable pub run_status_of : Text → Outcome Exc RunStatus
unfolding literal_of
run_status_of = literal_of (
    (codes "pending", pending)
    ∷ (codes "starting", starting)
    ∷ (codes "running", running)
    ∷ (codes "succeeded", succeeded)
    ∷ (codes "failed", failed)
    ∷ (codes "cancelled", cancelled)
    ∷ [])

unfoldable pub health_status_text : HealthStatus → Text
health_status_text unknown = codes "unknown"
health_status_text healthy = codes "healthy"
health_status_text degraded = codes "degraded"
health_status_text unhealthy = codes "unhealthy"

unfoldable pub health_status_of : Text → Outcome Exc HealthStatus
unfolding literal_of
health_status_of = literal_of (
    (codes "unknown", unknown)
    ∷ (codes "healthy", healthy)
    ∷ (codes "degraded", degraded)
    ∷ (codes "unhealthy", unhealthy)
    ∷ [])

unfoldable pub artifact_type_text : ArtifactType → Text
artifact_type_text screenshot = codes "screenshot"
artifact_type_text trace = codes "trace"
artifact_type_text storage_state_initial = codes "storage_state_initial"
artifact_type_text storage_state_final = codes "storage_state_final"
artifact_type_text fingerprint_profile = codes "fingerprint_profile"
artifact_type_text run_log = codes "run_log"
artifact_type_text diagnostic_bundle = codes "diagnostic_bundle"

unfoldable pub artifact_type_of : Text → Outcome Exc ArtifactType
unfolding literal_of
artifact_type_of = literal_of (
    (codes "screenshot", screenshot)
    ∷ (codes "trace", trace)
    ∷ (codes "storage_state_initial", storage_state_initial)
    ∷ (codes "storage_state_final", storage_state_final)
    ∷ (codes "fingerprint_profile", fingerprint_profile)
    ∷ (codes "run_log", run_log)
    ∷ (codes "diagnostic_bundle", diagnostic_bundle)
    ∷ [])

unfoldable pub color_scheme_text : ColorScheme → Text
color_scheme_text ColorScheme.light = codes "light"
color_scheme_text ColorScheme.dark = codes "dark"
color_scheme_text ColorScheme.no_preference = codes "no-preference"

unfoldable pub reduced_motion_text : ReducedMotion → Text
reduced_motion_text ReducedMotion.reduce = codes "reduce"
reduced_motion_text ReducedMotion.no_preference = codes "no-preference"

pub engine_of-text : (x : BrowserEngineName) → engine_of (engine_text x) ≡ ok x
unfolding engine_of engine_text text_eq
engine_of-text camoufox = refl
engine_of-text playwright_chromium = refl
engine_of-text playwright_firefox = refl
engine_of-text playwright_webkit = refl
engine_of-text mock = refl

pub browser_mode_of-text : (x : BrowserMode) → browser_mode_of (mode_text x) ≡ ok x
unfolding browser_mode_of mode_text text_eq
browser_mode_of-text headless = refl
browser_mode_of-text headed = refl

pub preset_of-text : (x : ViewportPreset) → preset_of (preset_text x) ≡ ok x
unfolding preset_of preset_text text_eq
preset_of-text desktop_1366x768 = refl
preset_of-text desktop_1440x900 = refl
preset_of-text desktop_1920x1080 = refl
preset_of-text mobile_390x844 = refl
preset_of-text custom = refl
