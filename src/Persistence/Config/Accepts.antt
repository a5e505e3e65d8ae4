-- ===== src/Persistence/Config/Accepts.antt =====
-- Which configurations the projection accepts.
use sight_stalker.Prelude.{
  ◌≡◌, refl, ◌⊎◌, inl, inr, Bool, true, false, not, ◌&&◌, Text, Outcome, ok, raised, ◌>>◌, is_some,
}
use sight_stalker.Errors.{Exc}
use sight_stalker.Models.Records.{SessionConfig}
use sight_stalker.Security.Redaction.{TextLibrary}
use sight_stalker.Persistence.Stored.{security_error}
use sight_stalker.Persistence.Config.{
  is_nonempty, has_password, has_extra, refuse_if, config_fields, has_sensitive_header,
  config_checks, projected, persistable_session_config,
}

-- The test passes and nothing is raised, or it fails and a `PersistenceSecurityError` is.
unfoldable pub Checked : Bool → Outcome Exc (Unit {0}) → Type 0
Checked p o =
    (p ≡ true × o ≡ ok tt) ⊎ (p ≡ false × ((text : Text) × o ≡ raised (security_error text)))

refuse_last : (b : Bool) (text : Text) → Checked (not b) (refuse_if b text)
unfolding Checked
refuse_last true text = inr (refl, (text, refl))
refuse_last false text = inl (refl, refl)

refuse_then :
    (b : Bool) (text : Text) (p : Bool) (rest : Outcome Exc (Unit {0}))
    → Checked p rest
    → Checked (not b && p) (refuse_if b text >> rest)
unfolding Checked
refuse_then true text p rest h = inr (refl, (text, refl))
refuse_then false text p rest h = h

module _ (lib : TextLibrary) where
  -- None of the tests of the projection that lead to a refusal succeeds.
  unfoldable pub passes_checks : SessionConfig → Bool
  passes_checks c =
      not (is_nonempty c.launch.env)
      && (not (is_some c.launch.executable_path)
          && (not (is_some c.launch.user_data_dir)
              && (not (has_password c.launch.proxy)
                  && (not (has_extra c.launch.fingerprint)
                      && (not (has_sensitive_header lib c.context.extra_http_headers)
                          && (not (is_some c.context.record_har_path)
                              && not (is_some c.context.record_video_dir)))))))

  config_checks-Checked : (c : SessionConfig) → Checked (passes_checks c) (config_checks lib c)
  unfolding passes_checks config_checks
  config_checks-Checked c = refuse_then (is_nonempty c.launch.env) _ _ _ (
      refuse_then (is_some c.launch.executable_path) _ _ _ (
        refuse_then (is_some c.launch.user_data_dir) _ _ _ (
          refuse_then (has_password c.launch.proxy) _ _ _ (
            refuse_then (has_extra c.launch.fingerprint) _ _ _ (
              refuse_then (has_sensitive_header lib c.context.extra_http_headers) _ _ _ (
                refuse_then (is_some c.context.record_har_path) _ _ _
                  (refuse_last (is_some c.context.record_video_dir) _)))))))

  -- A configuration is projected exactly when it passes the checks, and is otherwise refused with a
  -- `PersistenceSecurityError`.
  pub persistable_session_config-cases :
      (c : SessionConfig)
      → (passes_checks c ≡ true × persistable_session_config lib c ≡ ok (config_fields c))
        ⊎ (passes_checks c ≡ false
            × ((text : Text) × persistable_session_config lib c ≡ raised (security_error text)))
  unfolding Checked persistable_session_config projected
  persistable_session_config-cases c = elim (config_checks-Checked c) [
    | inl (p, q) ↦ inl (p, rw q refl)
    | inr (p, (text, q)) ↦ inr (p, (text, rw q refl))
  ]
