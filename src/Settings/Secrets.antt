-- ===== src/Settings/Secrets.antt =====
-- src/core/config.py: proofs on the start-up check of the secrets.
use autonomous_ai_job_oreche.Prelude.{◌≡◌, ◌↔◌, ◌≢◌, none, arith, eq_iff, strip}
use autonomous_ai_job_oreche.Settings.{Settings, validate_secrets_for_environment}

-- In production the program starts exactly if the pepper of the API keys is not the default,
-- the JWT secret is none of the empty text and the two placeholders, and the bootstrap key is
-- blank.
pub validate_secrets-production :
    (s : Settings)
    → s.environment ≡ "production"
    → (validate_secrets_for_environment s ≡ none) ↔ (
        (s.api_key_pepper ≢ "change-me-in-production")
        × (s.jwt_secret_key ≢ "")
        × (s.jwt_secret_key ≢ "dev-only-change-me")
        × (s.jwt_secret_key ≢ "change-me-in-production")
        × (strip s.auth_bootstrap_operator_key ≡ ""))
unfolding validate_secrets_for_environment
validate_secrets-production s prod = ground (
  arith,
  eq_iff s.environment "production",
  eq_iff s.api_key_pepper "change-me-in-production",
  eq_iff s.jwt_secret_key "",
  eq_iff s.jwt_secret_key "dev-only-change-me",
  eq_iff s.jwt_secret_key "change-me-in-production",
  eq_iff (strip s.auth_bootstrap_operator_key) "",
)
