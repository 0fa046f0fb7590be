-- ===== src/Tests/Starts.antt =====
-- Tests on src/core/secrets.py and the start of src/main.py, and on src/api/health.py.
use autonomous_ai_job_oreche.Prelude.{pos, true, none, some, String, [], ◌∷◌, ◌≡◌, ◌≢◌, refl, strip}
use autonomous_ai_job_oreche.Settings.{
  Settings, default_settings, validate_secrets_for_environment, insecure_settings,
}
use autonomous_ai_job_oreche.Job.{Json, text, object, field, no_fields, get_field}
use autonomous_ai_job_oreche.World.{ok}
use autonomous_ai_job_oreche.Api.{answered}
use autonomous_ai_job_oreche.Api.Server.{ready, too_large}
use autonomous_ai_job_oreche.Tests.{test_env}
use autonomous_ai_job_oreche.Startup.{
  Texts, Fetched, failed_request, body, build_secrets_provider, lookup, texts_of_body,
  texts_of_payload, load, get, overlay_pepper, overlay_jwt, overlay_bootstrap,
  hydrate_settings_from_secrets, start_settings,
}
use autonomous_ai_job_oreche.Startup.Overlay.{with_secrets, held, start_settings-production}

abbrev environ : Texts
environ = ("API_KEY_PEPPER", "salt") ∷ ("JWT_SECRET_KEY", "signer") ∷ []

abbrev no_server : String → String → Fetched
no_server url token = failed_request "connection refused"

abbrev same_text : Json → String
same_text (text s) = s
same_text _ = ""

abbrev production : Settings
production = record default_settings { environment = "production" }

abbrev started : Settings
started = record production { api_key_pepper = "salt"; jwt_secret_key = "signer" }

starts : start_settings environ no_server same_text production ≡ ok started
unfolding start_settings hydrate_settings_from_secrets build_secrets_provider overlay_pepper
    overlay_jwt overlay_bootstrap get lookup validate_secrets_for_environment insecure_settings
    strip
starts = refl

start_settings-production_example :
    (started
      ≡ with_secrets environ no_server same_text
          (held environ no_server same_text production)
          production)
    × (started.api_key_pepper ≢ "change-me-in-production")
    × (started.jwt_secret_key ≢ "")
    × (started.jwt_secret_key ≢ "dev-only-change-me")
    × (started.jwt_secret_key ≢ "change-me-in-production")
    × (strip started.auth_bootstrap_operator_key ≡ "")
start_settings-production_example =
    start_settings-production environ no_server same_text production started refl starts

abbrev vault : String → String → Fetched
vault url token = body (
    object (
      field "data"
        (object (field "data" (object (field "JWT_SECRET_KEY" (text "k") no_fields)) no_fields))
        no_fields))

abbrev with_vault : Settings
with_vault = record default_settings {
  secrets_backend = "vault";
  vault_addr = "http://vault/";
  vault_token = "t";
}

vault_test :
    hydrate_settings_from_secrets environ vault same_text with_vault
    ≡ ok (record with_vault { jwt_secret_key = "k" })
unfolding hydrate_settings_from_secrets build_secrets_provider overlay_pepper overlay_jwt
    overlay_bootstrap get load texts_of_body texts_of_payload get_field lookup
vault_test = refl

ready_test :
    ready none (some "refused")
    ≡ answered 503 (record { status = "degraded"; postgres = "ok"; redis = "refused" })
unfolding ready
ready_test = refl

large_test : too_large ⦃env = test_env⦄ (λ header. some (pos 1_048_577)) (some "1048577") ≡ true
unfolding too_large
large_test = refl
