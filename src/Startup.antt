-- ===== src/Startup.antt =====
-- src/core/secrets.py and the first two steps of `lifespan` in src/main.py: the settings take their
-- secrets from the environment or from Vault, and are checked. `environ` is the environment, `fetch`
-- is `httpx.get` with the parsing of the body, and `show` is `str` of a JSON value.
pub mod Held
pub mod Steps
pub mod Overlay
use Prim.Native.Char.{code}
use autonomous_ai_job_oreche.Prelude.{
  String, Bool, true, false, not, ◌&&◌, ◌||◌, Option, none, some, List, [], ◌∷◌, ◌==◌, str_eq,
  truthy, given, or_else, if◌then◌else◌,
}
use autonomous_ai_job_oreche.Settings.{Settings, validate_secrets_for_environment}
use autonomous_ai_job_oreche.Job.{
  Json, null, bool, number, text, array, object, Fields, no_fields, field, get_field,
}
use autonomous_ai_job_oreche.Output.Texts.{append_text}
use autonomous_ai_job_oreche.World.{
  Result, ok, err, Error, runtime_error, http_error, key_error, type_error, ◌>>=◌,
}

-- `s.lstrip("/")`, `s.rstrip("/")` and `s.strip("/")`
lstrip_slashes : String → String
lstrip_slashes String.[] = ""
lstrip_slashes (String.◌∷◌ c s) =
    let rest = lstrip_slashes s in if code c == 47 then rest else String.◌∷◌ c s

rstrip_slashes : String → String
rstrip_slashes String.[] = ""
rstrip_slashes (String.◌∷◌ c s) =
    let rest = rstrip_slashes s in if code c == 47 && str_eq rest "" then "" else String.◌∷◌ c rest

strip_slashes : String → String
unfolding lstrip_slashes rstrip_slashes
strip_slashes s = rstrip_slashes (lstrip_slashes s)

-- A dictionary of texts.
abbrev pub Texts : Type 0
Texts = List (String × String)

unfoldable pub lookup : String → Texts → Option String
lookup name [] = none
lookup name ((k, v) ∷ rest) = if str_eq k name then some v else lookup name rest

-- `dict.get(name, default)`
abbrev pub or_default : Option String → Option String → Option String
or_default none d = d
or_default (some v) d = some v

-- A VaultSecretsProvider, with its cache.
pub record Vault : Type 0 where
  pub addr : String
  pub token : String
  pub mount : String
  pub path : String
  pub cache : Option Texts

pub data Provider : Type 0 where
  env_provider : Provider
  vault_provider : Vault → Provider

-- What the request raised, or the JSON of the body.
pub data Fetched : Type 0 where
  failed_request : String → Fetched
  body : Json → Fetched

abbrev found_member : String → Option Json → Result Json
found_member key none = err (key_error key)
found_member key (some v) = ok v

-- `value["data"]`
abbrev member : String → Json → Result Json
member key (object fs) = found_member key (get_field key fs)
member key _ = err type_error

unfoldable pub build_secrets_provider : Settings → Result Provider
unfolding rstrip_slashes strip_slashes
build_secrets_provider s =
    if str_eq s.secrets_backend "vault"
    then (if not (truthy s.vault_addr) || not (truthy s.vault_token)
        then err (runtime_error "VAULT_ADDR and VAULT_TOKEN required when SECRETS_BACKEND=vault")
        else ok (
            vault_provider (record {
              addr = rstrip_slashes s.vault_addr;
              token = s.vault_token;
              mount = strip_slashes s.vault_mount;
              path = strip_slashes s.vault_path;
              cache = none;
            })))
    else ok env_provider

module _ (environ : Texts) (fetch : String → String → Fetched) (show : Json → String) where
  -- `{str(k): str(v) for k, v in data.items()}`
  texts_of : Fields → Texts
  texts_of no_fields = []
  texts_of (field k v rest) = (k, show v) ∷ texts_of rest

  unfoldable pub texts_of_payload : Json → Result Texts
  unfolding texts_of
  texts_of_payload (object fs) = ok (texts_of fs)
  texts_of_payload other = err (runtime_error "Vault secret payload must be a JSON object")

  unfoldable pub texts_of_body : Fetched → Result Texts
  unfolding texts_of_payload get_field
  texts_of_body (failed_request message) = err (http_error message)
  texts_of_body (body j) = (member "data" j >>= member "data") >>= texts_of_payload

  abbrev pub url_of : Vault → String
  url_of v =
      append_text v.addr (append_text "/v1/" (append_text v.mount (append_text "/data/" v.path)))

  abbrev pub cached : Vault → Result Texts → Result Texts × Vault
  cached v (err e) = (err e, v)
  cached v (ok texts) = (ok texts, record v { cache = some texts })

  -- `_load`
  unfoldable pub load : Option Texts → Vault → Result Texts × Vault
  unfolding texts_of_body
  load none v = cached v (texts_of_body (fetch (url_of v) v.token))
  load (some texts) v = (ok texts, v)

  abbrev checked : String → Bool → Option String → Result (Option String)
  checked message required value =
      if required && not (given value) then err (runtime_error message) else ok value

  abbrev vault_value :
      String → Option String → Bool → Result Texts × Vault → Result (Option String) × Provider
  vault_value name d required (err e, v) = (err e, vault_provider v)
  vault_value name d required (ok texts, v) = (
    checked (append_text "Missing required Vault secret key: " name) required
        (or_default (lookup name texts) d),
    vault_provider v,
  )

  -- `provider.get`
  unfoldable pub get : String → Option String → Bool → Provider → Result (Option String) × Provider
  unfolding load lookup
  get name d required env_provider = (
    checked (append_text "Missing required secret env var: " name) required
        (or_default (lookup name environ) d),
    env_provider,
  )
  get name d required (vault_provider v) = vault_value name d required (load v.cache v)

  -- The settings with what a secret was read as.
  abbrev pub overlaid :
      (Option String → Settings) → Result (Option String) × Provider → Result (Settings × Provider)
  overlaid f (err e, p) = err e
  overlaid f (ok value, p) = ok (f value, p)

  abbrev pub with_pepper : Settings → Option String → Settings
  with_pepper s value = record s { api_key_pepper = or_else value s.api_key_pepper }

  abbrev pub with_jwt : Settings → Option String → Settings
  with_jwt s value = record s { jwt_secret_key = or_else value s.jwt_secret_key }

  abbrev pub with_bootstrap : Settings → Option String → Settings
  with_bootstrap s value = record s {
    auth_bootstrap_operator_key =
        if truthy s.auth_bootstrap_operator_key
        then s.auth_bootstrap_operator_key
        else or_else value s.auth_bootstrap_operator_key;
  }

  unfoldable pub overlay_pepper : Settings × Provider → Result (Settings × Provider)
  unfolding get
  overlay_pepper (s, p) =
      if str_eq s.api_key_pepper "change-me-in-production"
      then overlaid (with_pepper s) (get "API_KEY_PEPPER" none false p)
      else ok (s, p)

  unfoldable pub overlay_jwt : Settings × Provider → Result (Settings × Provider)
  unfolding get
  overlay_jwt (s, p) =
      if str_eq s.jwt_secret_key "dev-only-change-me"
      then overlaid (with_jwt s) (get "JWT_SECRET_KEY" none false p)
      else ok (s, p)

  unfoldable pub overlay_bootstrap : Settings × Provider → Result (Settings × Provider)
  unfolding get
  overlay_bootstrap (s, p) =
      overlaid (with_bootstrap s) (get "AUTH_BOOTSTRAP_OPERATOR_KEY" (some "") false p)

  abbrev settings_of : Settings × Provider → Result Settings
  settings_of (s, p) = ok s

  unfoldable pub hydrate_settings_from_secrets : Settings → Result Settings
  unfolding build_secrets_provider overlay_pepper overlay_jwt overlay_bootstrap
  hydrate_settings_from_secrets s =
      build_secrets_provider s
      >>= (λ p. overlay_pepper (s, p) >>= overlay_jwt >>= overlay_bootstrap >>= settings_of)

  abbrev pub unless_insecure : Settings → Option (List String) → Result Settings
  unless_insecure s none = ok s
  unless_insecure s (some names) = err (runtime_error "insecure configuration")

  -- The settings that the program runs with, or what its start raises.
  unfoldable pub start_settings : Settings → Result Settings
  unfolding hydrate_settings_from_secrets
  start_settings s = hydrate_settings_from_secrets s >>= λ s1.
      unless_insecure s1 (validate_secrets_for_environment s1)
