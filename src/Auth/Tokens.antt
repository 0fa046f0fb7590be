-- ===== src/Auth/Tokens.antt =====
-- src/auth/jwt_service.py and src/api/auth_routes.py: access tokens, and the route that gives one for
-- the credentials of a service account. The library PyJWT is the argument `lib`; `show` is Python's
-- `str` of a JSON value that is not a text.
pub mod RoundTrip
use autonomous_ai_job_oreche.Prelude.{
  ℕ, pos, ◌+◌, ◌*◌, ◌/◌, String, Bool, true, not, Option, none, some, if◌then◌else◌,
}
use autonomous_ai_job_oreche.Services.{Env}
use autonomous_ai_job_oreche.Job.{
  Json, null, bool, number, text, array, object, Fields, no_fields, field, get_field,
}
use autonomous_ai_job_oreche.Principal.{
  Role, role_text, parse_role, AuthMethod, jwt, client_credentials, method_text, parse_method,
  Principal,
}
use autonomous_ai_job_oreche.World.{
  World, Result, ok, err, Error, key_error, validation_error, algorithm_not_supported, or_raise,
  ◌>>=◌,
}
use autonomous_ai_job_oreche.Auth.ServiceAccounts.{validate_client_credentials}

-- `jwt.encode(payload, key, algorithm)`, where `none` is the NotImplementedError, and
-- `jwt.decode(token, key, [algorithm], audience, issuer)` at a time, where `none` is a PyJWTError.
pub record PyJwt : Type 0 where
  pub encode : Fields → String → String → Option String
  pub decode : String → String → String → String → String → ℕ → Option Fields

-- A time in whole seconds, as JSON has it.
abbrev pub seconds_json : ℕ → Json
seconds_json s = number (pos (s * 1_000_000))

-- What `issue_access_token` puts into a token.
abbrev pub token_payload :
    String → String → Role → String → AuthMethod → String → String → String → ℕ → ℕ → Fields
token_payload subject_id tenant_id role name method jti issuer audience iat exp =
    field "sub" (text subject_id) (
      field "tenant_id" (text tenant_id) (
        field "role" (text (role_text role)) (
          field "name" (text name) (
            field "auth_method" (text (method_text method)) (
              field "jti" (text jti) (
                field "iss" (text issuer) (
                  field "aud" (text audience) (
                    field "iat" (seconds_json iat)
                      (field "exp" (seconds_json exp) no_fields)))))))))

module _ (show : Json → String) where
  -- `str(value)`
  abbrev pub str_of : Json → String
  str_of (text s) = s
  str_of j = show j

  -- `payload[key]`
  abbrev pub required : String → Fields → Result String
  required key payload = elim (get_field key payload) [
    | none ↦ err (key_error key)
    | some j ↦ ok (str_of j)
  ]

  -- `str(payload.get(key, default))`
  abbrev pub optional : String → String → Fields → String
  optional key default payload = elim (get_field key payload) [ none ↦ default | some j ↦ str_of j ]

  -- A missing role and one that is no role both make the token invalid.
  abbrev role_of : Option Json → Option Role
  role_of (some (text s)) = parse_role s
  role_of _ = none

  abbrev method_of : Option Json → Option AuthMethod
  method_of none = some jwt
  method_of (some (text s)) = parse_method s
  method_of (some j) = none

  unfoldable pub principal_of_payload : Role → Fields → Result Principal
  unfolding get_field parse_method
  principal_of_payload role payload = do
    subject_id ← required "sub" payload
    tenant_id ← required "tenant_id" payload
    method ← or_raise validation_error (method_of (get_field "auth_method" payload))
    ok (record {
      subject_id = subject_id;
      tenant_id = tenant_id;
      role = role;
      name = optional "name" "jwt-user" payload;
      auth_method = method;
    })

  abbrev pub some_of : Result Principal → Result (Option Principal)
  some_of (ok p) = ok (some p)
  some_of (err e) = err e

  abbrev pub principal_with_role : Option Role → Fields → Result (Option Principal)
  principal_with_role none payload = ok none
  principal_with_role (some role) payload = some_of (principal_of_payload role payload)

  abbrev pub principal_of_decoded : Option Fields → Result (Option Principal)
  principal_of_decoded none = ok none
  principal_of_decoded (some payload) =
      principal_with_role (role_of (get_field "role" payload)) payload

  module _ ⦃env : Env⦄ (lib : PyJwt) where
    open env use {settings, uuid}

    unfoldable pub validate_access_token : String → World → Result (Option Principal)
    unfolding get_field parse_role principal_of_payload
    validate_access_token token w =
        if not settings.jwt_enabled
        then ok none
        else principal_of_decoded (
            lib.decode token settings.jwt_secret_key settings.jwt_algorithm settings.jwt_audience
              settings.jwt_issuer w.now)

    -- The token and the seconds until it expires.
    abbrev issued : World → Option String → Result (String × ℕ) × World
    issued w none = (err algorithm_not_supported, record w { drawn = w.drawn + 1 })
    issued w (some token) = (
      ok (token, settings.jwt_access_token_expire_minutes * 60),
      record w { drawn = w.drawn + 1 },
    )

    unfoldable pub issue_access_token :
        String → String → Role → String → AuthMethod → World → Result (String × ℕ) × World
    issue_access_token subject_id tenant_id role name method w =
        let iat = w.now / 1_000_000 in
        let exp = (w.now + settings.jwt_access_token_expire_minutes * 60 * 1_000_000) / 1_000_000 in
        issued w (
          lib.encode
            (token_payload subject_id tenant_id role name method (uuid w.drawn) settings.jwt_issuer
              settings.jwt_audience iat exp)
            settings.jwt_secret_key settings.jwt_algorithm)

-- What the route answers: a token and its seconds, status 403, status 401, or status 500.
pub data TokenResponse : Type 0 where
  token : String → ℕ → TokenResponse
  disabled : TokenResponse
  invalid_credentials : TokenResponse
  failed : Error → TokenResponse

module _ ⦃env : Env⦄ (sha256 : String → String) (show : Json → String) (lib : PyJwt) where
  open env use {settings}

  abbrev pub token_response : Result (String × ℕ) × World → TokenResponse × World
  token_response (ok (access_token, expires_in), w) = (token access_token expires_in, w)
  token_response (err e, w) = (failed e, w)

  abbrev pub issued_for : Option Principal → World → TokenResponse × World
  issued_for none w = (invalid_credentials, w)
  issued_for (some p) w =
      token_response
        (issue_access_token show lib p.subject_id p.tenant_id p.role p.name client_credentials w)

  unfoldable pub issue_token : String → String → World → TokenResponse × World
  issue_token client_id client_secret w =
      if not settings.jwt_enabled
      then (disabled, w)
      else issued_for (validate_client_credentials sha256 client_id client_secret w.db) w
