-- ===== src/Auth/Tokens/RoundTrip.antt =====
-- src/auth/jwt_service.py and src/api/auth_routes.py: proofs on tokens that are issued and validated.
use autonomous_ai_job_oreche.Prelude.{
  ℕ, ◌+◌, ◌*◌, ◌/◌, ◌≤◌, ◌<◌, String, true, not, Option, none, some, ◌≡◌, refl, ap, ◌∙◌, arith,
  if◌then◌else◌,
}
use autonomous_ai_job_oreche.Services.{Env}
use autonomous_ai_job_oreche.Job.{Json, Fields, get_field}
use autonomous_ai_job_oreche.Principal.{
  Role, viewer, producer, operator, parse_role, AuthMethod, client_credentials, Principal,
}
use autonomous_ai_job_oreche.World.{World, ok}
use autonomous_ai_job_oreche.Auth.ServiceAccounts.{validate_client_credentials}
use autonomous_ai_job_oreche.Auth.Tokens.{
  PyJwt, token_payload, principal_of_payload, principal_of_decoded, validate_access_token, issued,
  issue_access_token, TokenResponse, token, issued_for, token_response, issue_token,
}

-- What PyJWT documents of a token with these claims, for a key and an algorithm that it supports: it
-- is encoded, decoded to its claims from its `iat` on and before its `exp`, and refused from then on.
pub record Signs (lib : PyJwt) (key algorithm : String) : Type 0 where
  pub encodes : (payload : Fields) → (t : String) × (lib.encode payload key algorithm ≡ some t)
  pub decodes :
      (subject_id tenant_id : String) (role : Role) (name : String) (method : AuthMethod)
      (jti issuer audience : String) (iat exp now : ℕ) (t : String)
      → lib.encode
          (token_payload subject_id tenant_id role name method jti issuer audience iat exp)
          key
          algorithm
        ≡ some t
      → iat * 1_000_000 ≤ now
      → now < exp * 1_000_000
      → lib.decode t key algorithm audience issuer now
        ≡ some (token_payload subject_id tenant_id role name method jti issuer audience iat exp)
  pub expires :
      (subject_id tenant_id : String) (role : Role) (name : String) (method : AuthMethod)
      (jti issuer audience : String) (iat exp now : ℕ) (t : String)
      → lib.encode
          (token_payload subject_id tenant_id role name method jti issuer audience iat exp)
          key
          algorithm
        ≡ some t
      → exp * 1_000_000 ≤ now
      → lib.decode t key algorithm audience issuer now ≡ none

module _ (show : Json → String) where
  decoded-principal :
      (subject_id tenant_id : String) (role : Role) (name jti issuer audience : String)
      (iat exp : ℕ)
      → principal_of_decoded show (
          some (
            token_payload subject_id tenant_id role name client_credentials jti issuer audience iat
              exp))
        ≡ ok (
            some (record {
              subject_id = subject_id;
              tenant_id = tenant_id;
              role = role;
              name = name;
              auth_method = client_credentials;
            }))
  unfolding get_field parse_role principal_of_payload
  decoded-principal subject_id tenant_id viewer name jti issuer audience iat exp = refl
  decoded-principal subject_id tenant_id producer name jti issuer audience iat exp = refl
  decoded-principal subject_id tenant_id operator name jti issuer audience iat exp = refl

module _ ⦃env : Env⦄ (sha256 : String → String) (show : Json → String) (lib : PyJwt) where
  open env use {settings}

  -- The second from which on a token that is issued in `w` is refused.
  abbrev pub expiry : World → ℕ
  expiry w = (w.now + settings.jwt_access_token_expire_minutes * 60 * 1_000_000) / 1_000_000

  abbrev payload_for : Principal → World → Fields
  payload_for p w =
      token_payload p.subject_id p.tenant_id p.role p.name client_credentials (env.uuid w.drawn)
        settings.jwt_issuer settings.jwt_audience (w.now / 1_000_000) (expiry w)

  validate-decoded :
      (t : String) (w : World) (o : Option Fields)
      → settings.jwt_enabled ≡ true
      → lib.decode t settings.jwt_secret_key settings.jwt_algorithm settings.jwt_audience
          settings.jwt_issuer w.now
        ≡ o
      → validate_access_token show lib t w ≡ principal_of_decoded show o
  unfolding validate_access_token
  validate-decoded t w o on decoded =
      ap
        (λ b.
          if not b
          then ok none
          else principal_of_decoded show (
              lib.decode t settings.jwt_secret_key settings.jwt_algorithm settings.jwt_audience
                settings.jwt_issuer w.now))
        on
      ∙ ap (principal_of_decoded show) decoded

  issue-token :
      (client_id client_secret : String) (w : World) (p : Principal) (t : String)
      → settings.jwt_enabled ≡ true
      → validate_client_credentials sha256 client_id client_secret w.db ≡ some p
      → lib.encode (payload_for p w) settings.jwt_secret_key settings.jwt_algorithm ≡ some t
      → (issue_token sha256 show lib client_id client_secret w).0
        ≡ token t (settings.jwt_access_token_expire_minutes * 60)
  unfolding issue_token issue_access_token
  issue-token client_id client_secret w p t on known encoded =
      ap
        (λ b.
          (if not b
            then (TokenResponse.disabled, w)
            else issued_for sha256 show lib
                (validate_client_credentials sha256 client_id client_secret w.db) w).0)
        on
      ∙ (ap (λ o. (issued_for sha256 show lib o w).0) known
          ∙ ap (λ o. (token_response sha256 show lib (issued show lib w o)).0) encoded)

  -- With JWT enabled, for the credentials of an account issue_token answers with a token. From then
  -- on and before the second of its expiry the token is valid, for the subject, tenant, role and name
  -- of the account, whatever has become of the tables; and once the seconds that the answer announces
  -- have passed it is refused.
  pub issue_token-valid :
      (client_id client_secret : String) (p : Principal) (w during later : World)
      → Signs lib settings.jwt_secret_key settings.jwt_algorithm
      → settings.jwt_enabled ≡ true
      → validate_client_credentials sha256 client_id client_secret w.db ≡ some p
      → w.now ≤ during.now
      → during.now < expiry w * 1_000_000
      → w.now + settings.jwt_access_token_expire_minutes * 60 * 1_000_000 ≤ later.now
      → (t : String) × ((issue_token sha256 show lib client_id client_secret w).0
          ≡ token t (settings.jwt_access_token_expire_minutes * 60))
        × (validate_access_token show lib t during
            ≡ ok (some (record p { auth_method = client_credentials })))
        × (validate_access_token show lib t later ≡ ok none)
  issue_token-valid client_id client_secret p w during later signs on known from before after =
      let (t, encoded) = signs.encodes (payload_for p w) in
      (
        t,
        issue-token client_id client_secret w p t on known encoded,
        validate-decoded t during (some (payload_for p w)) on (
              signs.decodes p.subject_id p.tenant_id p.role p.name client_credentials
                (env.uuid w.drawn) settings.jwt_issuer settings.jwt_audience (w.now / 1_000_000)
                (expiry w) during.now t encoded (omega arith) before)
            ∙ decoded-principal show p.subject_id p.tenant_id p.role p.name (env.uuid w.drawn)
                settings.jwt_issuer settings.jwt_audience (w.now / 1_000_000) (expiry w),
        validate-decoded t later none on (
            signs.expires p.subject_id p.tenant_id p.role p.name client_credentials
              (env.uuid w.drawn) settings.jwt_issuer settings.jwt_audience (w.now / 1_000_000)
              (expiry w) later.now t encoded (omega arith)),
      )
