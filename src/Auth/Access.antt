-- ===== src/Auth/Access.antt =====
-- src/auth/deps.py: who makes a request, and whether the role allows it. The check of a token is the
-- argument `validate_access_token`, for which Auth.Tokens has that of `jwt_service`. A request is its
-- two headers: the one for API keys, and `Authorization`.
pub mod Granted
pub mod Kept
use Prim.Native.Char.{code}
use autonomous_ai_job_oreche.Prelude.{
  ℕ, zero, suc, ◌+◌, String, Bool, false, not, ◌&&◌, Option, none, some, ltb, leb, ◌==◌, truthy,
  given, strip, if◌then◌else◌,
}
use autonomous_ai_job_oreche.Services.{Env}
use autonomous_ai_job_oreche.Principal.{Role, operator, role_rank, Principal, api_key}
use autonomous_ai_job_oreche.World.{World, Result, ok, err, Error, rate_limit_exceeded}
use autonomous_ai_job_oreche.RateLimit.{check}
use autonomous_ai_job_oreche.Auth.{validate_key}

-- The HTTPException that is raised (401 twice, 429, 403), or another error.
pub data Refusal : Type 0 where
  missing_credentials : Refusal
  invalid_credentials : Refusal
  too_many_requests : Refusal
  role_too_low : Role → Refusal
  failed : Error → Refusal

pub data Decision {ℓ} (A : Type ℓ) : Type ℓ where
  granted : A → Decision A
  refused : Refusal → Decision A

abbrev refusal_of : Error → Refusal
refusal_of (rate_limit_exceeded limit) = too_many_requests
refusal_of e = failed e

-- `chr(c).lower()` for the letters of ASCII
abbrev lower_code : ℕ → ℕ
lower_code c = if leb 65 c && leb c 90 then c + 32 else c

-- The rest of a text that starts with the lower-case text `p`, in any case of its letters.
unfoldable pub after_word : String → String → Option String
after_word String.[] s = some s
after_word (String.◌∷◌ a p) String.[] = none
after_word (String.◌∷◌ a p) (String.◌∷◌ b s) =
    if code a == lower_code (code b) then after_word p s else none

abbrev stripped_rest : Option String → Option String
stripped_rest none = none
stripped_rest (some rest) = some (strip rest)

abbrev bearer_of : Option String → Option String
bearer_of none = none
bearer_of (some s) = stripped_rest (after_word "bearer " s)

abbrev key_or : Option String → Option String → Option String
key_or none other = other
key_or (some s) other = if truthy s then some (strip s) else other

unfoldable pub extract_api_key : Option String → Option String → Option String
unfolding after_word
extract_api_key header_key authorization = key_or header_key (bearer_of authorization)

module _ ⦃env : Env⦄ (sha256 : String → String)
    (validate_access_token : String → World → Result (Option Principal)) where
  open env use {settings}

  abbrev auth_disabled : Principal
  auth_disabled = record {
    subject_id = "auth-disabled";
    tenant_id = settings.default_tenant_id;
    role = operator;
    name = "auth-disabled";
    auth_method = api_key;
  }

  abbrev within_limit : Principal → Result (Unit {0}) × World → Decision Principal × World
  within_limit p (ok u, w) = (granted p, w)
  within_limit p (err e, w) = (refused (refusal_of e), w)

  abbrev limited : Principal → World → Decision Principal × World
  limited p w =
      if settings.rate_limit_enabled then within_limit p (check p.tenant_id w) else (granted p, w)

  abbrev by_key : Option Principal × World → Decision Principal × World
  by_key (none, w) = (refused invalid_credentials, w)
  by_key (some p, w) = limited p w

  -- A token first, and then an API key.
  abbrev authenticated : String → Result (Option Principal) → World → Decision Principal × World
  authenticated raw (err e) w = (refused (failed e), w)
  authenticated raw (ok (some p)) w = limited p w
  authenticated raw (ok none) w = by_key (validate_key sha256 raw w)

  abbrev with_credential : Option String → World → Decision Principal × World
  with_credential none w = (refused missing_credentials, w)
  with_credential (some raw) w =
      if truthy raw
      then authenticated raw (validate_access_token raw w) w
      else (refused missing_credentials, w)

  unfoldable pub get_current_principal :
      Option String → Option String → World → Decision Principal × World
  get_current_principal header_key authorization w =
      if not settings.auth_enabled
      then (granted auth_disabled, w)
      else with_credential (extract_api_key header_key authorization) w

  unfoldable pub require_min_role : Role → Principal → Decision Principal
  require_min_role min_role p =
      if not settings.auth_enabled
      then granted p
      else if ltb (role_rank p.role) (role_rank min_role)
      then refused (role_too_low min_role)
      else granted p

  abbrev with_role : Role → Decision Principal × World → Decision Principal × World
  with_role min_role (granted p, w) = (require_min_role min_role p, w)
  with_role min_role (refused r, w) = (refused r, w)

  -- The dependency of a route that needs a role.
  unfoldable pub authorize :
      Role → Option String → Option String → World → Decision Principal × World
  authorize min_role header_key authorization w =
      with_role min_role (get_current_principal header_key authorization w)
