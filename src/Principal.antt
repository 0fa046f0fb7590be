-- ===== src/Principal.antt =====
-- src/models/auth.py: roles, and who makes a request.
use autonomous_ai_job_oreche.Prelude.{
  ℕ, String, Option, none, some, ◌≡◌, refl, str_eq, if◌then◌else◌,
}

pub data Role : Type 0 where
  viewer producer operator : Role

-- `ROLE_RANK`
abbrev pub role_rank : Role → ℕ
role_rank viewer = 1
role_rank producer = 2
role_rank operator = 3

-- `Role.value`
abbrev pub role_text : Role → String
role_text viewer = "viewer"
role_text producer = "producer"
role_text operator = "operator"

pub data AuthMethod : Type 0 where
  api_key jwt client_credentials : AuthMethod

pub record Principal : Type 0 where
  pub subject_id : String
  pub tenant_id : String
  pub role : Role
  pub name : String
  pub auth_method : AuthMethod

-- The values of `Literal["api_key", "jwt", "client_credentials"]`.
abbrev pub method_text : AuthMethod → String
method_text api_key = "api_key"
method_text jwt = "jwt"
method_text client_credentials = "client_credentials"

-- A text as one of these values; `none` if pydantic rejects it.
unfoldable pub parse_method : String → Option AuthMethod
parse_method s =
    if str_eq s "api_key"
    then some api_key
    else if str_eq s "jwt"
    then some jwt
    else if str_eq s "client_credentials"
    then some client_credentials
    else none

-- `Role(value)`; `none` is its ValueError.
unfoldable pub parse_role : String → Option Role
parse_role s =
    if str_eq s "viewer"
    then some viewer
    else if str_eq s "producer"
    then some producer
    else if str_eq s "operator"
    then some operator
    else none

pub parse_role-role_text : (r : Role) → parse_role (role_text r) ≡ some r
unfolding parse_role
parse_role-role_text viewer = refl
parse_role-role_text producer = refl
parse_role-role_text operator = refl
