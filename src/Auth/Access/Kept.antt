-- ===== src/Auth/Access/Kept.antt =====
-- src/auth/deps.py: lemmas on the tables that deciding access leaves alone.
use autonomous_ai_job_oreche.Prelude.{String, not, Option, none, some, refl, truthy, find}
use autonomous_ai_job_oreche.Services.{Env}
use autonomous_ai_job_oreche.Principal.{Role, Principal}
use autonomous_ai_job_oreche.Db.{ApiKeyRow, api_key_rows, save_api_key}
use autonomous_ai_job_oreche.World.{World, Result, ok, err}
use autonomous_ai_job_oreche.RateLimit.{check}
use autonomous_ai_job_oreche.Auth.{accepts, hash_of, validated, validate_key}
use autonomous_ai_job_oreche.Auth.Access.{
  Decision, granted, refused, missing_credentials, auth_disabled, within_limit, limited, by_key,
  authenticated, with_credential, extract_api_key, get_current_principal, with_role, authorize,
}
use autonomous_ai_job_oreche.World.Same.{
  SameTables, SameTables-refl, SameTables-trans, if-SameTables,
}
use autonomous_ai_job_oreche.RateLimit.Kept.{check-same}

module _ ⦃env : Env⦄ (sha256 : String → String)
    (validate_access_token : String → World → Result (Option Principal)) where
  open env use {settings}

  validated-same : (o : Option ApiKeyRow) (w : World) → SameTables w (validated sha256 w o).1
  unfolding save_api_key
  validated-same none w = SameTables-refl w
  validated-same (some row) w = record {
    tenants = refl;
    jobs = refl;
    runs = refl;
    dependencies = refl;
    audits = refl;
    service_accounts = refl;
    files = refl;
  }

  validate_key-same : (raw : String) (w : World) → SameTables w (validate_key sha256 raw w).1
  unfolding validate_key
  validate_key-same raw w =
      let found = find (accepts sha256 (hash_of sha256 raw)) (api_key_rows w.db) in
      if-SameTables w (not (truthy raw)) (none, w) (validated sha256 w found) (SameTables-refl w)
        (validated-same found w)

  within_limit-same :
      (p : Principal) (r : Result (Unit {0}) × World) (w : World)
      → SameTables w r.1
      → SameTables w (within_limit sha256 validate_access_token p r).1
  within_limit-same p (ok u, v) w h = h
  within_limit-same p (err e, v) w h = h

  limited-same :
      (p : Principal) (w v : World)
      → SameTables w v
      → SameTables w (limited sha256 validate_access_token p v).1
  limited-same p w v h =
      let checked = check p.tenant_id v in
      if-SameTables w settings.rate_limit_enabled
        (within_limit sha256 validate_access_token p checked) (granted p, v)
        (within_limit-same p checked w
          (SameTables-trans w v checked.1 h (check-same p.tenant_id v)))
        h

  by_key-same :
      (r : Option Principal × World) (w : World)
      → SameTables w r.1
      → SameTables w (by_key sha256 validate_access_token r).1
  by_key-same (none, v) w h = h
  by_key-same (some p, v) w h = limited-same p w v h

  authenticated-same :
      (raw : String) (o : Result (Option Principal)) (w : World)
      → SameTables w (authenticated sha256 validate_access_token raw o w).1
  authenticated-same raw (err e) w = SameTables-refl w
  authenticated-same raw (ok (some p)) w = limited-same p w w (SameTables-refl w)
  authenticated-same raw (ok none) w =
      by_key-same (validate_key sha256 raw w) w (validate_key-same raw w)

  with_credential-same :
      (o : Option String) (w : World)
      → SameTables w (with_credential sha256 validate_access_token o w).1
  with_credential-same none w = SameTables-refl w
  with_credential-same (some raw) w =
      if-SameTables w (truthy raw)
        (authenticated sha256 validate_access_token raw (validate_access_token raw w) w)
        (refused missing_credentials, w) (authenticated-same raw (validate_access_token raw w) w)
        (SameTables-refl w)

  with_role-same :
      (min_role : Role) (r : Decision Principal × World) (w : World)
      → SameTables w r.1
      → SameTables w (with_role sha256 validate_access_token min_role r).1
  with_role-same min_role (granted p, v) w h = h
  with_role-same min_role (refused x, v) w h = h

  -- Deciding access writes no table but that of the API keys.
  pub authorize-SameTables :
      (min_role : Role) (header_key authorization : Option String) (w : World)
      → SameTables w (authorize sha256 validate_access_token min_role header_key authorization w).1
  unfolding authorize get_current_principal
  authorize-SameTables min_role header_key authorization w =
      let credential = extract_api_key header_key authorization in
      with_role-same min_role
        (get_current_principal sha256 validate_access_token header_key authorization w) w
        (if-SameTables w (not settings.auth_enabled)
          (granted (auth_disabled sha256 validate_access_token), w)
          (with_credential sha256 validate_access_token credential w) (SameTables-refl w)
          (with_credential-same credential w))
