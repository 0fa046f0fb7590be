-- ===== src/Auth/Access/Granted.antt =====
-- src/auth/deps.py: proofs on the checks of a request's credential and role.
use autonomous_ai_job_oreche.Prelude.{
  ◌≤◌, String, Bool, true, not, Option, none, some, ◌≡◌, refl, sym, ap, ◌∙◌, ◌⊎◌, inl, inr, ltb,
  truthy, if◌then◌else◌, Bool-cases, le_of_not-ltb,
}
use autonomous_ai_job_oreche.Services.{Env}
use autonomous_ai_job_oreche.Principal.{Role, role_rank, Principal}
use autonomous_ai_job_oreche.World.{World, Result, ok, err}
use autonomous_ai_job_oreche.RateLimit.{check}
use autonomous_ai_job_oreche.Auth.{validate_key}
use autonomous_ai_job_oreche.Auth.Access.{
  Decision, granted, refused, within_limit, limited, by_key, authenticated, with_credential,
  extract_api_key, get_current_principal, require_min_role, missing_credentials, role_too_low,
  auth_disabled, with_role, authorize,
}

module _ ⦃env : Env⦄ (sha256 : String → String)
    (validate_access_token : String → World → Result (Option Principal)) where
  open env use {settings}

  granted-inj : {p q : Principal} → granted p ≡ granted q → p ≡ q
  granted-inj h = cc

  within_limit-same :
      (p q : Principal) (r : Result (Unit {0}) × World)
      → (within_limit sha256 validate_access_token p r).0 ≡ granted q
      → p ≡ q
  within_limit-same p q (ok u, w) h = granted-inj h
  within_limit-same p q (err e, w) h = cc

  limited-same :
      (p q : Principal) (w : World)
      → (limited sha256 validate_access_token p w).0 ≡ granted q
      → p ≡ q
  limited-same p q w h = elim (Bool-cases settings.rate_limit_enabled) [
    | inl on ↦ within_limit-same p q (check p.tenant_id w) (
        sym (
          ap
            (λ b.
              (if b
                then within_limit sha256 validate_access_token p (check p.tenant_id w)
                else (granted p, w)).0)
            on)
        ∙ h)
    | inr off ↦ granted-inj (
        sym (
          ap
            (λ b.
              (if b
                then within_limit sha256 validate_access_token p (check p.tenant_id w)
                else (granted p, w)).0)
            off)
        ∙ h)
  ]

  -- The credential is a valid token, or a valid API key, of the principal.
  pub Credential : String → World → Principal → Type 0
  Credential raw w p =
      (truthy raw ≡ true)
      × ((validate_access_token raw w ≡ ok (some p)) ⊎ ((validate_key sha256 raw w).0 ≡ some p))

  by_key-same :
      (p : Principal) (r : Option Principal × World)
      → (by_key sha256 validate_access_token r).0 ≡ granted p
      → r.0 ≡ some p
  by_key-same p (none, w) h = cc
  by_key-same p (some q, w) h = ap some (limited-same q p w h)

  authenticated-Credential :
      (raw : String) (p : Principal) (w : World) (o : Result (Option Principal))
      → truthy raw ≡ true
      → validate_access_token raw w ≡ o
      → (authenticated sha256 validate_access_token raw o w).0 ≡ granted p
      → Credential raw w p
  unfolding Credential
  authenticated-Credential raw p w (err e) given token h = cc
  authenticated-Credential raw p w (ok (some q)) given token h =
      (given, inl (token ∙ ap (λ x. ok (some x)) (limited-same q p w h)))
  authenticated-Credential raw p w (ok none) given token h =
      (given, inr (by_key-same p (validate_key sha256 raw w) h))

  with_credential-Credential :
      (o : Option String) (p : Principal) (w : World)
      → (with_credential sha256 validate_access_token o w).0 ≡ granted p
      → (raw : String) × (o ≡ some raw) × Credential raw w p
  with_credential-Credential none p w h = cc
  with_credential-Credential (some raw) p w h = elim (Bool-cases (truthy raw)) [
    | inl given ↦ (
      raw,
      refl,
      authenticated-Credential raw p w (validate_access_token raw w) given refl
          (sym (by_truth given) ∙ h),
    )
    | inr empty ↦ absurd (clash (sym (by_truth empty) ∙ h))
  ]
    where
      by_truth :
          {b : Bool}
          → truthy raw ≡ b
          → (with_credential sha256 validate_access_token (some raw) w).0
            ≡ (if b
                then authenticated sha256 validate_access_token raw (validate_access_token raw w) w
                else (refused missing_credentials, w)).0
      by_truth e =
          ap
            (λ b.
              (if b
                then authenticated sha256 validate_access_token raw (validate_access_token raw w) w
                else (refused missing_credentials, w)).0)
            e

      clash : refused missing_credentials ≡ granted p → ⊥
      clash e = cc

  role_enough :
      (min_role : Role) (q p : Principal)
      → settings.auth_enabled ≡ true
      → require_min_role sha256 validate_access_token min_role q ≡ granted p
      → (q ≡ p) × (role_rank min_role ≤ role_rank q.role)
  unfolding require_min_role
  role_enough min_role q p on h = elim (Bool-cases (ltb (role_rank q.role) (role_rank min_role))) [
    | inl low ↦ absurd (clash (sym (checked low) ∙ h))
    | inr high ↦ (
      granted-inj (sym (checked high) ∙ h),
      le_of_not-ltb (role_rank q.role) (role_rank min_role) high,
    )
  ]
    where
      checked :
          {b : Bool}
          → ltb (role_rank q.role) (role_rank min_role) ≡ b
          → require_min_role sha256 validate_access_token min_role q
            ≡ (if b then refused (role_too_low min_role) else granted q)
      checked e =
          ap
            (λ b.
              if not b
              then granted q
              else if ltb (role_rank q.role) (role_rank min_role)
              then refused (role_too_low min_role)
              else granted q)
            on
          ∙ ap (λ b. if b then refused (role_too_low min_role) else granted q) e

      clash : refused (role_too_low min_role) ≡ granted p → ⊥
      clash e = cc

  with_role-granted :
      (min_role : Role) (p : Principal) (r : Decision Principal × World)
      → settings.auth_enabled ≡ true
      → (with_role sha256 validate_access_token min_role r).0 ≡ granted p
      → (r.0 ≡ granted p) × (role_rank min_role ≤ role_rank p.role)
  with_role-granted min_role p (granted q, w) on h =
      let (same, enough) = role_enough min_role q p on h in (ap granted same, rw (sym same) enough)
  with_role-granted min_role p (refused x, w) on h = cc

  enabled :
      (header_key authorization : Option String) (w : World)
      → settings.auth_enabled ≡ true
      → get_current_principal sha256 validate_access_token header_key authorization w
        ≡ with_credential sha256 validate_access_token (extract_api_key header_key authorization) w
  unfolding get_current_principal
  enabled header_key authorization w on =
      ap
        (λ b.
          if not b
          then (granted (auth_disabled sha256 validate_access_token), w)
          else with_credential sha256 validate_access_token
              (extract_api_key header_key authorization) w)
        on

  -- With authentication enabled, a request to which `authorize` grants access as a principal carries
  -- a credential in one of its headers, that is a valid token or an enabled API key of this principal,
  -- and the principal's role is at least the one required.
  pub authorize-Credential :
      (min_role : Role) (header_key authorization : Option String) (w : World) (p : Principal)
      → settings.auth_enabled ≡ true
      → (authorize sha256 validate_access_token min_role header_key authorization w).0 ≡ granted p
      → (raw : String) × (extract_api_key header_key authorization ≡ some raw)
        × Credential raw w p
        × (role_rank min_role ≤ role_rank p.role)
  unfolding authorize
  authorize-Credential min_role header_key authorization w p on h =
      let (access, enough) =
        with_role-granted min_role p
          (get_current_principal sha256 validate_access_token header_key authorization w) on h in
      let (raw, carried, credential) =
        with_credential-Credential (extract_api_key header_key authorization) p w
          (sym (ap (λ r. r.0) (enabled header_key authorization w on)) ∙ access) in
      (raw, carried, credential, enough)
