-- ===== src/Auth/ServiceAccounts/Lifetime.antt =====
-- src/auth/service_account_service.py: proofs on a service account from its creation until it is
-- revoked.
use mathlib.Core.Path.{subst}
use autonomous_ai_job_oreche.Prelude.{
  ◌+◌, String, Bool, true, false, none, some, ◌≡◌, ◌≢◌, refl, sym, ap, ◌∙◌, str_eq, eq_iff, truthy,
  if◌then◌else◌, Bool-cases, inl, inr,
}
use autonomous_ai_job_oreche.Services.{Env}
use autonomous_ai_job_oreche.Principal.{Role}
use autonomous_ai_job_oreche.Db.{ServiceAccountRow, Db, get_service_account}
use autonomous_ai_job_oreche.World.{World, Result, ok, err, ok-inj}
use autonomous_ai_job_oreche.Auth.{hash_of}
use autonomous_ai_job_oreche.Auth.ServiceAccounts.{
  account_principal, account_row, stage_account, stored_account, create,
  validate_client_credentials, account_revoked, revoke,
}
use autonomous_ai_job_oreche.Auth.ServiceAccounts.Rows.{AccountAdded}
use autonomous_ai_job_oreche.Auth.ServiceAccounts.Credentials.{
  stage_account-Added, accepted-principal, wrong_secret, revoked-refused,
}

module _ ⦃env : Env⦄ (sha256 : String → String) where
  -- What holds of an account after its creation in `w`, with another secret, another tenant, and an
  -- actor who revokes it.
  pub record LiveAccount (row : ServiceAccountRow) (client_secret other tenant by : String)
      (w : World) : Type 0 where
    pub accepted :
        validate_client_credentials sha256 row.client_id client_secret w.db
        ≡ some (account_principal row)
    pub other_refused : validate_client_credentials sha256 row.client_id other w.db ≡ none
    pub only_own_tenant : revoke sha256 row.id tenant by w ≡ (false, w)
    pub revoked_by_own : (revoke sha256 row.id row.tenant_id by w).0 ≡ true
    pub refused_once_revoked :
        (secret : String)
        → validate_client_credentials sha256 row.client_id secret
            (revoke sha256 row.id row.tenant_id by w).1.db
          ≡ none

  revoke-stored :
      (tenant by : String) (row : ServiceAccountRow) (w : World) (b : Bool)
      → get_service_account row.id w.db ≡ some row
      → str_eq row.tenant_id tenant ≡ b
      → revoke sha256 row.id tenant by w
        ≡ (if b then (true, account_revoked sha256 w row.id by row) else (false, w))
  unfolding revoke
  revoke-stored tenant by row w b h e =
      rw (h, revoke)
        (ap (λ b. if b then (true, account_revoked sha256 w row.id by row) else (false, w)) e)

  account_row-of :
      (w : World) (client_id client_secret name tenant_id : String) (role : Role)
      → let row = account_row sha256 w client_id client_secret name role tenant_id in
        (row.client_id ≡ client_id)
        × (row.secret_hash ≡ hash_of sha256 client_secret)
        × (row.enabled ≡ true)
  unfolding account_row
  account_row-of w client_id client_secret name tenant_id role = (refl, refl, refl)

  LiveAccount-added :
      (client_secret other tenant by : String) (row : ServiceAccountRow) (db : Db) (w : World)
      → truthy row.client_id ≡ true
      → truthy client_secret ≡ true
      → row.secret_hash ≡ hash_of sha256 client_secret
      → row.enabled ≡ true
      → hash_of sha256 other ≢ row.secret_hash
      → row.tenant_id ≢ tenant
      → AccountAdded row db w.db
      → LiveAccount row client_secret other tenant by w
  LiveAccount-added client_secret other tenant by row db w named given own on differs foreign a =
      record {
        accepted = accepted-principal sha256 client_secret row db w.db named given own on a;
        other_refused = wrong_secret sha256 other row db w.db differs a;
        only_own_tenant = elim (Bool-cases (str_eq row.tenant_id tenant)) [
          | inl same ↦ absurd (foreign ((eq_iff row.tenant_id tenant).0 same))
          | inr apart ↦ revoke-stored tenant by row w false a.stored apart
        ];
        revoked_by_own = ap (λ (r : Bool × World). r.0) by_own;
        refused_once_revoked = λ secret.
            ap
              (λ (r : Bool × World). validate_client_credentials sha256 row.client_id secret r.1.db)
              by_own
            ∙ revoked-refused sha256 secret row.id by row db w a;
      }
    where
      by_own :
          revoke sha256 row.id row.tenant_id by w ≡ (true, account_revoked sha256 w row.id by row)
      by_own =
          revoke-stored row.tenant_id by row w true a.stored
            ((eq_iff row.tenant_id row.tenant_id).1 refl)

  -- If `create` returned an account, with a client id and a secret that are not empty, then these are
  -- accepted as the principal of the account, and no secret with another hash is accepted for the
  -- client id; another tenant cannot revoke the account, and once its own tenant has revoked it, no
  -- secret is accepted for the client id.
  pub create-LiveAccount :
      (client_id client_secret name : String) (role : Role) (tenant_id actor : String) (w : World)
      (row : ServiceAccountRow) (secret other tenant by : String)
      → truthy client_id ≡ true
      → truthy client_secret ≡ true
      → (create sha256 client_id client_secret name role tenant_id actor w).0 ≡ ok (row, secret)
      → hash_of sha256 other ≢ row.secret_hash
      → row.tenant_id ≢ tenant
      → LiveAccount row secret other tenant by
          (create sha256 client_id client_secret name role tenant_id actor w).1
  unfolding create
  create-LiveAccount client_id client_secret name role tenant_id actor w row secret other tenant by
        named given h differs foreign =
      by_stage (stage_account sha256 w actor row0) refl h
    where
      row0 : ServiceAccountRow
      row0 = account_row sha256 w client_id client_secret name role tenant_id

      by_stage :
          (r : Result Db)
          → stage_account sha256 w actor row0 ≡ r
          → (stored_account sha256 w row0 client_secret r).0 ≡ ok (row, secret)
          → LiveAccount row secret other tenant by (stored_account sha256 w row0 client_secret r).1
      by_stage (err e) staged k = cc
      by_stage (ok db1) staged k =
          let w1 : World = record w { db = db1; drawn = w.drawn + 2 } in
          let (same_id, own, on) = account_row-of w client_id client_secret name tenant_id role in
          let same_row = ap (λ (x : ServiceAccountRow × String). x.0) (ok-inj k) in
          subst (λ (x : ServiceAccountRow × String). LiveAccount x.0 x.1 other tenant by w1)
            (ok-inj k)
            (LiveAccount-added client_secret other tenant by row0 w.db w1
              (ap truthy same_id ∙ named) given own on
              (λ e. differs (e ∙ ap (λ (r : ServiceAccountRow). r.secret_hash) same_row))
              (λ e. foreign (sym (ap (λ (r : ServiceAccountRow). r.tenant_id) same_row) ∙ e))
              (stage_account-Added sha256 w actor row0 db1 staged))
