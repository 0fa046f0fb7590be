-- ===== src/World/Same.antt =====
-- src/db: lemmas on states with the same tables but for the API keys.
use autonomous_ai_job_oreche.Prelude.{Bool, true, false, ◌≡◌, refl, ◌∙◌, if◌then◌else◌}
use autonomous_ai_job_oreche.Services.{Env}
use autonomous_ai_job_oreche.World.{World}

module _ ⦃env : Env⦄ where
  -- All tables but that of the API keys are the same, and no file was written.
  pub record SameTables (w v : World) : Type 0 where
    pub tenants : v.db.tenants ≡ w.db.tenants
    pub jobs : v.db.jobs ≡ w.db.jobs
    pub runs : v.db.runs ≡ w.db.runs
    pub dependencies : v.db.dependencies ≡ w.db.dependencies
    pub audits : v.db.audits ≡ w.db.audits
    pub service_accounts : v.db.service_accounts ≡ w.db.service_accounts
    pub files : v.files ≡ w.files

  pub SameTables-refl : (w : World) → SameTables w w
  SameTables-refl w = record {
    tenants = refl;
    jobs = refl;
    runs = refl;
    dependencies = refl;
    audits = refl;
    service_accounts = refl;
    files = refl;
  }

  pub SameTables-trans : (u v w : World) → SameTables u v → SameTables v w → SameTables u w
  SameTables-trans u v w h k = record {
    tenants = k.tenants ∙ h.tenants;
    jobs = k.jobs ∙ h.jobs;
    runs = k.runs ∙ h.runs;
    dependencies = k.dependencies ∙ h.dependencies;
    audits = k.audits ∙ h.audits;
    service_accounts = k.service_accounts ∙ h.service_accounts;
    files = k.files ∙ h.files;
  }

  -- Both branches of a test.
  pub if-SameTables {ℓ} :
      {A : Type ℓ} (w : World) (b : Bool) (x y : A × World)
      → SameTables w x.1
      → SameTables w y.1
      → SameTables w (if b then x else y).1
  if-SameTables w true x y h k = h
  if-SameTables w false x y h k = k
