-- ===== src/Auth/ServiceAccounts/Rows.antt =====
-- src/db/models/service_account.py: lemmas on the table of service accounts.
use autonomous_ai_job_oreche.Prelude.{
  ℕ, ◌+◌, String, Bool, true, false, not, ◌&&◌, Option, none, some, ◌≡◌, refl, sym, ap, ◌∙◌, arith,
  count, bit, ◌==◌, str_eq, eq_iff, is_some, if◌then◌else◌,
}
use autonomous_ai_job_oreche.Services.{Env}
use autonomous_ai_job_oreche.Job.{Fields}
use autonomous_ai_job_oreche.Db.{
  ServiceAccountRow, Db, get_service_account, service_account_rows, add_service_account, get_tenant,
  check_then, add_audit_row,
}
use autonomous_ai_job_oreche.Manager.{audit}

module _ ⦃env : Env⦄ where
  -- What an accepted row of `service_accounts` says of the table before and after.
  pub record AccountAdded (r : ServiceAccountRow) (db db1 : Db) : Type 0 where
    pub unused_client_id :
        count (λ (x : ServiceAccountRow). str_eq x.client_id r.client_id) (service_account_rows db)
        ≡ 0
    pub counted :
        (p : ServiceAccountRow → Bool)
        → count p (service_account_rows db1) ≡ bit (p r) + count p (service_account_rows db)
    pub stored : get_service_account r.id db1 ≡ some r

  check_then-some : (b : Bool) (db db1 : Db) → check_then b db ≡ some db1 → (b ≡ true) × (db ≡ db1)
  check_then-some true db db1 h = (refl, cc)
  check_then-some false db db1 h = cc

  pub add_service_account-AccountAdded :
      (r : ServiceAccountRow) (db db1 : Db)
      → add_service_account r db ≡ some db1
      → AccountAdded r db db1
  unfolding add_service_account get_service_account service_account_rows
  add_service_account-AccountAdded r db db1 h = record {
    unused_client_id =
        third (not (is_some (get_service_account r.id db))) (is_some (get_tenant r.tenant_id db)) _
          _ checked.0;
    counted = λ p.
        ap (λ (x : Db). count p (env.rows ServiceAccountRow x.service_accounts)) (sym checked.1)
        ∙ env.count-insert ServiceAccountRow p r db.service_accounts;
    stored =
        ap (λ (x : Db). env.get_row ServiceAccountRow (λ x. x.id) r.id x.service_accounts)
          (sym checked.1)
        ∙ (env.get_row-insert ServiceAccountRow (λ x. x.id) r.id r db.service_accounts
              (unused (get_service_account r.id db) _ _ _ checked.0)
            ∙ ap
                (λ b.
                  if b
                  then some r
                  else env.get_row ServiceAccountRow (λ x. x.id) r.id db.service_accounts)
                ((eq_iff r.id r.id).1 refl));
  }
    where
      checked :
          ((not (is_some (get_service_account r.id db))
              && is_some (get_tenant r.tenant_id db)
              && count
                  (λ (x : ServiceAccountRow). str_eq x.client_id r.client_id)
                  (service_account_rows db)
                == 0
              && count
                  (λ (x : ServiceAccountRow). str_eq x.secret_hash r.secret_hash)
                  (service_account_rows db)
                == 0)
            ≡ true)
          × (record db { service_accounts = env.insert_row ServiceAccountRow r db.service_accounts }
              ≡ db1)
      checked =
          check_then-some _
            (record db {
              service_accounts = env.insert_row ServiceAccountRow r db.service_accounts;
            })
            db1 h

      third : (a b : Bool) (m n : ℕ) → (a && b && m == 0 && n == 0) ≡ true → m ≡ 0
      third a b m n e = ground arith

      unused :
          (o : Option ServiceAccountRow) (b c d : Bool)
          → (not (is_some o) && b && c && d) ≡ true
          → o ≡ none
      unused none b c d e = refl
      unused (some x) b c d e = cc

  pub service_accounts-audit :
      (id tid : String) (now : ℕ) (action target : String) (p : Fields) (actor : String) (db : Db)
      → (service_account_rows (audit id tid now action target p actor db) ≡ service_account_rows db)
        × ((k : String)
            → get_service_account k (audit id tid now action target p actor db)
              ≡ get_service_account k db)
  unfolding audit service_account_rows get_service_account add_audit_row
  service_accounts-audit id tid now action target p actor db = (refl, λ k. refl)
