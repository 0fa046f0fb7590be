-- ===== src/Auth/Rows.antt =====
-- src/db/models/api_key.py: lemmas on the table of keys.
use autonomous_ai_job_oreche.Prelude.{
  ℕ, ◌+◌, String, Bool, true, false, not, ◌&&◌, Option, none, some, ◌≡◌, refl, sym, ap, ◌∙◌, arith,
  count, bit, ◌==◌, str_eq, eq_iff, is_some, if◌then◌else◌,
}
use autonomous_ai_job_oreche.Services.{Env}
use autonomous_ai_job_oreche.Job.{Fields}
use autonomous_ai_job_oreche.Principal.{Role, viewer, producer, operator, role_rank}
use autonomous_ai_job_oreche.Db.{
  ApiKeyRow, Db, get_api_key, api_key_rows, add_api_key, get_tenant, check_then, add_audit_row,
}
use autonomous_ai_job_oreche.Manager.{audit}

pub role_rank-eq : (a b : Role) → (role_rank a == role_rank b) ≡ true → a ≡ b
role_rank-eq viewer b h = ground arith
role_rank-eq producer b h = ground arith
role_rank-eq operator b h = ground arith

module _ ⦃env : Env⦄ where
  -- What an accepted row of `api_keys` says of the table before and after.
  pub record KeyAdded (r : ApiKeyRow) (db db1 : Db) : Type 0 where
    pub unused_hash : count (λ (x : ApiKeyRow). str_eq x.key_hash r.key_hash) (api_key_rows db) ≡ 0
    pub counted :
        (p : ApiKeyRow → Bool) → count p (api_key_rows db1) ≡ bit (p r) + count p (api_key_rows db)
    pub stored : get_api_key r.id db1 ≡ some r

  check_then-some : (b : Bool) (db db1 : Db) → check_then b db ≡ some db1 → (b ≡ true) × (db ≡ db1)
  check_then-some true db db1 h = (refl, cc)
  check_then-some false db db1 h = cc

  pub add_api_key-KeyAdded :
      (r : ApiKeyRow) (db db1 : Db) → add_api_key r db ≡ some db1 → KeyAdded r db db1
  unfolding add_api_key get_api_key api_key_rows
  add_api_key-KeyAdded r db db1 h = record {
    unused_hash =
        third (not (is_some (get_api_key r.id db))) (is_some (get_tenant r.tenant_id db)) _
          checked.0;
    counted = λ p.
        ap (λ (x : Db). count p (env.rows ApiKeyRow x.api_keys)) (sym checked.1)
        ∙ env.count-insert ApiKeyRow p r db.api_keys;
    stored =
        ap (λ (x : Db). env.get_row ApiKeyRow (λ x. x.id) r.id x.api_keys) (sym checked.1)
        ∙ (env.get_row-insert ApiKeyRow (λ x. x.id) r.id r db.api_keys
              (unused (get_api_key r.id db) (is_some (get_tenant r.tenant_id db)) _ checked.0)
            ∙ ap (λ b. if b then some r else env.get_row ApiKeyRow (λ x. x.id) r.id db.api_keys)
                ((eq_iff r.id r.id).1 refl));
  }
    where
      checked :
          ((not (is_some (get_api_key r.id db))
              && is_some (get_tenant r.tenant_id db)
              && count (λ (x : ApiKeyRow). str_eq x.key_hash r.key_hash) (api_key_rows db) == 0)
            ≡ true)
          × (record db { api_keys = env.insert_row ApiKeyRow r db.api_keys } ≡ db1)
      checked =
          check_then-some _ (record db { api_keys = env.insert_row ApiKeyRow r db.api_keys }) db1 h

      third : (a b : Bool) (n : ℕ) → (a && b && n == 0) ≡ true → n ≡ 0
      third a b n e = ground arith

      unused : (o : Option ApiKeyRow) (b c : Bool) → (not (is_some o) && b && c) ≡ true → o ≡ none
      unused none b c e = refl
      unused (some x) b c e = cc

  pub api_keys-audit :
      (id tid : String) (now : ℕ) (action target : String) (p : Fields) (actor : String) (db : Db)
      → (api_key_rows (audit id tid now action target p actor db) ≡ api_key_rows db)
        × ((k : String)
            → get_api_key k (audit id tid now action target p actor db) ≡ get_api_key k db)
  unfolding audit api_key_rows get_api_key add_audit_row
  api_keys-audit id tid now action target p actor db = (refl, λ k. refl)
