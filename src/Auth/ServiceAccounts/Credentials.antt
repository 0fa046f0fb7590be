-- ===== src/Auth/ServiceAccounts/Credentials.antt =====
-- src/auth/service_account_service.py: proofs on the credentials of a service account.
use autonomous_ai_job_oreche.Prelude.{
  ℕ, String, Bool, true, false, not, ◌&&◌, ◌||◌, Option, none, some, ◌≡◌, ◌≢◌, refl, sym, ap, ◌∙◌,
  arith, find, find_of_count-zero, count-zero_of_find, found_agrees, count, count_mono, bit, ◌==◌,
  str_eq, eq_iff, truthy, if◌then◌else◌, Option-cases, Bool-cases, inl, inr,
}
use autonomous_ai_job_oreche.Services.{Env}
use autonomous_ai_job_oreche.Principal.{role_rank}
use autonomous_ai_job_oreche.Db.{
  ServiceAccountRow, Db, get_service_account, service_account_rows, add_service_account,
  save_service_account,
}
use autonomous_ai_job_oreche.World.{
  World, ok, integrity_error, or_raise, or_raise-eq-ok, >>=-eq-ok, ok-inj,
}
use autonomous_ai_job_oreche.Auth.{hash_of}
use autonomous_ai_job_oreche.Auth.Rows.{role_rank-eq}
use autonomous_ai_job_oreche.Auth.ServiceAccounts.{
  account_principal, principal_of_account, stage_account, account_accepts,
  validate_client_credentials, account_revoked,
}
use autonomous_ai_job_oreche.Auth.ServiceAccounts.Rows.{
  AccountAdded, add_service_account-AccountAdded, service_accounts-audit,
}

same_principal :
    (a b : ServiceAccountRow)
    → a.id ≡ b.id
    → a.tenant_id ≡ b.tenant_id
    → a.role ≡ b.role
    → a.name ≡ b.name
    → account_principal a ≡ account_principal b
same_principal a b i t r n = cc

if_same {ℓ} : {A : Type ℓ} (b : Bool) (a : A) → (if b then a else a) ≡ a
if_same true a = refl
if_same false a = refl

module _ ⦃env : Env⦄ (sha256 : String → String) where
  pub stage_account-Added :
      (w : World) (actor : String) (row : ServiceAccountRow) (db1 : Db)
      → stage_account sha256 w actor row ≡ ok db1
      → AccountAdded row w.db db1
  unfolding stage_account
  stage_account-Added w actor row db1 h =
      let (db, added, h1) =
        >>=-eq-ok (or_raise integrity_error (add_service_account row w.db)) _ db1 h in
      let a =
        add_service_account-AccountAdded row w.db db
          (or_raise-eq-ok integrity_error (add_service_account row w.db) db added) in
      let kept = service_accounts-audit _ _ _ _ _ _ _ db in
      rw (sym (ok-inj h1)) (record {
        unused_client_id = a.unused_client_id;
        counted = λ p. ap (count p) kept.0 ∙ a.counted p;
        stored = kept.1 row.id ∙ a.stored;
      })

  -- No row of the table before has the client id of the new one.
  none_before :
      (hashed : String) (row : ServiceAccountRow) (db db1 : Db)
      → AccountAdded row db db1
      → count (account_accepts sha256 row.client_id hashed) (service_account_rows db) ≡ 0
  none_before hashed row db db1 a = omega (
    arith,
    a.unused_client_id,
    count_mono (account_accepts sha256 row.client_id hashed) (λ x. str_eq x.client_id row.client_id)
        (service_account_rows db)
        (λ x e. left (str_eq x.client_id row.client_id) (str_eq x.secret_hash hashed) x.enabled e),
  )
    where
      left : (x y z : Bool) → (x && y && z) ≡ true → x ≡ true
      left x y z e = ground arith

  accepted_bit :
      (hashed : String) (row : ServiceAccountRow) (db db1 : Db)
      → AccountAdded row db db1
      → count (account_accepts sha256 row.client_id hashed) (service_account_rows db1)
        ≡ bit (account_accepts sha256 row.client_id hashed row)
  accepted_bit hashed row db db1 a = omega (
    arith,
    a.counted (account_accepts sha256 row.client_id hashed),
    none_before hashed row db db1 a,
  )

  -- What is found under the client id is the account that was added, as far as its principal goes.
  found-same_principal :
      (hashed : String) (row found : ServiceAccountRow) (db db1 : Db)
      → AccountAdded row db db1
      → find (account_accepts sha256 row.client_id hashed) (service_account_rows db1) ≡ some found
      → account_principal found ≡ account_principal row
  found-same_principal hashed row found db db1 a h =
      same_principal found row
        ((eq_iff found.id row.id).0 (agrees (λ x. str_eq x.id row.id) (same row.id)))
        ((eq_iff found.tenant_id row.tenant_id).0
          (agrees (λ x. str_eq x.tenant_id row.tenant_id) (same row.tenant_id)))
        (role_rank-eq found.role row.role
          (agrees (λ x. role_rank x.role == role_rank row.role) (same_rank (role_rank row.role))))
        ((eq_iff found.name row.name).0 (agrees (λ x. str_eq x.name row.name) (same row.name)))
    where
      same : (s : String) → str_eq s s ≡ true
      same s = (eq_iff s s).1 refl

      same_rank : (n : ℕ) → (n == n) ≡ true
      same_rank n = ground arith

      agrees : (f : ServiceAccountRow → Bool) → f row ≡ true → f found ≡ true
      agrees f e =
          found_agrees (account_accepts sha256 row.client_id hashed) f row found
            (service_account_rows db) (service_account_rows db1) (none_before hashed row db db1 a)
            a.counted e h

  validate-of_find :
      (client_id client_secret : String) (db : Db) (o : Option ServiceAccountRow)
      → find
          (account_accepts sha256 client_id (hash_of sha256 client_secret))
          (service_account_rows db)
        ≡ o
      → validate_client_credentials sha256 client_id client_secret db ≡ (
          if not (truthy client_id) || not (truthy client_secret)
          then none
          else principal_of_account o)
  unfolding validate_client_credentials
  validate-of_find client_id client_secret db o found =
      ap
        (λ x.
          if not (truthy client_id) || not (truthy client_secret)
          then none
          else principal_of_account x)
        found

  refused_of_none :
      (client_id client_secret : String) (db : Db)
      → count
          (account_accepts sha256 client_id (hash_of sha256 client_secret))
          (service_account_rows db)
        ≡ 0
      → validate_client_credentials sha256 client_id client_secret db ≡ none
  refused_of_none client_id client_secret db gone =
      validate-of_find client_id client_secret db none (
        find_of_count-zero (account_accepts sha256 client_id (hash_of sha256 client_secret))
          (service_account_rows db) gone)
      ∙ if_same (not (truthy client_id) || not (truthy client_secret)) none

  pub accepted-principal :
      (client_secret : String) (row : ServiceAccountRow) (db db1 : Db)
      → truthy row.client_id ≡ true
      → truthy client_secret ≡ true
      → row.secret_hash ≡ hash_of sha256 client_secret
      → row.enabled ≡ true
      → AccountAdded row db db1
      → validate_client_credentials sha256 row.client_id client_secret db1
        ≡ some (account_principal row)
  accepted-principal client_secret row db db1 named given own on a =
      elim (Option-cases (find p (service_account_rows db1))) [
        | inl nothing ↦ absurd (
            omega (
              arith,
              accepted_bit (hash_of sha256 client_secret) row db db1 a,
              count-zero_of_find p (service_account_rows db1) nothing,
              ap bit accepted,
            ))
        | inr (found, e) ↦
            validate-of_find row.client_id client_secret db1 (some found) e
            ∙ (ap (λ b. if b then none else some (account_principal found)) (both named given)
                ∙ ap some
                    (found-same_principal (hash_of sha256 client_secret) row found db db1 a e))
      ]
    where
      p : ServiceAccountRow → Bool
      p = account_accepts sha256 row.client_id (hash_of sha256 client_secret)

      both : {x y : Bool} → x ≡ true → y ≡ true → (not x || not y) ≡ false
      both h k = ground arith

      all_three : {x y z : Bool} → x ≡ true → y ≡ true → z ≡ true → (x && y && z) ≡ true
      all_three h k l = ground arith

      accepted : p row ≡ true
      accepted =
          all_three ((eq_iff row.client_id row.client_id).1 refl)
            ((eq_iff row.secret_hash (hash_of sha256 client_secret)).1 own) on

  pub wrong_secret :
      (other : String) (row : ServiceAccountRow) (db db1 : Db)
      → hash_of sha256 other ≢ row.secret_hash
      → AccountAdded row db db1
      → validate_client_credentials sha256 row.client_id other db1 ≡ none
  wrong_secret other row db db1 differs a =
      refused_of_none row.client_id other db1
        (accepted_bit (hash_of sha256 other) row db db1 a ∙ ap bit unequal)
    where
      second : (x y z : Bool) → y ≡ false → (x && y && z) ≡ false
      second x y z h = ground arith

      apart : str_eq row.secret_hash (hash_of sha256 other) ≡ false
      apart = elim (Bool-cases (str_eq row.secret_hash (hash_of sha256 other))) [
        | inl same ↦ absurd (differs (sym ((eq_iff row.secret_hash (hash_of sha256 other)).0 same)))
        | inr no_it ↦ no_it
      ]

      unequal : account_accepts sha256 row.client_id (hash_of sha256 other) row ≡ false
      unequal = second (str_eq row.client_id row.client_id) _ row.enabled apart

  -- Once the row is disabled no secret is accepted for its client id.
  pub revoked-refused :
      (secret account_id by : String) (row : ServiceAccountRow) (db : Db) (w : World)
      → AccountAdded row db w.db
      → validate_client_credentials sha256 row.client_id secret
          (account_revoked sha256 w account_id by row).db
        ≡ none
  unfolding save_service_account get_service_account service_account_rows
  revoked-refused secret account_id by row db w a =
      refused_of_none row.client_id secret (account_revoked sha256 w account_id by row).db (
        ap (count p) (service_accounts-audit _ _ _ _ _ _ _ (save_service_account off w.db)).0
        ∙ gone)
    where
      p : ServiceAccountRow → Bool
      p = account_accepts sha256 row.client_id (hash_of sha256 secret)

      off : ServiceAccountRow
      off = record row { enabled = false }

      third : (x y : Bool) → (x && y && false) ≡ false
      third x y = ground arith

      gone : count p (service_account_rows (save_service_account off w.db)) ≡ 0
      gone = omega (
        arith,
        env.count-update ServiceAccountRow (λ x. x.id) p off row w.db.service_accounts a.stored,
        ap bit (
            third (str_eq row.client_id row.client_id)
              (str_eq row.secret_hash (hash_of sha256 secret))),
        accepted_bit (hash_of sha256 secret) row db w.db a,
      )
