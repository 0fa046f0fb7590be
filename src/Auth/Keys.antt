-- ===== src/Auth/Keys.antt =====
-- src/auth/service.py: proofs on `create_key`, `validate_key` and `revoke_key`.
use autonomous_ai_job_oreche.Prelude.{
  ℕ, ◌+◌, String, Bool, true, false, not, ◌&&◌, Option, none, some, ◌≡◌, refl, sym, ap, ◌∙◌, arith,
  find, find_of_count-zero, count-zero_of_find, found_agrees, count, count_mono, bit, ◌==◌, str_eq,
  eq_iff, truthy, if◌then◌else◌, Option-cases, inl, inr,
}
use autonomous_ai_job_oreche.Services.{Env}
use autonomous_ai_job_oreche.Principal.{Role, role_rank, Principal}
use autonomous_ai_job_oreche.Db.{
  ApiKeyRow, Db, get_api_key, api_key_rows, add_api_key, save_api_key,
}
use autonomous_ai_job_oreche.World.{
  World, Result, ok, err, integrity_error, or_raise, or_raise-eq-ok, >>=-eq-ok, ok-inj,
}
use autonomous_ai_job_oreche.Manager.{ensure_default_tenant}
use autonomous_ai_job_oreche.Auth.{
  principal_of, hash_of, key_row, stage_key, stored_key, create_key, accepts, validated,
  validate_key, revoked, revoke_key,
}
use autonomous_ai_job_oreche.Auth.Rows.{
  role_rank-eq, KeyAdded, add_api_key-KeyAdded, api_keys-audit,
}

module _ ⦃env : Env⦄ (sha256 : String → String) where
  -- The principal is that of the row.
  pub PrincipalOf : ApiKeyRow → Option Principal → Type 0
  PrincipalOf row o =
      (p : Principal) × (o ≡ some p)
      × (p.subject_id ≡ row.id)
      × (p.tenant_id ≡ row.tenant_id)
      × (p.role ≡ row.role)

  stage_key-Added :
      (w : World) (action actor : String) (row : ApiKeyRow) (db2 : Db)
      → stage_key sha256 w action actor row ≡ ok db2
      → (db : Db) × KeyAdded row db db2
  unfolding stage_key
  stage_key-Added w action actor row db2 h =
      let (db, tenant, h1) =
        >>=-eq-ok (ensure_default_tenant env.settings.default_tenant_id w.db) _ db2 h in
      let (db1, added, h2) = >>=-eq-ok (or_raise integrity_error (add_api_key row db)) _ db2 h1 in
      let a =
        add_api_key-KeyAdded row db db1
          (or_raise-eq-ok integrity_error (add_api_key row db) db1 added) in
      let kept = api_keys-audit _ _ _ _ _ _ _ db1 in
      (
        db,
        rw (sym (ok-inj h2)) (record {
          unused_hash = a.unused_hash;
          counted = λ p. ap (count p) kept.0 ∙ a.counted p;
          stored = kept.1 row.id ∙ a.stored;
        }),
      )

  key_row-accepted :
      (w : World) (raw_key name : String) (role : Role) (tenant_id : Option String)
      → accepts sha256 (hash_of sha256 raw_key) (key_row sha256 w raw_key name role tenant_id)
        ≡ true
  unfolding key_row
  key_row-accepted w raw_key name role tenant_id =
      ap (λ b. b && true) ((eq_iff (hash_of sha256 raw_key) (hash_of sha256 raw_key)).1 refl)

  key_row-hash :
      (w : World) (raw_key name : String) (role : Role) (tenant_id : Option String)
      → (key_row sha256 w raw_key name role tenant_id).key_hash ≡ hash_of sha256 raw_key
  unfolding key_row
  key_row-hash w raw_key name role tenant_id = refl

  revoke_key-own :
      (key_id by : String) (row : ApiKeyRow) (w : World)
      → get_api_key key_id w.db ≡ some row
      → revoke_key sha256 key_id none by w ≡ (true, revoked sha256 w key_id by row)
  unfolding revoke_key
  revoke_key-own key_id by row w h = rw (h, revoke_key) refl

  none_before :
      (hashed : String) (row : ApiKeyRow) (db db2 : Db)
      → row.key_hash ≡ hashed
      → KeyAdded row db db2
      → count (accepts sha256 hashed) (api_key_rows db) ≡ 0
  none_before hashed row db db2 own a = omega (
    arith,
    a.unused_hash,
    ap (λ k. count (λ (x : ApiKeyRow). str_eq x.key_hash k) (api_key_rows db)) own,
    count_mono (accepts sha256 hashed) (λ x. str_eq x.key_hash hashed) (api_key_rows db)
        (λ x e. left (str_eq x.key_hash hashed) x.enabled e),
  )
    where
      left : (x y : Bool) → (x && y) ≡ true → x ≡ true
      left x y e = ground arith

  accepted_once :
      (hashed : String) (row : ApiKeyRow) (db db2 : Db)
      → row.key_hash ≡ hashed
      → accepts sha256 hashed row ≡ true
      → KeyAdded row db db2
      → count (accepts sha256 hashed) (api_key_rows db2) ≡ 1
  accepted_once hashed row db db2 own yes_it a =
      omega (
        arith,
        a.counted (accepts sha256 hashed),
        ap bit yes_it,
        none_before hashed row db db2 own a,
      )

  -- The principal of what is found is that of the only row with the hash.
  found-PrincipalOf :
      (hashed : String) (row found : ApiKeyRow) (db db2 : Db) (w : World)
      → row.key_hash ≡ hashed
      → KeyAdded row db db2
      → find (accepts sha256 hashed) (api_key_rows db2) ≡ some found
      → PrincipalOf row (validated sha256 w (some found)).0
  unfolding PrincipalOf
  found-PrincipalOf hashed row found db db2 w own a h = (
    principal_of found,
    refl,
    (eq_iff found.id row.id).0 (agrees (λ x. str_eq x.id row.id) ((eq_iff row.id row.id).1 refl)),
    (eq_iff found.tenant_id row.tenant_id).0 (
        agrees (λ x. str_eq x.tenant_id row.tenant_id)
          ((eq_iff row.tenant_id row.tenant_id).1 refl)),
    role_rank-eq found.role row.role
        (agrees (λ x. role_rank x.role == role_rank row.role) (same (role_rank row.role))),
  )
    where
      same : (n : ℕ) → (n == n) ≡ true
      same n = ground arith

      agrees : (f : ApiKeyRow → Bool) → f row ≡ true → f found ≡ true
      agrees f e =
          found_agrees (accepts sha256 hashed) f row found (api_key_rows db) (api_key_rows db2)
            (none_before hashed row db db2 own a) a.counted e h

  validate_key-of_find :
      (raw_key : String) (w : World) (o : Option ApiKeyRow)
      → truthy raw_key ≡ true
      → find (accepts sha256 (hash_of sha256 raw_key)) (api_key_rows w.db) ≡ o
      → validate_key sha256 raw_key w ≡ validated sha256 w o
  unfolding validate_key
  validate_key-of_find raw_key w o given found =
      ap
        (λ b.
          if not b
          then (none, w)
          else validated sha256 w
              (find (accepts sha256 (hash_of sha256 raw_key)) (api_key_rows w.db)))
        given
      ∙ ap (validated sha256 w) found

  validate_key-once :
      (raw_key : String) (row : ApiKeyRow) (db : Db) (w : World)
      → truthy raw_key ≡ true
      → row.key_hash ≡ hash_of sha256 raw_key
      → accepts sha256 (hash_of sha256 raw_key) row ≡ true
      → KeyAdded row db w.db
      → PrincipalOf row (validate_key sha256 raw_key w).0
  validate_key-once raw_key row db w given own accepted a =
      elim (Option-cases (find (accepts sha256 (hash_of sha256 raw_key)) (api_key_rows w.db))) [
        | inl nothing ↦ absurd (
            omega (
              arith,
              accepted_once (hash_of sha256 raw_key) row db w.db own accepted a,
              count-zero_of_find (accepts sha256 (hash_of sha256 raw_key)) (api_key_rows w.db)
                  nothing,
            ))
        | inr (found, e) ↦
            rw (validate_key-of_find raw_key w (some found) given e)
              (found-PrincipalOf (hash_of sha256 raw_key) row found db w.db w own a e)
      ]

  -- The row that a revocation writes is no longer accepted.
  revoked-none :
      (raw_key key_id by : String) (row : ApiKeyRow) (w : World)
      → truthy raw_key ≡ true
      → accepts sha256 (hash_of sha256 raw_key) row ≡ true
      → get_api_key row.id w.db ≡ some row
      → count (accepts sha256 (hash_of sha256 raw_key)) (api_key_rows w.db) ≡ 1
      → (validate_key sha256 raw_key (revoked sha256 w key_id by row)).0 ≡ none
  unfolding save_api_key get_api_key api_key_rows
  revoked-none raw_key key_id by row w given accepted stored once =
      ap (λ r. r.0)
        (validate_key-of_find raw_key (revoked sha256 w key_id by row) none given (
          ap (find p) (api_keys-audit _ _ _ _ _ _ _ (save_api_key off w.db)).0
          ∙ find_of_count-zero p (api_key_rows (save_api_key off w.db)) gone))
    where
      p : ApiKeyRow → Bool
      p = accepts sha256 (hash_of sha256 raw_key)

      off : ApiKeyRow
      off = record row { enabled = false }

      refused : (b : Bool) → (b && false) ≡ false
      refused true = refl
      refused false = refl

      gone : count p (api_key_rows (save_api_key off w.db)) ≡ 0
      gone = omega (
        arith,
        env.count-update ApiKeyRow (λ x. x.id) p off row w.db.api_keys stored,
        ap bit accepted,
        ap bit (refused (str_eq row.key_hash (hash_of sha256 raw_key))),
        once,
      )

  -- A key that `create_key` returned is accepted as the principal of its row, with its tenant and its
  -- role, and once `revoke_key` has revoked the row, the key is refused. The key is not empty.
  pub create_key-until_revoked :
      (raw_key name : String) (role : Role) (tenant_id : Option String) (actor by : String)
      (w : World) (row : ApiKeyRow)
      → truthy raw_key ≡ true
      → (create_key sha256 raw_key name role tenant_id actor w).0 ≡ ok row
      → PrincipalOf row
          (validate_key sha256 raw_key (create_key sha256 raw_key name role tenant_id actor w).1).0
        × ((validate_key sha256 raw_key
              (revoke_key sha256 row.id none by
                (create_key sha256 raw_key name role tenant_id actor w).1).1).0
            ≡ none)
  unfolding create_key
  create_key-until_revoked raw_key name role tenant_id actor by w row given h =
      by_stage (stage_key sha256 w "api_key.create" actor row0) refl h
    where
      row0 : ApiKeyRow
      row0 = key_row sha256 w raw_key name role tenant_id

      by_stage :
          (r : Result Db)
          → stage_key sha256 w "api_key.create" actor row0 ≡ r
          → (stored_key sha256 w row0 r).0 ≡ ok row
          → PrincipalOf row (validate_key sha256 raw_key (stored_key sha256 w row0 r).1).0
            × ((validate_key sha256 raw_key
                  (revoke_key sha256 row.id none by (stored_key sha256 w row0 r).1).1).0
                ≡ none)
      by_stage (err e) staged k = cc
      by_stage (ok db2) staged k =
          let w2 : World = record w { db = db2; drawn = w.drawn + 2 } in
          let (db, a) = stage_key-Added w "api_key.create" actor row0 db2 staged in
          let own = key_row-hash w raw_key name role tenant_id in
          let accepted = key_row-accepted w raw_key name role tenant_id in
          rw (sym (ok-inj k)) (
            validate_key-once raw_key row0 db w2 given own accepted a,
            ap (λ (r : Bool × World). (validate_key sha256 raw_key r.1).0)
                  (revoke_key-own row0.id by row0 w2 a.stored)
                ∙ revoked-none raw_key row0.id by row0 w2 given accepted a.stored
                    (accepted_once (hash_of sha256 raw_key) row0 db db2 own accepted a),
          )
