-- ===== src/Manager/Create/Idempotent.antt =====
-- src/orchestrator/job_manager.py: proofs on `create_job` with an idempotency key.
use autonomous_ai_job_oreche.Prelude.{
  ◌+◌, String, Bool, true, false, not, ◌&&◌, Option, none, some, List, ◌≡◌, refl, sym, ap, ◌∙◌, ◌⊎◌,
  arith, truthy, given, str_eq, eq_iff, count, find, bit, find_passes, count_of_found, count_mono,
  count-zero_of_find, Bool-cases, Option-cases, inl, inr,
}
use autonomous_ai_job_oreche.Services.{Env}
use autonomous_ai_job_oreche.Job.{JobCreate, Job, new_job}
use autonomous_ai_job_oreche.Db.{
  TenantRow, JobRow, Db, get_tenant, job_rows, same_idempotency_key, opt_text_eq,
}
use autonomous_ai_job_oreche.Db.Inserts.{JobAdded}
use autonomous_ai_job_oreche.World.{World, Result, ok, err, integrity_error, ok-inj}
use autonomous_ai_job_oreche.Manager.{job_of_row}
use autonomous_ai_job_oreche.Manager.Create.{
  check_and_insert, Staged, existing, inserted, job_row, find_idempotent, stage_job, create_job,
  finish_create, existing_or_new,
}
use autonomous_ai_job_oreche.Manager.Create.Steps.{insert_job-JobAdded}
use autonomous_ai_job_oreche.Manager.Create.Outcome.{
  Admitted, stage_job-Admitted, stage_job-known, check_and_insert-not-existing, job-after_commit,
  db-after_commit,
}

and_left : (a b : Bool) → (a && b) ≡ true → a ≡ true
and_left a b h = ground arith

bit_and_false : (a : Bool) → bit (a && false) ≡ 0
bit_and_false a = ground arith

-- The only row that passes the test is the one that was added.
only_added :
    (p : JobRow → Bool) (r found : JobRow) (old new : List JobRow)
    → count p old ≡ 0
    → ((q : JobRow → Bool) → count q new ≡ bit (q r) + count q old)
    → find p new ≡ some found
    → found.id ≡ r.id
only_added p r found old new none_before added h = elim (Bool-cases (str_eq found.id r.id)) [
  | inl same ↦ (eq_iff found.id r.id).0 same
  | inr other ↦ absurd (clash other)
]
  where
    q : JobRow → Bool
    q x = p x && not (str_eq x.id r.id)

    clash : str_eq found.id r.id ≡ false → ⊥
    clash other = omega (
      arith,
      count_of_found p q new found h (rw (find_passes p new found h, other)),
      added q,
      count_mono q p old (λ a e. and_left (p a) (not (str_eq a.id r.id)) e),
      none_before,
      no_bit,
    )
      where
        no_bit : bit (q r) ≡ 0
        no_bit = rw ((eq_iff r.id r.id).1 refl) (bit_and_false (p r))

own_key :
    (tid : String) (k : Option String) → given k ≡ true → (str_eq tid tid && opt_text_eq k k) ≡ true
own_key tid none h = cc
own_key tid (some s) h = rw ((eq_iff tid tid).1 refl, (eq_iff s s).1 refl)

module _ ⦃env : Env⦄ where
  -- A key that is known gives the job that has it, and changes nothing.
  create_job-existing :
      (c : JobCreate) (tid : String) (w : World) (t : TenantRow) (row : JobRow)
      → truthy tid ≡ true
      → get_tenant tid w.db ≡ some t
      → find_idempotent tid c.idempotency_key w.db ≡ some row
      → create_job c tid w ≡ (ok (job_of_row w.db row), w)
  unfolding create_job new_job
  create_job-existing c tid w t row given known found = ap (finish_create c tid w) (
      stage_job-known w tid t (new_job (env.uuid w.drawn) w.now c) given known
      ∙ ap (existing_or_new w tid (new_job (env.uuid w.drawn) w.now c) w.db) found)

  -- After the transaction that added a row with the key, the key finds a row with its id.
  found_after :
      (w : World) (tid : String) (job : Job) (db1 : Db) (row : JobRow)
      → given job.idempotency_key ≡ true
      → Admitted w tid job db1 row
      → (found : JobRow) × (find_idempotent tid job.idempotency_key db1 ≡ some found)
        × (found.id ≡ row.id)
  unfolding find_idempotent job_row
  found_after w tid job db1 row key a = elim (Option-cases (find p (job_rows db1))) [
    | inl nothing ↦ absurd (
        omega (
          arith,
          count-zero_of_find p (job_rows db1) nothing,
          added.counted p,
          ap bit (own_key tid job.idempotency_key key),
        ))
    | inr (found, e) ↦ (
      found,
      rw key e,
      only_added p (job_row tid job) found (job_rows w.db) (job_rows db1) added.unused_key
            added.counted e
          ∙ ap (λ (r : JobRow). r.id) (sym a.the_row),
    )
  ]
    where
      added : JobAdded (job_row tid job) w.db db1
      added = insert_job-JobAdded w tid job w.db db1 a.added

      p : JobRow → Bool
      p = same_idempotency_key tid job.idempotency_key

  is_new :
      (c : JobCreate) (tid : String) (w : World) (t : TenantRow)
      → truthy tid ≡ true
      → get_tenant tid w.db ≡ some t
      → find_idempotent tid c.idempotency_key w.db ≡ none
      → stage_job w tid (new_job (env.uuid w.drawn) w.now c)
        ≡ check_and_insert w tid (new_job (env.uuid w.drawn) w.now c) w.db
  unfolding new_job
  is_new c tid w t given known fresh =
      stage_job-known w tid t (new_job (env.uuid w.drawn) w.now c) given known
      ∙ ap (existing_or_new w tid (new_job (env.uuid w.drawn) w.now c) w.db) fresh

  -- Of the tenant's jobs the one with this id has the key.
  abbrev pub KeyHeld : String → Option String → String → Db → Type 0
  KeyHeld tid key id db = (row : JobRow) × (find_idempotent tid key db ≡ some row) × (row.id ≡ id)

  -- `finish_create` returned a job: the transaction found one, or added one.
  held_after :
      (c : JobCreate) (tid : String) (w : World) (t : TenantRow) (j : Job) (r : Result Staged)
      → truthy tid ≡ true
      → get_tenant tid w.db ≡ some t
      → given c.idempotency_key ≡ true
      → find_idempotent tid c.idempotency_key w.db ≡ none
      → stage_job w tid (new_job (env.uuid w.drawn) w.now c) ≡ r
      → (finish_create c tid w r).0 ≡ ok j
      → KeyHeld tid c.idempotency_key j.id (finish_create c tid w r).1.db
  unfolding job_of_row new_job
  held_after c tid w t j (ok (existing db row)) given known key fresh staged h = absurd (
      check_and_insert-not-existing w tid (new_job (env.uuid w.drawn) w.now c) w.db db row
        (sym (is_new c tid w t given known fresh) ∙ staged))
  held_after c tid w t j (ok (inserted db row)) given known key fresh staged h =
      let a = stage_job-Admitted w tid t job db row given known staged in
      let (found, e, same_id) = found_after w tid job db row key a in
      (
        found,
        ap (find_idempotent tid c.idempotency_key)
              (db-after_commit c.enqueue tid (job_of_row db row) w0)
            ∙ e,
        same_id
            ∙ sym (
                ap (λ (x : Job). x.id) (job-after_commit c.enqueue tid (job_of_row db row) j w0 h)),
      )
    where
      job : Job
      job = new_job (env.uuid w.drawn) w.now c

      w0 : World
      w0 = record w { db = db; drawn = w.drawn + 2 }
  held_after c tid w t j (err integrity_error) given known key fresh staged h =
      let e = rw fresh at h in cc
  held_after c tid w t j (err e) given known key fresh staged h = cc

  -- A key that is held already still is, by the job that is returned.
  still_held :
      (c : JobCreate) (tid : String) (w : World) (row : JobRow) (j : Job)
      → find_idempotent tid c.idempotency_key w.db ≡ some row
      → create_job c tid w ≡ (ok (job_of_row w.db row), w)
      → (create_job c tid w).0 ≡ ok j
      → KeyHeld tid c.idempotency_key j.id (create_job c tid w).1.db
  unfolding job_of_row
  still_held c tid w row j found e h = (
    row,
    ap (λ (x : Result Job × World). find_idempotent tid c.idempotency_key x.1.db) e ∙ found,
    ap (λ (x : Job). x.id) (ok-inj (sym (ap (λ x. x.0) e) ∙ h)),
  )

  -- If `create_job` returned a job for a request with an idempotency key, of a tenant that exists,
  -- then this job holds the key. And in every later state in which the tenant exists and the job still
  -- holds the key, whatever else has happened, a request of the tenant with this key gets a job with
  -- the same id, and changes nothing, whatever else it asks for.
  pub create_job-idempotent :
      (c c2 : JobCreate) (tid : String) (w w2 : World) (t t2 : TenantRow) (j : Job)
      → truthy tid ≡ true
      → get_tenant tid w.db ≡ some t
      → given c.idempotency_key ≡ true
      → c2.idempotency_key ≡ c.idempotency_key
      → (create_job c tid w).0 ≡ ok j
      → get_tenant tid w2.db ≡ some t2
      → KeyHeld tid c.idempotency_key j.id w2.db
      → KeyHeld tid c.idempotency_key j.id (create_job c tid w).1.db
        × (j2 : Job) × (create_job c2 tid w2 ≡ (ok j2, w2))
        × (j2.id ≡ j.id)
  unfolding job_of_row
  create_job-idempotent c c2 tid w w2 t t2 j given known key same h known2 (row2, found2, same_id) =
      (
        held (Option-cases (find_idempotent tid c.idempotency_key w.db)),
        job_of_row w2.db row2,
        create_job-existing c2 tid w2 t2 row2 given known2
            (ap (λ k. find_idempotent tid k w2.db) same ∙ found2),
        same_id,
      )
    where
      held :
          (find_idempotent tid c.idempotency_key w.db ≡ none)
            ⊎ ((row : JobRow) × (find_idempotent tid c.idempotency_key w.db ≡ some row))
          → KeyHeld tid c.idempotency_key j.id (create_job c tid w).1.db
      held (inl fresh) = unfold create_job in held_after c tid w t j _ given known key fresh refl h
      held (inr (row, found)) =
          still_held c tid w row j found (create_job-existing c tid w t row given known found) h
