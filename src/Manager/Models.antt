-- ===== src/Manager/Models.antt =====
-- src/orchestrator/job_manager.py: lemmas on `_to_model`, which raises where `Job` refuses a row.
use autonomous_ai_job_oreche.Prelude.{
  true, false, List, [], ◌∷◌, map, ◌≡◌, refl, sym, ap, ◌∙◌, All, Bool-cases, inl, inr,
}
use autonomous_ai_job_oreche.Services.{Env}
use autonomous_ai_job_oreche.Job.{Job}
use autonomous_ai_job_oreche.Db.{JobRow, Db}
use autonomous_ai_job_oreche.World.{
  Result, ok, err, Error, validation_error, ok-inj, >>=-eq-ok, ◌>>=◌,
}
use autonomous_ai_job_oreche.Manager.{valid_row, job_of_row, to_model, to_models}

err_inj {ℓ} : {A : Type ℓ} {x e : Error} → ◌≡◌ {A = Result A} (err x) (err e) → x ≡ e
err_inj h = cc

module _ ⦃env : Env⦄ where
  pub to_model-valid :
      (db : Db) (row : JobRow) → valid_row db row ≡ true → to_model db row ≡ ok (job_of_row db row)
  unfolding to_model
  to_model-valid db row h = rw (h, to_model)

  pub to_model-invalid :
      (db : Db) (row : JobRow) → valid_row db row ≡ false → to_model db row ≡ err validation_error
  unfolding to_model
  to_model-invalid db row h = rw (h, to_model)

  to_model-eq-ok :
      (db : Db) (row : JobRow) (job : Job) → to_model db row ≡ ok job → job ≡ job_of_row db row
  to_model-eq-ok db row job h = elim (Bool-cases (valid_row db row)) [
    | inl valid ↦ ok-inj (sym h ∙ to_model-valid db row valid)
    | inr invalid ↦ let e = sym h ∙ to_model-invalid db row invalid in cc
  ]

  to_model-err :
      (db : Db) (row : JobRow) (e : Error) → to_model db row ≡ err e → e ≡ validation_error
  to_model-err db row e h = elim (Bool-cases (valid_row db row)) [
    | inl valid ↦ let same = sym h ∙ to_model-valid db row valid in cc
    | inr invalid ↦ let same = sym h ∙ to_model-invalid db row invalid in cc
  ]

  -- If no row raises, there is one job for each, in their order.
  pub to_models-map :
      (db : Db) (rows : List JobRow) (jobs : List Job)
      → to_models db rows ≡ ok jobs
      → jobs ≡ map (job_of_row db) rows
  unfolding to_models
  to_models-map db [] jobs h = sym (ok-inj h)
  to_models-map db (row ∷ rows) jobs h =
      let (job, first, rest) = >>=-eq-ok (to_model db row) _ jobs h in
      let (js, others, last) = >>=-eq-ok (to_models db rows) _ jobs rest in
      sym (ok-inj last)
      ∙ (ap (λ j. j ∷ js) (to_model-eq-ok db row job first)
          ∙ ap (λ x. job_of_row db row ∷ x) (to_models-map db rows js others))

  -- No row raises that the validators accept.
  pub to_models-valid :
      (db : Db) (rows : List JobRow)
      → All (λ r. valid_row db r ≡ true) rows
      → to_models db rows ≡ ok (map (job_of_row db) rows)
  unfolding to_models
  to_models-valid db [] h = refl
  to_models-valid db (row ∷ rows) (h, hs) = rw (to_model-valid db row h, to_models-valid db rows hs)

  pub to_models-err :
      (db : Db) (rows : List JobRow) (e : Error) → to_models db rows ≡ err e → e ≡ validation_error
  unfolding to_models
  to_models-err db [] e h = cc
  to_models-err db (row ∷ rows) e h =
      by_first (λ others. to_models-err db rows e others) (to_model db row) refl h
    where
      by_rest :
          (to_models db rows ≡ err e → e ≡ validation_error)
          → (j : Job) (r : Result (List Job)) → to_models db rows ≡ r
          → (r >>= (λ js. ok (j ∷ js))) ≡ err e
          → e ≡ validation_error
      by_rest others j (ok js) same h = cc
      by_rest others j (err x) same h = others (same ∙ h)

      by_first :
          (to_models db rows ≡ err e → e ≡ validation_error)
          → (r : Result Job) → to_model db row ≡ r
          → (r >>= (λ j. to_models db rows >>= (λ js. ok (j ∷ js)))) ≡ err e
          → e ≡ validation_error
      by_first others (ok j) same h = by_rest others j (to_models db rows) refl h
      by_first others (err x) same h = to_model-err db row e (same ∙ ap err (err_inj h))
