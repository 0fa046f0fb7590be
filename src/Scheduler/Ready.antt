-- ===== src/Scheduler/Ready.antt =====
-- src/orchestrator/scheduler.py: proofs on the jobs that are runnable.
use autonomous_ai_job_oreche.Prelude.{
  ℕ, count, Bool, true, none, some, List, ◌≡◌, refl, sym, ap, ◌∙◌, inl, inr, any, filter, All,
  All-filter, All-filter_test, All-both, All-mono, Bool-cases,
}
use autonomous_ai_job_oreche.Services.{Env}
use autonomous_ai_job_oreche.Job.{Job, pending, status_eq, status_eq-eq}
use autonomous_ai_job_oreche.Db.{JobRow, Db, get_job_row, job_rows}
use autonomous_ai_job_oreche.World.{
  World, ok, err, Error, validation_error, ok-inj, Result-cases, >>=-eq-ok, ◌>>=◌,
}
use autonomous_ai_job_oreche.Manager.Models.{to_models-err}
use autonomous_ai_job_oreche.Manager.{
  job_of_row, to_models, are_dependencies_met, dependencies_refused,
}
use autonomous_ai_job_oreche.Manager.Queries.{list_jobs, job_matches, page_of}
use autonomous_ai_job_oreche.Manager.Queries.Pages.{All-list_jobs}
use autonomous_ai_job_oreche.Scheduler.{runnable_of, runnable_or_raise, runnable_jobs}

module _ ⦃env : Env⦄ where
  -- Each row of the table of jobs is the one that its id finds.
  unfoldable pub RowsById : Db → Type 0
  RowsById db = All (λ (r : JobRow). get_job_row r.id db ≡ some r) (job_rows db)

  abbrev Known : Db → Job → Type 0
  Known db job = (old : JobRow) × (job ≡ job_of_row db old) × (get_job_row old.id db ≡ some old)

  -- The row is in the table, PENDING, and its dependencies are met.
  unfoldable pub ReadyRow : Db → JobRow → Type 0
  ReadyRow db old =
      (get_job_row old.id db ≡ some old)
      × (old.status ≡ pending)
      × (are_dependencies_met db (job_of_row db old) none ≡ true)

  abbrev pub Ready : Db → Job → Type 0
  Ready db job = (old : JobRow) × (job ≡ job_of_row db old) × ReadyRow db old

  runnable_of-Ready :
      (w : World) (jobs : List Job) → All (Known w.db) jobs → All (Ready w.db) (runnable_of w jobs)
  unfolding ReadyRow job_of_row
  runnable_of-Ready w jobs known =
      All-mono (λ j. Known w.db j × ((is_pending j ≡ true) × (met j ≡ true))) (Ready w.db)
        (runnable_of w jobs)
        (λ j h. (
          h.0.0,
          h.0.1,
          (
            h.0.2,
            status_eq-eq _ pending (ap is_pending (sym h.0.1) ∙ h.1.0),
            ap met (sym h.0.1) ∙ h.1.1,
          ),
        ))
        (All-both (Known w.db) (λ j. (is_pending j ≡ true) × (met j ≡ true)) (runnable_of w jobs)
          (All-filter (Known w.db) met _ (All-filter (Known w.db) is_pending jobs known))
          (All-both (λ j. is_pending j ≡ true) (λ j. met j ≡ true) (runnable_of w jobs)
            (All-filter (λ j. is_pending j ≡ true) met _ (All-filter_test is_pending jobs))
            (All-filter_test met _)))
    where
      is_pending : Job → Bool
      is_pending j = status_eq j.status pending

      met : Job → Bool
      met j = are_dependencies_met w.db j none

  list_jobs-Known :
      (w : World) (page : List Job × ℕ)
      → RowsById w.db
      → list_jobs none 10_000 0 none w.db ≡ ok page
      → All (Known w.db) page.0
  unfolding RowsById
  list_jobs-Known w page by_id e = All-list_jobs (Known w.db) none 10_000 0 none w.db page e (
      All-filter (λ r. Known w.db (job_of_row w.db r)) (job_matches none none) (job_rows w.db)
        (All-mono (λ (r : JobRow). get_job_row r.id w.db ≡ some r)
          (λ r. Known w.db (job_of_row w.db r)) (job_rows w.db) (λ r h. (r, refl, h)) by_id))

  -- What is runnable, if reading the parents does not raise.
  pub runnable_or_raise-ok :
      (w : World) (jobs runnable : List Job)
      → runnable_or_raise w jobs ≡ ok runnable
      → runnable ≡ runnable_of w jobs
  runnable_or_raise-ok w jobs runnable h =
      elim (Bool-cases (
        any (λ (j : Job). dependencies_refused w.db j none)
          (filter (λ (j : Job). status_eq j.status pending) jobs))) [
            | inl refused ↦ let e = rw refused at h in cc
            | inr read ↦ ok-inj (sym (rw read at h))
          ]

  pub runnable_jobs-Ready :
      (w : World) (jobs : List Job)
      → RowsById w.db
      → runnable_jobs w ≡ ok jobs
      → All (Ready w.db) jobs
  unfolding runnable_jobs
  runnable_jobs-Ready w jobs by_id e =
      let (page, listed, same) = >>=-eq-ok (list_jobs none 10_000 0 none w.db) _ jobs e in
      rw (runnable_or_raise-ok w page.0 jobs same)
        (runnable_of-Ready w page.0 (list_jobs-Known w page by_id listed))

  -- What a round raises before it selects a job.
  pub runnable_jobs-raises :
      (w : World) (e : Error) → runnable_jobs w ≡ err e → runnable_jobs w ≡ err validation_error
  unfolding runnable_jobs list_jobs
  runnable_jobs-raises w e h =
      elim (Result-cases (to_models w.db (page_of none 10_000 0 none w.db))) [
        | inl (x, raised) ↦
            ap
              (λ r.
                (r >>= (λ items. ok (items, count (job_matches none none) (job_rows w.db))))
                >>= (λ (p : List Job × ℕ). runnable_or_raise w p.0))
              (raised ∙ ap err (to_models-err w.db (page_of none 10_000 0 none w.db) x raised))
        | inr (jobs, made) ↦
            rw made
              (elim (Bool-cases (
                any (λ (j : Job). dependencies_refused w.db j none)
                  (filter (λ (j : Job). status_eq j.status pending) jobs))) [
                    | inl refused ↦ rw refused refl
                    | inr read ↦ let x = rw (made, read) at h in cc
                  ])
      ]
