-- ===== src/Scheduler/Valid.antt =====
-- src/orchestrator/scheduler.py: proofs on rows that `Job` accepts, which no round makes invalid.
use autonomous_ai_job_oreche.Prelude.{
  ℕ, String, Bool, true, false, not, ◌&&◌, none, Option-cases, Option, some, List, [], ◌∷◌, any,
  filter, ◌≡◌, refl, sym, ap, ◌∙◌, inl, inr, All, All-mono, count, find, str_eq, arith, Bool-cases,
  if◌then◌else◌,
}
use mathlib.Core.Path.{subst}
use autonomous_ai_job_oreche.Services.{Env}
use autonomous_ai_job_oreche.Job.{Job, pending, running, status_eq}
use autonomous_ai_job_oreche.Db.{
  JobRow, Db, get_job_row, job_rows, dependency_rows, save_job, add_audit_row,
}
use autonomous_ai_job_oreche.World.{World, ok, err, validation_error, ◌>>=◌}
use autonomous_ai_job_oreche.Manager.{
  valid_row, job_of_row, dependencies_for_job, audit, find_job_row, parents_refused,
  dependencies_refused,
}
use autonomous_ai_job_oreche.Manager.Visible.{find_job_row-stored}
use autonomous_ai_job_oreche.Manager.Queries.Pages.{list_jobs-page}
use autonomous_ai_job_oreche.Manager.Lifecycle.Retry.{enqueue_job-after_command}
use autonomous_ai_job_oreche.Manager.Lifecycle.{with_status, update_job_status, change_status}
use autonomous_ai_job_oreche.Scheduler.{
  runnable_of, runnable_or_raise, selected_job, dispatch, runnable_jobs, scheduler_round,
}
use autonomous_ai_job_oreche.Scheduler.Rounds.{dispatched_or, round-of_selected, Dispatched}

pub none_passes :
    (p : JobRow → Bool) (rows : List JobRow) → count p rows ≡ 0 → All (λ r. p r ≡ false) rows
none_passes p [] h = tt
none_passes p (r ∷ rows) h = (ground arith, none_passes p rows (ground arith))

count-none :
    (p : JobRow → Bool) (rows : List JobRow) → All (λ r. p r ≡ false) rows → count p rows ≡ 0
count-none p [] h = refl
count-none p (r ∷ rows) (h, hs) = rw h (omega (arith, count-none p rows hs))

some-inj {ℓ} : {A : Type ℓ} {a b : A} → some a ≡ some b → a ≡ b
some-inj e = cc

All-find {ℓ κ} :
    {A : Type ℓ} (P : A → Type κ) (p : A → Bool) (xs : List A) (a : A)
    → All P xs
    → find p xs ≡ some a
    → P a
All-find P p [] a h e = cc
All-find P p (x ∷ xs) a (h, hs) e = elim (Bool-cases (p x)) [
  | inl passes ↦ subst P (some-inj (rw passes at e)) h
  | inr fails ↦ All-find P p xs a hs (rw fails at e)
]

any-none {ℓ} :
    {A : Type ℓ} (p : A → Bool) (xs : List A) → ((a : A) → p a ≡ false) → any p xs ≡ false
any-none p [] h = refl
any-none p (x ∷ xs) h = rw (h x, any-none p xs h) refl

and-false : (a b : Bool) → b ≡ false → (a && b) ≡ false
and-false a b h = ground arith

not-not : (b : Bool) → not b ≡ false → b ≡ true
not-not true h = refl
not-not false h = cc

module _ ⦃env : Env⦄ where
  -- `Job` accepts all rows of the table of jobs, with their dependencies.
  unfoldable pub ValidRows : Db → Type 0
  ValidRows db = All (λ r. valid_row db r ≡ true) (job_rows db)

  stored-valid :
      (db : Db) (id : String) (row : JobRow)
      → ValidRows db
      → get_job_row id db ≡ some row
      → valid_row db row ≡ true
  unfolding ValidRows get_job_row job_rows
  stored-valid db id row valid there =
      All-find (λ r. valid_row db r ≡ true) (λ r. str_eq r.id id) (job_rows db) row valid
        (sym (env.get_row_query JobRow (λ x. x.id) id db.jobs) ∙ there)

  parents_refused-valid :
      (db : Db) (tid : String) (parents : List String)
      → ValidRows db
      → parents_refused db tid parents ≡ false
  unfolding parents_refused
  parents_refused-valid db tid [] valid = refl
  parents_refused-valid db tid (p ∷ ps) valid = elim (Option-cases (find_job_row db p (some tid))) [
    | inl e ↦ rw (e, parents_refused) refl
    | inr (row, e) ↦
        rw
          (
            e,
            parents_refused,
            stored-valid db p row valid (find_job_row-stored db p (some tid) row e),
          )
          (and-false _ _ (parents_refused-valid db tid ps valid))
  ]

  pub runnable_jobs-returns :
      (w : World) → ValidRows w.db → (jobs : List Job) × (runnable_jobs w ≡ ok jobs)
  unfolding runnable_jobs ValidRows dependencies_refused
  runnable_jobs-returns w valid =
      let (page, e) = (list_jobs-page none 10_000 0 none w.db).1 valid in
      let read =
        any-none (λ (j : Job). dependencies_refused w.db j none)
          (filter (λ (j : Job). status_eq j.status pending) page.0)
          (λ j. parents_refused-valid w.db _ j.dependencies valid) in
      (
        runnable_of w page.0,
        ap (λ r. r >>= (λ (p : List Job × ℕ). runnable_or_raise w p.0)) e
            ∙ ap (λ b. if b then err validation_error else ok (runnable_of w page.0)) read,
      )

  -- The validators see of the tables only the dependencies.
  valid_row-kept :
      (a b : Db) (row : JobRow)
      → dependency_rows b ≡ dependency_rows a
      → valid_row b row ≡ valid_row a row
  unfolding valid_row job_of_row dependencies_for_job
  valid_row-kept a b row e = rw e refl

  pub dependencies-round :
      (agent : List Job → ℕ → Option ℕ) (w : World)
      → dependency_rows (scheduler_round agent w).db ≡ dependency_rows w.db
  unfolding dispatch update_job_status change_status audit save_job add_audit_row dependency_rows
  dependencies-round agent w =
      ap (λ (x : World). dependency_rows x.db)
        (round-of_selected agent w (selected_job agent w) refl)
      ∙ of_selected (selected_job agent w)
    where
      of_update :
          (id : String)
          → dependency_rows (update_job_status id running (some "queued") w).1.db
            ≡ dependency_rows w.db
      of_update id = elim (Option-cases (get_job_row id w.db)) [
        | inl e ↦ rw (e, update_job_status) refl
        | inr (old, e) ↦ rw (e, update_job_status) refl
      ]

      of_selected :
          (o : Option Job) → dependency_rows (dispatched_or agent w o).db ≡ dependency_rows w.db
      of_selected none = refl
      of_selected (some job) =
          ap (λ (x : World). dependency_rows x.db)
            (enqueue_job-after_command job.id
              (update_job_status job.id running (some "queued") w).1)
          ∙ of_update job.id

  pub Dispatched-ValidRows :
      (w w1 : World) (old : JobRow)
      → dependency_rows w1.db ≡ dependency_rows w.db
      → ValidRows w.db
      → Dispatched w w1 old
      → ValidRows w1.db
  unfolding ValidRows Dispatched with_status valid_row job_of_row
  Dispatched-ValidRows w w1 old kept valid (rows, sent, counts) =
      All-mono (λ r. refused r ≡ false) (λ r. valid_row w1.db r ≡ true) (job_rows w1.db)
        (λ r accepted. valid_row-kept w.db w1.db r kept ∙ not-not (valid_row w.db r) accepted)
        (none_passes refused (job_rows w1.db) (
          omega (
            arith,
            counts refused,
            count-none refused (job_rows w.db) (
                All-mono (λ r. valid_row w.db r ≡ true) (λ r. refused r ≡ false) (job_rows w.db)
                  (λ r e. ap not e) valid),
          )))
    where
      refused : JobRow → Bool
      refused r = not (valid_row w.db r)
