-- ===== src/Scheduler/Rounds.antt =====
-- src/orchestrator/scheduler.py: proofs on one round of the loop.
use autonomous_ai_job_oreche.Prelude.{
  ℕ, ◌+◌, count, bit, min, Bool, Option, none, some, List, [], ◌∷◌, ◌≡◌, refl, ap, ◌∙◌, ◌⊎◌, inl,
  inr, All, All-get_elem?, get_elem?-below, length, leb, str_eq, Bool-cases,
}
use autonomous_ai_job_oreche.Services.{Env}
use autonomous_ai_job_oreche.Job.{Job, running}
use autonomous_ai_job_oreche.Db.{JobRow, Db, get_job_row, job_rows}
use autonomous_ai_job_oreche.Stream.Effects.{enqueue_command}
use autonomous_ai_job_oreche.World.{World, Result, ok, err, validation_error}
use autonomous_ai_job_oreche.Manager.{job_of_row}
use autonomous_ai_job_oreche.Manager.Lifecycle.{update_job_status, with_status}
use autonomous_ai_job_oreche.Manager.Lifecycle.Effects.{
  RowChanged, status_entry, update_job_status-RowChanged,
}
use autonomous_ai_job_oreche.Manager.Lifecycle.Retry.{enqueue_job-after_command}
use autonomous_ai_job_oreche.Manager.Failure.Decision.{OnlyJob}
use autonomous_ai_job_oreche.Agent.{max_jobs_input}
use autonomous_ai_job_oreche.Scheduler.{
  select_by_edf, runnable_jobs, selected_of, choose, agent_choice, job_at, selected_job, dispatch,
  scheduler_round,
}
use autonomous_ai_job_oreche.Scheduler.Edf.{select_by_edf-first}
use autonomous_ai_job_oreche.Scheduler.Ready.{
  RowsById, ReadyRow, Ready, runnable_jobs-Ready, runnable_jobs-raises,
}

module _ ⦃env : Env⦄ where
  -- What is chosen from a list of at least one job stands in it, whatever the agent answers.
  choose-in_range :
      (agent : List Job → ℕ → Option ℕ) (job : Job) (others : List Job)
      → (chosen : Job) × (job_at agent (job ∷ others) (choose agent (job ∷ others)) ≡ some chosen)
  unfolding choose
  choose-in_range agent job others = elim (Bool-cases (str_eq env.settings.scheduler_mode "ai")) [
    | inl ai ↦ rw ai (by_agent (agent (job ∷ others) (min (length (job ∷ others)) max_jobs_input)))
    | inr heuristic ↦ rw heuristic by_deadline
  ]
    where
      by_deadline :
          (chosen : Job) × (job_at agent (job ∷ others) (select_by_edf (job ∷ others))
            ≡ some chosen)
      by_deadline =
          let (i, chosen, e, there, _, _) = select_by_edf-first job others in
          (chosen, ap (job_at agent (job ∷ others)) e ∙ there)

      by_agent :
          (answer : Option ℕ)
          → (chosen : Job) × (job_at agent (job ∷ others) (agent_choice agent (job ∷ others) answer)
              ≡ some chosen)
      by_agent none = by_deadline
      by_agent (some i) = elim (Bool-cases (leb (length (job ∷ others)) i)) [
        | inl outside ↦ rw outside by_deadline
        | inr inside ↦ rw inside (get_elem?-below (job ∷ others) i inside)
      ]

  job_at-Ready :
      (agent : List Job → ℕ → Option ℕ) (P : Job → Type 0) (jobs : List Job) (o : Option ℕ)
      (job : Job)
      → All P jobs
      → job_at agent jobs o ≡ some job
      → P job
  job_at-Ready agent P jobs none job h e = absurd (none_some e)
    where
      none_some : none ≡ some job → ⊥
      none_some e = cc
  job_at-Ready agent P jobs (some i) job h e = All-get_elem? P jobs i job h e

  -- The row `old` becomes RUNNING under the worker "queued", is enqueued, and nothing else happens.
  unfoldable pub Dispatched : World → World → JobRow → Type 0
  Dispatched w w1 old =
      OnlyJob w w1 old (with_status w.now running (some "queued") old)
      × (w1.sent ≡ enqueue_command old.id ∷ w.sent)
      × ((p : JobRow → Bool)
          → count p (job_rows w1.db) + bit (p old)
            ≡ bit (p (with_status w.now running (some "queued") old)) + count p (job_rows w.db))

  dispatch-Dispatched :
      (agent : List Job → ℕ → Option ℕ) (w : World) (job : Job) (old : JobRow)
      → job ≡ job_of_row w.db old
      → get_job_row old.id w.db ≡ some old
      → Dispatched w (dispatch agent job w) old
  unfolding Dispatched dispatch job_of_row
  dispatch-Dispatched agent w job old same there =
      rw
        (
          ap (λ (j : Job). j.id) same,
          enqueue_job-after_command old.id (update_job_status old.id running (some "queued") w).1,
        )
        (
          λ k. changed.rows_after k,
          ap (λ s. enqueue_command old.id ∷ s) changed.nothing_sent,
          λ p. changed.rows_counted p,
        )
    where
      changed :
          RowChanged w
            (update_job_status old.id running (some "queued") w).1
            old
            (with_status w.now running (some "queued") old)
            (status_entry w running (some "queued") old)
      changed = (update_job_status-RowChanged old.id running (some "queued") w old there).0

  ready_there : (db : Db) (old : JobRow) → ReadyRow db old → get_job_row old.id db ≡ some old
  unfolding ReadyRow
  ready_there db old ready = ready.0

  abbrev pub dispatched_or : (List Job → ℕ → Option ℕ) → World → Option Job → World
  dispatched_or agent w none = w
  dispatched_or agent w (some job) = dispatch agent job w

  pub round-of_selected :
      (agent : List Job → ℕ → Option ℕ) (w : World) (o : Option Job)
      → selected_job agent w ≡ o
      → scheduler_round agent w ≡ dispatched_or agent w o
  unfolding scheduler_round
  round-of_selected agent w none e = rw (e, scheduler_round)
  round-of_selected agent w (some job) e = rw (e, scheduler_round)

  -- No job is selected: none is runnable, or the list raises.
  abbrev pub Idle : Result (List Job) → Type 0
  Idle (ok []) = Unit
  Idle (ok (job ∷ jobs)) = ⊥
  Idle (err e) = e ≡ validation_error

  selected_of-Idle :
      (agent : List Job → ℕ → Option ℕ) (r : Result (List Job))
      → Idle r
      → selected_of agent r ≡ none
  selected_of-Idle agent (ok []) idle = nothing (choose agent [])
    where
      nothing : (o : Option ℕ) → job_at agent [] o ≡ none
      nothing none = refl
      nothing (some i) = refl
  selected_of-Idle agent (ok (job ∷ jobs)) idle = absurd idle
  selected_of-Idle agent (err e) idle = refl

  pub round-Idle :
      (agent : List Job → ℕ → Option ℕ) (w : World)
      → Idle (runnable_jobs w)
      → scheduler_round agent w ≡ w
  unfolding selected_job
  round-Idle agent w idle =
      round-of_selected agent w none (selected_of-Idle agent (runnable_jobs w) idle)

  selected_job-of :
      (agent : List Job → ℕ → Option ℕ) (w : World) (jobs : List Job) (o : Option Job)
      → runnable_jobs w ≡ ok jobs
      → job_at agent jobs (choose agent jobs) ≡ o
      → selected_job agent w ≡ o
  unfolding selected_job
  selected_job-of agent w jobs o e picked = ap (selected_of agent) e ∙ picked

  -- One round of the scheduler, with any agent: if reading the jobs raises, as `Job` refuses a row, or
  -- none of the listed jobs is runnable, then nothing changes; otherwise one job, which is PENDING and
  -- has all its dependencies met, becomes RUNNING and is enqueued, and all others stay as they were.
  -- The rows are those that their ids find.
  pub scheduler_round-Dispatched :
      (agent : List Job → ℕ → Option ℕ) (w : World)
      → RowsById w.db
      → (((runnable_jobs w ≡ ok []) ⊎ (runnable_jobs w ≡ err validation_error))
          × (scheduler_round agent w ≡ w))
        ⊎ ((old : JobRow) × ReadyRow w.db old × Dispatched w (scheduler_round agent w) old)
  scheduler_round-Dispatched agent w by_id = by_jobs (runnable_jobs w) refl
    where
      by_jobs :
          (r : Result (List Job))
          → runnable_jobs w ≡ r
          → (((runnable_jobs w ≡ ok []) ⊎ (runnable_jobs w ≡ err validation_error))
              × (scheduler_round agent w ≡ w))
            ⊎ ((old : JobRow) × ReadyRow w.db old × Dispatched w (scheduler_round agent w) old)
      by_jobs (err x) e =
          let refused = runnable_jobs-raises w x e in
          inl (inr refused, round-Idle agent w (rw refused refl))
      by_jobs (ok []) e = inl (inl e, round-Idle agent w (rw e tt))
      by_jobs (ok (job ∷ others)) e =
          let (chosen, picked) = choose-in_range agent job others in
          let selected = selected_job-of agent w (job ∷ others) (some chosen) e picked in
          let (old, same, ready) =
            job_at-Ready agent (Ready w.db) (job ∷ others) (choose agent (job ∷ others)) chosen
              (runnable_jobs-Ready w (job ∷ others) by_id e) picked in
          inr (
            old,
            ready,
            rw (round-of_selected agent w (some chosen) selected)
                (dispatch-Dispatched agent w chosen old same (ready_there w.db old ready)),
          )
