-- ===== src/Scheduler/Progress.antt =====
-- src/orchestrator/scheduler.py: proofs on many rounds of the loop.
use autonomous_ai_job_oreche.Prelude.{
  ℕ, suc, ◌+◌, ◌≤◌, String, Bool, true, false, Option, some, List, [], ◌∷◌, ◌≡◌, refl, sym, ap, ◌∙◌,
  ◌⊎◌, inl, inr, All, All-mono, All-both, length, count, bit, find, str_eq, eq_iff, arith,
}
use mathlib.Core.Path.{subst}
use autonomous_ai_job_oreche.Services.{Env}
use autonomous_ai_job_oreche.Job.{pending, status_eq}
use autonomous_ai_job_oreche.Db.{JobRow, Db, get_job_row, job_rows}
use autonomous_ai_job_oreche.World.{World, ok}
use autonomous_ai_job_oreche.Job.{Job}
use autonomous_ai_job_oreche.Manager.Lifecycle.{with_status}
use autonomous_ai_job_oreche.Scheduler.{runnable_jobs, pause, scheduler_round, run}
use autonomous_ai_job_oreche.Scheduler.Valid.{
  none_passes, ValidRows, runnable_jobs-returns, dependencies-round, Dispatched-ValidRows,
}
use autonomous_ai_job_oreche.Scheduler.Drained.{NothingReady, runnable_jobs-NothingReady}
use autonomous_ai_job_oreche.Scheduler.Ready.{RowsById, ReadyRow}
use autonomous_ai_job_oreche.Scheduler.Rounds.{Dispatched, scheduler_round-Dispatched, round-Idle}

abbrev id_is : String → JobRow → Bool
id_is k r = str_eq r.id k

abbrev is_pending : JobRow → Bool
is_pending r = status_eq r.status pending

count-every : (rows : List JobRow) → count (λ r. true) rows ≡ length rows
count-every [] = refl
count-every (r ∷ rows) = omega (arith, count-every rows)

-- If no id stands twice in a list, then each row is the first with its id.
found_by_id :
    (rows : List JobRow)
    → ((k : String) → count (id_is k) rows ≤ 1)
    → All (λ r. find (id_is r.id) rows ≡ some r) rows
found_by_id [] u = tt
found_by_id (x ∷ rows) u = (
  ground (arith, eq_iff x.id x.id),
  All-mono (λ r. (id_is x.id r ≡ false) × (find (id_is r.id) rows ≡ some r))
      (λ r. find (id_is r.id) (x ∷ rows) ≡ some r) rows
      (λ r h. ground (arith, h.0, h.1, eq_iff x.id r.id, eq_iff r.id x.id))
      (All-both (λ r. id_is x.id r ≡ false) (λ r. find (id_is r.id) rows ≡ some r) rows
        (none_passes (id_is x.id) rows (ground (arith, u x.id, eq_iff x.id x.id)))
        (found_by_id rows (λ k. omega (arith, u k)))),
)

module _ ⦃env : Env⦄ where
  -- The ids are a primary key of the table of jobs.
  unfoldable pub UniqueIds : Db → Type 0
  UniqueIds db = (k : String) → count (id_is k) (job_rows db) ≤ 1

  abbrev pub pendings : World → ℕ
  pendings w = count is_pending (job_rows w.db)

  UniqueIds-RowsById : (db : Db) → UniqueIds db → RowsById db
  unfolding UniqueIds RowsById get_job_row job_rows
  UniqueIds-RowsById db u =
      All-mono (λ r. find (id_is r.id) (job_rows db) ≡ some r)
        (λ (r : JobRow). get_job_row r.id db ≡ some r) (job_rows db)
        (λ r found. env.get_row_query JobRow (λ x. x.id) r.id db.jobs ∙ found)
        (found_by_id (job_rows db) u)

  -- A round that dispatches a job leaves one PENDING row less, and sends one command.
  Dispatched-progress :
      (w w1 : World) (old : JobRow)
      → UniqueIds w.db
      → ReadyRow w.db old
      → Dispatched w w1 old
      → UniqueIds w1.db
        × (suc (pendings w1) ≡ pendings w)
        × (length w1.sent ≡ suc (length w.sent))
        × (length (job_rows w1.db) ≡ length (job_rows w.db))
  unfolding UniqueIds ReadyRow Dispatched with_status
  Dispatched-progress w w1 old u ready (rows, sent, counts) = (
    λ k. omega (arith, u k, counts (id_is k)),
    omega (arith, counts is_pending, ap (λ s. bit (status_eq s pending)) ready.1),
    ap length sent,
    omega (arith, counts (λ r. true), count-every (job_rows w1.db), count-every (job_rows w.db)),
  )

  module _ (agent : List Job → ℕ → Option ℕ) where
    -- A round changes nothing, as no job is runnable, or makes progress.
    round-progress :
        (w : World)
        → UniqueIds w.db
        → ValidRows w.db
        → ((runnable_jobs w ≡ ok []) × (scheduler_round agent w ≡ w))
          ⊎ (UniqueIds (scheduler_round agent w).db
              × ValidRows (scheduler_round agent w).db
              × (suc (pendings (scheduler_round agent w)) ≡ pendings w)
              × (length (scheduler_round agent w).sent ≡ suc (length w.sent))
              × (length (job_rows (scheduler_round agent w).db) ≡ length (job_rows w.db)))
    round-progress w u v = elim (scheduler_round-Dispatched agent w (UniqueIds-RowsById w.db u)) [
      | inl (inl idle, same) ↦ inl (idle, same)
      | inl (inr refused, same) ↦
          let (jobs, returned) = runnable_jobs-returns w v in
          let clash = sym returned ∙ refused in cc
      | inr (old, ready, dispatched) ↦
          let (unique, fewer, sent, as_many) =
            Dispatched-progress w (scheduler_round agent w) old u ready dispatched in
          inr (
            unique,
            Dispatched-ValidRows w (scheduler_round agent w) old (dependencies-round agent w) v
                dispatched,
            fewer,
            sent,
            as_many,
          )
    ]

    abbrev Drained : World → World → Type 0
    Drained w w1 =
        (runnable_jobs w1 ≡ ok [])
        × (length w1.sent + pendings w1 ≡ length w.sent + pendings w)
        × (length (job_rows w1.db) ≡ length (job_rows w.db))

    runnable_jobs-pause :
        (d : ℕ) (w : World) → runnable_jobs (record w { now = w.now + d }) ≡ runnable_jobs w
    unfolding runnable_jobs
    runnable_jobs-pause d w = refl

    idle_after :
        (d : ℕ) (ds : List ℕ) (w : World)
        → scheduler_round agent w ≡ w
        → Drained w (run agent ds (pause agent d w))
        → Drained w (run agent (d ∷ ds) w)
    unfolding run
    idle_after d ds w same drained =
        subst (λ w1. Drained w (run agent ds (pause agent d w1))) (sym same) drained

    run-Drained :
        (pauses : List ℕ) (w : World)
        → UniqueIds w.db
        → ValidRows w.db
        → (runnable_jobs w ≡ ok []) ⊎ (pendings w ≤ length pauses)
        → Drained w (run agent pauses w)
    unfolding run
    run-Drained [] w u v (inl idle) = (idle, refl, refl)
    run-Drained [] w u v (inr few) = elim (round-progress w u v) [
      | inl idle ↦ (idle.0, refl, refl)
      | inr busy ↦ absurd (omega (arith, few, busy.2))
    ]
    run-Drained (d ∷ ds) w u v (inl idle) =
        idle_after d ds w (round-Idle agent w (rw idle tt))
          (run-Drained ds (pause agent d w) u v (inl (runnable_jobs-pause d w ∙ idle)))
    run-Drained (d ∷ ds) w u v (inr few) = elim (round-progress w u v) [
      | inl idle ↦
          idle_after d ds w idle.1
            (run-Drained ds (pause agent d w) u v (inl (runnable_jobs-pause d w ∙ idle.0)))
      | inr busy ↦
          let rest =
            run-Drained ds (pause agent d (scheduler_round agent w)) busy.0 busy.1
              (inr (omega (arith, few, busy.2))) in
          (rest.0, omega (arith, rest.1, busy.2, busy.3), omega (arith, rest.2, busy.4))
    ]

    -- If the ids of the jobs are unique, `Job` accepts all rows and there are at most 10,000, then after
    -- as many rounds as there are PENDING jobs, with any pauses and whatever the agent answers, no job
    -- of the table is PENDING with all its dependencies completed, and one command was sent for each
    -- job that is PENDING no more.
    pub run-drains :
        (pauses : List ℕ) (w : World)
        → UniqueIds w.db
        → ValidRows w.db
        → length (job_rows w.db) ≤ 10_000
        → pendings w ≤ length pauses
        → NothingReady (run agent pauses w).db
          × (length (run agent pauses w).sent + pendings (run agent pauses w)
              ≡ length w.sent + pendings w)
    run-drains pauses w u v few enough =
        let (idle, sent, as_many) = run-Drained pauses w u v (inr enough) in
        (runnable_jobs-NothingReady (run agent pauses w) (omega (arith, as_many, few)) idle, sent)
