-- ===== src/Manager/Queries.antt =====
-- src/orchestrator/job_manager.py: the lists of jobs and of dead letters, and the executors of a job.
pub mod Pages
pub mod Order
use autonomous_ai_job_oreche.Prelude.{
  ℕ, ◌+◌, ◌*◌, String, Bool, true, ◌&&◌, ◌||◌, Option, none, some, List, [], ◌∷◌, map, filter,
  count, take, drop, ltb, leb, ◌==◌, str_eq, truthy, given, is_some, or_else, if◌then◌else◌,
}
use autonomous_ai_job_oreche.Services.{Env}
use autonomous_ai_job_oreche.Settings.{executor_allowlist}
use autonomous_ai_job_oreche.Job.{Job, JobStatus, status_eq}
use autonomous_ai_job_oreche.Db.{JobRow, Db, get_tenant, get_job_row, job_rows}
use autonomous_ai_job_oreche.Policy.{executor_allowlist_for}
use autonomous_ai_job_oreche.Stream
use autonomous_ai_job_oreche.Stream.{DlqEntry}
use autonomous_ai_job_oreche.World.{World, Result, ok, err, ◌>>=◌}
use autonomous_ai_job_oreche.Manager.{to_models, get_job}

abbrev status_matches : Option JobStatus → JobRow → Bool
status_matches none r = true
status_matches (some s) r = status_eq r.status s

abbrev tenant_matches : Option String → JobRow → Bool
tenant_matches none r = true
tenant_matches (some t) r = if truthy t then str_eq r.tenant_id t else true

-- The WHERE clauses of `list_jobs`.
abbrev pub job_matches : Option JobStatus → Option String → JobRow → Bool
job_matches status tenant_id r = status_matches status r && tenant_matches tenant_id r

module _ ⦃env : Env⦄ where
  open env use {settings, text_le}

  -- `ORDER BY created_at, id`
  abbrev pub listed_before : JobRow → JobRow → Bool
  listed_before a b =
      ltb a.created_at b.created_at || (a.created_at == b.created_at && text_le a.id b.id)

  unfoldable pub insert_listed : JobRow → List JobRow → List JobRow
  insert_listed r [] = r ∷ []
  insert_listed r (x ∷ xs) = if listed_before r x then r ∷ x ∷ xs else x ∷ insert_listed r xs

  unfoldable pub sort_listed : List JobRow → List JobRow
  unfolding insert_listed
  sort_listed [] = []
  sort_listed (r ∷ rs) = insert_listed r (sort_listed rs)

  -- The rows of a page, in their order.
  abbrev pub page_of : Option JobStatus → ℕ → ℕ → Option String → Db → List JobRow
  page_of status limit offset tenant_id db =
      take limit (drop offset (sort_listed (filter (job_matches status tenant_id) (job_rows db))))

  unfoldable pub list_jobs : Option JobStatus → ℕ → ℕ → Option String → Db → Result (List Job × ℕ)
  unfolding sort_listed
  list_jobs status limit offset tenant_id db =
      to_models db (page_of status limit offset tenant_id db)
      >>= (λ items. ok (items, count (job_matches status tenant_id) (job_rows db)))

  abbrev dlq_job_visible : Db → String → DlqEntry → Bool
  dlq_job_visible db tenant_id item = is_some (get_job db (or_else item.job_id "") (some tenant_id))

  -- The loop over the items, with the number of those that are kept so far.
  unfoldable pub keep_dlq : Db → String → ℕ → ℕ → List DlqEntry → List DlqEntry
  keep_dlq db tenant_id limit kept [] = []
  keep_dlq db tenant_id limit kept (item ∷ items) =
      let with_item = keep_dlq db tenant_id limit (kept + 1) items in
      let without_item = keep_dlq db tenant_id limit kept items in
      if dlq_job_visible db tenant_id item
      then item ∷ (if leb limit (kept + 1) then [] else with_item)
      else if leb limit kept
      then []
      else without_item

  abbrev visible_items :
      Db → ℕ → Option String → Result (List DlqEntry) × World → Result (List DlqEntry) × World
  visible_items db limit none (ok items, w) = (ok (take limit items), w)
  visible_items db limit (some t) (ok items, w) =
      (ok (if truthy t then keep_dlq db t limit 0 items else take limit items), w)
  visible_items db limit tenant_id (err e, w) = (err e, w)

  unfoldable pub list_dlq : ℕ → Option String → World → Result (List DlqEntry) × World
  unfolding keep_dlq
  list_dlq limit tenant_id w =
      visible_items w.db limit tenant_id
        (Stream.list_dlq (if given tenant_id then limit * 10 else limit) w)

  unfoldable pub get_executor_allowlist_for_job : String → Db → List String
  get_executor_allowlist_for_job job_id db = elim (get_job_row job_id db) [
    | none ↦ executor_allowlist settings
    | some row ↦ executor_allowlist_for (get_tenant row.tenant_id db)
  ]
