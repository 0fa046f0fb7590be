-- ===== src/Manager/Queries/Pages.antt =====
-- src/orchestrator/job_manager.py: proofs on the pages of a list.
use autonomous_ai_job_oreche.Prelude.{
  ℕ, suc, ◌+◌, ◌*◌, ◌≤◌, String, Bool, true, false, ◌&&◌, Option, none, some, List, [], ◌∷◌, ◌≡◌,
  refl, sym, ap, ◌∙◌, arith, map, filter, take, drop, length, leb, All, All-filter_test, All-filter,
  count, All-take, All-drop, All-map, All-mono, length-take, length-drop, length-filter, length-map,
  ◌-◌, truthy, eq_iff, if◌then◌else◌, is_some, or_else, given, Bool-cases, inl, inr, min,
}
use autonomous_ai_job_oreche.Services.{Env}
use autonomous_ai_job_oreche.Job.{Job, JobStatus, status_eq, status_eq-eq}
use autonomous_ai_job_oreche.Db.{JobRow, Db, job_rows}
use autonomous_ai_job_oreche.Stream
use autonomous_ai_job_oreche.Stream.{DlqEntry}
use autonomous_ai_job_oreche.World.{World, Result, ok, err, ok-inj, >>=-eq-ok, ◌>>=◌}
use autonomous_ai_job_oreche.Manager.{job_of_row, valid_row, to_models, get_job}
use autonomous_ai_job_oreche.Manager.Models.{to_models-map, to_models-valid}
use autonomous_ai_job_oreche.Manager.Queries.{
  job_matches, listed_before, insert_listed, sort_listed, list_jobs, keep_dlq, list_dlq,
  visible_items, page_of,
}

module _ ⦃env : Env⦄ where
  pub All-insert_listed {κ} :
      (P : JobRow → Type κ) (r : JobRow) (rs : List JobRow)
      → P r
      → All P rs
      → All P (insert_listed r rs)
  unfolding insert_listed
  All-insert_listed P r [] h hs = (h, tt)
  All-insert_listed P r (x ∷ xs) h (k, ks) = elim (Bool-cases (listed_before r x)) [
    | inl first ↦ rw first (h, (k, ks))
    | inr later ↦ rw later (k, All-insert_listed P r xs h ks)
  ]

  pub All-sort_listed {κ} :
      (P : JobRow → Type κ) (rs : List JobRow) → All P rs → All P (sort_listed rs)
  unfolding sort_listed
  All-sort_listed P [] h = tt
  All-sort_listed P (r ∷ rs) (h, hs) =
      All-insert_listed P r (sort_listed rs) h (All-sort_listed P rs hs)

  pub All-page_of {κ} :
      (P : JobRow → Type κ) (status : Option JobStatus) (limit offset : ℕ)
      (tenant_id : Option String) (db : Db)
      → All P (filter (job_matches status tenant_id) (job_rows db))
      → All P (page_of status limit offset tenant_id db)
  All-page_of P status limit offset tenant_id db h =
      All-take P limit _ (All-drop P offset _ (All-sort_listed P _ h))

  -- A page that is returned has the jobs of its rows, and the number of all rows that match.
  pub list_jobs-rows :
      (status : Option JobStatus) (limit offset : ℕ) (tenant_id : Option String) (db : Db)
      (page : List Job × ℕ)
      → list_jobs status limit offset tenant_id db ≡ ok page
      → (page.0 ≡ map (job_of_row db) (page_of status limit offset tenant_id db))
        × (page.1 ≡ count (job_matches status tenant_id) (job_rows db))
  unfolding list_jobs
  list_jobs-rows status limit offset tenant_id db page h =
      let (jobs, made, same) =
        >>=-eq-ok (to_models db (page_of status limit offset tenant_id db)) _ page h in
      let pair = sym (ok-inj same) in
      (
        ap (λ p. p.0) pair ∙ to_models-map db (page_of status limit offset tenant_id db) jobs made,
        ap (λ p. p.1) pair,
      )

  -- What holds of all rows that match holds of the jobs of each page.
  pub All-list_jobs {κ} :
      (P : Job → Type κ) (status : Option JobStatus) (limit offset : ℕ) (tenant_id : Option String)
      (db : Db) (page : List Job × ℕ)
      → list_jobs status limit offset tenant_id db ≡ ok page
      → All (λ r. P (job_of_row db r)) (filter (job_matches status tenant_id) (job_rows db))
      → All P page.0
  All-list_jobs P status limit offset tenant_id db page e h =
      rw (list_jobs-rows status limit offset tenant_id db page e).0 (
        All-map P (job_of_row db) _
          (All-page_of (λ r. P (job_of_row db r)) status limit offset tenant_id db h))

  length-insert_listed :
      (r : JobRow) (rs : List JobRow) → length (insert_listed r rs) ≡ 1 + length rs
  unfolding insert_listed
  length-insert_listed r [] = refl
  length-insert_listed r (x ∷ xs) = ground (arith, length-insert_listed r xs)

  pub length-sort_listed : (rs : List JobRow) → length (sort_listed rs) ≡ length rs
  unfolding sort_listed
  length-sort_listed [] = refl
  length-sort_listed (r ∷ rs) =
      omega (arith, length-insert_listed r (sort_listed rs), length-sort_listed rs)

  -- The job is one that the filters ask for.
  pub Asked : Option JobStatus → Option String → Job → Type 0
  Asked status tenant_id job =
      ((s : JobStatus) → status ≡ some s → job.status ≡ s)
      × ((t : String) → tenant_id ≡ some t → truthy t ≡ true → job.tenant_id ≡ some t)

  and_true : (a b : Bool) → (a && b) ≡ true → a ≡ true
  and_true true b h = refl
  and_true false b h = cc

  some_inj {ℓ} : {A : Type ℓ} {a b : A} → some a ≡ some b → a ≡ b
  some_inj e = cc

  job_matches-Asked :
      (status : Option JobStatus) (tenant_id : Option String) (db : Db) (r : JobRow)
      → job_matches status tenant_id r ≡ true
      → Asked status tenant_id (job_of_row db r)
  unfolding Asked job_of_row
  job_matches-Asked status tenant_id db r h = by_filters status tenant_id h
    where
      by_filters :
          (status : Option JobStatus) (tenant_id : Option String)
          → job_matches status tenant_id r ≡ true
          → ((s : JobStatus) → status ≡ some s → r.status ≡ s)
            × ((t : String) → tenant_id ≡ some t → truthy t ≡ true → some r.tenant_id ≡ some t)
      by_filters none none h = (λ s e. ground arith, λ t e given. ground arith)
      by_filters none (some x) h =
          (λ s e. ground arith, λ t e given. ground (arith, eq_iff r.tenant_id x))
      by_filters (some y) none h = (
        λ s e. status_eq-eq r.status y (and_true (status_eq r.status y) _ h) ∙ some_inj e,
        λ t e given. ground arith,
      )
      by_filters (some y) (some x) h = (
        λ s e. status_eq-eq r.status y (and_true (status_eq r.status y) _ h) ∙ some_inj e,
        λ t e given. ground (arith, eq_iff r.tenant_id x),
      )

  -- A page that `list_jobs` returns holds as many of the jobs counted in the total as lie behind the offset, at
  -- most the limit, and each has the status and belongs to the tenant that the call asked for. It
  -- returns one if `Job` accepts all rows of the table.
  pub list_jobs-page :
      (status : Option JobStatus) (limit offset : ℕ) (tenant_id : Option String) (db : Db)
      → ((items : List Job) (total : ℕ)
          → list_jobs status limit offset tenant_id db ≡ ok (items, total)
          → (length items ≡ min limit (total - offset)) × All (Asked status tenant_id) items)
        × (All (λ r. valid_row db r ≡ true) (job_rows db)
            → (page : List Job × ℕ) × (list_jobs status limit offset tenant_id db ≡ ok page))
  unfolding list_jobs
  list_jobs-page status limit offset tenant_id db = (
    λ items total e.
        let (made, counted) = list_jobs-rows status limit offset tenant_id db (items, total) e in
        (
          omega (
            arith,
            ap length made,
            counted,
            length-map (job_of_row db) (take limit (drop offset sorted)),
            length-take limit (drop offset sorted),
            length-drop offset sorted,
            length-sort_listed matching,
            length-filter (job_matches status tenant_id) (job_rows db),
          ),
          All-list_jobs (Asked status tenant_id) status limit offset tenant_id db (items, total) e
              (All-mono (λ r. job_matches status tenant_id r ≡ true)
                (λ r. Asked status tenant_id (job_of_row db r)) matching
                (job_matches-Asked status tenant_id db)
                (All-filter_test (job_matches status tenant_id) (job_rows db))),
        ),
    λ valid. (
      _,
      ap (λ r. r >>= (λ jobs. ok (jobs, count (job_matches status tenant_id) (job_rows db))))
          (to_models-valid db (page_of status limit offset tenant_id db) (
            All-page_of (λ r. valid_row db r ≡ true) status limit offset tenant_id db
              (All-filter (λ r. valid_row db r ≡ true) (job_matches status tenant_id) (job_rows db)
                valid))),
    ),
  )
    where
      matching : List JobRow
      matching = filter (job_matches status tenant_id) (job_rows db)

      sorted : List JobRow
      sorted = sort_listed matching

  -- The job of a dead letter is one of the tenant.
  pub DlqVisible : Db → String → DlqEntry → Type 0
  DlqVisible db tenant_id item =
      is_some (get_job db (or_else item.job_id "") (some tenant_id)) ≡ true

  keep_dlq-page :
      (db : Db) (tenant_id : String) (limit kept : ℕ) (items : List DlqEntry)
      → suc kept ≤ limit
      → (length (keep_dlq db tenant_id limit kept items) + kept ≤ limit)
        × All (DlqVisible db tenant_id) (keep_dlq db tenant_id limit kept items)
  unfolding keep_dlq DlqVisible
  keep_dlq-page db tenant_id limit kept [] h = (omega (arith, h), tt)
  keep_dlq-page db tenant_id limit kept (item ∷ items) h =
      elim (Bool-cases (is_some (get_job db (or_else item.job_id "") (some tenant_id)))) [
        | inl seen ↦ elim (Bool-cases (leb limit (kept + 1))) [
          | inl full ↦ rw (seen, full) (omega (arith, h), (seen, tt))
          | inr room ↦
              let (short, all_seen) =
                keep_dlq-page db tenant_id limit (kept + 1) items (has_room limit kept room) in
              rw (seen, room) (omega (arith, short), (seen, all_seen))
        ]
        | inr unseen ↦
            rw (unseen, below limit kept h) (keep_dlq-page db tenant_id limit kept items h)
      ]
    where
      has_room : (limit kept : ℕ) → leb limit (kept + 1) ≡ false → suc (kept + 1) ≤ limit
      has_room limit kept e = ground arith

      below : (limit kept : ℕ) → suc kept ≤ limit → leb limit kept ≡ false
      below limit kept h = ground arith

  -- What `list_dlq` returns with a limit of at least one has at most that many items, and for a tenant
  -- (with an id that is not empty) each is of a job of this tenant.
  pub list_dlq-page :
      (limit : ℕ) (tenant_id : Option String) (w : World) (items : List DlqEntry)
      → 1 ≤ limit
      → (list_dlq limit tenant_id w).0 ≡ ok items
      → (length items ≤ limit)
        × ((t : String) → tenant_id ≡ some t → truthy t ≡ true → All (DlqVisible w.db t) items)
  unfolding list_dlq
  list_dlq-page limit tenant_id w items h e =
      of_items tenant_id (Stream.list_dlq (if given tenant_id then limit * 10 else limit) w) e
    where
      take_short : (xs : List DlqEntry) → length (take limit xs) ≤ limit
      take_short xs = omega (arith, length-take limit xs)

      of_items :
          (tenant_id : Option String) (r : Result (List DlqEntry) × World)
          → (visible_items w.db limit tenant_id r).0 ≡ ok items
          → (length items ≤ limit)
            × ((t : String) → tenant_id ≡ some t → truthy t ≡ true → All (DlqVisible w.db t) items)
      of_items none (ok xs, w1) e = (rw (sym (ok-inj e)) (take_short xs), λ t none_some. cc)
      of_items (some x) (ok xs, w1) e = elim (Bool-cases (truthy x)) [
        | inl given ↦
            let (short, all_seen) = keep_dlq-page w.db x limit 0 xs h in
            rw (sym (ok-inj e), given)
              (omega (arith, short), λ t same _. rw (sym (some_inj same)) all_seen)
        | inr empty ↦ rw (sym (ok-inj e), empty) (take_short xs, λ t same given. cc)
      ]
      of_items none (err x, w1) e = cc
      of_items (some y) (err x, w1) e = cc
