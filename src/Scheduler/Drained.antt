-- ===== src/Scheduler/Drained.antt =====
-- src/orchestrator/scheduler.py: proofs on a scheduler that finds no job to run.
use autonomous_ai_job_oreche.Prelude.{
  ℕ, zero, suc, ◌≤◌, Bool, true, false, none, List, [], ◌∷◌, ◌≡◌, refl, sym, ap, ◌∙◌, arith, map,
  filter, take, length, All, Bool-cases, inl, inr,
}
use mathlib.Core.Path.{subst}
use autonomous_ai_job_oreche.Services.{Env}
use autonomous_ai_job_oreche.Job.{Job, pending, status_eq}
use autonomous_ai_job_oreche.Db.{JobRow, Db, job_rows}
use autonomous_ai_job_oreche.World.{World, ok, >>=-eq-ok}
use autonomous_ai_job_oreche.Manager.{job_of_row, are_dependencies_met}
use autonomous_ai_job_oreche.Manager.Queries.{
  job_matches, listed_before, insert_listed, sort_listed, page_of, list_jobs,
}
use autonomous_ai_job_oreche.Manager.Queries.Pages.{length-sort_listed, list_jobs-rows}
use autonomous_ai_job_oreche.Scheduler.{runnable_jobs}
use autonomous_ai_job_oreche.Scheduler.Ready.{runnable_or_raise-ok}

-- If two filters in turn keep nothing, what passes the first fails the second.
filter-filter-none {ℓ} :
    {A : Type ℓ} (p q : A → Bool) (xs : List A)
    → filter p (filter q xs) ≡ []
    → All (λ x. q x ≡ true → p x ≡ false) xs
filter-filter-none p q [] h = tt
filter-filter-none p q (x ∷ xs) h = elim (Bool-cases (q x)) [
  | inl asked ↦ elim (Bool-cases (p x)) [
    | inl passes ↦ let e = rw (asked, passes) at h in cc
    | inr fails ↦ (λ _. fails, filter-filter-none p q xs (rw (asked, fails) at h))
  ]
  | inr other ↦
      (λ asked. let e = sym other ∙ asked in cc, filter-filter-none p q xs (rw other at h))
]

take-long {ℓ} : {A : Type ℓ} (n : ℕ) (xs : List A) → length xs ≤ n → take n xs ≡ xs
take-long zero [] h = refl
take-long zero (x ∷ xs) h = absurd (omega (arith, h))
take-long (suc n) [] h = refl
take-long (suc n) (x ∷ xs) h = ap (λ ys. x ∷ ys) (take-long n xs (omega (arith, h)))

All-of_map {ℓ κ ι} :
    {A : Type ℓ} {B : Type κ} (P : B → Type ι) (f : A → B) (xs : List A)
    → All P (map f xs)
    → All (λ x. P (f x)) xs
All-of_map P f [] h = tt
All-of_map P f (x ∷ xs) (h, hs) = (h, All-of_map P f xs hs)

module _ ⦃env : Env⦄ where
  All-of_insert_listed {ℓ} :
      (P : JobRow → Type ℓ) (r : JobRow) (rs : List JobRow)
      → All P (insert_listed r rs)
      → P r × All P rs
  unfolding insert_listed
  All-of_insert_listed P r [] h = h
  All-of_insert_listed P r (x ∷ xs) h = elim (Bool-cases (listed_before r x)) [
    | inl first ↦ rw first at h
    | inr later ↦
        let (hx, hs) : P x × All P (insert_listed r xs) = rw later at h in
        let (hr, rest) = All-of_insert_listed P r xs hs in (hr, (hx, rest))
  ]

  All-of_sort_listed {ℓ} :
      (P : JobRow → Type ℓ) (rs : List JobRow) → All P (sort_listed rs) → All P rs
  unfolding sort_listed
  All-of_sort_listed P [] h = tt
  All-of_sort_listed P (r ∷ rs) h =
      let (hr, hs) = All-of_insert_listed P r (sort_listed rs) h in (hr, All-of_sort_listed P rs hs)

  no_filters : (rows : List JobRow) → filter (job_matches none none) rows ≡ rows
  no_filters [] = refl
  no_filters (r ∷ rows) = ap (λ rs. r ∷ rs) (no_filters rows)

  -- A page of so many rows that all have room has all of them.
  page_of-all :
      (db : Db)
      → length (job_rows db) ≤ 10_000
      → page_of none 10_000 0 none db ≡ sort_listed (job_rows db)
  page_of-all db short =
      ap (λ rows. take 10_000 (sort_listed rows)) (no_filters (job_rows db))
      ∙ take-long 10_000 (sort_listed (job_rows db))
          (omega (arith, short, length-sort_listed (job_rows db)))

  -- No job of the table is PENDING with all its dependencies completed.
  unfoldable pub NothingReady : Db → Type 0
  NothingReady db =
      All
        (λ (r : JobRow).
          status_eq r.status pending ≡ true
          → are_dependencies_met db (job_of_row db r) none ≡ false)
        (job_rows db)

  pub runnable_jobs-NothingReady :
      (w : World) → length (job_rows w.db) ≤ 10_000 → runnable_jobs w ≡ ok [] → NothingReady w.db
  unfolding runnable_jobs NothingReady job_of_row
  runnable_jobs-NothingReady w short idle =
      let (page, listed, none_left) = >>=-eq-ok (list_jobs none 10_000 0 none w.db) _ [] idle in
      let rows = (list_jobs-rows none 10_000 0 none w.db page listed).0 in
      let fails =
        filter-filter-none met is_pending page.0
          (sym (runnable_or_raise-ok w page.0 [] none_left)) in
      All-of_sort_listed (λ r. Fails (job_of_row w.db r)) (job_rows w.db)
        (All-of_map Fails (job_of_row w.db) (sort_listed (job_rows w.db))
          (subst (All Fails) (rows ∙ ap (map (job_of_row w.db)) (page_of-all w.db short)) fails))
    where
      is_pending : Job → Bool
      is_pending j = status_eq j.status pending

      met : Job → Bool
      met j = are_dependencies_met w.db j none

      Fails : Job → Type 0
      Fails j = is_pending j ≡ true → met j ≡ false
