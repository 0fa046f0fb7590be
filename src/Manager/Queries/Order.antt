-- ===== src/Manager/Queries/Order.antt =====
-- src/orchestrator/job_manager.py: proofs on the order of the jobs in a list.
use autonomous_ai_job_oreche.Prelude.{
  ℕ, zero, suc, ◌≤◌, String, Bool, true, false, ◌||◌, ◌&&◌, Option, List, [], ◌∷◌, ◌≡◌, arith, map,
  filter, take, drop, ltb, ◌==◌, All, All-take, All-map, All-mono, Bool-cases, inl, inr,
}
use autonomous_ai_job_oreche.Services.{Env}
use autonomous_ai_job_oreche.Job.{Job, JobStatus}
use autonomous_ai_job_oreche.Db.{JobRow, Db, job_rows}
use autonomous_ai_job_oreche.Manager.{job_of_row}
use autonomous_ai_job_oreche.Manager.Queries.{
  job_matches, listed_before, insert_listed, sort_listed, list_jobs,
}
use autonomous_ai_job_oreche.Manager.Queries.Pages.{All-insert_listed, list_jobs-rows}
use autonomous_ai_job_oreche.World.{ok}

module _ {ℓ} {A : Type ℓ} (moment : A → ℕ) where
  -- Each element is at most as late as those after it.
  abbrev pub Ascending : List A → Type ℓ
  Ascending [] = Unit
  Ascending (x ∷ xs) = All (λ y. moment x ≤ moment y) xs × Ascending xs

  Ascending-take : (n : ℕ) (xs : List A) → Ascending xs → Ascending (take n xs)
  Ascending-take zero xs h = tt
  Ascending-take (suc n) [] h = tt
  Ascending-take (suc n) (x ∷ xs) (h, hs) = (All-take _ n xs h, Ascending-take n xs hs)

  Ascending-drop : (n : ℕ) (xs : List A) → Ascending xs → Ascending (drop n xs)
  Ascending-drop zero xs h = h
  Ascending-drop (suc n) [] h = tt
  Ascending-drop (suc n) (x ∷ xs) (h, hs) = Ascending-drop n xs hs

Ascending-map {ℓ κ} :
    {A : Type ℓ} {B : Type κ} (moment : B → ℕ) (f : A → B) (xs : List A)
    → Ascending (λ a. moment (f a)) xs
    → Ascending moment (map f xs)
Ascending-map moment f [] h = tt
Ascending-map moment f (x ∷ xs) (h, hs) =
    (All-map (λ b. moment (f x) ≤ moment b) f xs h, Ascending-map moment f xs hs)

-- The first comparison of two rows, whatever the second one says.
before-le : (a b : ℕ) (second : Bool) → (ltb a b || (a == b && second)) ≡ true → a ≤ b
before-le a b second h = ground arith

not_before-le : (a b : ℕ) (second : Bool) → (ltb a b || (a == b && second)) ≡ false → b ≤ a
not_before-le a b second h = ground arith

le_trans : (a b c : ℕ) → a ≤ b → b ≤ c → a ≤ c
le_trans a b c h k = omega arith

module _ ⦃env : Env⦄ where
  insert_listed-Ascending :
      (r : JobRow) (rs : List JobRow)
      → Ascending (λ x. x.created_at) rs
      → Ascending (λ x. x.created_at) (insert_listed r rs)
  unfolding insert_listed
  insert_listed-Ascending r [] h = (tt, tt)
  insert_listed-Ascending r (x ∷ xs) (h, hs) = elim (Bool-cases (listed_before r x)) [
    | inl first ↦
        let earlier = before-le r.created_at x.created_at (env.text_le r.id x.id) first in
        rw first (
          (
            earlier,
            All-mono (λ y. x.created_at ≤ y.created_at) (λ y. r.created_at ≤ y.created_at) xs
                (λ y. le_trans r.created_at x.created_at y.created_at earlier) h,
          ),
          (h, hs),
        )
    | inr later ↦ rw later (
      All-insert_listed (λ y. x.created_at ≤ y.created_at) r xs
          (not_before-le r.created_at x.created_at (env.text_le r.id x.id) later) h,
      insert_listed-Ascending r xs hs,
    )
  ]

  sort_listed-Ascending : (rs : List JobRow) → Ascending (λ x. x.created_at) (sort_listed rs)
  unfolding sort_listed
  sort_listed-Ascending [] = tt
  sort_listed-Ascending (r ∷ rs) =
      insert_listed-Ascending r (sort_listed rs) (sort_listed-Ascending rs)

  -- Each job of a page that list_jobs returns was created no later than those after it.
  pub list_jobs-Ascending :
      (status : Option JobStatus) (limit offset : ℕ) (tenant_id : Option String) (db : Db)
      (page : List Job × ℕ)
      → list_jobs status limit offset tenant_id db ≡ ok page
      → Ascending (λ (j : Job). j.created_at) page.0
  unfolding job_of_row
  list_jobs-Ascending status limit offset tenant_id db page e =
      let rows = sort_listed (filter (job_matches status tenant_id) (job_rows db)) in
      rw (list_jobs-rows status limit offset tenant_id db page e).0 (
        Ascending-map (λ (j : Job). j.created_at) (job_of_row db) (take limit (drop offset rows))
          (Ascending-take (λ x. x.created_at) limit (drop offset rows)
            (Ascending-drop (λ x. x.created_at) offset rows
              (sort_listed-Ascending (filter (job_matches status tenant_id) (job_rows db))))))
