-- ===== src/Scheduler/Edf.antt =====
-- src/orchestrator/scheduler.py: proofs on the choice by earliest deadline.
use autonomous_ai_job_oreche.Prelude.{
  ℕ, suc, ◌+◌, true, false, ◌&&◌, ◌||◌, Option, none, some, List, [], ◌∷◌, ◌≡◌, refl, ap, arith,
  get_elem?, take, ◌⊎◌, ◌<◌, ◌≤◌, All, All-mono, ltb, Bool-cases, inl, inr,
}
use autonomous_ai_job_oreche.Job.{Job}
use autonomous_ai_job_oreche.Scheduler.{
  earlier, same_deadline, runs_before, min_index, select_by_edf,
}

-- The order of deadlines and priorities is transitive.
before_trans :
    (a b c : Job) → runs_before a b ≡ true → runs_before b c ≡ true → runs_before a c ≡ true
before_trans a b c h k =
    by_parts a.deadline b.deadline c.deadline a.priority b.priority c.priority h k
  where
    by_parts :
        (da db dc : Option ℕ) (pa pb pc : ℕ)
        → (earlier da db || (same_deadline da db && ltb pb pa)) ≡ true
        → (earlier db dc || (same_deadline db dc && ltb pc pb)) ≡ true
        → (earlier da dc || (same_deadline da dc && ltb pc pa)) ≡ true
    by_parts none none none pa pb pc h k = ground arith
    by_parts none none (some z) pa pb pc h k = ground arith
    by_parts none (some y) none pa pb pc h k = ground arith
    by_parts none (some y) (some z) pa pb pc h k = ground arith
    by_parts (some x) none none pa pb pc h k = ground arith
    by_parts (some x) none (some z) pa pb pc h k = ground arith
    by_parts (some x) (some y) none pa pb pc h k = ground arith
    by_parts (some x) (some y) (some z) pa pb pc h k = ground arith

-- What runs before a job runs before all that do not.
before_of_not :
    (a b c : Job) → runs_before a b ≡ true → runs_before c b ≡ false → runs_before a c ≡ true
before_of_not a b c h k =
    by_parts a.deadline b.deadline c.deadline a.priority b.priority c.priority h k
  where
    by_parts :
        (da db dc : Option ℕ) (pa pb pc : ℕ)
        → (earlier da db || (same_deadline da db && ltb pb pa)) ≡ true
        → (earlier dc db || (same_deadline dc db && ltb pb pc)) ≡ false
        → (earlier da dc || (same_deadline da dc && ltb pc pa)) ≡ true
    by_parts none none none pa pb pc h k = ground arith
    by_parts none none (some z) pa pb pc h k = ground arith
    by_parts none (some y) none pa pb pc h k = ground arith
    by_parts none (some y) (some z) pa pb pc h k = ground arith
    by_parts (some x) none none pa pb pc h k = ground arith
    by_parts (some x) none (some z) pa pb pc h k = ground arith
    by_parts (some x) (some y) none pa pb pc h k = ground arith
    by_parts (some x) (some y) (some z) pa pb pc h k = ground arith

before_asym : (a b : Job) → runs_before a b ≡ true → runs_before b a ≡ false
before_asym a b h = asym a.deadline b.deadline a.priority b.priority h
  where
    asym :
        (da db : Option ℕ) (pa pb : ℕ)
        → (earlier da db || (same_deadline da db && ltb pb pa)) ≡ true
        → (earlier db da || (same_deadline db da && ltb pa pb)) ≡ false
    asym none none pa pb h = ground arith
    asym none (some y) pa pb h = ground arith
    asym (some x) none pa pb h = ground arith
    asym (some x) (some y) pa pb h = ground arith

not_before_self : (a : Job) → runs_before a a ≡ false
not_before_self a = irreflexive a.deadline a.priority
  where
    irreflexive : (d : Option ℕ) (p : ℕ) → (earlier d d || (same_deadline d d && ltb p p)) ≡ false
    irreflexive none p = ground arith
    irreflexive (some x) p = ground arith

-- No job of the list runs before `chosen`.
NoneBefore : Job → List Job → Type 0
NoneBefore chosen jobs = All (λ j. runs_before j chosen ≡ false) jobs

-- All jobs of the list run strictly after `chosen`.
AllAfter : Job → List Job → Type 0
AllAfter chosen jobs = All (λ j. runs_before chosen j ≡ true) jobs

-- The best stays, or it is beaten by the first best of the list.
Beaten : Job → ℕ → List Job → ℕ → Type 0
Beaten best next js i =
    (k : ℕ) × (chosen : Job) × (i ≡ next + k)
    × (get_elem? js k ≡ some chosen)
    × (runs_before chosen best ≡ true)
    × NoneBefore chosen js
    × AllAfter chosen (take k js)

min_index-first :
    (best : Job) (index next : ℕ) (js : List Job)
    → ((min_index best index next js ≡ index) × NoneBefore best js)
      ⊎ Beaten best next js (min_index best index next js)
unfolding min_index NoneBefore AllAfter Beaten
min_index-first best index next [] = inl (refl, tt)
min_index-first best index next (j ∷ js) = elim (Bool-cases (runs_before j best)) [
  | inl better ↦ elim (min_index-first j next (suc next) js) [
    | inl (e, none_before) ↦
        inr (0, j, rw better (omega (arith, e)), refl, better, (not_before_self j, none_before), tt)
    | inr (k, c, e, there, before, none_before, after) ↦ inr (
      suc k,
      c,
      rw better (omega (arith, e)),
      there,
      before_trans c j best before better,
      (before_asym c j before, none_before),
      (before, after),
    )
  ]
  | inr worse ↦ elim (min_index-first best index (suc next) js) [
    | inl (e, none_before) ↦ inl (rw worse e, (worse, none_before))
    | inr (k, c, e, there, before, none_before, after) ↦
        let c_before_j = before_of_not c best j before worse in
        inr (
          suc k,
          c,
          rw worse (omega (arith, e)),
          there,
          before,
          (before_asym c j c_before_j, none_before),
          (c_before_j, after),
        )
  ]
]

-- The selected job in the order of the comparisons that the code makes.
select_by_edf-NoneBefore :
    (job : Job) (others : List Job)
    → (i : ℕ) × (chosen : Job) × (select_by_edf (job ∷ others) ≡ some i)
      × (get_elem? (job ∷ others) i ≡ some chosen)
      × NoneBefore chosen (job ∷ others)
      × AllAfter chosen (take i (job ∷ others))
unfolding select_by_edf NoneBefore AllAfter Beaten
select_by_edf-NoneBefore job others = elim (min_index-first job 0 1 others) [
  | inl (e, none_before) ↦ (0, job, ap some e, refl, (not_before_self job, none_before), tt)
  | inr (k, c, e, there, before, none_before, after) ↦ (
    suc k,
    c,
    ap some (omega (arith, e)),
    there,
    (before_asym c job before, none_before),
    (before, after),
  )
]

-- The deadline `d` with the priority `p` is at least as urgent as `e` with `q`: it is earlier, or the
-- same and the priority is no lower. No deadline is later than all.
abbrev pub AtLeast : Option ℕ → ℕ → Option ℕ → ℕ → Type 0
AtLeast (some d) p (some e) q = (d < e) ⊎ ((d ≡ e) × (q ≤ p))
AtLeast (some d) p none q = Unit
AtLeast none p (some e) q = ⊥
AtLeast none p none q = q ≤ p

abbrev pub MoreUrgent : Option ℕ → ℕ → Option ℕ → ℕ → Type 0
MoreUrgent (some d) p (some e) q = (d < e) ⊎ ((d ≡ e) × (q < p))
MoreUrgent (some d) p none q = Unit
MoreUrgent none p (some e) q = ⊥
MoreUrgent none p none q = q < p

not_before-AtLeast :
    (c j : Job) → runs_before j c ≡ false → AtLeast c.deadline c.priority j.deadline j.priority
not_before-AtLeast c j h = by_parts c.deadline j.deadline c.priority j.priority h
  where
    by_parts :
        (d e : Option ℕ) (p q : ℕ)
        → (earlier e d || (same_deadline e d && ltb p q)) ≡ false
        → AtLeast d p e q
    by_parts (some d) (some e) p q h = ground arith
    by_parts (some d) none p q h = tt
    by_parts none (some e) p q h = cc
    by_parts none none p q h = ground arith

before-MoreUrgent :
    (c j : Job) → runs_before c j ≡ true → MoreUrgent c.deadline c.priority j.deadline j.priority
before-MoreUrgent c j h = by_parts c.deadline j.deadline c.priority j.priority h
  where
    by_parts :
        (d e : Option ℕ) (p q : ℕ)
        → (earlier d e || (same_deadline d e && ltb q p)) ≡ true
        → MoreUrgent d p e q
    by_parts (some d) (some e) p q h = ground arith
    by_parts (some d) none p q h = tt
    by_parts none (some e) p q h = cc
    by_parts none none p q h = ground arith

-- From a list of at least one job `select_by_edf` selects the first of those with the earliest
-- deadline and, among them, the highest priority: no job of the list has an earlier deadline, or the
-- same one and a higher priority, and all jobs in front of it are strictly less urgent. A job without a
-- deadline comes after all that have one.
pub select_by_edf-first :
    (job : Job) (others : List Job)
    → (i : ℕ) × (chosen : Job) × (select_by_edf (job ∷ others) ≡ some i)
      × (get_elem? (job ∷ others) i ≡ some chosen)
      × All
          (λ (j : Job). AtLeast chosen.deadline chosen.priority j.deadline j.priority)
          (job ∷ others)
      × All
          (λ (j : Job). MoreUrgent chosen.deadline chosen.priority j.deadline j.priority)
          (take i (job ∷ others))
unfolding NoneBefore AllAfter
select_by_edf-first job others =
    let (i, chosen, e, there, none_before, after) = select_by_edf-NoneBefore job others in
    (
      i,
      chosen,
      e,
      there,
      All-mono (λ j. runs_before j chosen ≡ false)
          (λ j. AtLeast chosen.deadline chosen.priority j.deadline j.priority) (job ∷ others)
          (not_before-AtLeast chosen) none_before,
      All-mono (λ j. runs_before chosen j ≡ true)
          (λ j. MoreUrgent chosen.deadline chosen.priority j.deadline j.priority)
          (take i (job ∷ others)) (before-MoreUrgent chosen) after,
    )
