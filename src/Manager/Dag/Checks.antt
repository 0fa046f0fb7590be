-- ===== src/Manager/Dag/Checks.antt =====
-- src/orchestrator/job_manager.py: lemmas on the checks of a batch of jobs.
use autonomous_ai_job_oreche.Prelude.{
  ℕ, suc, String, true, false, ◌||◌, some, List, [], ◌∷◌, ◌≡◌, refl, ap, arith, length, All,
  contains, str_eq, eq_iff, Bool-cases, inl, inr,
}
use autonomous_ai_job_oreche.Services.{Env}
use autonomous_ai_job_oreche.Job.{DagJobCreate}
use autonomous_ai_job_oreche.World.{
  ok, err, duplicate_dag_keys, unknown_dag_dependency, >>=-eq-ok, raise_if, raise_if-eq-ok,
}
use autonomous_ai_job_oreche.Manager.Dag.{
  keys_of, has_duplicates, check_known, check_dependencies, check_dag, dag_rows, id_of_key,
}

-- Every dependency of the node is one of the keys.
pub DependsOnKeys : List String → DagJobCreate → Type 0
DependsOnKeys keys n = All (λ dep. contains dep keys ≡ true) n.depends_on

check_known-All :
    (keys deps : List String) (u : Unit {0})
    → check_known keys deps ≡ ok u
    → All (λ dep. contains dep keys ≡ true) deps
unfolding check_known
check_known-All keys [] u h = tt
check_known-All keys (dep ∷ deps) u h = elim (Bool-cases (contains dep keys)) [
  | inl known ↦ (known, check_known-All keys deps u (rw known at h))
  | inr unknown ↦ absurd (raised (rw unknown at h))
]
  where
    raised : err (unknown_dag_dependency dep) ≡ ok u → ⊥
    raised e = cc

check_dependencies-All :
    (keys : List String) (nodes : List DagJobCreate) (u : Unit {0})
    → check_dependencies keys nodes ≡ ok u
    → All (DependsOnKeys keys) nodes
unfolding check_dependencies DependsOnKeys
check_dependencies-All keys [] u h = tt
check_dependencies-All keys (n ∷ ns) u h =
    let (v, known, rest) =
      >>=-eq-ok (check_known keys n.depends_on) (λ _. check_dependencies keys ns) u h in
    (check_known-All keys n.depends_on v known, check_dependencies-All keys ns u rest)

-- The keys are all different, and each dependency is one of them.
pub WellKeyed : List DagJobCreate → Type 0
WellKeyed nodes =
    (has_duplicates (keys_of nodes) ≡ false) × All (DependsOnKeys (keys_of nodes)) nodes

pub check_dag-WellKeyed :
    (nodes : List DagJobCreate) (u : Unit {0}) → check_dag nodes ≡ ok u → WellKeyed nodes
unfolding check_dag WellKeyed
check_dag-WellKeyed nodes u h =
    let (v, unique, rest) =
      >>=-eq-ok (raise_if (has_duplicates (keys_of nodes)) duplicate_dag_keys)
        (λ _. check_dependencies (keys_of nodes) nodes) u h in
    (
      raise_if-eq-ok (has_duplicates (keys_of nodes)) duplicate_dag_keys v unique,
      check_dependencies-All (keys_of nodes) nodes u rest,
    )

module _ ⦃env : Env⦄ where
  -- A key of the batch has an id among the rows that are drawn for it.
  id_of_key-drawn :
      (tid key : String) (now drawn : ℕ) (nodes : List DagJobCreate)
      → contains key (keys_of nodes) ≡ true
      → (id : String) × (id_of_key key (dag_rows tid now drawn nodes) ≡ some id)
  unfolding id_of_key dag_rows contains
  id_of_key-drawn tid key now drawn [] h = absurd (nothing h)
    where
      nothing : false ≡ true → ⊥
      nothing e = cc
  id_of_key-drawn tid key now drawn (n ∷ ns) h = elim (Bool-cases (str_eq n.key key)) [
    | inl own ↦ rw own (env.uuid drawn, refl)
    | inr other ↦ rw other (id_of_key-drawn tid key now (suc drawn) ns (later n.key key other h))
  ]
    where
      later :
          (k key : String)
          → str_eq k key ≡ false
          → (str_eq key k || contains key (keys_of ns)) ≡ true
          → contains key (keys_of ns) ≡ true
      later k key other h = ground (arith, eq_iff k key, eq_iff key k)

  pub length-dag_rows :
      (tid : String) (now drawn : ℕ) (nodes : List DagJobCreate)
      → length (dag_rows tid now drawn nodes) ≡ length nodes
  unfolding dag_rows
  length-dag_rows tid now drawn [] = refl
  length-dag_rows tid now drawn (n ∷ ns) = ap suc (length-dag_rows tid now (suc drawn) ns)
