-- ===== src/Tests/Docker.antt =====
-- Tests on src/orchestrator/autoscaler.py with a daemon that keeps its containers in a list, and that
-- refuses a name in use.
use autonomous_ai_job_oreche.Prelude.{
  All, none, ℕ, ◌≤◌, String, Bool, true, false, not, List, [], ◌∷◌, ◌≡◌, refl, count, filter, ◌==◌,
  sym, ◌&&◌, count_mono, ◌⊎◌, inl, inr, Bool-cases, arith, eq_iff,
}
use autonomous_ai_job_oreche.Autoscaler.{Scaler, run}
use autonomous_ai_job_oreche.Autoscaler.Hysteresis.{Within, run-no_early_scale_down}
use autonomous_ai_job_oreche.Autoscaler.Docker.{
  Container, RunRequest, DockerClient, Workers, is_template, has_label, count_workers,
  docker_scaler, scale_to, template, clones, stop_all, sort_latest,
}
use autonomous_ai_job_oreche.Autoscaler.Docker.Containers.{has_id, count-filter}
use autonomous_ai_job_oreche.Autoscaler.Docker.Behaves.{Behaves, Started, tally, other}
use autonomous_ai_job_oreche.Autoscaler.Docker.Scaling.{scale_to-Scaled, scale_to-Lawful}
use autonomous_ai_job_oreche.Tests.{uuid_of, test_env}

abbrev Listed : Type 0
Listed = (cs : List Container) × ((k : String) → count (has_id k) cs ≤ 1)

abbrev container_of : RunRequest → Container
container_of r = record {
  id = r.name;
  created = "2026-02-01";
  labels = r.labels;
  image = r.image;
  environment = r.environment;
  binds = r.volumes;
  networks = r.network ∷ [];
}

with_new :
    (c : Container) (cs : List Container)
    → ((k : String) → count (has_id k) cs ≤ 1)
    → (count (has_id c.id) cs == 0) ≡ true
    → (k : String) → count (has_id k) (c ∷ cs) ≤ 1
with_new c cs u fresh k = elim (Bool-cases (has_id k c)) [
  | inl same ↦
      let e : c.id ≡ k = ground (arith, eq_iff c.id k) in
      let none_yet : count (has_id k) cs ≡ 0 = rw (sym e) (ground arith) in
      rw same (omega (arith, none_yet))
  | inr differs ↦ rw differs (omega (arith, u k))
]

without :
    (k : String) (cs : List Container)
    → ((i : String) → count (has_id i) cs ≤ 1)
    → (i : String) → count (has_id i) (filter (λ x. not (has_id k x)) cs) ≤ 1
without k cs u i = omega (
  arith,
  u i,
  count-filter {0} (has_id i) (λ x. not (has_id k x)) cs,
  count_mono {0} (λ x. not (has_id k x) && has_id i x) (has_id i) cs (λ x e. ground arith),
)

abbrev start_at :
    (c : Container) (cs : List Container)
    → ((k : String) → count (has_id k) cs ≤ 1)
    → (((count (has_id c.id) cs == 0) ≡ true) ⊎ ((count (has_id c.id) cs == 0) ≡ false))
    → Listed × Bool
start_at c cs u (inl fresh) = ((c ∷ cs, with_new c cs u fresh), false)
start_at c cs u (inr taken) = ((cs, u), true)

abbrev start_listed : RunRequest → Listed → Listed × Bool
start_listed r (cs, u) = start_at (container_of r) cs u (Bool-cases (count (has_id r.name) cs == 0))

abbrev stop_listed : Container → Listed → Listed × Bool
stop_listed c (cs, u) = ((filter (λ x. not (has_id c.id x)) cs, without c.id cs u), false)

abbrev listed : DockerClient
listed = record { Daemon = Listed; running = λ d. d.0; start = start_listed; stop = stop_listed }

start_at-Started :
    (r : RunRequest) (cs : List Container) (u : (k : String) → count (has_id k) cs ≤ 1)
    (test : ((count (has_id r.name) cs == 0) ≡ true) ⊎ ((count (has_id r.name) cs == 0) ≡ false))
    → (start_at (container_of r) cs u test).1 ≡ false
    → Started listed r (cs, u) (start_at (container_of r) cs u test).0
unfolding Started
start_at-Started r cs u (inl fresh) h = (container_of r, λ k v e. e, λ p. refl)
start_at-Started r cs u (inr taken) h = absurd (cc)

start_at-keeps :
    (c : Container) (cs : List Container) (u : (k : String) → count (has_id k) cs ≤ 1)
    (test : ((count (has_id c.id) cs == 0) ≡ true) ⊎ ((count (has_id c.id) cs == 0) ≡ false))
    (p : Container → Bool)
    → count p cs ≤ count p (start_at c cs u test).0.0
start_at-keeps c cs u (inl fresh) p = omega arith
start_at-keeps c cs u (inr taken) p = omega arith

listed-Behaves : Behaves listed
listed-Behaves = record {
  started = λ r d h. start_at-Started r d.0 d.1 (Bool-cases (count (has_id r.name) d.0 == 0)) h;
  start_keeps = λ r d p.
      start_at-keeps (container_of r) d.0 d.1 (Bool-cases (count (has_id r.name) d.0 == 0)) p;
  stopped = λ c d h. refl;
  unique = λ d k. d.1 k;
}

abbrev worker : String → String → List (String × String) → Container
worker id created labels = record {
  id = id;
  created = created;
  labels = labels;
  image = "orchestrator";
  environment = [];
  binds = [];
  networks = "default" ∷ [];
}

abbrev three_workers : List Container
three_workers =
    worker "w" "2026-01-01" (("com.docker.compose.service", "worker") ∷ [])
    ∷ worker "c1" "2026-01-02" (("orchestrator.autoscaled", "true") ∷ [])
    ∷ worker "c2" "2026-01-03" (("orchestrator.autoscaled", "true") ∷ [])
    ∷ []

three_workers_unique : (k : String) → count (has_id k) three_workers ≤ 1
three_workers_unique k = ground (
  arith,
  eq_iff "w" k,
  eq_iff "c1" k,
  eq_iff "c2" k,
  eq_iff "w" "c1",
  eq_iff "w" "c2",
  eq_iff "c1" "c2",
)

abbrev three : Workers listed uuid_of
three = record { daemon = (three_workers, three_workers_unique); drawn = 0 }

stops_quietly : (scale_to listed uuid_of 2 three).1 ≡ false
unfolding scale_to count_workers template clones stop_all sort_latest has_label
stops_quietly = refl

template_runs : 1 ≤ tally (other is_template) three
unfolding has_label
template_runs = omega arith

scale_to-Scaled_example :
    (count_workers listed uuid_of (scale_to listed uuid_of 2 three).0 ≡ 2)
    × (tally (other is_template) (scale_to listed uuid_of 2 three).0
        ≡ tally (other is_template) three)
scale_to-Scaled_example =
    scale_to-Scaled listed uuid_of listed-Behaves 2 three is_template (omega arith) template_runs
      stops_quietly

abbrev scaler : Scaler (Workers listed uuid_of)
scaler = docker_scaler listed uuid_of

abbrev ticks : List (ℕ × ℕ)
ticks = (0, 10_000_000) ∷ (30, 20_000_000) ∷ (0, 30_000_000) ∷ []

ticks-Within : All (Within scaler 5_000_000) ticks
unfolding Within
ticks-Within =
    ((omega arith, omega arith), ((omega arith, omega arith), ((omega arith, omega arith), tt)))

run-no_early_scale_down_example :
    count_workers listed uuid_of three
    ≤ count_workers listed uuid_of
        (run scaler ticks (record { scaler = three; below_since = none })).scaler
run-no_early_scale_down_example =
    run-no_early_scale_down scaler 5_000_000 ticks (record { scaler = three; below_since = none })
      (scale_to-Lawful listed uuid_of listed-Behaves) refl ticks-Within
