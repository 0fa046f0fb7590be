-- ===== src/Autoscaler/Docker/Scaling.antt =====
-- src/orchestrator/autoscaler.py: what scaling containers leaves running.
use autonomous_ai_job_oreche.Prelude.{
  length-filter, ℕ, ◌+◌, ◌-◌, ◌≤◌, ◌<◌, String, Bool, true, false, ◌≡◌, refl, take, ltb, ltb→lt,
  if◌then◌else◌, arith, count_mono,
}
use autonomous_ai_job_oreche.Autoscaler.Docker.{
  docker_scaler, template, is_clone, Container, DockerClient, Workers, is_template, clones,
  sort_latest, count_workers, start_clones, stop_all, scale_to,
}
use autonomous_ai_job_oreche.Autoscaler.Docker.Behaves.{Behaves, tally, other}
use autonomous_ai_job_oreche.Autoscaler.Docker.Growing.{
  count_workers_lem, start_clones-Grown, start_clones-keeps,
}
use autonomous_ai_job_oreche.Autoscaler.Docker.Shrinking.{
  stop_all-Shrunk, newest-Stoppable, length-newest,
}
use autonomous_ai_job_oreche.Services.{Env}
use autonomous_ai_job_oreche.Autoscaler.Hysteresis.{Lawful}
use autonomous_ai_job_oreche.Autoscaler.Docker.Containers.{one_if-head_mono}

module _ (docker : DockerClient) (hex : ℕ → String) (laws : Behaves docker) where
  open docker use {Daemon, running, start, stop}

  abbrev W : Type 0
  W = Workers docker hex

  template_there : (s : W) → tally (other is_template) s ≤ tally is_template s
  template_there s =
      count_mono {0} (other is_template) is_template (running s.daemon) (λ x e. ground arith)

  abbrev Scaled : ℕ → (Container → Bool) → W → W → Type 0
  Scaled n p s t = (count_workers docker hex t ≡ n) × (tally (other p) t ≡ tally (other p) s)

  start_clones-Scaled :
      (n : ℕ) (s : W) (p : Container → Bool)
      → 1 ≤ tally (other is_template) s
      → count_workers docker hex s < n
      → (start_clones docker hex (n - count_workers docker hex s) s).1 ≡ false
      → Scaled n p s (start_clones docker hex (n - count_workers docker hex s) s).0
  start_clones-Scaled n s p there up h =
      let t = (start_clones docker hex (n - count_workers docker hex s) s).0 in
      let (clones1, others1, templates1) =
        start_clones-Grown docker hex laws (n - count_workers docker hex s) s
          (omega (arith, there, template_there s)) h in
      (
        omega (
          arith,
          clones1,
          up,
          count_workers_lem docker hex laws s (omega (arith, there, template_there s)),
          count_workers_lem docker hex laws t (omega (arith, there, template_there s, templates1)),
        ),
        others1 p,
      )

  stop_newest-Scaled :
      (n k : ℕ) (s : W) (p : Container → Bool)
      → 1 ≤ n
      → 1 ≤ tally (other is_template) s
      → n + k ≡ count_workers docker hex s
      → (stop_all docker hex (take k (sort_latest (clones docker hex s))) s).1 ≡ false
      → Scaled n p s (stop_all docker hex (take k (sort_latest (clones docker hex s))) s).0
  stop_newest-Scaled n k s p wanted there down h =
      let newest = take k (sort_latest (clones docker hex s)) in
      let t = (stop_all docker hex newest s).0 in
      let workers = count_workers_lem docker hex laws s (omega (arith, there, template_there s)) in
      let (clones1, others1) =
        stop_all-Shrunk docker hex laws newest s (newest-Stoppable docker hex laws k s) h in
      (
        omega (
          arith,
          clones1,
          length-newest docker hex laws k s (omega (arith, workers, down, wanted)),
          workers,
          down,
          count_workers_lem docker hex laws t
              (omega (arith, there, others1 is_template, template_there t)),
        ),
        others1 p,
      )

  -- If a worker that is not a clone runs, at least one worker is wanted and the daemon raises
  -- nothing, then scaling leaves exactly as many workers as wanted, and of the containers that are
  -- not clones, as many run as before, under any test.
  pub scale_to-Scaled :
      (n : ℕ) (s : W) (p : Container → Bool)
      → 1 ≤ n
      → 1 ≤ tally (other is_template) s
      → (scale_to docker hex n s).1 ≡ false
      → (count_workers docker hex (scale_to docker hex n s).0 ≡ n)
        × (tally (other p) (scale_to docker hex n s).0 ≡ tally (other p) s)
  unfolding scale_to
  scale_to-Scaled n s p wanted there h =
      by_tests (ltb (count_workers docker hex s) n) (ltb n (count_workers docker hex s)) refl refl h
    where
      by_tests :
          (up down : Bool)
          → ltb (count_workers docker hex s) n ≡ up
          → ltb n (count_workers docker hex s) ≡ down
          → let r =
              if up
              then start_clones docker hex (n - count_workers docker hex s) s
              else if down
              then stop_all docker hex
                  (take (count_workers docker hex s - n) (sort_latest (clones docker hex s)))
                  s
              else (s, false) in
            r.1 ≡ false → Scaled n p s r.0
      by_tests true down e1 e2 h =
          start_clones-Scaled n s p there (ltb→lt (count_workers docker hex s) n e1) h
      by_tests false true e1 e2 h =
          stop_newest-Scaled n (count_workers docker hex s - n) s p wanted there
            (omega (arith, ltb→lt n (count_workers docker hex s) e2)) h
      by_tests false false e1 e2 h = (ground arith, refl)

  count_workers_mono :
      (s t : W)
      → ((p : Container → Bool) → tally p s ≤ tally p t)
      → count_workers docker hex s ≤ count_workers docker hex t
  unfolding count_workers template clones
  count_workers_mono s t more = omega (
    arith,
    one_if-head_mono is_template (running s.daemon) (running t.daemon) (more is_template),
    length-filter {0} is_clone (running s.daemon),
    length-filter {0} is_clone (running t.daemon),
    more is_clone,
  )

  -- Scaling up never leaves fewer workers, whether the daemon raises or not: the loop's premise.
  pub scale_to-Lawful : ⦃env : Env⦄ → Lawful (docker_scaler docker hex)
  unfolding Lawful scale_to
  scale_to-Lawful n s up = by_test (ltb (count_workers docker hex s) n) (ground arith)
    where
      by_test :
          (test : Bool)
          → test ≡ true
          → count_workers docker hex s
            ≤ count_workers docker hex
                (if test
                  then start_clones docker hex (n - count_workers docker hex s) s
                  else if ltb n (count_workers docker hex s)
                  then stop_all docker hex
                      (take (count_workers docker hex s - n) (sort_latest (clones docker hex s)))
                      s
                  else (s, false)).0
      by_test true e =
          count_workers_mono s (start_clones docker hex (n - count_workers docker hex s) s).0
            (start_clones-keeps docker hex laws (n - count_workers docker hex s) s)
      by_test false e = absurd (cc)
