-- ===== src/Autoscaler/Docker/Behaves.antt =====
-- src/orchestrator/autoscaler.py: what the Docker client documents, as laws that scaling relies on.
use autonomous_ai_job_oreche.Prelude.{
  ℕ, ◌+◌, ◌≤◌, String, Bool, true, false, not, ◌&&◌, ◌≡◌, filter, count, bit,
}
use autonomous_ai_job_oreche.Autoscaler.Docker.{
  Container, RunRequest, DockerClient, Workers, is_clone, has_label,
}
use autonomous_ai_job_oreche.Autoscaler.Docker.Containers.{has_id}

module _ (docker : DockerClient) where
  open docker use {Daemon, running, start, stop}

  -- One container more runs, with at least the labels that were asked for.
  unfoldable pub Started : RunRequest → Daemon → Daemon → Type 0
  Started request old new =
      (c : Container) × ((key value : String)
        → has_label key value request.labels ≡ true
        → has_label key value c.labels ≡ true)
      × ((p : Container → Bool) → count p (running new) ≡ bit (p c) + count p (running old))

  -- What the client documents of a daemon that nothing else changes.
  pub record Behaves : Type 0 where
    pub started :
        (request : RunRequest) (d : Daemon)
        → (start request d).1 ≡ false
        → Started request d (start request d).0
    pub start_keeps :
        (request : RunRequest) (d : Daemon) (p : Container → Bool)
        → count p (running d) ≤ count p (running (start request d).0)
    pub stopped :
        (c : Container) (d : Daemon)
        → (stop c d).1 ≡ false
        → running (stop c d).0 ≡ filter (λ x. not (has_id c.id x)) (running d)
    pub unique : (d : Daemon) (k : String) → count (has_id k) (running d) ≤ 1

-- The containers that are not clones of the autoscaler.
abbrev pub other : (Container → Bool) → Container → Bool
other p c = not (is_clone c) && p c

module _ {docker : DockerClient} {hex : ℕ → String} where
  -- The number of running containers that a test accepts.
  abbrev pub tally : (Container → Bool) → Workers docker hex → ℕ
  tally p s = count p (docker.running s.daemon)
