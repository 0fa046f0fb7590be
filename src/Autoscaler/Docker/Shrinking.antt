-- ===== src/Autoscaler/Docker/Shrinking.antt =====
-- src/orchestrator/autoscaler.py: stopping the newest clones.
use autonomous_ai_job_oreche.Prelude.{
  ℕ, suc, ◌+◌, ◌≤◌, String, Bool, true, false, not, ◌&&◌, List, [], ◌∷◌, ◌≡◌, refl, ◌∙◌, ap, filter,
  take, length, count, bit, eq_iff, arith, inl, inr, Bool-cases, count_mono, length-take,
  length-filter,
}
use autonomous_ai_job_oreche.Autoscaler.Docker.{
  Container, DockerClient, Workers, is_clone, clones, sort_latest, stop_all, go_on, stopped_with,
}
use autonomous_ai_job_oreche.Autoscaler.Docker.Containers.{
  count-filter, count-split, count-take, count-true, count-and_comm, has_id, count-sort_latest,
}
use autonomous_ai_job_oreche.Autoscaler.Docker.Behaves.{Behaves, tally, other}

module _ (docker : DockerClient) (hex : ℕ → String) (laws : Behaves docker) where
  open docker use {Daemon, running, start, stop}

  abbrev W : Type 0
  W = Workers docker hex

  -- The containers to stop are running clones, each once.
  abbrev pub Stoppable : List Container → W → Type 0
  Stoppable cs s = (k : String) → count (has_id k) cs ≤ tally (λ x. is_clone x && has_id k x) s

  -- Between two states clones were stopped, and the others run on.
  abbrev pub Shrunk : ℕ → W → W → Type 0
  Shrunk n s t =
      (n + tally is_clone t ≡ tally is_clone s)
      × ((p : Container → Bool) → tally (other p) t ≡ tally (other p) s)

  tally-stopped :
      (c : Container) (s : W) (p : Container → Bool)
      → (stop c s.daemon).1 ≡ false
      → tally p (stopped_with docker hex s (stop c s.daemon)).0
        ≡ tally (λ x. not (has_id c.id x) && p x) s
  tally-stopped c s p h =
      rw (laws.stopped c s.daemon h) (count-filter p (λ x. not (has_id c.id x)) (running s.daemon))

  stopped-Stoppable :
      (c : Container) (cs : List Container) (s : W)
      → Stoppable (c ∷ cs) s
      → (stop c s.daemon).1 ≡ false
      → Stoppable cs (stopped_with docker hex s (stop c s.daemon)).0
  stopped-Stoppable c cs s fits h k = elim (Bool-cases (has_id k c)) [
    | inl same ↦ omega (
      arith,
      fits k,
      ap bit same,
      laws.unique s.daemon k,
      count_mono {0} (λ x. is_clone x && has_id k x) (has_id k) (running s.daemon)
          (λ x e. ground arith),
    )
    | inr differs ↦ omega (
      arith,
      fits k,
      tally-stopped c s (λ x. is_clone x && has_id k x) h,
      count_mono {0} (λ x. is_clone x && has_id k x)
          (λ x. not (has_id c.id x) && (is_clone x && has_id k x)) (running s.daemon)
          (λ x e. ground (arith, eq_iff x.id k, eq_iff x.id c.id, eq_iff c.id k)),
    )
  ]

  stopped-Shrunk :
      (c : Container) (cs : List Container) (s : W)
      → Stoppable (c ∷ cs) s
      → (stop c s.daemon).1 ≡ false
      → Shrunk 1 s (stopped_with docker hex s (stop c s.daemon)).0
  stopped-Shrunk c cs s fits h = (
    omega (
      arith,
      the_clone,
      tally-stopped c s is_clone h,
      count-split {0} (has_id c.id) is_clone (running s.daemon),
      count-split {0} is_clone (has_id c.id) (running s.daemon),
      count-and_comm {0} is_clone (has_id c.id) (running s.daemon),
      count-and_comm {0} is_clone (λ x. not (has_id c.id x)) (running s.daemon),
      laws.unique s.daemon c.id,
    ),
    λ p. omega (
      arith,
      the_clone,
      tally-stopped c s (other p) h,
      count-split {0} (has_id c.id) is_clone (running s.daemon),
      count-and_comm {0} is_clone (has_id c.id) (running s.daemon),
      laws.unique s.daemon c.id,
      count-split {0} (other p) (has_id c.id) (running s.daemon),
      count-and_comm {0} (other p) (λ x. not (has_id c.id x)) (running s.daemon),
      count_mono {0} (λ x. other p x && has_id c.id x) (λ x. has_id c.id x && not (is_clone x))
          (running s.daemon) (λ x e. ground arith),
    ),
  )
    where
      the_clone : 1 ≤ tally (λ x. is_clone x && has_id c.id x) s
      the_clone = ground (arith, fits c.id, eq_iff c.id c.id)

  pub stop_all-Shrunk :
      (cs : List Container) (s : W)
      → Stoppable cs s
      → (stop_all docker hex cs s).1 ≡ false
      → Shrunk (length cs) s (stop_all docker hex cs s).0
  unfolding stop_all
  stop_all-Shrunk [] s fits h = (omega arith, λ p. refl)
  stop_all-Shrunk (c ∷ cs) s fits h =
      by_first (stopped_with docker hex s (stop c s.daemon)) (stopped-Shrunk c cs s fits)
        (stopped-Stoppable c cs s fits) (λ t. stop_all-Shrunk cs t) h
    where
      by_first :
          (r : W × Bool)
          → (r.1 ≡ false → Shrunk 1 s r.0)
          → (r.1 ≡ false → Stoppable cs r.0)
          → ((t : W)
              → Stoppable cs t
              → (stop_all docker hex cs t).1 ≡ false
              → Shrunk (length cs) t (stop_all docker hex cs t).0)
          → (go_on docker hex (stop_all docker hex cs) r).1 ≡ false
          → Shrunk (suc (length cs)) s (go_on docker hex (stop_all docker hex cs) r).0
      by_first (t, true) one fit rest h = absurd (cc)
      by_first (t, false) one fit rest h =
          let (clones1, others1) = one refl in
          let (clones2, others2) = rest t (fit refl) h in
          (omega (arith, clones1, clones2), λ p. others2 p ∙ others1 p)

  pub newest-Stoppable : (n : ℕ) (s : W) → Stoppable (take n (sort_latest (clones docker hex s))) s
  unfolding clones
  newest-Stoppable n s k = omega (
    arith,
    count-take {0} (has_id k) n (sort_latest (filter is_clone (running s.daemon))),
    count-sort_latest (has_id k) (filter is_clone (running s.daemon)),
    count-filter {0} (has_id k) is_clone (running s.daemon),
  )

  pub length-newest :
      (n : ℕ) (s : W)
      → n ≤ tally is_clone s
      → length (take n (sort_latest (clones docker hex s))) ≡ n
  unfolding clones
  length-newest n s h = omega (
    arith,
    length-take {0} n (sort_latest (filter is_clone (running s.daemon))),
    count-true {0} (sort_latest (filter is_clone (running s.daemon))),
    count-sort_latest (λ x. true) (filter is_clone (running s.daemon)),
    count-true {0} (filter is_clone (running s.daemon)),
    length-filter {0} is_clone (running s.daemon),
  )
