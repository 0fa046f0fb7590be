-- ===== src/Autoscaler/Docker/Growing.antt =====
-- src/orchestrator/autoscaler.py: starting clones of the worker.
use autonomous_ai_job_oreche.Prelude.{
  ℕ, zero, suc, ◌+◌, ◌≤◌, String, Bool, true, false, Option, some, List, [], ◌∷◌, ◌≡◌, refl, ◌∙◌,
  ap, filter, bit, arith, length-filter,
}
use autonomous_ai_job_oreche.Autoscaler.Docker.{
  Container, RunRequest, DockerClient, Workers, is_template, is_clone, has_label, one_if, head_of,
  template, clones, count_workers, clone_from, clone_of, start_clone, start_clones, go_on,
  started_with, clone_request, worker_id,
}
use autonomous_ai_job_oreche.Autoscaler.Docker.Containers.{one_if-head}
use autonomous_ai_job_oreche.Autoscaler.Docker.Behaves.{Behaves, Started, tally, other}

module _ (docker : DockerClient) (hex : ℕ → String) (laws : Behaves docker) where
  open docker use {Daemon, running, start, stop}

  abbrev W : Type 0
  W = Workers docker hex

  pub count_workers_lem :
      (s : W) → 1 ≤ tally is_template s → count_workers docker hex s ≡ suc (tally is_clone s)
  unfolding count_workers template clones
  count_workers_lem s h = omega (
    arith,
    one_if-head is_template (running s.daemon) h,
    length-filter {0} is_clone (running s.daemon),
  )

  -- Between two states clones were started, and the others run on.
  abbrev pub Grown : ℕ → W → W → Type 0
  Grown n s t =
      (tally is_clone t ≡ n + tally is_clone s)
      × ((p : Container → Bool) → tally (other p) t ≡ tally (other p) s)
      × (tally is_template s ≤ tally is_template t)

  started-Grown :
      (s : W) (request : RunRequest)
      → has_label "orchestrator.autoscaled" "true" request.labels ≡ true
      → (start request s.daemon).1 ≡ false
      → Grown 1 s (started_with docker hex s (start request s.daemon)).0
  unfolding Started
  started-Grown s request label h = by_container (laws.started request s.daemon h)
    where
      by_container :
          Started docker request s.daemon (start request s.daemon).0
          → Grown 1 s (started_with docker hex s (start request s.daemon)).0
      by_container (c, labels, counts) =
          let clone : is_clone c ≡ true = labels "orchestrator.autoscaled" "true" label in
          (
            omega (arith, counts is_clone, ap bit clone),
            λ p. ground (arith, counts (other p), clone),
            laws.start_keeps request s.daemon is_template,
          )

  clone_of-Grown :
      (t : Container) (networks : List String) (s : W)
      → (clone_of docker hex t networks s).1 ≡ false
      → Grown 1 s (clone_of docker hex t networks s).0
  unfolding has_label
  clone_of-Grown t [] s h = absurd (cc)
  clone_of-Grown t (network ∷ rest) s h =
      started-Grown s (clone_request docker hex t network (worker_id docker hex s)) refl h

  start_clone-Grown :
      (s : W)
      → 1 ≤ tally is_template s
      → (start_clone docker hex s).1 ≡ false
      → Grown 1 s (start_clone docker hex s).0
  unfolding start_clone template
  start_clone-Grown s there h =
      by_template (head_of (filter is_template (running s.daemon)))
        (one_if-head is_template (running s.daemon) there) h
    where
      by_template :
          (t : Option Container)
          → one_if t ≡ 1
          → (clone_from docker hex t s).1 ≡ false
          → Grown 1 s (clone_from docker hex t s).0
      by_template Option.none e h = absurd (omega (arith, e))
      by_template (some t) e h = clone_of-Grown t t.networks s h

  pub start_clones-Grown :
      (n : ℕ) (s : W)
      → 1 ≤ tally is_template s
      → (start_clones docker hex n s).1 ≡ false
      → Grown n s (start_clones docker hex n s).0
  unfolding start_clones
  start_clones-Grown zero s there h = (omega arith, λ p. refl, omega arith)
  start_clones-Grown (suc n) s there h =
      by_first (start_clone docker hex s) (start_clone-Grown s there) (λ t. start_clones-Grown n t)
        h
    where
      by_first :
          (r : W × Bool)
          → (r.1 ≡ false → Grown 1 s r.0)
          → ((t : W)
              → 1 ≤ tally is_template t
              → (start_clones docker hex n t).1 ≡ false
              → Grown n t (start_clones docker hex n t).0)
          → (go_on docker hex (start_clones docker hex n) r).1 ≡ false
          → Grown (suc n) s (go_on docker hex (start_clones docker hex n) r).0
      by_first (t, true) one rest h = absurd (cc)
      by_first (t, false) one rest h =
          let (clones1, others1, templates1) = one refl in
          let (clones2, others2, templates2) = rest t (omega (arith, templates1, there)) h in
          (
            omega (arith, clones1, clones2),
            λ p. others2 p ∙ others1 p,
            omega (arith, templates1, templates2),
          )

  -- Starting clones stops nothing, whether the daemon raises or not.
  clone_of-keeps :
      (t : Container) (networks : List String) (s : W) (p : Container → Bool)
      → tally p s ≤ tally p (clone_of docker hex t networks s).0
  clone_of-keeps t [] s p = omega arith
  clone_of-keeps t (network ∷ rest) s p =
      laws.start_keeps (clone_request docker hex t network (worker_id docker hex s)) s.daemon p

  start_clone-keeps :
      (s : W) (p : Container → Bool) → tally p s ≤ tally p (start_clone docker hex s).0
  unfolding start_clone
  start_clone-keeps s p = by_template (template docker hex s)
    where
      by_template : (t : Option Container) → tally p s ≤ tally p (clone_from docker hex t s).0
      by_template Option.none = omega arith
      by_template (some t) = clone_of-keeps t t.networks s p

  pub start_clones-keeps :
      (n : ℕ) (s : W) (p : Container → Bool) → tally p s ≤ tally p (start_clones docker hex n s).0
  unfolding start_clones
  start_clones-keeps zero s p = omega arith
  start_clones-keeps (suc n) s p =
      by_first (start_clone docker hex s) (start_clone-keeps s p) (λ t. start_clones-keeps n t p)
    where
      by_first :
          (r : W × Bool)
          → tally p s ≤ tally p r.0
          → ((t : W) → tally p t ≤ tally p (start_clones docker hex n t).0)
          → tally p s ≤ tally p (go_on docker hex (start_clones docker hex n) r).0
      by_first (t, true) one rest = one
      by_first (t, false) one rest = omega (arith, one, rest t)
