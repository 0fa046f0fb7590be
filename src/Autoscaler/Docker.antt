-- ===== src/Autoscaler/Docker.antt =====
-- src/orchestrator/autoscaler.py, the class DockerWorkerScaler: workers are containers, one of which
-- compose manages. The Docker client is the argument `docker`; `hex` is `uuid.uuid4().hex` of the
-- draws, which are counted.
pub mod Containers
pub mod Behaves
pub mod Growing
pub mod Shrinking
pub mod Scaling
use autonomous_ai_job_oreche.Prelude.{
  ℕ, zero, suc, ◌+◌, ◌-◌, String, Bool, true, false, ◌&&◌, ◌||◌, Option, none, some, List, [], ◌∷◌,
  filter, take, length, ltb, ◌==◌, str_eq, if◌then◌else◌,
}
use Prim.Native.Char.{code}
use autonomous_ai_job_oreche.Output.Texts.{append_text, take_text}
use autonomous_ai_job_oreche.Autoscaler.{Scaler}

-- What the code reads of a running container: `attrs` and the labels.
pub record Container : Type 0 where
  pub id : String
  pub created : String
  pub labels : List (String × String)
  pub image : String
  pub environment : List String
  pub binds : List String
  pub networks : List String

-- The arguments of `containers.run`.
pub record RunRequest : Type 0 where
  pub image : String
  pub command : List String
  pub environment : List String
  pub volumes : List String
  pub network : String
  pub labels : List (String × String)
  pub name : String

-- The running containers; starting one; stopping and removing one. Both say whether they raised.
pub record DockerClient : Type 1 where
  pub Daemon : Type 0
  pub running : Daemon → List Container
  pub start : RunRequest → Daemon → Daemon × Bool
  pub stop : Container → Daemon → Daemon × Bool

-- The filter `label=key=value`.
unfoldable pub has_label : String → String → List (String × String) → Bool
has_label key value [] = false
has_label key value ((k, v) ∷ labels) =
    (str_eq k key && str_eq v value) || has_label key value labels

abbrev pub is_template : Container → Bool
is_template c = has_label "com.docker.compose.service" "worker" c.labels

abbrev pub is_clone : Container → Bool
is_clone c = has_label "orchestrator.autoscaled" "true" c.labels

abbrev pub head_of : List Container → Option Container
head_of [] = none
head_of (c ∷ cs) = some c

abbrev pub one_if : Option Container → ℕ
one_if none = 0
one_if (some c) = 1

-- `s <= t` on texts, by code points.
text_le : String → String → Bool
text_le String.[] t = true
text_le (String.◌∷◌ a s) String.[] = false
text_le (String.◌∷◌ a s) (String.◌∷◌ b t) =
    ltb (code a) (code b) || (code a == code b && text_le s t)

-- `sorted(..., key=created, reverse=True)`, which keeps the order of equal keys.
unfoldable insert_latest : Container → List Container → List Container
unfolding text_le
insert_latest c [] = c ∷ []
insert_latest c (x ∷ xs) =
    if text_le x.created c.created then c ∷ x ∷ xs else x ∷ insert_latest c xs

unfoldable pub sort_latest : List Container → List Container
unfolding insert_latest
sort_latest [] = []
sort_latest (c ∷ cs) = insert_latest c (sort_latest cs)

module _ (docker : DockerClient) (hex : ℕ → String) where
  open docker use {Daemon, running, start, stop}

  -- The daemon, and the number of names drawn.
  pub record Workers : Type 0 where
    pub daemon : Daemon
    pub drawn : ℕ

  unfoldable pub template : Workers → Option Container
  template s = head_of (filter is_template (running s.daemon))

  unfoldable pub clones : Workers → List Container
  clones s = filter is_clone (running s.daemon)

  unfoldable pub count_workers : Workers → ℕ
  unfolding template clones
  count_workers s = one_if (template s) + length (clones s)

  abbrev pub worker_id : Workers → String
  worker_id s = append_text "worker-auto-" (take_text 8 (hex s.drawn))

  abbrev pub clone_request : Container → String → String → RunRequest
  clone_request t network id = record {
    image = t.image;
    command = "python" ∷ "src/orchestrator/worker.py" ∷ id ∷ [];
    environment = t.environment;
    volumes = t.binds;
    network = network;
    labels = ("orchestrator.autoscaled", "true") ∷ [];
    name = id;
  }

  abbrev pub started_with : Workers → Daemon × Bool → Workers × Bool
  started_with s (d, raised) = (record { daemon = d; drawn = s.drawn + 1 }, raised)

  -- A template with no network raises an IndexError.
  abbrev pub clone_of : Container → List String → Workers → Workers × Bool
  clone_of t [] s = (record s { drawn = s.drawn + 1 }, true)
  clone_of t (network ∷ networks) s =
      started_with s (start (clone_request t network (worker_id s)) s.daemon)

  abbrev pub clone_from : Option Container → Workers → Workers × Bool
  clone_from none s = (s, false)
  clone_from (some t) s = clone_of t t.networks s

  unfoldable pub start_clone : Workers → Workers × Bool
  unfolding template
  start_clone s = clone_from (template s) s

  -- The rest of a loop runs if nothing has raised.
  abbrev pub go_on : (Workers → Workers × Bool) → Workers × Bool → Workers × Bool
  go_on rest (s, true) = (s, true)
  go_on rest (s, false) = rest s

  unfoldable pub start_clones : ℕ → Workers → Workers × Bool
  unfolding start_clone
  start_clones zero s = (s, false)
  start_clones (suc n) s = go_on (start_clones n) (start_clone s)

  abbrev pub stopped_with : Workers → Daemon × Bool → Workers × Bool
  stopped_with s (d, raised) = (record s { daemon = d }, raised)

  unfoldable pub stop_all : List Container → Workers → Workers × Bool
  stop_all [] s = (s, false)
  stop_all (c ∷ cs) s = go_on (stop_all cs) (stopped_with s (stop c s.daemon))

  unfoldable pub scale_to : ℕ → Workers → Workers × Bool
  unfolding count_workers start_clones stop_all sort_latest
  scale_to desired s =
      let current = count_workers s in
      if ltb current desired
      then start_clones (desired - current) s
      else if ltb desired current
      then stop_all (take (current - desired) (sort_latest (clones s))) s
      else (s, false)

  -- `Autoscaler(scaler=DockerWorkerScaler())`
  abbrev pub docker_scaler : Scaler Workers
  docker_scaler = record { workers = count_workers; scale_to = scale_to }
