-- ===== src/Lease.antt =====
-- src/db/lease_store.py: a lease on a job, which is a Redis key that expires.
pub mod Effects
use autonomous_ai_job_oreche.Prelude.{
  zero, suc, String, Bool, true, false, Option, none, some, str_eq, truthy, if◌then◌else◌,
}
use autonomous_ai_job_oreche.Services.{
  Env, Reply, set_nx, get, expire, delete, string, number, response_error, failure,
}
use autonomous_ai_job_oreche.Output.Texts.{append_text}
use autonomous_ai_job_oreche.World.{World, call, Result, ok, err, redis_error}

-- `bool(reply)` of a SET, and the text of a GET.
abbrev pub reply_truthy : Reply → Bool
reply_truthy (string s) = truthy s
reply_truthy (number zero) = false
reply_truthy (number (suc n)) = true
reply_truthy _ = false

abbrev pub reply_text : Reply → Option String
reply_text (string s) = some s
reply_text _ = none

abbrev pub holds : Option String → String → Bool
holds none worker_id = false
holds (some holder) worker_id = str_eq holder worker_id

module _ ⦃env : Env⦄ where
  open env use {settings}

  -- A reply is read, unless the client raises.
  abbrev pub read_reply {ℓ} : {A : Type ℓ} → (Reply → A) → Reply × World → Result A × World
  read_reply f (response_error e, w) = (err (redis_error e), w)
  read_reply f (failure e, w) = (err (redis_error e), w)
  read_reply f (r, w) = (ok (f r), w)

  unfoldable pub lease_key : String → String
  lease_key job_id = append_text settings.lease_key_prefix job_id

  unfoldable pub acquire : String → String → World → Result Bool × World
  unfolding call lease_key
  acquire job_id worker_id w =
      read_reply reply_truthy
        (call (set_nx (lease_key job_id) worker_id settings.lease_ttl_seconds) w)

  unfoldable pub get_holder : String → World → Result (Option String) × World
  unfolding call lease_key
  get_holder job_id w = read_reply reply_text (call (get (lease_key job_id)) w)

  abbrev expired_later : Result (Option String) × World → String → String → Result Bool × World
  expired_later (err e, w) job_id worker_id = (err e, w)
  expired_later (ok holder, w) job_id worker_id =
      if holds holder worker_id
      then read_reply (λ _. true) (call (expire (lease_key job_id) settings.lease_ttl_seconds) w)
      else (ok false, w)

  -- The holder is read, and the key is kept alive if it is this worker.
  unfoldable pub renew : String → String → World → Result Bool × World
  unfolding call lease_key get_holder
  renew job_id worker_id w = expired_later (get_holder job_id w) job_id worker_id

  abbrev deleted : Result (Option String) × World → String → String → Result (Unit {0}) × World
  deleted (err e, w) job_id worker_id = (err e, w)
  deleted (ok holder, w) job_id worker_id =
      if holds holder worker_id
      then read_reply (λ _. tt) (call (delete (lease_key job_id)) w)
      else (ok tt, w)

  -- The holder is read, and the key is deleted if it is this worker.
  unfoldable pub release : String → String → World → Result (Unit {0}) × World
  unfolding call lease_key get_holder
  release job_id worker_id w = deleted (get_holder job_id w) job_id worker_id
