-- ===== src/Lease/Effects.antt =====
-- src/db/lease_store.py: proofs on what the lease operations send and change.
use autonomous_ai_job_oreche.Prelude.{String, Bool, ◌≡◌, arith, if◌then◌else◌}
use autonomous_ai_job_oreche.Services.{Env, Command, set_nx, get, expire, delete}
use autonomous_ai_job_oreche.World.{World}
use autonomous_ai_job_oreche.Lease.{
  acquire, renew, release, get_holder, lease_key, holds, reply_text,
}
use autonomous_ai_job_oreche.Stream.Effects.{after_command}

module _ ⦃env : Env⦄ where
  open env use {settings}

  abbrev pub acquire_command : String → String → Command
  acquire_command job_id worker_id = set_nx (lease_key job_id) worker_id settings.lease_ttl_seconds

  pub acquire-after_command :
      (job_id worker_id : String) (w : World)
      → (acquire job_id worker_id w).1 ≡ after_command (acquire_command job_id worker_id) w
  unfolding acquire
  acquire-after_command job_id worker_id w = ground arith

  pub get_holder-after_command :
      (job_id : String) (w : World)
      → (get_holder job_id w).1 ≡ after_command (get (lease_key job_id)) w
  unfolding get_holder
  get_holder-after_command job_id w = ground arith

  pub db-release :
      (job_id worker_id : String) (w : World) → (release job_id worker_id w).1.db ≡ w.db
  unfolding release
  db-release job_id worker_id w = ground arith

  -- The server's reply to GET names this worker as the holder of the lease.
  abbrev pub holds_lease : String → String → World → Bool
  holds_lease job_id worker_id w =
      holds (reply_text (env.reply (get (lease_key job_id)) w.redis)) worker_id

  -- Both `release` and `renew` read the holder, and send the second command only if the reply names
  -- the calling worker; between the two commands the lease may pass to another.
  pub release-own_lease :
      (job_id worker_id : String) (w : World)
      → ((release job_id worker_id w).1 ≡ (
          if holds_lease job_id worker_id w
          then after_command (delete (lease_key job_id)) (after_command (get (lease_key job_id)) w)
          else after_command (get (lease_key job_id)) w))
        × ((renew job_id worker_id w).1 ≡ (
            if holds_lease job_id worker_id w
            then after_command
                (expire (lease_key job_id) settings.lease_ttl_seconds)
                (after_command (get (lease_key job_id)) w)
            else after_command (get (lease_key job_id)) w))
  unfolding release renew
  release-own_lease job_id worker_id w = (ground arith, ground arith)
