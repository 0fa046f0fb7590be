-- ===== src/Stream/Effects.antt =====
-- src/db/stream_queue.py: proofs on what the queue operations send and change.
use autonomous_ai_job_oreche.Prelude.{String, Option, some, [], ◌∷◌, ◌≡◌, arith, or_else}
use autonomous_ai_job_oreche.Services.{
  Env, Command, Reply, xadd, xack, nil, string, number, entries, groups, response_error, failure,
}
use autonomous_ai_job_oreche.World.{World, Error, err, redis_error}
use autonomous_ai_job_oreche.Stream.{enqueue, ack, send_to_dlq, message_id_of}

module _ ⦃env : Env⦄ where
  open env use {settings}

  -- The state after one more command: only the Redis server and the list of commands change.
  abbrev pub after_command : Command → World → World
  after_command c w = record w { redis = env.after c w.redis; sent = c ∷ w.sent }

  abbrev pub enqueue_command : String → Command
  enqueue_command job_id =
      xadd settings.job_stream_key (("job_id", job_id) ∷ []) settings.job_stream_maxlen

  abbrev pub ack_command : String → Command
  ack_command message_id = xack settings.job_stream_key settings.job_stream_group message_id

  abbrev pub dlq_command : String → String → Option String → Command
  dlq_command job_id reason source =
      xadd settings.job_dlq_stream_key
        (("job_id", job_id)
          ∷ ("reason", or_else (some reason) "unknown")
          ∷ ("source_message_id", or_else source "")
          ∷ [])
        settings.job_dlq_maxlen

  pub enqueue-after_command :
      (job_id : String) (w : World)
      → (enqueue job_id w).1 ≡ after_command (enqueue_command job_id) w
  unfolding enqueue
  enqueue-after_command job_id w = ground arith

  pub ack-after_command :
      (message_id : String) (w : World)
      → (ack message_id w).1 ≡ after_command (ack_command message_id) w
  unfolding ack
  ack-after_command message_id w = ground arith

  pub send_to_dlq-after_command :
      (job_id reason : String) (source : Option String) (w : World)
      → (send_to_dlq job_id reason source w).1 ≡ after_command (dlq_command job_id reason source) w
  unfolding send_to_dlq
  send_to_dlq-after_command job_id reason source w = ground arith

  message_id_of-redis_error :
      (r : Reply) (w : World) (e : Error)
      → (message_id_of (r, w)).0 ≡ err e
      → (s : String) × (e ≡ redis_error s)
  message_id_of-redis_error nil w e h = cc
  message_id_of-redis_error (string s) w e h = cc
  message_id_of-redis_error (number n) w e h = cc
  message_id_of-redis_error (entries es) w e h = cc
  message_id_of-redis_error (groups gs) w e h = cc
  message_id_of-redis_error (response_error s) w e h = (s, cc)
  message_id_of-redis_error (failure s) w e h = (s, cc)

  pub enqueue-redis_error :
      (job_id : String) (w : World) (e : Error)
      → (enqueue job_id w).0 ≡ err e
      → (s : String) × (e ≡ redis_error s)
  unfolding enqueue
  enqueue-redis_error job_id w e h =
      message_id_of-redis_error (env.reply (enqueue_command job_id) w.redis) _ e h
