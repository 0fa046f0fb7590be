-- ===== src/Stream.antt =====
-- src/db/stream_queue.py: the work queue on a Redis stream with a consumer group, and the dead
-- letter stream.
pub mod Effects
pub mod Claims
use text.Mathlib.Text.{find?}
use autonomous_ai_job_oreche.Prelude.{
  ℕ, String, Option, none, some, List, [], ◌∷◌, str_eq, truthy, or_else, is_some, if◌then◌else◌,
}
use autonomous_ai_job_oreche.Services.{
  Env, Entry, Reply, xadd, xgroup_create, xreadgroup, xautoclaim, xack, xrevrange, xpending, string,
  number, entries, response_error, failure,
}
use autonomous_ai_job_oreche.World.{World, call, Result, ok, err, redis_error}

pub record StreamMessage : Type 0 where
  pub message_id : String
  pub job_id : String

-- `fields.get(key)`
unfoldable pub get_text : String → List (String × String) → Option String
get_text k [] = none
get_text k ((j, v) ∷ rest) = if str_eq j k then some v else get_text k rest

-- `fields.get(key)` where a missing key and an empty text are treated alike.
abbrev pub given_text : Option String → Option String
given_text none = none
given_text (some s) = if truthy s then some s else none

module _ ⦃env : Env⦄ where
  open env use {settings}

  -- The reply of a command that gives the id of the new entry.
  abbrev message_id_of : Reply × World → Result String × World
  message_id_of (string s, w) = (ok s, w)
  message_id_of (response_error e, w) = (err (redis_error e), w)
  message_id_of (failure e, w) = (err (redis_error e), w)
  message_id_of (_, w) = (ok "", w)

  abbrev group_created : Reply × World → Result (Unit {0}) × World
  group_created (response_error e, w) =
      if is_some (find? e "BUSYGROUP") then (ok tt, w) else (err (redis_error e), w)
  group_created (failure e, w) = (err (redis_error e), w)
  group_created (_, w) = (ok tt, w)

  unfoldable pub ensure_group : World → Result (Unit {0}) × World
  unfolding call
  ensure_group w =
      group_created (call (xgroup_create settings.job_stream_key settings.job_stream_group) w)

  unfoldable pub enqueue : String → World → Result String × World
  unfolding call
  enqueue job_id w =
      message_id_of
        (call (xadd settings.job_stream_key (("job_id", job_id) ∷ []) settings.job_stream_maxlen) w)

  -- The number of entries that were acknowledged is used nowhere.
  abbrev acknowledged : Reply × World → Result (Unit {0}) × World
  acknowledged (response_error e, w) = (err (redis_error e), w)
  acknowledged (failure e, w) = (err (redis_error e), w)
  acknowledged (_, w) = (ok tt, w)

  unfoldable pub ack : String → World → Result (Unit {0}) × World
  unfolding call
  ack message_id w =
      acknowledged (call (xack settings.job_stream_key settings.job_stream_group message_id) w)

  abbrev poisoned : Result (Unit {0}) × World → Result (Option StreamMessage) × World
  poisoned (ok _, w) = (ok none, w)
  poisoned (err e, w) = (err e, w)

  -- An entry with no job id is acknowledged at once and dropped.
  unfoldable pub parse_message : Entry → World → Result (Option StreamMessage) × World
  unfolding ack get_text
  parse_message e w = elim (given_text (get_text "job_id" e.fields)) [
    | none ↦ poisoned (ack e.message_id w)
    | some job_id ↦ (ok (some (record { message_id = e.message_id; job_id = job_id })), w)
  ]

  abbrev first_message : Reply × World → Result (Option StreamMessage) × World
  first_message (entries (e ∷ rest), w) = parse_message e w
  first_message (response_error e, w) = (err (redis_error e), w)
  first_message (failure e, w) = (err (redis_error e), w)
  first_message (_, w) = (ok none, w)

  unfoldable pub read : String → ℕ → World → Result (Option StreamMessage) × World
  unfolding call parse_message
  read consumer count w = first_message (
      call
        (xreadgroup settings.job_stream_group consumer settings.job_stream_key count
          settings.job_stream_block_ms)
        w)

  abbrev keep_parsed : Option StreamMessage → List StreamMessage → List StreamMessage
  keep_parsed none rest = rest
  keep_parsed (some m) rest = m ∷ rest

  abbrev pub with_rest :
      Option StreamMessage
      → Result (List StreamMessage) × World
      → Result (List StreamMessage) × World
  with_rest m (ok ms, w) = (ok (keep_parsed m ms), w)
  with_rest m (err x, w) = (err x, w)

  abbrev pub then_rest :
      Result (Option StreamMessage) × World
      → (World → Result (List StreamMessage) × World)
      → Result (List StreamMessage) × World
  then_rest (err x, w) rest = (err x, w)
  then_rest (ok m, w) rest = with_rest m (rest w)

  -- The loop over the claimed entries; an error of an acknowledgement ends it.
  unfoldable pub parse_all : List Entry → World → Result (List StreamMessage) × World
  unfolding parse_message
  parse_all [] w = (ok [], w)
  parse_all (e ∷ es) w = then_rest (parse_message e w) (parse_all es)

  abbrev pub claimed : Reply × World → Result (List StreamMessage) × World
  claimed (entries es, w) = parse_all es w
  claimed (failure e, w) = (err (redis_error e), w)
  claimed (_, w) = (ok [], w)

  -- A ResponseError of XAUTOCLAIM is logged, and nothing is claimed.
  unfoldable pub claim_stale_messages : String → ℕ → World → Result (List StreamMessage) × World
  unfolding call parse_all
  claim_stale_messages consumer count w = claimed (
      call
        (xautoclaim settings.job_stream_key settings.job_stream_group consumer
          settings.job_stream_claim_min_idle_ms count)
        w)

  unfoldable pub send_to_dlq : String → String → Option String → World → Result String × World
  unfolding call
  send_to_dlq job_id reason source w = message_id_of (
      call
        (xadd settings.job_dlq_stream_key
          (("job_id", job_id)
            ∷ ("reason", or_else (some reason) "unknown")
            ∷ ("source_message_id", or_else source "")
            ∷ [])
          settings.job_dlq_maxlen)
        w)

  abbrev pending_of : Reply × World → Result ℕ × World
  pending_of (number n, w) = (ok n, w)
  pending_of (response_error e, w) = (err (redis_error e), w)
  pending_of (failure e, w) = (err (redis_error e), w)
  pending_of (_, w) = (ok 0, w)

  unfoldable pub pending_count : World → Result ℕ × World
  unfolding call
  pending_count w = pending_of (call (xpending settings.job_stream_key settings.job_stream_group) w)

pub record DlqEntry : Type 0 where
  pub message_id : String
  pub job_id : Option String
  pub reason : Option String
  pub source_message_id : Option String

unfoldable pub dlq_entry : Entry → DlqEntry
unfolding get_text
dlq_entry e = record {
  message_id = e.message_id;
  job_id = get_text "job_id" e.fields;
  reason = get_text "reason" e.fields;
  source_message_id = get_text "source_message_id" e.fields;
}

abbrev dlq_entries : List Entry → List DlqEntry
dlq_entries [] = []
dlq_entries (e ∷ es) = dlq_entry e ∷ dlq_entries es

module _ ⦃env : Env⦄ where
  abbrev dlq_of : Reply × World → Result (List DlqEntry) × World
  dlq_of (entries es, w) = (ok (dlq_entries es), w)
  dlq_of (response_error e, w) = (err (redis_error e), w)
  dlq_of (failure e, w) = (err (redis_error e), w)
  dlq_of (_, w) = (ok [], w)

  -- The newest entries of the dead letter stream first.
  unfoldable pub list_dlq : ℕ → World → Result (List DlqEntry) × World
  unfolding call dlq_entry
  list_dlq count w = dlq_of (call (xrevrange env.settings.job_dlq_stream_key count) w)
