-- ===== src/Stream/Claims.antt =====
-- src/db/stream_queue.py: proofs on the messages that a worker claims.
use autonomous_ai_job_oreche.Prelude.{
  ℕ, String, Option, none, some, List, [], ◌∷◌, ◌++◌, ◌≡◌, refl, sym, ap, ◌∙◌,
}
use autonomous_ai_job_oreche.Services.{Env, Entry, Command, Reply, entries, xautoclaim}
use autonomous_ai_job_oreche.World.{World, Result, ok, err, Error, call}
use autonomous_ai_job_oreche.Stream.{
  StreamMessage, get_text, given_text, ack, parse_message, poisoned, then_rest, with_rest,
  parse_all, claimed, claim_stale_messages,
}
use autonomous_ai_job_oreche.Stream.Effects.{after_command, ack_command, ack-after_command}

abbrev pub job_of : Entry → Option String
job_of e = given_text (get_text "job_id" e.fields)

abbrev pub with_message : Entry → Option String → List StreamMessage → List StreamMessage
with_message e none ms = ms
with_message e (some j) ms = record { message_id = e.message_id; job_id = j } ∷ ms

-- The messages of the entries that name a job.
abbrev pub messages_of : List Entry → List StreamMessage
messages_of [] = []
messages_of (e ∷ es) = with_message e (job_of e) (messages_of es)

module _ ⦃env : Env⦄ where
  abbrev pub with_ack : Entry → Option String → List Command → List Command
  with_ack e none sent = ack_command e.message_id ∷ sent
  with_ack e (some j) sent = sent

  -- The commands sent, and then one acknowledgement of each entry that names no job.
  abbrev pub poison_acks : List Entry → List Command → List Command
  poison_acks [] sent = sent
  poison_acks (e ∷ es) sent = poison_acks es (with_ack e (job_of e) sent)

  -- How reading entries ends: with a message for each entry that names a job, and an acknowledgement
  -- for each other; or at the first acknowledgement that raises, with those before it sent.
  pub data ReadAll (es : List Entry) (w : World)
      : Result (List StreamMessage) × World → Type 0 where
    all_read :
        (ms : List StreamMessage) (v : World)
        → ms ≡ messages_of es
        → v.db ≡ w.db
        → v.sent ≡ poison_acks es w.sent
        → ReadAll es w (ok ms, v)
    ack_raised :
        (x : Error) (v : World) (before rest : List Entry) (bad : Entry)
        → es ≡ before ++ (bad ∷ rest)
        → job_of bad ≡ none
        → v.db ≡ w.db
        → v.sent ≡ poison_acks (before ++ (bad ∷ [])) w.sent
        → ReadAll es w (err x, v)

  -- How reading one entry ends.
  data ReadOne (e : Entry) (w : World) : Result (Option StreamMessage) × World → Type 0 where
    message :
        (j : String)
        → job_of e ≡ some j
        → ReadOne e w (ok (some (record { message_id = e.message_id; job_id = j })), w)
    dropped :
        (v : World)
        → job_of e ≡ none
        → v ≡ after_command (ack_command e.message_id) w
        → ReadOne e w (ok none, v)
    not_dropped :
        (x : Error) (v : World)
        → job_of e ≡ none
        → v ≡ after_command (ack_command e.message_id) w
        → ReadOne e w (err x, v)

  poisoned-ReadOne :
      (e : Entry) (w : World) (r : Result (Unit {0}) × World)
      → job_of e ≡ none
      → r.1 ≡ after_command (ack_command e.message_id) w
      → ReadOne e w (poisoned r)
  poisoned-ReadOne e w (ok u, v) no_job acked = dropped v no_job acked
  poisoned-ReadOne e w (err x, v) no_job acked = not_dropped x v no_job acked

  parse_message-ReadOne : (e : Entry) (w : World) → ReadOne e w (parse_message e w)
  unfolding parse_message get_text
  parse_message-ReadOne e w = by_job (job_of e) refl
    where
      by_job :
          (o : Option String)
          → job_of e ≡ o
          → ReadOne e w (elim o [
            | none ↦ poisoned (ack e.message_id w)
            | some j ↦ (ok (some (record { message_id = e.message_id; job_id = j })), w)
          ])
      by_job none no_job =
          poisoned-ReadOne e w (ack e.message_id w) no_job (ack-after_command e.message_id w)
      by_job (some j) named = message j named

  -- After an entry that names a job, the state is that of the rest.
  named_first :
      (e : Entry) (es : List Entry) (w : World) (j : String)
      (r : Result (List StreamMessage) × World)
      → job_of e ≡ some j
      → ReadAll es w r
      → ReadAll (e ∷ es) w (with_rest (some (record { message_id = e.message_id; job_id = j })) r)
  named_first e es w j (ok ms, v) named (all_read _ _ same db sent) =
      all_read _ v
        (ap (λ l. record { message_id = e.message_id; job_id = j } ∷ l) same
          ∙ ap (λ o. with_message e o (messages_of es)) (sym named))
        db (sent ∙ ap (λ o. poison_acks es (with_ack e o w.sent)) (sym named))
  named_first e es w j (err x, v) named (ack_raised _ _ before rest bad split no_job db sent) =
      ack_raised x v (e ∷ before) rest bad (ap (λ l. e ∷ l) split) no_job db
        (sent ∙ ap (λ o. poison_acks (before ++ (bad ∷ [])) (with_ack e o w.sent)) (sym named))

  -- After an entry that names no job and was acknowledged.
  dropped_first :
      (e : Entry) (es : List Entry) (w v : World) (r : Result (List StreamMessage) × World)
      → job_of e ≡ none
      → v ≡ after_command (ack_command e.message_id) w
      → ReadAll es v r
      → ReadAll (e ∷ es) w (with_rest none r)
  dropped_first e es w v (ok ms, u) no_job acked (all_read _ _ same db sent) =
      all_read _ u (same ∙ ap (λ o. with_message e o (messages_of es)) (sym no_job))
        (db ∙ ap (λ s. s.db) acked)
        (sent
          ∙ ap (λ s. poison_acks es s.sent) acked
          ∙ ap (λ o. poison_acks es (with_ack e o w.sent)) (sym no_job))
  dropped_first e es w v (err x, u) no_job acked
        (ack_raised _ _ before rest bad split none_there db sent) =
      ack_raised x u (e ∷ before) rest bad (ap (λ l. e ∷ l) split) none_there
        (db ∙ ap (λ s. s.db) acked)
        (sent
          ∙ ap (λ s. poison_acks (before ++ (bad ∷ [])) s.sent) acked
          ∙ ap (λ o. poison_acks (before ++ (bad ∷ [])) (with_ack e o w.sent)) (sym no_job))

  then_rest-ReadAll :
      (e : Entry) (es : List Entry) (w : World) (r : Result (Option StreamMessage) × World)
      (rest : World → Result (List StreamMessage) × World)
      → ReadOne e w r
      → ((v : World) → ReadAll es v (rest v))
      → ReadAll (e ∷ es) w (then_rest r rest)
  then_rest-ReadAll e es w (ok (some m), v) rest (message j named) all =
      named_first e es w j (rest w) named (all w)
  then_rest-ReadAll e es w (ok none, v) rest (dropped _ no_job acked) all =
      dropped_first e es w v (rest v) no_job acked (all v)
  then_rest-ReadAll e es w (err x, v) rest (not_dropped _ _ no_job acked) all =
      ack_raised x v [] es e refl no_job (ap (λ s. s.db) acked)
        (ap (λ s. s.sent) acked ∙ ap (λ o. with_ack e o w.sent) (sym no_job))

  parse_all-ReadAll : (es : List Entry) (w : World) → ReadAll es w (parse_all es w)
  unfolding parse_all
  parse_all-ReadAll [] w = all_read [] w refl refl refl
  parse_all-ReadAll (e ∷ es) w =
      then_rest-ReadAll e es w (parse_message e w) (parse_all es) (parse_message-ReadOne e w)
        (parse_all-ReadAll es)

  abbrev pub claim_command : String → ℕ → Command
  claim_command consumer count =
      xautoclaim env.settings.job_stream_key env.settings.job_stream_group consumer
        env.settings.job_stream_claim_min_idle_ms count

  by_reply :
      (es : List Entry) (w : World) (r : Reply)
      → r ≡ entries es
      → ReadAll es w (parse_all es w)
      → ReadAll es w (claimed (r, w))
  by_reply es w r replied all = rw replied all

  -- If the server hands over the entries `es`, then claim_stale_messages returns, in their order, a
  -- message for each entry that names a job, after it has sent one acknowledgement for each other
  -- entry; or it raises at the first of these acknowledgements that raises, and has then sent those
  -- of the entries up to that one. In both cases the tables are as before.
  pub claim_stale_messages-ReadAll :
      (consumer : String) (count : ℕ) (es : List Entry) (w : World)
      → env.reply (claim_command consumer count) w.redis ≡ entries es
      → ReadAll es
          (after_command (claim_command consumer count) w)
          (claim_stale_messages consumer count w)
  unfolding claim_stale_messages call
  claim_stale_messages-ReadAll consumer count es w replied =
      by_reply es (after_command (claim_command consumer count) w)
        (env.reply (claim_command consumer count) w.redis) replied
        (parse_all-ReadAll es (after_command (claim_command consumer count) w))
