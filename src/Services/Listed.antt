-- ===== src/Services/Listed.antt =====
-- src/db: the database as lists of rows, an `Env` to run the code on.
use autonomous_ai_job_oreche.Prelude.{
  ℕ, ◌+◌, String, Bool, Option, none, some, List, [], ◌∷◌, ◌≡◌, refl, arith, str_eq, eq_iff, find,
  count, bit, if◌then◌else◌,
}
use autonomous_ai_job_oreche.Settings.{Settings}
use autonomous_ai_job_oreche.Job.{Fields}
use autonomous_ai_job_oreche.Services.{Env, Command, Reply}

module _ {Row : Type 0} (key : Row → String) where
  abbrev pub by_key : String → List Row → Option Row
  by_key k t = find (λ r. str_eq (key r) k) t

  abbrev pub replace : Row → List Row → List Row
  replace r [] = []
  replace r (x ∷ t) = if str_eq (key x) (key r) then r ∷ t else x ∷ replace r t

  pub by_key-cons :
      (k : String) (r : Row) (t : List Row)
      → by_key (key r) t ≡ none
      → by_key k (r ∷ t) ≡ (if str_eq (key r) k then some r else by_key k t)
  by_key-cons k r t h = refl

  pub by_key-replace :
      (k : String) (r old : Row) (t : List Row)
      → by_key (key r) t ≡ some old
      → by_key k (replace r t) ≡ (if str_eq (key r) k then some r else by_key k t)
  by_key-replace k r old [] h = ground arith
  by_key-replace k r old (x ∷ t) h =
      ground (
        arith,
        by_key-replace k r old t,
        eq_iff (key x) (key r),
        eq_iff (key x) k,
        eq_iff (key r) k,
      )

  pub count-replace :
      (p : Row → Bool) (r old : Row) (t : List Row)
      → by_key (key r) t ≡ some old
      → count p (replace r t) + bit (p old) ≡ bit (p r) + count p t
  count-replace p r old [] h = ground arith
  count-replace p r old (x ∷ t) h = ground (arith, count-replace p r old t)

-- An environment over lists, for any settings, texts to draw and Redis server.
abbrev pub listed_env :
    Settings
    → (String → String → Bool)
    → (Fields → ℕ)
    → (ℕ → String)
    → (R : Type 0) → (Command → R → Reply)
    → (Command → R → R)
    → Env
listed_env settings text_le dumps_length uuid R reply after = record {
  settings = settings;
  Table = λ Row. List Row;
  rows = λ Row t. t;
  get_row = λ Row key k t. by_key key k t;
  insert_row = λ Row r t. r ∷ t;
  update_row = λ Row key r t. replace key r t;
  get_row_query = λ Row key k t. refl;
  get_row-insert = λ Row key. by_key-cons key;
  get_row-update = λ Row key. by_key-replace key;
  count-insert = λ Row p r t. refl;
  count-update = λ Row key. count-replace key;
  text_le = text_le;
  dumps_length = dumps_length;
  uuid = uuid;
  Redis = R;
  reply = reply;
  after = after;
}
