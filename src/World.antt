-- ===== src/World.antt =====
-- The state that the processes of the program share, and the results of calls that may raise.
pub mod Same
use autonomous_ai_job_oreche.Prelude.{
  ◌≡◌, refl, ◌⊎◌, inl, inr, true, false, ℕ, String, Bool, Option, none, some, List, ◌∷◌,
  if◌then◌else◌,
}
use autonomous_ai_job_oreche.Services.{Env, Command, Reply}
use autonomous_ai_job_oreche.Job.{JobStatus, Json}
use autonomous_ai_job_oreche.Db.{Db}

-- What the modelled code raises; the ValueErrors are told apart by their messages.
pub data Error : Type 0 where
  quota_exceeded : ℕ → ℕ → Error
  executor_not_allowed : Json → Error
  duplicate_dag_keys : Error
  unknown_dag_dependency : String → Error
  cannot_be_cancelled : JobStatus → Error
  cannot_be_retried : JobStatus → Error
  dependencies_not_met : Error
  unsupported_log_ref : String → Error
  log_not_found : String → Error
  rate_limit_exceeded : ℕ → Error
  type_error : Error
  zero_division : Error
  integrity_error : Error
  redis_error : String → Error
  key_error : String → Error
  validation_error : Error
  algorithm_not_supported : Error
  runtime_error : String → Error
  http_error : String → Error

-- What a call returns, or what it raises.
pub data Result {ℓ} (A : Type ℓ) : Type ℓ where
  err : Error → Result A
  ok : A → Result A

pub Result-cases {ℓ} :
    {A : Type ℓ} (r : Result A) → ((e : Error) × (r ≡ err e)) ⊎ ((a : A) × (r ≡ ok a))
Result-cases (err e) = inl (e, refl)
Result-cases (ok a) = inr (a, refl)

abbrev pub or_raise {ℓ} : {A : Type ℓ} → Error → Option A → Result A
or_raise e none = err e
or_raise e (some a) = ok a

abbrev pub raise_if : Bool → Error → Result (Unit {0})
raise_if b e = if b then err e else ok tt

module _ {ℓ κ} {A : Type ℓ} {B : Type κ} where
  -- What raises ends the chain.
  infixl 5 ◌>>=◌
  abbrev pub ◌>>=◌ : Result A → (A → Result B) → Result B
  err raised >>= next = err raised
  ok value >>= next = next value

  -- A chain that returns went through each of its steps.
  pub >>=-eq-ok :
      (m : Result A) (next : A → Result B) (b : B)
      → (m >>= next) ≡ ok b
      → (value : A) × (m ≡ ok value) × (next value ≡ ok b)
  >>=-eq-ok (err raised) next b h = cc
  >>=-eq-ok (ok value) next b h = (value, refl, h)

module _ {ℓ} {A : Type ℓ} where
  -- A check, and what follows if it does not raise.
  infixl 5 ◌>>◌
  abbrev pub ◌>>◌ : Result (Unit {0}) → Result A → Result A
  check >> next = check >>= λ _. next

  pub ok-inj : {a b : A} → ok a ≡ ok b → a ≡ b
  ok-inj h = cc

  pub or_raise-eq-ok : (e : Error) (o : Option A) (a : A) → or_raise e o ≡ ok a → o ≡ some a
  or_raise-eq-ok e none a h = cc
  or_raise-eq-ok e (some x) a h = cc

pub raise_if-eq-ok : (b : Bool) (e : Error) (u : Unit {0}) → raise_if b e ≡ ok u → b ≡ false
raise_if-eq-ok true e u h = cc
raise_if-eq-ok false e u h = refl

module _ ⦃env : Env⦄ where
  -- `db` holds what is committed; a transaction works on a copy of it. `drawn` counts the texts that
  -- `uuid4` has drawn, `sent` has the Redis commands of this process, the last one first, and `files`
  -- the files below the root of the log store.
  pub record World : Type 0 where
    pub db : Db
    pub redis : env.Redis
    pub now : ℕ
    pub drawn : ℕ
    pub sent : List Command
    pub files : List (String × String)

  -- One command to the Redis server.
  unfoldable pub call : Command → World → Reply × World
  call c w = (env.reply c w.redis, record w { redis = env.after c w.redis; sent = c ∷ w.sent })
