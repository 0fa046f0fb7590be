-- ===== src/Auth.antt =====
-- src/auth/service.py and src/auth/security.py: the API keys of the tenants. The digest of SHA-256 is
-- the argument `sha256`; the text that `generate_api_key` draws is the argument `raw_key`.
pub mod Rows
pub mod Keys
pub mod Access
pub mod ServiceAccounts
pub mod Tokens
use autonomous_ai_job_oreche.Prelude.{
  ℕ, ◌+◌, String, Bool, true, false, not, ◌&&◌, Option, none, some, List, [], ◌∷◌, filter, find,
  length, leb, ◌==◌, str_eq, truthy, or_else, strip, if◌then◌else◌,
}
use autonomous_ai_job_oreche.Services.{Env}
use autonomous_ai_job_oreche.Job.{Fields, text, field, no_fields}
use autonomous_ai_job_oreche.Principal.{Role, operator, role_text, Principal, api_key}
use autonomous_ai_job_oreche.Db.{
  ApiKeyRow, Db, get_api_key, api_key_rows, add_api_key, save_api_key,
}
use autonomous_ai_job_oreche.Output.Texts.{append_text, take_text}
use autonomous_ai_job_oreche.World.{World, Result, ok, err, integrity_error, or_raise, ◌>>=◌}
use autonomous_ai_job_oreche.Manager.{ensure_default_tenant, audit}

abbrev pub key_prefix : String → String
key_prefix raw_key = take_text 12 raw_key

abbrev pub principal_of : ApiKeyRow → Principal
principal_of row = record {
  subject_id = row.id;
  tenant_id = row.tenant_id;
  role = row.role;
  name = row.name;
  auth_method = api_key;
}

-- `ORDER BY created_at DESC`
module _ {Row : Type 0} (created_at : Row → ℕ) where
  insert_newest : Row → List Row → List Row
  insert_newest r [] = r ∷ []
  insert_newest r (x ∷ xs) =
      if leb (created_at x) (created_at r) then r ∷ x ∷ xs else x ∷ insert_newest r xs

  unfoldable pub sort_newest : List Row → List Row
  unfolding insert_newest
  sort_newest [] = []
  sort_newest (r ∷ rs) = insert_newest r (sort_newest rs)

module _ ⦃env : Env⦄ (sha256 : String → String) where
  open env use {settings, uuid}

  unfoldable pub hash_api_key : String → String → String
  hash_api_key raw_key pepper = sha256 (append_text pepper (append_text ":" raw_key))

  abbrev pub hash_of : String → String
  hash_of raw_key = hash_api_key raw_key settings.api_key_pepper

  unfoldable pub key_row : World → String → String → Role → Option String → ApiKeyRow
  key_row w raw_key name role tenant_id = record {
    id = uuid w.drawn;
    tenant_id = or_else tenant_id settings.default_tenant_id;
    name = name;
    key_prefix = key_prefix raw_key;
    key_hash = hash_of raw_key;
    role = role;
    enabled = true;
    created_at = w.now;
    last_used_at = none;
  }

  abbrev key_target : String → String
  key_target id = append_text "api_key:" id

  abbrev stored_payload : ApiKeyRow → Fields
  stored_payload row = field "name" (text row.name) (
      field "role" (text (role_text row.role)) (field "key_prefix" (text row.key_prefix) no_fields))

  -- The transaction of `create_key` and `import_key`.
  unfoldable pub stage_key : World → String → String → ApiKeyRow → Result Db
  stage_key w action actor row = do
    db ← ensure_default_tenant settings.default_tenant_id w.db
    db1 ← or_raise integrity_error (add_api_key row db)
    ok (
        audit (uuid (w.drawn + 1)) row.tenant_id w.now action (key_target row.id)
          (stored_payload row) actor db1)

  abbrev pub stored_key : World → ApiKeyRow → Result Db → Result ApiKeyRow × World
  stored_key w row (ok db) = (ok row, record w { db = db; drawn = w.drawn + 2 })
  stored_key w row (err e) = (err e, w)

  unfoldable pub import_key :
      String → String → Role → Option String → String → World → Result ApiKeyRow × World
  import_key raw_key name role tenant_id actor w =
      let row = key_row w raw_key name role tenant_id in
      stored_key w row (stage_key w "api_key.import" actor row)

  -- The caller gets the row, and the raw key that is kept nowhere.
  unfoldable pub create_key :
      String → String → Role → Option String → String → World → Result ApiKeyRow × World
  create_key raw_key name role tenant_id actor w =
      let row = key_row w raw_key name role tenant_id in
      stored_key w row (stage_key w "api_key.create" actor row)

  abbrev pub accepts : String → ApiKeyRow → Bool
  accepts hashed r = str_eq r.key_hash hashed && r.enabled

  abbrev pub validated : World → Option ApiKeyRow → Option Principal × World
  validated w none = (none, w)
  validated w (some row) = (
    some (principal_of row),
    record w { db = save_api_key (record row { last_used_at = some w.now }) w.db },
  )

  unfoldable pub validate_key : String → World → Option Principal × World
  validate_key raw_key w =
      if not (truthy raw_key)
      then (none, w)
      else validated w (find (accepts (hash_of raw_key)) (api_key_rows w.db))

  abbrev of_tenant : Option String → ApiKeyRow → Bool
  of_tenant none r = true
  of_tenant (some t) r = if truthy t then str_eq r.tenant_id t else true

  unfoldable pub list_keys : Option String → Db → List ApiKeyRow
  list_keys tenant_id db =
      sort_newest (λ r. r.created_at) (filter (of_tenant tenant_id) (api_key_rows db))

  abbrev pub revoked : World → String → String → ApiKeyRow → World
  revoked w key_id actor row = record w {
    db =
        audit (uuid w.drawn) row.tenant_id w.now "api_key.revoke" (key_target key_id)
          (field "name" (text row.name) (field "key_prefix" (text row.key_prefix) no_fields)) actor
          (save_api_key (record row { enabled = false }) w.db);
    drawn = w.drawn + 1;
  }

  unfoldable pub revoke_key : String → Option String → String → World → Bool × World
  revoke_key key_id tenant_id actor w = elim (get_api_key key_id w.db) [
    | none ↦ (false, w)
    | some row ↦ if of_tenant tenant_id row then (true, revoked w key_id actor row) else (false, w)
  ]

  abbrev bootstrapped : String → Result ApiKeyRow × World → Result (Option String) × World
  bootstrapped raw (ok row, w) = (ok (some raw), w)
  bootstrapped raw (err e, w) = (err e, w)

  -- The key of the settings is stored if there is no key at all.
  unfoldable pub bootstrap_if_empty : World → Result (Option String) × World
  bootstrap_if_empty w =
      let raw = strip settings.auth_bootstrap_operator_key in
      if not (truthy raw)
      then (ok none, w)
      else if length (api_key_rows w.db) == 0
      then bootstrapped raw (import_key raw "bootstrap-operator" operator none "system" w)
      else (ok none, w)
