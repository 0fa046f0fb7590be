-- ===== src/Startup/Held.antt =====
-- src/core/secrets.py: proofs on what a provider returns, with or without its cache.
use autonomous_ai_job_oreche.Prelude.{String, false, Option, none, some, ◌≡◌, refl, sym, ap, ◌∙◌}
use autonomous_ai_job_oreche.Job.{Json}
use autonomous_ai_job_oreche.Startup.{
  Texts, lookup, or_default, Vault, Provider, env_provider, vault_provider, Fetched, texts_of_body,
  url_of, cached, vault_value, load, get,
}
use autonomous_ai_job_oreche.World.{Result, ok, err}

module _ (environ : Texts) (fetch : String → String → Fetched) (show : Json → String) where
  -- What a store holds under a name: the cache of a Vault that has one, or the answer to a request.
  abbrev pub held_in : Result Texts → Option Texts → String → Option String
  held_in answer (some texts) name = lookup name texts
  held_in (ok texts) none name = lookup name texts
  held_in (err e) none name = none

  abbrev pub held_by : Provider → String → Option String
  held_by env_provider name = lookup name environ
  held_by (vault_provider v) name =
      held_in (texts_of_body environ fetch show (fetch (url_of environ fetch show v) v.token))
        v.cache name

  abbrev pub SameHeld : Provider → Provider → Type 0
  SameHeld p p1 = (name : String) → held_by p1 name ≡ held_by p name

  abbrev snd_of : Result (Option String) × Provider → Provider
  snd_of (r, p) = p

  fetched-held :
      (name : String) (d value : Option String) (v : Vault) (p1 : Provider) (answer : Result Texts)
      → vault_value environ fetch show name d false (cached environ fetch show v answer)
        ≡ (ok value, p1)
      → (value ≡ or_default (held_in answer none name) d)
        × ((k : String) → held_by p1 k ≡ held_in answer none k)
  fetched-held name d value v p1 (ok texts) h = (cc, λ k. ap (λ q. held_by q k) (sym (ap snd_of h)))
  fetched-held name d value v p1 (err e) h = absurd (cc)

  -- What `get` returns is held by the store, which holds the same afterwards.
  pub get-held :
      (name : String) (d value : Option String) (p p1 : Provider)
      → get environ fetch show name d false p ≡ (ok value, p1)
      → (value ≡ or_default (held_by p name) d) × SameHeld p p1
  unfolding get load
  get-held name d value env_provider p1 h = (cc, λ k. ap (λ q. held_by q k) (sym (ap snd_of h)))
  get-held name d value (vault_provider v) p1 h = by_cache v.cache refl h
    where
      answer : Result Texts
      answer = texts_of_body environ fetch show (fetch (url_of environ fetch show v) v.token)

      by_cache :
          (c : Option Texts)
          → v.cache ≡ c
          → vault_value environ fetch show name d false (load environ fetch show c v)
            ≡ (ok value, p1)
          → (value ≡ or_default (held_in answer c name) d)
            × ((k : String) → held_by p1 k ≡ held_in answer c k)
      by_cache none e h = fetched-held name d value v p1 answer h
      by_cache (some texts) e h =
          (cc, λ k. ap (λ q. held_by q k) (sym (ap snd_of h)) ∙ ap (λ c. held_in answer c k) e)
