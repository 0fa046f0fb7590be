-- ===== src/Startup/Steps.antt =====
-- src/core/secrets.py: proofs on each of the three secrets that are laid over the settings.
use autonomous_ai_job_oreche.Prelude.{
  String, Bool, true, false, Option, none, some, ◌≡◌, refl, sym, ap, ◌∙◌, str_eq, truthy, or_else,
  if◌then◌else◌,
}
use autonomous_ai_job_oreche.Settings.{Settings}
use autonomous_ai_job_oreche.Job.{Json}
use autonomous_ai_job_oreche.Startup.{
  Texts, or_default, Provider, Fetched, get, overlaid, with_pepper, with_jwt, with_bootstrap,
  overlay_pepper, overlay_jwt, overlay_bootstrap,
}
use autonomous_ai_job_oreche.World.{Result, ok, err, ok-inj}
use autonomous_ai_job_oreche.Startup.Held.{held_by, get-held}

module _ (environ : Texts) (fetch : String → String → Fetched) (show : Json → String) where
  abbrev pub holds : Provider → String → Option String
  holds p = held_by environ fetch show p

  abbrev pub SameStore : Provider → Provider → Type 0
  SameStore p p1 = (name : String) → holds p1 name ≡ holds p name

  -- The settings with the secrets of a store over them: the pepper and the JWT secret where they
  -- are the defaults, the bootstrap key where it is empty.
  abbrev pub pepper_of : (String → Option String) → Settings → String
  pepper_of held s =
      if str_eq s.api_key_pepper "change-me-in-production"
      then or_else (held "API_KEY_PEPPER") s.api_key_pepper
      else s.api_key_pepper

  abbrev pub jwt_of : (String → Option String) → Settings → String
  jwt_of held s =
      if str_eq s.jwt_secret_key "dev-only-change-me"
      then or_else (held "JWT_SECRET_KEY") s.jwt_secret_key
      else s.jwt_secret_key

  abbrev pub bootstrap_of : (String → Option String) → Settings → String
  bootstrap_of held s =
      if truthy s.auth_bootstrap_operator_key
      then s.auth_bootstrap_operator_key
      else or_else (held "AUTH_BOOTSTRAP_OPERATOR_KEY") s.auth_bootstrap_operator_key

  abbrev pub put_pepper : (String → Option String) → Settings → Settings
  put_pepper held s = record s { api_key_pepper = pepper_of held s }

  abbrev pub put_jwt : (String → Option String) → Settings → Settings
  put_jwt held s = record s { jwt_secret_key = jwt_of held s }

  abbrev pub put_bootstrap : (String → Option String) → Settings → Settings
  put_bootstrap held s = record s { auth_bootstrap_operator_key = bootstrap_of held s }

  overlaid-held :
      (f : Option String → Settings) (name : String) (d : Option String) (p : Provider)
      (r : Result (Option String) × Provider) (s1 : Settings) (p1 : Provider)
      → get environ fetch show name d false p ≡ r
      → overlaid environ fetch show f r ≡ ok (s1, p1)
      → (s1 ≡ f (or_default (holds p name) d)) × SameStore p p1
  overlaid-held f name d p (err e, p2) s1 p1 got h = absurd (cc)
  overlaid-held f name d p (ok value, p2) s1 p1 got h =
      let found = get-held environ fetch show name d value p p2 got in
      (
        sym (ap (λ (x : Settings × Provider). x.0) (ok-inj h)) ∙ ap f found.0,
        λ k.
            ap (λ q. holds q k) (sym (ap (λ (x : Settings × Provider). x.1) (ok-inj h)))
            ∙ found.1 k,
      )

  overlay-held :
      (f : Option String → Settings) (s : Settings) (name : String) (p : Provider) (s1 : Settings)
      (p1 : Provider) (test : Bool)
      → (if test
          then overlaid environ fetch show f (get environ fetch show name none false p)
          else ok (s, p))
        ≡ ok (s1, p1)
      → (s1 ≡ (if test then f (or_default (holds p name) none) else s)) × SameStore p p1
  overlay-held f s name p s1 p1 true h =
      overlaid-held f name none p (get environ fetch show name none false p) s1 p1 refl h
  overlay-held f s name p s1 p1 false h = (
    sym (ap (λ (x : Settings × Provider). x.0) (ok-inj h)),
    λ k. ap (λ q. holds q k) (sym (ap (λ (x : Settings × Provider). x.1) (ok-inj h))),
  )

  pepper_if :
      (s : Settings) (held : Option String) (test : Bool)
      → (if test then with_pepper environ fetch show s (or_default held none) else s) ≡ record s {
        api_key_pepper = if test then or_else held s.api_key_pepper else s.api_key_pepper;
      }
  pepper_if s none true = refl
  pepper_if s (some v) true = refl
  pepper_if s held false = refl

  jwt_if :
      (s : Settings) (held : Option String) (test : Bool)
      → (if test then with_jwt environ fetch show s (or_default held none) else s) ≡ record s {
        jwt_secret_key = if test then or_else held s.jwt_secret_key else s.jwt_secret_key;
      }
  jwt_if s none true = refl
  jwt_if s (some v) true = refl
  jwt_if s held false = refl

  or_empty :
      (held : Option String) (d : String) → or_else (or_default held (some "")) d ≡ or_else held d
  or_empty none d = refl
  or_empty (some v) d = refl

  pub overlay_pepper-held :
      (s s1 : Settings) (p p1 : Provider)
      → overlay_pepper environ fetch show (s, p) ≡ ok (s1, p1)
      → (s1 ≡ put_pepper (holds p) s) × SameStore p p1
  unfolding overlay_pepper
  overlay_pepper-held s s1 p p1 h =
      let test = str_eq s.api_key_pepper "change-me-in-production" in
      let step =
        overlay-held (with_pepper environ fetch show s) s "API_KEY_PEPPER" p s1 p1 test h in
      (step.0 ∙ pepper_if s (holds p "API_KEY_PEPPER") test, step.1)

  pub overlay_jwt-held :
      (s s1 : Settings) (p p1 : Provider)
      → overlay_jwt environ fetch show (s, p) ≡ ok (s1, p1)
      → (s1 ≡ put_jwt (holds p) s) × SameStore p p1
  unfolding overlay_jwt
  overlay_jwt-held s s1 p p1 h =
      let test = str_eq s.jwt_secret_key "dev-only-change-me" in
      let step = overlay-held (with_jwt environ fetch show s) s "JWT_SECRET_KEY" p s1 p1 test h in
      (step.0 ∙ jwt_if s (holds p "JWT_SECRET_KEY") test, step.1)

  pub overlay_bootstrap-held :
      (s s1 : Settings) (p p1 : Provider)
      → overlay_bootstrap environ fetch show (s, p) ≡ ok (s1, p1)
      → s1 ≡ put_bootstrap (holds p) s
  unfolding overlay_bootstrap
  overlay_bootstrap-held s s1 p p1 h =
      (overlaid-held (with_bootstrap environ fetch show s) "AUTH_BOOTSTRAP_OPERATOR_KEY" (some "") p
        (get environ fetch show "AUTH_BOOTSTRAP_OPERATOR_KEY" (some "") false p) s1 p1 refl h).0
      ∙ ap
          (λ t. record s {
            auth_bootstrap_operator_key =
                if truthy s.auth_bootstrap_operator_key then s.auth_bootstrap_operator_key else t;
          })
          (or_empty (holds p "AUTH_BOOTSTRAP_OPERATOR_KEY") s.auth_bootstrap_operator_key)
