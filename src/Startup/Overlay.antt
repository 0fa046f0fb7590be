-- ===== src/Startup/Overlay.antt =====
-- src/core/secrets.py: proofs on the settings that the program runs with.
use autonomous_ai_job_oreche.Prelude.{
  String, List, Option, none, some, ◌≡◌, refl, sym, ap, ◌∙◌, ◌≢◌, strip,
}
use mathlib.Core.Path.{fun_ext}
use autonomous_ai_job_oreche.Settings.{Settings, validate_secrets_for_environment}
use autonomous_ai_job_oreche.Settings.Secrets.{validate_secrets-production}
use autonomous_ai_job_oreche.Job.{Json}
use autonomous_ai_job_oreche.Startup.{
  Texts, Provider, Fetched, build_secrets_provider, overlay_pepper, overlay_jwt, overlay_bootstrap,
  settings_of, hydrate_settings_from_secrets, unless_insecure, start_settings,
}
use autonomous_ai_job_oreche.World.{Result, ok, err, ok-inj, ◌>>=◌, >>=-eq-ok}
use autonomous_ai_job_oreche.Startup.Steps.{
  holds, pepper_of, jwt_of, bootstrap_of, put_pepper, put_jwt, put_bootstrap, overlay_pepper-held,
  overlay_jwt-held, overlay_bootstrap-held,
}

module _ (environ : Texts) (fetch : String → String → Fetched) (show : Json → String) where
  -- All three secrets of a store over the settings.
  abbrev pub with_secrets : (String → Option String) → Settings → Settings
  with_secrets held s = record s {
    api_key_pepper = pepper_of environ fetch show held s;
    jwt_secret_key = jwt_of environ fetch show held s;
    auth_bootstrap_operator_key = bootstrap_of environ fetch show held s;
  }

  abbrev held_from : Result Provider → String → Option String
  held_from (ok p) name = holds environ fetch show p name
  held_from (err e) name = none

  -- What the backend of the settings holds under a name.
  pub held : Settings → String → Option String
  held s name = held_from (build_secrets_provider s) name

  -- The three steps read the same store, whether from a cache or not.
  steps-with_secrets :
      (s s2 s3 s4 : Settings) (p p2 p3 p4 : Provider)
      → overlay_pepper environ fetch show (s, p) ≡ ok (s2, p2)
      → overlay_jwt environ fetch show (s2, p2) ≡ ok (s3, p3)
      → overlay_bootstrap environ fetch show (s3, p3) ≡ ok (s4, p4)
      → s4 ≡ with_secrets (holds environ fetch show p) s
  steps-with_secrets s s2 s3 s4 p p2 p3 p4 h1 h2 h3 =
      let (pepper, same2) = overlay_pepper-held environ fetch show s s2 p p2 h1 in
      let (jwt, same3) = overlay_jwt-held environ fetch show s2 s3 p2 p3 h2 in
      let s_pepper = put_pepper environ fetch show (holds environ fetch show p) s in
      overlay_bootstrap-held environ fetch show s3 s4 p3 p4 h3
      ∙ (ap (put_bootstrap environ fetch show (holds environ fetch show p3))
            (jwt ∙ ap (put_jwt environ fetch show (holds environ fetch show p2)) pepper)
          ∙ (ap
                (λ held.
                  put_bootstrap environ fetch show held
                    (put_jwt environ fetch show (holds environ fetch show p2) s_pepper))
                (fun_ext (λ k. same3 k ∙ same2 k))
              ∙ ap
                  (λ held.
                    put_bootstrap environ fetch show (holds environ fetch show p)
                      (put_jwt environ fetch show held s_pepper))
                  (fun_ext same2)))

  steps-of_result :
      (s s1 : Settings) (p : Provider)
      → (overlay_pepper environ fetch show (s, p)
          >>= overlay_jwt environ fetch show
          >>= overlay_bootstrap environ fetch show
          >>= settings_of environ fetch show)
        ≡ ok s1
      → s1 ≡ with_secrets (holds environ fetch show p) s
  steps-of_result s s1 p h =
      let (r4, e4, last) =
        >>=-eq-ok
          (overlay_pepper environ fetch show (s, p)
            >>= overlay_jwt environ fetch show
            >>= overlay_bootstrap environ fetch show)
          (settings_of environ fetch show) s1 h in
      let (r3, e3, third) =
        >>=-eq-ok (overlay_pepper environ fetch show (s, p) >>= overlay_jwt environ fetch show)
          (overlay_bootstrap environ fetch show) r4 e4 in
      let (r2, e2, second) =
        >>=-eq-ok (overlay_pepper environ fetch show (s, p)) (overlay_jwt environ fetch show) r3
          e3 in
      sym (ok-inj last) ∙ steps-with_secrets s r2.0 r3.0 r4.0 p r2.1 r3.1 r4.1 e2 second third

  -- Whatever settings come out are those with the secrets of their backend over them.
  hydrate-with_secrets :
      (s s1 : Settings)
      → hydrate_settings_from_secrets environ fetch show s ≡ ok s1
      → s1 ≡ with_secrets (held s) s
  unfolding hydrate_settings_from_secrets held
  hydrate-with_secrets s s1 h = by_provider (build_secrets_provider s) h
    where
      by_provider :
          (b : Result Provider)
          → (b >>= (λ p.
              overlay_pepper environ fetch show (s, p)
              >>= overlay_jwt environ fetch show
              >>= overlay_bootstrap environ fetch show
              >>= settings_of environ fetch show))
            ≡ ok s1
          → s1 ≡ with_secrets (held_from b) s
      by_provider (ok p) h = steps-of_result s s1 p h
      by_provider (err e) h = absurd (cc)

  checked_settings :
      (s s1 : Settings) (o : Option (List String))
      → validate_secrets_for_environment s ≡ o
      → unless_insecure environ fetch show s o ≡ ok s1
      → (s1 ≡ s) × (validate_secrets_for_environment s1 ≡ none)
  checked_settings s s1 none e h =
      (sym (ok-inj h), ap validate_secrets_for_environment (sym (ok-inj h)) ∙ e)
  checked_settings s s1 (some names) e h = absurd (cc)

  -- If the program starts in production, then it runs with its settings, in which the pepper and the
  -- JWT secret are those that the backend holds where they were the defaults of development and the
  -- backend has one that is not empty, likewise the bootstrap key where it was empty, and in which no
  -- secret is a placeholder, the JWT secret is not empty and the bootstrap key is blank.
  pub start_settings-production :
      (s s1 : Settings)
      → s.environment ≡ "production"
      → start_settings environ fetch show s ≡ ok s1
      → (s1 ≡ with_secrets (held s) s)
        × (s1.api_key_pepper ≢ "change-me-in-production")
        × (s1.jwt_secret_key ≢ "")
        × (s1.jwt_secret_key ≢ "dev-only-change-me")
        × (s1.jwt_secret_key ≢ "change-me-in-production")
        × (strip s1.auth_bootstrap_operator_key ≡ "")
  unfolding start_settings
  start_settings-production s s1 production h =
      let (s2, hydrated, rest) =
        >>=-eq-ok (hydrate_settings_from_secrets environ fetch show s)
          (λ s2. unless_insecure environ fetch show s2 (validate_secrets_for_environment s2)) s1
          h in
      let (same, valid) = checked_settings s2 s1 (validate_secrets_for_environment s2) refl rest in
      let whole = same ∙ hydrate-with_secrets s s2 hydrated in
      let (pepper, empty, placeholder, default, bootstrap) =
        (validate_secrets-production s1 (ap (λ (x : Settings). x.environment) whole ∙ production)).0
          valid in
      (whole, pepper, empty, placeholder, default, bootstrap)
