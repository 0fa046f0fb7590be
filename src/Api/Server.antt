-- ===== src/Api/Server.antt =====
-- src/tenancy/middleware.py, which refuses a large body before any route is called, and the probes of
-- src/api/health.py. `int_of` is `int(text)`, or `none` if that raises a ValueError; the probes are
-- given what the database and Redis raised, if they did.
use autonomous_ai_job_oreche.Prelude.{
  ℤ, pos, negsuc, String, Bool, false, ◌&&◌, Option, none, some, ltb, str_eq, truthy, if◌then◌else◌,
}
use autonomous_ai_job_oreche.Services.{Env}
use autonomous_ai_job_oreche.Output.Texts.{append_text, decimal}
use autonomous_ai_job_oreche.World.{World}
use autonomous_ai_job_oreche.Api.{Response, answered, http_error, message}

-- The body of the answer of `ready`.
pub record Readiness : Type 0 where
  pub status : String
  pub postgres : String
  pub redis : String

-- A check is "ok", or the text of what was raised.
abbrev check_of : Option String → String
check_of none = "ok"
check_of (some raised) = raised

unfoldable pub ready : Option String → Option String → Response Readiness
ready database_error redis_error =
    let healthy = str_eq (check_of database_error) "ok" && str_eq (check_of redis_error) "ok" in
    answered (if healthy then 200 else 503) (record {
      status = if healthy then "ok" else "degraded";
      postgres = check_of database_error;
      redis = check_of redis_error;
    })

module _ ⦃env : Env⦄ (int_of : String → Option ℤ) where
  open env use {settings}

  abbrev exceeds : Option ℤ → Bool
  exceeds none = false
  exceeds (some (pos n)) = ltb settings.max_request_body_bytes n
  exceeds (some (negsuc n)) = false

  -- Whether a request with this header is refused; an empty header counts as none.
  unfoldable pub too_large : Option String → Bool
  too_large none = false
  too_large (some header) = truthy header && exceeds (int_of header)

  -- `dispatch` around the rest of the application.
  unfoldable pub size_limited {ℓ} :
      {A : Type ℓ} → Option String → (World → Response A × World) → World → Response A × World
  unfolding too_large
  size_limited content_length call_next w =
      if too_large content_length
      then (
        http_error 413 (
            message (
              append_text "Request body exceeds "
                (append_text (decimal settings.max_request_body_bytes) " bytes"))),
        w,
      )
      else call_next w
