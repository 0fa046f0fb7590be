-- ===== src/Output.antt =====
-- src/core/output.py and src/storage: the truncation of a run's output, the log files, and the
-- output as it is stored with a run and loaded in full.
pub mod Texts
pub mod Spill
pub mod RoundTrip
use Prim.Native.Char.{Char, code}
use autonomous_ai_job_oreche.Prelude.{
  ℕ, zero, suc, ◌-◌, String, Bool, true, false, ◌&&◌, Option, none, some, List, [], ◌∷◌, str_eq,
  ltb, leb, ◌==◌, truthy, or_else, given, str_length, if◌then◌else◌,
}
use autonomous_ai_job_oreche.Services.{Env}
use autonomous_ai_job_oreche.Job.{LogRef, encoded, malformed}
use autonomous_ai_job_oreche.Stream.{get_text}
use autonomous_ai_job_oreche.World.{
  World, Result, ok, err, unsupported_log_ref, log_not_found, ◌>>=◌,
}
use Texts.{append_text, take_text, remove_prefix, slashes, universal_newlines, decimal}

-- `text[:max_len] + f"\n...[truncated {len(text) - max_len} chars]"` if it is longer
unfoldable pub cut_at : ℕ → String → String
unfolding decimal
cut_at max_len s =
    if leb (str_length s) max_len
    then s
    else append_text (take_text max_len s)
        (append_text "\n...[truncated " (append_text (decimal (str_length s - max_len)) " chars]"))

-- What `persist_run_output` stores in the row of a run.
pub record PersistedRunOutput : Type 0 where
  pub stdout : Option String
  pub stderr : Option String
  pub error : Option String
  pub log_ref : Option LogRef

pub record RunLogs : Type 0 where
  pub stdout : Option String
  pub stderr : Option String
  pub error : Option String
  pub stdout_ref : Option String
  pub stderr_ref : Option String
  pub error_ref : Option String
  pub spilled : Bool

-- `limit or settings.MAX_RUN_OUTPUT_CHARS`
abbrev pub limit_or : Option ℕ → ℕ → ℕ
limit_or none d = d
limit_or (some zero) d = d
limit_or (some (suc n)) d = suc n

-- The file at a path; the last write counts.
unfoldable pub file_at : String → List (String × String) → Option String
file_at path [] = none
file_at path ((p, content) ∷ files) = if str_eq p path then some content else file_at path files

module _ ⦃env : Env⦄ where
  open env use {settings}

  unfoldable pub truncate_output : Option String → Option ℕ → String
  unfolding cut_at
  truncate_output none limit = ""
  truncate_output (some s) limit = cut_at (limit_or limit settings.max_run_output_chars) s

  unfoldable pub write_text : String → String → World → String × World
  write_text path content w =
      (append_text "local://" (slashes path), record w { files = (path, content) ∷ w.files })

  abbrev pub content_or_missing : String → Option String → Result String
  content_or_missing ref none = err (log_not_found ref)
  content_or_missing ref (some content) = ok (universal_newlines content)

  abbrev pub read_below : String → Option String → World → Result String
  read_below ref none w = err (unsupported_log_ref ref)
  read_below ref (some path) w = content_or_missing ref (file_at path w.files)

  -- Text files are read with universal newlines.
  unfoldable pub read_text : String → World → Result String
  unfolding file_at
  read_text ref w = read_below ref (remove_prefix "local://" ref) w

  abbrev pub log_path : String → String → String
  log_path run_id file = append_text "runs/" (append_text run_id (append_text "/" file))

  -- A long text goes to a file, and its preview stays.
  unfoldable pub spill : String → String → String → World → String × Option String × World
  spill run_id file content w =
      if ltb settings.log_spill_threshold_chars (str_length content)
      then (let (ref, w1) = write_text (log_path run_id file) content w in
          (truncate_output (some content) (some settings.log_inline_preview_chars), some ref, w1))
      else (content, none, w)

  abbrev pub with_ref : String → Option String → List (String × String) → List (String × String)
  with_ref name none rest = rest
  with_ref name (some ref) rest = (name, ref) ∷ rest

  abbrev pub refs_json : List (String × String) → Option LogRef
  refs_json [] = none
  refs_json (r ∷ rest) = some (encoded (r ∷ rest))

  unfoldable pub stored_text : String → Option String
  unfolding truncate_output
  stored_text s = if truthy s then some (truncate_output (some s) none) else none

  unfoldable pub persist_run_output :
      String → Option String → Option String → Option String → World → PersistedRunOutput × World
  persist_run_output run_id stdout stderr error w =
      let (out, out_ref, w1) = spill run_id "stdout.txt" (or_else stdout "") w in
      let (errs, errs_ref, w2) = spill run_id "stderr.txt" (or_else stderr "") w1 in
      let (fault, fault_ref, w3) = spill run_id "error.txt" (or_else error "") w2 in
      (
        record {
          stdout = stored_text out;
          stderr = stored_text errs;
          error = stored_text fault;
          log_ref = refs_json (
              with_ref "stdout" out_ref
                (with_ref "stderr" errs_ref (with_ref "error" fault_ref [])));
        },
        w3,
      )

  -- The full text behind a reference, or the stored text where there is none.
  unfoldable pub full_text : Option String → Option String → World → Result (Option String)
  unfolding read_text
  full_text none inline w = ok inline
  full_text (some ref) inline w =
      if truthy ref then (do content ← read_text ref w; ok (some content)) else ok inline

  abbrev pub not_spilled : Option String → Option String → Option String → RunLogs
  not_spilled stdout stderr error = record {
    stdout = stdout;
    stderr = stderr;
    error = error;
    stdout_ref = none;
    stderr_ref = none;
    error_ref = none;
    spilled = false;
  }

  abbrev pub is_nonempty : List (String × String) → Bool
  is_nonempty [] = false
  is_nonempty (r ∷ rest) = true

  unfoldable pub load_full_run_logs :
      Option LogRef → Option String → Option String → Option String → World → Result RunLogs
  load_full_run_logs none stdout stderr error w = ok (not_spilled stdout stderr error)
  load_full_run_logs (some (malformed s)) stdout stderr error w =
      ok (not_spilled stdout stderr error)
  load_full_run_logs (some (encoded refs)) stdout stderr error w = do
    out ← full_text (get_text "stdout" refs) stdout w
    errs ← full_text (get_text "stderr" refs) stderr w
    fault ← full_text (get_text "error" refs) error w
    ok (record {
      stdout = out;
      stderr = errs;
      error = fault;
      stdout_ref = get_text "stdout" refs;
      stderr_ref = get_text "stderr" refs;
      error_ref = get_text "error" refs;
      spilled = is_nonempty refs;
    })
