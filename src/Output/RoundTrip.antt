-- ===== src/Output/RoundTrip.antt =====
-- src/core/output.py: proofs on storing and loading the output of a run.
use autonomous_ai_job_oreche.Prelude.{
  ◌≤◌, String, false, Option, none, some, List, [], ◌∷◌, ◌≡◌, refl, sym, ap, ◌∙◌, or_else,
}
use autonomous_ai_job_oreche.Services.{Env}
use autonomous_ai_job_oreche.Job.{encoded}
use autonomous_ai_job_oreche.Stream.{get_text}
use autonomous_ai_job_oreche.Output.Texts.{slashes, has_cr}
use autonomous_ai_job_oreche.Output.{
  log_path, spill, with_ref, refs_json, stored_text, persist_run_output, PersistedRunOutput,
  full_text, load_full_run_logs, RunLogs, is_nonempty, not_spilled,
}
use autonomous_ai_job_oreche.World.{World, ok, ok-inj}
use autonomous_ai_job_oreche.Output.Spill.{
  nonempty, ref_of, preview_of, spill-parts, slashes-log_path, full_text-stored, log_path-other,
  file_at-spill_other, file_at-spill_own,
}

module _ ⦃env : Env⦄ where
  open env use {settings}

  logs_of : List (String × String) → Option String → Option String → Option String → RunLogs
  logs_of refs x y z = record {
    stdout = x;
    stderr = y;
    error = z;
    stdout_ref = get_text "stdout" refs;
    stderr_ref = get_text "stderr" refs;
    error_ref = get_text "error" refs;
    spilled = is_nonempty refs;
  }

  load-encoded :
      (refs : List (String × String)) (so se sf : Option String) (w : World) (x y z : Option String)
      → full_text (get_text "stdout" refs) so w ≡ ok x
      → full_text (get_text "stderr" refs) se w ≡ ok y
      → full_text (get_text "error" refs) sf w ≡ ok z
      → load_full_run_logs (some (encoded refs)) so se sf w ≡ ok (logs_of refs x y z)
  unfolding load_full_run_logs logs_of
  load-encoded refs so se sf w x y z h k l = rw (h, k, l) refl

  -- The logs that are loaded from the references to three texts.
  load-refs :
      (o e f so se sf : Option String) (w : World) (x y z : Option String)
      → full_text o so w ≡ ok x
      → full_text e se w ≡ ok y
      → full_text f sf w ≡ ok z
      → (logs : RunLogs) × (load_full_run_logs
            (refs_json (with_ref "stdout" o (with_ref "stderr" e (with_ref "error" f []))))
            so
            se
            sf
            w
          ≡ ok logs)
        × (logs.stdout ≡ x)
        × (logs.stderr ≡ y)
        × (logs.error ≡ z)
  unfolding load_full_run_logs get_text full_text logs_of
  load-refs none none none so se sf w x y z h k l =
      (not_spilled so se sf, refl, ok-inj h, ok-inj k, ok-inj l)
  load-refs (some a) none none so se sf w x y z h k l =
      (_, load-encoded (("stdout", a) ∷ []) so se sf w x y z h k l, refl, refl, refl)
  load-refs none (some b) none so se sf w x y z h k l =
      (_, load-encoded (("stderr", b) ∷ []) so se sf w x y z h k l, refl, refl, refl)
  load-refs none none (some c) so se sf w x y z h k l =
      (_, load-encoded (("error", c) ∷ []) so se sf w x y z h k l, refl, refl, refl)
  load-refs (some a) (some b) none so se sf w x y z h k l = (
    _,
    load-encoded (("stdout", a) ∷ ("stderr", b) ∷ []) so se sf w x y z h k l,
    refl,
    refl,
    refl,
  )
  load-refs (some a) none (some c) so se sf w x y z h k l =
      (_, load-encoded (("stdout", a) ∷ ("error", c) ∷ []) so se sf w x y z h k l, refl, refl, refl)
  load-refs none (some b) (some c) so se sf w x y z h k l =
      (_, load-encoded (("stderr", b) ∷ ("error", c) ∷ []) so se sf w x y z h k l, refl, refl, refl)
  load-refs (some a) (some b) (some c) so se sf w x y z h k l = (
    _,
    load-encoded (("stdout", a) ∷ ("stderr", b) ∷ ("error", c) ∷ []) so se sf w x y z h k l,
    refl,
    refl,
    refl,
  )

  -- What `persist_run_output` stores and the state it leaves.
  persisted-parts :
      (run_id : String) (stdout stderr error : Option String) (w : World)
      → (r : PersistedRunOutput × World) → persist_run_output run_id stdout stderr error w ≡ r
      → (r.0.stdout ≡ stored_text (preview_of (or_else stdout "")))
        × (r.0.stderr ≡ stored_text (preview_of (or_else stderr "")))
        × (r.0.error ≡ stored_text (preview_of (or_else error "")))
        × (r.0.log_ref
            ≡ refs_json (
                with_ref "stdout" (ref_of run_id "stdout.txt" (or_else stdout "")) (
                  with_ref "stderr"
                    (ref_of run_id "stderr.txt" (or_else stderr ""))
                    (with_ref "error" (ref_of run_id "error.txt" (or_else error "")) []))))
  unfolding persist_run_output
  persisted-parts run_id stdout stderr error w r e = rw (sym e) (
    ap stored_text out.0,
    ap stored_text errs.0,
    ap stored_text fault.0,
    rw (out.1, errs.1, fault.1) refl,
  )
    where
      w1 : World
      w1 = (spill run_id "stdout.txt" (or_else stdout "") w).2

      w2 : World
      w2 = (spill run_id "stderr.txt" (or_else stderr "") w1).2

      Parts : String → String → World → Type 0
      Parts file content x =
          ((spill run_id file content x).0 ≡ preview_of content)
          × ((spill run_id file content x).1 ≡ ref_of run_id file content)

      out : Parts "stdout.txt" (or_else stdout "") w
      out = spill-parts run_id "stdout.txt" (or_else stdout "") w

      errs : Parts "stderr.txt" (or_else stderr "") w1
      errs = spill-parts run_id "stderr.txt" (or_else stderr "") w1

      fault : Parts "error.txt" (or_else error "") w2
      fault = spill-parts run_id "error.txt" (or_else error "") w2

  -- The output that `persist_run_output` stores is what `load_full_run_logs` then returns: each of the
  -- three texts comes back as it was, in the row or in a file, an empty text as none. This is if no
  -- text has a carriage return, the run's id has no backslash, and a text that is short enough to stay
  -- in the row is not too long to be stored there.
  pub persist_run_output-loaded :
      (run_id : String) (stdout stderr error : Option String) (w : World)
      → settings.log_spill_threshold_chars ≤ settings.max_run_output_chars
      → slashes run_id ≡ run_id
      → has_cr (or_else stdout "") ≡ false
      → has_cr (or_else stderr "") ≡ false
      → has_cr (or_else error "") ≡ false
      → (logs : RunLogs) × (load_full_run_logs
            (persist_run_output run_id stdout stderr error w).0.log_ref
            (persist_run_output run_id stdout stderr error w).0.stdout
            (persist_run_output run_id stdout stderr error w).0.stderr
            (persist_run_output run_id stdout stderr error w).0.error
            (persist_run_output run_id stdout stderr error w).1
          ≡ ok logs)
        × (logs.stdout ≡ nonempty (or_else stdout ""))
        × (logs.stderr ≡ nonempty (or_else stderr ""))
        × (logs.error ≡ nonempty (or_else error ""))
  unfolding persist_run_output
  persist_run_output-loaded run_id stdout stderr error w fits plain clean1 clean2 clean3 =
      let parts = persisted-parts run_id stdout stderr error w _ refl in
      rw (parts.0, parts.1, parts.2, parts.3)
        (load-refs (ref_of run_id "stdout.txt" a) (ref_of run_id "stderr.txt" b)
          (ref_of run_id "error.txt" c) (stored_text (preview_of a)) (stored_text (preview_of b))
          (stored_text (preview_of c)) w3 (nonempty a) (nonempty b) (nonempty c)
          (full_text-stored run_id "stdout.txt" a w3 fits
            (slashes-log_path run_id "stdout.txt" plain slashed_out) clean1
            (λ long.
              file_at-spill_other (log_path run_id "stdout.txt") run_id "error.txt" c w2
                (log_path-other run_id "error.txt" "stdout.txt" refl)
              ∙ (file_at-spill_other (log_path run_id "stdout.txt") run_id "stderr.txt" b w1
                    (log_path-other run_id "stderr.txt" "stdout.txt" refl)
                  ∙ file_at-spill_own run_id "stdout.txt" a w long)))
          (full_text-stored run_id "stderr.txt" b w3 fits
            (slashes-log_path run_id "stderr.txt" plain slashed_err) clean2
            (λ long.
              file_at-spill_other (log_path run_id "stderr.txt") run_id "error.txt" c w2
                (log_path-other run_id "error.txt" "stderr.txt" refl)
              ∙ file_at-spill_own run_id "stderr.txt" b w1 long))
          (full_text-stored run_id "error.txt" c w3 fits
            (slashes-log_path run_id "error.txt" plain slashed_fault) clean3
            (λ long. file_at-spill_own run_id "error.txt" c w2 long)))
    where
      a : String
      a = or_else stdout ""

      b : String
      b = or_else stderr ""

      c : String
      c = or_else error ""

      w1 : World
      w1 = (spill run_id "stdout.txt" a w).2

      w2 : World
      w2 = (spill run_id "stderr.txt" b w1).2

      w3 : World
      w3 = (spill run_id "error.txt" c w2).2

      slashed_out : slashes "stdout.txt" ≡ "stdout.txt"
      slashed_out = unfold slashes in refl

      slashed_err : slashes "stderr.txt" ≡ "stderr.txt"
      slashed_err = unfold slashes in refl

      slashed_fault : slashes "error.txt" ≡ "error.txt"
      slashed_fault = unfold slashes in refl
