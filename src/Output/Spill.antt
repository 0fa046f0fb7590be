-- ===== src/Output/Spill.antt =====
-- src/core/output.py: lemmas on one text of a run's output, in its row or in a file.
use autonomous_ai_job_oreche.Prelude.{
  ℕ, ◌≤◌, ◌<◌, String, Bool, true, false, ◌&&◌, Option, none, some, ◌≡◌, refl, sym, ap, ◌∙◌, arith,
  str_eq, eq_iff, ltb, leb, truthy, str_length, if◌then◌else◌, Bool-cases, inl, inr, le_of_not-ltb,
  ltb→lt, not,
}
use autonomous_ai_job_oreche.Services.{Env}
use autonomous_ai_job_oreche.Output.Texts.{
  append_text, slashes, slashes-append_text, has_cr, universal_newlines-no_cr,
  remove_prefix-append_text, append_text_cancel,
}
use autonomous_ai_job_oreche.Output.{
  cut_at, file_at, truncate_output, read_text, read_below, content_or_missing, log_path, spill,
  write_text, stored_text, full_text,
}
use autonomous_ai_job_oreche.World.{World, ok, ◌>>=◌}

-- The text, or `none` for an empty one.
abbrev pub nonempty : String → Option String
nonempty s = if truthy s then some s else none

truthy_of_long : (n : ℕ) (s : String) → n < str_length s → truthy s ≡ true
truthy_of_long n s h = elim (Bool-cases (str_eq s "")) [
  | inl empty ↦ absurd (omega (arith, h, ap str_length ((eq_iff s "").0 empty)))
  | inr other ↦ ap not other
]

cut_at-short : (n : ℕ) (s : String) → str_length s ≤ n → cut_at n s ≡ s
unfolding cut_at
cut_at-short n s h = rw (short n (str_length s) h) refl
  where
    short : (n k : ℕ) → k ≤ n → leb k n ≡ true
    short n k h = ground arith

module _ ⦃env : Env⦄ where
  open env use {settings}

  abbrev pub is_long : String → Bool
  is_long s = ltb settings.log_spill_threshold_chars (str_length s)

  -- The file of a spilled text is the text; all other files stay.
  pub file_at-spill :
      (path run_id file content : String) (w : World)
      → file_at path (spill run_id file content w).2.files ≡ (
          if is_long content && str_eq (log_path run_id file) path
          then some content
          else file_at path w.files)
  unfolding spill write_text file_at
  file_at-spill path run_id file content w = elim (Bool-cases (is_long content)) [
    | inl long ↦ rw (long, spill)
    | inr short ↦ rw (short, spill)
  ]

  -- The parts of `spill` that do not depend on the state.
  unfoldable pub ref_of : String → String → String → Option String
  ref_of run_id file content =
      if is_long content
      then some (append_text "local://" (slashes (log_path run_id file)))
      else none

  unfoldable pub preview_of : String → String
  preview_of content =
      if is_long content
      then truncate_output (some content) (some settings.log_inline_preview_chars)
      else content

  pub spill-parts :
      (run_id file content : String) (w : World)
      → ((spill run_id file content w).0 ≡ preview_of content)
        × ((spill run_id file content w).1 ≡ ref_of run_id file content)
  unfolding spill write_text ref_of preview_of
  spill-parts run_id file content w = elim (Bool-cases (is_long content)) [
    | inl long ↦ rw (long, spill) (refl, refl)
    | inr short ↦ rw (short, spill) (refl, refl)
  ]

  pub slashes-log_path :
      (run_id file : String)
      → slashes run_id ≡ run_id
      → slashes file ≡ file
      → slashes (log_path run_id file) ≡ log_path run_id file
  unfolding slashes
  slashes-log_path run_id file h k =
      slashes-append_text "runs/" (append_text run_id (append_text "/" file))
      ∙ ap (append_text "runs/") (
          slashes-append_text run_id (append_text "/" file)
          ∙ (ap (λ x. append_text x (slashes (append_text "/" file))) h
              ∙ ap (append_text run_id) (slashes-append_text "/" file ∙ ap (append_text "/") k)))

  read_text-log :
      (path content : String) (w : World)
      → has_cr content ≡ false
      → file_at path w.files ≡ some content
      → read_text (append_text "local://" path) w ≡ ok content
  unfolding read_text
  read_text-log path content w clean there =
      ap (λ o. read_below ref o w) (remove_prefix-append_text "local://" path)
      ∙ (ap (content_or_missing ref) there ∙ ap ok (universal_newlines-no_cr content clean))
    where
      ref : String
      ref = append_text "local://" path

  full_text-ref :
      (ref content : String) (inline : Option String) (w : World)
      → truthy ref ≡ true
      → read_text ref w ≡ ok content
      → full_text (some ref) inline w ≡ ok (some content)
  unfolding full_text
  full_text-ref ref content inline w h k =
      ap (λ b. if b then (read_text ref w >>= λ c. ok (some c)) else ok inline) h
      ∙ ap (λ r. r >>= λ c. ok (some c)) k

  -- One stored text, read back in a state that has its file if it was spilled.
  pub full_text-stored :
      (run_id file content : String) (w : World)
      → settings.log_spill_threshold_chars ≤ settings.max_run_output_chars
      → slashes (log_path run_id file) ≡ log_path run_id file
      → has_cr content ≡ false
      → (is_long content ≡ true → file_at (log_path run_id file) w.files ≡ some content)
      → full_text (ref_of run_id file content) (stored_text (preview_of content)) w
        ≡ ok (nonempty content)
  unfolding ref_of preview_of full_text stored_text truncate_output
  full_text-stored run_id file content w fits plain clean there =
      elim (Bool-cases (is_long content)) [
        | inl long ↦ rw long (
            ap (λ path. full_text (some (append_text "local://" path)) stored w) plain
            ∙ (full_text-ref ref content stored w
                  (truthy_of_long 0 ref (positive (log_path run_id file)))
                  (read_text-log (log_path run_id file) content w clean (there long))
                ∙ ap ok (sym (kept_text (truthy_of_long _ content (ltb→lt _ _ long))))))
        | inr short ↦ rw short (
            ap ok (
              ap (λ s. if truthy content then some s else none)
                (cut_at-short settings.max_run_output_chars content
                  (omega (arith, le_of_not-ltb _ _ short, fits)))))
      ]
    where
      ref : String
      ref = append_text "local://" (log_path run_id file)

      stored : Option String
      stored = stored_text (truncate_output (some content) (some settings.log_inline_preview_chars))

      positive : (path : String) → 0 < str_length (append_text "local://" path)
      positive path = omega arith

      kept_text : truthy content ≡ true → nonempty content ≡ some content
      kept_text h = ap (λ b. if b then some content else none) h

  -- The paths of two log files of a run differ as the files' names do.
  pub log_path-other :
      (run_id a b : String)
      → str_eq a b ≡ false
      → str_eq (log_path run_id a) (log_path run_id b) ≡ false
  log_path-other run_id a b h = elim (Bool-cases (str_eq (log_path run_id a) (log_path run_id b))) [
    | inl same ↦ absurd (
        clash (
          append_text_cancel "/" a b (
            append_text_cancel run_id (append_text "/" a) (append_text "/" b) (
              append_text_cancel "runs/" _ _
                ((eq_iff (log_path run_id a) (log_path run_id b)).0 same)))))
    | inr other ↦ other
  ]
    where
      clash : a ≡ b → ⊥
      clash e = ground (arith, eq_iff a b)

  pub file_at-spill_other :
      (path run_id file content : String) (w : World)
      → str_eq (log_path run_id file) path ≡ false
      → file_at path (spill run_id file content w).2.files ≡ file_at path w.files
  file_at-spill_other path run_id file content w h =
      file_at-spill path run_id file content w
      ∙ ap (λ b. if is_long content && b then some content else file_at path w.files) h
      ∙ and_false (is_long content)
    where
      and_false :
          (b : Bool)
          → (if b && false then some content else file_at path w.files) ≡ file_at path w.files
      and_false true = refl
      and_false false = refl

  pub file_at-spill_own :
      (run_id file content : String) (w : World)
      → is_long content ≡ true
      → file_at (log_path run_id file) (spill run_id file content w).2.files ≡ some content
  file_at-spill_own run_id file content w long =
      file_at-spill path run_id file content w ∙ rw (long, (eq_iff path path).1 refl) refl
    where
      path : String
      path = log_path run_id file
