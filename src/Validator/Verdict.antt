-- ===== src/Validator/Verdict.antt =====
-- What a text needs to be accepted.
use openspoke.Common.{
  ℕ, ◌≡◌, ◌↔◌, refl, Bool, true, ◌&&◌, Option, none, some, List, [], ◌∷◌, ◌++◌, arith, All, Result,
  ok, err,
}
use openspoke.Common.Text.{Text, codes}
use openspoke.Validator.{
  Diagnostic, Report, CompileError, Checkers, all_diagnostics, none_left, of_report, after_write,
  in_dir, check_syntax, check_semantic, of_compiled, validate,
}

abbrev pub HasNone : List Diagnostic → Type 0
HasNone ds = ds ≡ []

-- The syntax checker takes the file: it is written, and the report is valid and empty.
pub record IsClean (k : Checkers) (content dir : Text) : Type 0 where
  pub made : k.tempdir ≡ ok dir
  pub written : k.write_file (dir ++ codes "/topic.sysml") content ≡ none
  pub reported :
      (r : Report) × (k.check_path (dir ++ codes "/topic.sysml") content ≡ ok r)
      × (r.valid ≡ true)
      × All HasNone r.files

append-nil_parts :
    (xs ys : List Diagnostic) → none_left (xs ++ ys) ≡ true → (xs ≡ []) × (none_left ys ≡ true)
append-nil_parts [] ys h = (refl, h)
append-nil_parts (x ∷ xs) ys h = cc

all_diagnostics_sound :
    (fs : List (List Diagnostic)) → none_left (all_diagnostics fs) ≡ true → All HasNone fs
unfolding all_diagnostics
all_diagnostics_sound [] h = tt
all_diagnostics_sound (ds ∷ fs) h =
    let (a, b) = append-nil_parts ds (all_diagnostics fs) h in (a, all_diagnostics_sound fs b)

all_diagnostics_complete : (fs : List (List Diagnostic)) → All HasNone fs → all_diagnostics fs ≡ []
unfolding all_diagnostics
all_diagnostics_complete [] h = refl
all_diagnostics_complete (ds ∷ fs) h = rw (h.0, all_diagnostics_complete fs h.1)

and-parts : (a b : Bool) → (a && b) ≡ true → (a ≡ true) × (b ≡ true)
and-parts a b h = ground arith

of_report_sound :
    (o : Result Text Report)
    → (of_report o).ok ≡ true
    → (r : Report) × (o ≡ ok r) × (r.valid ≡ true) × All HasNone r.files
of_report_sound (ok r) h =
    let (v, n) = and-parts r.valid (none_left (all_diagnostics r.files)) h in
    (r, refl, v, all_diagnostics_sound r.files n)
of_report_sound (err e) h = cc

after_write_sound :
    (o : Result Text Report) (w : Option Text)
    → (after_write o w).ok ≡ true
    → (w ≡ none) × ((of_report o).ok ≡ true)
after_write_sound o none h = (refl, h)
after_write_sound o (some e) h = cc

module _ (k : Checkers) (content : Text) where
  in_dir_sound :
      (o : Result Text Text)
      → k.tempdir ≡ o
      → (in_dir k content o).ok ≡ true
      → (dir : Text) × IsClean k content dir
  in_dir_sound (err e) q h = cc
  in_dir_sound (ok dir) q h =
      let (w, rep) = after_write_sound _ _ h in
      (dir, record { made = q; written = w; reported = of_report_sound _ rep })

  check_syntax_sound : (check_syntax k content).ok ≡ true → (dir : Text) × IsClean k content dir
  unfolding check_syntax
  check_syntax_sound h = in_dir_sound k.tempdir refl h

  check_syntax_complete : (dir : Text) → IsClean k content dir → (check_syntax k content).ok ≡ true
  unfolding check_syntax
  check_syntax_complete dir c =
      let (r, q, v, n) = c.reported in
      rw (c.made, c.written, q, v, all_diagnostics_complete r.files n)

  check_semantic_sound :
      (o : Result CompileError ℕ) → (of_compiled o).0.ok ≡ true → (n : ℕ) × (o ≡ ok n)
  check_semantic_sound (ok n) h = (n, refl)
  check_semantic_sound (err e) h = cc

  -- A text is accepted exactly when the temporary file could be written, the syntax checker's report
  -- on it is valid and has no diagnostic for any file, and the validator compiles the text.
  pub validate_iff :
      (elapsed : ℕ)
      → ((validate k elapsed content).ok ≡ true)
        ↔ (((dir : Text) × IsClean k content dir) × ((n : ℕ) × (k.compile_text content ≡ ok n)))
  unfolding validate check_semantic
  validate_iff elapsed = (
    (λ h.
        let (s, t) = and-parts (check_syntax k content).ok (check_semantic k content).0.ok h in
        (check_syntax_sound s, check_semantic_sound (k.compile_text content) t)),
    (λ p. let (c, q) = p in rw (check_syntax_complete c.0 c.1, q.1)),
  )
