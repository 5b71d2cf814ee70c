-- ===== src/Examples/Validator.antt =====
-- The theorems on sysml-validator at a concrete request.
use openspoke.Common.{ℕ, ◌≡◌, ◌↔◌, true, none, [], ◌∷◌, ok}
use openspoke.Common.Text.{Text, codes}
use openspoke.Validator.{Checkers, Request, post_method, handle, validate}
use openspoke.Validator.Verdict.{IsClean, validate_iff}
use openspoke.Validator.Status.{Answers, handle-Answers}

-- Checkers that find nothing, and a reader that takes any body for a text.
abbrev lenient : Checkers
lenient = record {
  tempdir = ok (codes "/tmp/x");
  write_file = λ path content. none;
  check_path = λ path content. ok (record { valid = true; files = [] ∷ [] });
  compile_text = λ content. ok 3;
  from_slice = λ raw. ok raw;
}

abbrev posted : Request
posted = record {
  method = post_method;
  url = codes "/validate?x=1";
  body = 112 ∷ [];
  failure = none;
}

validate_iff_example : ((validate lenient 7 (codes "part")).ok ≡ true) ↔ (
    ((dir : Text) × IsClean lenient (codes "part") dir)
    × ((n : ℕ) × (lenient.compile_text (codes "part") ≡ ok n)))
validate_iff_example = validate_iff lenient (codes "part") 7

handle-Answers_example : Answers lenient 7 posted (handle lenient 7 posted)
handle-Answers_example = handle-Answers lenient 7 posted
