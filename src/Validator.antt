-- ===== src/Validator.antt =====
-- hub/images/sysml-validator/src/main.rs: the check of a SysML text by two programs, and the HTTP
-- service around it. The temporary directory, the two checkers and the JSON reader are parameters;
-- a response carries its value before it is written as JSON.
pub mod Verdict
pub mod Status
use openspoke.Common.{
  ℕ, zero, suc, ◌+◌, ◌*◌, Bool, true, false, ◌&&◌, Option, none, some, List, [], ◌∷◌, ◌++◌,
  if◌then◌else◌, Result, ok, err, ltb, length,
}
use openspoke.Common.Eq.{list_eq, nat_eq, ◌==◌}
use openspoke.Common.Text.{Text, codes, split, to_ascii_lowercase}
use openspoke.Wire.{Bytes}

abbrev pub max_body_bytes : ℕ
max_body_bytes = 2 * 1024 * 1024

pub record Diagnostic : Type 0 where
  pub line : ℕ
  pub column : ℕ
  pub code : Text
  pub message : Text

pub record StageResult : Type 0 where
  pub ok : Bool
  pub diagnostics : List Diagnostic

-- The two entries of `tools`: the key, and the name and the version under it.
abbrev pub tools : List (Text × Text × Text)
tools =
    (codes "syntax_checker", codes "sysml2", codes "0.3.1")
    ∷ (codes "validator", codes "mercurio-sysml", codes "0.86.0")
    ∷ []

pub record ValidateResponse : Type 0 where
  pub ok : Bool
  pub syntax : StageResult
  pub semantic : StageResult
  pub elements : Option ℕ
  pub elapsed_ms : ℕ
  pub tools : List (Text × Text × Text)

-- A report of `sysml::check_paths`: the diagnostics of each file.
pub record Report : Type 0 where
  pub valid : Bool
  pub files : List (List Diagnostic)

-- `SysmlEnvironmentError`: a diagnostic, with its place, the debug form of its kind (an ASCII
-- identifier) and its message; or another error, in its debug form.
pub data CompileError : Type 0 where
  diagnostic : Option (ℕ × ℕ) → Text → Text → CompileError
  other : Text → CompileError

-- What the service calls: `tempfile::tempdir`, the creation and writing of a file,
-- `sysml::check_paths` of one such file, `compile_text` with the number of elements of its document,
-- and `serde_json::from_slice` with the field `content`.
pub record Checkers : Type 0 where
  pub tempdir : Result Text Text
  pub write_file : Text → Text → Option Text
  pub check_path : Text → Text → Result Text Report
  pub compile_text : Text → Result CompileError ℕ
  pub from_slice : Bytes → Result Text Text

abbrev pub internal_error : Text → Text → StageResult
internal_error code message = record {
  ok = false;
  diagnostics = record { line = 0; column = 0; code = code; message = message } ∷ [];
}

-- `flat_map` over the files.
unfoldable pub all_diagnostics : List (List Diagnostic) → List Diagnostic
all_diagnostics [] = []
all_diagnostics (ds ∷ dss) = ds ++ all_diagnostics dss

abbrev pub none_left : List Diagnostic → Bool
none_left [] = true
none_left (d ∷ ds) = false

abbrev pub of_report : Result Text Report → StageResult
of_report (ok r) =
    let ds = all_diagnostics r.files in record { ok = r.valid && none_left ds; diagnostics = ds }
of_report (err e) = internal_error (codes "syntax.error") e

abbrev pub after_write : Result Text Report → Option Text → StageResult
after_write report none = of_report report
after_write report (some e) = internal_error (codes "syntax.io") (codes "一時ファイルに書けない: " ++ e)

abbrev pub in_dir : Checkers → Text → Result Text Text → StageResult
in_dir k content (err e) = internal_error (codes "syntax.io") (codes "一時ディレクトリーを作れない: " ++ e)
in_dir k content (ok dir) =
    let path = dir ++ codes "/topic.sysml" in
    after_write (k.check_path path content) (k.write_file path content)

unfoldable pub check_syntax : Checkers → Text → StageResult
check_syntax k content = in_dir k content k.tempdir

abbrev pub place : Option (ℕ × ℕ) → ℕ × ℕ
place none = (0, 0)
place (some p) = p

abbrev pub diagnostic_of : CompileError → Diagnostic
diagnostic_of (diagnostic span kind message) = record {
  line = (place span).0;
  column = (place span).1;
  code = to_ascii_lowercase (codes "semantic." ++ kind);
  message = message;
}
diagnostic_of (other e) = record {
  line = 0;
  column = 0;
  code = codes "semantic.error";
  message = e;
}

abbrev pub of_compiled : Result CompileError ℕ → StageResult × Option ℕ
of_compiled (ok elements) = (record { ok = true; diagnostics = [] }, some elements)
of_compiled (err e) = (record { ok = false; diagnostics = diagnostic_of e ∷ [] }, none)

unfoldable pub check_semantic : Checkers → Text → StageResult × Option ℕ
check_semantic k content = of_compiled (k.compile_text content)

-- The two stages and the verdict, for a body that was read.
unfoldable pub validate : Checkers → ℕ → Text → ValidateResponse
unfolding check_syntax check_semantic
validate k elapsed content =
    let syntax = check_syntax k content in
    let (semantic, elements) = check_semantic k content in
    record {
      ok = syntax.ok && semantic.ok;
      syntax = syntax;
      semantic = semantic;
      elements = elements;
      elapsed_ms = elapsed;
      tools = tools;
    }

pub data Method : Type 0 where
  get_method post_method other_method : Method

-- The body as the connection delivers it: bytes, and then its end or an error.
pub record Request : Type 0 where
  pub method : Method
  pub url : Text
  pub body : Bytes
  pub failure : Option Text

unfoldable pub take : ℕ → Bytes → Bytes
take zero bs = []
take (suc n) [] = []
take (suc n) (b ∷ bs) = b ∷ take n bs

abbrev pub at_end : Bytes → Option Text → Result Text Bytes
at_end raw none = ok raw
at_end raw (some e) = err e

-- `as_reader().take(limit).read_to_end`: the reader is left alone once the limit is reached.
unfoldable pub read_limited : ℕ → Bytes → Option Text → Result Text Bytes
unfolding take
read_limited limit body failure =
    if ltb (length body) limit then at_end body failure else ok (take limit body)

abbrev pub parsed_json : Result Text Text → Result Text Text
parsed_json (ok content) = ok content
parsed_json (err e) = err (codes "JSON として読めない: " ++ e)

abbrev pub parse_raw : Checkers → Result Text Bytes → Result Text Text
parse_raw k (err e) = err (codes "本文を読めない: " ++ e)
parse_raw k (ok raw) =
    if ltb max_body_bytes (length raw)
    then err (codes "本文が大きすぎる (上限 2097152 バイト)")
    else parsed_json (k.from_slice raw)

pub data Payload : Type 0 where
  plain : Text → Payload
  refusal : Text → Payload
  verdict : ValidateResponse → Payload

pub record Response : Type 0 where
  pub status : ℕ
  pub payload : Payload

abbrev pub respond : Checkers → ℕ → Result Text Text → Response
respond k elapsed (err message) = record { status = 400; payload = refusal message }
respond k elapsed (ok content) = record {
  status = 200;
  payload = verdict (validate k elapsed content);
}

abbrev pub not_found : Response
not_found = record { status = 404; payload = plain (codes "not found") }

abbrev pub first_piece : List Text → Text
first_piece [] = []
first_piece (p ∷ ps) = p

abbrev pub route : Checkers → ℕ → Request → Method → Text → Response
route k elapsed r get_method path =
    if path == codes "/healthz"
    then record { status = 200; payload = plain (codes "ok") }
    else not_found
route k elapsed r post_method path =
    if path == codes "/validate"
    then respond k elapsed (parse_raw k (read_limited (max_body_bytes + 1) r.body r.failure))
    else not_found
route k elapsed r other_method path = not_found

-- One round of `main`: the response to one request.
unfoldable pub handle : Checkers → ℕ → Request → Response
unfolding validate read_limited
handle k elapsed r = route k elapsed r r.method (first_piece (split b'?' r.url))
