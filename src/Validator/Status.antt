-- ===== src/Validator/Status.antt =====
-- What each request is answered with.
use openspoke.Common.{
  ℕ, zero, suc, ◌+◌, ◌≤◌, ◌<◌, ◌≡◌, ◌≢◌, refl, ap, inl, inr, true, false, Option, none, some, [],
  ◌∷◌, ◌++◌, arith, Result, ok, err, length, ltb, Bool-cases,
}
use openspoke.Common.Eq.{list_eq, nat_eq, beq-cases}
use openspoke.Common.Text.{Text, codes, split}
use openspoke.Wire.{Bytes}
use openspoke.Validator.{
  Checkers, Method, get_method, post_method, other_method, Request, Response, plain, refusal,
  verdict, validate, take, at_end, read_limited, max_body_bytes, parse_raw, parsed_json, respond,
  first_piece, route, handle,
}

abbrev pub path_of : Request → Text
path_of r = first_piece (split b'?' r.url)

-- A body that is read as JSON: it is no longer than the limit and ends without an error.
pub record IsRead (k : Checkers) (r : Request) (content : Text) : Type 0 where
  pub small : length r.body ≤ max_body_bytes
  pub whole : r.failure ≡ none
  pub json : k.from_slice r.body ≡ ok content

-- Why a body is refused.
pub data Refused (k : Checkers) (r : Request) (message : Text) : Type 0 where
  too_large :
      max_body_bytes < length r.body
      → message ≡ codes "本文が大きすぎる (上限 2097152 バイト)"
      → Refused k r message
  cut_off :
      (e : Text)
      → length r.body ≤ max_body_bytes
      → r.failure ≡ some e
      → message ≡ codes "本文を読めない: " ++ e
      → Refused k r message
  no_json :
      (e : Text)
      → length r.body ≤ max_body_bytes
      → r.failure ≡ none
      → k.from_slice r.body ≡ err e
      → message ≡ codes "JSON として読めない: " ++ e
      → Refused k r message

length-take : (n : ℕ) (bs : Bytes) → n ≤ length bs → length (take n bs) ≡ n
unfolding take
length-take zero bs h = refl
length-take (suc n) [] h = omega arith
length-take (suc n) (b ∷ bs) h = ap suc (length-take n bs (omega arith))

abbrev IsParsed : Checkers → Request → Result Text Text → Type 0
IsParsed k r (ok content) = IsRead k r content
IsParsed k r (err message) = Refused k r message

parsed_json-IsParsed :
    (k : Checkers) (r : Request) (o : Result Text Text)
    → length r.body ≤ max_body_bytes
    → r.failure ≡ none
    → k.from_slice r.body ≡ o
    → IsParsed k r (parsed_json o)
parsed_json-IsParsed k r (ok c) s w q = record { small = s; whole = w; json = q }
parsed_json-IsParsed k r (err e) s w q = no_json e s w q refl

at_end-IsParsed :
    (k : Checkers) (r : Request) (f : Option Text)
    → length r.body ≤ max_body_bytes
    → r.failure ≡ f
    → IsParsed k r (parse_raw k (at_end r.body f))
at_end-IsParsed k r none s w =
    let test : ltb max_body_bytes (length r.body) ≡ false = ground arith in
    rw test (parsed_json-IsParsed k r (k.from_slice r.body) s w refl)
at_end-IsParsed k r (some e) s w = cut_off e s w refl

parse_raw-IsParsed :
    (k : Checkers) (r : Request)
    → IsParsed k r (parse_raw k (read_limited (max_body_bytes + 1) r.body r.failure))
unfolding read_limited
parse_raw-IsParsed k r = elim (Bool-cases (ltb (length r.body) (max_body_bytes + 1))) [
  | inl t ↦ rw t (at_end-IsParsed k r r.failure (ground arith) refl)
  | inr t ↦
      let long : max_body_bytes + 1 ≤ length r.body = ground arith in
      let cut = length-take (max_body_bytes + 1) r.body long in
      let test : ltb max_body_bytes (length (take (max_body_bytes + 1) r.body)) ≡ true =
        rw cut refl in
      rw (t, test) (too_large (omega arith) refl)
]

-- The answers: of the two routes that there are, of a body that is refused, and of anything else.
pub data Answers (k : Checkers) (elapsed : ℕ) (r : Request) (resp : Response) : Type 0 where
  healthy :
      r.method ≡ get_method
      → path_of r ≡ codes "/healthz"
      → resp ≡ record { status = 200; payload = plain (codes "ok") }
      → Answers k elapsed r resp
  judged :
      (content : Text)
      → r.method ≡ post_method
      → path_of r ≡ codes "/validate"
      → IsRead k r content
      → resp ≡ record { status = 200; payload = verdict (validate k elapsed content) }
      → Answers k elapsed r resp
  refused :
      (message : Text)
      → r.method ≡ post_method
      → path_of r ≡ codes "/validate"
      → Refused k r message
      → resp ≡ record { status = 400; payload = refusal message }
      → Answers k elapsed r resp
  unknown :
      (r.method ≡ get_method → path_of r ≢ codes "/healthz")
      → (r.method ≡ post_method → path_of r ≢ codes "/validate")
      → resp ≡ record { status = 404; payload = plain (codes "not found") }
      → Answers k elapsed r resp

module _ (k : Checkers) (elapsed : ℕ) (r : Request) where
  respond-Answers :
      (o : Result Text Text)
      → r.method ≡ post_method
      → path_of r ≡ codes "/validate"
      → IsParsed k r o
      → Answers k elapsed r (respond k elapsed o)
  respond-Answers (ok content) m p h = judged content m p h refl
  respond-Answers (err message) m p h = refused message m p h refl

  route-Answers :
      (m : Method) → r.method ≡ m → Answers k elapsed r (route k elapsed r m (path_of r))
  route-Answers get_method e = elim (beq-cases (path_of r) (codes "/healthz")) [
    | inl (t, p) ↦ rw t (healthy e p refl)
    | inr (t, p) ↦ rw t (unknown (λ _. p) (λ q _. absurd (cc (e, q))) refl)
  ]
  route-Answers post_method e = elim (beq-cases (path_of r) (codes "/validate")) [
    | inl (t, p) ↦ rw t (respond-Answers _ e p (parse_raw-IsParsed k r))
    | inr (t, p) ↦ rw t (unknown (λ q _. absurd (cc (e, q))) (λ _. p) refl)
  ]
  route-Answers other_method e =
      unknown (λ q _. absurd (cc (e, q))) (λ q _. absurd (cc (e, q))) refl

  -- Every request is answered as its route says: the health check with 200; a text to validate with
  -- 200 and its verdict if its body is at most 2 MiB, ends without an error and is JSON, and else
  -- with 400 and the reason; anything else with 404.
  pub handle-Answers : Answers k elapsed r (handle k elapsed r)
  unfolding handle
  handle-Answers = route-Answers r.method refl
