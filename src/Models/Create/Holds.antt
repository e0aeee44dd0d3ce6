-- ===== src/Models/Create/Holds.antt =====
-- `create_request` of src/core/models.c: what a created request holds.
use fman.Prelude.{
  ℕ, zero, suc, ◌≡◌, refl, ap, true, false, List, [], ◌∷◌, ◌++◌, Option, none, some, ltb, ◌==◌,
  length, take, Text, arith,
}
use fman.Prelude.Int.{ℤ, pos}
use fman.Dsl.Lexer.{malloc}
use fman.Models.{Method, Request}
use fman.Worker.Buffer.Grow.{take-length}
use fman.Models.Create.{safe_copy, new_request, with_body, with_headers, with_url, create_request}

-- The copy of a text: NULL for an empty one.
abbrev pub copy_of : Option Text → Option Text
copy_of none = none
copy_of (some []) = none
copy_of (some (c ∷ rest)) = some (c ∷ rest)

abbrev pub len_of : Option Text → ℕ
len_of none = 0
len_of (some t) = length t

-- The first bytes of a body: NULL for an empty one.
abbrev pub body_of : Option Text → ℕ → Option Text
body_of none n = none
body_of (some bytes) zero = none
body_of (some bytes) (suc n) = some (take (suc n) bytes)

abbrev pub body_len_of : Option Text → ℕ → ℕ
body_len_of none n = 0
body_len_of (some bytes) n = n

not_zero : (n : ℕ) → (suc n == 0) ≡ false
not_zero n = ground arith

positive : (n : ℕ) → ltb 0 (suc n) ≡ true
positive n = ground arith

copied : (c : ℕ) (t : Text) → safe_copy (some (c ∷ t)) (length (c ∷ t)) [] ≡ (some (c ∷ t), [])
unfolding safe_copy malloc
copied c t = rw (not_zero (length t)) (ap (λ (x : Text). (some x, [])) (take-length (c ∷ t)))

body_holds :
    (body : Option Text) (n : ℕ) (req : Request) (made : List Text)
    → (with_body body n (record req { body = none; body_len = 0 }) made []).returned
      ≡ some (record req { body = body_of body n; body_len = body_len_of body n })
unfolding with_body safe_copy malloc
body_holds none n req made = refl
body_holds (some bytes) zero req made = refl
body_holds (some bytes) (suc n) req made = rw (not_zero n) refl

headers_hold :
    (headers body : Option Text) (n : ℕ) (req : Request) (made : List Text)
    → (with_headers headers body n
        (record req { headers = none; headers_len = 0; body = none; body_len = 0 })
        made
        []).returned
      ≡ some (record req {
        headers = copy_of headers;
        headers_len = len_of headers;
        body = body_of body n;
        body_len = body_len_of body n;
      })
unfolding with_headers
headers_hold none body n req made =
    body_holds body n (record req { headers = none; headers_len = 0 }) made
headers_hold (some []) body n req made =
    body_holds body n (record req { headers = none; headers_len = 0 }) (made ++ [])
headers_hold (some (c ∷ t)) body n req made =
    rw (copied c t, positive (length t))
      (body_holds body n (record req { headers = some (c ∷ t); headers_len = suc (length t) })
        (made ++ (c ∷ t) ∷ []))

-- With memory, `create_request` returns a request with the method and the collection, and with copies of the
-- URL, of the headers and of the first `body_len` bytes of the body, and their lengths; an empty one is NULL.
pub create_request_holds :
    (method : Method) (collection_id : ℤ) (url headers body : Option Text) (body_len : ℕ)
    → (create_request method collection_id url headers body body_len []).returned
      ≡ some (record {
        id = pos 0;
        collection_id = collection_id;
        method = method;
        url = copy_of url;
        url_len = len_of url;
        headers = copy_of headers;
        headers_len = len_of headers;
        body = body_of body body_len;
        body_len = body_len_of body body_len;
        status = pos 0;
      })
unfolding create_request with_url malloc
create_request_holds method id none headers body n =
    headers_hold headers body n (new_request method id) []
create_request_holds method id (some []) headers body n =
    headers_hold headers body n (new_request method id) []
create_request_holds method id (some (c ∷ t)) headers body n =
    rw (copied c t, positive (length t))
      (headers_hold headers body n
        (record (new_request method id) { url = some (c ∷ t); url_len = suc (length t) })
        ((c ∷ t) ∷ []))
