-- ===== src/Database/History/Loaded.antt =====
-- `map_row_to_response` of src/core/db_manager.c: the response that is made of a row.
use fman.Prelude.{
  is_some, [], ℕ, zero, suc, ◌≡◌, refl, sym, ◌∙◌, Bool, true, false, not, ◌||◌, List, Option, none,
  some, if◌then◌else◌, take, Text, arith, Bool-cases, inl, inr,
}
use fman.Prelude.Int.{ℤ}
use fman.Dsl.Lexer.{malloc}
use fman.Models.{Response}
use fman.Database.Load.{safe_copy_string, safe_copy_blob, lost, results_of, load_response}

-- The copy that is made with memory.
abbrev pub copied : Option Text → ℕ → Option Text
copied none len = none
copied (some t) zero = none
copied (some t) (suc n) = some (take (suc n) t)

same_copy :
    (done : Bool) (n : ℕ) (t : Text)
    → lost (suc n) (if done then some t else none) ≡ false
    → (if done then some t else none) ≡ some t
same_copy true n t e = refl
same_copy false n t e = absurd (ground (arith, e))

string_copied :
    (src : Option Text) (len : ℕ) (allocs : List Bool)
    → lost len (safe_copy_string src len allocs).0 ≡ false
    → (safe_copy_string src len allocs).0 ≡ copied src len
unfolding safe_copy_string
string_copied none len allocs e = refl
string_copied (some t) zero allocs e = refl
string_copied (some t) (suc n) allocs e = same_copy (malloc allocs).0 n (take (suc n) t) e

blob_copied :
    (src : Option Text) (len : ℕ) (allocs : List Bool)
    → lost len (safe_copy_blob src len allocs).0 ≡ false
    → (safe_copy_blob src len allocs).0 ≡ copied src len
unfolding safe_copy_blob
blob_copied none len allocs e = refl
blob_copied (some t) zero allocs e = refl
blob_copied (some t) (suc n) allocs e = same_copy (malloc allocs).0 n (take (suc n) t) e

-- None of three tests.
none_of : (a b c : Bool) → (a || b || c) ≡ false → (a ≡ false) × (b ≡ false) × (c ≡ false)
none_of true b c e = absurd (cc e)
none_of false true c e = absurd (cc e)
none_of false false c e = (refl, refl, e)

string_full : (src : Option Text) (len : ℕ) → safe_copy_string src len [] ≡ (copied src len, [])
unfolding safe_copy_string malloc
string_full none len = refl
string_full (some t) zero = refl
string_full (some t) (suc n) = refl

blob_full : (src : Option Text) (len : ℕ) → safe_copy_blob src len [] ≡ (copied src len, [])
unfolding safe_copy_blob malloc
blob_full none len = refl
blob_full (some t) zero = refl
blob_full (some t) (suc n) = refl

-- With memory, a response is made.
pub load_response_full :
    (id request_id status_code result : ℤ) (duration : ℕ) (db_headers : Option Text)
    (headers_len : ℕ) (db_content_type : Option Text) (content_type_len : ℕ) (db_body : Option Text)
    (body_len : ℕ)
    → lost content_type_len (copied db_content_type content_type_len) ≡ false
    → lost headers_len (copied db_headers headers_len) ≡ false
    → lost body_len (copied db_body body_len) ≡ false
    → is_some
        (load_response id request_id status_code result duration db_headers headers_len
          db_content_type content_type_len db_body body_len []).0
      ≡ true
unfolding load_response malloc
load_response_full id request_id status_code result duration db_headers headers_len db_content_type
      content_type_len db_body body_len c h b =
    rw
      (
        load_response,
        string_full db_content_type content_type_len,
        string_full db_headers headers_len,
        blob_full db_body body_len,
        c,
        h,
        b,
      )
      refl

-- When a response is made, it has the columns, and copies of the texts and the body.
pub load_response_is :
    (id request_id status_code result : ℤ) (duration : ℕ) (db_headers : Option Text)
    (headers_len : ℕ) (db_content_type : Option Text) (content_type_len : ℕ) (db_body : Option Text)
    (body_len : ℕ) (allocs : List Bool) (out : Response)
    → (load_response id request_id status_code result duration db_headers headers_len
        db_content_type content_type_len db_body body_len allocs).0
      ≡ some out
    → out ≡ record {
      id = id;
      request_id = request_id;
      status_code = status_code;
      headers = copied db_headers headers_len;
      headers_len = 0;
      headers_capacity = 0;
      content_type = copied db_content_type content_type_len;
      body = copied db_body body_len;
      body_len = body_len;
      body_capacity = 0;
      duration = duration;
      result = results_of result;
    }
unfolding load_response
load_response_is id request_id status_code result duration db_headers headers_len db_content_type
      content_type_len db_body body_len allocs out e =
    let (done, allocs1) = malloc allocs in
    let (content_type, allocs2) = safe_copy_string db_content_type content_type_len allocs1 in
    let (headers, allocs3) = safe_copy_string db_headers headers_len allocs2 in
    let (body, _) = safe_copy_blob db_body body_len allocs3 in
    elim (Bool-cases (not done)) [
      | inl no_memory ↦ absurd (cc (rw (load_response, no_memory) at e))
      | inr memory ↦
          elim (Bool-cases (
            lost content_type_len content_type || lost headers_len headers || lost body_len body)) [
              | inl some_lost ↦ absurd (cc (rw (load_response, memory, some_lost) at e))
              | inr all_there ↦
                  let (c, h, b) =
                    none_of (lost content_type_len content_type) (lost headers_len headers)
                      (lost body_len body) all_there in
                  let stored = string_copied db_headers headers_len allocs2 in
                  let type = string_copied db_content_type content_type_len allocs1 in
                  let bytes = blob_copied db_body body_len allocs3 in
                  sym (cc (rw (load_response, memory, all_there) at e)) ∙ (λ i. record {
                    id = id;
                    request_id = request_id;
                    status_code = status_code;
                    headers = stored h i;
                    headers_len = 0;
                    headers_capacity = 0;
                    content_type = type c i;
                    body = bytes b i;
                    body_len = body_len;
                    body_capacity = 0;
                    duration = duration;
                    result = results_of result;
                  })
            ]
    ]
