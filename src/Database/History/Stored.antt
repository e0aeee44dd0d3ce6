-- ===== src/Database/History/Stored.antt =====
-- src/core/db_manager.c: a response as a row of the table, and what is read back of it.
use fman.Prelude.{
  ◌&&◌, ◌||◌, ◌⊎◌, strlen, ℕ, zero, suc, ◌≡◌, refl, sym, ap, ◌∙◌, Bool, true, false, List, [], ◌∷◌,
  Option, none, some, if◌then◌else◌, take, length, Text, arith, Option-cases, inl, inr, ltb,
  append-nil, take_all,
}
use fman.Prelude.Int.{ℤ, pos}
use fman.Models.{
  Response, ResponseResults, response_ok, response_curl_error, response_internal_error,
  response_cancelled,
}
use fman.Database.{bind_blob, bind_null}
use fman.Database.Save.{text_binding, has_body, results_code}
use fman.Database.Load.{lost, load_response, results_of}
use fman.Database.Tables.{
  SqlValue, sql_int, sql_double, sql_blob, value_of, text_of, blob_of, bytes_of, Row, is_text,
  is_blob, is_typed,
}
use fman.Database.History.Loaded.{copied, load_response_full, load_response_is}

-- A text without bytes is read back as NULL.
abbrev pub non_empty : Text → Option Text
non_empty [] = none
non_empty (c ∷ t) = some (c ∷ t)

-- Texts are kept up to their terminator.
abbrev pub kept_text : Option Text → Option Text
kept_text none = none
kept_text (some t) = non_empty (take (strlen t) t)

abbrev pub kept_body : Option Text → ℕ → Option Text
kept_body none len = none
kept_body (some b) len = non_empty (take len b)

abbrev pub kept_len : Option Text → ℕ → ℕ
kept_len none len = 0
kept_len (some b) len = length (take len b)

-- What is read back of a response that was saved under an id.
abbrev pub stored : Response → ℤ → Response
stored resp id = record resp {
  id = id;
  headers = kept_text resp.headers;
  headers_len = 0;
  headers_capacity = 0;
  content_type = kept_text resp.content_type;
  body = kept_body resp.body resp.body_len;
  body_len = kept_len resp.body resp.body_len;
  body_capacity = 0;
}

abbrev pub body_value : Response → SqlValue
body_value resp =
    value_of
      (if has_body resp.body resp.body_len then bind_blob resp.body resp.body_len else bind_null)

-- The row of a response.
abbrev pub saved_row : Response → ℤ → Row
saved_row resp id = record {
  id = id;
  request_id = sql_int resp.request_id;
  status_code = sql_int resp.status_code;
  result = sql_int (pos (results_code resp.result));
  duration = sql_double resp.duration;
  headers = value_of (text_binding resp.headers);
  content_type = value_of (text_binding resp.content_type);
  body = body_value resp;
  body_len = sql_int (pos resp.body_len);
}

-- The values of the row are of their columns' kinds.
pub text_is_text : (o : Option Text) → is_text (value_of (text_binding o)) ≡ true
text_is_text none = refl
text_is_text (some t) = refl

zero_less : (n : ℕ) → ltb 0 (suc n) ≡ true
zero_less n = ground arith

pub blob_is_blob :
    (body : Option Text) (len : ℕ)
    → is_blob (value_of (if has_body body len then bind_blob body len else bind_null)) ≡ true
blob_is_blob none len = refl
blob_is_blob (some b) zero = refl
blob_is_blob (some b) (suc n) = rw (zero_less n) refl

pub either_kind : (a b : Bool) → (a ≡ true) ⊎ (b ≡ true) → (a || b) ≡ true
either_kind true b e = refl
either_kind false b (inl e) = absurd (cc e)
either_kind false b (inr e) = e

pub saved_row_typed : (resp : Response) (id : ℤ) → is_typed (saved_row resp id) ≡ true
saved_row_typed resp id =
    let e = blob_is_blob resp.body resp.body_len in
    let f = text_is_text resp.headers in
    let g = text_is_text resp.content_type in λ i. f i && g i && e i && true

pub results_back : (r : ResponseResults) → results_of (pos (results_code r)) ≡ r
results_back response_ok = refl
results_back response_curl_error = refl
results_back response_internal_error = refl
results_back response_cancelled = refl

copied_text : (t : Text) → copied (some t) (length t) ≡ non_empty t
copied_text [] = refl
copied_text (c ∷ t) =
    ap (λ (u : Text). some (c ∷ u)) (ap (take (length t)) (sym (append-nil t)) ∙ take_all t [])

pub text_back :
    (o : Option Text)
    → copied (text_of (value_of (text_binding o))) (bytes_of (value_of (text_binding o)))
      ≡ kept_text o
text_back none = refl
text_back (some t) = copied_text (take (strlen t) t)

lost_copy : (t : Text) → lost (length t) (copied (some t) (length t)) ≡ false
lost_copy [] = refl
lost_copy (c ∷ t) = ground arith

lost_blob : (t : Text) → lost (length t) (copied (blob_of (sql_blob t)) (length t)) ≡ false
lost_blob [] = refl
lost_blob (c ∷ t) = lost_copy (c ∷ t)

copied_blob : (t : Text) → copied (blob_of (sql_blob t)) (length t) ≡ non_empty t
copied_blob [] = refl
copied_blob (c ∷ t) = copied_text (c ∷ t)

pub body_back :
    (body : Option Text) (len : ℕ)
    → let v = value_of (if has_body body len then bind_blob body len else bind_null) in
      (copied (blob_of v) (bytes_of v) ≡ kept_body body len) × (bytes_of v ≡ kept_len body len)
body_back none len = (refl, refl)
body_back (some b) zero = (refl, refl)
body_back (some b) (suc n) = rw (zero_less n) (copied_blob (take (suc n) b), refl)

-- With memory, the texts and the body of such a row are there when they are loaded.
lost_text :
    (o : Option Text)
    → let v = value_of (text_binding o) in
      lost (bytes_of v) (copied (text_of v) (bytes_of v)) ≡ false
lost_text none = refl
lost_text (some t) = lost_copy (take (strlen t) t)

lost_body :
    (body : Option Text) (len : ℕ)
    → let v = value_of (if has_body body len then bind_blob body len else bind_null) in
      lost (bytes_of v) (copied (blob_of v) (bytes_of v)) ≡ false
lost_body none len = refl
lost_body (some b) zero = refl
lost_body (some b) (suc n) = rw (zero_less n) (lost_blob (take (suc n) b))

abbrev pub headers_value : Response → SqlValue
headers_value resp = value_of (text_binding resp.headers)

abbrev pub type_value : Response → SqlValue
type_value resp = value_of (text_binding resp.content_type)

-- The response that is made of the row.
abbrev pub load_stored : Response → ℤ → List Bool → Option Response × List Text
load_stored resp id allocs =
    load_response id resp.request_id resp.status_code (pos (results_code resp.result)) resp.duration
      (text_of (headers_value resp)) (bytes_of (headers_value resp)) (text_of (type_value resp))
      (bytes_of (type_value resp)) (blob_of (body_value resp)) (bytes_of (body_value resp)) allocs

load_stored_is :
    (resp : Response) (id : ℤ) (allocs : List Bool) (out : Response)
    → (load_stored resp id allocs).0 ≡ some out
    → out ≡ stored resp id
load_stored_is resp id allocs out e =
    let (bytes, number) = body_back resp.body resp.body_len in
    load_response_is _ _ _ _ _ _ _ _ _ _ _ allocs out e ∙ (λ i. record {
      id = id;
      request_id = resp.request_id;
      status_code = resp.status_code;
      headers = text_back resp.headers i;
      headers_len = 0;
      headers_capacity = 0;
      content_type = text_back resp.content_type i;
      body = bytes i;
      body_len = number i;
      body_capacity = 0;
      duration = resp.duration;
      result = results_back resp.result i;
    })

pub load_stored_cases :
    (resp : Response) (id : ℤ) (allocs : List Bool)
    → ((load_stored resp id allocs).0 ≡ none)
      ⊎ ((load_stored resp id allocs).0 ≡ some (stored resp id))
load_stored_cases resp id allocs = elim (Option-cases (load_stored resp id allocs).0) [
  | inl failed ↦ inl failed
  | inr (out, made) ↦
      inr (made ∙ ap (λ (r : Response). some r) (load_stored_is resp id allocs out made))
]

-- With memory it is made.
pub load_stored_full :
    (resp : Response) (id : ℤ) → (load_stored resp id []).0 ≡ some (stored resp id)
load_stored_full resp id =
    let made =
      load_response_full id resp.request_id resp.status_code (pos (results_code resp.result))
        resp.duration (text_of (headers_value resp)) (bytes_of (headers_value resp))
        (text_of (type_value resp)) (bytes_of (type_value resp)) (blob_of (body_value resp))
        (bytes_of (body_value resp)) (lost_text resp.content_type) (lost_text resp.headers)
        (lost_body resp.body resp.body_len) in
    elim (load_stored_cases resp id []) [
      | inl failed ↦ absurd (cc (failed, made))
      | inr whole ↦ whole
    ]
