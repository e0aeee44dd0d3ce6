-- ===== src/Cli/Output/Summary.antt =====
-- `print_response_summary` of src/cli/cli_output.c. What `%.3f` makes of a double is the C library's.
use fman.Prelude.{
  ℕ, zero, suc, ◌-◌, Bool, false, not, ◌||◌, [], ◌∷◌, ◌++◌, Option, none, some, ltb, if◌then◌else◌,
  take, Text, String, codes, strlen, c_string, has_prefix, strstr, decimal, decimal_int,
}
use fman.Models.{Response}
use fman.Models.Create.{response_result_to_char}
use fman.Cli.Output.{written}

unfoldable pub is_text_content_type : Option Text → Bool
unfolding has_prefix strstr
is_text_content_type none = false
is_text_content_type (some t) =
    has_prefix (codes "text/") t
    || strstr t (codes "application/json")
    || strstr t (codes "application/xml")
    || strstr t (codes "application/javascript")
    || strstr t (codes "application/x-www-form-urlencoded")

-- The callers' titles are not NULL.
unfoldable pub print_preview : String → Option Text → ℕ → ℕ → Text
print_preview title none len limit = codes title ++ codes ": -\n"
print_preview title (some bytes) zero limit = codes title ++ codes ": -\n"
print_preview title (some bytes) (suc n) limit =
    let len = suc n in
    let preview_len = if ltb len limit then len else limit in
    written (
      codes "--- "
      ∷ codes title
      ∷ codes " Preview ("
      ∷ decimal preview_len
      ∷ codes "/"
      ∷ decimal len
      ∷ codes " bytes) ---\n"
      ∷ take preview_len bytes
      ∷ (if ltb preview_len len
          then written (
              codes "\n... [truncated, "
              ∷ decimal (len - preview_len)
              ∷ codes " bytes remaining]"
              ∷ [])
          else [])
      ∷ codes "\n---\n"
      ∷ [])

abbrev pub text_length : Option Text → ℕ
text_length none = 0
text_length (some t) = strlen t

abbrev pub content_type_or_dash : Option Text → Text
content_type_or_dash none = codes "-"
content_type_or_dash (some t) = c_string t

-- The length that is kept, or else that of the text.
abbrev pub headers_length : Response → ℕ
headers_length rep = if ltb 0 rep.headers_len then rep.headers_len else text_length rep.headers

unfoldable pub print_headers : Option Text → ℕ → Text
unfolding print_preview
print_headers (some headers) (suc n) = written (
    codes "Headers: "
    ∷ decimal (suc n)
    ∷ codes " bytes\n\n"
    ∷ print_preview "Headers" (some headers) (suc n) 1200
    ∷ [])
print_headers _ _ = codes "Headers: -\n"

unfoldable pub print_body : Option Text → Option Text → ℕ → Text
unfolding is_text_content_type print_preview
print_body content_type (some body) (suc n) =
    if not (is_text_content_type content_type)
    then codes "Body preview skipped: binary or unknown content type.\n"
    else print_preview "Body" (some body) (suc n) 800
print_body content_type _ _ = []

unfoldable pub print_response_summary : (ℕ → Text) → Option Response → Text
unfolding print_headers print_body
print_response_summary three_places none = codes "No response.\n"
print_response_summary three_places (some rep) = written (
    codes "Response ID: "
    ∷ decimal_int rep.id
    ∷ codes "\nRequest ID: "
    ∷ decimal_int rep.request_id
    ∷ codes "\nResult: "
    ∷ codes (response_result_to_char rep.result)
    ∷ codes "\nStatus: "
    ∷ decimal_int rep.status_code
    ∷ codes "\nDuration: "
    ∷ three_places rep.duration
    ∷ codes " sec\nContent-Type: "
    ∷ content_type_or_dash rep.content_type
    ∷ codes "\nBody: "
    ∷ decimal rep.body_len
    ∷ codes " bytes\n"
    ∷ print_headers rep.headers (headers_length rep)
    ∷ print_body rep.content_type rep.body rep.body_len
    ∷ [])
