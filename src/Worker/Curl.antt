-- ===== src/Worker/Curl.antt =====
-- `set_curl_method` and `set_curl_headers` of src/core/worker.c. libcurl is a parameter: `accepts` says for an
-- option whether `curl_easy_setopt` returns CURLE_OK. A call gives back whether it succeeded and the options that
-- it set, in order.
use fman.Prelude.{
  ℕ, Bool, true, false, List, [], ◌∷◌, Option, none, some, if◌then◌else◌, Text, codes,
}
use fman.Models.{get, post, put, delete, patch, head, options, Request}
use fman.Worker.Headers.{parse_headers}

pub data CurlOption : Type 0 where
  opt_httpget opt_post : CurlOption
  opt_postfields : Text → CurlOption
  opt_postfieldsize : ℕ → CurlOption
  opt_customrequest : Text → CurlOption
  opt_httpheader : List Text → CurlOption
  opt_url : Option Text → CurlOption
  opt_writefunction opt_writedata opt_headerfunction opt_headerdata : CurlOption
  opt_connecttimeout opt_timeout opt_followlocation opt_maxredirs : ℕ → CurlOption
  opt_useragent : Text → CurlOption

-- Options set one after another, up to the first that is refused.
unfoldable pub set_all : (CurlOption → Bool) → List CurlOption → Bool
set_all accepts [] = true
set_all accepts (o ∷ rest) = if accepts o then set_all accepts rest else false

abbrev pub body_options : Option Text → ℕ → List CurlOption
body_options none len = []
body_options (some body) len = opt_postfields body ∷ opt_postfieldsize len ∷ []

-- What is set for a method, or none for one that is not supported.
unfoldable pub method_options : Request → Option (List CurlOption)
method_options req = elim req.method [
  | get ↦ some (opt_httpget ∷ [])
  | post ↦ some (opt_post ∷ body_options req.body req.body_len)
  | delete ↦ some (opt_customrequest (codes "DELETE") ∷ body_options req.body req.body_len)
  | put ↦ some (opt_customrequest (codes "PUT") ∷ body_options req.body req.body_len)
  | patch ↦ some (opt_customrequest (codes "PATCH") ∷ body_options req.body req.body_len)
  | head ↦ none
  | options ↦ none
]

unfoldable pub set_curl_method : (CurlOption → Bool) → Request → Bool
unfolding set_all method_options
set_curl_method accepts req = elim (method_options req) [
  | none ↦ false
  | some wanted ↦ set_all accepts wanted
]

-- The list that is set, or NULL; a list that is refused is given back at once.
unfoldable pub set_curl_headers : (CurlOption → Bool) → List Bool → Text → List Text
set_curl_headers accepts allocs headers =
    let list = parse_headers allocs headers in
    elim list [
      | [] ↦ []
      | line ∷ rest ↦ if accepts (opt_httpheader (line ∷ rest)) then line ∷ rest else []
    ]
