-- ===== src/Models/Create/Copied.antt =====
-- src/core/models.c: what a created request holds, and what becomes of the buffers.
use fman.Prelude.{
  ℕ, ◌≡◌, refl, sym, ap, ◌∙◌, ◌⊎◌, inl, inr, Bool, true, false, not, ◌&&◌, List, [], ◌++◌, Option,
  none, some, ltb, ◌==◌, length, Text, append-nil, append_assoc, if_cases, is_some,
}
use fman.Prelude.Int.{ℤ}
use fman.Dsl.Lexer.{malloc}
use fman.Models.{Method, Request}
use fman.Models.Create.{
  safe_copy, buffer_of, free_request, Created, new_request, give_up, with_body, with_headers,
  with_url, create_request,
}

-- Each buffer that was allocated is in the request that is returned, or was given back.
unfoldable pub Balanced : Created Request → Type 0
Balanced out =
    ((out.returned ≡ none) × (out.made ≡ out.freed))
    ⊎ ((r : Request) × (out.returned ≡ some r) × (out.made ≡ free_request r) × (out.freed ≡ []))

null_copy : (b : Bool) (p : Option Text) → (b && not (is_some p)) ≡ true → p ≡ none
null_copy b none e = refl
null_copy true (some t) e = absurd (cc e)
null_copy false (some t) e = absurd (cc e)

failed-Balanced :
    (req : Request) (made : List Text) → made ≡ free_request req → Balanced (give_up req made)
unfolding Balanced
failed-Balanced req made owns = inl (refl, owns)

made-Balanced :
    (req : Request) (made : List Text)
    → made ≡ free_request req
    → Balanced (record { returned = some req; made = made; freed = [] })
unfolding Balanced
made-Balanced req made owns = inr (req, refl, owns, refl)

-- The request with another buffer owns that, too.
owns_body :
    (req : Request) (made : List Text) (copy : Option Text) (n : ℕ)
    → req.body ≡ none
    → made ≡ free_request req
    → made ++ buffer_of copy ≡ free_request (record req { body = copy; body_len = n })
unfolding free_request
owns_body req made copy n fresh owns =
    let plain : made ≡ buffer_of req.url ++ buffer_of req.headers =
      owns
      ∙ (λ i. buffer_of req.url ++ (buffer_of req.headers ++ buffer_of (fresh i)))
      ∙ ap (λ (l : List Text). buffer_of req.url ++ l) (append-nil (buffer_of req.headers)) in
    ap (λ (l : List Text). l ++ buffer_of copy) plain
    ∙ append_assoc (buffer_of req.url) (buffer_of req.headers) (buffer_of copy)

owns_headers :
    (req : Request) (made : List Text) (copy : Option Text) (n : ℕ)
    → req.headers ≡ none
    → req.body ≡ none
    → made ≡ free_request req
    → made ++ buffer_of copy ≡ free_request (record req { headers = copy; headers_len = n })
unfolding free_request
owns_headers req made copy n no_headers no_body owns =
    let plain : made ≡ buffer_of req.url =
      owns
      ∙ (λ i. buffer_of req.url ++ (buffer_of (no_headers i) ++ buffer_of (no_body i)))
      ∙ append-nil (buffer_of req.url) in
    ap (λ (l : List Text). l ++ buffer_of copy) plain
    ∙ ap (λ (l : List Text). buffer_of req.url ++ l) (sym (append-nil (buffer_of copy)))
    ∙ ap (λ (p : Option Text). buffer_of req.url ++ (buffer_of copy ++ buffer_of p)) (sym no_body)

-- Where nothing was copied, nothing more is owned.
without :
    (made owned : List Text) (copy : Option Text)
    → copy ≡ none
    → made ++ buffer_of copy ≡ owned
    → made ≡ owned
without made owned copy null owns =
    sym (append-nil made) ∙ ap (λ (p : Option Text). made ++ buffer_of p) (sym null) ∙ owns

body-Balanced :
    (body : Option Text) (n : ℕ) (req : Request) (made : List Text) (allocs : List Bool)
    → req.body ≡ none
    → made ≡ free_request req
    → Balanced (with_body body n req made allocs)
unfolding with_body
body-Balanced none n req made allocs fresh owns = made-Balanced req made owns
body-Balanced (some bytes) n req made allocs fresh owns =
    let copy = (safe_copy (some bytes) n allocs).0 in
    let more = owns_body req made copy n fresh owns in
    if_cases Balanced (n == 0) (λ _. made-Balanced req made owns)
      λ _.
        if_cases Balanced (is_some copy) (λ _. made-Balanced _ _ more)
          λ null.
            failed-Balanced _ made (without made _ copy (null_copy true copy (ap not null)) more)

headers-Balanced :
    (headers body : Option Text) (n : ℕ) (req : Request) (made : List Text) (allocs : List Bool)
    → req.headers ≡ none
    → req.body ≡ none
    → made ≡ free_request req
    → Balanced (with_headers headers body n req made allocs)
unfolding with_headers
headers-Balanced none body n req made allocs h b owns = body-Balanced body n req made allocs b owns
headers-Balanced (some t) body n req made allocs h b owns =
    let (copy, allocs') = safe_copy (some t) (length t) allocs in
    let more = owns_headers req made copy (length t) h b owns in
    if_cases Balanced (ltb 0 (length t) && not (is_some copy))
      (λ null. failed-Balanced _ made (without made _ copy (null_copy _ copy null) more))
      λ _. body-Balanced body n _ _ allocs' b more

-- A call of `create_request` returns a request that owns exactly the buffers that the call allocated, and gives
-- nothing back, or it returns NULL and has given all of them back, whichever allocation fails.
pub create_request-Balanced :
    (method : Method) (collection_id : ℤ) (url headers body : Option Text) (body_len : ℕ)
    (allocs : List Bool)
    → Balanced (create_request method collection_id url headers body body_len allocs)
unfolding create_request with_url
create_request-Balanced method id none headers body n allocs =
    if_cases Balanced (malloc allocs).0
      (λ _.
        headers-Balanced headers body n (new_request method id) [] _ refl refl
          (unfold free_request in refl))
      λ _. unfold Balanced in inl (refl, refl)
create_request-Balanced method id (some u) headers body n allocs =
    let (copy, allocs') = safe_copy (some u) (length u) (malloc allocs).1 in
    let more : buffer_of copy
        ≡ free_request (record (new_request method id) { url = copy; url_len = length u }) =
      unfold free_request in sym (append-nil (buffer_of copy)) in
    if_cases Balanced (malloc allocs).0
      (λ _.
        if_cases Balanced (ltb 0 (length u) && not (is_some copy))
          (λ null. failed-Balanced _ [] (without [] _ copy (null_copy _ copy null) more))
          λ _. headers-Balanced headers body n _ _ allocs' refl refl more)
      λ _. unfold Balanced in inl (refl, refl)
