-- ===== src/Worker/Buffer/Keeps.antt =====
-- src/core/worker.c: the callbacks leave the request's id of a response.
use fman.Prelude.{ℕ, ◌≡◌, refl, ◌∙◌, Option, none, some, Text, subst}
use fman.Prelude.Int.{ℤ}
use fman.Models.{Response}
use fman.Worker.Buffer.{Realloc, write_callback, header_callback, put_body, put_headers}

abbrev pub KeepsId : ℤ → ℕ × Option Response → Type 0
KeepsId n (_, none) = Unit {0}
KeepsId n (_, some r) = r.request_id ≡ n

put_body-KeepsId :
    (total : ℕ) (ptr : Text) (r : Response) (room : Option (Option Text × ℕ))
    → KeepsId r.request_id (put_body total ptr r room)
unfolding put_body
put_body-KeepsId total ptr r none = refl
put_body-KeepsId total ptr r (some (body, capacity)) = refl

put_headers-KeepsId :
    (total : ℕ) (ptr : Text) (r : Response) (room : Option (Option Text × ℕ))
    → KeepsId r.request_id (put_headers total ptr r room)
unfolding put_headers
put_headers-KeepsId total ptr r none = refl
put_headers-KeepsId total ptr r (some (headers, capacity)) = refl

-- What calls of the callbacks, in any order and with any chunks, make of a response.
pub data Called (realloc : Realloc) (r : Response) : Response → Type 0 where
  start : Called realloc r r
  wrote :
      {s t : Response} (chunk : Text) (size nmemb n : ℕ)
      → Called realloc r s
      → write_callback realloc chunk size nmemb (some s) ≡ (n, some t)
      → Called realloc r t
  read_header :
      {s t : Response} (chunk : Text) (size nmemb n : ℕ)
      → Called realloc r s
      → header_callback realloc chunk size nmemb (some s) ≡ (n, some t)
      → Called realloc r t

pub Called-id :
    (realloc : Realloc) (r t : Response) → Called realloc r t → t.request_id ≡ r.request_id
unfolding write_callback header_callback
Called-id realloc r t start = refl
Called-id realloc r t (wrote {s} chunk size nmemb n c e) =
    subst (KeepsId s.request_id) e (put_body-KeepsId _ chunk s _) ∙ Called-id realloc r s c
Called-id realloc r t (read_header {s} chunk size nmemb n c e) =
    subst (KeepsId s.request_id) e (put_headers-KeepsId _ chunk s _) ∙ Called-id realloc r s c
