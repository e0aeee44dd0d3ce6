-- ===== src/Models/Create/Witnesses.antt =====
-- The theorems on src/core/models.c at concrete inputs.
use fman.Prelude.{◌≡◌, true, false, [], ◌∷◌, some, none, codes}
use fman.Prelude.Int.{pos}
use fman.Models.{post}
use fman.Models.Create.{create_request}
use fman.Models.Create.Copied.{Balanced, create_request-Balanced}
use fman.Models.Create.Holds.{create_request_holds}

-- The copy of the headers fails.
create_request-Balanced_example : Balanced (
    create_request post
      (pos 1)
      (some (codes "https://example.com"))
      (some (codes "A: 1"))
      (some (codes "hello"))
      5
      (true ∷ true ∷ false ∷ []))
create_request-Balanced_example =
    create_request-Balanced post (pos 1) (some (codes "https://example.com")) (some (codes "A: 1"))
      (some (codes "hello")) 5 (true ∷ true ∷ false ∷ [])

create_request_holds_example :
    (create_request post
      (pos 1)
      (some (codes "url"))
      (some [])
      (some (codes "hello"))
      4
      []).returned
    ≡ some (record {
      id = pos 0;
      collection_id = pos 1;
      method = post;
      url = some (codes "url");
      url_len = 3;
      headers = none;
      headers_len = 0;
      body = some (codes "hell");
      body_len = 4;
      status = pos 0;
    })
unfolding codes
create_request_holds_example =
    create_request_holds post (pos 1) (some (codes "url")) (some []) (some (codes "hello")) 4
