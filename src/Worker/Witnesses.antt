-- ===== src/Worker/Witnesses.antt =====
-- The theorems on src/core/worker.c at concrete inputs.
use fman.Prelude.{
  ℕ, ◌-◌, ◌≡◌, refl, sym, ap, ◌∙◌, inl, Bool, true, false, List, [], ◌∷◌, ◌++◌, none, some, length,
  take, replicate, length-append, length-replicate, arith, Text, codes,
}
use fman.Prelude.Int.{pos, negsuc}
use fman.Models.{Request, Response, WorkerTask, get, http_request}
use fman.Worker.Buffer.{Realloc, write_callback, header_callback}
use fman.Worker.Buffer.Grow.{IsRealloc, Stored}
use fman.Worker.Buffer.Keeps.{start}
use fman.Worker.Buffer.Chunks.{HasBody, HasHeaders, ShortBody, ShortHeaders}
use fman.Worker.Buffer.Transfer.{
  Delivers, deliver, transfer_body-Delivers, transfer_headers-Delivers,
}
use fman.Worker.Headers.{is_line_end, in_line, parse_headers, joined, parse_headers-joined}
use fman.Worker.Curl.{CurlOption, opt_url}
use fman.Worker.Http.{Env, new_response, handle_task, to_int}
use fman.Worker.Http.Owned.{
  tally, opened, closed, task_frees, request_frees, handle_task_gives_back,
}
use fman.Worker.Http.Answers.{OneFor, handle_task_answers}

abbrev grow_block : Realloc
grow_block none n = some (replicate n 0)
grow_block (some old) n = some (old ++ replicate (n - length old) 0)

take-append : (xs ys : Text) → take (length xs) (xs ++ ys) ≡ xs
take-append [] ys = refl
take-append (x ∷ xs) ys = ap (◌∷◌ x) (take-append xs ys)

grow_block-IsRealloc : IsRealloc grow_block
grow_block-IsRealloc = record {
  fresh = λ n b e.
      let same : replicate n 0 ≡ b = cc e in
      ap (λ (t : Text). length t) (sym same) ∙ length-replicate {A = ℕ} n 0;
  grown = λ old n b e h.
      let same : old ++ replicate (n - length old) 0 ≡ b = cc e in
      (
        omega (
          arith,
          ap (λ (t : Text). length t) same,
          length-append old (replicate (n - length old) 0),
          length-replicate {A = ℕ} (n - length old) 0,
        ),
        ap (λ (t : Text). take (length old) t) (sym same)
            ∙ take-append old (replicate (n - length old) 0),
      );
}

abbrev empty_response : Response
empty_response = new_response (pos 7)

abbrev hello : Text
hello = codes "hello"

no_headers : HasHeaders [] empty_response
unfolding HasHeaders
no_headers = inl (refl, refl, refl, refl)

abbrev two_chunks : List Text
two_chunks = codes "hello, " ∷ codes "world" ∷ []

transfer_body-Delivers_example :
    Delivers HasBody
      (ShortBody grow_block)
      []
      two_chunks
      (deliver (write_callback grow_block) two_chunks empty_response)
unfolding codes
transfer_body-Delivers_example =
    transfer_body-Delivers grow_block two_chunks empty_response grow_block-IsRealloc
      (unfold Stored in inl (refl, refl, refl, refl)) (omega arith)

transfer_headers-Delivers_example :
    Delivers HasHeaders
      (ShortHeaders grow_block)
      []
      two_chunks
      (deliver (header_callback grow_block) two_chunks empty_response)
unfolding codes
transfer_headers-Delivers_example =
    transfer_headers-Delivers grow_block two_chunks empty_response grow_block-IsRealloc no_headers
      (omega arith)

abbrev two_lines : List (Text × Text)
two_lines = (codes "A: 1", codes "\r\n") ∷ (codes "B: 2", codes "\n\n") ∷ []

parse_headers-joined_example :
    parse_headers [] (codes "\n" ++ (joined two_lines ++ codes "C: 3"))
    ≡ codes "A: 1" ∷ codes "B: 2" ∷ codes "C: 3" ∷ []
unfolding codes is_line_end in_line
parse_headers-joined_example =
    parse_headers-joined (codes "\n") (codes "C: 3") two_lines (refl, tt)
      (
        (λ e. absurd (cc e)),
        (refl, (refl, (refl, (refl, tt)))),
        (λ e. absurd (cc e)),
        (refl, (refl, tt)),
        (
          (λ e. absurd (cc e)),
          (refl, (refl, (refl, (refl, tt)))),
          (λ e. absurd (cc e)),
          (refl, (refl, tt)),
          tt,
        ),
      )
      (refl, (refl, (refl, (refl, tt))))

-- A request with headers, and what it meets.
abbrev some_request : Request
some_request = record {
  id = pos 7;
  collection_id = pos 1;
  method = get;
  url = some (codes "https://example.com");
  url_len = 19;
  headers = some (codes "A: 1\r\n");
  headers_len = 6;
  body = none;
  body_len = 0;
  status = pos 0;
}

abbrev some_task : WorkerTask
some_task = record { type = http_request; data_ptr = some some_request }

refuses_url : CurlOption → Bool
refuses_url (opt_url _) = false
refuses_url _ = true

abbrev env_with : (CurlOption → Bool) → Env
env_with accepts = record {
  has_response = true;
  has_handle = true;
  accepts = accepts;
  allocs = [];
  has_copy = true;
  easy_perform = λ r. (true, r);
  info = record { http_code = pos 200; content_type = some none; total_time = some 0 };
  is_open = true;
}

handle_task_gives_back_example :
    (tally opened (handle_task (env_with refuses_url) some_task)
      ≡ tally closed (handle_task (env_with refuses_url) some_task))
    × (tally task_frees (handle_task (env_with refuses_url) some_task) ≡ 1)
    × (tally request_frees (handle_task (env_with refuses_url) some_task) ≡ 1)
handle_task_gives_back_example = handle_task_gives_back (env_with refuses_url) some_task

handle_task_answers_example : OneFor true (pos 7) (handle_task (env_with refuses_url) some_task)
handle_task_answers_example =
    handle_task_answers grow_block (env_with refuses_url) http_request some_request (λ r. start)
      refl

int_wraps : to_int (pos 4294967295) ≡ negsuc 0
unfolding to_int
int_wraps = refl

int_keeps : to_int (pos 404) ≡ pos 404
unfolding to_int
int_keeps = refl
