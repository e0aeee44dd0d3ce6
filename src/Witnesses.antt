-- ===== src/Witnesses.antt =====
-- The theorems at concrete inputs.
use fman.Prelude.{
  take, ◌⊎◌, inl, List, ◌≡◌, ◌↔◌, refl, subst, arith, Bool, true, false, [], ◌∷◌, ◌++◌, none, some,
  ◌==◌, not, ◌&&◌, Text, codes, Lacks, inr, length, set, is_some, Any,
}
use fman.Prelude.Int.{pos}
use fman.Dsl.Parser.Program.{Outcome}
use fman.Models.{
  Response, Assertion, value_header, value_int, assert_status_eq, assert_header_contains,
  response_ok, HeaderExpect,
}
use fman.Assertion.{eval_assertion}
use fman.Assertion.Search.{bytes_contains, buffer, whole, Occurs, bytes_contains-Occurs}
use fman.Assertion.Header.{header_contains}
use fman.Assertion.Header.Colon.{HeaderLine}
use fman.Assertion.Header.Lines.{lines, header_contains_iff}
use fman.Assertion.Eval.{Passes, IsReadable, eval_assertion_iff}
use fman.Cli.Output.{print_assertion_result, pass_mark, fail_mark}
use fman.Cli.Output.Marks.{printed_tick_iff}
use fman.RunPlan.{zero_plan, free_run_plan, init_run_plan, zero_case, RequestCase}
use fman.Dsl.Lexer.{DslLexer}
use fman.Dsl.Lexer.Tokens.{dsl_lexer_get_tokens}
use fman.Dsl.Lexer.Tokens.Gathers.{Gathers, dsl_lexer_get_tokens-Gathers}
use fman.Dsl.Lexer.View.{At, line_of, column_of}
use fman.Dsl.Parser.{dsl_parse_ok}
use fman.Dsl.Parser.Program.{Outcome, dsl_parse_run_plan}
use fman.Dsl.Parser.Program.Bounds.{Leaves, dsl_parse_run_plan-Leaves}
use fman.Dsl.Parser.Program.Ends.{dsl_parse_run_plan_returns}
use fman.RunPlan.Frees.{Among, free_run_plan-Among}
use fman.Queue.{create_queue, queue_push, queue_pop, queue_shutdown, destroy_queue}
use fman.Queue.Fifo.{Represents}
use fman.Queue.Runs.{
  AllFresh, run_queue, run_fifo, queue_step, empty_fifo, create_queue-run, push, Call,
}
use fman.Queue.Destroy.{Frees, destroy_queue-Frees}
use fman.Queue.Tests.{no_nodes, new_queue, some_calls}

abbrev no_nul : Text → Bool
no_nul [] = true
no_nul (c ∷ cs) = not (c == 0) && no_nul cs

no_nul-Lacks : (t : Text) → no_nul t ≡ true → Lacks 0 t
no_nul-Lacks [] h = tt
no_nul-Lacks (c ∷ cs) h = (ground arith, no_nul-Lacks cs (ground arith))

abbrev two_headers : Text
two_headers = codes "Server: x\r\nContent-Type:  text/html \r\n"

abbrev html : HeaderExpect
html = record { name = some (codes "content-type"); value = some (codes "text/html") }

abbrev page : Response
page = record {
  id = pos 1;
  request_id = pos 1;
  status_code = pos 200;
  headers = some two_headers;
  headers_len = length two_headers;
  headers_capacity = 256;
  content_type = none;
  body = some (codes "hello" ++ 0 ∷ []);
  body_len = 5;
  body_capacity = 6;
  duration = 3;
  result = response_ok;
}

abbrev wants_html : Assertion
wants_html = record { type = assert_header_contains; expected = value_header html }

two_headers_clean : Lacks 0 two_headers
two_headers_clean = no_nul-Lacks two_headers (unfold codes in refl)

page-IsReadable : IsReadable page (value_header html)
page-IsReadable = record {
  body_ok = inr (codes "hello", (0 ∷ [], refl, unfold codes in refl));
  headers_ok = λ h e. subst (Lacks 0) (cc e) two_headers_clean;
  expected_ok = tt;
}

eval_assertion_iff_example :
    ((eval_assertion (some page) (some wants_html)).passed ≡ true)
    ↔ Passes page assert_header_contains (value_header html)
eval_assertion_iff_example = eval_assertion_iff page wants_html page-IsReadable

printed_tick_iff_example :
    let shown =
      take 6 (print_assertion_result (some (eval_assertion (some page) (some wants_html)))) in
    ((shown ≡ pass_mark) ↔ Passes page assert_header_contains (value_header html))
    × ((shown ≡ pass_mark) ⊎ (shown ≡ fail_mark))
printed_tick_iff_example = printed_tick_iff page wants_html page-IsReadable

header_contains_iff_example :
    (header_contains (some two_headers) html ≡ true)
    ↔ Any (HeaderLine (codes "content-type") (codes "text/html")) (lines two_headers)
header_contains_iff_example =
    header_contains_iff two_headers (codes "content-type") (codes "text/html") two_headers_clean

bytes_contains-Occurs_example :
    (bytes_contains (buffer (codes "hello") (0 ∷ [])) (whole (codes "ell")) ≡ true)
    ↔ Occurs (codes "ell") (codes "hello")
bytes_contains-Occurs_example = bytes_contains-Occurs (codes "hello") (0 ∷ []) (codes "ell")

abbrev get_source : Text
get_source = codes "GET https://example.com\nEXPECT status 200\n"

abbrev get_lexer : DslLexer
get_lexer = record {
  input = get_source;
  len = length get_source;
  pos = 0;
  line = 1;
  column = 1;
  read_body_raw_next = false;
  allocs = [];
}

get_lexer-At : At get_lexer [] get_source
unfolding line_of column_of
get_lexer-At = record {
  input_is = refl;
  pos_is = refl;
  len_is = refl;
  line_is = refl;
  column_is = refl;
}

get_source_clean : Lacks 0 get_source
get_source_clean = no_nul-Lacks get_source (unfold codes in refl)

dsl_lexer_get_tokens-Gathers_example :
    Gathers get_lexer (dsl_lexer_get_tokens get_lexer).0 (dsl_lexer_get_tokens get_lexer).1
dsl_lexer_get_tokens-Gathers_example =
    dsl_lexer_get_tokens-Gathers get_lexer [] get_source get_lexer-At get_source_clean

abbrev wants_200 : Assertion
wants_200 = record { type = assert_status_eq; expected = value_int (pos 200) }

abbrev one_case : RequestCase
one_case = record zero_case {
  url = some (codes "https://example.com");
  timeout_ms = pos 5000;
  assertions = set zero_case.assertions 0 wants_200;
  assertion_count = 1;
}

abbrev one_outcome : Outcome
one_outcome = record {
  result = dsl_parse_ok;
  plan = record (init_run_plan zero_plan) {
    cases = set (init_run_plan zero_plan).cases 0 one_case;
    case_count = 1;
  };
  error = none;
}

parsed_one : dsl_parse_run_plan (some get_source) zero_plan none [] ≡ some one_outcome
unfolding dsl_parse_run_plan init_run_plan zero_plan zero_case
parsed_one = refl

dsl_parse_run_plan-Leaves_example : Leaves zero_plan one_outcome
dsl_parse_run_plan-Leaves_example =
    dsl_parse_run_plan-Leaves (some get_source) zero_plan none [] one_outcome parsed_one

free_run_plan-Among_example : Among (codes "https://example.com") (free_run_plan one_outcome.plan).0
unfolding init_run_plan zero_plan
free_run_plan-Among_example =
    free_run_plan-Among one_outcome.plan 0 (codes "https://example.com") (omega arith) (inl refl)

dsl_parse_run_plan_returns_example :
    is_some (dsl_parse_run_plan (some get_source) zero_plan none (true ∷ true ∷ false ∷ [])) ≡ true
dsl_parse_run_plan_returns_example =
    dsl_parse_run_plan_returns get_source zero_plan none (true ∷ true ∷ false ∷ []) get_source_clean

-- No URL stands behind the method.
abbrev no_url : Text
no_url = codes "GET\n"

no_url_clean : Lacks 0 no_url
no_url_clean = no_nul-Lacks no_url (unfold codes in refl)

some_calls-AllFresh : AllFresh some_calls new_queue
unfolding queue_step queue_push queue_pop queue_shutdown
some_calls-AllFresh = (tt, (refl, (refl, (tt, (refl, (tt, (tt, (refl, (tt, (tt, (tt, tt)))))))))))

create_queue-run_example :
    ((run_queue some_calls new_queue).0 ≡ (run_fifo some_calls empty_fifo).0)
    × Represents (run_queue some_calls new_queue).1 (run_fifo some_calls empty_fifo).1
create_queue-run_example =
    create_queue-run no_nodes new_queue some_calls (unfold create_queue in refl) some_calls-AllFresh

abbrev two_calls : List Call
two_calls = push (some 10) (some 1) ∷ push (some 20) (some 2) ∷ []

two_calls-AllFresh : AllFresh two_calls new_queue
unfolding queue_step queue_push
two_calls-AllFresh = (refl, (refl, tt))

two_queued : Represents (run_queue two_calls new_queue).1 (run_fifo two_calls empty_fifo).1
two_queued =
    (create_queue-run no_nodes new_queue two_calls (unfold create_queue in refl)
      (two_calls-AllFresh)).1

destroy_queue-Frees_example :
    Frees two_queued.nodes
      (run_queue two_calls new_queue).1.heap
      (destroy_queue (run_queue two_calls new_queue).1)
destroy_queue-Frees_example =
    destroy_queue-Frees (run_queue two_calls new_queue).1 (run_fifo two_calls empty_fifo).1
      two_queued
