-- ===== src/Engine/Witnesses.antt =====
-- The theorems on src/core/engine.c at concrete inputs.
use fman.Prelude.{ℕ, ◌+◌, ◌≡◌, refl, true, none, some, set, get_or, arith}
use fman.Prelude.Int.{ℤ, pos, int_eq}
use fman.Assertion.{eval_assertion}
use fman.Models.{Request, Response, value_int, assert_status_eq, response_ok}
use fman.RunPlan.{RequestCase, RunPlan, zero_case, zero_plan, init_run_plan}
use fman.RunPlan.Results.{zero_run_result, zero_case_result}
use fman.Engine.{Services, run_plan}
use fman.Engine.Passes.{HasPassed}
use fman.Engine.Exit.{run_plan_passes}

abbrev pub request_of : RequestCase → ℤ → Request
request_of c collection_id = record {
  id = pos 7;
  collection_id = collection_id;
  method = c.method;
  url = c.url;
  url_len = 0;
  headers = c.headers;
  headers_len = 0;
  body = c.body;
  body_len = c.body_len;
  status = pos 0;
}

abbrev pub answer : ℤ → Response
answer request_id = record {
  id = pos 0;
  request_id = request_id;
  status_code = pos 200;
  headers = none;
  headers_len = 0;
  headers_capacity = 0;
  content_type = none;
  body = none;
  body_len = 0;
  body_capacity = 0;
  duration = 0;
  result = response_ok;
}

-- A server that answers every request with the status 200. Its state is how often the engine has cleaned up.
abbrev pub good_services : Services ℕ
good_services = record {
  db_init = λ path w. (true, w);
  create_collection = λ name w. (some (record { id = pos 1; name = some name; name_len = 0 }), w);
  db_save_collection = λ coll w. (true, coll, w);
  create_runtime = λ workers w. (true, w);
  create_request = λ c id w. (some (request_of c id), w);
  db_save_request = λ r w. (true, r, w);
  dispatch_task = λ r w. (true, w);
  wait_for_response = λ id timeout w. (some (answer id), w);
  clean_up = λ w. w + 1;
}

abbrev pub status_case : RequestCase
status_case = record zero_case {
  assertions =
      set zero_case.assertions 0
        (record { type = assert_status_eq; expected = value_int (pos 200) });
  assertion_count = 1;
}

abbrev pub status_plan : RunPlan
status_plan = record (init_run_plan zero_plan) {
  cases = set (init_run_plan zero_plan).cases 0 status_case;
  case_count = 1;
}

exits_with_zero : (run_plan good_services status_plan zero_run_result 0).0 ≡ pos 0
unfolding run_plan zero_plan init_run_plan zero_case zero_run_result eval_assertion int_eq
exits_with_zero = refl

run_plan_passes_example : HasPassed status_case (
    get_or (run_plan good_services status_plan zero_run_result 0).1.case_results 0 zero_case_result)
unfolding zero_plan init_run_plan
run_plan_passes_example =
    run_plan_passes good_services status_plan zero_run_result 0 exits_with_zero 0 (omega arith)
