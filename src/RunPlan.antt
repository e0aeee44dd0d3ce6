-- ===== src/RunPlan.antt =====
-- include/core/run_plan.h and src/core/run_plan.c. An array of a plan is a list of the array's length;
-- an entry is written by `set` and read by `get_or`.
pub mod Frees
pub mod Results
use fman.Prelude.{
  ℕ, zero, suc, ◌+◌, Bool, true, false, List, [], ◌∷◌, ◌++◌, Option, none, some, Text, replicate,
  get_or,
}
use fman.Prelude.Int.{ℤ, pos}
use fman.Models.{
  Method, get, Value, value_none, value_string, value_bytes, value_header, AssertionType,
  assert_status_eq, assert_body_contains, assert_header_contains, Assertion,
}

abbrev pub max_request_cases : ℕ
max_request_cases = 128

abbrev pub max_case_assertions : ℕ
max_case_assertions = 32

pub record RequestCase : Type 0 where
  pub method : Method
  pub url : Option Text
  pub headers : Option Text
  pub body : Option Text
  pub body_len : ℕ
  pub assertions : List Assertion
  pub assertion_count : ℕ
  pub timeout_ms : ℤ

pub record RunPlan : Type 0 where
  pub cases : List RequestCase
  pub case_count : ℕ
  pub worker_count : ℕ
  pub save_history : Bool
  pub db_path : Option Text
  pub collection_name : Option Text
  pub default_timeout_ms : ℤ

-- What `memset(..., 0, ...)` leaves.
abbrev pub zero_assertion : Assertion
zero_assertion = record { type = assert_status_eq; expected = value_none }

unfoldable pub zero_case : RequestCase
zero_case = record {
  method = get;
  url = none;
  headers = none;
  body = none;
  body_len = 0;
  assertions = replicate max_case_assertions zero_assertion;
  assertion_count = 0;
  timeout_ms = pos 0;
}

unfoldable pub zero_plan : RunPlan
unfolding zero_case
zero_plan = record {
  cases = replicate max_request_cases zero_case;
  case_count = 0;
  worker_count = 0;
  save_history = false;
  db_path = none;
  collection_name = none;
  default_timeout_ms = pos 0;
}

unfoldable pub init_run_plan : RunPlan → RunPlan
unfolding zero_plan
init_run_plan plan = record zero_plan {
  worker_count = 4;
  save_history = true;
  default_timeout_ms = pos 5000;
  db_path = none;
  collection_name = none;
}

-- The buffers that `free` gives back at a pointer: none at NULL.
freed : Option Text → List Text
freed none = []
freed (some buffer) = buffer ∷ []

-- For a body assertion the source frees `string_value`, the same word of the union as the bytes.
free_expected : AssertionType → Value → List Text
unfolding freed
free_expected assert_body_contains (value_string s) = freed s
free_expected assert_body_contains (value_bytes b) = freed b.bytes
free_expected assert_header_contains (value_header h) = freed h.name ++ freed h.value
free_expected _ _ = []

free_assertions : ℕ → ℕ → List Assertion → List Text
unfolding free_expected
free_assertions zero j assertions = []
free_assertions (suc rounds) j assertions =
    let a = get_or assertions j zero_assertion in
    free_expected a.type a.expected ++ free_assertions rounds (j + 1) assertions

free_case : RequestCase → List Text
unfolding freed free_assertions
free_case c =
    freed c.url
    ++ (freed c.headers ++ (freed c.body ++ free_assertions c.assertion_count 0 c.assertions))

free_cases : ℕ → ℕ → List RequestCase → List Text
unfolding free_case
free_cases zero i cases = []
free_cases (suc rounds) i cases =
    free_case (get_or cases i zero_case) ++ free_cases rounds (i + 1) cases

-- The buffers that are given back, in order, and the plan that is left.
unfoldable pub free_run_plan : RunPlan → List Text × RunPlan
unfolding free_cases freed
free_run_plan plan = (
  free_cases plan.case_count 0 plan.cases ++ (freed plan.db_path ++ freed plan.collection_name),
  zero_plan,
)
