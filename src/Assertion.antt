-- ===== src/Assertion.antt =====
-- src/core/assertion.c. A pointer into a text is the rest of the text from there on, so the
-- distance of two pointers is a difference of lengths.
pub mod Search
pub mod Header
pub mod Eval
pub mod Null
use fman.Prelude.{
  ℕ, zero, suc, ◌+◌, ◌-◌, Bool, true, false, not, ◌&&◌, ◌||◌, List, [], ◌∷◌, Option, none, some,
  ltb, leb, ◌==◌, if◌then◌else◌, length, get_or, take, drop, Text, text_eq, codes, String, ◌/◌, ◌%◌,
  ◌^◌,
}
use fman.Prelude.Int.{ℤ, int_eq, pos, negsuc}
use fman.Models.{
  Bytes, HeaderExpect, Value, value_none, value_int, value_string, value_bool, value_double,
  value_bytes, value_header, AssertionType, assert_status_eq, assert_body_contains,
  assert_header_contains, Assertion, AssertionResult, Response,
}
use Search.{bytes_contains}
use Header.{header_contains}

is_nan : ℕ → Bool
is_nan a = (a / 2 ^ 52) % 2 ^ 11 == 2047 && not (a % 2 ^ 52 == 0)

-- The C operator `==` on doubles: the two zeros are equal, and a NaN equals nothing.
double_eq : ℕ → ℕ → Bool
unfolding is_nan
double_eq a b = not (is_nan a) && not (is_nan b) && (a == b || (a % 2 ^ 63 == 0 && b % 2 ^ 63 == 0))

string_eq : Option Text → Option Text → Bool
string_eq (some a) (some b) = text_eq a b
string_eq _ _ = false

check_equal : Value → Value → Bool
unfolding string_eq double_eq
check_equal (value_int a) (value_int b) = int_eq a b
check_equal (value_bool a) (value_bool b) = int_eq a b
check_equal (value_double a) (value_double b) = double_eq a b
check_equal (value_string a) (value_string b) = string_eq a b
check_equal _ _ = false

-- `AssertionResult as_result = {0};`
abbrev no_result : AssertionResult
no_result = record {
  type = assert_status_eq;
  passed = false;
  expected = value_none;
  actual = value_none;
  message = none;
}

-- A result for the assertion, with what the rest of the function sets.
abbrev report : AssertionType → Value → Bool → Value → String → AssertionResult
report type expected passed actual message = record {
  type = type;
  passed = passed;
  expected = expected;
  actual = actual;
  message = some (codes message);
}

eval_status : Response → Value → AssertionResult
eval_status resp (value_int e) =
    let actual = value_int resp.status_code in
    let passed = check_equal actual (value_int e) in
    report assert_status_eq (value_int e) passed actual
      (if passed then "Status assertion passed" else "Status assertion failed")
eval_status resp expected =
    report assert_status_eq expected false value_none "ASSERT_STATUS_EQ expects VALUE_INT"

pub eval_body : Option Text → ℕ → Value → AssertionResult
eval_body (some body) (suc body_len) (value_bytes e) =
    let actual = value_bytes (record { bytes = some body; len = suc body_len }) in
    let passed = bytes_contains actual (value_bytes e) in
    report assert_body_contains (value_bytes e) passed actual
      (if passed then "Body assertion passed" else "Body assertion failed")
eval_body body body_len (value_bytes e) =
    report assert_body_contains (value_bytes e) false value_none "Body assertion failed: empty body"
eval_body body body_len expected =
    report assert_body_contains expected false value_none "ASSERT_BODY_CONTAINS expects VALUE_BYTES"

pub eval_header : Option Text → Value → AssertionResult
eval_header (some (c ∷ headers)) (value_header e) =
    let passed = header_contains (some (c ∷ headers)) e in
    report assert_header_contains (value_header e) passed (value_string (some (c ∷ headers)))
      (if passed then "Header assertion passed" else "Header assertion failed")
eval_header headers (value_header e) =
    report assert_header_contains (value_header e) false value_none
      "Header assertion failed: empty header"
eval_header headers expected =
    report assert_header_contains expected false value_none
      "ASSERT_HEADER_CONTAINS expects VALUE_HEADER"

eval_type : Response → AssertionType → Value → AssertionResult
eval_type resp assert_status_eq expected = eval_status resp expected
eval_type resp assert_body_contains expected = eval_body resp.body resp.body_len expected
eval_type resp assert_header_contains expected = eval_header resp.headers expected

unfoldable pub eval_assertion : Option Response → Option Assertion → AssertionResult
unfolding eval_type eval_status eval_body eval_header check_equal
eval_assertion (some resp) (some wanted) = eval_type resp wanted.type wanted.expected
eval_assertion _ _ = record no_result { message = some (codes "Invalid assertion input") }
