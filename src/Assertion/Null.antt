-- ===== src/Assertion/Null.antt =====
-- `eval_assertion` of src/core/assertion.c: expected values with a NULL in them.
use fman.Prelude.{◌≡◌, ◌∙◌, ◌⊎◌, inr, false, none, some}
use fman.Models.{
  Bytes, HeaderExpect, value_bytes, value_header, assert_body_contains, assert_header_contains,
  Response,
}
use fman.Assertion.{eval_assertion, eval_type}
use fman.Assertion.Eval.{body_none, header_at}
use fman.Assertion.Header.Lines.{header_contains_null}

pub null_body_fails :
    (r : Response) (e : Bytes)
    → e.bytes ≡ none
    → (eval_assertion
        (some r)
        (some (record { type = assert_body_contains; expected = value_bytes e }))).passed
      ≡ false
unfolding eval_assertion eval_type
null_body_fails r e null = body_none r.body r.body_len e (inr null)

pub null_header_fails :
    (r : Response) (e : HeaderExpect)
    → (e.name ≡ none) ⊎ (e.value ≡ none)
    → (eval_assertion
        (some r)
        (some (record { type = assert_header_contains; expected = value_header e }))).passed
      ≡ false
unfolding eval_assertion eval_type
null_header_fails r e null = header_at r.headers e ∙ header_contains_null r.headers e null
