-- ===== src/Cli/Output/Marks.antt =====
-- `print_assertion_result` of src/cli/cli_output.c on what `eval_assertion` of src/core/assertion.c reports.
use fman.Prelude.{
  ◌≡◌, ◌↔◌, ◌⊎◌, inl, inr, refl, sym, ap, ◌∙◌, Bool, true, false, some, if◌then◌else◌, take, get_or,
  Text, arith,
}
use fman.Models.{
  AssertionType, assert_status_eq, assert_body_contains, assert_header_contains, Assertion,
  AssertionResult, Response,
}
use fman.Assertion.{eval_assertion}
use fman.Assertion.Eval.{Passes, IsReadable, eval_assertion_iff}
use fman.Cli.Output.{
  pass_mark, fail_mark, print_status_result, print_body_result, print_header_result, print_by_type,
  print_assertion_result,
}

mark_of : Bool → Text
mark_of passed = if passed then pass_mark else fail_mark

marked_by :
    (passed : Bool) (a b : Text)
    → take 6 a ≡ pass_mark
    → take 6 b ≡ fail_mark
    → take 6 (if passed then a else b) ≡ mark_of passed
unfolding mark_of
marked_by true a b p f = p
marked_by false a b p f = f

by_type_marked :
    (t : AssertionType) (r : AssertionResult) → take 6 (print_by_type t r) ≡ mark_of r.passed
unfolding print_by_type print_status_result print_body_result print_header_result
by_type_marked assert_status_eq r = marked_by r.passed _ _ refl refl
by_type_marked assert_body_contains r = marked_by r.passed _ _ refl refl
by_type_marked assert_header_contains r = marked_by r.passed _ _ refl refl

mark_of_iff : (passed : Bool) → (mark_of passed ≡ pass_mark) ↔ (passed ≡ true)
unfolding mark_of
mark_of_iff true = (λ _. refl, λ _. refl)
mark_of_iff false =
    (λ e. absurd (omega (arith, ap (λ (t : Text). get_or t 4 0) e)), λ e. absurd (cc e))

mark_cases : (passed : Bool) → (mark_of passed ≡ pass_mark) ⊎ (mark_of passed ≡ fail_mark)
unfolding mark_of
mark_cases true = inl refl
mark_cases false = inr refl

-- What is printed of an evaluated assertion begins with a tick exactly when the response has the property that the
-- assertion asks for, under the conditions of `eval_assertion_iff`, and with a cross otherwise.
pub printed_tick_iff :
    (r : Response) (a : Assertion)
    → IsReadable r a.expected
    → let shown = take 6 (print_assertion_result (some (eval_assertion (some r) (some a)))) in
      ((shown ≡ pass_mark) ↔ Passes r a.type a.expected)
      × ((shown ≡ pass_mark) ⊎ (shown ≡ fail_mark))
unfolding print_assertion_result
printed_tick_iff r a ok =
    let result = eval_assertion (some r) (some a) in
    let marked = by_type_marked result.type result in
    let (to, back) = mark_of_iff result.passed in
    let (sound, complete) = eval_assertion_iff r a ok in
    (
      (λ e. sound (to (sym marked ∙ e)), λ p. marked ∙ back (complete p)),
      elim (mark_cases result.passed) [
        | inl tick ↦ inl (marked ∙ tick)
        | inr cross ↦ inr (marked ∙ cross)
      ],
    )
