-- ===== src/Dsl/Parser/Fits.antt =====
-- src/dsl/dsl_parser.c: what a plan that the parser builds is like.
use fman.Prelude.{
  ℕ, suc, ◌+◌, ◌≤◌, ◌<◌, ◌≡◌, sym, ◌∙◌, inl, inr, some, arith, Bool-cases, length, get_or, set,
  Text, length-set, get_or-set_self, get_or-set_ne, ◌==◌, ==_iff, subst,
}
use fman.Prelude.Int.{pos}
use fman.Models.{
  Value, value_int, value_bytes, value_header, AssertionType, assert_status_eq,
  assert_body_contains, assert_header_contains, Assertion,
}
use fman.RunPlan.{
  RequestCase, RunPlan, max_request_cases, max_case_assertions, zero_case, zero_assertion,
}
use fman.Dsl.Parser.{State, case_at, put_case}

-- The expected value is of the kind that its assertion takes, with its own bytes.
abbrev pub IsFit : AssertionType → Value → Type 0
IsFit assert_status_eq (value_int n) = Unit {0}
IsFit assert_body_contains (value_bytes e) = (t : Text) × (e.bytes ≡ some t) × (e.len ≡ length t)
IsFit assert_header_contains (value_header e) =
    (name value : Text) × (e.name ≡ some name) × (e.value ≡ some value)
IsFit _ _ = ⊥

-- A case in use: it has a URL and a positive timeout, its body is as long as it says, and the first
-- `assertion_count` of its 32 assertions are fit.
pub record IsCase (c : RequestCase) : Type 0 where
  pub has_url : (u : Text) × (c.url ≡ some u)
  pub body_fits : (b : Text) → c.body ≡ some b → c.body_len ≡ length b
  pub has_timeout : (n : ℕ) × (c.timeout_ms ≡ pos (suc n))
  pub count_fits : c.assertion_count ≤ max_case_assertions
  pub array : length c.assertions ≡ max_case_assertions
  pub fit :
      (j : ℕ)
      → j < c.assertion_count
      → IsFit
          (get_or c.assertions j zero_assertion).type
          (get_or c.assertions j zero_assertion).expected

-- At most 128 cases are in use, and each of them is a case as above.
pub record IsPlan (plan : RunPlan) : Type 0 where
  pub cases_fit : plan.case_count ≤ max_request_cases
  pub array : length plan.cases ≡ max_request_cases
  pub each : (i : ℕ) → i < plan.case_count → IsCase (case_at plan i)

-- Writing a case in use by a case keeps the plan.
pub put_case-IsPlan :
    (s : State) (i : ℕ) (c : RequestCase)
    → i < s.plan.case_count
    → IsCase c
    → IsPlan s.plan
    → IsPlan (put_case s i c).plan
unfolding case_at
put_case-IsPlan s i c h k v = record {
  cases_fit = v.cases_fit;
  array = length-set s.plan.cases i c ∙ v.array;
  each = λ j lt. elim (Bool-cases (i == j)) [
    | inl same ↦
        let e : i ≡ j = (==_iff i j).0 same in
        rw (← e, get_or-set_self s.plan.cases i c zero_case (omega (arith, v.array, v.cases_fit))) k
    | inr other ↦
        rw (get_or-set_ne s.plan.cases i j c zero_case (λ e. cc (other, (==_iff i j).1 e)))
          (v.each j lt)
  ];
}

-- One more assertion, where there is room.
pub add_assertion-IsCase :
    (c : RequestCase) (a : Assertion)
    → IsCase c
    → c.assertion_count < max_case_assertions
    → IsFit a.type a.expected
    → IsCase (record c {
      assertions = set c.assertions c.assertion_count a;
      assertion_count = c.assertion_count + 1;
    })
add_assertion-IsCase c a v room f = record {
  has_url = v.has_url;
  body_fits = v.body_fits;
  has_timeout = v.has_timeout;
  count_fits = omega arith;
  array = length-set c.assertions c.assertion_count a ∙ v.array;
  fit = λ j lt. elim (Bool-cases (c.assertion_count == j)) [
    | inl same ↦
        let e : c.assertion_count ≡ j = (==_iff c.assertion_count j).0 same in
        subst (λ (x : Assertion). IsFit x.type x.expected)
          (sym (
            subst (λ (k : ℕ). get_or (set c.assertions c.assertion_count a) k zero_assertion ≡ a) e
              (get_or-set_self c.assertions c.assertion_count a zero_assertion
                (omega (arith, v.array)))))
          f
    | inr other ↦
        rw
          (get_or-set_ne c.assertions c.assertion_count j a zero_assertion
            (λ e. cc (other, (==_iff c.assertion_count j).1 e)))
          (v.fit j (ground arith))
  ];
}
