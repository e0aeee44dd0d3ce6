-- ===== src/RunPlan/Frees.antt =====
-- `free_run_plan` of src/core/run_plan.c: the buffers that a case owns.
use fman.Prelude.{
  ℕ, zero, suc, ◌+◌, ◌<◌, ◌≡◌, refl, ◌⊎◌, inl, inr, List, [], ◌∷◌, ◌++◌, Option, some, Text, get_or,
  arith, Any, subst,
}
use fman.Models.{
  Value, value_bytes, value_header, AssertionType, assert_body_contains, assert_header_contains,
  Assertion,
}
use fman.RunPlan.{
  RequestCase, RunPlan, zero_case, zero_assertion, freed, free_expected, free_assertions, free_case,
  free_cases, free_run_plan,
}

abbrev pub Among : Text → List Text → Type 0
Among b buffers = Any (λ (x : Text). x ≡ b) buffers

Among-left : (b : Text) (xs ys : List Text) → Among b xs → Among b (xs ++ ys)
Among-left b [] ys m = absurd m
Among-left b (x ∷ xs) ys (inl e) = inl e
Among-left b (x ∷ xs) ys (inr m) = inr (Among-left b xs ys m)

Among-right : (b : Text) (xs ys : List Text) → Among b ys → Among b (xs ++ ys)
Among-right b [] ys m = m
Among-right b (x ∷ xs) ys m = inr (Among-right b xs ys m)

-- `b` is the buffer of an expected value, as an assertion of its kind holds it.
abbrev pub HoldsBuffer : Text → AssertionType → Value → Type 0
HoldsBuffer b assert_body_contains (value_bytes e) = e.bytes ≡ some b
HoldsBuffer b assert_header_contains (value_header e) = (e.name ≡ some b) ⊎ (e.value ≡ some b)
HoldsBuffer b _ _ = ⊥

-- `b` is a buffer of the assertion with this index.
abbrev pub HoldsAt : Text → List Assertion → ℕ → Type 0
HoldsAt b assertions j =
    HoldsBuffer b (get_or assertions j zero_assertion).type
      (get_or assertions j zero_assertion).expected

-- `b` is a buffer of the case: its URL, its headers, its body, or that of an assertion in use.
abbrev pub Owns : RequestCase → Text → Type 0
Owns c b =
    (c.url ≡ some b)
    ⊎ ((c.headers ≡ some b)
        ⊎ ((c.body ≡ some b) ⊎ ((j : ℕ) × (j < c.assertion_count) × HoldsAt b c.assertions j)))

freed-Among : (p : Option Text) (b : Text) → p ≡ some b → Among b (freed p)
unfolding freed
freed-Among p b e = rw e (inl refl)

expected-Among :
    (t : AssertionType) (v : Value) (b : Text) → HoldsBuffer b t v → Among b (free_expected t v)
unfolding free_expected
expected-Among assert_body_contains (value_bytes e) b h = freed-Among e.bytes b h
expected-Among assert_header_contains (value_header e) b (inl h) =
    Among-left b (freed e.name) (freed e.value) (freed-Among e.name b h)
expected-Among assert_header_contains (value_header e) b (inr h) =
    Among-right b (freed e.name) (freed e.value) (freed-Among e.value b h)
expected-Among _ _ b h = absurd h

assertions-Among :
    (rounds from j : ℕ) (assertions : List Assertion) (b : Text)
    → j < rounds
    → HoldsAt b assertions (from + j)
    → Among b (free_assertions rounds from assertions)
unfolding free_assertions
assertions-Among zero from j assertions b lt h = absurd (omega arith)
assertions-Among (suc rounds) from zero assertions b lt h =
    let a = get_or assertions from zero_assertion in
    let same : from + 0 ≡ from = omega arith in
    Among-left b (free_expected a.type a.expected) _
      (expected-Among a.type a.expected b (subst (HoldsAt b assertions) same h))
assertions-Among (suc rounds) from (suc j) assertions b lt h =
    let same : from + suc j ≡ (from + 1) + j = omega arith in
    Among-right b _ (free_assertions rounds (from + 1) assertions) (
      assertions-Among rounds (from + 1) j assertions b (omega arith)
        (subst (HoldsAt b assertions) same h))

zero_add : (j : ℕ) → j ≡ 0 + j
zero_add j = omega arith

case-Among : (c : RequestCase) (b : Text) → Owns c b → Among b (free_case c)
unfolding free_case
case-Among c b (inl h) = Among-left b (freed c.url) _ (freed-Among c.url b h)
case-Among c b (inr (inl h)) =
    Among-right b (freed c.url) _ (Among-left b (freed c.headers) _ (freed-Among c.headers b h))
case-Among c b (inr (inr (inl h))) =
    Among-right b (freed c.url) _
      (Among-right b (freed c.headers) _ (Among-left b (freed c.body) _ (freed-Among c.body b h)))
case-Among c b (inr (inr (inr (j, lt, h)))) = Among-right b (freed c.url) _ (
    Among-right b (freed c.headers) _ (
      Among-right b (freed c.body) _ (
        assertions-Among c.assertion_count 0 j c.assertions b lt
          (subst (HoldsAt b c.assertions) (zero_add j) h))))

cases-Among :
    (rounds from i : ℕ) (cases : List RequestCase) (b : Text)
    → i < rounds
    → Owns (get_or cases (from + i) zero_case) b
    → Among b (free_cases rounds from cases)
unfolding free_cases
cases-Among zero from i cases b lt h = absurd (omega arith)
cases-Among (suc rounds) from zero cases b lt h =
    let same : from + 0 ≡ from = omega arith in
    Among-left b (free_case (get_or cases from zero_case)) _ (
      case-Among (get_or cases from zero_case) b
        (subst (λ (k : ℕ). Owns (get_or cases k zero_case) b) same h))
cases-Among (suc rounds) from (suc i) cases b lt h =
    let same : from + suc i ≡ (from + 1) + i = omega arith in
    Among-right b _ (free_cases rounds (from + 1) cases) (
      cases-Among rounds (from + 1) i cases b (omega arith)
        (subst (λ (k : ℕ). Owns (get_or cases k zero_case) b) same h))

-- Every buffer of a case in use is among those that `free_run_plan` gives back: its URL, headers and body,
-- and the patterns, header names and header values of its assertions in use.
pub free_run_plan-Among :
    (plan : RunPlan) (i : ℕ) (b : Text)
    → i < plan.case_count
    → Owns (get_or plan.cases i zero_case) b
    → Among b (free_run_plan plan).0
unfolding free_run_plan
free_run_plan-Among plan i b lt h = Among-left b (free_cases plan.case_count 0 plan.cases) _ (
    cases-Among plan.case_count 0 i plan.cases b lt
      (subst (λ (k : ℕ). Owns (get_or plan.cases k zero_case) b) (zero_add i) h))
