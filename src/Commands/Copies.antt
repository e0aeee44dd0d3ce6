-- ===== src/Commands/Copies.antt =====
-- src/cli/commands.c: the copies of the assertions.
use fman.Prelude.{
  ℕ, at_or_past, zero, suc, ◌+◌, ◌≤◌, ◌<◌, ◌≡◌, refl, sym, ap, ◌∙◌, ◌⊎◌, inl, inr, Bool, true,
  false, List, Option, none, some, if◌then◌else◌, length, take, get_or, set, Text, arith, subst,
  length-set, get_or-set_self, get_or-set_ne,
}
use fman.Models.{
  Response, HeaderExpect, Value, value_bytes, value_header, Assertion, AssertionType,
  assert_status_eq, assert_body_contains, assert_header_contains,
}
use fman.RunPlan.{zero_assertion}
use fman.Assertion.{eval_assertion}
use fman.Assertion.Null.{null_body_fails, null_header_fails}
use fman.Dsl.Lexer.{malloc}
use fman.Dsl.Parser.Fits.{IsFit}
use fman.Worker.Buffer.Grow.{take-length}
use fman.Commands.{dup_string, copy_data, copy_value, copy_assertions}

abbrev pub passes_on : Response → AssertionType → Value → Bool
passes_on resp type expected =
    (eval_assertion (some resp) (some (record { type = type; expected = expected }))).passed

-- A copy is the same text, or NULL.
same_or_null :
    (done : Bool) (s : Text)
    → ((if done then some s else none) ≡ some s) ⊎ ((if done then some s else none) ≡ none)
same_or_null true s = inl refl
same_or_null false s = inr refl

dup_string_same :
    (p : Option Text) (allocs : List Bool)
    → ((dup_string p allocs).0 ≡ p) ⊎ ((dup_string p allocs).0 ≡ none)
unfolding dup_string
dup_string_same none allocs = inl refl
dup_string_same (some s) allocs = same_or_null (malloc allocs).0 s

copy_data_same :
    (p : Option Text) (len : ℕ) (t : Text) (allocs : List Bool)
    → p ≡ some t
    → len ≡ length t
    → ((copy_data p len allocs).0 ≡ p) ⊎ ((copy_data p len allocs).0 ≡ none)
unfolding copy_data
copy_data_same none len t allocs e l = inl refl
copy_data_same (some s) len t allocs e l =
    let same : s ≡ t = cc e in
    let whole : take len s ≡ s =
      ap (λ (n : ℕ). take n s) (l ∙ ap (λ (x : Text). length x) (sym same)) ∙ take-length s in
    subst
      (λ (x : Text).
        ((if (malloc allocs).0 then some x else none) ≡ some s)
        ⊎ ((if (malloc allocs).0 then some x else none) ≡ none))
      (sym whole) (same_or_null (malloc allocs).0 s)

-- A copy of an expected value is the same value, or has a NULL that the assertion never passes with.
copy_value_passes :
    (resp : Response) (type : AssertionType) (v : Value) (allocs : List Bool)
    → IsFit type v
    → passes_on resp type (copy_value type v allocs).0 ≡ true
    → passes_on resp type v ≡ true
unfolding copy_value
copy_value_passes resp assert_status_eq _ allocs fit h = h
copy_value_passes resp assert_body_contains (value_bytes e) allocs (t, b, l) h =
    elim (copy_data_same e.bytes e.len t allocs b l) [
      | inl same ↦
          subst
            (λ (p : Option Text).
              passes_on resp assert_body_contains (value_bytes (record { bytes = p; len = e.len }))
              ≡ true)
            same h
      | inr null ↦ absurd (
          cc (
            null_body_fails resp
                (record { bytes = (copy_data e.bytes e.len allocs).0; len = e.len }) null,
            h,
          ))
    ]
copy_value_passes resp assert_body_contains _ allocs fit h = h
copy_value_passes resp assert_header_contains (value_header e) allocs fit h =
    let rest = (dup_string e.name allocs).1 in
    let e' : HeaderExpect = record {
      name = (dup_string e.name allocs).0;
      value = (dup_string e.value rest).0;
    } in
    elim (dup_string_same e.name allocs) [
      | inr null ↦ absurd (cc (null_header_fails resp e' (inl null), h))
      | inl name ↦ elim (dup_string_same e.value rest) [
        | inr null ↦ absurd (cc (null_header_fails resp e' (inr null), h))
        | inl value ↦
            subst
              (λ (x : HeaderExpect). passes_on resp assert_header_contains (value_header x) ≡ true)
              (λ i. record { name = name i; value = value i }) h
      ]
    ]
copy_value_passes resp assert_header_contains _ allocs fit h = h

abbrev passes_at : Response → List Assertion → ℕ → Bool
passes_at resp assertions j =
    (eval_assertion (some resp) (some (get_or assertions j zero_assertion))).passed

-- What passes on the copies passes on the assertions.
pub copy_assertions-passes :
    (rounds i : ℕ) (from to : List Assertion) (allocs : List Bool) (resp : Response)
    → i + rounds ≤ length to
    → ((j : ℕ)
        → j < i + rounds
        → IsFit (get_or from j zero_assertion).type (get_or from j zero_assertion).expected)
    → ((j : ℕ)
        → j < i
        → get_or to j zero_assertion
          ≡ get_or (copy_assertions rounds i from to allocs).0 j zero_assertion)
      × ((j : ℕ)
          → i ≤ j
          → j < i + rounds
          → passes_at resp (copy_assertions rounds i from to allocs).0 j ≡ true
          → passes_at resp from j ≡ true)
unfolding copy_assertions
copy_assertions-passes zero i from to allocs resp room fit =
    (λ j lt. refl, λ j le lt. absurd (omega arith))
copy_assertions-passes (suc rounds) i from to allocs resp room fit =
    let a = get_or from i zero_assertion in
    let (expected, allocs') = copy_value a.type a.expected allocs in
    let copied : Assertion = record { type = a.type; expected = expected } in
    let (kept, later) =
      copy_assertions-passes rounds (i + 1) from (set to i copied) allocs' resp
        (subst (λ n. i + 1 + rounds ≤ n) (sym (length-set to i copied)) (omega arith))
        (λ j lt. fit j (omega arith)) in
    (
      λ j lt. sym (get_or-set_ne to i j copied zero_assertion (omega arith)) ∙ kept j (omega arith),
      λ j le lt. elim (at_or_past i j le) [
        | inl same ↦ λ h.
            let done = (copy_assertions rounds (i + 1) from (set to i copied) allocs').0 in
            let at_i : get_or done i zero_assertion ≡ copied =
              sym (kept i (omega arith))
              ∙ get_or-set_self to i copied zero_assertion (omega arith) in
            let h_i : passes_at resp done i ≡ true =
              subst (λ n. passes_at resp done n ≡ true) (sym same) h in
            subst (λ n. passes_at resp from n ≡ true) same
              (copy_value_passes resp a.type a.expected allocs (fit i (omega arith)) (
                subst (λ (x : Assertion). (eval_assertion (some resp) (some x)).passed ≡ true) at_i
                  h_i))
        | inr past ↦ later j past (omega arith)
      ],
    )
