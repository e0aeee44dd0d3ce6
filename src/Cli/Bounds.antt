-- ===== src/Cli/Bounds.antt =====
-- src/cli/cli_parser.c: what the options are like after `parse_cli_options`.
use fman.Prelude.{
  ℕ, zero, suc, ◌+◌, ◌≤◌, ◌<◌, ◌≡◌, refl, sym, ◌∙◌, Bool, false, List, [], ◌∷◌, Option, none, some,
  leb, length, set, drop, Text, codes, text_eq, get_or, arith, length-set, get_or-set_self,
  get_or-set_ne, Bool-cases, inl, inr, ◌⊎◌, ◌==◌, ==_iff, subst, if_cases,
}
use fman.Prelude.Int.{ℤ, pos, negsuc}
use fman.Models.{Assertion}
use fman.RunPlan.{zero_assertion}
use fman.Assertion.Header.{strncmp_eq}
use fman.Dsl.Lexer.{malloc}
use fman.Dsl.Parser.Fits.{IsFit}
use fman.Cli.{
  max_assertion, CliOptions, Step, failed, next, put_assertion, body_pattern, expect_status,
  expect_hex, expect_body, expect_header, parse_option, parse_options, parse_cli_options,
}
use fman.Cli.Hex.{parse_hex_bytes}

-- The counts stay within the arrays of 16, and no more patterns are owned than there are assertions.
pub record IsBounded (o : CliOptions) : Type 0 where
  pub count_fits : o.assertion_count ≤ max_assertion
  pub array : length o.assertions ≡ max_assertion
  pub owned_fits : o.owned_body_count ≤ o.assertion_count
  pub owned_array : length o.owned_expected_body ≡ max_assertion

-- And the assertions in use have expected values of their own kind.
pub record IsOptions (o : CliOptions) : Type 0 where
  pub bounded : IsBounded o
  pub fit :
      (j : ℕ)
      → j < o.assertion_count
      → IsFit
          (get_or o.assertions j zero_assertion).type
          (get_or o.assertions j zero_assertion).expected

put-IsBounded :
    (a : Assertion) (o : CliOptions)
    → o.assertion_count < max_assertion
    → IsBounded o
    → IsBounded (put_assertion a o)
put-IsBounded a o room v = record {
  count_fits = omega arith;
  array = length-set o.assertions o.assertion_count a ∙ v.array;
  owned_fits = omega (arith, v.owned_fits);
  owned_array = v.owned_array;
}

put-IsOptions :
    (a : Assertion) (o : CliOptions)
    → o.assertion_count < max_assertion
    → IsFit a.type a.expected
    → IsOptions o
    → IsOptions (put_assertion a o)
put-IsOptions a o room f v = record {
  bounded = put-IsBounded a o room v.bounded;
  fit = λ j lt. elim (Bool-cases (o.assertion_count == j)) [
    | inl same ↦
        let e : o.assertion_count ≡ j = (==_iff o.assertion_count j).0 same in
        subst (λ (x : Assertion). IsFit x.type x.expected)
          (sym (
            subst (λ (k : ℕ). get_or (set o.assertions o.assertion_count a) k zero_assertion ≡ a) e
              (get_or-set_self o.assertions o.assertion_count a zero_assertion
                (omega (arith, v.bounded.array)))))
          f
    | inr other ↦
        rw
          (get_or-set_ne o.assertions o.assertion_count j a zero_assertion
            (λ e. cc (other, (==_iff o.assertion_count j).1 e)))
          (v.fit j (ground arith))
  ];
}

-- A failure leaves bounded options, any other round good ones with no more arguments than there were.
Leads : ℕ → Step → Type 0
Leads n (failed o) = IsBounded o
Leads n (next args allocs o) = IsOptions o × (length args ≤ n)

room_left : (count : ℕ) → leb max_assertion count ≡ false → count < max_assertion
room_left count h = ground arith

status-Leads :
    (atoi : Text → ℤ) (args : List Text) (allocs : List Bool) (o : CliOptions)
    → IsOptions o
    → Leads (length args) (expect_status atoi args allocs o)
unfolding expect_status Leads
status-Leads atoi [] allocs o v = v.bounded
status-Leads atoi (value ∷ args) allocs o v =
    if_cases (Leads (suc (length args))) (leb max_assertion o.assertion_count) (λ _. v.bounded)
      λ h. (put-IsOptions _ o (room_left _ h) tt v, omega arith)

header-Leads :
    (args : List Text) (allocs : List Bool) (o : CliOptions)
    → IsOptions o
    → Leads (length args) (expect_header args allocs o)
unfolding expect_header Leads
header-Leads [] allocs o v = v.bounded
header-Leads (_ ∷ []) allocs o v = v.bounded
header-Leads (key ∷ value ∷ args) allocs o v =
    if_cases (Leads (suc (suc (length args)))) (leb max_assertion o.assertion_count)
      (λ _. v.bounded)
      λ h. (put-IsOptions _ o (room_left _ h) (key, value, refl, refl) v, omega arith)

hex-Leads :
    (bytes : Option Text) (args : List Text) (allocs : List Bool) (o : CliOptions)
    → o.assertion_count < max_assertion
    → IsOptions o
    → Leads (suc (length args)) (expect_hex bytes args allocs o)
unfolding expect_hex Leads
hex-Leads none args allocs o room v = put-IsBounded _ o room v.bounded
hex-Leads (some bytes) args allocs o room v =
    if_cases (Leads (suc (length args))) (leb max_assertion o.owned_body_count)
      (λ _. put-IsBounded _ o room v.bounded)
      λ h. (
        record {
          bounded = record {
            count_fits = omega arith;
            array = length-set o.assertions o.assertion_count _ ∙ v.bounded.array;
            owned_fits = omega (arith, v.bounded.owned_fits);
            owned_array =
                length-set o.owned_expected_body o.owned_body_count _ ∙ v.bounded.owned_array;
          };
          fit =
              (put-IsOptions (body_pattern (some bytes) (length bytes)) o room (bytes, refl, refl)
                v).fit;
        },
        omega arith,
      )

body-Leads :
    (args : List Text) (allocs : List Bool) (o : CliOptions)
    → IsOptions o
    → Leads (length args) (expect_body args allocs o)
unfolding expect_body Leads
body-Leads [] allocs o v = v.bounded
body-Leads (value ∷ args) allocs o v =
    let Good = Leads (suc (length args)) in
    if_cases Good (leb max_assertion o.assertion_count) (λ _. v.bounded)
      λ h.
        if_cases Good (strncmp_eq value (codes "hex:") 4)
          (λ _.
            hex-Leads (parse_hex_bytes (malloc allocs).0 (drop 4 value)) args (malloc allocs).1 o
              (room_left _ h) v)
          λ _. (put-IsOptions _ o (room_left _ h) (value, refl, refl) v, omega arith)

parse_option-Leads :
    (atoi : Text → ℤ) (arg : Text) (args : List Text) (allocs : List Bool) (o : CliOptions)
    → IsOptions o
    → Leads (length args) (parse_option atoi arg args allocs o)
unfolding parse_option Leads
parse_option-Leads atoi arg args allocs o v =
    let Good = Leads (length args) in
    if_cases Good (text_eq arg (codes "--expect-status")) (λ _. status-Leads atoi args allocs o v)
      λ _.
        if_cases Good (text_eq arg (codes "--expect-body")) (λ _. body-Leads args allocs o v)
          λ _.
            if_cases Good (text_eq arg (codes "--expect-header"))
              (λ _. header-Leads args allocs o v) λ _. v.bounded

-- What a call returns: 0 and good options, or -1 and bounded ones.
unfoldable pub IsParsed : ℤ × CliOptions → Type 0
IsParsed out = ((out.0 ≡ pos 0) × IsOptions out.1) ⊎ ((out.0 ≡ negsuc 0) × IsBounded out.1)

Returns : Option (ℤ × CliOptions) → Type 0
Returns o = (out : ℤ × CliOptions) × (o ≡ some out) × IsParsed out

Step-Returns :
    (n : ℕ) (rest : List Text → List Bool → CliOptions → Option (ℤ × CliOptions)) (s : Step)
    → ((args : List Text) (allocs : List Bool) (o : CliOptions)
        → length args ≤ n
        → IsOptions o
        → Returns (rest args allocs o))
    → Leads n s
    → Returns (elim s [ failed o ↦ some (negsuc 0, o) | next args allocs o ↦ rest args allocs o ])
unfolding Leads Returns IsParsed
Step-Returns n rest (failed o) ih b = (_, refl, inr (refl, b))
Step-Returns n rest (next args allocs o) ih (v, shorter) = ih args allocs o shorter v

parse_options-Returns :
    (atoi : Text → ℤ) (fuel : ℕ) (args : List Text) (allocs : List Bool) (o : CliOptions)
    → length args < fuel
    → IsOptions o
    → Returns (parse_options atoi fuel args allocs o)
unfolding parse_options Returns IsParsed
parse_options-Returns atoi zero args allocs o h v = absurd (omega arith)
parse_options-Returns atoi (suc fuel) [] allocs o h v = (_, refl, inl (refl, v))
parse_options-Returns atoi (suc fuel) (arg ∷ args) allocs o h v =
    Step-Returns (length args) (parse_options atoi fuel) (parse_option atoi arg args allocs o)
      (λ args' allocs' o' shorter v'.
        parse_options-Returns atoi fuel args' allocs' o' (omega (arith, h, shorter)) v')
      (parse_option-Leads atoi arg args allocs o v)

-- From options within their arrays, `parse_cli_options` returns: 0 with at most 16 assertions, each with an
-- expected value of its own kind, or -1. In both cases the counts stay within the arrays of 16, and no more
-- patterns are owned than there are assertions, whatever the arguments, `atoi` and the answers of `malloc`.
pub parse_cli_options-IsParsed :
    (atoi : Text → ℤ) (argv : List Text) (allocs : List Bool) (o : CliOptions)
    → IsOptions o
    → (out : ℤ × CliOptions) × (parse_cli_options atoi argv allocs o ≡ some out) × IsParsed out
unfolding parse_cli_options Returns IsParsed
parse_cli_options-IsParsed atoi (program ∷ command ∷ url ∷ args) allocs o v =
    parse_options-Returns atoi (length args + 1) args allocs _ (omega arith) (named v)
  where
    named : IsOptions o → IsOptions (record o { command = some command; url = some url })
    named v = record {
      bounded = record {
        count_fits = v.bounded.count_fits;
        array = v.bounded.array;
        owned_fits = v.bounded.owned_fits;
        owned_array = v.bounded.owned_array;
      };
      fit = v.fit;
    }
parse_cli_options-IsParsed atoi [] allocs o v = (_, refl, inr (refl, v.bounded))
parse_cli_options-IsParsed atoi (_ ∷ []) allocs o v = (_, refl, inr (refl, v.bounded))
parse_cli_options-IsParsed atoi (_ ∷ _ ∷ []) allocs o v = (_, refl, inr (refl, v.bounded))
