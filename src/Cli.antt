-- ===== src/Cli.antt =====
-- include/cli/cli_parser.h and src/cli/cli_parser.c. The printed messages are left out. `atoi` is the C library's;
-- `allocs` are the answers of `malloc` to the calls of `parse_hex_bytes`.
pub mod Hex
pub mod Output
pub mod Bounds
pub mod Tests
use fman.Prelude.{
  ℕ, zero, suc, ◌+◌, Bool, true, false, List, [], ◌∷◌, Option, none, some, leb, if◌then◌else◌,
  length, set, drop, Text, codes, text_eq,
}
use fman.Prelude.Int.{ℤ, pos, negsuc}
use fman.Models.{
  Assertion, assert_status_eq, assert_body_contains, assert_header_contains, value_int, value_bytes,
  value_header,
}
use fman.Assertion.Header.{strncmp_eq}
use fman.Dsl.Lexer.{malloc}
use Hex.{parse_hex_bytes}

abbrev pub max_assertion : ℕ
max_assertion = 16

pub record CliOptions : Type 0 where
  pub command : Option Text
  pub url : Option Text
  pub assertions : List Assertion
  pub assertion_count : ℕ
  pub owned_expected_body : List (Option Text)
  pub owned_body_count : ℕ

-- What a round of the loop leaves: the failure, or the arguments that are left and the answers of `malloc`.
pub data Step : Type 0 where
  failed : CliOptions → Step
  next : List Text → List Bool → CliOptions → Step

-- `assertion = &options->assertions[options->assertion_count++]`, with what is written through it.
abbrev pub put_assertion : Assertion → CliOptions → CliOptions
put_assertion a o = record o {
  assertions = set o.assertions o.assertion_count a;
  assertion_count = o.assertion_count + 1;
}

abbrev pub body_pattern : Option Text → ℕ → Assertion
body_pattern bytes len = record {
  type = assert_body_contains;
  expected = value_bytes (record { bytes = bytes; len = len });
}

pub expect_status : (Text → ℤ) → List Text → List Bool → CliOptions → Step
expect_status atoi [] allocs o = failed o
expect_status atoi (value ∷ args) allocs o =
    if leb max_assertion o.assertion_count
    then failed o
    else next args allocs
        (put_assertion (record { type = assert_status_eq; expected = value_int (atoi value) }) o)

-- A pattern in hexadecimal digits. Without bytes the assertion keeps those of the zeroed array.
pub expect_hex : Option Text → List Text → List Bool → CliOptions → Step
expect_hex none args allocs o = failed (put_assertion (body_pattern none 0) o)
expect_hex (some bytes) args allocs o =
    if leb max_assertion o.owned_body_count
    then failed (put_assertion (body_pattern none 0) o)
    else next args allocs (
        put_assertion (body_pattern (some bytes) (length bytes)) (record o {
          owned_expected_body = set o.owned_expected_body o.owned_body_count (some bytes);
          owned_body_count = o.owned_body_count + 1;
        }))

pub expect_body : List Text → List Bool → CliOptions → Step
expect_body [] allocs o = failed o
expect_body (value ∷ args) allocs o =
    let (allocated, allocs') = malloc allocs in
    if leb max_assertion o.assertion_count
    then failed o
    else if strncmp_eq value (codes "hex:") 4
    then expect_hex (parse_hex_bytes allocated (drop 4 value)) args allocs' o
    else next args allocs (put_assertion (body_pattern (some value) (length value)) o)

pub expect_header : List Text → List Bool → CliOptions → Step
expect_header (key ∷ value ∷ args) allocs o =
    if leb max_assertion o.assertion_count
    then failed o
    else next args allocs (
        put_assertion
          (record {
            type = assert_header_contains;
            expected = value_header (record { name = some key; value = some value });
          })
          o)
expect_header _ allocs o = failed o

pub parse_option : (Text → ℤ) → Text → List Text → List Bool → CliOptions → Step
parse_option atoi arg args allocs o =
    if text_eq arg (codes "--expect-status")
    then expect_status atoi args allocs o
    else if text_eq arg (codes "--expect-body")
    then expect_body args allocs o
    else if text_eq arg (codes "--expect-header")
    then expect_header args allocs o
    else failed o

-- The loop over the arguments; `none` says that the fuel ran out.
pub parse_options : (Text → ℤ) → ℕ → List Text → List Bool → CliOptions → Option (ℤ × CliOptions)
parse_options atoi zero args allocs o = none
parse_options atoi (suc fuel) [] allocs o = some (pos 0, o)
parse_options atoi (suc fuel) (arg ∷ args) allocs o = elim (parse_option atoi arg args allocs o) [
  | failed o' ↦ some (negsuc 0, o')
  | next args' allocs' o' ↦ parse_options atoi fuel args' allocs' o'
]

-- `argv` with the program's name first. `negsuc 0` is -1.
unfoldable pub parse_cli_options :
    (Text → ℤ) → List Text → List Bool → CliOptions → Option (ℤ × CliOptions)
unfolding parse_options parse_option expect_status expect_body expect_hex expect_header malloc codes
    text_eq strncmp_eq parse_hex_bytes
parse_cli_options atoi (program ∷ command ∷ url ∷ args) allocs o =
    parse_options atoi (length args + 1) args allocs
      (record o { command = some command; url = some url })
parse_cli_options atoi argv allocs o = some (negsuc 0, o)
