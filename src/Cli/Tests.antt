-- ===== src/Cli/Tests.antt =====
-- src/cli/cli_parser.c on a command line, and the theorems at concrete inputs.
use fman.Prelude.{
  ◌≡◌, ◌≢◌, ◌↔◌, refl, true, List, [], ◌∷◌, none, some, Text, codes, set, replicate, arith,
}
use fman.Prelude.Int.{ℤ, pos}
use fman.Models.{Assertion, assert_header_contains, value_header}
use fman.RunPlan.{zero_assertion}
use fman.Cli.{CliOptions, parse_cli_options, body_pattern, max_assertion}
use fman.Cli.Hex.{parse_hex_bytes, Prints, parse_hex_bytes_iff}
use fman.Cli.Bounds.{IsOptions, IsParsed, parse_cli_options-IsParsed}

-- `CliOptions options = {0};`
abbrev no_options : CliOptions
no_options = record {
  command = none;
  url = none;
  assertions = replicate max_assertion zero_assertion;
  assertion_count = 0;
  owned_expected_body = replicate max_assertion none;
  owned_body_count = 0;
}

abbrev no_number : Text → ℤ
no_number t = pos 0

abbrev command_line : List Text
command_line =
    codes "fman"
    ∷ codes "get"
    ∷ codes "localhost"
    ∷ codes "--expect-header"
    ∷ codes "Server"
    ∷ codes "x"
    ∷ codes "--expect-body"
    ∷ codes "hex:00fF"
    ∷ []

abbrev wants_server : Assertion
wants_server = record {
  type = assert_header_contains;
  expected = value_header (record { name = some (codes "Server"); value = some (codes "x") });
}

parsed_options :
    parse_cli_options no_number command_line [] no_options
    ≡ some (
      pos 0,
      record no_options {
        command = some (codes "get");
        url = some (codes "localhost");
        assertions =
            set (set no_options.assertions 0 wants_server) 1 (body_pattern (some (0 ∷ 255 ∷ [])) 2);
        assertion_count = 2;
        owned_expected_body = set no_options.owned_expected_body 0 (some (0 ∷ 255 ∷ []));
        owned_body_count = 1;
      },
    )
unfolding parse_cli_options
parsed_options = refl

no_options-IsOptions : IsOptions no_options
no_options-IsOptions = record {
  bounded = record {
    count_fits = omega arith;
    array = refl;
    owned_fits = omega arith;
    owned_array = refl;
  };
  fit = λ j lt. absurd (omega arith);
}

parse_cli_options-IsParsed_example :
    (out : ℤ × CliOptions) × (parse_cli_options no_number command_line [] no_options ≡ some out)
    × IsParsed out
parse_cli_options-IsParsed_example =
    parse_cli_options-IsParsed no_number command_line [] no_options no_options-IsOptions

abbrev two_bytes : Text
two_bytes = 0 ∷ 255 ∷ []

parse_hex_bytes_iff_example :
    (parse_hex_bytes true (codes "00fF") ≡ some two_bytes)
    ↔ ((two_bytes ≢ []) × Prints (codes "00fF") two_bytes)
parse_hex_bytes_iff_example = parse_hex_bytes_iff (codes "00fF") two_bytes
