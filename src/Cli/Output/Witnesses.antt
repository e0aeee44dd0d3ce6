-- ===== src/Cli/Output/Witnesses.antt =====
-- src/cli/cli_output.c at concrete inputs.
use fman.Prelude.{
  Text, ◌∷◌, take, arith, isprint, decimal, ◌≡◌, refl, ◌++◌, codes, none, some, true, [],
}
use fman.Cli.Hex.{parse_hex_bytes}
use fman.Cli.Output.Summary.{print_preview}
use fman.Cli.Output.Hexadecimal.{printed_hex_parses}
use fman.Cli.Output.{print_byte_value, print_lines}

prints_text : print_byte_value (some (codes "ab")) 2 ≡ codes "\"ab\""
unfolding print_byte_value codes isprint
prints_text = refl

previews :
    print_preview "Body" (some (codes "hello")) 5 3
    ≡ codes "--- Body Preview (3/5 bytes) ---\nhel\n... [truncated, 2 bytes remaining]\n---\n"
unfolding print_preview codes decimal
previews = refl

no_preview : print_preview "Body" none 1200 3 ≡ codes "Body: -\n"
unfolding print_preview codes
no_preview = refl

indents : print_lines true (codes "a\n\nb") ≡ codes "      a\n      \n      b\n"
unfolding print_lines codes
indents = refl

abbrev two_bytes : Text
two_bytes = 0 ∷ 0xaf ∷ 65 ∷ []

printed_hex_parses_example :
    (hex : Text) × (print_byte_value (some two_bytes) 2 ≡ codes "hex:" ++ hex)
    × (parse_hex_bytes true hex ≡ some (take 2 two_bytes))
unfolding print_byte_value isprint
printed_hex_parses_example = printed_hex_parses two_bytes 2 (omega arith, (omega arith, tt)) refl
