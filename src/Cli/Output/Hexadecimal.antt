-- ===== src/Cli/Output/Hexadecimal.antt =====
-- `print_byte_value` of src/cli/cli_output.c beside `parse_hex_bytes` of src/cli/cli_parser.c.
use fman.Prelude.{
  ℕ, ◌/◌, ◌%◌, ◌<◌, ◌≡◌, ◌≢◌, refl, true, false, [], ◌∷◌, ◌++◌, map, some, take, Text, codes,
  tolower, arith,
}
use fman.Cli.Hex.{parse_hex_bytes, parse_hex_bytes_iff, Prints, AllBytes, hex_digit, hex_of}
use fman.Cli.Output.{is_printable_bytes, all_printable, upper_digit, upper_hex, print_byte_value}

upper_digit_lower : (n : ℕ) → n < 16 → tolower (upper_digit n) ≡ hex_digit n
unfolding tolower hex_digit
upper_digit_lower n lt = ground arith

upper_hex_lower : (bytes : Text) → AllBytes bytes → map tolower (upper_hex bytes) ≡ hex_of bytes
unfolding upper_hex hex_of
upper_hex_lower [] ok = refl
upper_hex_lower (c ∷ bytes) ok =
    rw
      (
        upper_digit_lower (c / 16) (omega (arith, ok.0)),
        upper_digit_lower (c % 16) (omega arith),
        upper_hex_lower bytes ok.1,
      )
      refl

upper_hex-Prints : (bytes : Text) → AllBytes bytes → Prints (upper_hex bytes) bytes
upper_hex-Prints bytes ok = record { are_bytes = ok; digits = upper_hex_lower bytes ok }

not_empty : (bytes : Text) → all_printable bytes ≡ false → bytes ≢ []
unfolding all_printable
not_empty [] e = absurd (cc e)
not_empty (c ∷ bytes) e = λ p. absurd (cc p)

-- Bytes that are not all printable are printed as `hex:` and a text from which, with memory, `parse_hex_bytes` gives
-- them back.
pub printed_hex_parses :
    (bytes : Text) (len : ℕ)
    → AllBytes (take len bytes)
    → is_printable_bytes (some bytes) len ≡ false
    → (hex : Text) × (print_byte_value (some bytes) len ≡ codes "hex:" ++ hex)
      × (parse_hex_bytes true hex ≡ some (take len bytes))
unfolding print_byte_value is_printable_bytes
printed_hex_parses bytes len ok strange =
    let shown = take len bytes in
    (
      upper_hex shown,
      rw (print_byte_value, strange) refl,
      (parse_hex_bytes_iff (upper_hex shown) shown).1
          (not_empty shown strange, upper_hex-Prints shown ok),
    )
