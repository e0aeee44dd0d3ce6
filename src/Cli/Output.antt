-- ===== src/Cli/Output.antt =====
-- src/cli/cli_output.c: a function that prints answers with the bytes that it writes.
pub mod Hexadecimal
pub mod Summary
pub mod Marks
pub mod Numbers
mod Witnesses
use fman.Prelude.{
  ℕ, zero, suc, ◌+◌, ◌-◌, ◌/◌, ◌%◌, Bool, true, false, not, ◌&&◌, ◌||◌, List, [], ◌∷◌, ◌++◌, Option,
  none, some, ltb, ◌==◌, if◌then◌else◌, take, Text, String, codes, strlen, c_string, has_prefix,
  strstr, isprint, decimal, decimal_int,
}
use fman.Prelude.Int.{ℤ, pos}
use fman.Models.{
  Bytes, HeaderExpect, Value, value_int, value_string, value_bytes, value_header, AssertionType,
  assert_status_eq, assert_body_contains, assert_header_contains, AssertionResult, Response,
}
use fman.Models.Create.{response_result_to_char}

-- One text behind the other.
abbrev pub written : List Text → Text
written [] = []
written (t ∷ ts) = t ++ written ts

abbrev pub newline : Text
newline = 10 ∷ []

unfoldable pub all_printable : Text → Bool
all_printable [] = true
all_printable (c ∷ bytes) =
    let rest = all_printable bytes in
    if c == 10 || c == 13 || c == 9 then rest else if not (isprint c) then false else rest

unfoldable pub is_printable_bytes : Option Text → ℕ → Bool
unfolding all_printable
is_printable_bytes none len = false
is_printable_bytes (some bytes) len = all_printable (take len bytes)

abbrev pub upper_digit : ℕ → ℕ
upper_digit n = if ltb n 10 then b'0' + n else b'A' + (n - 10)

-- `%02X` for each byte
unfoldable pub upper_hex : Text → Text
upper_hex [] = []
upper_hex (c ∷ bytes) = upper_digit (c / 16) ∷ upper_digit (c % 16) ∷ upper_hex bytes

unfoldable pub print_byte_value : Option Text → ℕ → Text
unfolding is_printable_bytes upper_hex
print_byte_value none len = codes "<null>"
print_byte_value (some bytes) len =
    if is_printable_bytes (some bytes) len
    then written ((b'"' ∷ []) ∷ take len bytes ∷ (b'"' ∷ []) ∷ [])
    else codes "hex:" ++ upper_hex (take len bytes)

-- The members of the union that an assertion of the type has. Where a result has no value, they are
-- zero. A member that is read as the bytes of another is not modelled: no assertion of the parsers asks for it.
abbrev pub int_value : Value → ℤ
int_value (value_int n) = n
int_value _ = pos 0

abbrev pub byte_value : Value → Bytes
byte_value (value_bytes b) = b
byte_value _ = record { bytes = none; len = 0 }

abbrev pub header_value : Value → HeaderExpect
header_value (value_header e) = e
header_value _ = record { name = none; value = none }

abbrev pub text_or_null : Option Text → Text
text_or_null none = codes "(null)"
text_or_null (some t) = c_string t

-- The marks of a result that passed, and of one that did not.
abbrev pub pass_mark : Text
pass_mark = 32 ∷ 32 ∷ 226 ∷ 156 ∷ 147 ∷ 32 ∷ []

abbrev pub fail_mark : Text
fail_mark = 32 ∷ 32 ∷ 226 ∷ 156 ∷ 151 ∷ 32 ∷ []

-- The loop that prints the actual headers: whether a line begins, and the text from there on.
unfoldable pub print_lines : Bool → Text → Text
print_lines true [] = []
print_lines false [] = newline
print_lines start (c ∷ p) =
    let behind = print_lines true p in
    let within = print_lines false p in
    (if start then codes "      " else []) ++ (if c == 10 then 10 ∷ behind else c ∷ within)

abbrev pub print_actual_headers : Value → Text
print_actual_headers (value_string (some t)) =
    codes "    actual headers:\n" ++ print_lines true (c_string t)
print_actual_headers _ = codes "    actual headers: (none)\n"

abbrev pub print_message : Option Text → Text
print_message none = []
print_message (some t) = written (codes "    message: " ∷ c_string t ∷ newline ∷ [])

unfoldable pub print_status_result : AssertionResult → Text
print_status_result r =
    let expected = decimal_int (int_value r.expected) in
    if r.passed
    then written (pass_mark ∷ codes "status == " ∷ expected ∷ newline ∷ [])
    else written (
        fail_mark
        ∷ codes "status == "
        ∷ expected
        ∷ codes "\n    expected: "
        ∷ expected
        ∷ codes "\n    actual:   "
        ∷ decimal_int (int_value r.actual)
        ∷ newline
        ∷ [])

unfoldable pub print_body_result : AssertionResult → Text
unfolding print_byte_value
print_body_result r =
    let expected = byte_value r.expected in
    let shown = print_byte_value expected.bytes expected.len in
    if r.passed
    then written (pass_mark ∷ codes "body contains " ∷ shown ∷ newline ∷ [])
    else written (
        fail_mark
        ∷ codes "body contains "
        ∷ shown
        ∷ codes "\n    expected: "
        ∷ shown
        ∷ codes "\n    expected bytes: "
        ∷ decimal expected.len
        ∷ codes "\n    actual bytes:   "
        ∷ decimal (byte_value r.actual).len
        ∷ newline
        ∷ [])

unfoldable pub print_header_result : AssertionResult → Text
unfolding print_lines
print_header_result r =
    let expected = header_value r.expected in
    let line =
      written
        (text_or_null expected.name ∷ codes ": " ∷ text_or_null expected.value ∷ newline ∷ []) in
    if r.passed
    then written (pass_mark ∷ codes "header contains " ∷ line ∷ [])
    else written (
        fail_mark
        ∷ codes "header contains "
        ∷ line
        ∷ codes "    expected header: "
        ∷ line
        ∷ print_actual_headers r.actual
        ∷ print_message r.message
        ∷ [])

unfoldable pub print_by_type : AssertionType → AssertionResult → Text
unfolding print_status_result print_body_result print_header_result
print_by_type assert_status_eq r = print_status_result r
print_by_type assert_body_contains r = print_body_result r
print_by_type assert_header_contains r = print_header_result r

unfoldable pub print_assertion_result : Option AssertionResult → Text
unfolding print_by_type
print_assertion_result none = []
print_assertion_result (some r) = print_by_type r.type r
