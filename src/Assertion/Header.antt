-- ===== src/Assertion/Header.antt =====
-- `header_contains` of src/core/assertion.c and its helpers. A pointer into the headers is the rest
-- of the text from there on; an end pointer is its distance from the start that it belongs to.
pub mod Trim
pub mod Cut
pub mod Colon
pub mod Lines
use fman.Prelude.{
  ℕ, zero, suc, ◌+◌, ◌-◌, Bool, true, false, not, ◌&&◌, ◌||◌, [], ◌∷◌, Option, none, some, ◌==◌,
  if◌then◌else◌, length, deref, get_or, drop, Text, tolower,
}
use fman.Prelude.Int.{ℤ, pos, sub_ℕ, int_eq}
use fman.Models.{HeaderExpect}

pub strncasecmp_simple : Text → Text → ℕ → ℤ
strncasecmp_simple a b zero = pos 0
strncasecmp_simple a b (suc n) =
    let ca = tolower (deref a) in
    let cb = tolower (deref b) in
    let rest = strncasecmp_simple (drop 1 a) (drop 1 b) n in
    if not (ca == cb) then sub_ℕ ca cb else if ca == 0 then pos 0 else rest

-- `strncmp(a, b, n) == 0`
unfoldable pub strncmp_eq : Text → Text → ℕ → Bool
strncmp_eq a b zero = true
strncmp_eq [] [] (suc n) = true
strncmp_eq (x ∷ a) (y ∷ b) (suc n) = x == y && strncmp_eq a b n
strncmp_eq _ _ (suc n) = false

pub skip_spaces : Text → Text
skip_spaces [] = []
skip_spaces (c ∷ p) = if c == b' ' || c == b'\t' then skip_spaces p else c ∷ p

pub is_trimmed : ℕ → Bool
is_trimmed c = c == b' ' || c == b'\t' || c == b'\r'

pub rtrim_end : Text → ℕ → ℕ
rtrim_end start zero = zero
rtrim_end start (suc end) = if is_trimmed (get_or start end 0) then rtrim_end start end else suc end

-- `strchr(s, c)`
pub strchr : Text → ℕ → Option Text
strchr [] c = none
strchr (x ∷ s) c = if x == c then some (x ∷ s) else strchr s c

-- `memchr(s, c, n)`, as the distance from `s`
pub memchr : Text → ℕ → ℕ → Option ℕ
memchr s c zero = none
memchr [] c (suc n) = none
memchr (x ∷ s) c (suc n) =
    let later = memchr s c n in
    if x == c then some 0 else elim later [ none ↦ none | some k ↦ some (suc k) ]

-- `line_end`, which is the terminator where no newline follows
abbrev pub or_end : Option Text → Text
or_end none = []
or_end (some p) = p

-- The body of the loop at a colon `colon` bytes into the line.
pub at_colon : Text → Text → Text → Text → ℕ → Bool
at_colon name value line_start line_end colon =
    let name_len = rtrim_end line_start colon in
    let value_start = skip_spaces (drop (colon + 1) line_start) in
    let value_len = rtrim_end value_start (length value_start - length line_end) in
    let name_matches =
      name_len == length name && int_eq (strncasecmp_simple line_start name name_len) (pos 0) in
    let value_matches = value_len == length value && strncmp_eq value_start value value_len in
    name_matches && value_matches

pub line_matches : Text → Text → Text → Text → Bool
line_matches name value line_start line_end =
    elim (memchr line_start b':' (length line_start - length line_end)) [
      | none ↦ false
      | some colon ↦ at_colon name value line_start line_end colon
    ]

-- The loop over the lines; `header_contains` gives it more fuel than there are bytes.
pub header_loop : ℕ → Text → Text → Text → Bool
header_loop zero name value line_start = false
header_loop (suc fuel) name value [] = false
header_loop (suc fuel) name value (c ∷ p) =
    let line_end = or_end (strchr (c ∷ p) b'\n') in
    let next = header_loop fuel name value (drop 1 line_end) in
    if line_matches name value (c ∷ p) line_end
    then true
    else elim line_end [ [] ↦ false | _ ∷ _ ↦ next ]

search_headers : Option Text → Option Text → Option Text → Bool
search_headers (some headers) (some name) (some value) =
    header_loop (length headers + 1) name value headers
search_headers _ _ _ = false

unfoldable pub header_contains : Option Text → HeaderExpect → Bool
unfolding search_headers header_loop line_matches at_colon memchr strchr rtrim_end is_trimmed
    skip_spaces strncmp_eq strncasecmp_simple tolower int_eq
header_contains headers expected = search_headers headers expected.name expected.value
