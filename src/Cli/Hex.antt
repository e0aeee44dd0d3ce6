-- ===== src/Cli/Hex.antt =====
-- `hex_digit_value` and `parse_hex_bytes` of src/cli/cli_parser.c, and how bytes are printed.
use fman.Prelude.{
  ℕ, ◌+◌, ◌-◌, ◌*◌, ◌/◌, ◌%◌, ◌<◌, ◌≡◌, ◌≢◌, ◌↔◌, refl, sym, ◌∙◌, ap, Bool, true, false, not, ◌&&◌,
  ◌||◌, [], ◌∷◌, map, Option, none, some, ltb, leb, ◌==◌, if◌then◌else◌, arith, length, Text,
  tolower, subst,
}

-- `none` stands for -1.
pub hex_digit_value : ℕ → Option ℕ
hex_digit_value c =
    if leb b'0' c && leb c b'9'
    then some (c - b'0')
    else if leb b'a' c && leb c b'f'
    then some (10 + (c - b'a'))
    else if leb b'A' c && leb c b'F'
    then some (10 + (c - b'A'))
    else none

-- `data[i] = (hi << 4) | lo`, before the bytes that follow.
pub put_byte : Option ℕ → Option ℕ → Option Text → Option Text
put_byte (some hi) (some lo) (some rest) = some ((hi * 16 + lo) ∷ rest)
put_byte _ _ _ = none

-- The loop, two digits at a time.
pub hex_pairs : Text → Option Text
hex_pairs (h ∷ l ∷ hex) = put_byte (hex_digit_value h) (hex_digit_value l) (hex_pairs hex)
hex_pairs (_ ∷ []) = none
hex_pairs [] = some []

-- The text is not NULL; `allocated` is what `malloc` answers.
unfoldable pub parse_hex_bytes : Bool → Text → Option Text
unfolding hex_pairs put_byte hex_digit_value
parse_hex_bytes allocated hex =
    if length hex == 0 || not (length hex % 2 == 0)
    then none
    else if allocated
    then hex_pairs hex
    else none

-- How bytes are printed: two lower-case digits each.
unfoldable pub hex_digit : ℕ → ℕ
hex_digit n = if ltb n 10 then b'0' + n else b'a' + (n - 10)

unfoldable pub hex_of : Text → Text
hex_of [] = []
hex_of (b ∷ bytes) = hex_digit (b / 16) ∷ hex_digit (b % 16) ∷ hex_of bytes

abbrev pub AllBytes : Text → Type 0
AllBytes [] = Unit {0}
AllBytes (b ∷ bytes) = (b < 256) × AllBytes bytes

digit_sound : (c n : ℕ) → hex_digit_value c ≡ some n → (n < 16) × (tolower c ≡ hex_digit n)
unfolding hex_digit_value hex_digit tolower
digit_sound c n h = (ground arith, ground arith)

digit_complete : (c n : ℕ) → n < 16 → tolower c ≡ hex_digit n → hex_digit_value c ≡ some n
unfolding hex_digit_value hex_digit tolower
digit_complete c n h e = ground arith

put_byte-some :
    (a b : Option ℕ) (r : Option Text) (bytes : Text)
    → put_byte a b r ≡ some bytes
    → (hi lo : ℕ) × (rest : Text) × (a ≡ some hi)
      × (b ≡ some lo)
      × (r ≡ some rest)
      × ((hi * 16 + lo) ∷ rest ≡ bytes)
unfolding put_byte
put_byte-some (some hi) (some lo) (some rest) bytes h = (hi, lo, rest, refl, refl, refl, cc h)
put_byte-some none b r bytes h = absurd (cc h)
put_byte-some (some hi) none r bytes h = absurd (cc h)
put_byte-some (some hi) (some lo) none bytes h = absurd (cc h)

-- The digits print the bytes, but for the case of letters.
pub record Prints (hex bytes : Text) : Type 0 where
  pub are_bytes : AllBytes bytes
  pub digits : map tolower hex ≡ hex_of bytes

hex_pairs-Prints : (hex bytes : Text) → hex_pairs hex ≡ some bytes → Prints hex bytes
unfolding hex_pairs hex_of
hex_pairs-Prints [] bytes h =
    let e : [] ≡ bytes = cc h in subst (Prints []) e (record { are_bytes = tt; digits = refl })
hex_pairs-Prints (_ ∷ []) bytes h = absurd (cc h)
hex_pairs-Prints (c ∷ d ∷ hex) bytes h =
    let (hi, lo, rest, p, q, r, e) = put_byte-some _ _ _ bytes h in
    let (hi_small, hi_is) = digit_sound c hi p in
    let (lo_small, lo_is) = digit_sound d lo q in
    let ih = hex_pairs-Prints hex rest r in
    let high : (hi * 16 + lo) / 16 ≡ hi = omega arith in
    let low : (hi * 16 + lo) % 16 ≡ lo = omega arith in
    subst (Prints (c ∷ d ∷ hex)) e (record {
      are_bytes = (omega arith, ih.are_bytes);
      digits = rw (high, low, sym hi_is, sym lo_is, sym ih.digits) refl;
    })

Prints-hex_pairs : (hex bytes : Text) → Prints hex bytes → hex_pairs hex ≡ some bytes
unfolding hex_pairs hex_of put_byte
Prints-hex_pairs [] [] p = refl
Prints-hex_pairs [] (b ∷ bytes) p = absurd (cc p.digits)
Prints-hex_pairs (c ∷ hex) [] p = absurd (cc p.digits)
Prints-hex_pairs (c ∷ []) (b ∷ bytes) p = absurd (cc p.digits)
Prints-hex_pairs (c ∷ d ∷ hex) (b ∷ bytes) p =
    let high = digit_complete c (b / 16) (omega (arith, p.are_bytes.0)) (cc p.digits) in
    let low = digit_complete d (b % 16) (omega arith) (cc p.digits) in
    let rest =
      Prints-hex_pairs hex bytes (record { are_bytes = p.are_bytes.1; digits = cc p.digits }) in
    let whole : b / 16 * 16 + b % 16 ≡ b = omega arith in rw (high, low, rest, whole) refl

length-hex : (hex bytes : Text) → map tolower hex ≡ hex_of bytes → length hex ≡ 2 * length bytes
unfolding hex_of
length-hex [] [] e = refl
length-hex [] (b ∷ bytes) e = absurd (cc e)
length-hex (c ∷ hex) [] e = absurd (cc e)
length-hex (c ∷ []) (b ∷ bytes) e = absurd (cc e)
length-hex (c ∷ d ∷ hex) (b ∷ bytes) e = omega (arith, length-hex hex bytes (cc e))

length-nonempty : (bytes : Text) → bytes ≢ [] → 0 < length bytes
length-nonempty [] h = absurd (h refl)
length-nonempty (b ∷ bytes) h = omega arith

guard :
    (test : Bool) (o : Option Text) (bytes : Text)
    → (if test then none else o) ≡ some bytes
    → (test ≡ false) × (o ≡ some bytes)
guard true o bytes h = absurd (cc h)
guard false o bytes h = (refl, h)

-- With memory, `parse_hex_bytes` gives some bytes exactly when there is one at least and the text prints
-- them, two hexadecimal digits for each, with letters of either case.
pub parse_hex_bytes_iff :
    (hex bytes : Text) → (parse_hex_bytes true hex ≡ some bytes) ↔ ((bytes ≢ []) × Prints hex bytes)
unfolding parse_hex_bytes
parse_hex_bytes_iff hex bytes = (sound, complete)
  where
    sound : parse_hex_bytes true hex ≡ some bytes → (bytes ≢ []) × Prints hex bytes
    sound h =
        let (test, found) =
          guard (length hex == 0 || not (length hex % 2 == 0)) (hex_pairs hex) bytes h in
        let p = hex_pairs-Prints hex bytes found in
        (λ e. nonzero test (length-hex hex bytes p.digits ∙ ap (λ (t : Text). 2 * length t) e), p)
      where
        nonzero : (length hex == 0 || not (length hex % 2 == 0)) ≡ false → length hex ≡ 0 → ⊥
        nonzero test e = ground arith

    complete : (bytes ≢ []) × Prints hex bytes → parse_hex_bytes true hex ≡ some bytes
    complete (ne, p) = rw even (Prints-hex_pairs hex bytes p)
      where
        even : (length hex == 0 || not (length hex % 2 == 0)) ≡ false
        even = ground (arith, length-nonempty bytes ne, length-hex hex bytes p.digits)
