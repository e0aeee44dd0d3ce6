-- ===== src/Assertion/Search.antt =====
-- `bytes_contains` of src/core/assertion.c, and what it means that a text occurs in another.
use fman.Prelude.{
  ℕ, zero, suc, ◌+◌, ◌-◌, ◌≤◌, ◌<◌, ◌≡◌, refl, ap, ◌↔◌, Bool, true, false, ◌&&◌, [], ◌∷◌, ◌++◌,
  Option, none, some, arith, ltb, ◌==◌, if◌then◌else◌, Bool-cases, inl, inr, length, drop, Text,
  length-append, append_assoc,
}
use fman.Models.{Bytes, Value, value_bytes}

-- `memcmp(a, b, n) == 0`; bytes past the end of a buffer are equal to nothing.
unfoldable pub memcmp_eq : Text → Text → ℕ → Bool
memcmp_eq a b zero = true
memcmp_eq (x ∷ a) (y ∷ b) (suc n) = x == y && memcmp_eq a b n
memcmp_eq _ _ (suc n) = false

-- The loop, with `rounds` values of `i` left; `haystack` is `data + i`.
search : ℕ → Text → Text → ℕ → Bool
search zero haystack needle n = false
search (suc rounds) haystack needle n =
    let rest = search rounds (drop 1 haystack) needle n in
    if memcmp_eq haystack needle n then true else rest

contains_in : Option Text → ℕ → Option Text → ℕ → Bool
contains_in (some haystack) haystack_len (some needle) needle_len =
    if needle_len == 0
    then true
    else if ltb haystack_len needle_len
    then false
    else search (haystack_len - needle_len + 1) haystack needle needle_len
contains_in _ _ _ _ = false

unfoldable pub bytes_contains : Value → Value → Bool
unfolding contains_in search memcmp_eq
bytes_contains (value_bytes haystack) (value_bytes needle) =
    contains_in haystack.bytes haystack.len needle.bytes needle.len
bytes_contains _ _ = false

-- `needle` occurs in `haystack`: something stands before it, and something behind it.
pub record Occurs (needle haystack : Text) : Type 0 where
  pub before : Text
  pub behind : Text
  pub splits : haystack ≡ before ++ (needle ++ behind)

-- What a successful comparison with a whole text says of a buffer `a ++ spare`.
memcmp_eq-prefix :
    (a b spare : Text)
    → length b ≤ length a
    → memcmp_eq (a ++ spare) b (length b) ≡ true
    → a ≡ b ++ drop (length b) a
unfolding memcmp_eq
memcmp_eq-prefix a [] spare l h = refl
memcmp_eq-prefix [] (y ∷ b) spare l h = absurd (omega arith)
memcmp_eq-prefix (x ∷ a) (y ∷ b) spare l h = ground (arith, memcmp_eq-prefix a b spare)

memcmp_eq-append : (b rest : Text) → memcmp_eq (b ++ rest) b (length b) ≡ true
unfolding memcmp_eq
memcmp_eq-append [] rest = refl
memcmp_eq-append (y ∷ b) rest = ground (arith, memcmp_eq-append b rest)

Occurs-cons : {needle hay : Text} (x : ℕ) → Occurs needle hay → Occurs needle (x ∷ hay)
Occurs-cons x o = record { before = x ∷ o.before; behind = o.behind; splits = ap (◌∷◌ x) o.splits }

search-Occurs :
    (rounds : ℕ) (used spare needle : Text)
    → rounds + length needle ≤ length used + 1
    → search rounds (used ++ spare) needle (length needle) ≡ true
    → Occurs needle used
unfolding search
search-Occurs zero used spare needle l h = cc
search-Occurs (suc rounds) [] spare [] l h = record { before = []; behind = []; splits = refl }
search-Occurs (suc rounds) [] spare (y ∷ needle) l h = absurd (omega arith)
search-Occurs (suc rounds) (x ∷ used) spare needle l h =
    elim (Bool-cases (memcmp_eq (x ∷ (used ++ spare)) needle (length needle))) [
      | inl hit ↦ record {
        before = [];
        behind = drop (length needle) (x ∷ used);
        splits = memcmp_eq-prefix (x ∷ used) needle spare (omega arith) hit;
      }
      | inr miss ↦
          Occurs-cons x
            (search-Occurs rounds used spare needle (omega arith) (rw (miss, search) at h))
    ]

Occurs-search :
    (before needle behind : Text) (rounds : ℕ)
    → length before < rounds
    → search rounds (before ++ (needle ++ behind)) needle (length needle) ≡ true
unfolding search
Occurs-search before needle behind zero h = elim h [ ]
Occurs-search [] needle behind (suc rounds) h = rw (memcmp_eq-append needle behind)
Occurs-search (x ∷ before) needle behind (suc rounds) h =
    ground (arith, Occurs-search before needle behind rounds)

length-before :
    (before needle behind used : Text)
    → used ≡ before ++ (needle ++ behind)
    → length before + length needle ≤ length used
length-before before needle behind used e =
    omega (arith, ap length e, length-append before (needle ++ behind), length-append needle behind)

-- A buffer that holds `used`, with spare capacity behind it.
abbrev pub buffer : Text → Text → Value
buffer used spare = value_bytes (record { bytes = some (used ++ spare); len = length used })

abbrev pub whole : Text → Value
whole needle = value_bytes (record { bytes = some needle; len = length needle })

sound :
    (used spare : Text) (y : ℕ) (needle : Text)
    → bytes_contains (buffer used spare) (whole (y ∷ needle)) ≡ true
    → Occurs (y ∷ needle) used
unfolding bytes_contains
sound used spare y needle h = elim (Bool-cases (ltb (length used) (length (y ∷ needle)))) [
  | inl short ↦ absurd (ground (arith, nonempty))
  | inr fits ↦
      search-Occurs (length used - length (y ∷ needle) + 1) used spare (y ∷ needle) (ground arith)
        (rw (nonempty, fits) at h)
]
  where
    nonempty : (length (y ∷ needle) == 0) ≡ false
    nonempty = ground arith

complete :
    (used spare : Text) (y : ℕ) (needle : Text)
    → Occurs (y ∷ needle) used
    → bytes_contains (buffer used spare) (whole (y ∷ needle)) ≡ true
unfolding bytes_contains
complete used spare y needle o =
    let room = length-before o.before (y ∷ needle) o.behind used o.splits in
    let nonempty : (length (y ∷ needle) == 0) ≡ false = ground arith in
    let fits : ltb (length used) (length (y ∷ needle)) ≡ false = ground arith in
    let found =
      Occurs-search o.before (y ∷ needle) (o.behind ++ spare)
        (length used - length (y ∷ needle) + 1) (omega arith) in
    let same : used ++ spare ≡ o.before ++ ((y ∷ needle) ++ (o.behind ++ spare)) =
      rw o.splits (simp append_assoc) in
    rw (nonempty, fits) (rw same found)

-- For a buffer that holds `used`, with any spare capacity behind it, `bytes_contains` answers true
-- exactly when the expected text occurs in `used`.
pub bytes_contains-Occurs :
    (used spare needle : Text)
    → (bytes_contains (buffer used spare) (whole needle) ≡ true) ↔ Occurs needle used
unfolding bytes_contains
bytes_contains-Occurs used spare [] =
    (λ _. record { before = []; behind = used; splits = refl }, λ _. refl)
bytes_contains-Occurs used spare (y ∷ needle) =
    (sound used spare y needle, complete used spare y needle)

contains_in_null :
    (a : Option Text) (m n : ℕ) (b : Option Text) → b ≡ none → contains_in a m b n ≡ false
unfolding contains_in
contains_in_null (some a) m n (some b) h = cc
contains_in_null _ m n _ h = refl

pub bytes_contains_null :
    (a b : Bytes) → b.bytes ≡ none → bytes_contains (value_bytes a) (value_bytes b) ≡ false
unfolding bytes_contains
bytes_contains_null a b h = contains_in_null a.bytes a.len b.len b.bytes h
