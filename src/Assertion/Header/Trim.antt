-- ===== src/Assertion/Header/Trim.antt =====
-- `rtrim_end` and `skip_spaces` of src/core/assertion.c, and trimming without pointers.
use fman.Prelude.{
  ℕ, zero, suc, ◌≡◌, refl, ap, ◌⊎◌, inl, inr, Bool, ◌&&◌, ◌||◌, [], ◌∷◌, ◌++◌, ◌==◌, if◌then◌else◌,
  length, Text, drop_while, arith, Bool-cases,
}
use fman.Assertion.Header.{is_trimmed, rtrim_end, skip_spaces}

-- Without the spaces, tabs and carriage returns at its end.
unfoldable pub rtrim : Text → Text
rtrim [] = []
rtrim (c ∷ cs) = let r = rtrim cs in if length r == 0 && is_trimmed c then [] else c ∷ r

abbrev pub is_blank : ℕ → Bool
is_blank c = c == b' ' || c == b'\t'

abbrev pub ltrim : Text → Text
ltrim = drop_while is_blank

rtrim_end-cons :
    (c : ℕ) (s : Text) (e : ℕ)
    → rtrim_end (c ∷ s) (suc e)
      ≡ (if rtrim_end s e == 0 && is_trimmed c then 0 else suc (rtrim_end s e))
unfolding rtrim_end
rtrim_end-cons c s zero = ground arith
rtrim_end-cons c s (suc e) = ground (arith, rtrim_end-cons c s e)

pub rtrim_end-rtrim : (t more : Text) → rtrim_end (t ++ more) (length t) ≡ length (rtrim t)
unfolding rtrim
rtrim_end-rtrim [] more = unfold rtrim_end in refl
rtrim_end-rtrim (c ∷ t) more =
    ground (arith, rtrim_end-cons c (t ++ more) (length t), rtrim_end-rtrim t more)

pub rtrim-append : (t : Text) → (cut : Text) × (t ≡ rtrim t ++ cut)
unfolding rtrim
rtrim-append [] = ([], refl)
rtrim-append (c ∷ t) = elim (Bool-cases (length (rtrim t) == 0 && is_trimmed c)) [
  | inl gone ↦ (c ∷ t, rw gone)
  | inr kept ↦ let (cut, e) = rtrim-append t in (cut, rw kept (ap (◌∷◌ c) e))
]

-- A line ends at a newline or with the text.
abbrev pub Ends : Text → Type 0
Ends tail = (tail ≡ []) ⊎ ((next : Text) × (tail ≡ b'\n' ∷ next))

pub skip_spaces-ltrim : (t tail : Text) → Ends tail → skip_spaces (t ++ tail) ≡ ltrim t ++ tail
unfolding skip_spaces
skip_spaces-ltrim [] tail e = ground arith
skip_spaces-ltrim (c ∷ t) tail e = ground (arith, skip_spaces-ltrim t tail e)
