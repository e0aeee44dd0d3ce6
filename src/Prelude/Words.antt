-- ===== src/Prelude/Words.antt =====
-- Texts as lists of byte values: comparison, prefixes, spans, and the C library's character classes
-- in the "C" locale.
use Prim.Native.Nat.{ℕ, ◌+◌}
use Prim.Native.Char.{code}
use Prim.Native.String.{String}
use mathlib.Core.Path.{◌≡◌, refl, ap}
use mathlib.Core.Logic.{◌↔◌, ◌≢◌}
use mathlib.Core.Bool.{Bool, true, false, ◌&&◌, ◌||◌}
use mathlib.Core.List.{List, [], ◌∷◌, ◌++◌}
use native.Mathlib.Omega.{arith}
use fman.Prelude.Tests.{◌==◌, leb, if◌then◌else◌}

abbrev pub Text : Type 0
Text = List ℕ

-- The bytes of an ASCII literal.
unfoldable pub codes : String → Text
codes String.[] = []
codes (String.◌∷◌ c s) = code c ∷ codes s

-- `strcmp(a, b) == 0`
unfoldable pub text_eq : Text → Text → Bool
text_eq [] [] = true
text_eq (x ∷ xs) (y ∷ ys) = x == y && text_eq xs ys
text_eq _ _ = false

pub text_eq_iff : (a b : Text) → (text_eq a b ≡ true) ↔ (a ≡ b)
unfolding text_eq
text_eq_iff (x ∷ a) (y ∷ b) = ground (arith, text_eq_iff a b)
text_eq_iff _ _ = ground arith

-- The bytes in front of the terminator; a text may be a whole block of memory.
unfoldable pub strlen : Text → ℕ
strlen [] = 0
strlen (c ∷ t) = let rest = strlen t in if c == 0 then 0 else rest + 1

-- What `%s` prints.
abbrev pub c_string : Text → Text
c_string [] = []
c_string (c ∷ t) = let rest = c_string t in if c == 0 then [] else c ∷ rest

-- `strncmp(t, p, strlen(p)) == 0`, for a prefix without NUL
unfoldable pub has_prefix : Text → Text → Bool
has_prefix [] t = true
has_prefix (x ∷ p) [] = false
has_prefix (x ∷ p) (c ∷ t) = x == c && has_prefix p t

-- `strstr(t, p) != NULL`, for a `p` that is neither empty nor holds NUL, in the text up to its terminator
unfoldable pub strstr : Text → Text → Bool
unfolding has_prefix
strstr [] p = false
strstr (c ∷ t) p = let later = strstr t p in if c == 0 then false else has_prefix p (c ∷ t) || later

unfoldable pub isprint : ℕ → Bool
isprint c = leb 32 c && leb c 126

unfoldable pub is_digit : ℕ → Bool
is_digit c = leb b'0' c && leb c b'9'

unfoldable pub is_alpha : ℕ → Bool
is_alpha c = (leb b'a' c && leb c b'z') || (leb b'A' c && leb c b'Z')

unfoldable pub is_alnum : ℕ → Bool
unfolding is_alpha is_digit
is_alnum c = is_alpha c || is_digit c

unfoldable pub tolower : ℕ → ℕ
tolower c = if leb b'A' c && leb c b'Z' then c + 32 else c

-- The longest prefix whose bytes pass a test, and what follows it.
abbrev pub take_while : (ℕ → Bool) → Text → Text
take_while p [] = []
take_while p (c ∷ cs) = if p c then c ∷ take_while p cs else []

abbrev pub drop_while : (ℕ → Bool) → Text → Text
drop_while p [] = []
drop_while p (c ∷ cs) = if p c then drop_while p cs else c ∷ cs

pub take-drop_while : (p : ℕ → Bool) (cs : Text) → take_while p cs ++ drop_while p cs ≡ cs
take-drop_while p [] = refl
take-drop_while p (c ∷ cs) = ground (arith, take-drop_while p cs)

-- `*p`: the terminator stands behind the last byte.
abbrev pub deref : Text → ℕ
deref [] = 0
deref (c ∷ p) = c

-- The byte does not occur in the text.
abbrev pub Lacks : ℕ → Text → Type 0
Lacks b [] = Unit {0}
Lacks b (c ∷ cs) = (c ≢ b) × Lacks b cs

-- Every byte of the text passes the test.
abbrev pub AllPass : (ℕ → Bool) → Text → Type 0
AllPass p [] = Unit {0}
AllPass p (c ∷ cs) = (p c ≡ true) × AllPass p cs

pub AllPass-take_while : (p : ℕ → Bool) (cs : Text) → AllPass p (take_while p cs)
AllPass-take_while p [] = tt
AllPass-take_while p (c ∷ cs) = ground (arith, AllPass-take_while p cs)

pub Lacks-behind : (b : ℕ) (xs ys : Text) → Lacks b (xs ++ ys) → Lacks b ys
Lacks-behind b [] ys l = l
Lacks-behind b (x ∷ xs) ys l = Lacks-behind b xs ys l.1

-- A span ends at the first byte that fails the test.
module _ (p : ℕ → Bool) (c : ℕ) (cs : Text) (stop : p c ≡ false) where
  pub take_while-append : (xs : Text) → AllPass p xs → take_while p (xs ++ c ∷ cs) ≡ xs
  take_while-append [] h = rw stop refl
  take_while-append (x ∷ xs) (px, h) = rw (px, take_while-append xs h) refl

  pub drop_while-append : (xs : Text) → AllPass p xs → drop_while p (xs ++ c ∷ cs) ≡ c ∷ cs
  drop_while-append [] h = rw stop refl
  drop_while-append (x ∷ xs) (px, h) = rw px (drop_while-append xs h)

pub drop_while-all : (p : ℕ → Bool) (xs : Text) → AllPass p xs → drop_while p xs ≡ []
drop_while-all p [] h = refl
drop_while-all p (x ∷ xs) (px, h) = rw px (drop_while-all p xs h)

pub take_while-all : (p : ℕ → Bool) (xs : Text) → AllPass p xs → take_while p xs ≡ xs
take_while-all p [] h = refl
take_while-all p (x ∷ xs) (px, h) = rw px (ap (◌∷◌ x) (take_while-all p xs h))
