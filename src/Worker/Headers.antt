-- ===== src/Worker/Headers.antt =====
-- `parse_headers` of src/core/worker.c, and the lines that it finds. NULL is the empty list, as it is for libcurl.
-- `allocs` are the answers of `strdup` and of libcurl's `curl_slist_append`.
use fman.Prelude.{
  ℕ, zero, suc, ◌+◌, ◌<◌, ◌≡◌, ◌≢◌, refl, sym, ap, ◌∙◌, Bool, true, false, not, ◌||◌, List, [], ◌∷◌,
  ◌++◌, map, Option, none, some, if◌then◌else◌, length, Text, take_while, drop_while, AllPass,
  take_while-append, drop_while-append, drop_while-all, take_while-all, arith, length-append,
  append_assoc, append-nil, ◌==◌,
}
use fman.Dsl.Lexer.{malloc}

unfoldable pub is_line_end : ℕ → Bool
is_line_end c = c == b'\r' || c == b'\n'

unfoldable pub in_line : ℕ → Bool
in_line c = not (is_line_end c)

abbrev behind : Text → Text
behind [] = []
behind (c ∷ rest) = rest

abbrev token_of : Text → Option (Text × Text)
token_of [] = none
token_of (c ∷ rest) = some (take_while in_line (c ∷ rest), behind (drop_while in_line (c ∷ rest)))

-- `strtok_r(rest, "\r\n", &rest)`: the next line and what stands behind its end, or none.
pub strtok : Text → Option (Text × Text)
strtok rest = token_of (drop_while is_line_end rest)

-- The loop over the lines. It reads a byte at least in each round.
pub append_lines : ℕ → List Bool → List Text → Text → List Text
append_lines zero allocs list rest = []
append_lines (suc fuel) allocs list rest =
    let (done, allocs') = malloc allocs in
    elim (strtok rest) [
      | none ↦ list
      | some (line, rest') ↦ elim done [
        | true ↦ append_lines fuel allocs' (list ++ line ∷ []) rest'
        | false ↦ []
      ]
    ]

unfoldable pub parse_headers : List Bool → Text → List Text
unfolding append_lines strtok in_line is_line_end malloc
parse_headers allocs h =
    let (done, allocs') = malloc allocs in
    if done then append_lines (length h + 1) allocs' [] h else []

-- Lines, each with the line ends behind it.
abbrev pub joined : List (Text × Text) → Text
joined [] = []
joined ((line, ends) ∷ lines) = line ++ (ends ++ joined lines)

abbrev pub first : Text × Text → Text
first (line, ends) = line

-- A line is some bytes, and some line ends stand behind it.
abbrev pub AllLines : List (Text × Text) → Type 0
AllLines [] = Unit {0}
AllLines ((line, ends) ∷ lines) =
    (line ≢ []) × AllPass in_line line × (ends ≢ []) × AllPass is_line_end ends × AllLines lines

no_end : (c : ℕ) → is_line_end c ≡ true → in_line c ≡ false
unfolding in_line
no_end c h = rw h refl

no_line : (c : ℕ) → in_line c ≡ true → is_line_end c ≡ false
unfolding in_line is_line_end
no_line c h = ground arith

strtok-joined :
    (lead line rest : Text) (c e : ℕ)
    → AllPass is_line_end lead
    → AllPass in_line (c ∷ line)
    → is_line_end e ≡ true
    → strtok (lead ++ ((c ∷ line) ++ e ∷ rest)) ≡ some (c ∷ line, rest)
unfolding strtok
strtok-joined lead line rest c e l h at_end =
    let start : drop_while is_line_end (lead ++ ((c ∷ line) ++ e ∷ rest)) ≡ (c ∷ line) ++ e ∷ rest =
      drop_while-append is_line_end c (line ++ e ∷ rest) (no_line c h.0) lead l in
    let whole : take_while in_line ((c ∷ line) ++ e ∷ rest) ≡ c ∷ line =
      take_while-append in_line e rest (no_end e at_end) (c ∷ line) h in
    let after : drop_while in_line ((c ∷ line) ++ e ∷ rest) ≡ e ∷ rest =
      drop_while-append in_line e rest (no_end e at_end) (c ∷ line) h in
    ap token_of start ∙ (λ i. some (whole i, behind (after i)))

-- A line that no line end stands behind.
abbrev pub last_line : Text → List Text
last_line [] = []
last_line (c ∷ line) = (c ∷ line) ∷ []

strtok_last :
    (lead line : Text) (c : ℕ)
    → AllPass is_line_end lead
    → AllPass in_line (c ∷ line)
    → strtok (lead ++ c ∷ line) ≡ some (c ∷ line, [])
unfolding strtok
strtok_last lead line c l h =
    let start : drop_while is_line_end (lead ++ c ∷ line) ≡ c ∷ line =
      drop_while-append is_line_end c line (no_line c h.0) lead l in
    ap token_of start ∙ (λ i.
      some (take_while-all in_line (c ∷ line) h i, behind (drop_while-all in_line (c ∷ line) h i)))

append_last :
    (fuel : ℕ) (list : List Text) (lead last : Text)
    → length (lead ++ last) < fuel
    → AllPass is_line_end lead
    → AllPass in_line last
    → append_lines fuel [] list (lead ++ last) ≡ list ++ last_line last
unfolding append_lines malloc
append_last zero list lead last h l a = absurd (omega arith)
append_last (suc fuel) list lead [] h l a =
    let end : strtok (lead ++ []) ≡ none =
      unfold strtok in
      ap (λ (t : Text). token_of (drop_while is_line_end t)) (append-nil lead)
      ∙ ap token_of (drop_while-all is_line_end lead l) in
    rw (append_lines, end) (sym (append-nil list))
append_last (suc zero) list lead (c ∷ last) h l a =
    absurd (omega (arith, h, length-append lead (c ∷ last)))
append_last (suc (suc fuel)) list lead (c ∷ last) h l a =
    rw (append_lines, strtok_last lead last c l a) (unfold strtok in refl)

append_lines-joined :
    (fuel : ℕ) (list : List Text) (lead last : Text) (lines : List (Text × Text))
    → length (lead ++ (joined lines ++ last)) < fuel
    → AllPass is_line_end lead
    → AllLines lines
    → AllPass in_line last
    → append_lines fuel [] list (lead ++ (joined lines ++ last))
      ≡ list ++ (map first lines ++ last_line last)
unfolding append_lines malloc
append_lines-joined zero list lead last lines h l a z = absurd (omega arith)
append_lines-joined (suc fuel) list lead last [] h l a z =
    append_last (suc fuel) list lead last h l z
append_lines-joined (suc fuel) list lead last (([], ends) ∷ lines) h l a z = absurd (a.0 refl)
append_lines-joined (suc fuel) list lead last ((c ∷ line, []) ∷ lines) h l a z = absurd (a.2 refl)
append_lines-joined (suc fuel) list lead last ((c ∷ line, e ∷ ends) ∷ lines) h l
      (ne, inside, _, (at_end, blank), more) z =
    let rest = ends ++ (joined lines ++ last) in
    let same : ((c ∷ line) ++ ((e ∷ ends) ++ joined lines)) ++ last ≡ (c ∷ line) ++ (e ∷ rest) =
      append_assoc (c ∷ line) ((e ∷ ends) ++ joined lines) last
      ∙ ap (λ (t : Text). (c ∷ line) ++ t) (append_assoc (e ∷ ends) (joined lines) last) in
    let found = strtok-joined lead line rest c e l inside at_end in
    let ih =
      append_lines-joined fuel (list ++ (c ∷ line) ∷ []) ends last lines
        (omega (
          arith,
          h,
          ap (λ (t : Text). length (lead ++ t)) same,
          length-append lead ((c ∷ line) ++ (e ∷ rest)),
          length-append line (e ∷ rest),
        ))
        blank more z in
    ap (λ (t : Text). append_lines (suc fuel) [] list (lead ++ t)) same
    ∙ rw (append_lines, found)
        (ih ∙ append_assoc list ((c ∷ line) ∷ []) (map first lines ++ last_line last))

-- With memory, `parse_headers` gives back the lines that a text of headers was joined from, whatever mixture of
-- carriage returns and newlines stands behind each of them and in front of the first, and a last line that none stands
-- behind.
pub parse_headers-joined :
    (lead last : Text) (lines : List (Text × Text))
    → AllPass is_line_end lead
    → AllLines lines
    → AllPass in_line last
    → parse_headers [] (lead ++ (joined lines ++ last)) ≡ map first lines ++ last_line last
unfolding parse_headers malloc
parse_headers-joined lead last lines l a z =
    append_lines-joined (length (lead ++ (joined lines ++ last)) + 1) [] lead last lines
      (omega arith) l a z
