-- ===== src/Worker/Buffer/Chunks.antt =====
-- `write_callback` and `header_callback` of src/core/worker.c: one call, and the calls of a transfer.
use fman.Prelude.{
  if_cases, ltb, ℕ, ◌+◌, ◌*◌, ◌^◌, ◌≤◌, ◌<◌, ◌≡◌, refl, sym, ap, ◌∙◌, ◌⊎◌, inl, inr, [], ◌∷◌, ◌++◌,
  Option, none, some, length, Text, arith, length-append, append_assoc, subst,
}
use fman.Models.{Response}
use fman.Worker.Buffer.{
  Realloc, wrap, max_size, initial_capacity, put_body, put_headers, reserve, write_callback,
  header_callback,
}
use fman.Worker.Buffer.Grow.{
  le-max_size, Stored, IsRealloc, wrap_small, reserve-Stored, take-length, copy_to-Stored,
}

-- The response holds this body so far.
abbrev pub HasBody : Text → Response → Type 0
HasBody text r = Stored r.body r.body_len r.body_capacity text

-- The response holds these headers so far, with a terminator behind them, or has no block for them yet.
unfoldable pub HasHeaders : Text → Response → Type 0
HasHeaders text r =
    ((r.headers ≡ none) × (r.headers_len ≡ 0) × (r.headers_capacity ≡ 0) × (text ≡ []))
    ⊎ ((spare : Text) × (r.headers ≡ some (text ++ 0 ∷ spare))
        × (r.headers_len ≡ length text)
        × (r.headers_capacity ≡ length text + (1 + length spare)))

-- A block for so many bytes is larger than the one that there is, and `realloc` gives none.
abbrev pub Short : Realloc → Option Text → ℕ → ℕ → Type 0
Short realloc block capacity required =
    (capacity < required) × (n : ℕ) × (required ≤ n) × (realloc block n ≡ none)

abbrev pub ShortBody : Realloc → Text → Text → Response → Type 0
ShortBody realloc text chunk r = Short realloc r.body r.body_capacity (length text + length chunk)

abbrev pub ShortHeaders : Realloc → Text → Text → Response → Type 0
ShortHeaders realloc text chunk r =
    Short realloc r.headers r.headers_capacity (length text + length chunk + 1)

reserve-none :
    (realloc : Realloc) (block : Option Text) (capacity required : ℕ)
    → reserve realloc block capacity required ≡ none
    → Short realloc block capacity required
unfolding reserve
reserve-none realloc block capacity required =
    let new_capacity = max_size initial_capacity (wrap (capacity * 2)) required in
    if_cases
      (λ (out : Option (Option Text × ℕ)). out ≡ none → Short realloc block capacity required)
      (ltb capacity required)
      (λ small e. (
        ground (arith, small),
        new_capacity,
        le-max_size initial_capacity (wrap (capacity * 2)) required,
        got_none (realloc block new_capacity) new_capacity e,
      ))
      (λ _ e. absurd (cc e))
  where
    got_none :
        (temp : Option Text) (n : ℕ)
        → (elim temp as (λ _. Option (Option Text × ℕ)) [ none ↦ none | some t ↦ some (some t, n) ])
          ≡ none
        → temp ≡ none
    got_none none n e = refl
    got_none (some t) n e = absurd (cc e)

-- A callback took the whole chunk, or none of it and left the response as it was, since memory was short.
unfoldable pub Takes :
    (Text → Response → Type 0)
    → (Text → Text → Response → Type 0)
    → Text
    → Text
    → Response
    → ℕ × Option Response
    → Type 0
Takes Has Lacking text chunk r out =
    ((r' : Response) × (out ≡ (length chunk, some r')) × Has (text ++ chunk) r')
    ⊎ ((out ≡ (0, some r)) × Lacking text chunk r)

subst2 : (P : ℕ → ℕ → Type 0) {a b c d : ℕ} → a ≡ b → c ≡ d → P a c → P b d
subst2 P {a} {b} {c} {d} p q h = subst (λ (x : ℕ). P x d) p (subst (P a) q h)

length-Stored :
    (block : Option Text) (len capacity : ℕ) (text : Text)
    → Stored block len capacity text
    → (len ≡ length text) × (length text ≤ capacity)
unfolding Stored
length-Stored block len capacity text (inl (null, l, k, t)) =
    (l ∙ sym (ap (λ (s : Text). length s) t), omega (arith, k, ap (λ (s : Text). length s) t))
length-Stored block len capacity text (inr (spare, b, l, k)) = (l, omega (arith, k))

module _ (realloc : Realloc) (text chunk : Text) (r : Response)
    (small : length text + length chunk + 1 < 2 ^ 64) where
  put_body-Takes :
      (room : Option (Option Text × ℕ))
      → r.body_len ≡ length text
      → ((out : Option Text × ℕ)
          → room ≡ some out
          → Stored out.0 r.body_len out.1 text × (length text + length chunk ≤ out.1))
      → (room ≡ none → ShortBody realloc text chunk r)
      → Takes HasBody (ShortBody realloc) text chunk r (put_body (length chunk) chunk r room)
  unfolding put_body Takes
  put_body-Takes none l h short = inr (refl, short refl)
  put_body-Takes (some out) l h short =
      let (s, fits) = h out refl in
      let len : wrap (r.body_len + length chunk) ≡ r.body_len + length chunk =
        wrap_small _ (omega (arith, l)) in
      inl (
        _,
        refl,
        rw (len, take-length chunk) (copy_to-Stored out.0 r.body_len out.1 text chunk s fits),
      )

module _ (realloc : Realloc) (law : IsRealloc realloc) where
  -- A call of `write_callback` with a chunk, for which sizes do not overflow, appends the whole chunk to the
  -- body, in a block that is large enough, or takes nothing and leaves the response as it was, for want of memory, when
  -- `realloc` keeps the bytes of a block that it grows.
  pub write_callback-Takes :
      (size nmemb : ℕ) (text chunk : Text) (r : Response)
      → HasBody text r
      → length chunk ≡ size * nmemb
      → length text + length chunk + 1 < 2 ^ 64
      → Takes HasBody
          (ShortBody realloc)
          text
          chunk
          r
          (write_callback realloc chunk size nmemb (some r))
  unfolding write_callback
  write_callback-Takes size nmemb text chunk r has whole small =
      let (l, _) = length-Stored r.body r.body_len r.body_capacity text has in
      let total : wrap (size * nmemb) ≡ length chunk =
        ap wrap (sym whole) ∙ wrap_small (length chunk) (omega arith) in
      let required : wrap (r.body_len + length chunk) ≡ length text + length chunk =
        ap (λ (n : ℕ). wrap (n + length chunk)) l ∙ wrap_small _ (omega arith) in
      let Good = λ (t q : ℕ).
        Takes HasBody (ShortBody realloc) text chunk r
          (put_body t chunk r (reserve realloc r.body r.body_capacity q)) in
      let needed : wrap (r.body_len + wrap (size * nmemb)) ≡ length text + length chunk =
        ap (λ (n : ℕ). wrap (r.body_len + n)) total ∙ required in
      subst2 Good (sym total) (sym needed) (
        put_body-Takes realloc text chunk r small _ l
          (λ out e.
            reserve-Stored realloc law r.body r.body_len r.body_capacity
              (length text + length chunk) text out has e)
          (reserve-none realloc r.body r.body_capacity (length text + length chunk)))

-- Headers are a text with its terminator.
terminated :
    (text : Text) (r : Response)
    → HasHeaders text r
    → Stored r.headers r.headers_len r.headers_capacity text
unfolding HasHeaders Stored
terminated text r (inl h) = inl h
terminated text r (inr (spare, b, l, k)) = inr (0 ∷ spare, b, l, omega (arith, k))

closed :
    (block : Option Text) (len capacity : ℕ) (text : Text)
    → Stored block len capacity (text ++ 0 ∷ [])
    → (spare : Text) × (block ≡ some (text ++ 0 ∷ spare))
      × (capacity ≡ length text + (1 + length spare))
unfolding Stored
closed block len capacity text (inl (null, l, k, t)) =
    absurd (omega (arith, ap (λ (s : Text). length s) t, length-append text (0 ∷ [])))
closed block len capacity text (inr (spare, b, l, k)) = (
  spare,
  b ∙ ap some (append_assoc text (0 ∷ []) spare),
  omega (arith, k, length-append text (0 ∷ [])),
)

module _ (realloc : Realloc) (text chunk : Text) (r : Response)
    (small : length text + length chunk + 1 < 2 ^ 64) where
  put_headers-Takes :
      (room : Option (Option Text × ℕ))
      → r.headers_len ≡ length text
      → ((out : Option Text × ℕ)
          → room ≡ some out
          → Stored out.0 r.headers_len out.1 text × (length text + length chunk + 1 ≤ out.1))
      → (room ≡ none → ShortHeaders realloc text chunk r)
      → Takes HasHeaders
          (ShortHeaders realloc)
          text
          chunk
          r
          (put_headers (length chunk) chunk r room)
  unfolding put_headers Takes HasHeaders
  put_headers-Takes none l h short = inr (refl, short refl)
  put_headers-Takes (some out) l h short =
      let (s, fits) = h out refl in
      let len : wrap (r.headers_len + length chunk) ≡ r.headers_len + length chunk =
        wrap_small _ (omega (arith, l)) in
      let filled = copy_to-Stored out.0 r.headers_len out.1 text chunk s (omega (arith, fits)) in
      let done =
        copy_to-Stored _ _ out.1 (text ++ chunk) (0 ∷ []) filled
          (omega (arith, fits, length-append text chunk)) in
      let (spare, b, k) = closed _ _ out.1 (text ++ chunk) done in
      inl (
        _,
        refl,
        rw (len, take-length chunk) (inr (spare, b, omega (arith, l, length-append text chunk), k)),
      )

module _ (realloc : Realloc) (law : IsRealloc realloc) where
  -- A call of `header_callback` with a chunk, for which sizes do not overflow, appends the whole chunk to the
  -- headers and writes a terminator behind it, in a block that is large enough, or takes nothing and leaves
  -- the response as it was, when `realloc` keeps the bytes of a block that it grows.
  pub header_callback-Takes :
      (size nmemb : ℕ) (text chunk : Text) (r : Response)
      → HasHeaders text r
      → length chunk ≡ size * nmemb
      → length text + length chunk + 1 < 2 ^ 64
      → Takes HasHeaders
          (ShortHeaders realloc)
          text
          chunk
          r
          (header_callback realloc chunk size nmemb (some r))
  unfolding header_callback
  header_callback-Takes size nmemb text chunk r has whole small =
      let s = terminated text r has in
      let (l, _) = length-Stored r.headers r.headers_len r.headers_capacity text s in
      let total : wrap (size * nmemb) ≡ length chunk =
        ap wrap (sym whole) ∙ wrap_small (length chunk) (omega arith) in
      let sum : wrap (r.headers_len + length chunk) ≡ length text + length chunk =
        ap (λ (n : ℕ). wrap (n + length chunk)) l ∙ wrap_small _ (omega arith) in
      let needed : wrap (wrap (r.headers_len + wrap (size * nmemb)) + 1)
          ≡ length text + length chunk + 1 =
        ap (λ (n : ℕ). wrap (wrap (r.headers_len + n) + 1)) total
        ∙ ap (λ (n : ℕ). wrap (n + 1)) sum
        ∙ wrap_small _ (omega arith) in
      let Good = λ (t q : ℕ).
        Takes HasHeaders (ShortHeaders realloc) text chunk r
          (put_headers t chunk r (reserve realloc r.headers r.headers_capacity q)) in
      subst2 Good (sym total) (sym needed) (
        put_headers-Takes realloc text chunk r small _ l
          (λ out e.
            reserve-Stored realloc law r.headers r.headers_len r.headers_capacity
              (length text + length chunk + 1) text out s e)
          (reserve-none realloc r.headers r.headers_capacity (length text + length chunk + 1)))
