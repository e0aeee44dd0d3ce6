-- ===== src/Worker/Buffer/Transfer.antt =====
-- src/core/worker.c: the callbacks in a transfer. libcurl calls a callback with each chunk in turn, in bytes, and
-- ends the transfer when one does not take its whole chunk.
use fman.Prelude.{
  get_or, ℕ, suc, ◌+◌, ◌^◌, ◌<◌, ◌≡◌, refl, sym, ◌⊎◌, inl, inr, Bool, true, false, List, [], ◌∷◌,
  ◌++◌, Option, none, some, if◌then◌else◌, length, take, Text, arith, length-append, append_assoc,
  append-nil, subst, ◌==◌, if_cases, ==_iff,
}
use fman.Models.{Response}
use fman.Worker.Buffer.{Realloc, write_callback, header_callback}
use fman.Worker.Buffer.Grow.{IsRealloc}
use fman.Worker.Buffer.Chunks.{
  HasBody, HasHeaders, ShortBody, ShortHeaders, Takes, write_callback-Takes, header_callback-Takes,
}

abbrev pub Callback : Type 0
Callback = Text → ℕ → ℕ → Option Response → ℕ × Option Response

pub after_call : (Response → Bool × Response) → ℕ → Response → ℕ × Option Response → Bool × Response
after_call next wanted r (n, none) = (false, r)
after_call next wanted r (n, some r') = if n == wanted then next r' else (false, r')

unfoldable pub deliver : Callback → List Text → Response → Bool × Response
unfolding after_call
deliver callback [] r = (true, r)
deliver callback (c ∷ chunks) r =
    after_call (deliver callback chunks) (length c) r (callback c 1 (length c) (some r))

abbrev pub concat : List Text → Text
concat [] = []
concat (c ∷ chunks) = c ++ concat chunks

-- All chunks were taken, or the transfer ended at one for which memory was short, and those before it were taken.
unfoldable pub Delivers :
    (Text → Response → Type 0)
    → (Text → Text → Response → Type 0)
    → Text
    → List Text
    → Bool × Response
    → Type 0
Delivers Has Lacking text chunks out =
    ((out.0 ≡ true) × Has (text ++ concat chunks) out.1)
    ⊎ ((out.0 ≡ false)
        × ((k : ℕ) × (k < length chunks)
            × Has (text ++ concat (take k chunks)) out.1
            × Lacking (text ++ concat (take k chunks)) (get_or chunks k []) out.1))

module _ (Has : Text → Response → Type 0) (Lacking : Text → Text → Response → Type 0)
    (callback : Callback) where
  -- A callback that takes a whole chunk or nothing, while the text is small.
  Appends : Type 0
  Appends =
      (text chunk : Text) (r : Response)
      → Has text r
      → length text + length chunk + 1 < 2 ^ 64
      → Takes Has Lacking text chunk r (callback chunk 1 (length chunk) (some r))

  behind :
      (text c : Text) (chunks : List Text) (out : Bool × Response)
      → Delivers Has Lacking (text ++ c) chunks out
      → Delivers Has Lacking text (c ∷ chunks) out
  unfolding Delivers
  behind text c chunks out (inl (e, h)) =
      inl (e, subst (λ (t : Text). Has t out.1) (append_assoc text c (concat chunks)) h)
  behind text c chunks out (inr (e, (k, lt, h, short))) =
      let same = append_assoc text c (concat (take k chunks)) in
      inr (
        e,
        (
          suc k,
          omega arith,
          subst (λ (t : Text). Has t out.1) same h,
          subst (λ (t : Text). Lacking t (get_or chunks k []) out.1) same short,
        ),
      )

  no_bytes : (text c : Text) → 0 ≡ length c → text ≡ text ++ c
  no_bytes text [] e = sym (append-nil text)
  no_bytes text (x ∷ c) e = absurd (omega arith)

  deliver-Delivers :
      (chunks : List Text) (text : Text) (r : Response)
      → Appends
      → Has text r
      → length text + length (concat chunks) + 1 < 2 ^ 64
      → Delivers Has Lacking text chunks (deliver callback chunks r)
  unfolding deliver Delivers Appends Takes
  deliver-Delivers [] text r law h small =
      inl (refl, subst (λ (t : Text). Has t r) (sym (append-nil text)) h)
  deliver-Delivers (c ∷ chunks) text r law h small =
      let more = λ (r' : Response) (h' : Has (text ++ c) r'). behind text c chunks _ (
        deliver-Delivers chunks (text ++ c) r' law h'
          (omega (arith, length-append text c, length-append c (concat chunks)))) in
      elim (law text c r h (omega (arith, length-append c (concat chunks)))) [
        | inl (r', e, h') ↦
            subst (λ (o : ℕ × Option Response). Good (next o)) (sym e)
              (if_cases Good (length c == length c) (λ _. more r' h')
                λ no_more. absurd (cc (no_more, (==_iff (length c) (length c)).1 refl)))
        | inr (e, short) ↦
            subst (λ (o : ℕ × Option Response). Good (next o)) (sym e)
              (if_cases Good (0 == length c)
                (λ none_left. more r (
                  subst (λ (t : Text). Has t r)
                    (no_bytes text c ((==_iff 0 (length c)).0 none_left)) h))
                λ _. inr (
                  refl,
                  (
                    0,
                    omega arith,
                    subst (λ (t : Text). Has t r) (sym (append-nil text)) h,
                    subst (λ (t : Text). Lacking t c r) (sym (append-nil text)) short,
                  ),
                ))
      ]
    where
      Good : Bool × Response → Type 0
      Good = Delivers Has Lacking text (c ∷ chunks)

      next : ℕ × Option Response → Bool × Response
      next = after_call (deliver callback chunks) (length c) r

-- In a transfer from an empty response, the body is the chunks that were taken, in order: all of them, or the first
-- few up to one for which the block had to grow and `realloc` gave none. `realloc` keeps the bytes of a block that it grows, and sizes do not overflow.
pub transfer_body-Delivers :
    (realloc : Realloc) (chunks : List Text) (r : Response)
    → IsRealloc realloc
    → HasBody [] r
    → length (concat chunks) + 1 < 2 ^ 64
    → Delivers HasBody (ShortBody realloc) [] chunks (deliver (write_callback realloc) chunks r)
unfolding Appends
transfer_body-Delivers realloc chunks r law empty small =
    deliver-Delivers HasBody (ShortBody realloc) (write_callback realloc) chunks [] r
      (λ text chunk r' h fits.
        write_callback-Takes realloc law 1 (length chunk) text chunk r' h (omega arith) fits)
      empty (omega arith)

-- And the headers, with a terminator behind them.
pub transfer_headers-Delivers :
    (realloc : Realloc) (chunks : List Text) (r : Response)
    → IsRealloc realloc
    → HasHeaders [] r
    → length (concat chunks) + 1 < 2 ^ 64
    → Delivers HasHeaders
        (ShortHeaders realloc)
        []
        chunks
        (deliver (header_callback realloc) chunks r)
unfolding Appends
transfer_headers-Delivers realloc chunks r law empty small =
    deliver-Delivers HasHeaders (ShortHeaders realloc) (header_callback realloc) chunks [] r
      (λ text chunk r' h fits.
        header_callback-Takes realloc law 1 (length chunk) text chunk r' h (omega arith) fits)
      empty (omega arith)
