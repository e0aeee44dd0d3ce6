-- ===== src/Worker/Buffer/Grow.antt =====
-- src/core/worker.c: a block that grows, with a text at its start.
use fman.Prelude.{
  ℕ, suc, ◌+◌, ◌*◌, ◌^◌, ◌≤◌, ◌<◌, ◌≡◌, refl, sym, ap, ◌∙◌, ◌⊎◌, inl, inr, [], ◌∷◌, ◌++◌, Option,
  none, some, ltb, length, take, drop, Text, arith, length-append, length-drop, append_assoc,
  append-nil, take_all, take-append-drop, subst, Option-cases, Bool-cases,
}
use fman.Worker.Buffer.{Realloc, initial_capacity, wrap, max_size, copy_to, reserve}

-- `text` stands at the start of a block of `capacity` bytes, or there is no block yet and no text.
unfoldable pub Stored : Option Text → ℕ → ℕ → Text → Type 0
Stored block len capacity text =
    ((block ≡ none) × (len ≡ 0) × (capacity ≡ 0) × (text ≡ []))
    ⊎ ((spare : Text) × (block ≡ some (text ++ spare))
        × (len ≡ length text)
        × (capacity ≡ length text + length spare))

-- What C promises of `realloc`: a block of the size asked for, which begins with the bytes of the old one.
pub record IsRealloc (realloc : Realloc) : Type 0 where
  pub fresh : (n : ℕ) (b : Text) → realloc none n ≡ some b → length b ≡ n
  pub grown :
      (old : Text) (n : ℕ) (b : Text)
      → realloc (some old) n ≡ some b
      → length old ≤ n
      → (length b ≡ n) × (take (length old) b ≡ old)

pub wrap_small : (n : ℕ) → n < 2 ^ 64 → wrap n ≡ n
unfolding wrap
wrap_small n h = omega arith

pub le-max_size : (a b c : ℕ) → c ≤ max_size a b c
unfolding max_size
le-max_size a b c = ground arith

-- A block whose start is known is that start and the rest.
split_block : (old b : Text) → take (length old) b ≡ old → b ≡ old ++ drop (length old) b
split_block old b e =
    subst (λ (t : Text). b ≡ t ++ drop (length old) b) e (sym (take-append-drop (length old) b))

module _ (realloc : Realloc) (law : IsRealloc realloc) where
  grow-Stored :
      (block : Option Text) (len capacity size : ℕ) (text temp : Text)
      → Stored block len capacity text
      → capacity ≤ size
      → realloc block size ≡ some temp
      → Stored (some temp) len size text
  unfolding Stored
  grow-Stored block len capacity size text temp (inl (null, l, c, t)) h e =
      let n : length temp ≡ size =
        law.fresh size temp (sym (ap (λ (b : Option Text). realloc b size) null) ∙ e) in
      inr (
        temp,
        ap (λ (s : Text). some (s ++ temp)) (sym t),
        l ∙ ap (λ (s : Text). length s) (sym t),
        omega (arith, ap (λ (s : Text). length s) t, n),
      )
  grow-Stored block len capacity size text temp (inr (spare, b, l, c)) h e =
      let old = text ++ spare in
      let e' : realloc (some old) size ≡ some temp =
        sym (ap (λ (x : Option Text). realloc x size) b) ∙ e in
      let (n, start) = law.grown old size temp e' (omega (arith, length-append text spare)) in
      let rest = drop (length old) temp in
      let whole : temp ≡ text ++ (spare ++ rest) =
        split_block old temp start ∙ append_assoc text spare rest in
      inr (
        spare ++ rest,
        ap some whole,
        l,
        omega (arith, n, ap (λ (s : Text). length s) whole, length-append text (spare ++ rest)),
      )

  -- Whenever there is memory, the block has room for what is required, with the same text at its start.
  pub reserve-Stored :
      (block : Option Text) (len capacity required : ℕ) (text : Text) (out : Option Text × ℕ)
      → Stored block len capacity text
      → reserve realloc block capacity required ≡ some out
      → Stored out.0 len out.1 text × (required ≤ out.1)
  unfolding reserve
  reserve-Stored block len capacity required text out s h =
      elim (Bool-cases (ltb capacity required)) [
        | inl grows ↦ elim (Option-cases (realloc block size)) [
          | inl null ↦ absurd (cc (rw (grows, null) at h))
          | inr (temp, e) ↦
              let same : (some temp, size) ≡ out = cc (rw (grows, e) at h) in
              subst (λ (o : Option Text × ℕ). Stored o.0 len o.1 text × (required ≤ o.1)) same
                (grow-Stored block len capacity size text temp s (ground (arith, fits)) e, fits)
        ]
        | inr stays ↦
            let same : (block, capacity) ≡ out = cc (rw stays at h) in
            subst (λ (o : Option Text × ℕ). Stored o.0 len o.1 text × (required ≤ o.1)) same
              (s, ground arith)
      ]
    where
      size : ℕ
      size = max_size initial_capacity (wrap (capacity * 2)) required

      fits : required ≤ size
      fits = le-max_size initial_capacity (wrap (capacity * 2)) required

pub take-length : (xs : Text) → take (length xs) xs ≡ xs
take-length [] = refl
take-length (x ∷ xs) = ap (◌∷◌ x) (take-length xs)

drop_past : (n : ℕ) (xs ys : Text) → drop (length xs + n) (xs ++ ys) ≡ drop n ys
drop_past n [] ys = ap (λ (m : ℕ). drop m ys) (omega arith)
drop_past n (x ∷ xs) ys =
    let e : suc (length xs) + n ≡ suc (length xs + n) = omega arith in rw e (drop_past n xs ys)

-- Bytes copied behind the text, where there is room for them.
pub copy_to-Stored :
    (block : Option Text) (len capacity : ℕ) (text bytes : Text)
    → Stored block len capacity text
    → length text + length bytes ≤ capacity
    → Stored (copy_to block len bytes) (len + length bytes) capacity (text ++ bytes)
unfolding Stored copy_to
copy_to-Stored block len capacity text (c ∷ bytes) (inl (null, l, k, t)) h =
    absurd (omega (arith, k, h))
copy_to-Stored block len capacity text [] (inl (null, l, k, t)) h =
    inl (rw null refl, omega (arith, l), k, append-nil text ∙ t)
copy_to-Stored block len capacity text bytes (inr (spare, b, l, k)) h =
    let tail : drop (length text + length bytes) (text ++ spare) ≡ drop (length bytes) spare =
      drop_past (length bytes) text spare in
    inr (
      drop (length bytes) spare,
      rw (b, l, take_all text spare, tail) (ap some (sym (append_assoc text bytes _))),
      omega (arith, l, length-append text bytes),
      omega (arith, k, h, length-append text bytes, length-drop (length bytes) spare),
    )
