-- ===== src/Worker/Buffer.antt =====
-- `write_callback` and `header_callback` of src/core/worker.c. Here the body and the headers of a response
-- are whole blocks of memory, with the bytes behind the text. `realloc` is the C library's: the block of the new
-- size that it gives for a block and a size, or NULL. A `size_t` has 64 bits.
pub mod Grow
pub mod Chunks
pub mod Transfer
pub mod Keeps
use fman.Prelude.{
  ℕ, ◌+◌, ◌*◌, ◌%◌, ◌^◌, List, [], ◌∷◌, ◌++◌, Option, none, some, ltb, if◌then◌else◌, length, take,
  drop, Text,
}
use fman.Models.{Response}

abbrev pub initial_capacity : ℕ
initial_capacity = 4096

abbrev pub Realloc : Type 0
Realloc = Option Text → ℕ → Option Text

pub wrap : ℕ → ℕ
wrap n = n % 2 ^ 64

pub max_size : ℕ → ℕ → ℕ → ℕ
max_size a b c = if ltb b a then if ltb c a then a else c else if ltb c b then b else c

-- `memcpy(block + at, bytes, n)` for a text of n bytes.
pub copy_to : Option Text → ℕ → Text → Option Text
copy_to none at bytes = none
copy_to (some block) at bytes = some (take at block ++ (bytes ++ drop (at + length bytes) block))

-- The block with room for `required` bytes and its capacity, or none where there is no memory.
pub reserve : Realloc → Option Text → ℕ → ℕ → Option (Option Text × ℕ)
reserve realloc block capacity required =
    let new_capacity = max_size initial_capacity (wrap (capacity * 2)) required in
    if ltb capacity required
    then elim (realloc block new_capacity) [
      | none ↦ none
      | some temp ↦ some (some temp, new_capacity)
    ]
    else some (block, capacity)

-- What `write_callback` does with the block that `reserve` gives it.
pub put_body : ℕ → Text → Response → Option (Option Text × ℕ) → ℕ × Option Response
put_body total_size ptr r none = (0, some r)
put_body total_size ptr r (some (body, capacity)) = (
  total_size,
  some (record r {
    body = copy_to body r.body_len (take total_size ptr);
    body_len = wrap (r.body_len + total_size);
    body_capacity = capacity;
  }),
)

unfoldable pub write_callback : Realloc → Text → ℕ → ℕ → Option Response → ℕ × Option Response
unfolding put_body reserve copy_to max_size wrap
write_callback realloc ptr size nmemb none = (0, none)
write_callback realloc ptr size nmemb (some r) =
    let total_size = wrap (size * nmemb) in
    let required_size = wrap (r.body_len + total_size) in
    put_body total_size ptr r (reserve realloc r.body r.body_capacity required_size)

-- And `header_callback`, which writes a terminator behind the text.
pub put_headers : ℕ → Text → Response → Option (Option Text × ℕ) → ℕ × Option Response
put_headers total_size ptr r none = (0, some r)
put_headers total_size ptr r (some (headers, capacity)) =
    let headers_len = wrap (r.headers_len + total_size) in
    let headers' = copy_to headers r.headers_len (take total_size ptr) in
    (
      total_size,
      some (record r {
        headers = copy_to headers' headers_len (0 ∷ []);
        headers_len = headers_len;
        headers_capacity = capacity;
      }),
    )

unfoldable pub header_callback : Realloc → Text → ℕ → ℕ → Option Response → ℕ × Option Response
unfolding put_headers reserve copy_to max_size wrap
header_callback realloc ptr size nmemb none = (0, none)
header_callback realloc ptr size nmemb (some r) =
    let total_size = wrap (size * nmemb) in
    let required_size = wrap (wrap (r.headers_len + total_size) + 1) in
    put_headers total_size ptr r (reserve realloc r.headers r.headers_capacity required_size)
