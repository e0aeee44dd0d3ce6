-- ===== src/Database.antt =====
-- src/core/db_manager.c over SQLite, which is a parameter: the calls of its C interface that the source makes, on a
-- state of the world. The world holds the connection that the global `db` points to; `db` itself is whether the
-- pointer is not NULL, an argument where a function tests it. Sizes are far below what an `int` holds.
pub mod Save
pub mod Load
pub mod Connect
pub mod Statements
pub mod Tables
pub mod History
pub mod Transaction
pub mod Witnesses
use fman.Prelude.{
  ℕ, ◌+◌, Bool, true, false, List, [], ◌∷◌, Option, none, some, if◌then◌else◌, Text, String, codes,
}
use fman.Prelude.Int.{ℤ, pos, int_eq}

abbrev pub sqlite_ok : ℤ
sqlite_ok = pos 0

abbrev pub sqlite_error : ℤ
sqlite_error = pos 1

abbrev pub sqlite_row : ℤ
sqlite_row = pos 100

abbrev pub sqlite_done : ℤ
sqlite_done = pos 101

-- The call that binds a parameter, with what it is given: a pointer and how many bytes of it.
pub data Binding : Type 0 where
  bind_int : ℤ → Binding
  bind_int64 bind_double : ℕ → Binding
  bind_text bind_blob : Option Text → ℕ → Binding
  bind_null : Binding

-- `open_v2` answers with its code and whether it sets the pointer. `prepare_v2` gives a statement, or none when it does
-- not return SQLITE_OK; the binding calls and `close_v2` answer with whether they return it.
pub record Sqlite (World Stmt : Type 0) : Type 0 where
  pub open_v2 : Text → World → ℤ × Bool × World
  pub exec : String → World → ℤ × World
  pub prepare_v2 : String → World → Option Stmt × World
  pub bind : Stmt → ℕ → Binding → World → Bool × World
  pub step : Stmt → World → ℤ × World
  pub column_int : Stmt → ℕ → World → ℤ
  pub column_int64 : Stmt → ℕ → World → ℕ
  pub column_bytes : Stmt → ℕ → World → ℕ
  pub column_double : Stmt → ℕ → World → ℕ
  pub column_text : Stmt → ℕ → World → Option Text
  pub column_blob : Stmt → ℕ → World → Option Text
  pub last_insert_rowid : World → ℤ
  pub finalize : Stmt → World → World
  pub close_v2 : World → Bool × World

-- What became of a statement: it could not be prepared; a binding failed or the step had another answer; or the step
-- had the answer that the source wants.
pub data Tried (Stmt : Type 0) : Type 0 where
  unprepared : Tried Stmt
  refused ready : Stmt → Tried Stmt

module _ {World Stmt : Type 0} (s : Sqlite World Stmt) where
  -- The bindings one after another, from the i-th parameter on, up to the first that fails.
  unfoldable pub bind_all : Stmt → ℕ → List Binding → World → Bool × World
  bind_all st i [] w = (true, w)
  bind_all st i (b ∷ rest) w =
      let (bound, w') = s.bind st i b w in
      let after = bind_all st (i + 1) rest w' in if bound then after else (false, w')

  unfoldable pub step_stmt : Stmt → ℤ → World → Tried Stmt × World
  step_stmt st wanted w =
      let (rc, w') = s.step st w in (if int_eq rc wanted then ready st else refused st, w')

  unfoldable pub bind_stmt : Stmt → List Binding → ℤ → World → Tried Stmt × World
  unfolding bind_all step_stmt
  bind_stmt st args wanted w =
      let (bound, w') = bind_all st 1 args w in
      if bound then step_stmt st wanted w' else (refused st, w')

  -- Prepare, bind, step: the statement is still open, unless it could not be prepared.
  unfoldable pub try_stmt : String → List Binding → ℤ → World → Tried Stmt × World
  unfolding bind_stmt
  try_stmt sql args wanted w =
      let (st, w') = s.prepare_v2 sql w in
      elim st [ none ↦ (unprepared, w') | some st ↦ bind_stmt st args wanted w' ]

  -- The same with `failure` behind it, which finalizes a statement that is open.
  unfoldable pub settle : Tried Stmt × World → Option Stmt × World
  settle (unprepared, w) = (none, w)
  settle (refused st, w) = (none, s.finalize st w)
  settle (ready st, w) = (some st, w)

  unfoldable pub run_stmt : String → List Binding → ℤ → World → Option Stmt × World
  unfolding try_stmt settle
  run_stmt sql args wanted w = settle (try_stmt sql args wanted w)

  -- What a function returns behind that: what it reads from the statement, which is finalized then.
  unfoldable pub finish_with :
      {A : Type 0} → A → (Stmt → World → A) → Option Stmt × World → A × World
  finish_with failed read (none, w) = (failed, w)
  finish_with failed read (some st, w) = (read st w, s.finalize st w)
