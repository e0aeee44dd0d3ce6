-- ===== src/Engine/Connected/Closes/Connection.antt =====
-- src/core/db_manager.c and the other threads: the statements that stay open over the connection.
use fman.Prelude.{ℕ, ◌≡◌, refl, ◌∙◌, Bool, true, false, List, [], ◌∷◌, if_cases, Text, String}
use fman.Prelude.Int.{ℤ, int_eq}
use fman.Models.{WorkerTask}
use fman.Database.{Sqlite, sqlite_ok}
use fman.Database.Connect.{
  create_collections, create_requests, create_responses, create_tables, db_init, db_close,
}
use fman.Database.Statements.Running.{Counts}
use fman.Engine.Connected.{Threads}

-- `live` is how many statements the engine's own thread has open: opening and closing the database and the other
-- threads leave their number, and the database closes when there is none.
pub record Quiet {World Stmt : Type 0} (s : Sqlite World Stmt) (t : Threads World)
    (live : World → ℕ) : Type 0 where
  pub opened : (path : Text) (w : World) → live (s.open_v2 path w).2 ≡ live w
  pub closed : (w : World) → live (s.close_v2 w).1 ≡ live w
  pub closes : (w : World) → live w ≡ 0 → (s.close_v2 w).0 ≡ true
  pub started : (w : World) → live (t.start w) ≡ live w
  pub pushed : (task : WorkerTask) (w : World) → live (t.push task w).1 ≡ live w
  pub slept : (w : World) → live (t.sleep w) ≡ live w
  pub joined : (w : World) → live (t.join w) ≡ live w

module _ {World Stmt : Type 0} (s : Sqlite World Stmt) (t : Threads World) (live : World → ℕ)
    (law : Counts s live) (quiet : Quiet s t live) where
  create_tables-live :
      (tables : List String) (w : World) → live (create_tables s tables w).1 ≡ live w
  unfolding create_tables
  create_tables-live [] w = refl
  create_tables-live (sql ∷ rest) w =
      let (rc, w') = s.exec sql w in
      let after : live w' ≡ live w = law.executed sql w in
      if_cases (λ (out : ℤ × World). live out.1 ≡ live w) (int_eq rc sqlite_ok)
        (λ _. create_tables-live rest w' ∙ after) (λ _. after)

  pub db_init-live : (path : Text) (w : World) → live (db_init s path w).2 ≡ live w
  unfolding db_init
  db_init-live path w =
      let (rc, db, w1) = s.open_v2 path w in
      if_cases (λ (out : ℤ × Bool × World). live out.2 ≡ live w) (int_eq rc sqlite_ok)
        (λ _.
          create_tables-live (create_collections ∷ create_requests ∷ create_responses ∷ []) _
          ∙ law.executed "PRAGMA journal_mode=WAL; PRAGMA foreign_keys=ON;" w1
          ∙ quiet.opened path w)
        (λ _. quiet.opened path w)

  pub db_close-live : (db : Bool) (w : World) → live (db_close s db w).2 ≡ live w
  unfolding db_close
  db_close-live false w = refl
  db_close-live true w =
      if_cases (λ (out : ℤ × Bool × World). live out.2 ≡ live w) (s.close_v2 w).0
        (λ _. quiet.closed w) (λ _. quiet.closed w)

  pub db_close-closed : (db : Bool) (w : World) → live w ≡ 0 → (db_close s db w).1 ≡ false
  unfolding db_close
  db_close-closed false w e = refl
  db_close-closed true w e = rw (quiet.closes w e) refl
