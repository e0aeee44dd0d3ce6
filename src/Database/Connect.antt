-- ===== src/Database/Connect.antt =====
-- src/core/db_manager.c: the connection. The functions answer with what `db` is then, besides what they return.
use fman.Prelude.{Bool, true, false, List, [], ◌∷◌, if◌then◌else◌, Text, String}
use fman.Prelude.Int.{ℤ, int_eq}
use fman.Database.{Sqlite, sqlite_ok, sqlite_error}

abbrev pub create_collections : String
create_collections =
    "CREATE TABLE IF NOT EXISTS collections (id INTEGER PRIMARY KEY AUTOINCREMENT,name TEXT NOT NULL UNIQUE, name_len INTEGER NOT NULL,created_at TIMESTAMP DEFAULT CURRENT_TIMESTAMP);"

abbrev pub create_requests : String
create_requests =
    "CREATE TABLE IF NOT EXISTS requests (id INTEGER PRIMARY KEY AUTOINCREMENT,collection_id INTEGER,method INTEGER,url TEXT NOT NULL,url_len INTEGER,headers TEXT,headers_len INTEGER,body BLOB,body_len INTEGER,status INTEGER DEFAULT 0,created_at TIMESTAMP DEFAULT CURRENT_TIMESTAMP,CONSTRAINT fk_collection FOREIGN KEY(collection_id) REFERENCES collections(id),CONSTRAINT uq_request_identity UNIQUE(collection_id, method, url, body, body_len));"

abbrev pub create_responses : String
create_responses =
    "CREATE TABLE IF NOT EXISTS responses (id INTEGER PRIMARY KEY AUTOINCREMENT,request_id INTEGER,status_code INTEGER,result INTEGER,duration REAL,headers TEXT,body BLOB,body_len INTEGER,content_type TEXT,created_at TIMESTAMP DEFAULT CURRENT_TIMESTAMP,CONSTRAINT fk_request FOREIGN KEY(request_id) REFERENCES requests(id));"

module _ {World Stmt : Type 0} (s : Sqlite World Stmt) where
  -- The tables one after another, up to the first that fails.
  unfoldable pub create_tables : List String → World → ℤ × World
  create_tables [] w = (sqlite_ok, w)
  create_tables (sql ∷ rest) w =
      let (rc, w') = s.exec sql w in
      let after = create_tables rest w' in if int_eq rc sqlite_ok then after else (rc, w')

  -- A failure of the pragmas is printed only.
  unfoldable pub db_init : Text → World → ℤ × Bool × World
  unfolding create_tables
  db_init db_name w =
      let (rc, db, w1) = s.open_v2 db_name w in
      let w2 = (s.exec "PRAGMA journal_mode=WAL; PRAGMA foreign_keys=ON;" w1).1 in
      let (made, w3) =
        create_tables (create_collections ∷ create_requests ∷ create_responses ∷ []) w2 in
      if int_eq rc sqlite_ok then (made, db, w3) else (rc, db, w1)

  unfoldable pub db_close : Bool → World → ℤ × Bool × World
  db_close false w = (sqlite_ok, false, w)
  db_close true w =
      let (closed, w') = s.close_v2 w in
      if closed then (sqlite_ok, false, w') else (sqlite_error, true, w')

  unfoldable pub db_clear_all : Bool → World → ℤ × World
  db_clear_all false w = (sqlite_error, w)
  db_clear_all true w =
      let w1 = (s.exec "DELETE FROM responses;" w).1 in
      let w2 = (s.exec "DELETE FROM requests;" w1).1 in
      (sqlite_ok, (s.exec "DELETE FROM collections;" w2).1)
