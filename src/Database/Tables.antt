-- ===== src/Database/Tables.antt =====
-- What src/core/db_manager.c relies on of SQLite for the table of the responses: values, rows, and the statements that
-- insert a row and select the latest row of a request.
use fman.Prelude.{
  Bool, false, ◌&&◌, ◌||◌, ℕ, zero, suc, ◌≡◌, ◌≢◌, true, List, [], ◌∷◌, ◌++◌, Option, none, some,
  if◌then◌else◌, take, length, Text, String,
}
use fman.Prelude.Int.{ℤ, pos, int_eq}
use fman.Database.{
  Sqlite, Binding, bind_int, bind_int64, bind_double, bind_text, bind_blob, bind_null, sqlite_row,
  sqlite_done,
}
use fman.Database.Save.{insert_response}
use fman.Database.Load.{select_latest}

pub data SqlValue : Type 0 where
  sql_null : SqlValue
  sql_int : ℤ → SqlValue
  sql_double : ℕ → SqlValue
  sql_text sql_blob : Text → SqlValue

-- The value of a parameter: a NULL pointer is a null, and of a pointer that many bytes are taken.
abbrev pub value_of : Binding → SqlValue
value_of (bind_int n) = sql_int n
value_of (bind_int64 n) = sql_int (pos n)
value_of (bind_double d) = sql_double d
value_of (bind_text none n) = sql_null
value_of (bind_text (some t) n) = sql_text (take n t)
value_of (bind_blob none n) = sql_null
value_of (bind_blob (some t) n) = sql_blob (take n t)
value_of bind_null = sql_null

-- What the column functions make of a value of the kind that they are for, and of NULL. SQLite converts other values.
abbrev pub int_of : SqlValue → ℤ
int_of (sql_int n) = n
int_of _ = pos 0

abbrev pub double_of : SqlValue → ℕ
double_of (sql_double d) = d
double_of _ = 0

abbrev pub text_of : SqlValue → Option Text
text_of (sql_text t) = some t
text_of _ = none

-- A blob without bytes is read as NULL.
abbrev pub blob_of : SqlValue → Option Text
blob_of (sql_blob (c ∷ t)) = some (c ∷ t)
blob_of _ = none

abbrev pub bytes_of : SqlValue → ℕ
bytes_of (sql_text t) = length t
bytes_of (sql_blob t) = length t
bytes_of _ = 0

-- The kinds of values, and those that a column of the kind keeps as they are.
abbrev pub is_int : SqlValue → Bool
is_int (sql_int n) = true
is_int _ = false

abbrev pub is_double : SqlValue → Bool
is_double (sql_double d) = true
is_double _ = false

abbrev pub is_text : SqlValue → Bool
is_text (sql_text t) = true
is_text sql_null = true
is_text _ = false

abbrev pub is_blob : SqlValue → Bool
is_blob (sql_blob t) = true
is_blob sql_null = true
is_blob _ = false

-- A row of the table: its id and the values of the insert, in their order.
pub record Row : Type 0 where
  pub id : ℤ
  pub request_id : SqlValue
  pub status_code : SqlValue
  pub result : SqlValue
  pub duration : SqlValue
  pub headers : SqlValue
  pub content_type : SqlValue
  pub body : SqlValue
  pub body_len : SqlValue

abbrev pub row_of : ℤ → (ℕ → SqlValue) → Row
row_of id v = record {
  id = id;
  request_id = v 1;
  status_code = v 2;
  result = v 3;
  duration = v 4;
  headers = v 5;
  content_type = v 6;
  body = v 7;
  body_len = v 8;
}

-- Whether each value of the row is of its column's kind.
abbrev pub is_typed : Row → Bool
is_typed r =
    is_int r.request_id
    && is_int r.status_code
    && is_int r.result
    && is_double r.duration
    && is_text r.headers
    && is_text r.content_type
    && is_blob r.body
    && is_int r.body_len

-- `request_id = n`
abbrev pub is_number : SqlValue → ℤ → Bool
is_number (sql_int m) n = int_eq m n
is_number _ n = false

-- The last row of a request. Ids grow with each insert, so it is the one with the greatest id.
unfoldable pub latest_of : ℤ → List Row → Option Row
latest_of n [] = none
latest_of n (r ∷ rows) = elim (latest_of n rows) [
  | some later ↦ some later
  | none ↦ if is_number r.request_id n then some r else none
]

-- The columns of the select, in their order.
abbrev pub column_of : Row → ℕ → SqlValue
column_of r zero = sql_int r.id
column_of r (suc zero) = r.request_id
column_of r (suc (suc zero)) = r.status_code
column_of r (suc (suc (suc zero))) = r.headers
column_of r (suc (suc (suc (suc zero)))) = r.content_type
column_of r (suc (suc (suc (suc (suc zero))))) = r.body
column_of r (suc (suc (suc (suc (suc (suc zero)))))) = r.body_len
column_of r (suc (suc (suc (suc (suc (suc (suc zero))))))) = r.duration
column_of r (suc (suc (suc (suc (suc (suc (suc (suc zero)))))))) = r.result
column_of r _ = sql_null

-- Seen from outside, SQLite has the rows of the table, oldest first, and of each statement its text, the values bound
-- to it and the row that it stands at.
pub record History {World Stmt : Type 0} (s : Sqlite World Stmt) : Type 0 where
  pub rows : World → List Row
  pub text : Stmt → World → String
  pub values : Stmt → World → ℕ → SqlValue
  pub cells : Stmt → World → ℕ → SqlValue
  -- What is read back of a double: not a NaN, which is kept as NULL.
  pub kept_double : ℕ → ℕ
  -- A statement that is prepared has its text.
  pub prepared :
      (sql : String) (w : World) (st : Stmt)
      → (s.prepare_v2 sql w).0 ≡ some st
      → text st (s.prepare_v2 sql w).1 ≡ sql
  pub prepare_rows : (sql : String) (w : World) → rows (s.prepare_v2 sql w).1 ≡ rows w
  -- A binding sets one value.
  pub bound :
      (st : Stmt) (i : ℕ) (b : Binding) (w : World)
      → (s.bind st i b w).0 ≡ true
      → values st (s.bind st i b w).1 i ≡ value_of b
  pub bound_others :
      (st : Stmt) (i j : ℕ) (b : Binding) (w : World)
      → i ≢ j
      → values st (s.bind st i b w).1 j ≡ values st w j
  pub bind_text_of :
      (st : Stmt) (i : ℕ) (b : Binding) (w : World) → text st (s.bind st i b w).1 ≡ text st w
  pub bind_rows : (st : Stmt) (i : ℕ) (b : Binding) (w : World) → rows (s.bind st i b w).1 ≡ rows w
  -- The insert of values of the columns' kinds appends a row with them, under the id that `last_insert_rowid` tells.
  pub inserted :
      (st : Stmt) (w : World)
      → text st w ≡ insert_response
      → is_typed (row_of (s.last_insert_rowid (s.step st w).1) (values st w)) ≡ true
      → (s.step st w).0 ≡ sqlite_done
      → rows (s.step st w).1
        ≡ rows w ++ row_of (s.last_insert_rowid (s.step st w).1) (values st w) ∷ []
  -- The select stands at the latest row of the request.
  pub selected :
      (st : Stmt) (w : World) (n : ℤ)
      → text st w ≡ select_latest
      → values st w 1 ≡ sql_int n
      → (s.step st w).0 ≡ sqlite_row
      → (r : Row) × (latest_of n (rows w) ≡ some r)
        × ((i : ℕ) → cells st (s.step st w).1 i ≡ column_of r i)
  pub finalize_rows : (st : Stmt) (w : World) → rows (s.finalize st w) ≡ rows w
  -- The column functions on values of their kinds. An empty blob is read as NULL.
  pub int_is :
      (st : Stmt) (i : ℕ) (w : World)
      → is_int (cells st w i) ≡ true
      → s.column_int st i w ≡ int_of (cells st w i)
  pub double_is :
      (st : Stmt) (i : ℕ) (w : World)
      → is_double (cells st w i) ≡ true
      → s.column_double st i w ≡ kept_double (double_of (cells st w i))
  pub text_is :
      (st : Stmt) (i : ℕ) (w : World)
      → is_text (cells st w i) ≡ true
      → s.column_text st i w ≡ text_of (cells st w i)
  pub blob_is :
      (st : Stmt) (i : ℕ) (w : World)
      → is_blob (cells st w i) ≡ true
      → s.column_blob st i w ≡ blob_of (cells st w i)
  pub bytes_are :
      (st : Stmt) (i : ℕ) (w : World)
      → (is_text (cells st w i) || is_blob (cells st w i)) ≡ true
      → s.column_bytes st i w ≡ bytes_of (cells st w i)
