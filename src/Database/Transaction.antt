-- ===== src/Database/Transaction.antt =====
-- `db_get_next_pending_request` of src/core/db_manager.c: the transaction that it begins.
use fman.Prelude.{
  ◌≡◌, ◌≢◌, ◌⊎◌, inl, inr, refl, Bool, false, List, [], ◌∷◌, Option, none, some, if_cases,
  Bool-cases,
}
use fman.Prelude.Int.{int_eq, int_eq_iff}
use fman.Models.{Request}
use fman.Database.{
  Sqlite, Tried, unprepared, refused, ready, try_stmt, sqlite_ok, sqlite_row, sqlite_done, bind_int,
}
use fman.Database.Load.{
  rollback, take_request, with_row, find_pending, db_get_next_pending_request, map_row_to_request,
  mark_pending, select_pending,
}

-- When a transaction is open: a failed BEGIN opens none, ROLLBACK and a COMMIT that succeeds end it, and finalizing a
-- statement opens none.
pub record Transactions {World Stmt : Type 0} (s : Sqlite World Stmt) (in_tx : World → Bool)
    : Type 0 where
  pub not_begun :
      (w : World)
      → in_tx w ≡ false
      → (s.exec "BEGIN IMMEDIATE;" w).0 ≢ sqlite_ok
      → in_tx (s.exec "BEGIN IMMEDIATE;" w).1 ≡ false
  pub rolled_back : (w : World) → in_tx (s.exec "ROLLBACK;" w).1 ≡ false
  pub committed :
      (w : World) → (s.exec "COMMIT;" w).0 ≡ sqlite_ok → in_tx (s.exec "COMMIT;" w).1 ≡ false
  pub finalized : (st : Stmt) (w : World) → in_tx w ≡ false → in_tx (s.finalize st w) ≡ false

module _ {World Stmt : Type 0} (s : Sqlite World Stmt) (in_tx : World → Bool)
    (law : Transactions s in_tx) where
  -- A request was returned behind a COMMIT that failed.
  pub record Uncommitted (out : Option Request × World) : Type 0 where
    pub req : Request
    pub returned : out.0 ≡ some req
    pub before : World
    pub failed : (s.exec "COMMIT;" before).0 ≢ sqlite_ok
    pub after : out.1 ≡ (s.exec "COMMIT;" before).1

  abbrev Ended : Option Request × World → Type 0
  Ended out = (in_tx out.1 ≡ false) ⊎ Uncommitted out

  committed-Ended : (req : Request) (w : World) → Ended (some req, (s.exec "COMMIT;" w).1)
  committed-Ended req w = elim (Bool-cases (int_eq (s.exec "COMMIT;" w).0 sqlite_ok)) [
    | inl good ↦ inl (law.committed w ((int_eq_iff (s.exec "COMMIT;" w).0 sqlite_ok).0 good))
    | inr bad ↦ inr (record {
      req = req;
      returned = refl;
      before = w;
      failed = λ e. absurd (cc ((int_eq_iff (s.exec "COMMIT;" w).0 sqlite_ok).1 e, bad));
      after = refl;
    })
  ]

  take_request-Ended : (req : Request) (out : Tried Stmt × World) → Ended (take_request s req out)
  unfolding take_request rollback
  take_request-Ended req (unprepared, w) = inl (law.rolled_back w)
  take_request-Ended req (refused st, w) = inl (law.finalized st _ (law.rolled_back w))
  take_request-Ended req (ready st, w) = committed-Ended req (s.finalize st w)

  with_row-Ended : (st : Stmt) (req : Option Request) (w : World) → Ended (with_row s st req w)
  unfolding with_row rollback
  with_row-Ended st none w = inl (law.finalized st _ (law.rolled_back w))
  with_row-Ended st (some req) w =
      take_request-Ended req
        (try_stmt s mark_pending (bind_int req.id ∷ []) sqlite_done (s.finalize st w))

  find_pending-Ended :
      (allocs : List Bool) (out : Tried Stmt × World) → Ended (find_pending s allocs out)
  unfolding find_pending rollback
  find_pending-Ended allocs (unprepared, w) = inl (law.rolled_back w)
  find_pending-Ended allocs (refused st, w) = inl (law.rolled_back (s.finalize st w))
  find_pending-Ended allocs (ready st, w) = with_row-Ended st (map_row_to_request s st w allocs).0 w

  -- Called outside a transaction, `db_get_next_pending_request` leaves none open wherever it fails; one can stay open
  -- only when it returns a request although COMMIT failed, if SQLite begins and ends transactions as `Transactions` says.
  pub next_pending_ends :
      (allocs : List Bool) (w : World)
      → in_tx w ≡ false
      → (in_tx (db_get_next_pending_request s allocs w).1 ≡ false)
        ⊎ Uncommitted (db_get_next_pending_request s allocs w)
  unfolding db_get_next_pending_request
  next_pending_ends allocs w outside =
      let w' = (s.exec "BEGIN IMMEDIATE;" w).1 in
      let rest = find_pending s allocs (try_stmt s select_pending [] sqlite_row w') in
      if_cases Ended (int_eq (s.exec "BEGIN IMMEDIATE;" w).0 sqlite_ok)
        (λ _. find_pending-Ended allocs (try_stmt s select_pending [] sqlite_row w'))
        (λ bad. inl (
          law.not_begun w outside
            (λ e. absurd (cc ((int_eq_iff (s.exec "BEGIN IMMEDIATE;" w).0 sqlite_ok).1 e, bad)))))
