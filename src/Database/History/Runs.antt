-- ===== src/Database/History/Runs.antt =====
-- src/core/db_manager.c: what a statement that ran says of the world.
use fman.Prelude.{
  ℕ, zero, suc, ◌+◌, ◌≡◌, ◌<◌, refl, sym, ◌∙◌, Bool, true, false, List, [], ◌∷◌, some, Option-cases,
  Bool-cases, inl, inr, if◌then◌else◌, if_cases, length, get_or, String, arith, subst,
}
use fman.Prelude.Int.{ℤ, int_eq, int_eq_iff}
use fman.Database.{
  Sqlite, Binding, bind_null, bind_all, Tried, unprepared, refused, ready, step_stmt, bind_stmt,
  try_stmt, settle, run_stmt,
}
use fman.Database.Tables.{value_of, History}

module _ {World Stmt : Type 0} (s : Sqlite World Stmt) (h : History s) where
  -- The statement was stepped at `at`, with its text and values, and the table was as before.
  pub record Ran (sql : String) (args : List Binding) (wanted : ℤ) (w : World) (st : Stmt)
      (after : World) : Type 0 where
    pub at : World
    pub text_is : h.text st at ≡ sql
    pub rows_are : h.rows at ≡ h.rows w
    pub values_are :
        (k : ℕ) → k < length args → h.values st at (1 + k) ≡ value_of (get_or args k bind_null)
    pub stepped : (s.step st at).0 ≡ wanted
    pub after_is : after ≡ (s.step st at).1

  before :
      (st : Stmt) (i j : ℕ) (args : List Binding) (w : World)
      → j < i
      → h.values st (bind_all s st i args w).1 j ≡ h.values st w j
  unfolding bind_all
  before st i j [] w lt = refl
  before st i j (b ∷ rest) w lt =
      let other = h.bound_others st i j b w (λ e. absurd (omega (arith, lt, e))) in
      if_cases (λ (out : Bool × World). h.values st out.1 j ≡ h.values st w j) (s.bind st i b w).0
        (λ _. before st (i + 1) j rest (s.bind st i b w).1 (omega arith) ∙ other) (λ _. other)

  same_text :
      (st : Stmt) (i : ℕ) (args : List Binding) (w : World)
      → (h.text st (bind_all s st i args w).1 ≡ h.text st w)
        × (h.rows (bind_all s st i args w).1 ≡ h.rows w)
  unfolding bind_all
  same_text st i [] w = (refl, refl)
  same_text st i (b ∷ rest) w =
      let w' = (s.bind st i b w).1 in
      let (text, rows) = same_text st (i + 1) rest w' in
      let text_b = h.bind_text_of st i b w in
      let rows_b = h.bind_rows st i b w in
      if_cases (λ (out : Bool × World). (h.text st out.1 ≡ h.text st w) × (h.rows out.1 ≡ h.rows w))
        (s.bind st i b w).0 (λ _. (text ∙ text_b, rows ∙ rows_b)) (λ _. (text_b, rows_b))

  -- The values from the i-th on, by those that were bound behind it.
  value_at :
      (st : Stmt) (i : ℕ) (b : Binding) (rest : List Binding) (w : World)
      → (s.bind st i b w).0 ≡ true
      → ((k : ℕ)
          → k < length rest
          → h.values st (bind_all s st (i + 1) rest (s.bind st i b w).1).1 (i + 1 + k)
            ≡ value_of (get_or rest k bind_null))
      → (k : ℕ) → k < suc (length rest)
      → h.values st (bind_all s st (i + 1) rest (s.bind st i b w).1).1 (i + k)
        ≡ value_of (get_or (b ∷ rest) k bind_null)
  value_at st i b rest w more later zero lt =
      let w' = (s.bind st i b w).1 in
      subst (λ (n : ℕ). h.values st (bind_all s st (i + 1) rest w').1 n ≡ value_of b) {x = i}
        (omega arith) (before st (i + 1) i rest w' (omega arith) ∙ h.bound st i b w more)
  value_at st i b rest w more later (suc k) lt =
      let w' = (s.bind st i b w).1 in
      subst
        (λ (n : ℕ).
          h.values st (bind_all s st (i + 1) rest w').1 n ≡ value_of (get_or rest k bind_null))
        {x = i + 1 + k} (omega arith) (later k (omega arith))

  bound_values :
      (st : Stmt) (i : ℕ) (args : List Binding) (w : World)
      → (bind_all s st i args w).0 ≡ true
      → (k : ℕ) → k < length args
      → h.values st (bind_all s st i args w).1 (i + k) ≡ value_of (get_or args k bind_null)
  unfolding bind_all
  bound_values st i [] w ok k lt = absurd (omega arith)
  bound_values st i (b ∷ rest) w ok k lt = elim (Bool-cases (s.bind st i b w).0) [
    | inr failed ↦ absurd (cc (rw (bind_all, failed) at ok))
    | inl more ↦
        rw (bind_all, more)
          (value_at st i b rest w more
            (bound_values st (i + 1) rest (s.bind st i b w).1 (rw (bind_all, more) at ok)) k lt)
  ]

  settled :
      (out : Tried Stmt × World) (st : Stmt)
      → (settle s out).0 ≡ some st
      → (out.0 ≡ ready st) × ((settle s out).1 ≡ out.1)
  unfolding settle
  settled (unprepared, w) st e = absurd (cc e)
  settled (refused st', w) st e = absurd (cc e)
  settled (ready st', w) st e = (cc e, refl)

  chosen :
      (b : Bool) (st st' : Stmt)
      → (if b then ready st else refused st) ≡ ready st'
      → (b ≡ true) × (st ≡ st')
  chosen true st st' e = (refl, cc e)
  chosen false st st' e = absurd (cc e)

  -- A statement that was bound and stepped as wanted.
  bind_stmt-Ran :
      (sql : String) (w0 : World) (st st' : Stmt) (args : List Binding) (wanted : ℤ) (w : World)
      → h.text st w ≡ sql
      → h.rows w ≡ h.rows w0
      → (bind_stmt s st args wanted w).0 ≡ ready st'
      → Ran sql args wanted w0 st' (bind_stmt s st args wanted w).1
  unfolding bind_stmt step_stmt
  bind_stmt-Ran sql w0 st st' args wanted w text rows e =
      elim (Bool-cases (bind_all s st 1 args w).0) [
        | inr failed ↦ absurd (cc (rw (bind_stmt, failed) at e))
        | inl good ↦
            let at = (bind_all s st 1 args w).1 in
            let (same, kept) = same_text st 1 args w in
            let (wanted_is, st_is) =
              chosen (int_eq (s.step st at).0 wanted) st st'
                (rw (bind_stmt, good, step_stmt) at e) in
            subst (λ (x : Stmt). Ran sql args wanted w0 x (bind_stmt s st args wanted w).1) st_is
              (record {
                at = at;
                text_is = same ∙ text;
                rows_are = kept ∙ rows;
                values_are = bound_values st 1 args w good;
                stepped = (int_eq_iff (s.step st at).0 wanted).0 wanted_is;
                after_is = rw (bind_stmt, good) refl;
              })
      ]

  try_stmt-Ran :
      (sql : String) (args : List Binding) (wanted : ℤ) (w : World) (st : Stmt)
      → (try_stmt s sql args wanted w).0 ≡ ready st
      → Ran sql args wanted w st (try_stmt s sql args wanted w).1
  unfolding try_stmt
  try_stmt-Ran sql args wanted w st e = elim (Option-cases (s.prepare_v2 sql w).0) [
    | inl missing ↦ absurd (cc (rw (try_stmt, missing) at e))
    | inr (st', found) ↦
        rw (try_stmt, found)
          (bind_stmt-Ran sql w st' st args wanted (s.prepare_v2 sql w).1
            (h.prepared sql w st' found) (h.prepare_rows sql w) (rw (try_stmt, found) at e))
  ]

  pub run_stmt-Ran :
      (sql : String) (args : List Binding) (wanted : ℤ) (w : World) (st : Stmt)
      → (run_stmt s sql args wanted w).0 ≡ some st
      → Ran sql args wanted w st (run_stmt s sql args wanted w).1
  unfolding run_stmt
  run_stmt-Ran sql args wanted w st e =
      let (is_ready, same) = settled (try_stmt s sql args wanted w) st e in
      subst (Ran sql args wanted w st) (sym same) (try_stmt-Ran sql args wanted w st is_ready)
