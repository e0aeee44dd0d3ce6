-- ===== src/Database/Statements/Running.antt =====
-- src/core/db_manager.c: the statement that a run leaves open.
use fman.Prelude.{
  ℕ, ◌+◌, ◌-◌, ◌≡◌, refl, ◌∙◌, Bool, List, [], ◌∷◌, Option, none, some, if_cases, arith, String,
}
use fman.Prelude.Int.{ℤ, int_eq}
use fman.Database.{
  Sqlite, Binding, Tried, unprepared, refused, ready, bind_all, step_stmt, bind_stmt, try_stmt,
  settle, run_stmt, finish_with,
}

-- A statement counts for one.
abbrev pub one_open : {Stmt : Type 0} → Option Stmt → ℕ
one_open none = 0
one_open (some st) = 1

-- `live` is how many statements are open: `prepare_v2` opens the one that it gives, `finalize` closes one, and the
-- other calls leave their number.
pub record Counts {World Stmt : Type 0} (s : Sqlite World Stmt) (live : World → ℕ) : Type 0 where
  pub prepared :
      (sql : String) (w : World)
      → live (s.prepare_v2 sql w).1 ≡ live w + one_open (s.prepare_v2 sql w).0
  pub bound : (st : Stmt) (i : ℕ) (b : Binding) (w : World) → live (s.bind st i b w).1 ≡ live w
  pub stepped : (st : Stmt) (w : World) → live (s.step st w).1 ≡ live w
  pub executed : (sql : String) (w : World) → live (s.exec sql w).1 ≡ live w
  pub finalized : (st : Stmt) (w : World) → live (s.finalize st w) ≡ live w - 1

abbrev pub tried_open : {Stmt : Type 0} → Tried Stmt → ℕ
tried_open unprepared = 0
tried_open (refused st) = 1
tried_open (ready st) = 1

pub plus_zero : (n : ℕ) → n + 0 ≡ n
plus_zero n = omega arith

module _ {World Stmt : Type 0} (s : Sqlite World Stmt) (live : World → ℕ)
    (law : Counts s live) where
  bind_all-live :
      (st : Stmt) (i : ℕ) (args : List Binding) (w : World)
      → live (bind_all s st i args w).1 ≡ live w
  unfolding bind_all
  bind_all-live st i [] w = refl
  bind_all-live st i (b ∷ rest) w =
      let w' = (s.bind st i b w).1 in
      if_cases (λ (out : Bool × World). live out.1 ≡ live w) (s.bind st i b w).0
        (λ _. bind_all-live st (i + 1) rest w' ∙ law.bound st i b w) (λ _. law.bound st i b w)

  unfoldable pub Opens : ℕ → Tried Stmt × World → Type 0
  Opens n out = live out.1 ≡ n + tried_open out.0

  step_stmt-Opens :
      (st : Stmt) (wanted : ℤ) (w : World) (n : ℕ)
      → live w ≡ n + 1
      → Opens n (step_stmt s st wanted w)
  unfolding step_stmt Opens
  step_stmt-Opens st wanted w n e =
      let after : live (s.step st w).1 ≡ n + 1 = law.stepped st w ∙ e in
      if_cases (λ (t : Tried Stmt). live (s.step st w).1 ≡ n + tried_open t)
        (int_eq (s.step st w).0 wanted) (λ _. after) (λ _. after)

  bind_stmt-Opens :
      (st : Stmt) (args : List Binding) (wanted : ℤ) (w : World) (n : ℕ)
      → live w ≡ n + 1
      → Opens n (bind_stmt s st args wanted w)
  unfolding bind_stmt
  bind_stmt-Opens st args wanted w n e =
      let (bound, w') = bind_all s st 1 args w in
      let after : live w' ≡ n + 1 = bind_all-live st 1 args w ∙ e in
      if_cases (Opens n) bound (λ _. step_stmt-Opens st wanted w' n after)
        (λ _. unfold Opens in after)

  prepared-Opens :
      (st : Option Stmt) (args : List Binding) (wanted : ℤ) (w : World) (n : ℕ)
      → live w ≡ n + one_open st
      → Opens n (elim st as (λ _. Tried Stmt × World) [
        | none ↦ (unprepared, w)
        | some st ↦ bind_stmt s st args wanted w
      ])
  unfolding Opens
  prepared-Opens none args wanted w n e = e
  prepared-Opens (some st) args wanted w n e = bind_stmt-Opens st args wanted w n e

  pub try_stmt-Opens :
      (sql : String) (args : List Binding) (wanted : ℤ) (w : World)
      → Opens (live w) (try_stmt s sql args wanted w)
  unfolding try_stmt
  try_stmt-Opens sql args wanted w =
      prepared-Opens (s.prepare_v2 sql w).0 args wanted (s.prepare_v2 sql w).1 (live w)
        (law.prepared sql w)

  pub closed_one : (st : Stmt) (w : World) (n : ℕ) → live w ≡ n + 1 → live (s.finalize st w) ≡ n
  closed_one st w n e = omega (arith, law.finalized st w, e)

  settle-live :
      (out : Tried Stmt × World) (n : ℕ)
      → Opens n out
      → live (settle s out).1 ≡ n + one_open (settle s out).0
  unfolding settle Opens
  settle-live (unprepared, w) n e = e
  settle-live (refused st, w) n e = omega (arith, closed_one st w n e)
  settle-live (ready st, w) n e = e

  pub run_stmt-live :
      (sql : String) (args : List Binding) (wanted : ℤ) (w : World)
      → live (run_stmt s sql args wanted w).1 ≡ live w + one_open (run_stmt s sql args wanted w).0
  unfolding run_stmt
  run_stmt-live sql args wanted w =
      settle-live (try_stmt s sql args wanted w) (live w) (try_stmt-Opens sql args wanted w)

  finish_with-live :
      {A : Type 0} (failed : A) (read : Stmt → World → A) (out : Option Stmt × World) (n : ℕ)
      → live out.1 ≡ n + one_open out.0
      → live (finish_with s failed read out).1 ≡ n
  unfolding finish_with
  finish_with-live failed read (none, w) n e = e ∙ plus_zero n
  finish_with-live failed read (some st, w) n e = closed_one st w n e

  -- Behind a statement that was run, it is finalized.
  pub run-live :
      {A : Type 0} (failed : A) (read : Stmt → World → A) (sql : String) (args : List Binding)
      (wanted : ℤ) (w : World)
      → live (finish_with s failed read (run_stmt s sql args wanted w)).1 ≡ live w
  run-live failed read sql args wanted w =
      finish_with-live failed read (run_stmt s sql args wanted w) (live w)
        (run_stmt-live sql args wanted w)
