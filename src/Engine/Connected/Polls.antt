-- ===== src/Engine/Connected/Polls.antt =====
-- `wait_for_response` of src/core/orchestrator.c over the database, in the place of answers that are given.
use fman.Prelude.{
  Bool, true, false, ℕ, zero, suc, ◌+◌, ◌≡◌, refl, sym, ap, ◌∙◌, Option, none, some, ltb,
  if◌then◌else◌, arith, subst, ◌⊎◌,
}
use fman.Prelude.Int.{ℤ, pos, negsuc}
use fman.Models.{Response}
use fman.Database.{Sqlite}
use fman.Orchestrator.{poll, wait_for_response}
use fman.Orchestrator.Waits.{FirstAt, NoneIn, timeout_of_int, wait_for_response_lem}
use fman.Engine.Connected.{Threads, Machine, look, sleep, poll_db, wait}

module _ {World Stmt : Type 0} (s : Sqlite World Stmt) (t : Threads World) (id : ℤ) where
  -- What the k-th look at the database finds, with a sleep behind each look before it.
  unfoldable pub looks : Machine World → ℕ → Option Response
  looks m zero = (look s t id m).0
  looks m (suc k) = looks (sleep s t (look s t id m).1) k

  shifted : (k j : ℕ) → k + 1 + j ≡ k + suc j
  shifted k j = omega arith

  from_zero : (j : ℕ) → 0 + j ≡ j
  from_zero j = omega arith

  zero_shift : (k : ℕ) → k + 0 ≡ k
  zero_shift k = omega arith

  tested :
      (b : Bool) (x y : Option Response × Machine World) (u v : Option Response)
      → x.0 ≡ u
      → y.0 ≡ v
      → (if b then x else y).0 ≡ (if b then u else v)
  tested true x y u v e f = e
  tested false x y u v e f = f

  found_or :
      (o : Option Response) (m : Machine World) (rest : Option Response × Machine World)
      (u : Option Response)
      → rest.0 ≡ u
      → (elim o as (λ _. Option Response × Machine World) [ none ↦ rest | some r ↦ (some r, m) ]).0
        ≡ (elim o as (λ _. Option Response) [ some r ↦ some r | none ↦ u ])
  found_or none m rest u e = e
  found_or (some r) m rest u e = refl

  polled :
      (fuel elapsed timeout : ℕ) (db : ℕ → Option Response) (k : ℕ) (m : Machine World)
      → ((j : ℕ) → db (k + j) ≡ looks m j)
      → (poll_db s t fuel elapsed timeout id m).0 ≡ poll fuel elapsed timeout db k
  unfolding poll_db poll looks
  polled zero elapsed timeout db k m same = refl
  polled (suc fuel) elapsed timeout db k m same =
      let m1 = (look s t id m).1 in
      let rest =
        polled fuel (elapsed + 100) timeout db (k + 1) (sleep s t m1)
          (λ j. ap db (shifted k j) ∙ same (suc j)) in
      let now : (look s t id m).0 ≡ db k = sym (same 0) ∙ ap db (zero_shift k) in
      tested (ltb elapsed timeout) _ _ _ _
        (found_or (look s t id m).0 m1 _ _ rest
          ∙ ap
              (λ o. elim o as (λ _. Option Response) [
                | some r ↦ some r
                | none ↦ poll fuel (elapsed + 100) timeout db (k + 1)
              ])
              now)
        refl

  pub wait-polls :
      (timeout : ℤ) (m : Machine World)
      → (wait s t id timeout m).0 ≡ wait_for_response (looks m) timeout
  unfolding wait wait_for_response
  wait-polls (pos n) m = polled n 0 n (looks m) 0 m (λ j. ap (looks m) (from_zero j))
  wait-polls (negsuc n) m = refl

  -- `wait_for_response` over the database looks at it every 100 ms while less than the timeout has passed. It returns
  -- the response that the first of these looks with one finds, or NULL when none of them finds one.
  pub wait_lem :
      (timeout : ℤ) (m : Machine World)
      → FirstAt (looks m) (timeout_of_int timeout) (wait s t id timeout m).0
        ⊎ NoneIn (looks m) (timeout_of_int timeout) (wait s t id timeout m).0
  wait_lem timeout m =
      subst
        (λ (out : Option Response).
          FirstAt (looks m) (timeout_of_int timeout) out
          ⊎ NoneIn (looks m) (timeout_of_int timeout) out)
        (sym (wait-polls timeout m)) (wait_for_response_lem (looks m) timeout)
