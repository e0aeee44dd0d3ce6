-- ===== src/Orchestrator/Waits.antt =====
-- src/core/orchestrator.c: the order in which `destroy_runtime` ends the threads, and `wait_for_response`.
use fman.Prelude.{
  ℕ, at_or_past, zero, suc, ◌+◌, ◌*◌, ◌≤◌, ◌<◌, ◌≡◌, refl, sym, ap, ◌∙◌, ◌⊎◌, inl, inr, Bool, true,
  false, not, ◌&&◌, List, [], ◌∷◌, ◌++◌, Option, none, some, Option-cases, ltb, if_cases, arith,
  append_assoc, subst,
}
use fman.Prelude.Int.{ℤ, pos, negsuc}
use fman.Models.{Response}
use fman.Dsl.Lexer.{malloc}
use fman.Orchestrator.{
  db_queue, request_queue, response_queue, db_worker, dispatcher, http_worker, Event, made, shut,
  gone, Runtime, join_workers, destroy_rest, destroy_runtime, with_dispatcher, start_workers,
  made_first, create_with, create_runtime, poll, wait_for_response,
}
use fman.Orchestrator.Closes.{whole_life}

-- No thread is joined before the queue that it waits on is shut down: the workers wait on the queue of requests, the
-- dispatcher on that of responses, the database worker on its own. The tests are which of these is shut down.
unfoldable pub orderly : Bool → Bool → Bool → List Event → Bool
orderly request response db [] = true
orderly request response db (shut request_queue ∷ log) = orderly true response db log
orderly request response db (shut response_queue ∷ log) = orderly request true db log
orderly request response db (shut db_queue ∷ log) = orderly request response true log
orderly request response db (gone (http_worker i) ∷ log) =
    request && orderly request response db log
orderly request response db (gone dispatcher ∷ log) = response && orderly request response db log
orderly request response db (gone db_worker ∷ log) = db && orderly request response db log
orderly request response db (_ ∷ log) = orderly request response db log

orderly_joins :
    (n i : ℕ) (log : List Event)
    → orderly true false false (join_workers n i ++ log) ≡ orderly true false false log
unfolding orderly join_workers
orderly_joins zero i log = refl
orderly_joins (suc n) i log = orderly_joins n (i + 1) log

destroy_orderly : (i : ℕ) → orderly false false false (destroy_runtime (with_dispatcher i)) ≡ true
unfolding orderly destroy_runtime destroy_rest
destroy_orderly i = orderly_joins i 0 (destroy_rest (with_dispatcher i))

-- A log in which things are only made.
Plain : List Event → Type 0
Plain log =
    (more : List Event) → orderly false false false (log ++ more) ≡ orderly false false false more

made-Plain : (log : List Event) (i : ℕ) → Plain log → Plain (log ++ made (http_worker i) ∷ [])
unfolding Plain orderly
made-Plain log i p more =
    ap (λ (l : List Event). orderly false false false l)
      (append_assoc log (made (http_worker i) ∷ []) more)
    ∙ p (made (http_worker i) ∷ more)

abbrev Ends : Option Runtime × List Event → Type 0
Ends out = orderly false false false (whole_life out) ≡ true

start_workers-Ends :
    (n i : ℕ) (log : List Event) (answers : List Bool)
    → Plain log
    → Ends (start_workers n i log answers)
unfolding start_workers whole_life Plain
start_workers-Ends zero i log answers p =
    p _ ∙ unfold destroy_runtime destroy_rest in destroy_orderly i
start_workers-Ends (suc n) i log answers p =
    if_cases Ends (malloc answers).0
      (λ _.
        start_workers-Ends n (i + 1) (log ++ made (http_worker i) ∷ []) (malloc answers).1
          (made-Plain log i p))
      λ _. p _ ∙ destroy_orderly i

create_with-Ends : (n : ℕ) (answers : List Bool) → Ends (create_with n answers)
unfolding create_with whole_life destroy_runtime destroy_rest join_workers orderly Plain
create_with-Ends n answers =
    let (allocated, a1) = malloc answers in
    let (db, a2) = malloc a1 in
    let (request, a3) = malloc a2 in
    let (response, a4) = malloc a3 in
    let (threads, a5) = malloc a4 in
    let (db_started, a6) = malloc a5 in
    let (dispatcher_started, a7) = malloc a6 in
    if_cases Ends (not allocated) (λ _. refl)
      λ _.
        if_cases Ends (not db) (λ _. refl)
          λ _.
            if_cases Ends (not request) (λ _. refl)
              λ _.
                if_cases Ends (not response) (λ _. refl)
                  λ _.
                    if_cases Ends (not threads) (λ _. refl)
                      λ _.
                        if_cases Ends (not db_started) (λ _. refl)
                          λ _.
                            if_cases Ends (not dispatcher_started) (λ _. refl)
                              λ _. start_workers-Ends n 0 made_first a7 (λ more. refl)

-- From a call of `create_runtime` to the end of the runtime, no thread is joined before the queue that it waits on
-- is shut down, wherever the call fails.
pub create_runtime_orderly :
    (workers : ℤ) (answers : List Bool)
    → orderly false false false (whole_life (create_runtime workers answers)) ≡ true
unfolding create_runtime
create_runtime_orderly (pos (suc n)) answers = create_with-Ends (suc n) answers
create_runtime_orderly (pos zero) answers = unfold whole_life orderly in refl
create_runtime_orderly (negsuc n) answers = unfold whole_life orderly in refl

-- The k-th poll, before the timeout, is the first to find a response, and this is it.
pub record FirstAt (db : ℕ → Option Response) (timeout : ℕ) (out : Option Response) : Type 0 where
  pub k : ℕ
  pub in_time : 100 * k < timeout
  pub found : (r : Response) × (out ≡ some r) × (db k ≡ some r)
  pub first : (j : ℕ) → j < k → db j ≡ none

-- No poll before the timeout finds one.
pub record NoneIn (db : ℕ → Option Response) (timeout : ℕ) (out : Option Response) : Type 0 where
  pub nothing : out ≡ none
  pub empty : (j : ℕ) → 100 * j < timeout → db j ≡ none

poll_lem :
    (fuel elapsed timeout : ℕ) (db : ℕ → Option Response) (k : ℕ)
    → elapsed ≡ 100 * k
    → timeout ≤ elapsed + fuel
    → ((j : ℕ) → j < k → db j ≡ none)
    → FirstAt db timeout (poll fuel elapsed timeout db k)
      ⊎ NoneIn db timeout (poll fuel elapsed timeout db k)
unfolding poll
poll_lem zero elapsed timeout db k at enough before =
    inr (record { nothing = refl; empty = λ j h. before j (omega arith) })
poll_lem (suc fuel) elapsed timeout db k at enough before =
    if_cases Outcome (ltb elapsed timeout)
      (λ more. elim (Option-cases (db k)) [
        | inl missing ↦ rw missing (
            poll_lem fuel (elapsed + 100) timeout db (k + 1) (omega arith) (omega arith)
              (later missing))
        | inr (r, here) ↦ inl (record {
          k = k;
          in_time = ground arith;
          found = (r, rw here refl, here);
          first = before;
        })
      ])
      λ over. inr (record { nothing = refl; empty = λ j h. before j (ground arith) })
  where
    Outcome : Option Response → Type 0
    Outcome out = FirstAt db timeout out ⊎ NoneIn db timeout out

    later : db k ≡ none → (j : ℕ) → j < k + 1 → db j ≡ none
    later missing j h = elim (at_or_past j k (omega arith)) [
      | inl same ↦ subst (λ (n : ℕ). db n ≡ none) (sym same) missing
      | inr past ↦ before j (omega arith)
    ]

abbrev pub timeout_of_int : ℤ → ℕ
timeout_of_int (pos n) = n
timeout_of_int (negsuc n) = 0

-- `wait_for_response` polls the database every 100 ms while less than the timeout has passed. It returns the response
-- that the first poll with one finds, or NULL when none of these polls finds one; with a timeout that is not
-- positive there is no poll.
pub wait_for_response_lem :
    (db : ℕ → Option Response) (timeout_ms : ℤ)
    → FirstAt db (timeout_of_int timeout_ms) (wait_for_response db timeout_ms)
      ⊎ NoneIn db (timeout_of_int timeout_ms) (wait_for_response db timeout_ms)
unfolding wait_for_response
wait_for_response_lem db (pos n) =
    poll_lem n 0 n db 0 (omega arith) (omega arith) (λ j h. absurd (omega arith))
wait_for_response_lem db (negsuc n) =
    inr (record { nothing = refl; empty = λ j h. absurd (omega arith) })
