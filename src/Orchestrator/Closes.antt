-- ===== src/Orchestrator/Closes.antt =====
-- src/core/orchestrator.c: what is made is given back, and in which order.
use fman.Prelude.{
  ℕ, zero, suc, ◌+◌, ◌≡◌, refl, ap, ◌∙◌, Bool, not, List, [], ◌∷◌, ◌++◌, Option, none, some,
  if_cases, arith, subst,
}
use fman.Prelude.Int.{ℤ, pos, negsuc}
use fman.Dsl.Lexer.{malloc}
use fman.Orchestrator.{
  Thing, runtime, db_queue, request_queue, response_queue, http_threads, db_worker, http_worker,
  Event, made, shut, gone, Runtime, join_workers, destroy_rest, destroy_runtime, new_runtime,
  with_db_queue, with_request_queue, with_response_queue, with_http_threads, with_db_worker,
  with_dispatcher, fail, start_workers, made_first, create_with, create_runtime,
}

-- What the things that were made weigh, and those that are gone.
unfoldable pub all_made : (Thing → ℕ) → List Event → ℕ
all_made w [] = 0
all_made w (made t ∷ log) = w t + all_made w log
all_made w (_ ∷ log) = all_made w log

unfoldable pub all_gone : (Thing → ℕ) → List Event → ℕ
all_gone w [] = 0
all_gone w (gone t ∷ log) = w t + all_gone w log
all_gone w (_ ∷ log) = all_gone w log

-- What was done in all, when the runtime that was created is destroyed.
unfoldable pub whole_life : Option Runtime × List Event → List Event
whole_life (none, log) = log
whole_life (some r, log) = log ++ destroy_runtime r

one_over : (i n : ℕ) → i + 1 + n ≡ i + suc n
one_over i n = omega arith

add_zero : (i : ℕ) → i ≡ i + 0
add_zero i = omega arith

zero_add : (i : ℕ) → 0 + i ≡ i
zero_add i = omega arith

add_one : (i : ℕ) → suc i ≡ i + 1
add_one i = omega arith

module _ (w : Thing → ℕ) where
  Even : List Event → Type 0
  Even log = all_made w log ≡ all_gone w log

  made-append : (xs ys : List Event) → all_made w (xs ++ ys) ≡ all_made w xs + all_made w ys
  unfolding all_made
  made-append [] ys = omega arith
  made-append (made t ∷ xs) ys = omega (arith, made-append xs ys)
  made-append (shut t ∷ xs) ys = made-append xs ys
  made-append (gone t ∷ xs) ys = made-append xs ys

  gone-append : (xs ys : List Event) → all_gone w (xs ++ ys) ≡ all_gone w xs + all_gone w ys
  unfolding all_gone
  gone-append [] ys = omega arith
  gone-append (gone t ∷ xs) ys = omega (arith, gone-append xs ys)
  gone-append (shut t ∷ xs) ys = gone-append xs ys
  gone-append (made t ∷ xs) ys = gone-append xs ys

  made_joins : (n i : ℕ) → all_made w (join_workers n i) ≡ 0
  unfolding all_made join_workers
  made_joins zero i = refl
  made_joins (suc n) i = made_joins n (i + 1)

  -- One worker more to join.
  join_more :
      (n i : ℕ)
      → all_gone w (join_workers (suc n) i)
        ≡ all_gone w (join_workers n i) + w (http_worker (i + n))
  unfolding all_gone join_workers
  join_more zero i = omega (arith, ap (λ (k : ℕ). w (http_worker k)) (add_zero i))
  join_more (suc n) i =
      omega (arith, join_more n (i + 1), ap (λ (k : ℕ). w (http_worker k)) (one_over i n))

  -- What destroying a whole runtime weighs.
  made_destroy : (i : ℕ) → all_made w (destroy_runtime (with_dispatcher i)) ≡ 0
  unfolding all_made destroy_runtime destroy_rest
  made_destroy i =
      made-append (join_workers i 0) (destroy_rest (with_dispatcher i))
      ∙ ap (λ (n : ℕ). n + 0) (made_joins i 0)

  rest_weight : ℕ
  rest_weight = all_gone w (destroy_rest (with_dispatcher 0))

  gone_destroy :
      (i : ℕ)
      → all_gone w (destroy_runtime (with_dispatcher i))
        ≡ all_gone w (join_workers i 0) + rest_weight
  unfolding all_gone destroy_runtime destroy_rest rest_weight
  gone_destroy i = gone-append (join_workers i 0) (destroy_rest (with_dispatcher i))

  -- A log that the destruction of the runtime makes even.
  Evens : ℕ → List Event → Type 0
  Evens i log = all_made w log ≡ all_gone w log + (all_gone w (join_workers i 0) + rest_weight)

  Evens-Even :
      (i : ℕ) (log : List Event) → Evens i log → Even (log ++ destroy_runtime (with_dispatcher i))
  unfolding Even Evens
  Evens-Even i log e =
      let d = destroy_runtime (with_dispatcher i) in
      omega (arith, made-append log d, gone-append log d, made_destroy i, gone_destroy i, e)

  one_more :
      (i : ℕ) (log : List Event) → Evens i log → Evens (suc i) (log ++ made (http_worker i) ∷ [])
  unfolding Evens all_made all_gone
  one_more i log e =
      let m = made (http_worker i) ∷ [] in
      omega (
        arith,
        made-append log m,
        gone-append log m,
        join_more i 0,
        e,
        ap (λ (k : ℕ). w (http_worker k)) (zero_add i),
      )

  start_workers-Even :
      (n i : ℕ) (log : List Event) (answers : List Bool)
      → Evens i log
      → Even (whole_life (start_workers n i log answers))
  unfolding start_workers whole_life
  start_workers-Even zero i log answers e =
      unfold destroy_runtime destroy_rest in Evens-Even i log e
  start_workers-Even (suc n) i log answers e =
      if_cases (λ (out : Option Runtime × List Event). Even (whole_life out)) (malloc answers).0
        (λ _. start_workers-Even n (i + 1) (log ++ made (http_worker i) ∷ []) (malloc answers).1 (
          subst (λ (k : ℕ). Evens k (log ++ made (http_worker i) ∷ [])) (add_one i)
            (one_more i log e)))
        λ _. Evens-Even i log e

  Closes : Option Runtime × List Event → Type 0
  Closes out = Even (whole_life out)

  fails : (r : Runtime) (log : List Event) → Even (log ++ destroy_runtime r) → Closes (fail r log)
  unfolding Closes whole_life
  fails r log e = e

  create_with-Closes : (n : ℕ) (answers : List Bool) → Closes (create_with n answers)
  unfolding create_with whole_life destroy_runtime destroy_rest join_workers all_made all_gone Even
      Closes
  create_with-Closes n answers =
      let (allocated, a1) = malloc answers in
      let (db, a2) = malloc a1 in
      let (request, a3) = malloc a2 in
      let (response, a4) = malloc a3 in
      let (threads, a5) = malloc a4 in
      let (db_started, a6) = malloc a5 in
      let (dispatcher_started, a7) = malloc a6 in
      if_cases Closes (not allocated) (λ _. refl)
        λ _.
          if_cases Closes (not db) (λ _. fails new_runtime (made runtime ∷ []) (omega arith))
            λ _.
              if_cases Closes (not request)
                (λ _. fails with_db_queue (made runtime ∷ made db_queue ∷ []) (omega arith))
                λ _.
                  if_cases Closes (not response)
                    (λ _.
                      fails with_request_queue
                        (made runtime ∷ made db_queue ∷ made request_queue ∷ []) (omega arith))
                    λ _.
                      if_cases Closes (not threads)
                        (λ _.
                          fails with_response_queue
                            (made runtime
                              ∷ made db_queue
                              ∷ made request_queue
                              ∷ made response_queue
                              ∷ [])
                            (omega arith))
                        λ _.
                          if_cases Closes (not db_started)
                            (λ _.
                              fails with_http_threads
                                (made runtime
                                  ∷ made db_queue
                                  ∷ made request_queue
                                  ∷ made response_queue
                                  ∷ made http_threads
                                  ∷ [])
                                (omega arith))
                            λ _.
                              if_cases Closes (not dispatcher_started)
                                (λ _.
                                  fails with_db_worker
                                    (made runtime
                                      ∷ made db_queue
                                      ∷ made request_queue
                                      ∷ made response_queue
                                      ∷ made http_threads
                                      ∷ made db_worker
                                      ∷ [])
                                    (omega arith))
                                λ _.
                                  start_workers-Even n 0 made_first a7
                                    (unfold Evens rest_weight in omega arith)

  -- Whatever things weigh, those that a call of `create_runtime` makes weigh as much as those that are gone in the
  -- end: after a call that fails, whichever allocation, queue or thread it fails at, or after `destroy_runtime` on
  -- the runtime that was created. So each of them is freed, destroyed or joined as often as it was made.
  pub create_runtime_closes :
      (workers : ℤ) (answers : List Bool)
      → all_made w (whole_life (create_runtime workers answers))
        ≡ all_gone w (whole_life (create_runtime workers answers))
  unfolding create_runtime Closes Even
  create_runtime_closes (pos (suc n)) answers = create_with-Closes (suc n) answers
  create_runtime_closes (pos zero) answers = unfold whole_life all_made all_gone in refl
  create_runtime_closes (negsuc n) answers = unfold whole_life all_made all_gone in refl
