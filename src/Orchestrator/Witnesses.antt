-- ===== src/Orchestrator/Witnesses.antt =====
-- The theorems on src/core/orchestrator.c at concrete inputs.
use fman.Prelude.{ℕ, ◌+◌, ◌≡◌, Bool, true, false, List, [], ◌∷◌, none}
use fman.Prelude.Int.{pos}
use fman.Models.{Response}
use fman.Engine.Witnesses.{answer}
use fman.Orchestrator.{Thing, db_worker, create_runtime}
use fman.Orchestrator.Closes.{all_made, all_gone, whole_life, create_runtime_closes}
use fman.Orchestrator.Dispatch.{
  freed_weight, dispatcher_routine, db_worker_routine, tasks_of, weight, dispatch_frees,
}

-- Only the thread of the database worker counts.
abbrev only_db_worker : Thing → ℕ
only_db_worker db_worker = 1
only_db_worker _ = 0

-- The dispatcher does not start.
abbrev no_dispatcher : List Bool
no_dispatcher = true ∷ true ∷ true ∷ true ∷ true ∷ true ∷ false ∷ []

create_runtime_closes_example :
    all_made only_db_worker (whole_life (create_runtime (pos 4) no_dispatcher))
    ≡ all_gone only_db_worker (whole_life (create_runtime (pos 4) no_dispatcher))
create_runtime_closes_example = create_runtime_closes only_db_worker (pos 4) no_dispatcher

abbrev two_answers : List Response
two_answers = answer (pos 1) ∷ answer (pos 2) ∷ []

dispatch_frees_example :
    freed_weight (λ _. 1) (dispatcher_routine two_answers (false ∷ []) [])
      + freed_weight
          (λ _. 1)
          (db_worker_routine none (tasks_of (dispatcher_routine two_answers (false ∷ []) [])))
    ≡ weight (λ _. 1) two_answers
dispatch_frees_example = dispatch_frees (λ _. 1) none two_answers (false ∷ []) []
