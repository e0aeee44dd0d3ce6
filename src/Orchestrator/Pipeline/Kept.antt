-- ===== src/Orchestrator/Pipeline/Kept.antt =====
-- The threads of src/core/orchestrator.c and src/core/worker.c: what becomes of the requests between them.
use fman.Prelude.{
  ℕ, ◌+◌, ◌≡◌, refl, ap, Bool, true, false, List, [], ◌∷◌, none, some, if◌then◌else◌, map, arith,
  length, length-append, length-map,
}
use fman.Prelude.Int.{ℤ}
use fman.Models.{Response}
use fman.Worker.Buffer.{Realloc}
use fman.Orchestrator.Pipeline.{
  System, Work, Reach, answers, unanswered, id_of, to_save, dispatched, queued_tasks, freed_ids,
  take, answer, dispatch, save, send, work, start, later,
}
use fman.Orchestrator.Pipeline.Counts.{
  total, total-append, total_zero, swapped, one, of_request, of_worker, of_response, of_task,
  total_ids, total-answers, total-dispatched, total-saved, length-unanswered, length-freed_ids,
}

module _ (realloc : Realloc) (id : ℤ) where
  -- How many requests with the id are on their way.
  abbrev pub on_way : System → ℕ
  on_way s =
      total (of_request id) s.requests
      + total (of_worker id) s.workers
      + total (of_response id) s.responses
      + total (of_task id) s.tasks

  abbrev pub done_with : System → ℕ
  done_with s = total (of_response id) s.saved + total (one id) s.lost

  saved_count :
      (stored : Bool) (outs : List Response)
      → total (of_response id) (if stored then outs else [])
          + total (one id) (if stored then [] else map id_of outs)
        ≡ total (of_response id) outs
  saved_count true outs = omega arith
  saved_count false outs = omega (arith, total_ids id outs)

  work_kept : (s t : System) → Work realloc s t → on_way t + done_with t ≡ on_way s + done_with s
  work_kept s t (take xs ys req rest idle queue) = omega (
    arith,
    swapped (of_worker id) s.workers xs ys none (some req) idle,
    ap (total (of_request id)) queue,
  )
  work_kept s t (answer xs ys req env law busy) = omega (
    arith,
    swapped (of_worker id) s.workers xs ys (some req) none busy,
    total-append (of_response id) s.responses (answers env req),
    total-append (one id) s.lost (unanswered env req),
    total-answers id realloc env req law,
  )
  work_kept s t (dispatch resp rest done pushed queue) =
      let events = dispatched resp done pushed in
      omega (
        arith,
        ap (total (of_response id)) queue,
        total-append (of_task id) s.tasks (queued_tasks events),
        total-append (one id) s.lost (freed_ids events),
        total-dispatched id resp done pushed,
      )
  work_kept s t (save task rest stored queue) =
      let outs = to_save task in
      omega (
        arith,
        ap (total (of_task id)) queue,
        total-append (of_response id) s.saved (if stored then outs else []),
        total-append (one id) s.lost (if stored then [] else map id_of outs),
        saved_count stored outs,
        total-saved id task,
      )

  missing_count :
      (stored : Bool) (outs : List Response)
      → length (if stored then [] else map id_of outs) ≡ (if stored then 0 else length outs)
  missing_count true outs = refl
  missing_count false outs = length-map id_of outs

  -- A step gives up as many requests as it is refused something.
  work_refused :
      (s t : System) → Work realloc s t → length s.lost ≡ s.refused → length t.lost ≡ t.refused
  work_refused s t (take xs ys req rest idle queue) e = e
  work_refused s t (answer xs ys req env law busy) e =
      omega
        (arith, e, length-append s.lost (unanswered env req), length-unanswered realloc env req law)
  work_refused s t (dispatch resp rest done pushed queue) e = omega (
    arith,
    e,
    length-append s.lost (freed_ids (dispatched resp done pushed)),
    length-freed_ids resp done pushed,
  )
  work_refused s t (save task rest stored queue) e = omega (
    arith,
    e,
    length-append s.lost (if stored then [] else map id_of (to_save task)),
    missing_count stored (to_save task),
  )

  work_sends_none : (s t : System) → Work realloc s t → t.sent ≡ s.sent
  work_sends_none s t (take xs ys req rest idle queue) = refl
  work_sends_none s t (answer xs ys req env law busy) = refl
  work_sends_none s t (dispatch resp rest done pushed queue) = refl
  work_sends_none s t (save task rest stored queue) = refl

  -- However the threads are interleaved, a request is dispatched exactly as often as it is on its way (queued, worked
  -- on, or its response queued, or queued to be saved), saved, or given up, counted by its id. Just as many requests
  -- are given up as the environment refused memory for a response or for a task, a place in a queue, or to store a
  -- response.
  pub every_request_counts :
      (n : ℕ) (s : System)
      → Reach realloc n s
      → (total (of_request id) s.sent ≡ on_way s + done_with s) × (length s.lost ≡ s.refused)
  every_request_counts n s start = (omega (arith, total_zero (of_worker id) n none refl), refl)
  every_request_counts n t (later {s} r (send req)) =
      let (counts, refusals) = every_request_counts n s r in
      (
        omega (
          arith,
          counts,
          total-append (of_request id) s.sent (req ∷ []),
          total-append (of_request id) s.requests (req ∷ []),
        ),
        refusals,
      )
  every_request_counts n t (later {s} r (work w)) =
      let (counts, refusals) = every_request_counts n s r in
      (
        omega (arith, counts, work_kept s t w, ap (total (of_request id)) (work_sends_none s t w)),
        work_refused s t w refusals,
      )
