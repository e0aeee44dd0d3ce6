-- ===== src/Orchestrator/Pipeline/Witnesses.antt =====
-- The theorems on the threads, with two workers.
use fman.Prelude.{length, ◌+◌, ◌≡◌, refl, [], ◌∷◌, none, some, codes}
use fman.Prelude.Int.{pos}
use fman.Models.{Request, get}
use fman.Worker.Buffer.{Realloc}
use fman.Orchestrator.Pipeline.{System, Work, Reach, send, work, later}
use fman.Orchestrator.Pipeline.Counts.{total, of_request}
use fman.Orchestrator.Pipeline.Kept.{on_way, done_with, every_request_counts}

abbrev no_blocks : Realloc
no_blocks old n = none

abbrev small_request : Request
small_request = record {
  id = pos 7;
  collection_id = pos 1;
  method = get;
  url = some (codes "http://a");
  url_len = 8;
  headers = none;
  headers_len = 0;
  body = none;
  body_len = 0;
  status = pos 0;
}

-- One of two workers works on the request.
abbrev one_working : System
one_working = record {
  sent = small_request ∷ [];
  requests = [];
  workers = none ∷ some small_request ∷ [];
  responses = [];
  tasks = [];
  saved = [];
  lost = [];
  refused = 0;
}

-- Before, it waits in the queue.
abbrev one_waiting : System
one_waiting = record one_working { requests = small_request ∷ []; workers = none ∷ none ∷ [] }

abbrev one_waiting_reached : Reach no_blocks 2 one_waiting
one_waiting_reached = later Reach.start (send small_request)

abbrev taken : Work no_blocks one_waiting one_working
taken = Work.take (none ∷ []) [] small_request [] refl refl

every_request_counts_example :
    (total (of_request (pos 7)) (small_request ∷ [])
      ≡ on_way no_blocks (pos 7) one_working + done_with no_blocks (pos 7) one_working)
    × (length one_working.lost ≡ one_working.refused)
every_request_counts_example =
    every_request_counts no_blocks (pos 7) 2 one_working (later one_waiting_reached (work taken))
