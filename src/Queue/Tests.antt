-- ===== src/Queue/Tests.antt =====
-- The queue on a sequence of calls.
use fman.Prelude.{◌≡◌, refl, false, List, [], ◌∷◌, none, some}
use fman.Queue.{
  Queue, Heap, pushed, popped, blocked, closed, queue_push, queue_pop, queue_shutdown, write, link,
  link_behind, unlink,
}
use fman.Queue.Runs.{Call, push, pop, shutdown, run_queue, queue_step}

abbrev pub no_nodes : Heap
no_nodes a = none

abbrev pub new_queue : Queue
new_queue = record { head = none; tail = none; size = 0; is_shutdown = false; heap = no_nodes }

-- Two pushes, a pop and a push at the freed address, without memory once, closed, emptied.
abbrev pub some_calls : List Call
some_calls =
    pop
    ∷ push (some 10) (some 1)
    ∷ push (some 20) (some 2)
    ∷ pop
    ∷ push (some 30) (some 1)
    ∷ push (some 40) none
    ∷ shutdown
    ∷ push (some 50) (some 3)
    ∷ pop
    ∷ pop
    ∷ pop
    ∷ []

answered :
    (run_queue some_calls new_queue).0
    ≡ blocked
      ∷ pushed 1
      ∷ pushed 1
      ∷ popped (some 10)
      ∷ pushed 1
      ∷ pushed 0
      ∷ closed
      ∷ pushed 0
      ∷ popped (some 20)
      ∷ popped (some 30)
      ∷ popped none
      ∷ []
unfolding run_queue queue_step queue_push queue_pop queue_shutdown write link link_behind unlink
answered = refl
