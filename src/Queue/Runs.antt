-- ===== src/Queue/Runs.antt =====
-- src/core/queue.c: sequences of calls, those of several threads interleaved.
use fman.Prelude.{ℕ, ◌≡◌, refl, true, false, List, [], ◌∷◌, Option, none, some, subst}
use fman.Queue.{Queue, Heap, Answer, closed, queue_push, queue_pop, queue_shutdown, create_queue}
use fman.Queue.Fifo.{
  Fifo, Represents, Agree, queue_of, fifo_of, push_step, pop_step, shutdown_step, pop-nodes,
  push-nodes, leaves, head_of, tail_of, data_of,
}

-- A call, with the data and the answer of `malloc` for a push. A pop that is blocked is tried again later.
pub data Call : Type 0 where
  push : Option ℕ → Option ℕ → Call
  pop shutdown : Call

unfoldable pub queue_step : Call → Queue → Answer × Queue
queue_step (push data_ptr qn) q = queue_push data_ptr qn q
queue_step pop q = queue_pop q
queue_step shutdown q = queue_shutdown q

unfoldable pub fifo_step : Call → Fifo → Answer × Fifo
fifo_step (push data_ptr qn) f = push_step data_ptr qn f
fifo_step pop f = pop_step f
fifo_step shutdown f = shutdown_step f

unfoldable pub run_queue : List Call → Queue → List Answer × Queue
run_queue [] q = ([], q)
run_queue (c ∷ calls) q =
    let (answer, q') = queue_step c q in
    let (answers, last) = run_queue calls q' in (answer ∷ answers, last)

unfoldable pub run_fifo : List Call → Fifo → List Answer × Fifo
run_fifo [] f = ([], f)
run_fifo (c ∷ calls) f =
    let (answer, f') = fifo_step c f in
    let (answers, last) = run_fifo calls f' in (answer ∷ answers, last)

-- `malloc` gives an address at which nothing stands.
abbrev pub IsFresh : Call → Queue → Type 0
IsFresh (push data_ptr (some qn)) q = q.heap qn ≡ none
IsFresh _ q = Unit {0}

abbrev pub AllFresh : List Call → Queue → Type 0
AllFresh [] q = Unit {0}
AllFresh (c ∷ calls) q = IsFresh c q × AllFresh calls (queue_step c q).1

-- What holds of a queue in its normal form holds of the queue.
transfer :
    (step : Queue → Answer × Queue) (spec : Fifo → Answer × Fifo) (q : Queue) (f : Fifo)
    (r : Represents q f)
    → Agree (step (queue_of r.nodes q.is_shutdown q.heap)) (spec (fifo_of r.nodes q.is_shutdown))
    → Agree (step q) (spec f)
transfer step spec q f r h =
    subst (λ (g : Fifo). Agree (step q) (spec g)) r.items_are
      (subst (λ (p : Queue). Agree (step p) (spec (fifo_of r.nodes q.is_shutdown))) r.queue_is h)

step-Agree :
    (c : Call) (q : Queue) (f : Fifo)
    → Represents q f
    → IsFresh c q
    → Agree (queue_step c q) (fifo_step c f)
unfolding queue_step fifo_step queue_push push_step queue_shutdown shutdown_step
step-Agree (push (some d) (some qn)) q f r fresh =
    transfer (queue_push (some d) (some qn)) (push_step (some d) (some qn)) q f r
      (push-nodes d qn r.nodes q.is_shutdown q.heap fresh r.chain r.distinct)
step-Agree (push (some d) none) q f r fresh = record { same_answer = refl; represents = r }
step-Agree (push none qn) q f r fresh = record { same_answer = refl; represents = r }
step-Agree pop q f r fresh =
    transfer queue_pop pop_step q f r (pop-nodes r.nodes q.is_shutdown q.heap r.chain r.distinct)
step-Agree shutdown q f r fresh =
    transfer queue_shutdown shutdown_step q f r
      (leaves closed (queue_of r.nodes true q.heap) r.nodes r.chain r.distinct refl)

run-Represents :
    (calls : List Call) (q : Queue) (f : Fifo)
    → Represents q f
    → AllFresh calls q
    → ((run_queue calls q).0 ≡ (run_fifo calls f).0)
      × Represents (run_queue calls q).1 (run_fifo calls f).1
unfolding run_queue run_fifo
run-Represents [] q f r fresh = (refl, r)
run-Represents (c ∷ calls) q f r (here, fresh) =
    let a = step-Agree c q f r here in
    let (same, r') = run-Represents calls (queue_step c q).1 (fifo_step c f).1 a.represents fresh in
    (λ i. a.same_answer i ∷ same i, r')

abbrev pub empty_fifo : Fifo
empty_fifo = record { items = []; is_closed = false }

created-Represents :
    (heap : Heap)
    → Represents
        (record { head = none; tail = none; size = 0; is_shutdown = false; heap = heap })
        empty_fifo
unfolding head_of tail_of data_of
created-Represents heap = record {
  nodes = [];
  chain = refl;
  distinct = tt;
  queue_is = refl;
  items_are = refl;
}

-- On a queue that `create_queue` made, any calls of push, pop and shutdown, those of several threads in any
-- order, answer as a first-in first-out list does that can be closed, and the linked nodes hold its items
-- in the end, when each `malloc` answers NULL or an address at which nothing stands: pushing onto a closed
-- queue is refused, popping an empty one waits while it is open and gives NULL once it is closed, what
-- was pushed comes out in order also after the closing, and no NULL or freed node is read.
pub create_queue-run :
    (heap : Heap) (q : Queue) (calls : List Call)
    → create_queue true true true heap ≡ some q
    → AllFresh calls q
    → ((run_queue calls q).0 ≡ (run_fifo calls empty_fifo).0)
      × Represents (run_queue calls q).1 (run_fifo calls empty_fifo).1
unfolding create_queue
create_queue-run heap q calls e fresh =
    let start : record { head = none; tail = none; size = 0; is_shutdown = false; heap = heap }
        ≡ q =
      cc e in
    run-Represents calls q empty_fifo
      (subst (λ (p : Queue). Represents p empty_fifo) start (created-Represents heap)) fresh
