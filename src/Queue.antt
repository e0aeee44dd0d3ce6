-- ===== src/Queue.antt =====
-- include/core/queue.h and src/core/queue.c. A node's address is a number, and the heap says what stands at
-- it. What runs under the queue's lock is one step. `malloc` answers with an address or NULL, and a
-- wait that cannot end yet is the answer `blocked`. A read through a NULL or freed pointer is `crashed`.
pub mod Chain
pub mod Fifo
pub mod Runs
pub mod Destroy
pub mod Tests
use fman.Prelude.{
  ℕ, zero, suc, ◌+◌, ◌-◌, Bool, true, false, not, ◌&&◌, Option, none, some, ◌==◌, if◌then◌else◌,
}

pub record QueueNode : Type 0 where
  pub data_ptr : ℕ
  pub next : Option ℕ

abbrev pub Heap : Type 0
Heap = ℕ → Option QueueNode

-- The heap with `cell` at the address `p`.
pub write : Heap → ℕ → Option QueueNode → Heap
write heap p cell a = if a == p then cell else heap a

pub record Queue : Type 0 where
  pub head : Option ℕ
  pub tail : Option ℕ
  pub size : ℕ
  pub is_shutdown : Bool
  pub heap : Heap

abbrev pub queue_success : ℕ
queue_success = 1

abbrev pub queue_error : ℕ
queue_error = 0

pub data Answer : Type 0 where
  pushed : ℕ → Answer
  popped : Option ℕ → Answer
  blocked crashed closed : Answer

-- The answers are those of `malloc`, `pthread_mutex_init` and `pthread_cond_init`.
unfoldable pub create_queue : Bool → Bool → Bool → Heap → Option Queue
create_queue true true true heap =
    some (record { head = none; tail = none; size = 0; is_shutdown = false; heap = heap })
create_queue _ _ _ heap = none

-- `q->tail->next = qn; q->tail = qn;`, where `cell` stands at the tail.
link_behind : Option ℕ → Option QueueNode → ℕ → Queue → Answer × Queue
link_behind (some t) (some n) qn q = (
  pushed queue_success,
  record q {
    heap = write q.heap t (some (record n { next = some qn }));
    tail = some qn;
    size = q.size + 1;
  },
)
link_behind _ _ qn q = (crashed, q)

abbrev pub cell_at : Heap → Option ℕ → Option QueueNode
cell_at heap none = none
cell_at heap (some p) = heap p

link : Option ℕ → ℕ → Queue → Answer × Queue
link none qn q =
    (pushed queue_success, record q { head = some qn; tail = some qn; size = q.size + 1 })
link (some _) qn q = link_behind q.tail (cell_at q.heap q.tail) qn q

-- The data and the new node's address may be NULL. The queue is not.
unfoldable pub queue_push : Option ℕ → Option ℕ → Queue → Answer × Queue
unfolding write link link_behind
queue_push (some data_ptr) (some qn) q =
    let node : QueueNode = record { data_ptr = data_ptr; next = none } in
    let q' = record q { heap = write q.heap qn (some node) } in
    if q.is_shutdown
    then (pushed queue_error, record q' { heap = write q'.heap qn none })
    else link q.head qn q'
queue_push _ _ q = (pushed queue_error, q)

-- The head's node is read, unlinked and freed.
unlink : Option ℕ → Option QueueNode → Queue → Answer × Queue
unlink (some p) (some n) q = (
  popped (some n.data_ptr),
  record q {
    head = n.next;
    tail = elim n.next [ none ↦ none | some _ ↦ q.tail ];
    size = q.size - 1;
    heap = write q.heap p none;
  },
)
unlink _ _ q = (crashed, q)

unfoldable pub queue_pop : Queue → Answer × Queue
unfolding write unlink
queue_pop q =
    if q.size == 0 && not q.is_shutdown
    then (blocked, q)
    else if q.is_shutdown && q.size == 0
    then (popped none, q)
    else unlink q.head (cell_at q.heap q.head) q

unfoldable pub queue_shutdown : Queue → Answer × Queue
queue_shutdown q = (closed, record q { is_shutdown = true })

-- The loop of `destroy_queue`, with at most `fuel` nodes.
pub free_nodes : ℕ → Option ℕ → Option QueueNode → Heap → Heap
free_nodes (suc fuel) (some current) (some n) heap =
    let heap' = write heap current none in free_nodes fuel n.next (cell_at heap' n.next) heap'
free_nodes _ _ _ heap = heap

-- The heap that is left.
pub destroy_queue : Queue → Heap
destroy_queue q = free_nodes q.size q.head (cell_at q.heap q.head) q.heap
