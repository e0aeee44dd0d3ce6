-- ===== src/Queue/Fifo.antt =====
-- src/core/queue.c beside a first-in first-out list that can be closed.
use fman.Prelude.{
  ℕ, suc, ◌+◌, ◌≡◌, refl, sym, ap, Bool, true, false, List, [], ◌∷◌, ◌++◌, Option, none, some, ◌==◌,
  if◌then◌else◌, arith, length, length-append, subst,
}
use fman.Queue.{
  Heap, write, Queue, queue_success, queue_error, Answer, pushed, popped, blocked, closed,
  link_behind, link, queue_push, unlink, queue_pop,
}
use fman.Queue.Chain.{
  Nodes, node_of, Chain, Distinct, write-same, Chain-write, Absent-free, Distinct-snoc, last_of,
  last_of-snoc, Chain-link,
}

-- What stands in the queue, the oldest first, and whether it is closed.
pub record Fifo : Type 0 where
  pub items : List ℕ
  pub is_closed : Bool

unfoldable pub data_of : Nodes → List ℕ
data_of [] = []
data_of ((_, d) ∷ rest) = d ∷ data_of rest

unfoldable pub head_of : Nodes → Option ℕ
head_of [] = none
head_of ((a, _) ∷ rest) = some a

unfoldable pub tail_of : Nodes → Option ℕ
unfolding last_of
tail_of [] = none
tail_of ((a, _) ∷ rest) = some (last_of a rest)

abbrev pub queue_of : Nodes → Bool → Heap → Queue
queue_of nodes is_shutdown heap = record {
  head = head_of nodes;
  tail = tail_of nodes;
  size = length nodes;
  is_shutdown = is_shutdown;
  heap = heap;
}

abbrev pub fifo_of : Nodes → Bool → Fifo
fifo_of nodes is_shutdown = record { items = data_of nodes; is_closed = is_shutdown }

-- The queue holds the items: its nodes are a chain of different addresses from the head, the tail is the
-- last of them, the size is their number, and it is shut down when the list is closed.
pub record Represents (q : Queue) (f : Fifo) : Type 0 where
  pub nodes : Nodes
  pub chain : Chain q.heap (head_of nodes) nodes
  pub distinct : Distinct nodes
  pub queue_is : queue_of nodes q.is_shutdown q.heap ≡ q
  pub items_are : fifo_of nodes q.is_shutdown ≡ f

-- What callers of the queue are promised.
unfoldable pub push_step : Option ℕ → Option ℕ → Fifo → Answer × Fifo
push_step (some d) (some _) f =
    if f.is_closed
    then (pushed queue_error, f)
    else (pushed queue_success, record f { items = f.items ++ d ∷ [] })
push_step _ _ f = (pushed queue_error, f)

unfoldable pub pop_step : Fifo → Answer × Fifo
pop_step f = elim f.items [
  | [] ↦ (if f.is_closed then popped none else blocked, f)
  | d ∷ rest ↦ (popped (some d), record f { items = rest })
]

unfoldable pub shutdown_step : Fifo → Answer × Fifo
shutdown_step f = (closed, record f { is_closed = true })

-- The answers are the same, and the states still correspond.
pub record Agree (out : Answer × Queue) (spec : Answer × Fifo) : Type 0 where
  pub same_answer : out.0 ≡ spec.0
  pub represents : Represents out.1 spec.1

Chain-head : (heap : Heap) (p : Option ℕ) (nodes : Nodes) → Chain heap p nodes → p ≡ head_of nodes
unfolding head_of
Chain-head heap p [] c = c
Chain-head heap p ((a, d) ∷ rest) (next, s, at, c) = s

-- A step that leaves these nodes.
pub leaves :
    (answer : Answer) (q : Queue) (nodes : Nodes)
    → Chain q.heap (head_of nodes) nodes
    → Distinct nodes
    → queue_of nodes q.is_shutdown q.heap ≡ q
    → Agree (answer, q) (answer, fifo_of nodes q.is_shutdown)
leaves answer q nodes c d e = record {
  same_answer = refl;
  represents = record { nodes = nodes; chain = c; distinct = d; queue_is = e; items_are = refl };
}

unlinked :
    (rest : Nodes) (is_shutdown : Bool) (heap : Heap) (a d size : ℕ) (next : Option ℕ)
    → next ≡ head_of rest
    → size ≡ length rest
    → queue_of rest is_shutdown heap ≡ record {
      head = next;
      tail = elim next [ none ↦ none | some _ ↦ tail_of ((a, d) ∷ rest) ];
      size = size;
      is_shutdown = is_shutdown;
      heap = heap;
    }
unfolding head_of tail_of
unlinked [] is_shutdown heap a d size next e n = rw (e, n) refl
unlinked ((b, x) ∷ rest) is_shutdown heap a d size next e n = rw (e, n) refl

unlink-nodes :
    (a d : ℕ) (rest : Nodes) (is_shutdown : Bool) (heap : Heap)
    → Chain heap (some a) ((a, d) ∷ rest)
    → Distinct ((a, d) ∷ rest)
    → Agree
        (unlink (some a) (heap a) (queue_of ((a, d) ∷ rest) is_shutdown heap))
        (popped (some d), fifo_of rest is_shutdown)
unfolding unlink
unlink-nodes a d rest is_shutdown heap (next, s, at, c) (ab, dist) =
    let start : next ≡ head_of rest = Chain-head heap next rest c in
    let c' =
      Chain-write heap a none (head_of rest) rest ab
        (subst (λ (p : Option ℕ). Chain heap p rest) start c) in
    rw at (
      leaves (popped (some d)) _ rest c' dist
        (unlinked rest is_shutdown _ a d _ next start (omega arith)))

not_empty : (n : ℕ) → (suc n == 0) ≡ false
not_empty n = ground arith

pub pop-nodes :
    (nodes : Nodes) (is_shutdown : Bool) (heap : Heap)
    → Chain heap (head_of nodes) nodes
    → Distinct nodes
    → Agree (queue_pop (queue_of nodes is_shutdown heap)) (pop_step (fifo_of nodes is_shutdown))
unfolding queue_pop pop_step head_of tail_of data_of unlink
pop-nodes [] true heap c dist = leaves (popped none) (queue_of [] true heap) [] c dist refl
pop-nodes [] false heap c dist = leaves blocked (queue_of [] false heap) [] c dist refl
pop-nodes ((a, d) ∷ rest) true heap c dist =
    rw (not_empty (length rest)) (unlink-nodes a d rest true heap c dist)
pop-nodes ((a, d) ∷ rest) false heap c dist =
    rw (not_empty (length rest)) (unlink-nodes a d rest false heap c dist)

linked :
    (rest : Nodes) (is_shutdown : Bool) (heap : Heap) (a x p d : ℕ)
    → queue_of ((a, x) ∷ (rest ++ (p, d) ∷ [])) is_shutdown heap ≡ record {
      head = some a;
      tail = some p;
      size = length ((a, x) ∷ rest) + 1;
      is_shutdown = is_shutdown;
      heap = heap;
    }
unfolding head_of tail_of
linked rest is_shutdown heap a x p d =
    let n : suc (length (rest ++ (p, d) ∷ [])) ≡ suc (length rest) + 1 =
      omega (arith, length-append rest ((p, d) ∷ [])) in
    rw (last_of-snoc a rest p d, n) refl

data_of-snoc : (nodes : Nodes) (p d : ℕ) → data_of (nodes ++ (p, d) ∷ []) ≡ data_of nodes ++ d ∷ []
unfolding data_of
data_of-snoc [] p d = refl
data_of-snoc ((_, x) ∷ rest) p d = ap (◌∷◌ x) (data_of-snoc rest p d)

module _ (d qn : ℕ) where
  allocated : Heap → Heap
  allocated heap = write heap qn (some (node_of d none))

  pub push-nodes :
      (nodes : Nodes) (is_shutdown : Bool) (heap : Heap)
      → heap qn ≡ none
      → Chain heap (head_of nodes) nodes
      → Distinct nodes
      → Agree
          (queue_push (some d) (some qn) (queue_of nodes is_shutdown heap))
          (push_step (some d) (some qn) (fifo_of nodes is_shutdown))
  unfolding queue_push push_step link link_behind head_of tail_of data_of allocated
  push-nodes nodes true heap free c dist =
      let ab = Absent-free heap qn (head_of nodes) nodes free c in
      let c' =
        Chain-write (allocated heap) qn none _ nodes ab (Chain-write heap qn _ _ nodes ab c) in
      leaves (pushed queue_error) _ nodes c' dist refl
  push-nodes [] false heap free c dist =
      leaves (pushed queue_success) _ ((qn, d) ∷ []) (none, refl, write-same heap qn _, refl)
        (tt, tt) refl
  push-nodes ((a, x) ∷ rest) false heap free c dist =
      let nodes = (a, x) ∷ rest in
      let ab = Absent-free heap qn (some a) nodes free c in
      let (n, at, c') =
        Chain-link (allocated heap) (some a) a x rest qn d (Chain-write heap qn _ _ nodes ab c) dist
          ab (write-same heap qn _) in
      rw (at, sym (data_of-snoc nodes qn d))
        (leaves (pushed queue_success) _ (nodes ++ (qn, d) ∷ []) c'
          (Distinct-snoc nodes qn d dist ab) (linked rest false _ a x qn d))
