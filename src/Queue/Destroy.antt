-- ===== src/Queue/Destroy.antt =====
-- `destroy_queue` of src/core/queue.c.
use fman.Prelude.{ℕ, ◌≡◌, refl, sym, ◌∙◌, [], ◌∷◌, Option, none, length, subst}
use fman.Queue.{Queue, Heap, write, free_nodes, destroy_queue, cell_at}
use fman.Queue.Chain.{Nodes, Chain, Absent, Distinct, write-same, write-other, Chain-write}
use fman.Queue.Fifo.{Fifo, Represents, head_of}

-- Nothing stands at the nodes' addresses.
abbrev pub AllFreed : Nodes → Heap → Type 0
AllFreed [] heap = Unit {0}
AllFreed ((a, _) ∷ rest) heap = (heap a ≡ none) × AllFreed rest heap

-- The nodes are freed, and what stands elsewhere stays.
pub record Frees (nodes : Nodes) (before after : Heap) : Type 0 where
  pub freed : AllFreed nodes after
  pub kept : (a : ℕ) → Absent a nodes → after a ≡ before a

free_nodes-Frees :
    (heap : Heap) (start : Option ℕ) (nodes : Nodes)
    → Chain heap start nodes
    → Distinct nodes
    → Frees nodes heap (free_nodes (length nodes) start (cell_at heap start) heap)
unfolding free_nodes
free_nodes-Frees heap start [] c dist = record { freed = tt; kept = λ a ab. refl }
free_nodes-Frees heap start ((a, d) ∷ rest) (next, s, at, c) (ab, dist) =
    let heap' = write heap a none in
    let ih = free_nodes-Frees heap' next rest (Chain-write heap a none next rest ab c) dist in
    rw (s, at)
      (record {
        freed = (ih.kept a ab ∙ write-same heap a none, ih.freed);
        kept = λ b (ne, abs). ih.kept b abs ∙ write-other heap a b none (λ e. ne (sym e));
      })

-- Destroying a queue that holds a list frees every one of its nodes, and leaves what stands at other
-- addresses.
pub destroy_queue-Frees :
    (q : Queue) (f : Fifo) (r : Represents q f) → Frees r.nodes q.heap (destroy_queue q)
unfolding destroy_queue head_of
destroy_queue-Frees q f r =
    subst (λ (p : Queue). Frees r.nodes p.heap (destroy_queue p)) r.queue_is
      (free_nodes-Frees q.heap (head_of r.nodes) r.nodes r.chain r.distinct)
