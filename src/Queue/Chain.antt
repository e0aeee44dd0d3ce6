-- ===== src/Queue/Chain.antt =====
-- src/core/queue.c: the nodes on the heap, a chain from the head to NULL through different addresses.
use fman.Prelude.{ℕ, ◌≡◌, ◌≢◌, refl, sym, ◌∙◌, List, [], ◌∷◌, ◌++◌, Option, none, some, arith}
use fman.Queue.{QueueNode, Heap, write}

-- Each node with its address and its data.
abbrev pub Nodes : Type 0
Nodes = List (ℕ × ℕ)

abbrev pub node_of : ℕ → Option ℕ → QueueNode
node_of d next = record { data_ptr = d; next = next }

-- The pointer `p` leads through the nodes, in order, to NULL.
abbrev pub Chain : Heap → Option ℕ → Nodes → Type 0
Chain heap p [] = p ≡ none
Chain heap p ((a, d) ∷ rest) =
    (next : Option ℕ) × (p ≡ some a) × (heap a ≡ some (node_of d next)) × Chain heap next rest

abbrev pub Absent : ℕ → Nodes → Type 0
Absent a [] = Unit {0}
Absent a ((b, _) ∷ rest) = (b ≢ a) × Absent a rest

abbrev pub Distinct : Nodes → Type 0
Distinct [] = Unit {0}
Distinct ((a, _) ∷ rest) = Absent a rest × Distinct rest

pub write-same : (heap : Heap) (p : ℕ) (cell : Option QueueNode) → write heap p cell p ≡ cell
unfolding write
write-same heap p cell = ground arith

pub write-other :
    (heap : Heap) (p a : ℕ) (cell : Option QueueNode) → a ≢ p → write heap p cell a ≡ heap a
unfolding write
write-other heap p a cell ne = ground arith

-- Writing elsewhere.
pub Chain-write :
    (heap : Heap) (p : ℕ) (cell : Option QueueNode) (start : Option ℕ) (nodes : Nodes)
    → Absent p nodes
    → Chain heap start nodes
    → Chain (write heap p cell) start nodes
Chain-write heap p cell start [] ab c = c
Chain-write heap p cell start ((a, d) ∷ rest) (ne, ab) (next, s, at, c) =
    (next, s, write-other heap p a cell ne ∙ at, Chain-write heap p cell next rest ab c)

-- A free address is not in the chain.
pub Absent-free :
    (heap : Heap) (p : ℕ) (start : Option ℕ) (nodes : Nodes)
    → heap p ≡ none
    → Chain heap start nodes
    → Absent p nodes
Absent-free heap p start [] free c = tt
Absent-free heap p start ((a, d) ∷ rest) free (next, s, at, c) =
    (λ e. cc (e, free, at), Absent-free heap p next rest free c)

pub Absent-append :
    (a : ℕ) (nodes more : Nodes) → Absent a nodes → Absent a more → Absent a (nodes ++ more)
Absent-append a [] more h k = k
Absent-append a (n ∷ nodes) more (ne, h) k = (ne, Absent-append a nodes more h k)

pub Distinct-snoc :
    (nodes : Nodes) (p d : ℕ) → Distinct nodes → Absent p nodes → Distinct (nodes ++ (p, d) ∷ [])
Distinct-snoc [] p d h k = (tt, tt)
Distinct-snoc ((a, _) ∷ nodes) p d (ab, h) (ne, k) =
    (Absent-append a nodes ((p, d) ∷ []) ab (λ e. ne (sym e), tt), Distinct-snoc nodes p d h k)

-- The address of the last node.
unfoldable pub last_of : ℕ → Nodes → ℕ
last_of a [] = a
last_of a ((b, _) ∷ rest) = last_of b rest

pub last_of-snoc : (a : ℕ) (nodes : Nodes) (p d : ℕ) → last_of a (nodes ++ (p, d) ∷ []) ≡ p
unfolding last_of
last_of-snoc a [] p d = refl
last_of-snoc a ((b, _) ∷ rest) p d = last_of-snoc b rest p d

last_of-Absent : (a b : ℕ) (rest : Nodes) → b ≢ a → Absent a rest → last_of b rest ≢ a
unfolding last_of
last_of-Absent a b [] ne ab = ne
last_of-Absent a b ((c, _) ∷ rest) ne (ne', ab) = last_of-Absent a c rest ne' ab

-- Linking the node at `p` behind the last node of a chain.
pub Chain-link :
    (heap : Heap) (start : Option ℕ) (a d : ℕ) (rest : Nodes) (p x : ℕ)
    → Chain heap start ((a, d) ∷ rest)
    → Distinct ((a, d) ∷ rest)
    → Absent p ((a, d) ∷ rest)
    → heap p ≡ some (node_of x none)
    → (n : QueueNode) × (heap (last_of a rest) ≡ some n)
      × Chain
          (write heap (last_of a rest) (some (record n { next = some p })))
          start
          ((a, d) ∷ (rest ++ (p, x) ∷ []))
unfolding last_of
Chain-link heap start a d [] p x (next, s, at, c) dist (ne, ab) new = (
  node_of d next,
  at,
  (
    some p,
    s,
    write-same heap a _,
    (none, refl, write-other heap a p _ (λ e. ne (sym e)) ∙ new, refl),
  ),
)
Chain-link heap start a d ((b, e) ∷ rest) p x (next, s, at, c) ((ne, ab), dist) (nep, abp) new =
    let (n, at', c') = Chain-link heap next b e rest p x c dist abp new in
    (
      n,
      at',
      (next, s, write-other heap _ a _ (λ h. last_of-Absent a b rest ne ab (sym h)) ∙ at, c'),
    )
