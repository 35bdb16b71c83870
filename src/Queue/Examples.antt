-- ===== src/Queue/Examples.antt =====
-- Two queues on one heap: the functions of rsocket/src/queue.cpp at work.
use ffrdma.Common.{ℕ, ◌≡◌, refl, some, none, [], ◌∷◌, ◌==◌, if◌then◌else◌, arith}
use ffrdma.Queue.{
  destroy_loop, Heap, Node, node, write, Queue, queue_push, queue_pop, queue_push_q, queue_reset,
  queue_destroy,
}
use ffrdma.Queue.Chain.{Cells, Fresh}
use ffrdma.Queue.Laws.{
  IsQueue, SameElsewhere, Gone, queue_push-append, queue_pop-cons, queue_push_q-append,
  queue_destroy_frees,
}

-- The nodes 1 and 2 are a queue, and node 3 another.
abbrev heap : Heap
heap a =
    if a == 1
    then some (node 100 2)
    else (if a == 2 then some (node 200 0) else (if a == 3 then some (node 300 0) else none))

abbrev two : Queue
two = record { head = 1; tail = 2; node_num = 2 }

abbrev one : Queue
one = record { head = 3; tail = 3; node_num = 1 }

abbrev two_cells : Cells
two_cells = (1, 100) ∷ ((2, 200) ∷ [])

abbrev one_cell : Cells
one_cell = (3, 300) ∷ []

two-IsQueue : IsQueue heap two two_cells
two-IsQueue = record {
  chain = (
    2,
    refl,
    (λ e. omega arith),
    refl,
    ((λ e. omega arith), tt),
    (0, refl, (λ e. omega arith), refl, tt, refl),
  );
  last = refl;
  count = refl;
}

one-IsQueue : IsQueue heap one one_cell
one-IsQueue = record {
  chain = (0, refl, (λ e. omega arith), refl, tt, refl);
  last = refl;
  count = refl;
}

abbrev junk : Node
junk = node 77 78

queue_push-append_example :
    (queue' : Queue) × (g : Heap) × (queue_push 9 junk two 400 heap ≡ some (queue', g))
    × IsQueue g queue' ((1, 100) ∷ ((2, 200) ∷ ((9, 400) ∷ [])))
    × SameElsewhere 9 two_cells heap g
queue_push-append_example =
    queue_push-append heap two two_cells 9 400 junk two-IsQueue (λ e. omega arith)
      ((λ e. omega arith), ((λ e. omega arith), tt))

queue_pop-cons_example :
    (queue' : Queue) × (queue_pop two heap ≡ some ((100, queue'), write heap 1 none))
    × IsQueue (write heap 1 none) queue' ((2, 200) ∷ [])
queue_pop-cons_example = queue_pop-cons heap two 1 100 ((2, 200) ∷ []) two-IsQueue

queue_push_q-append_example :
    (queue' : Queue) × (g : Heap) × (queue_push_q two one heap ≡ some (queue', g))
    × IsQueue g queue' ((1, 100) ∷ ((2, 200) ∷ ((3, 300) ∷ [])))
    × IsQueue g (queue_reset one) []
queue_push_q-append_example =
    queue_push_q-append heap two one two_cells one_cell two-IsQueue one-IsQueue
      (((λ e. omega arith), tt), (((λ e. omega arith), tt), tt))

queue_destroy_frees_example :
    (queue' : Queue) × (g : Heap) × (destroy_loop 3 two heap ≡ some (queue', g))
    × Gone two_cells g
    × ((x : ℕ) → Fresh x two_cells → g x ≡ heap x)
    × (queue_destroy two heap ≡ none)
queue_destroy_frees_example =
    queue_destroy_frees heap two two_cells two-IsQueue
      ((λ e. omega arith), ((λ e. omega arith), tt))
