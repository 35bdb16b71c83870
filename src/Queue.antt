-- ===== src/Queue.antt =====
-- The linked queue of rsocket/src/queue.cpp over an explicit heap of nodes. An address is a number,
-- NULL is 0, and a buffer pointer is a number too. Each function runs under the queue's lock, so it
-- is one step here; queue_push_q locks only the queue that it appends to.
pub mod Chain
mod Examples
pub mod Laws
use ffrdma.Common.{
  ℕ, zero, suc, ◌+◌, ◌-◌, Bool, true, false, Option, none, some, ◌==◌, if◌then◌else◌,
}

pub record Node : Type 0 where
  pub buffer : ℕ
  pub next : ℕ

abbrev pub node : ℕ → ℕ → Node
node b q = record { buffer = b; next = q }

abbrev pub Heap : Type 0
Heap = ℕ → Option Node

pub record Queue : Type 0 where
  pub head : ℕ
  pub tail : ℕ
  pub node_num : ℕ

-- `none` is a fault: NULL or an address that holds no node is read, written or freed.
abbrev pub H : Type 0 → Type 0
H A = Heap → Option (A × Heap)

abbrev pub pure : {A : Type 0} → A → H A
pure a h = some (a, h)

module _ {A B : Type 0} where
  abbrev pub and_then : Option (A × Heap) → (A → H B) → Option (B × Heap)
  and_then none k = none
  and_then (some (a, h)) k = k a h

  infixl 5 ◌>>=◌ ◌>>◌
  abbrev pub ◌>>=◌ : H A → (A → H B) → H B
  m >>= k = λ h. and_then (m h) k

  abbrev pub ◌>>◌ : H A → H B → H B
  m >> n = m >>= λ _. n

abbrev pub write : Heap → ℕ → Option Node → Heap
write h p n a = if a == p then n else h a

abbrev at_node : Option Node → H Node
at_node none h = none
at_node (some n) h = some (n, h)

unfoldable pub load : ℕ → H Node
load p h = if p == 0 then none else at_node (h p) h

-- malloc of a node, whose fields are not set yet: `junk` is what they hold.
unfoldable pub alloc : ℕ → Node → H (Unit {0})
alloc p junk h = if p == 0 then none else some (tt, write h p (some junk))

unfoldable pub set_buffer : ℕ → ℕ → H (Unit {0})
unfolding load
set_buffer p b = do n ← load p; λ h. some (tt, write h p (some (node b n.next)))

unfoldable pub set_next : ℕ → ℕ → H (Unit {0})
unfolding load
set_next p q = do n ← load p; λ h. some (tt, write h p (some (node n.buffer q)))

unfoldable pub free : ℕ → H (Unit {0})
unfolding load
free p = do n ← load p; λ h. some (tt, write h p none)

unfoldable pub queue_init : Queue
queue_init = record { head = 0; tail = 0; node_num = 0 }

-- `fresh` is what malloc returns.
pub queue_push : (fresh : ℕ) (junk : Node) → Queue → ℕ → H Queue
queue_push fresh junk queue buffer = do
  alloc fresh junk
  set_buffer fresh buffer
  queue' ←
      (if queue.tail == 0
        then pure (record queue { head = fresh })
        else (set_next queue.tail fresh >> pure queue))
  set_next fresh 0
  pure (record queue' { tail = fresh; node_num = queue.node_num + 1 })

-- The buffer at the head, or NULL for an empty queue.
pub queue_pop : Queue → H (ℕ × Queue)
queue_pop queue = if queue.head == 0 then pure (0, queue) else (do
  old_head ← load queue.head
  free queue.head
  pure (
    old_head.buffer,
    record {
      head = old_head.next;
      tail = if old_head.next == 0 then 0 else queue.tail;
      node_num = queue.node_num - 1;
    },
  ))

-- while (queue_pop(queue) != NULL): rounds are bounded by fuel.
pub destroy_loop : ℕ → Queue → H Queue
destroy_loop zero queue = λ h. none
destroy_loop (suc fuel) queue = do
  (buffer, queue') ← queue_pop queue
  (let rest = destroy_loop fuel queue' in if buffer == 0 then pure queue' else rest)

-- free(queue): no queue is left.
abbrev pub free_queue : Queue → H (Option Queue)
free_queue queue = pure none

-- pthread_mutex_unlock on the mutex inside the queue, a fault where the queue is freed.
abbrev pub unlock : Option Queue → H (Unit {0})
unlock none h = none
unlock (some queue) h = some (tt, h)

-- The loop, free(queue), and the unlock behind it.
pub queue_destroy : Queue → H (Unit {0})
unfolding destroy_loop
queue_destroy queue = do
  queue' ← destroy_loop (queue.node_num + 1) queue
  owner ← free_queue queue'
  unlock owner

unfoldable pub queue_if_empty : Queue → Bool
queue_if_empty queue = queue.tail == 0

-- Both queues share the nodes of src afterwards, until src is reset.
pub queue_push_q : Queue → Queue → H Queue
queue_push_q de_queue src_queue =
    if src_queue.tail == 0
    then pure (record de_queue { node_num = de_queue.node_num + src_queue.node_num })
    else (do
      queue ←
          (if de_queue.tail == 0
            then pure (record de_queue { head = src_queue.head })
            else (set_next de_queue.tail src_queue.head >> pure de_queue))
      pure (record queue {
        tail = src_queue.tail;
        node_num = de_queue.node_num + src_queue.node_num;
      }))

unfoldable pub queue_reset : Queue → Queue
queue_reset queue = record { head = 0; tail = 0; node_num = 0 }

unfoldable pub num_of_queue : Queue → ℕ
num_of_queue queue = queue.node_num
