-- ===== src/Queue/Laws.antt =====
-- rsocket/src/queue.cpp is a first-in first-out queue: what a queue and its heap stand for, and what
-- each function does to it.
use ffrdma.Common.{
  ℕ, zero, suc, ◌+◌, ◌-◌, ◌≡◌, refl, ◌≢◌, sym, ◌∙◌, Option, some, [], ◌∷◌, ◌++◌, arith, ◌==◌, ne→==,
  ==-refl, false, length, length-append, append-nil, ◌<◌,
}
use ffrdma.Queue.{
  Heap, Node, node, write, Queue, load, alloc, set_buffer, set_next, free, queue_push, queue_pop,
  queue_push_q, queue_reset, queue_destroy, destroy_loop,
}
use ffrdma.Queue.Chain.{Cells, Fresh, Disjoint, Chain, last_addr, Fresh-last, frame, append, link}

pub record IsQueue (h : Heap) (queue : Queue) (cs : Cells) : Type 0 where
  pub chain : Chain h queue.head 0 cs
  pub last : queue.tail ≡ last_addr 0 cs
  pub count : queue.node_num ≡ length cs

-- The heap changes at most at `a` and at the cells.
abbrev pub SameElsewhere : ℕ → Cells → Heap → Heap → Type 0
SameElsewhere a cs h g = (x : ℕ) → x ≢ a → Fresh x cs → g x ≡ h x

module _ (p : ℕ) (n : Node) (h : Heap) (nz : p ≢ 0) (at : h p ≡ some n) where
  load-ok : load p h ≡ some (n, h)
  unfolding load
  load-ok = rw (ne→== p 0 nz, at)

  set_next-ok : (q : ℕ) → set_next p q h ≡ some (tt, write h p (some (node n.buffer q)))
  unfolding set_next
  set_next-ok q = rw load-ok

  set_buffer-ok : (b : ℕ) → set_buffer p b h ≡ some (tt, write h p (some (node b n.next)))
  unfolding set_buffer
  set_buffer-ok b = rw load-ok

  free-ok : free p h ≡ some (tt, write h p Option.none)
  unfolding free
  free-ok = rw load-ok

alloc-ok : (p : ℕ) (n : Node) (h : Heap) → p ≢ 0 → alloc p n h ≡ some (tt, write h p (some n))
unfolding alloc
alloc-ok p n h nz = rw (ne→== p 0 nz)

write_self : (h : Heap) (p : ℕ) (n : Option Node) → write h p n p ≡ n
write_self h p n = rw (==-refl p)

write_ne : (h : Heap) (p x : ℕ) (n : Option Node) → x ≢ p → write h p n x ≡ h x
write_ne h p x n ne = rw (ne→== x p ne)

module _ (h : Heap) (fresh b : ℕ) (junk : Node) (nz : fresh ≢ 0) where
  abbrev h₁ : Heap
  h₁ = write h fresh (some junk)

  abbrev h₂ : Heap
  h₂ = write h₁ fresh (some (node b junk.next))

  made : alloc fresh junk h ≡ some (tt, h₁)
  made = alloc-ok fresh junk h nz

  filled : set_buffer fresh b h₁ ≡ some (tt, h₂)
  filled = set_buffer-ok fresh junk h₁ nz (write_self h fresh (some junk)) b

  ended :
      (g : Heap)
      → g fresh ≡ some (node b junk.next)
      → set_next fresh 0 g ≡ some (tt, write g fresh (some (node b 0)))
  ended g at = set_next-ok fresh (node b junk.next) g nz at 0

Disjoint-one : (a b : ℕ) (cs : Cells) → Fresh a cs → Disjoint cs ((a, b) ∷ [])
Disjoint-one a b [] f = tt
Disjoint-one a b (c ∷ cs) f = (((λ e. f.0 (sym e)), tt), Disjoint-one a b cs f.1)

last_addr-append : (d : ℕ) (cs : Cells) (a b : ℕ) → last_addr d (cs ++ ((a, b) ∷ [])) ≡ a
last_addr-append d [] a b = refl
last_addr-append d ((p, w) ∷ cs) a b = last_addr-append p cs a b

-- With an unused address from malloc, queue_push succeeds and puts the buffer behind all others; it
-- changes the new node and the nodes of the queue alone.
pub queue_push-append :
    (h : Heap) (queue : Queue) (cs : Cells) (fresh b : ℕ) (junk : Node)
    → IsQueue h queue cs
    → fresh ≢ 0
    → Fresh fresh cs
    → (queue' : Queue) × (g : Heap) × (queue_push fresh junk queue b h ≡ some (queue', g))
      × IsQueue g queue' (cs ++ ((fresh, b) ∷ []))
      × SameElsewhere fresh cs h g
unfolding queue_push
queue_push-append h queue [] fresh b junk is nz out =
    let g₁ = h₁ h fresh b junk nz in
    let g₂ = h₂ h fresh b junk nz in
    let at₂ : g₂ fresh ≡ some (node b junk.next) = write_self g₁ fresh (some (node b junk.next)) in
    (
      record { head = fresh; tail = fresh; node_num = queue.node_num + 1 },
      write g₂ fresh (some (node b 0)),
      rw (made h fresh b junk nz)
          (rw (filled h fresh b junk nz, is.last) (rw (ended h fresh b junk nz g₂ at₂))),
      record {
        chain = (0, refl, nz, write_self g₂ fresh (some (node b 0)), tt, refl);
        last = refl;
        count = omega (arith, is.count);
      },
      λ x ne f. ground (arith, ne),
    )
queue_push-append h queue ((a, v) ∷ cs) fresh b junk is nz out =
    let g₁ = h₁ h fresh b junk nz in
    let g₂ = h₂ h fresh b junk nz in
    let at₂ : g₂ fresh ≡ some (node b junk.next) = write_self g₁ fresh (some (node b junk.next)) in
    let t = last_addr a cs in
    let c₁ = frame h fresh (some junk) queue.head 0 ((a, v) ∷ cs) out is.chain in
    let c₂ =
      frame (h₁ h fresh b junk nz) fresh (some (node b junk.next)) queue.head 0 ((a, v) ∷ cs) out
        c₁ in
    let (w, tz, at, chain) = link g₂ queue.head a v fresh cs c₂ in
    let apart : t ≢ fresh = λ e. Fresh-last fresh a v cs out (sym e) in
    let g₃ = write g₂ t (some (node w fresh)) in
    let at₃ : g₃ fresh ≡ some (node b junk.next) =
      write_ne g₂ t fresh (some (node w fresh)) (λ e. apart (sym e)) ∙ at₂ in
    (
      record { head = queue.head; tail = fresh; node_num = queue.node_num + 1 },
      write g₃ fresh (some (node b 0)),
      rw (made h fresh b junk nz) (
          rw (filled h fresh b junk nz, is.last, ne→== t 0 tz)
            (rw (set_next-ok t (node w 0) g₂ tz at fresh) (rw (ended h fresh b junk nz g₃ at₃)))),
      record {
        chain =
            append (write g₃ fresh (some (node b 0))) queue.head fresh 0 ((a, v) ∷ cs)
              ((fresh, b) ∷ []) (Disjoint-one fresh b ((a, v) ∷ cs) out)
              (frame g₃ fresh (some (node b 0)) queue.head fresh ((a, v) ∷ cs) out chain)
              (0, refl, nz, write_self g₃ fresh (some (node b 0)), tt, refl);
        last = sym (last_addr-append 0 ((a, v) ∷ cs) fresh b);
        count = omega (arith, is.count, length-append ((a, v) ∷ cs) ((fresh, b) ∷ []));
      },
      λ x ne f. let other = Fresh-last x a v cs f in ground (arith, ne, other),
    )

pub queue_pop-nil :
    (h : Heap) (queue : Queue) → IsQueue h queue [] → queue_pop queue h ≡ some ((0, queue), h)
unfolding queue_pop
queue_pop-nil h queue is = rw (is.chain)

-- queue_pop returns the buffer that has waited longest and frees its node, and no other; what is
-- left is the rest of the queue.
pub queue_pop-cons :
    (h : Heap) (queue : Queue) (a b : ℕ) (cs : Cells)
    → IsQueue h queue ((a, b) ∷ cs)
    → (queue' : Queue) × (queue_pop queue h ≡ some ((b, queue'), write h a Option.none))
      × IsQueue (write h a Option.none) queue' cs
unfolding queue_pop
queue_pop-cons h queue a b [] is =
    let (q, e, nz, at, fr, end) = is.chain in
    (
      record { head = q; tail = 0; node_num = queue.node_num - 1 },
      rw (e, ne→== a 0 nz)
          (rw (load-ok a (node b q) h nz at) (rw (free-ok a (node b q) h nz at, end))),
      record { chain = end; last = refl; count = omega (arith, is.count) },
    )
queue_pop-cons h queue a b ((x, w) ∷ cs) is =
    let (q, e, nz, at, fr, rest) = is.chain in
    let (q', e', nz', at', fr', rest') = rest in
    let more : (q == 0) ≡ false = rw (e') (ne→== x 0 nz') in
    (
      record { head = q; tail = queue.tail; node_num = queue.node_num - 1 },
      rw (e, ne→== a 0 nz)
          (rw (load-ok a (node b q) h nz at) (rw (free-ok a (node b q) h nz at, more))),
      record {
        chain = frame h a Option.none q 0 ((x, w) ∷ cs) fr rest;
        last = is.last;
        count = omega (arith, is.count);
      },
    )

Disjoint-last : (a v : ℕ) (cs ds : Cells) → Disjoint ((a, v) ∷ cs) ds → Fresh (last_addr a cs) ds
Disjoint-last a v [] ds dis = dis.0
Disjoint-last a v ((x, w) ∷ cs) ds dis = Disjoint-last x w cs ds dis.1

last_addr_behind :
    (d : ℕ) (cs : Cells) (a b : ℕ) (ds : Cells) → last_addr d (cs ++ ((a, b) ∷ ds)) ≡ last_addr a ds
last_addr_behind d [] a b ds = refl
last_addr_behind d ((p, w) ∷ cs) a b ds = last_addr_behind p cs a b ds

-- queue_push_q puts the buffers of a queue that shares no node behind those of the other, in order,
-- and queue_reset of the source leaves that one empty.
pub queue_push_q-append :
    (h : Heap) (de src : Queue) (cs ds : Cells)
    → IsQueue h de cs
    → IsQueue h src ds
    → Disjoint cs ds
    → (queue' : Queue) × (g : Heap) × (queue_push_q de src h ≡ some (queue', g))
      × IsQueue g queue' (cs ++ ds)
      × IsQueue g (queue_reset src) []
unfolding queue_push_q queue_reset
queue_push_q-append h de src cs [] is js dis = (
  record { head = de.head; tail = de.tail; node_num = de.node_num + src.node_num },
  h,
  rw (js.last),
  record {
    chain = rw (append-nil cs) (is.chain);
    last = rw (append-nil cs) (is.last);
    count = rw (append-nil cs) (omega (arith, is.count, js.count));
  },
  record { chain = refl; last = refl; count = refl },
)
queue_push_q-append h de src [] ((x, w) ∷ ds) is js dis =
    let (w', tz, at, chain) = link h src.head x w 0 ds js.chain in
    (
      record { head = src.head; tail = last_addr x ds; node_num = de.node_num + src.node_num },
      h,
      rw (js.last, ne→== (last_addr x ds) 0 tz, is.last),
      record { chain = js.chain; last = refl; count = omega (arith, is.count, js.count) },
      record { chain = refl; last = refl; count = refl },
    )
queue_push_q-append h de src ((a, v) ∷ cs) ((x, w) ∷ ds) is js dis =
    let (w', tz, at, chain) = link h src.head x w 0 ds js.chain in
    let (u, dz, at', chain') = link h de.head a v src.head cs is.chain in
    let t = last_addr a cs in
    let g = write h t (some (node u src.head)) in
    (
      record { head = de.head; tail = last_addr x ds; node_num = de.node_num + src.node_num },
      g,
      rw (js.last, ne→== (last_addr x ds) 0 tz, is.last, ne→== t 0 dz)
          (rw (set_next-ok t (node u 0) h dz at' src.head)),
      record {
        chain = append g de.head src.head 0 ((a, v) ∷ cs) ((x, w) ∷ ds) dis chain' (
            frame h t (some (node u src.head)) src.head 0 ((x, w) ∷ ds)
              (Disjoint-last a v cs ((x, w) ∷ ds) dis) js.chain);
        last = sym (last_addr_behind 0 ((a, v) ∷ cs) x w ds);
        count = omega (arith, is.count, js.count, length-append ((a, v) ∷ cs) ((x, w) ∷ ds));
      },
      record { chain = refl; last = refl; count = refl },
    )

-- Every cell's node is freed.
abbrev pub Gone : Cells → Heap → Type 0
Gone [] g = Unit {0}
Gone ((a, _) ∷ cs) g = (g a ≡ Option.none) × Gone cs g

-- No buffer is NULL.
abbrev pub NoNull : Cells → Type 0
NoNull [] = Unit {0}
NoNull ((_, b) ∷ cs) = (b ≢ 0) × NoNull cs

pub destroy_loop_frees :
    (fuel : ℕ) (h : Heap) (queue : Queue) (cs : Cells)
    → IsQueue h queue cs
    → NoNull cs
    → length cs < fuel
    → (queue' : Queue) × (g : Heap) × (destroy_loop fuel queue h ≡ some (queue', g))
      × Gone cs g
      × ((x : ℕ) → Fresh x cs → g x ≡ h x)
unfolding destroy_loop
destroy_loop_frees zero h queue cs is full lt = absurd (omega arith)
destroy_loop_frees (suc fuel) h queue [] is full lt =
    (queue, h, rw (queue_pop-nil h queue is), tt, λ x f. refl)
destroy_loop_frees (suc fuel) h queue ((a, b) ∷ cs) is full lt =
    let (queue', popped, is') = queue_pop-cons h queue a b cs is in
    let (last, g, ran, gone, same) =
      destroy_loop_frees fuel (write h a Option.none) queue' cs is' full.1 (omega arith) in
    let fresh : Fresh a cs = is.chain.4 in
    (
      last,
      g,
      rw (popped, ne→== b 0 full.0) ran,
      ((same a fresh ∙ write_self h a Option.none), gone),
      λ x f. same x f.1 ∙ write_ne h a x Option.none f.0,
    )

-- The loop of queue_destroy ends, after one round more than there are nodes, and frees every node of
-- the queue and nothing else, provided that no buffer in it is NULL; after it the queue is freed, and
-- the call faults at the unlock of the mutex in it.
pub queue_destroy_frees :
    (h : Heap) (queue : Queue) (cs : Cells)
    → IsQueue h queue cs
    → NoNull cs
    → (queue' : Queue) × (g : Heap) × (destroy_loop (queue.node_num + 1) queue h ≡ some (queue', g))
      × Gone cs g
      × ((x : ℕ) → Fresh x cs → g x ≡ h x)
      × (queue_destroy queue h ≡ Option.none)
unfolding queue_destroy
queue_destroy_frees h queue cs is full =
    let (queue', g, ran, gone, same) =
      destroy_loop_frees (queue.node_num + 1) h queue cs is full (omega (arith, is.count)) in
    (queue', g, ran, gone, same, rw ran refl)
