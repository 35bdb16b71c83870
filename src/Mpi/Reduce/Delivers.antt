-- ===== src/Mpi/Reduce/Delivers.antt =====
-- What RDMA_Reduce of src/mpi.cc computes at its root.
use ffrdma.Mpi.Memory.{patch, memcpy-ok, length-patch}
use ffrdma.Common.{
  eqb_ℤ_refl, ◌≢◌, subst, drop, length-take, le→leb, if◌then◌else◌, ◌/◌, some, ℤ, ℕ, suc, ◌+◌, ◌*◌,
  ◌≤◌, ◌<◌, ◌≡◌, refl, ap, ◌∙◌, inl, inr, true, Option, List, ◌∷◌, arith, pos, ◌==◌, length, take,
  Bool-cases, ==-false→ne,
}
use ffrdma.Mpi.Machine.{Bytes, Proc, CommView, pop_inbox}
use ffrdma.Mpi.Steps.{message, destroy-ok, recv-ok}
use ffrdma.Mpi.Loop.{bind, for_each_rule, Returns, returns, Finished}
use ffrdma.Mpi.Peers.{IsConnected}
use ffrdma.Mpi.Fan.{Arriving, Arriving-pop}
use ffrdma.Mpi.Reduce.Elements.{
  element, behind, IsSized, element-take, behind-take, behind-drop, elem_wise-Merged,
}
use ffrdma.Common.{sym, ne→==, ◌-◌}
use ffrdma.Mpi.Reduce.Folded.{
  IsKind, Does, take_in, folded, kind-layout, Does-chosen, folded_before, same_some,
}
use ffrdma.Mpi.Reduce.{
  scale, reduce_root, for_each, rdma_reduce, ElementOp, ElementOps, chosen, layout, reduce_round,
}

module _ (ops : ElementOps) (v : CommView) (peer : ℕ → ℕ) (conn : IsConnected v peer) (c size n : ℕ)
    (datatype op : ℤ) (e : ElementOp) (f : Bytes → Bytes → Option Bytes)
    (kind : layout ops datatype ≡ some (size, e)) (does : chosen e op ≡ f) (whole : n * size ≡ c)
    (elements : c / size ≡ n) (sized : IsSized f size) (block : ℕ → Bytes)
    (rest : ℕ → List (Option Bytes)) (room : ℕ) (fits : c ≤ room)
    (lengths : (q : ℕ) → q < v.size → length (block q) ≡ c) (own : ℕ → Bytes) (tail : Bytes)
    (results : ℕ → Bytes)
    (defined : (j : ℕ)
      → j < n
      → folded f v.rank (λ q. element size j (block q)) (own j) v.size ≡ some (results j))
    (live : List ℕ) where
  -- Before round k of the root.
  record Reduced (k : ℕ) (buf : Bytes) (s : Proc) : Type 0 where
    pub size_kept : length buf ≡ room
    pub result :
        (j : ℕ)
        → j < n
        → folded f v.rank (λ q. element size j (block q)) (own j) k ≡ some (element size j buf)
    pub rest_kept : behind size n buf ≡ tail
    pub arriving : Arriving v.size v.rank peer block rest k s.inbox
    pub alloc : s.live ≡ live

  -- No operation of round k is undefined.
  combines :
      (k : ℕ) (buf : Bytes) (s : Proc)
      → k < v.size
      → k ≢ v.rank
      → Reduced k buf s
      → (j : ℕ) → j < n
      → (x : Bytes) × (f (element size j buf) (element size j (block k)) ≡ some x)
  combines k buf s lt ne inv j j_lt =
      let part : ℕ → Bytes = λ q. element size j (block q) in
      let (y, at) =
        folded_before f v.rank part (own j) (v.size - suc k) (suc k) v.size (results j)
          (omega arith) (defined j j_lt) in
      (
        y,
        ap (take_in f (part k)) (sym (inv.result j j_lt))
            ∙ (ap
                  (λ b.
                    if b
                    then folded f v.rank part (own j) k
                    else take_in f (part k) (folded f v.rank part (own j) k))
                  (sym (ne→== k v.rank ne))
                ∙ at),
      )

  reduce_step :
      (k : ℕ) (buf : Bytes) (s : Proc)
      → 0 ≤ k
      → k < 0 + v.size
      → Reduced k buf s
      → Returns (Finished (Reduced (suc k))) (reduce_round ops v (pos c) datatype op k buf s)
  unfolding reduce_round
  reduce_step k buf s lo hi inv =
      let lt : k < v.size = omega arith in
      let len = lengths k lt in
      elim (Bool-cases (k == v.rank)) [
        | inl own_round ↦ rw own_round (
            returns (
              refl,
              record {
                size_kept = inv.size_kept;
                result = λ j j_lt. rw own_round (inv.result j j_lt);
                rest_kept = inv.rest_kept;
                arriving = λ q le q_lt ne. inv.arriving q (omega arith) q_lt ne;
                alloc = inv.alloc;
              },
            ))
        | inr other ↦
            let ne = ==-false→ne k v.rank other in
            let m = message s.next (block k) (pos (length (block k))) 0 true in
            let s₁ : Proc = record s {
              inbox = pop_inbox s.inbox (peer k) (rest k);
              live = s.next ∷ s.live;
              next = suc s.next;
            } in
            let in_buf : n * size ≤ length buf = omega (arith, inv.size_kept) in
            let in_msg : n * size ≤ length (block k) = omega (arith, len) in
            let (out, ran, merged) =
              elem_wise-Merged f size n buf (block k) sized in_buf in_msg
                (combines k buf s lt ne inv) in
            rw other (
              rw (conn.socket_eq k lt ne) (
                rw (recv-ok (peer k) (block k) (rest k) s (inv.arriving k (omega arith) lt ne)) (
                  rw
                    (
                      kind,
                      elements,
                      le→leb (n * size) (length buf) in_buf,
                      le→leb (n * size) (length (block k)) in_msg,
                    )
                    (rw (does, ran)
                      (rw (destroy-ok m s.live s₁ refl) (
                        returns (
                          refl,
                          record {
                            size_kept = merged.length_kept ∙ inv.size_kept;
                            result = λ j j_lt. rw other (
                                ap (take_in f (element size j (block k))) (inv.result j j_lt)
                                ∙ merged.merged j j_lt);
                            rest_kept = merged.rest ∙ inv.rest_kept;
                            arriving =
                                Arriving-pop v.size v.rank peer block rest k s.inbox conn.injective
                                  lt inv.arriving;
                            alloc = inv.alloc;
                          },
                        )))))))
      ]

  reduce_all :
      (buf : Bytes) (s : Proc)
      → Reduced 0 buf s
      → Returns
          (Finished (Reduced v.size))
          (for_each v.size 0 (reduce_round ops v (pos c) datatype op) buf s)
  reduce_all buf s inv =
      let total : 0 + v.size ≡ v.size = omega arith in
      subst
        (λ k.
          Returns (Finished (Reduced k))
            (for_each v.size 0 (reduce_round ops v (pos c) datatype op) buf s))
        total (for_each_rule Reduced _ v.size 0 reduce_step buf s inv)

-- At the root, for a type that the code combines, with sockets to all other ranks and n elements
-- arriving from each, where no operation on two elements is undefined and each keeps the element's
-- size: the call returns 0; element j of the receive buffer is the root's element j with that of
-- every other rank taken into it, one rank after another, by the sum, the least or the greatest of
-- two as `op` says; the bytes behind the elements and the buffer's length are unchanged; and every
-- message is freed.
pub reduce_delivers :
    (ops : ElementOps) (v : CommView) (peer : ℕ → ℕ) (c size n : ℕ) (count datatype op : ℤ)
    (e : ElementOp) (f : Bytes → Bytes → Option Bytes) (sendbuf recvbuf : Bytes) (block : ℕ → Bytes)
    (rest : ℕ → List (Option Bytes)) (results : ℕ → Bytes) (s : Proc)
    → IsConnected v peer
    → scale count datatype ≡ some (pos c)
    → IsKind ops datatype size e
    → Does e op f
    → n * size ≡ c
    → c / size ≡ n
    → IsSized f size
    → c ≤ length sendbuf
    → c ≤ length recvbuf
    → ((q : ℕ) → q < v.size → length (block q) ≡ c)
    → ((q : ℕ) → 0 ≤ q → q < v.size → q ≢ v.rank → s.inbox (peer q) ≡ some (block q) ∷ rest q)
    → ((j : ℕ)
        → j < n
        → folded f v.rank (λ q. element size j (block q)) (element size j sendbuf) v.size
          ≡ some (results j))
    → Returns
        (λ (code, out) t.
          (code ≡ pos 0)
          × (buf : Bytes) × (out ≡ some buf)
          × (length buf ≡ length recvbuf)
          × ((j : ℕ) → j < n → element size j buf ≡ results j)
          × (drop c buf ≡ drop c recvbuf)
          × (t.live ≡ s.live))
        (rdma_reduce ops v (some sendbuf) (some recvbuf) count datatype op (pos v.rank) s)
unfolding rdma_reduce reduce_root
reduce_delivers ops v peer c size n count datatype op e f sendbuf recvbuf block rest results s conn
      scaled kind does whole elements sized enough room lengths arrives defined =
    let taken : length (take c sendbuf) ≡ c = length-take c sendbuf enough in
    let start : Bytes = patch recvbuf 0 (take c sendbuf) in
    let behind_it : Bytes = drop (0 + length (take c sendbuf)) recvbuf in
    let shift : 0 + length (take c sendbuf) ≡ c = omega arith in
    rw
      (
        scaled,
        eqb_ℤ_refl (pos v.rank),
        memcpy-ok recvbuf sendbuf 0 c s enough (omega (arith, room)),
      )
      (bind
        (reduce_all ops v peer conn c size n datatype op e f (kind-layout ops datatype size e kind)
          (Does-chosen e op f does) whole elements sized block rest (length recvbuf) room lengths
          (λ j. element size j sendbuf) (drop c recvbuf) results defined s.live start s
          (record {
            size_kept = length-patch recvbuf 0 (take c sendbuf) (omega (arith, taken, room));
            result =
                λ j lt. ap some (sym (element-take size n j c sendbuf behind_it lt whole enough));
            rest_kept =
                behind-take size n c sendbuf behind_it whole enough
                ∙ ap (λ k. drop k recvbuf) shift;
            arriving = arrives;
            alloc = refl;
          }))
        λ (code, buf) t (done, g). returns (
          done,
          buf,
          refl,
          g.size_kept,
          (λ j lt. same_some (sym (g.result j lt) ∙ defined j lt)),
          sym (behind-drop size n c buf whole (omega (arith, g.size_kept))) ∙ g.rest_kept,
          g.alloc,
        ))
