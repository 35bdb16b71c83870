-- ===== src/Mpi/Gather/Delivers.antt =====
-- What RDMA_Gather delivers to its root.
use ffrdma.Common.{
  ◌≢◌, none, some, ℤ, ℕ, suc, ◌+◌, ◌*◌, ◌≤◌, ◌<◌, ◌≡◌, refl, sym, ap, ◌∙◌, subst, inl, inr, true,
  Option, List, ◌∷◌, arith, pos, eqb_ℤ, ◌==◌, length, take, take_length, Bool-cases, ==→eq,
  ==-false→ne, eqb_ℤ_refl,
}
use ffrdma.Mpi.Machine.{scale, Bytes, Proc, CommView, ok, int_limit, pop_inbox}
use ffrdma.Mpi.Memory.{slice, patch, memcpy-ok, length-patch, slice-patch_self, slice-patch_other}
use ffrdma.Mpi.Steps.{message, int_product-ok, destroy-ok, recv-ok}
use ffrdma.Mpi.Loop.{bind, for_each_rule, for_each, Returns, returns, Finished}
use ffrdma.Mpi.Peers.{IsConnected}
use ffrdma.Mpi.Fan.{Arriving, Arriving-pop}
use ffrdma.Mpi.Collective.{accept_block}
use ffrdma.Mpi.Gather.{rooted_refusal, rdma_gather, gather_round, gathered}
use ffrdma.Mpi.Allgather.Schedule.{block_fits}

-- The blocks of the ranks below k stand at their offsets.
abbrev Placed : ℕ → (ℕ → Bytes) → ℕ → Bytes → Type 0
Placed c block k buf = (q : ℕ) → q < k → slice (q * c) c buf ≡ block q

Placed-patch :
    (c : ℕ) (block : ℕ → Bytes) (k : ℕ) (buf : Bytes)
    → length (block k) ≡ c
    → k * c + c ≤ length buf
    → Placed c block k buf
    → Placed c block (suc k) (patch buf (k * c) (block k))
Placed-patch c block k buf len room placed q lt = elim (Bool-cases (q == k)) [
  | inl hit ↦
      subst (λ t. slice (t * c) c (patch buf (k * c) (block k)) ≡ block t) (sym (==→eq q k hit))
        (subst (λ n. slice (k * c) n (patch buf (k * c) (block k)) ≡ block k) len
          (slice-patch_self buf (k * c) (block k) (omega arith)))
  | inr miss ↦
      let ne = ==-false→ne q k miss in
      slice-patch_other buf (k * c) (block k) (q * c) c (omega arith)
        (inl (block_fits q k c (omega arith)))
      ∙ placed q (omega arith)
]

module _ (v : CommView) (peer : ℕ → ℕ) (conn : IsConnected v peer) (c : ℕ) (sendbuf : Bytes)
    (block : ℕ → Bytes) (rest : ℕ → List (Option Bytes)) (room : ℕ) (few : v.size * c < int_limit)
    (fits : v.size * c ≤ room) (enough : c ≤ length sendbuf)
    (lengths : (q : ℕ) → q < v.size → length (block q) ≡ c)
    (own_block : block v.rank ≡ take c sendbuf) (live : List ℕ) where
  -- Before round k of the root.
  record Collected (k : ℕ) (buf : Bytes) (s : Proc) : Type 0 where
    pub size : length buf ≡ room
    pub placed : Placed c block k buf
    pub arriving : Arriving v.size v.rank peer block rest k s.inbox
    pub alloc : s.live ≡ live

  collect :
      (k : ℕ) (buf : Bytes) (s : Proc)
      → 0 ≤ k
      → k < 0 + v.size
      → Collected k buf s
      → Returns (Finished (Collected (suc k))) (gather_round v sendbuf (pos c) (pos c) k buf s)
  unfolding gather_round gathered accept_block
  collect k buf s lo hi inv =
      let lt : k < v.size = omega arith in
      let here : k * c + c ≤ length buf = omega (arith, block_fits k v.size c lt, inv.size) in
      let small : c * k < int_limit = omega (arith, block_fits k v.size c lt) in
      let swap : c * k ≡ k * c = omega arith in
      let len = lengths k lt in
      let size' : length (patch buf (k * c) (block k)) ≡ room =
        length-patch buf (k * c) (block k) (omega arith) ∙ inv.size in
      let placed' = Placed-patch c block k buf len here inv.placed in
      elim (Bool-cases (k == v.rank)) [
        | inl own ↦
            let e = ==→eq k v.rank own in
            let mine : block k ≡ take c sendbuf = ap block e ∙ own_block in
            rw own (
              rw (int_product-ok c k small, swap)
                (rw
                  (memcpy-ok buf sendbuf (k * c) c s enough here
                    ∙ ap (λ b. ok (patch buf (k * c) b) s) (sym mine))
                  (returns (
                    refl,
                    record {
                      size = size';
                      placed = placed';
                      arriving = λ q le q_lt ne. inv.arriving q (omega arith) q_lt ne;
                      alloc = inv.alloc;
                    },
                  ))))
        | inr other ↦
            let ne = ==-false→ne k v.rank other in
            let m = message s.next (block k) (pos (length (block k))) 0 true in
            let s₁ : Proc = record s {
              inbox = pop_inbox s.inbox (peer k) (rest k);
              live = s.next ∷ s.live;
              next = suc s.next;
            } in
            let whole : take c (block k) ≡ block k = rw (← len) (take_length (block k)) in
            let right : eqb_ℤ (pos (length (block k))) (pos c) ≡ true =
              rw len (eqb_ℤ_refl (pos c)) in
            rw other (
              rw (conn.socket_eq k lt ne) (
                rw (recv-ok (peer k) (block k) (rest k) s (inv.arriving k (omega arith) lt ne)) (
                  rw (int_product-ok c k small, swap, right)
                    (rw (memcpy-ok buf (block k) (k * c) c s₁ (omega arith) here) (
                      rw (destroy-ok m s.live s₁ refl, whole)
                        (returns (
                          refl,
                          record {
                            size = size';
                            placed = placed';
                            arriving =
                                Arriving-pop v.size v.rank peer block rest k s.inbox conn.injective
                                  lt inv.arriving;
                            alloc = inv.alloc;
                          },
                        )))))))
      ]

  collect_all :
      (buf : Bytes) (s : Proc)
      → Collected 0 buf s
      → Returns
          (Finished (Collected v.size))
          (for_each v.size 0 (gather_round v sendbuf (pos c) (pos c)) buf s)
  collect_all buf s inv =
      let total : 0 + v.size ≡ v.size = omega arith in
      subst
        (λ k.
          Returns (Finished (Collected k))
            (for_each v.size 0 (gather_round v sendbuf (pos c) (pos c)) buf s))
        total (for_each_rule Collected _ v.size 0 collect buf s inv)

-- At the root, with sockets to all other ranks and a block of c bytes arriving from each, the call
-- returns 0, the receive buffer keeps its length and holds the block of every rank q, its own
-- included, at offset q * c, and every message is freed.
pub gather_delivers :
    (v : CommView) (peer : ℕ → ℕ) (c : ℕ) (sendbuf recvbuf : Bytes)
    (sendcount sendtype recvcount recvtype : ℤ) (block : ℕ → Bytes) (rest : ℕ → List (Option Bytes))
    (s : Proc)
    → IsConnected v peer
    → rooted_refusal v (some sendbuf) (some recvbuf) sendcount recvcount (pos v.rank) ≡ none
    → scale sendcount sendtype ≡ some (pos c)
    → scale recvcount recvtype ≡ some (pos c)
    → v.size * c < int_limit
    → c ≤ length sendbuf
    → v.size * c ≤ length recvbuf
    → ((q : ℕ) → q < v.size → length (block q) ≡ c)
    → block v.rank ≡ take c sendbuf
    → ((q : ℕ) → 0 ≤ q → q < v.size → q ≢ v.rank → s.inbox (peer q) ≡ some (block q) ∷ rest q)
    → Returns
        (λ (code, out) t.
          (code ≡ pos 0)
          × (buf : Bytes) × (out ≡ some buf)
          × (length buf ≡ length recvbuf)
          × ((q : ℕ) → q < v.size → slice (q * c) c buf ≡ block q)
          × (t.live ≡ s.live))
        (rdma_gather v
          (some sendbuf)
          sendcount
          sendtype
          (some recvbuf)
          recvcount
          recvtype
          (pos v.rank)
          s)
unfolding rdma_gather
gather_delivers v peer c sendbuf recvbuf sendcount sendtype recvcount recvtype block rest s conn
      accepted sends recvs few enough room lengths own_block arrives =
    rw (accepted, rdma_gather, sends, recvs, eqb_ℤ_refl (pos v.rank))
      (bind
        (collect_all v peer conn c sendbuf block rest (length recvbuf) few room enough lengths
          own_block s.live recvbuf s
          (record { size = refl; placed = λ q h. elim h [ ]; arriving = arrives; alloc = refl }))
        λ (code, buf) t (done, g). returns (done, buf, refl, g.size, g.placed, g.alloc))
