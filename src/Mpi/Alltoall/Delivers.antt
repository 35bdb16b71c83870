-- ===== src/Mpi/Alltoall/Delivers.antt =====
-- What RDMA_Alltoall delivers.
use ffrdma.Common.{
  ℕ, zero, suc, ◌+◌, ◌-◌, ◌*◌, ◌≤◌, ◌<◌, ◌≡◌, refl, sym, ap, ◌∙◌, subst, ◌≢◌, Option, none, some,
  List, [], ◌∷◌, ◌++◌, arith, ℤ, pos, false, length, drop, length-drop, append_assoc, le→leb,
}
use ffrdma.Mpi.Machine.{Bytes, Proc, CommView, ok, int_limit, pop_inbox, scale, at}
use ffrdma.Mpi.Memory.{slice, patch, memcpy-ok}
use ffrdma.Mpi.Steps.{message, int_product-ok, create-ok, destroy-ok, send-ok, recv-ok}
use ffrdma.Mpi.Loop.{Returns, returns, bind, Finished, for_each_rule}
use ffrdma.Mpi.Rank.{
  left_of_lt, left_of_ne, right_of, right_of_lt, right_of_ne, get_offset_rank_right,
  get_offset_rank_left,
}
use ffrdma.Mpi.Peers.{IsConnected}
use ffrdma.Mpi.Ring.{
  Exchange, IsExchange, Ring, Round, outgoing, left, room_patch, Filled-patch, Waiting-pop,
}
use ffrdma.Mpi.Collective.{buffers_refusal, send_or_return}
use ffrdma.Mpi.Alltoall.{
  allgather_last, block_message, alltoall_round, alltoall_rounds, alltoall_blocks, exchanged_block,
  rdma_alltoall,
}
use ffrdma.Mpi.Allgather.Schedule.{
  IsGathered, block_fits, exchange, exchange-IsExchange, offset_small, place_left, own, own-Ring,
  last_gathers,
}

-- The block for rank q, with what lies behind it.
abbrev pub part : ℕ → Bytes → ℕ → Bytes
part c sendbuf q = drop (q * c) sendbuf

pub at-ok : (b : Bytes) (n : ℕ) → n ≤ length b → at b (pos n) ≡ some (drop n b)
unfolding at
at-ok b n h = rw (le→leb n (length b) h)

module _ (v : CommView) (peer : ℕ → ℕ) (conn : IsConnected v peer) (c : ℕ) (sendbuf : Bytes)
    (block : ℕ → Bytes) (rest : ℕ → List (Option Bytes)) (buf₀ : Bytes) (s₀ : Proc) where
  abbrev out_messages : ℕ → ℕ × Bytes
  out_messages i = (peer (right_of v.size v.rank i), slice (right_of v.size v.rank i * c) c sendbuf)

  abbrev x : Exchange
  x = exchange v peer conn c out_messages block rest buf₀ s₀.sent s₀.live

  module _ (ex : IsExchange x) (few : v.size * c < int_limit)
      (fits : v.size * c ≤ length sendbuf) where
    part_room : (q : ℕ) → q < v.size → c ≤ length (part c sendbuf q)
    part_room q lt = omega (arith, length-drop (q * c) sendbuf, block_fits q v.size c lt)

    message_made :
        (q : ℕ) (s : Proc)
        → q < v.size
        → block_message sendbuf (pos c) (pos q) s
          ≡ ok
              (message s.next (part c sendbuf q) (pos c) 0 false)
              (record s { live = s.next ∷ s.live; next = suc s.next })
    unfolding block_message
    message_made q s lt =
        let small =
          offset_small v peer conn c out_messages block rest buf₀ s₀.sent s₀.live ex few q lt in
        rw (int_product-ok q c small) (
          rw (at-ok sendbuf (q * c) (omega (arith, block_fits q v.size c lt)))
            (rw (create-ok (part c sendbuf q) (pos c) 0 false s)))

    turn_keeps :
        (k : ℕ) (buf : Bytes) (s : Proc)
        → 0 < k
        → suc k < v.size
        → Ring x k k buf s
        → Returns
            (Finished (Round x (suc (suc k))))
            (alltoall_round v sendbuf (pos c) (pos c) (suc k) buf s)
    unfolding alltoall_round send_or_return exchanged_block
    turn_keeps k buf s k_pos k_lt ring =
        let to = right_of v.size v.rank (suc k) in
        let to_lt : to < v.size = right_of_lt v.size v.rank (suc k) conn.rank_lt k_lt in
        let q = left x k in
        let q_lt : q < v.size = left_of_lt v.size v.rank k conn.rank_lt (omega arith) in
        let before : suc k - 1 ≡ k = omega arith in
        let bytes = slice (to * c) c sendbuf in
        let m = message s.next (part c sendbuf to) (pos c) 0 false in
        let s₁ : Proc = record s { live = s.next ∷ s.live; next = suc s.next } in
        let s₂ : Proc = record s₁ { sent = s.sent ++ ((peer to, bytes) ∷ []) } in
        let s₃ : Proc = record s₂ { live = s.live } in
        let s₄ : Proc = record s₃ {
          inbox = pop_inbox s.inbox (peer q) (rest q);
          live = suc s.next ∷ s.live;
          next = suc (suc s.next);
        } in
        rw (get_offset_rank_right v (suc k) conn.rank_lt k_lt) (
          rw (message_made to s to_lt) (
            rw
              (conn.socket_eq to to_lt
                (right_of_ne v.size v.rank (suc k) conn.rank_lt k_lt (omega arith)))
              (rw (send-ok (peer to) m c s₁ ring.statuses refl (part_room to to_lt)) (
                rw (destroy-ok m s.live s₂ refl) (
                  rw
                    (
                      before,
                      get_offset_rank_left v k conn.rank_lt (omega arith),
                      conn.socket_eq q q_lt
                          (left_of_ne v.size v.rank k conn.rank_lt (omega arith) k_pos),
                    )
                    (rw
                      (recv-ok (peer q) (block q) (rest q) s₃
                        (ring.waiting k k_pos (omega arith) (omega arith)))
                      (rw
                        (place_left v peer conn c out_messages block rest buf₀ s₀.sent s₀.live ex
                          few k (suc s.next) buf s.live s₄ (omega arith) ring.room refl)
                        (returns (
                          refl,
                          record {
                            room = room_patch x ex q buf q_lt ring.room;
                            filled = Filled-patch x ex k buf (omega arith) ring.room ring.filled;
                            waiting = Waiting-pop x ex k s.inbox (omega arith) ring.waiting;
                            statuses = ring.statuses;
                            sent = rw (ring.sent) (append_assoc s₀.sent _ _);
                            live = ring.live;
                          },
                        )))))))))

    turn_at :
        (j : ℕ) (buf : Bytes) (s : Proc)
        → 2 ≤ j
        → j < 2 + (v.size - 2)
        → Round x j buf s
        → Returns (Finished (Round x (suc j))) (alltoall_round v sendbuf (pos c) (pos c) j buf s)
    turn_at zero buf s lo hi ring = absurd (omega arith)
    turn_at (suc k) buf s lo hi ring = turn_keeps k buf s (omega arith) (omega arith) ring

    module _ (k : ℕ) (k_pos : 0 < k) (size : v.size ≡ suc k)
        (own_block : block v.rank ≡ slice (v.rank * c) c sendbuf) where
      rounds_exchange :
          (s : Proc)
          → ((q : ℕ) → q < v.size → q ≢ v.rank → s.inbox (peer q) ≡ some (block q) ∷ rest q)
          → s.statuses ≡ []
          → s.sent ≡ s₀.sent ++ outgoing out_messages 1
          → s.live ≡ s₀.live
          → Returns
              (Finished (IsGathered x s₀.live k))
              (alltoall_rounds v sendbuf (pos c) (pos c) buf₀ s)
      unfolding alltoall_rounds
      rounds_exchange s arrives idle sent live =
          let r = v.rank in
          let small =
            offset_small v peer conn c out_messages block rest buf₀ s₀.sent s₀.live ex few r
              conn.rank_lt in
          rw (int_product-ok r c small) (
            rw (at-ok sendbuf (r * c) (omega (arith, block_fits r v.size c conn.rank_lt))) (
              rw
                (memcpy-ok buf₀ (part c sendbuf r) (r * c) c s (part_room r conn.rank_lt)
                    (ex.fits r conn.rank_lt)
                  ∙ ap (λ b. ok (patch buf₀ (r * c) b) s) (sym own_block))
                (bind
                  (for_each_rule (Round x) _ (v.size - 2) 2 turn_at
                    (own v peer conn c out_messages block rest buf₀ s₀.sent s₀.live ex few) s
                    (own-Ring v peer conn c out_messages block rest buf₀ s₀.sent s₀.live ex few s
                      arrives idle sent live))
                  λ (code, buf) s' (done, inv).
                    let total : 2 + (v.size - 2) ≡ suc k = omega arith in
                    let ring : Ring x k k buf s' = subst (λ t. Round x t buf s') total inv in
                    let same : record s' { live = s₀.live } ≡ s' =
                      ap (λ l. record s' { live = l }) (sym ring.live) in
                    rw done (
                      subst
                        (λ t.
                          Returns (Finished (IsGathered x s₀.live k))
                            (allgather_last v (pos c) (pos c) buf t))
                        same
                        (last_gathers v peer conn c out_messages block rest buf₀ s₀.sent s₀.live ex
                          few k s₀.live buf s' k_pos size ring)))))

      blocks_exchange :
          ((q : ℕ) → q < v.size → q ≢ v.rank → s₀.inbox (peer q) ≡ some (block q) ∷ rest q)
          → s₀.statuses ≡ []
          → Returns
              (Finished (IsGathered x s₀.live k))
              (alltoall_blocks v sendbuf (pos c) (pos c) buf₀ s₀)
      unfolding alltoall_blocks send_or_return
      blocks_exchange arrives idle =
          let to = right_of v.size v.rank 1 in
          let lt : 1 < v.size = omega arith in
          let to_lt : to < v.size = right_of_lt v.size v.rank 1 conn.rank_lt lt in
          let m = message s₀.next (part c sendbuf to) (pos c) 0 false in
          let s₁ : Proc = record s₀ { live = s₀.next ∷ s₀.live; next = suc s₀.next } in
          let s₂ : Proc = record s₁ {
            sent = s₀.sent ++ ((peer to, slice (to * c) c sendbuf) ∷ []);
          } in
          rw (get_offset_rank_right v 1 conn.rank_lt lt) (
            rw (message_made to s₀ to_lt) (
              rw
                (conn.socket_eq to to_lt
                  (right_of_ne v.size v.rank 1 conn.rank_lt lt (omega arith)))
                (rw (send-ok (peer to) m c s₁ idle refl (part_room to to_lt)) (
                  rw (destroy-ok m s₀.live s₂ refl)
                    (rounds_exchange (record s₂ { live = s₀.live }) arrives idle refl refl)))))

-- A rank calls RDMA_Alltoall with a block of c bytes for each rank, on two ranks or more and with a
-- socket to each; the sends succeed, and from each other rank q the block that q has for it arrives.
-- Then the call returns 0; the receive buffer, of unchanged length, holds the block from every rank q
-- at offset q * c; the rank sent to each rank on its right, in the order of their distance, the
-- block at that rank's offset of its send buffer; and every message allocated was freed.
pub alltoall_delivers :
    (v : CommView) (peer : ℕ → ℕ) (c k : ℕ) (sendbuf recvbuf : Bytes)
    (sendcount sendtype recvcount recvtype : ℤ) (block : ℕ → Bytes) (rest : ℕ → List (Option Bytes))
    (s : Proc)
    → IsConnected v peer
    → v.size ≡ suc (suc k)
    → buffers_refusal (some sendbuf) (some recvbuf) sendcount recvcount ≡ none
    → scale sendcount sendtype ≡ some (pos c)
    → scale recvcount recvtype ≡ some (pos c)
    → v.size * c < int_limit
    → v.size * c ≤ length sendbuf
    → v.size * c ≤ length recvbuf
    → ((q : ℕ) → q < v.size → length (block q) ≡ c)
    → block v.rank ≡ slice (v.rank * c) c sendbuf
    → ((q : ℕ) → q < v.size → q ≢ v.rank → s.inbox (peer q) ≡ some (block q) ∷ rest q)
    → s.statuses ≡ []
    → Returns
        (λ (code, out) t.
          (code ≡ pos 0)
          × (buf : Bytes) × (out ≡ some buf)
          × (length buf ≡ length recvbuf)
          × ((q : ℕ) → q < v.size → slice (q * c) c buf ≡ block q)
          × (t.sent
              ≡ s.sent
                ++ outgoing
                    (λ i. (
                      peer (right_of v.size v.rank i),
                      slice (right_of v.size v.rank i * c) c sendbuf,
                    ))
                    (suc k))
          × (t.live ≡ s.live))
        (rdma_alltoall v (some sendbuf) sendcount sendtype (some recvbuf) recvcount recvtype s)
unfolding rdma_alltoall
alltoall_delivers v peer c k sendbuf recvbuf sendcount sendtype recvcount recvtype block rest s conn
      size accepted sends recvs few fits room lengths own_block arrives idle =
    let ex =
      exchange-IsExchange v peer conn c
        (λ i. (peer (right_of v.size v.rank i), slice (right_of v.size v.rank i * c) c sendbuf))
        block rest recvbuf s.sent s.live lengths room in
    rw (accepted, rdma_alltoall, sends, recvs)
      (bind
        (blocks_exchange v peer conn c sendbuf block rest recvbuf s ex few fits (suc k)
          (omega arith) size own_block arrives idle)
        λ (code, buf) t (done, g). returns (done, buf, refl, g.room, g.blocks, g.sent, g.live))
