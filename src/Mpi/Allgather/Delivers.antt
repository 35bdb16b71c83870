-- ===== src/Mpi/Allgather/Delivers.antt =====
-- RDMA_Allgather_exp as a whole: every block arrives, at its place.
use ffrdma.Common.{
  append_assoc, ◌∙◌, ap, ℕ, zero, suc, ◌+◌, ◌-◌, ◌*◌, ◌≤◌, ◌<◌, ◌≡◌, refl, sym, subst, ◌≢◌, Option,
  none, some, List, [], ◌∷◌, ◌++◌, arith, ℤ, pos, false, length, take,
}
use ffrdma.Mpi.Machine.{AMessage, ok, Bytes, Proc, CommView, int_limit, pop_inbox, scale}
use ffrdma.Mpi.Memory.{slice, patch, memcpy-ok}
use ffrdma.Mpi.Steps.{message, int_product-ok, create-ok, destroy-ok, send-ok, recv-ok}
use ffrdma.Mpi.Loop.{Returns, returns, bind, Finished, for_each_rule}
use ffrdma.Mpi.Rank.{
  left_of_lt, left_of_ne, right_of, right_of_lt, right_of_ne, get_offset_rank_right,
  get_offset_rank_left,
}
use ffrdma.Mpi.Peers.{IsConnected}
use ffrdma.Mpi.Ring.{
  Waiting-pop, Exchange, IsExchange, Ring, Round, outgoing, left, room_patch, Filled-patch,
}
use ffrdma.Mpi.Allgather.{
  received_block, allgather_round, allgather_rounds, allgather_blocks, rdma_allgather_exp,
}
use ffrdma.Mpi.Collective.{send_or_return, buffers_refusal}
use ffrdma.Mpi.Allgather.Schedule.{
  IsGathered, own, own-Ring, last_gathers, exchange, exchange-IsExchange, place_left, offset_small,
}

module _ (v : CommView) (peer : ℕ → ℕ) (conn : IsConnected v peer) (c : ℕ) (sendbuf : Bytes)
    (block : ℕ → Bytes) (rest : ℕ → List (Option Bytes)) (buf₀ : Bytes) (s₀ : Proc)
    (ex : IsExchange (
      exchange v peer conn c
        (λ i. (peer (right_of v.size v.rank i), take c sendbuf))
        block
        rest
        buf₀
        s₀.sent
        (s₀.next ∷ s₀.live)))
    (few : v.size * c < int_limit) (fits : c ≤ length sendbuf) where
  abbrev out_messages : ℕ → ℕ × Bytes
  out_messages i = (peer (right_of v.size v.rank i), take c sendbuf)

  abbrev x : Exchange
  x =
      exchange v peer conn c (λ i. (peer (right_of v.size v.rank i), take c sendbuf)) block rest
        buf₀ s₀.sent (s₀.next ∷ s₀.live)

  abbrev send_msg : AMessage
  send_msg = message s₀.next sendbuf (pos c) 0 false

  turn_keeps :
      (k : ℕ) (buf : Bytes) (s : Proc)
      → 0 < k
      → suc k < v.size
      → Ring x k k buf s
      → Returns
          (Finished (Round x (suc (suc k))))
          (allgather_round v (pos c) (pos c) send_msg (suc k) buf s)
  unfolding allgather_round send_or_return received_block
  turn_keeps k buf s k_pos k_lt ring =
      let to = right_of v.size v.rank (suc k) in
      let q = left x k in
      let q_lt : q < v.size = left_of_lt v.size v.rank k conn.rank_lt (omega arith) in
      let before : suc k - 1 ≡ k = omega arith in
      let s₁ : Proc = record s { sent = s.sent ++ ((peer to, take c sendbuf) ∷ []) } in
      let s₂ : Proc = record s₁ {
        inbox = pop_inbox s.inbox (peer q) (rest q);
        live = s.next ∷ s.live;
        next = suc s.next;
      } in
      rw
        (
          get_offset_rank_right v (suc k) conn.rank_lt k_lt,
          conn.socket_eq to (right_of_lt v.size v.rank (suc k) conn.rank_lt k_lt)
              (right_of_ne v.size v.rank (suc k) conn.rank_lt k_lt (omega arith)),
        )
        (rw (send-ok (peer to) send_msg c s ring.statuses refl fits) (
          rw
            (
              before,
              get_offset_rank_left v k conn.rank_lt (omega arith),
              conn.socket_eq q q_lt (left_of_ne v.size v.rank k conn.rank_lt (omega arith) k_pos),
            )
            (rw
              (recv-ok (peer q) (block q) (rest q) s₁
                (ring.waiting k k_pos (omega arith) (omega arith)))
              (rw
                (place_left v peer conn c (out_messages) block rest buf₀ s₀.sent (s₀.next ∷ s₀.live)
                  ex few k s.next buf s.live s₂ (omega arith) ring.room refl)
                (returns (
                  refl,
                  record {
                    room = room_patch x ex q buf q_lt ring.room;
                    filled = Filled-patch x ex k buf (omega arith) ring.room ring.filled;
                    waiting = Waiting-pop x ex k s.inbox (omega arith) ring.waiting;
                    statuses = ring.statuses;
                    sent = rw (ring.sent) (append_assoc s₀.sent _ _);
                    live = ring.live;
                  },
                ))))))

  turn_at :
      (j : ℕ) (buf : Bytes) (s : Proc)
      → 2 ≤ j
      → j < 2 + (v.size - 2)
      → Round x j buf s
      → Returns
          (Finished (Round x (suc j)))
          (allgather_round v (pos c) (pos c) (message s₀.next sendbuf (pos c) 0 false) j buf s)
  turn_at zero buf s lo hi ring = absurd (omega arith)
  turn_at (suc k) buf s lo hi ring = turn_keeps k buf s (omega arith) (omega arith) ring

  module _ (k : ℕ) (k_pos : 0 < k) (size : v.size ≡ suc k)
      (own_block : block v.rank ≡ take c sendbuf) where
    rounds_gather :
        (s : Proc)
        → ((q : ℕ) → q < v.size → q ≢ v.rank → s.inbox (peer q) ≡ some (block q) ∷ rest q)
        → s.statuses ≡ []
        → s.sent ≡ s₀.sent ++ outgoing x.out 1
        → s.live ≡ s₀.next ∷ s₀.live
        → Returns (Finished (IsGathered x s₀.live k)) (
            allgather_rounds v sendbuf
              (pos c)
              (pos c)
              (message s₀.next sendbuf (pos c) 0 false)
              buf₀
              s)
    unfolding allgather_rounds
    rounds_gather s arrives idle sent live =
        let msg = message s₀.next sendbuf (pos c) 0 false in
        rw
          (int_product-ok v.rank c (
            offset_small v peer conn c out_messages block rest buf₀ s₀.sent (s₀.next ∷ s₀.live) ex
              few v.rank conn.rank_lt))
          (rw
            (memcpy-ok buf₀ sendbuf (v.rank * c) c s fits (ex.fits v.rank conn.rank_lt)
              ∙ ap (λ b. ok (patch buf₀ (v.rank * c) b) s) (sym own_block))
            (bind
              (for_each_rule (Round x) _ (v.size - 2) 2 turn_at
                (own v peer conn c out_messages block rest buf₀ s₀.sent (s₀.next ∷ s₀.live) ex few)
                s
                (own-Ring v peer conn c out_messages block rest buf₀ s₀.sent (s₀.next ∷ s₀.live) ex
                  few s arrives idle sent live))
              λ (code, buf) s' (done, inv).
                let total : 2 + (v.size - 2) ≡ suc k = omega arith in
                let ring : Ring x k k buf s' = subst (λ t. Round x t buf s') total inv in
                rw done (
                  rw (destroy-ok msg s₀.live s' ring.live) (
                    last_gathers v peer conn c out_messages block rest buf₀ s₀.sent
                      (s₀.next ∷ s₀.live) ex few k s₀.live buf s' k_pos size ring))))

    blocks_gather :
        ((q : ℕ) → q < v.size → q ≢ v.rank → s₀.inbox (peer q) ≡ some (block q) ∷ rest q)
        → s₀.statuses ≡ []
        → Returns
            (Finished (IsGathered x s₀.live k))
            (allgather_blocks v sendbuf (pos c) (pos c) buf₀ s₀)
    unfolding allgather_blocks send_or_return
    blocks_gather arrives idle =
        let to = right_of v.size v.rank 1 in
        let lt : 1 < v.size = omega arith in
        let msg = message s₀.next sendbuf (pos c) 0 false in
        let s₁ : Proc = record s₀ { live = s₀.next ∷ s₀.live; next = suc s₀.next } in
        rw
          (
            create-ok sendbuf (pos c) 0 false s₀,
            get_offset_rank_right v 1 conn.rank_lt lt,
            conn.socket_eq to (right_of_lt v.size v.rank 1 conn.rank_lt lt)
                (right_of_ne v.size v.rank 1 conn.rank_lt lt (omega arith)),
          )
          (rw (send-ok (peer to) msg c s₁ idle refl fits) (
            rounds_gather (record s₁ { sent = s₀.sent ++ ((peer to, take c sendbuf) ∷ []) }) arrives
              idle refl refl))

-- A rank calls RDMA_Allgather_exp with a block of c bytes, on two ranks or more and with a socket to
-- each; the sends succeed, and of each other rank its block arrives. Then the call returns 0; the
-- receive buffer, of unchanged length, holds the block of every rank q at offset q * c; the rank
-- sent its own block to the ranks at distance 1, 2, ... on its right, once each and in this order;
-- and every message allocated was freed.
pub allgather_exp_delivers :
    (v : CommView) (peer : ℕ → ℕ) (c k : ℕ) (sendbuf recvbuf : Bytes)
    (sendcount sendtype recvcount recvtype : ℤ) (block : ℕ → Bytes) (rest : ℕ → List (Option Bytes))
    (s : Proc)
    → IsConnected v peer
    → v.size ≡ suc (suc k)
    → buffers_refusal (some sendbuf) (some recvbuf) sendcount recvcount ≡ none
    → scale sendcount sendtype ≡ some (pos c)
    → scale recvcount recvtype ≡ some (pos c)
    → v.size * c < int_limit
    → c ≤ length sendbuf
    → v.size * c ≤ length recvbuf
    → ((q : ℕ) → q < v.size → length (block q) ≡ c)
    → block v.rank ≡ take c sendbuf
    → ((q : ℕ) → q < v.size → q ≢ v.rank → s.inbox (peer q) ≡ some (block q) ∷ rest q)
    → s.statuses ≡ []
    → Returns
        (λ (code, out) t.
          (code ≡ pos 0)
          × (buf : Bytes) × (out ≡ some buf)
          × (length buf ≡ length recvbuf)
          × ((q : ℕ) → q < v.size → slice (q * c) c buf ≡ block q)
          × (t.sent
              ≡ s.sent ++ outgoing (λ i. (peer (right_of v.size v.rank i), take c sendbuf)) (suc k))
          × (t.live ≡ s.live))
        (rdma_allgather_exp v (some sendbuf) sendcount sendtype (some recvbuf) recvcount recvtype s)
unfolding rdma_allgather_exp
allgather_exp_delivers v peer c k sendbuf recvbuf sendcount sendtype recvcount recvtype block rest s
      conn size accepted sends recvs few fits room lengths own_block arrives idle =
    let ex =
      exchange-IsExchange v peer conn c (λ i. (peer (right_of v.size v.rank i), take c sendbuf))
        block rest recvbuf s.sent (s.next ∷ s.live) lengths room in
    rw (accepted, rdma_allgather_exp, sends, recvs)
      (bind
        (blocks_gather v peer conn c sendbuf block rest recvbuf s ex few fits (suc k) (omega arith)
          size own_block arrives idle)
        λ (code, buf) t (done, g). returns (done, buf, refl, g.room, g.blocks, g.sent, g.live))
