-- ===== src/Mpi/Gather/Deals.antt =====
-- What RDMA_Scatter sends from its root.
use ffrdma.Common.{
  length-drop, drop, false, ◌++◌, [], ltb, if◌then◌else◌, lt→ltb, append-nil, none, some, ℤ, ℕ, suc,
  ◌+◌, ◌*◌, ◌≤◌, ◌<◌, ◌≡◌, refl, sym, ap, ◌∙◌, subst, inl, inr, true, ◌∷◌, arith, pos, ◌==◌, length,
  Bool-cases, ==→eq, ==-false→ne, eqb_ℤ_refl,
}
use ffrdma.Mpi.Machine.{scale, Bytes, Proc, CommView, int_limit}
use ffrdma.Mpi.Memory.{slice, patch, memcpy-ok}
use ffrdma.Mpi.Steps.{send-ok, create-ok, message, int_product-ok, destroy-ok}
use ffrdma.Mpi.Loop.{bind, for_each_rule, Returns, returns, Finished}
use ffrdma.Mpi.Peers.{IsConnected}
use ffrdma.Mpi.Fan.{fan_out_step, fan_out_skip, fan_out}
use ffrdma.Mpi.Alltoall.Delivers.{at-ok}
use ffrdma.Mpi.Collective.{send_or_return}
use ffrdma.Mpi.Gather.{rooted_refusal, send_or_return, scatter_part, rdma_scatter, scatter_round}
use ffrdma.Mpi.Allgather.Schedule.{block_fits}

module _ (v : CommView) (peer : ℕ → ℕ) (conn : IsConnected v peer) (c : ℕ) (sendbuf buf₀ : Bytes)
    (few : v.size * c < int_limit) (fits : v.size * c ≤ length sendbuf) (room : c ≤ length buf₀)
    (s₀ : Proc) where
  abbrev part_for : ℕ → ℕ × Bytes
  part_for q = (peer q, slice (q * c) c sendbuf)

  -- Before round k of the root: the parts of the ranks below k are out, its own is in its buffer.
  record Dealt (k : ℕ) (buf : Bytes) (s : Proc) : Type 0 where
    pub kept : buf ≡ (if ltb v.rank k then patch buf₀ 0 (slice (v.rank * c) c sendbuf) else buf₀)
    pub statuses : s.statuses ≡ []
    pub sent : s.sent ≡ s₀.sent ++ fan_out part_for v.rank k
    pub alloc : s.live ≡ s₀.live

  deal :
      (k : ℕ) (buf : Bytes) (s : Proc)
      → 0 ≤ k
      → k < 0 + v.size
      → Dealt k buf s
      → Returns (Finished (Dealt (suc k))) (scatter_round v sendbuf (pos c) k buf s)
  unfolding scatter_round scatter_part send_or_return
  deal k buf s lo hi inv =
      let lt : k < v.size = omega arith in
      let here : k * c + c ≤ length sendbuf = omega (arith, block_fits k v.size c lt) in
      let small : c * k < int_limit = omega (arith, block_fits k v.size c lt) in
      let swap : c * k ≡ k * c = omega arith in
      let enough : c ≤ length (drop (k * c) sendbuf) = omega (arith, length-drop (k * c) sendbuf) in
      elim (Bool-cases (k == v.rank)) [
        | inl own ↦
            let e = ==→eq k v.rank own in
            let before : ltb v.rank k ≡ false = ground arith in
            let after : ltb v.rank (suc k) ≡ true = ground arith in
            let same : buf ≡ buf₀ =
              inv.kept
              ∙ ap (λ b. if b then patch buf₀ 0 (slice (v.rank * c) c sendbuf) else buf₀) before in
            rw (int_product-ok c k small, swap)
              (rw (at-ok sendbuf (k * c) (omega arith), own)
                (rw
                  (memcpy-ok buf (drop (k * c) sendbuf) 0 c s enough
                    (omega (arith, ap length same)))
                  (returns (
                    refl,
                    record {
                      kept =
                          ap (λ b. patch b 0 (slice (k * c) c sendbuf)) same
                          ∙ (ap (λ j. patch buf₀ 0 (slice (j * c) c sendbuf)) e
                              ∙ ap
                                  (λ b.
                                    if b then patch buf₀ 0 (slice (v.rank * c) c sendbuf) else buf₀)
                                  (sym after));
                      statuses = inv.statuses;
                      sent = inv.sent ∙ fan_out_skip part_for v.rank k s₀.sent e;
                      alloc = inv.alloc;
                    },
                  ))))
        | inr other ↦
            let ne = ==-false→ne k v.rank other in
            let m = message s.next (drop (k * c) sendbuf) (pos c) 0 false in
            let s₁ : Proc = record s { live = s.next ∷ s.live; next = suc s.next } in
            let s₂ : Proc = record s₁ {
              sent = s.sent ++ ((peer k, slice (k * c) c sendbuf) ∷ []);
            } in
            let still : ltb v.rank (suc k) ≡ ltb v.rank k = ground arith in
            rw (int_product-ok c k small, swap)
              (rw (at-ok sendbuf (k * c) (omega arith), other)
                (rw (create-ok (drop (k * c) sendbuf) (pos c) 0 false s, conn.socket_eq k lt ne)
                  (rw (send-ok (peer k) m c s₁ inv.statuses refl enough) (
                    rw (destroy-ok m s.live s₂ refl) (
                      returns (
                        refl,
                        record {
                          kept = rw still inv.kept;
                          statuses = inv.statuses;
                          sent = rw (inv.sent) (fan_out_step part_for v.rank k s₀.sent ne);
                          alloc = inv.alloc;
                        },
                      ))))))
      ]

-- At the root, with sockets to all other ranks and sends that succeed, the call returns 0; its own
-- block stands at the front of its receive buffer, the rest of which is as before; every other rank
-- q was sent the c bytes at offset q * c of the send buffer exactly once, in ascending order; and
-- every message is freed.
pub scatter_delivers :
    (v : CommView) (peer : ℕ → ℕ) (c : ℕ) (sendbuf recvbuf : Bytes)
    (sendcount sendtype recvcount recvtype r : ℤ) (s : Proc)
    → IsConnected v peer
    → rooted_refusal v (some sendbuf) (some recvbuf) sendcount recvcount (pos v.rank) ≡ none
    → scale sendcount sendtype ≡ some (pos c)
    → scale recvcount recvtype ≡ some r
    → v.size * c < int_limit
    → v.size * c ≤ length sendbuf
    → c ≤ length recvbuf
    → s.statuses ≡ []
    → Returns
        (λ (code, out) t.
          (code ≡ pos 0)
          × (out ≡ some (patch recvbuf 0 (slice (v.rank * c) c sendbuf)))
          × (t.sent ≡ s.sent ++ fan_out (λ q. (peer q, slice (q * c) c sendbuf)) v.rank v.size)
          × (t.live ≡ s.live))
        (rdma_scatter v
          (some sendbuf)
          sendcount
          sendtype
          (some recvbuf)
          recvcount
          recvtype
          (pos v.rank)
          s)
unfolding rdma_scatter
scatter_delivers v peer c sendbuf recvbuf sendcount sendtype recvcount recvtype r s conn accepted
      sends recvs few fits room idle =
    let total : 0 + v.size ≡ v.size = omega arith in
    let all_dealt : ltb v.rank (0 + v.size) ≡ true = rw total (lt→ltb v.rank v.size conn.rank_lt) in
    let none_dealt : ltb v.rank 0 ≡ false = ground arith in
    let dealt = Dealt v peer conn c sendbuf recvbuf few fits room s in
    rw (accepted, rdma_scatter, sends, recvs, eqb_ℤ_refl (pos v.rank))
      (bind
        (for_each_rule dealt _ v.size 0 (deal v peer conn c sendbuf recvbuf few fits room s) recvbuf
          s (record { kept = rw none_dealt; statuses = idle; sent = rw append-nil; alloc = refl }))
        λ (code, buf) t (done, g). returns (
          done,
          ap some (
              g.kept
              ∙ ap (λ b. if b then patch recvbuf 0 (slice (v.rank * c) c sendbuf) else recvbuf)
                  all_dealt),
          subst (λ k. t.sent ≡ s.sent ++ fan_out (λ q. (peer q, slice (q * c) c sendbuf)) v.rank k)
              total g.sent,
          g.alloc,
        ))
