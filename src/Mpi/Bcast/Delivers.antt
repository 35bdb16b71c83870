-- ===== src/Mpi/Bcast/Delivers.antt =====
-- What RDMA_Bcast delivers: the root sends its bytes to every other rank, and a rank that is not the
-- root stores the bytes that arrive.
use ffrdma.Common.{
  ℕ, suc, ◌+◌, ◌≤◌, ◌<◌, ◌≡◌, refl, ap, ◌∙◌, subst, ◌≢◌, inl, inr, true, false, Option, none, some,
  List, [], ◌∷◌, ◌++◌, arith, ℤ, pos, eqb_ℤ, ◌==◌, length, take, take_length, if◌then◌else◌,
  append-nil, Bool-cases, ==→eq, ==-false→ne, eqb_ℤ_refl, eqb_ℤ_ne,
}
use ffrdma.Mpi.Machine.{Bytes, Proc, CommView, pop_inbox, scale}
use ffrdma.Mpi.Memory.{patch, memcpy-ok}
use ffrdma.Mpi.Steps.{message, create-ok, destroy-ok, send-ok, recv-ok, recv-null}
use ffrdma.Mpi.Loop.{Returns, returns, bind, Finished, for_each_rule}
use ffrdma.Mpi.Peers.{IsConnected}
use ffrdma.Mpi.Fan.{fan_out, fan_out_skip, fan_out_step}
use ffrdma.Mpi.Collective.{send_or_return, accept_block}
use ffrdma.Mpi.Bcast.{
  bcast_round, bcast_root, bcast_leaf, bcast_received, bcast_refusal, rdma_bcast,
}

module _ (v : CommView) (peer : ℕ → ℕ) (conn : IsConnected v peer) (n : ℕ) (buf : Bytes)
    (fits : n ≤ length buf) (s₀ : Proc) where
  abbrev to_rank : ℕ → ℕ × Bytes
  to_rank q = (peer q, take n buf)

  -- The ranks below k are served.
  record Served (k : ℕ) (b : Bytes) (s : Proc) : Type 0 where
    pub buffer : b ≡ buf
    pub statuses : s.statuses ≡ []
    pub sent : s.sent ≡ s₀.sent ++ fan_out to_rank v.rank k
    pub live : s.live ≡ s₀.next ∷ s₀.live

  serve :
      (k : ℕ) (b : Bytes) (s : Proc)
      → 0 ≤ k
      → k < 0 + v.size
      → Served k b s
      → Returns
          (Finished (Served (suc k)))
          (bcast_round v (message s₀.next buf (pos n) 0 false) k b s)
  unfolding bcast_round send_or_return
  serve k b s lo hi inv = elim (Bool-cases (k == v.rank)) [
    | inl own ↦ rw own (
        returns (
          refl,
          record {
            buffer = inv.buffer;
            statuses = inv.statuses;
            sent = inv.sent ∙ fan_out_skip to_rank v.rank k s₀.sent (==→eq k v.rank own);
            live = inv.live;
          },
        ))
    | inr other ↦
        let ne = ==-false→ne k v.rank other in
        rw other (
          rw (conn.socket_eq k (omega arith) ne) (
            rw (send-ok (peer k) (message s₀.next buf (pos n) 0 false) n s inv.statuses refl fits) (
              returns (
                refl,
                record {
                  buffer = inv.buffer;
                  statuses = inv.statuses;
                  sent = rw (inv.sent) (fan_out_step to_rank v.rank k s₀.sent ne);
                  live = inv.live;
                },
              ))))
  ]

  bcast_root_serves :
      s₀.statuses ≡ []
      → Returns
          (Finished (λ b t.
            (b ≡ buf) × (t.sent ≡ s₀.sent ++ fan_out to_rank v.rank v.size) × (t.live ≡ s₀.live)))
          (bcast_root v buf (pos n) s₀)
  unfolding bcast_root
  bcast_root_serves idle =
      let s₁ : Proc = record s₀ { live = s₀.next ∷ s₀.live; next = suc s₀.next } in
      rw (create-ok buf (pos n) 0 false s₀) (
        bind
          (for_each_rule Served _ v.size 0 serve buf s₁
            (record { buffer = refl; statuses = idle; sent = rw append-nil; live = refl }))
          λ (code, b) t (done, inv). rw done (
            rw (destroy-ok (message s₀.next buf (pos n) 0 false) s₀.live t inv.live) (
              let total : 0 + v.size ≡ v.size = omega arith in
              returns (
                refl,
                (
                  inv.buffer,
                  subst (λ k. t.sent ≡ s₀.sent ++ fan_out to_rank v.rank k) total inv.sent,
                  refl,
                ),
              ))))

bcast_accepted :
    (v : CommView) (b : Bytes) (n root : ℕ)
    → 0 < n
    → root < v.size
    → bcast_refusal v (some b) (pos n) (pos root) ≡ none
unfolding bcast_refusal
bcast_accepted v b n root n_pos lt = ground arith

-- At the root, with n > 0 bytes to send, sockets to all other ranks and sends that succeed, the call
-- returns 0 and leaves the buffer as it was; the first n bytes went to every other rank exactly
-- once, in ascending order, and to nobody else; and the message was freed.
pub bcast_root_delivers :
    (v : CommView) (peer : ℕ → ℕ) (n : ℕ) (buf : Bytes) (count type : ℤ) (s : Proc)
    → IsConnected v peer
    → scale count type ≡ some (pos n)
    → 0 < n
    → n ≤ length buf
    → s.statuses ≡ []
    → Returns
        (λ (code, out) t.
          (code ≡ pos 0)
          × (out ≡ some buf)
          × (t.sent ≡ s.sent ++ fan_out (λ q. (peer q, take n buf)) v.rank v.size)
          × (t.live ≡ s.live))
        (rdma_bcast v (some buf) count type (pos v.rank) s)
unfolding rdma_bcast
bcast_root_delivers v peer n buf count type s conn scaled n_pos fits idle =
    rw
      (
        scaled,
        bcast_accepted v buf n v.rank n_pos conn.rank_lt,
        rdma_bcast,
        eqb_ℤ_refl (pos v.rank),
      )
      (bind (bcast_root_serves v peer conn n buf fits s idle)
        λ (code, b) t (done, post). returns (done, ap some post.0, post.1, post.2))

-- What a rank that is not the root returns and holds, by the message that comes from the root: NULL
-- gives 4 and a message of another length 5, both with the buffer as it was.
abbrev pub bcast_outcome : Bytes → ℕ → Option Bytes → ℤ × Option Bytes
bcast_outcome buf n none = (pos 4, some buf)
bcast_outcome buf n (some bytes) =
    if length bytes == n then (pos 0, some (patch buf 0 bytes)) else (pos 5, some buf)

bcast_leaf_outcome :
    (v : CommView) (root from n : ℕ) (buf : Bytes) (s : Proc) (m : Option Bytes)
    (rest : List (Option Bytes))
    → v.socket (pos root) ≡ some (some from)
    → n ≤ length buf
    → s.inbox from ≡ m ∷ rest
    → Returns
        (λ (code, b) t.
          ((code, some b) ≡ bcast_outcome buf n m)
          × (t.inbox ≡ pop_inbox s.inbox from rest)
          × (t.live ≡ s.live))
        (bcast_leaf v buf (pos n) (pos root) s)
unfolding bcast_leaf bcast_received accept_block
bcast_leaf_outcome v root from n buf s none rest socket fits head =
    rw socket (rw (recv-null from rest s head) (returns (refl, refl, refl)))
bcast_leaf_outcome v root from n buf s (some bytes) rest socket fits head =
    let m = message s.next bytes (pos (length bytes)) 0 true in
    let s₁ : Proc = record s {
      inbox = pop_inbox s.inbox from rest;
      live = s.next ∷ s.live;
      next = suc s.next;
    } in
    rw socket (
      rw (recv-ok from bytes rest s head) (elim (Bool-cases (length bytes == n)) [
        | inl same ↦
            let e = ==→eq (length bytes) n same in
            let hit : eqb_ℤ (pos (length bytes)) (pos n) ≡ true = rw e (eqb_ℤ_refl (pos n)) in
            let whole : take n bytes ≡ bytes = rw (← e) (take_length bytes) in
            rw (hit, same)
              (rw (memcpy-ok buf bytes 0 n s₁ (omega arith) (omega arith))
                (rw (destroy-ok m s.live s₁ refl) (rw whole (returns (refl, refl, refl)))))
        | inr other ↦
            rw (eqb_ℤ_ne (length bytes) n (==-false→ne _ _ other), other)
              (rw (destroy-ok m s.live s₁ refl) (returns (refl, refl, refl)))
      ]))

-- At any other rank the call takes one message from the socket of the root, and what it returns and
-- leaves in the buffer is bcast_outcome of it: the message's bytes at the front of the buffer and 0
-- if it has the expected length. It is freed on every branch.
pub bcast_leaf_delivers :
    (v : CommView) (root from n : ℕ) (buf : Bytes) (count type : ℤ) (s : Proc) (m : Option Bytes)
    (rest : List (Option Bytes))
    → v.rank ≢ root
    → root < v.size
    → v.socket (pos root) ≡ some (some from)
    → scale count type ≡ some (pos n)
    → 0 < n
    → n ≤ length buf
    → s.inbox from ≡ m ∷ rest
    → Returns
        (λ r t.
          (r ≡ bcast_outcome buf n m) × (t.inbox ≡ pop_inbox s.inbox from rest) × (t.live ≡ s.live))
        (rdma_bcast v (some buf) count type (pos root) s)
unfolding rdma_bcast
bcast_leaf_delivers v root from n buf count type s m rest ne lt socket scaled n_pos fits head =
    rw (scaled, bcast_accepted v buf n root n_pos lt, rdma_bcast, eqb_ℤ_ne v.rank root ne)
      (bind (bcast_leaf_outcome v root from n buf s m rest socket fits head)
        λ (code, b) t (r, i, l). returns (r, i, l))
