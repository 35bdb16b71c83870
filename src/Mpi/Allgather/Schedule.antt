-- ===== src/Mpi/Allgather/Schedule.antt =====
-- RDMA_Allgather_exp, round by round: each keeps the ring invariant.
use ffrdma.Common.{
  sym, subst, some, ◌≢◌, ℕ, suc, ◌+◌, ◌-◌, ◌*◌, ◌≤◌, ◌<◌, ◌≡◌, refl, inl, inr, Option, List, [],
  ◌∷◌, ◌++◌, arith, pos, length, take, Bool-cases, ltb, ltb→lt, true, take_length,
}
use ffrdma.Mpi.Machine.{Bytes, Proc, CommView, ok, int_limit, pop_inbox}
use ffrdma.Mpi.Memory.{slice, patch, memcpy-ok}
use ffrdma.Mpi.Steps.{message, int_product-ok, destroy-ok, recv-ok}
use ffrdma.Mpi.Loop.{Returns, returns, Finished}
use ffrdma.Mpi.Rank.{left_of_lt, left_of_ne, get_offset_rank_left}
use ffrdma.Mpi.Peers.{IsConnected}
use ffrdma.Mpi.Ring.{
  Filled-all, outgoing, Filled, Exchange, IsExchange, Ring, left, room_patch, Filled-patch,
}
use ffrdma.Mpi.Allgather.{allgather_last, place_block}

-- The blocks of all ranks stand in the buffer, `k` messages went out, and no message is left.
pub record IsGathered (x : Exchange) (live₀ : List ℕ) (k : ℕ) (buf : Bytes) (s : Proc)
    : Type 0 where
  pub room : length buf ≡ x.room
  pub blocks : (q : ℕ) → q < x.size → slice (x.off q) (x.cnt q) buf ≡ x.block q
  pub sent : s.sent ≡ x.sent ++ outgoing x.out k
  pub live : s.live ≡ live₀

pub block_fits : (q n c : ℕ) → q < n → q * c + c ≤ n * c
block_fits q n c h = grind arith

module _ (v : CommView) (peer : ℕ → ℕ) (conn : IsConnected v peer) (c : ℕ) (out : ℕ → ℕ × Bytes)
    (block : ℕ → Bytes) (rest : ℕ → List (Option Bytes)) (buf₀ : Bytes) (sent₀ : List (ℕ × Bytes))
    (live₀ : List ℕ) where
  -- The exchange that the call carries out.
  abbrev pub exchange : Exchange
  exchange = record {
    size = v.size;
    rank = v.rank;
    peer = peer;
    off = λ q. q * c;
    cnt = λ _. c;
    block = block;
    rest = rest;
    out = out;
    sent = sent₀;
    live = live₀;
    room = length buf₀;
  }

  pub exchange-IsExchange :
      ((q : ℕ) → q < v.size → length (block q) ≡ c) → v.size * c ≤ length buf₀ → IsExchange exchange
  exchange-IsExchange lengths room = record {
    rank_lt = conn.rank_lt;
    injective = conn.injective;
    block_length = lengths;
    fits = λ q lt. omega (arith, block_fits q v.size c lt);
    apart = λ q r q_lt r_lt ne. elim (Bool-cases (ltb q r)) [
      | inl lt ↦ inl (block_fits q r c (ltb→lt q r lt))
      | inr ge ↦ inr (block_fits r q c (ground arith))
    ];
  }

  module _ (ex : IsExchange exchange) (few : v.size * c < int_limit) where
    pub offset_small : (q : ℕ) → q < v.size → q * c < int_limit
    offset_small q lt = omega (arith, block_fits q v.size c lt)

    -- Storing the block of the rank at distance k.
    pub place_left :
        (k a : ℕ) (buf : Bytes) (live : List ℕ) (s : Proc)
        → k < v.size
        → length buf ≡ length buf₀
        → s.live ≡ a ∷ live
        → place_block buf
            (pos (left exchange k))
            (pos c)
            (pos c)
            (message a (block (left exchange k)) (pos (length (block (left exchange k)))) 0 true)
            s
          ≡ ok
              (pos 0, patch buf (left exchange k * c) (block (left exchange k)))
              (record s { live = live })
    unfolding place_block
    place_left k a buf live s lt room alloc =
        let q = left exchange k in
        let q_lt : q < v.size = left_of_lt v.size v.rank k conn.rank_lt lt in
        let len = ex.block_length q q_lt in
        let m = message a (block q) (pos (length (block q))) 0 true in
        let whole : take c (block q) ≡ block q = rw (← len) (take_length (block q)) in
        rw (int_product-ok q c (offset_small q q_lt)) (
          rw (memcpy-ok buf (block q) (q * c) c s (omega arith) (omega (arith, ex.fits q q_lt)))
            (rw (destroy-ok m live s alloc, whole)))

    pub last_gathers :
        (k : ℕ) (live₁ : List ℕ) (buf : Bytes) (s : Proc)
        → 0 < k
        → v.size ≡ suc k
        → Ring exchange k k buf s
        → Returns
            (Finished (IsGathered exchange live₁ k))
            (allgather_last v (pos c) (pos c) buf (record s { live = live₁ }))
    unfolding allgather_last
    last_gathers k live₁ buf s k_pos size ring =
        let q = left exchange k in
        let lt : k < v.size = omega arith in
        let q_lt : q < v.size = left_of_lt v.size v.rank k conn.rank_lt lt in
        let before : v.size - 1 ≡ k = omega arith in
        let s₁ : Proc = record s { live = live₁ } in
        let s₂ : Proc = record s₁ {
          inbox = pop_inbox s.inbox (peer q) (rest q);
          live = s.next ∷ live₁;
          next = suc s.next;
        } in
        rw
          (
            before,
            get_offset_rank_left v k conn.rank_lt lt,
            conn.socket_eq q q_lt (left_of_ne v.size v.rank k conn.rank_lt lt k_pos),
          )
          (rw (recv-ok (peer q) (block q) (rest q) s₁ (ring.waiting k k_pos (omega arith) lt)) (
            rw
              (
                before,
                get_offset_rank_left v k conn.rank_lt lt,
                place_left k s.next buf live₁ s₂ lt ring.room refl,
              )
              (returns (
                refl,
                record {
                  room = room_patch exchange ex q buf q_lt ring.room;
                  blocks = Filled-all exchange ex _ (
                      subst (λ t. Filled exchange t (patch buf (q * c) (block q))) (sym size)
                        (Filled-patch exchange ex k buf lt ring.room ring.filled));
                  sent = ring.sent;
                  live = refl;
                },
              ))))

    abbrev pub own : Bytes
    own = patch buf₀ (v.rank * c) (block v.rank)

    pub own-Ring :
        (s : Proc)
        → ((q : ℕ) → q < v.size → q ≢ v.rank → s.inbox (peer q) ≡ some (block q) ∷ rest q)
        → s.statuses ≡ []
        → s.sent ≡ sent₀ ++ outgoing out 1
        → s.live ≡ live₀
        → Ring exchange 1 1 own s
    own-Ring s arrives idle sent live =
        let here : left exchange 0 ≡ v.rank = ground arith in
        record {
          room = room_patch exchange ex v.rank buf₀ conn.rank_lt refl;
          filled =
              subst (λ t. Filled exchange 1 (patch buf₀ (t * c) (block t))) here
                (Filled-patch exchange ex 0 buf₀ (omega (arith, conn.rank_lt)) refl
                  (λ j h. elim h [ ]));
          waiting = λ j j_pos le lt.
              arrives (left exchange j) (left_of_lt v.size v.rank j conn.rank_lt lt)
                (left_of_ne v.size v.rank j conn.rank_lt lt j_pos);
          statuses = idle;
          sent = sent;
          live = live;
        }
