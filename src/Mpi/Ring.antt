-- ===== src/Mpi/Ring.antt =====
-- The ring schedule that RDMA_Allgather_exp, RDMA_Allgatherv_exp and RDMA_Alltoall share, as a loop
-- invariant: by round K a rank has sent K blocks and holds those of its K nearest left neighbours.
use ffrdma.Common.{
  ℕ, zero, suc, ◌+◌, ◌≤◌, ◌<◌, ◌≡◌, sym, ◌∙◌, ◌≢◌, ◌⊎◌, inl, inr, Option, some, List, [], ◌∷◌, ◌++◌,
  arith, length, ◌==◌, ne→==, ==→eq, ==-false→ne, Bool-cases, subst,
}
use ffrdma.Mpi.Machine.{Bytes, Proc, pop_inbox}
use ffrdma.Mpi.Memory.{slice, patch, length-patch, slice-patch_self, slice-patch_other}
use ffrdma.Mpi.Rank.{
  left_of, left_of_lt, left_of_injective, left_distance, left_distance_lt, left_of-left_distance,
}

-- One rank's part in an exchange: the sockets of the others, where the block of each rank goes in
-- the receive buffer, what arrives from each, the i-th message that goes out, and the state in
-- which the exchange started.
pub record Exchange : Type 0 where
  pub size : ℕ
  pub rank : ℕ
  pub peer : ℕ → ℕ
  pub off : ℕ → ℕ
  pub cnt : ℕ → ℕ
  pub block : ℕ → Bytes
  pub rest : ℕ → List (Option Bytes)
  pub out : ℕ → ℕ × Bytes
  pub sent : List (ℕ × Bytes)
  pub live : List ℕ
  pub room : ℕ

pub record IsExchange (x : Exchange) : Type 0 where
  pub rank_lt : x.rank < x.size
  pub injective : (q r : ℕ) → q < x.size → r < x.size → x.peer q ≡ x.peer r → q ≡ r
  pub block_length : (q : ℕ) → q < x.size → length (x.block q) ≡ x.cnt q
  pub fits : (q : ℕ) → q < x.size → x.off q + x.cnt q ≤ x.room
  pub apart :
      (q r : ℕ)
      → q < x.size
      → r < x.size
      → q ≢ r
      → (x.off q + x.cnt q ≤ x.off r) ⊎ (x.off r + x.cnt r ≤ x.off q)

-- The first k messages.
abbrev pub outgoing : (ℕ → ℕ × Bytes) → ℕ → List (ℕ × Bytes)
outgoing f zero = []
outgoing f (suc k) = outgoing f k ++ (f (suc k) ∷ [])

abbrev pub left : Exchange → ℕ → ℕ
left x j = left_of x.size x.rank j

abbrev pub Filled : Exchange → ℕ → Bytes → Type 0
Filled x k buf =
    (j : ℕ) → j < k → slice (x.off (left x j)) (x.cnt (left x j)) buf ≡ x.block (left x j)

abbrev pub Waiting : Exchange → ℕ → (ℕ → List (Option Bytes)) → Type 0
Waiting x k inbox =
    (j : ℕ)
    → 0 < j
    → k ≤ j
    → j < x.size
    → inbox (x.peer (left x j)) ≡ some (x.block (left x j)) ∷ x.rest (left x j)

-- After `sends` messages out, and with the blocks of the distances below `k` in place.
pub record Ring (x : Exchange) (sends k : ℕ) (buf : Bytes) (s : Proc) : Type 0 where
  pub room : length buf ≡ x.room
  pub filled : Filled x k buf
  pub waiting : Waiting x k s.inbox
  pub statuses : s.statuses ≡ []
  pub sent : s.sent ≡ x.sent ++ outgoing x.out sends
  pub live : s.live ≡ x.live

-- A round starts at index K + 1.
abbrev pub Round : Exchange → ℕ → Bytes → Proc → Type 0
Round x zero buf s = ⊥
Round x (suc k) buf s = Ring x k k buf s

module _ (x : Exchange) (ex : IsExchange x) where
  pub room_patch :
      (q : ℕ) (buf : Bytes)
      → q < x.size
      → length buf ≡ x.room
      → length (patch buf (x.off q) (x.block q)) ≡ x.room
  room_patch q buf lt room =
      length-patch buf (x.off q) (x.block q) (omega (arith, ex.block_length q lt, ex.fits q lt))
      ∙ room

  slice_self :
      (q : ℕ) (buf : Bytes)
      → q < x.size
      → length buf ≡ x.room
      → slice (x.off q) (x.cnt q) (patch buf (x.off q) (x.block q)) ≡ x.block q
  slice_self q buf lt room = rw (← ex.block_length q lt) (
      slice-patch_self buf (x.off q) (x.block q)
        (omega (arith, ex.block_length q lt, ex.fits q lt)))

  slice_other :
      (q r : ℕ) (buf : Bytes)
      → q < x.size
      → r < x.size
      → q ≢ r
      → length buf ≡ x.room
      → slice (x.off q) (x.cnt q) (patch buf (x.off r) (x.block r)) ≡ slice (x.off q) (x.cnt q) buf
  slice_other q r buf q_lt r_lt ne room =
      slice-patch_other buf (x.off r) (x.block r) (x.off q) (x.cnt q)
        (omega (arith, ex.fits r r_lt)) (rw (ex.block_length r r_lt) (ex.apart q r q_lt r_lt ne))

  apart_of_ne : (j k : ℕ) → j < x.size → k < x.size → j ≢ k → left x j ≢ left x k
  apart_of_ne j k j_lt k_lt ne e = ne (left_of_injective x.size x.rank j ex.rank_lt j_lt k k_lt e)

  -- The next block goes to its place and leaves the others where they are.
  pub Filled-patch :
      (k : ℕ) (buf : Bytes)
      → k < x.size
      → length buf ≡ x.room
      → Filled x k buf
      → Filled x (suc k) (patch buf (x.off (left x k)) (x.block (left x k)))
  Filled-patch k buf lt room filled j j_lt = elim (Bool-cases (j == k)) [
    | inl hit ↦
        subst
          (λ t.
            slice (x.off (left x t)) (x.cnt (left x t))
              (patch buf (x.off (left x k)) (x.block (left x k)))
            ≡ x.block (left x t))
          (sym (==→eq j k hit))
          (slice_self (left x k) buf (left_of_lt x.size x.rank k ex.rank_lt lt) room)
    | inr miss ↦
        slice_other (left x j) (left x k) buf (left_of_lt x.size x.rank j ex.rank_lt (omega arith))
          (left_of_lt x.size x.rank k ex.rank_lt lt)
          (apart_of_ne j k (omega arith) lt (==-false→ne j k miss)) room
        ∙ filled j (omega (arith, ==-false→ne j k miss))
  ]

  pub Waiting-pop :
      (k : ℕ) (inbox : ℕ → List (Option Bytes))
      → k < x.size
      → Waiting x k inbox
      → Waiting x (suc k) (pop_inbox inbox (x.peer (left x k)) (x.rest (left x k)))
  Waiting-pop k inbox lt waiting j j_pos le j_lt =
      rw
        (ne→== (x.peer (left x j)) (x.peer (left x k)) (λ e. apart_of_ne j k j_lt lt (omega arith) (
          ex.injective (left x j) (left x k) (left_of_lt x.size x.rank j ex.rank_lt j_lt)
            (left_of_lt x.size x.rank k ex.rank_lt lt) e)))
        (waiting j j_pos (omega arith) j_lt)

  -- With every distance done, every rank's block is in its place.
  pub Filled-all :
      (buf : Bytes)
      → Filled x x.size buf
      → (q : ℕ) → q < x.size
      → slice (x.off q) (x.cnt q) buf ≡ x.block q
  Filled-all buf filled q lt =
      subst (λ t. slice (x.off t) (x.cnt t) buf ≡ x.block t)
        (left_of-left_distance x.size x.rank q ex.rank_lt lt)
        (filled (left_distance x.size x.rank q) (left_distance_lt x.size x.rank q ex.rank_lt lt))
