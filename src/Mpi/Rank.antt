-- ===== src/Mpi/Rank.antt =====
-- RDMA_GetOffsetRank of src/mpi.cc, and the neighbours on the ring of ranks.
use ffrdma.Common.{
  ℕ, ◌+◌, ◌-◌, ◌<◌, ◌≡◌, ◌≢◌, arith, ℤ, pos, ◌+ℤ◌, ◌-ℤ◌, ltb_ℤ, ltb, leb, Bool, true, false, Option,
  if◌then◌else◌,
}
use ffrdma.Mpi.Machine.{CommView, M, demand}

-- The socket of a rank, RDMA_Socket.
abbrev pub rdma_socket : CommView → ℤ → M (Option ℕ)
rdma_socket v r = demand (v.socket r)

unfoldable pub get_offset_rank : CommView → ℤ → Bool → ℤ
get_offset_rank v offset true =
    let offset_rank = pos v.rank +ℤ offset in
    if ltb_ℤ (pos v.size -ℤ pos 1) offset_rank then offset_rank -ℤ pos v.size else offset_rank
get_offset_rank v offset false =
    let offset_rank = pos v.rank -ℤ offset in
    if ltb_ℤ offset_rank (pos 0) then offset_rank +ℤ pos v.size else offset_rank

-- The rank `i` places to the right, and to the left, on a ring of `n`.
abbrev pub right_of : ℕ → ℕ → ℕ → ℕ
right_of n r i = if ltb (r + i) n then r + i else r + i - n

abbrev pub left_of : ℕ → ℕ → ℕ → ℕ
left_of n r i = if leb i r then r - i else r + n - i

-- How far `q` lies to the left of `r`.
abbrev pub left_distance : ℕ → ℕ → ℕ → ℕ
left_distance n r q = if leb q r then r - q else r + n - q

module _ (v : CommView) (i : ℕ) (r_lt : v.rank < v.size) (i_lt : i < v.size) where
  pub get_offset_rank_right : get_offset_rank v (pos i) true ≡ pos (right_of v.size v.rank i)
  unfolding get_offset_rank
  get_offset_rank_right = ground arith

  pub get_offset_rank_left : get_offset_rank v (pos i) false ≡ pos (left_of v.size v.rank i)
  unfolding get_offset_rank
  get_offset_rank_left = ground arith

module _ (n r i : ℕ) (r_lt : r < n) (i_lt : i < n) where
  pub right_of_lt : right_of n r i < n
  right_of_lt = ground arith

  pub left_of_lt : left_of n r i < n
  left_of_lt = ground arith

  pub right_of_ne : 0 < i → right_of n r i ≢ r
  right_of_ne h = ground arith

  pub left_of_ne : 0 < i → left_of n r i ≢ r
  left_of_ne h = ground arith

  -- Going i to the right and i to the left leads back.
  pub left_of-right_of : left_of n (right_of n r i) i ≡ r
  left_of-right_of = ground arith

  pub left_of-left_distance : left_of n r (left_distance n r i) ≡ i
  left_of-left_distance = ground arith

  pub left_distance_lt : left_distance n r i < n
  left_distance_lt = ground arith

  pub left_distance_pos : i ≢ r → 0 < left_distance n r i
  left_distance_pos h = ground arith

  pub left_of_injective : (j : ℕ) → j < n → left_of n r i ≡ left_of n r j → i ≡ j
  left_of_injective j h e = ground arith
