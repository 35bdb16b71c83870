-- ===== src/Mpi/Bcast.antt =====
-- RDMA_Bcast, and RDMA_Allgather and RDMA_Barrier which call it.
pub mod Delivers
use ffrdma.Common.{
  ℕ, ◌-◌, ◌+◌, true, false, Option, none, some, List, [], ◌∷◌, ◌++◌, ℤ, pos, negsuc, leb_ℤ, eqb_ℤ,
  ◌==◌, if◌then◌else◌, take,
}
use ffrdma.Mpi.Machine.{
  unless_refused, Bytes, AMessage, CommView, M, pure, ◌>>=◌, ◌>>◌, demand, scale, int_product,
  memcpy, at, amessage_create, amessage_destroy, send, recv,
}
use ffrdma.Mpi.Loop.{for_each}
use ffrdma.Mpi.Rank.{rdma_socket}
use ffrdma.Mpi.PointToPoint.{Result, bytes_of}
use ffrdma.Mpi.Collective.{
  buffers_refusal, root_refusal, send_or_return, accept_block, on_success, with_buffer,
}

unfoldable pub bcast_refusal : CommView → Option Bytes → ℤ → ℤ → Option ℤ
unfolding root_refusal
bcast_refusal v none n root = some (pos 1)
bcast_refusal v (some b) n root = if leb_ℤ n (pos 0) then some (pos 2) else root_refusal v root

-- One round of the root: nothing for itself, the message for every other rank.
pub bcast_round : CommView → AMessage → ℕ → Bytes → M (ℤ × Bytes)
unfolding send_or_return
bcast_round v msg i b =
    if i == v.rank
    then pure (pos 0, b)
    else (do to ← rdma_socket v (pos i); send_or_return to msg b (pure (pos 0, b)))

pub bcast_root : CommView → Bytes → ℤ → M (ℤ × Bytes)
unfolding bcast_round
bcast_root v buf n = do
  msg ← amessage_create buf n 0 false
  (code, b) ← for_each v.size 0 (bcast_round v msg) buf
  on_success code b (amessage_destroy (some msg) >> pure (pos 0, b))

bcast_received : Bytes → ℤ → Option AMessage → M (ℤ × Bytes)
unfolding accept_block
bcast_received buf n none = pure (pos 4, buf)
bcast_received buf n (some msg) = accept_block buf (pos 0) n msg

pub bcast_leaf : CommView → Bytes → ℤ → ℤ → M (ℤ × Bytes)
unfolding bcast_received
bcast_leaf v buf n root = do from ← rdma_socket v root; m ← recv from; bcast_received buf n m

unfoldable pub rdma_bcast : CommView → Option Bytes → ℤ → ℤ → ℤ → M Result
unfolding bcast_root bcast_leaf
rdma_bcast v buf count_in_byte type root = do
  n ← demand (scale count_in_byte type)
  unless_refused (bcast_refusal v buf n root) (λ code. (code, buf))
      (do
        b ← bytes_of buf
        r ← (if eqb_ℤ (pos v.rank) root then bcast_root v b n else bcast_leaf v b n root)
        with_buffer r)

abbrev pub r_type_byte : ℤ
r_type_byte = pos 3

-- The bytes of the buffer up to `off`, and the given ones behind it.
abbrev pub splice : Bytes → ℤ → Option Bytes → Bytes
splice buf (pos off) (some bytes) = take off buf ++ bytes
splice buf _ _ = buf

allgather_bcast_round : CommView → Bytes → ℤ → ℤ → ℕ → Bytes → M (ℤ × Bytes)
unfolding rdma_bcast
allgather_bcast_round v sendbuf sendcount recvcount i buf =
    if v.rank == i
    then (do
      (code, _) ← rdma_bcast v (some sendbuf) sendcount r_type_byte (pos i)
      on_success code buf (do
        off ← demand (int_product sendcount (pos i))
        buf' ← memcpy buf off sendbuf sendcount
        pure (pos 0, buf')))
    else (do
      off ← demand (int_product recvcount (pos i))
      place ← demand (at buf off)
      (code, out) ← rdma_bcast v (some place) recvcount r_type_byte (pos i)
      pure (code, splice buf off out))

pub rdma_allgather : CommView → Option Bytes → ℤ → ℤ → Option Bytes → ℤ → ℤ → M Result
unfolding allgather_bcast_round
rdma_allgather v sendbuf sendcount sendtype recvbuf recvcount recvtype =
    unless_refused (buffers_refusal sendbuf recvbuf sendcount recvcount) (λ code. (code, recvbuf))
      (do
        send_bytes ← bytes_of sendbuf
        recv_bytes ← bytes_of recvbuf
        sendcount' ← demand (scale sendcount sendtype)
        recvcount' ← demand (scale recvcount recvtype)
        r ← for_each v.size 0 (allgather_bcast_round v send_bytes sendcount' recvcount') recv_bytes
        with_buffer r)

-- Rank 0 waits for a message of every other rank; a NULL message is destroyed like any other.
barrier_round : CommView → ℕ → Unit {0} → M (ℤ × Unit {0})
barrier_round v i u = do
  from ← rdma_socket v (pos i)
  m ← recv from
  amessage_destroy m
  pure (pos 0, u)

abbrev finish : Bytes
finish = b'0' ∷ []

-- The other ranks do not free what they receive, and all codes are dropped.
barrier_leaf : CommView → M ℤ
barrier_leaf v = do
  socket ← rdma_socket v (pos 0)
  msg ← amessage_create finish (pos 1) 0 false
  flag ← send socket msg
  amessage_destroy (some msg)
  m ← recv socket
  pure (pos 0)

barrier_root : CommView → M ℤ
unfolding rdma_bcast barrier_round
barrier_root v = do
  r ← for_each (v.size - 1) 1 (barrier_round v) tt
  b ← rdma_bcast v (some finish) (pos 1) r_type_byte (pos 0)
  pure (pos 0)

pub rdma_barrier : CommView → M ℤ
unfolding barrier_leaf barrier_root
rdma_barrier v = if v.rank == 0 then barrier_root v else barrier_leaf v
