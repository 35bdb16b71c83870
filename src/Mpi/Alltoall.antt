-- ===== src/Mpi/Alltoall.antt =====
-- RDMA_Alltoall of src/mpi.cc: the ring schedule of RDMA_Allgather_exp with a block for each rank.
pub mod Delivers
use ffrdma.Common.{ℕ, ◌-◌, true, false, Option, none, some, ℤ, pos}
use ffrdma.Mpi.Machine.{
  Bytes, AMessage, CommView, M, pure, ◌>>=◌, ◌>>◌, demand, unless_refused, scale, int_product,
  memcpy, at, amessage_create, amessage_destroy, recv,
}
use ffrdma.Mpi.Loop.{for_each}
use ffrdma.Mpi.Rank.{rdma_socket, get_offset_rank}
use ffrdma.Mpi.PointToPoint.{Result, bytes_of}
use ffrdma.Mpi.Collective.{buffers_refusal, send_or_return, on_success, with_buffer}
use ffrdma.Mpi.Allgather.{place_block, allgather_last}

-- The message that holds the block for `rank`.
unfoldable pub block_message : Bytes → ℤ → ℤ → M AMessage
block_message sendbuf sendcount rank = do
  off ← demand (int_product rank sendcount)
  part ← demand (at sendbuf off)
  amessage_create part sendcount 0 false

-- On NULL the code destroys the sent message a second time.
unfoldable pub exchanged_block : Bytes → ℤ → ℤ → ℤ → AMessage → Option AMessage → M (ℤ × Bytes)
unfolding place_block
exchanged_block buf rank recvcount sendcount send_msg none =
    amessage_destroy (some send_msg) >> pure (pos 4, buf)
exchanged_block buf rank recvcount sendcount send_msg (some msg) =
    place_block buf rank recvcount sendcount msg

unfoldable pub alltoall_round : CommView → Bytes → ℤ → ℤ → ℕ → Bytes → M (ℤ × Bytes)
unfolding send_or_return exchanged_block
alltoall_round v sendbuf sendcount recvcount i buf = do
  let send_rank = get_offset_rank v (pos i) true
  let recv_rank = get_offset_rank v (pos (i - 1)) false
  send_msg ← block_message sendbuf sendcount send_rank
  to ← rdma_socket v send_rank
  send_or_return to send_msg buf (do
    amessage_destroy (some send_msg)
    from ← rdma_socket v recv_rank
    m ← recv from
    exchanged_block buf recv_rank recvcount sendcount send_msg m)

-- Its own block, the rounds, and the last receive, which is that of RDMA_Allgather_exp.
pub alltoall_rounds : CommView → Bytes → ℤ → ℤ → Bytes → M (ℤ × Bytes)
unfolding alltoall_round allgather_last
alltoall_rounds v sendbuf sendcount recvcount buf = do
  dst ← demand (int_product (pos v.rank) recvcount)
  src ← demand (int_product (pos v.rank) sendcount)
  part ← demand (at sendbuf src)
  buf' ← memcpy buf dst part sendcount
  (code, buf'') ← for_each (v.size - 2) 2 (alltoall_round v sendbuf sendcount recvcount) buf'
  on_success code buf'' (allgather_last v sendcount recvcount buf'')

pub alltoall_blocks : CommView → Bytes → ℤ → ℤ → Bytes → M (ℤ × Bytes)
unfolding alltoall_rounds send_or_return
alltoall_blocks v sendbuf sendcount recvcount buf = do
  let first_send_rank = get_offset_rank v (pos 1) true
  send_msg ← block_message sendbuf sendcount first_send_rank
  to ← rdma_socket v first_send_rank
  send_or_return to send_msg buf
      (amessage_destroy (some send_msg) >> alltoall_rounds v sendbuf sendcount recvcount buf)

unfoldable pub rdma_alltoall : CommView → Option Bytes → ℤ → ℤ → Option Bytes → ℤ → ℤ → M Result
unfolding alltoall_blocks
rdma_alltoall v sendbuf sendcount sendtype recvbuf recvcount recvtype =
    unless_refused (buffers_refusal sendbuf recvbuf sendcount recvcount) (λ code. (code, recvbuf))
      (do
        send_bytes ← bytes_of sendbuf
        recv_bytes ← bytes_of recvbuf
        sendcount' ← demand (scale sendcount sendtype)
        recvcount' ← demand (scale recvcount recvtype)
        r ← alltoall_blocks v send_bytes sendcount' recvcount' recv_bytes
        with_buffer r)
