-- ===== src/Mpi/Allgather.antt =====
-- RDMA_Allgather_exp of src/mpi.cc: every rank sends its block to the ranks on its right, one at a
-- time, and receives from those on its left.
pub mod Schedule
pub mod Delivers
use ffrdma.Common.{ℕ, ◌-◌, true, false, Option, none, some, ℤ, pos, leb_ℤ, eqb_ℤ, if◌then◌else◌}
use ffrdma.Mpi.Machine.{
  unless_refused, Bytes, AMessage, CommView, M, pure, ◌>>=◌, ◌>>◌, demand, scale, int_product,
  memcpy, amessage_create, amessage_destroy, send, recv,
}
use ffrdma.Mpi.Loop.{for_each}
use ffrdma.Mpi.Rank.{rdma_socket, get_offset_rank}
use ffrdma.Mpi.Collective.{buffers_refusal, send_or_return, with_buffer}
use ffrdma.Mpi.PointToPoint.{Result, bytes_of}

-- memcpy(recvbuf + rank * recvcount, ...), and the message is freed.
unfoldable pub place_block : Bytes → ℤ → ℤ → ℤ → AMessage → M (ℤ × Bytes)
place_block buf rank recvcount sendcount msg = do
  off ← demand (int_product rank recvcount)
  buf' ← memcpy buf off msg.buffer sendcount
  amessage_destroy (some msg)
  pure (pos 0, buf')

pub received_block : Bytes → ℤ → ℤ → ℤ → AMessage → Option AMessage → M (ℤ × Bytes)
unfolding place_block
received_block buf rank recvcount sendcount send_msg none =
    amessage_destroy (some send_msg) >> pure (pos 4, buf)
received_block buf rank recvcount sendcount send_msg (some msg) =
    place_block buf rank recvcount sendcount msg

pub allgather_round : CommView → ℤ → ℤ → AMessage → ℕ → Bytes → M (ℤ × Bytes)
unfolding send_or_return received_block
allgather_round v sendcount recvcount send_msg i buf = do
  let recv_rank = get_offset_rank v (pos (i - 1)) false
  to ← rdma_socket v (get_offset_rank v (pos i) true)
  send_or_return to send_msg buf (do
    from ← rdma_socket v recv_rank
    m ← recv from
    received_block buf recv_rank recvcount sendcount send_msg m)

-- After the loop; on NULL the code destroys the NULL message.
unfoldable pub allgather_last : CommView → ℤ → ℤ → Bytes → M (ℤ × Bytes)
unfolding place_block
allgather_last v sendcount recvcount buf = do
  let last_recv_rank = get_offset_rank v (pos (v.size - 1)) false
  from ← rdma_socket v last_recv_rank
  m ← recv from
  elim m [
    | none ↦ (amessage_destroy none >> pure (pos 4, buf))
    | some msg ↦ place_block buf last_recv_rank recvcount sendcount msg
  ]

pub allgather_rounds : CommView → Bytes → ℤ → ℤ → AMessage → Bytes → M (ℤ × Bytes)
unfolding allgather_round allgather_last
allgather_rounds v sendbuf sendcount recvcount send_msg buf = do
  off ← demand (int_product (pos v.rank) recvcount)
  buf' ← memcpy buf off sendbuf sendcount
  (code, buf'') ← for_each (v.size - 2) 2 (allgather_round v sendcount recvcount send_msg) buf'
  elim (eqb_ℤ code (pos 0)) [
    | true ↦ (amessage_destroy (some send_msg) >> allgather_last v sendcount recvcount buf'')
    | false ↦ pure (code, buf'')
  ]

pub allgather_blocks : CommView → Bytes → ℤ → ℤ → Bytes → M (ℤ × Bytes)
unfolding allgather_rounds send_or_return
allgather_blocks v sendbuf sendcount recvcount buf = do
  send_msg ← amessage_create sendbuf sendcount 0 false
  first ← rdma_socket v (get_offset_rank v (pos 1) true)
  send_or_return first send_msg buf (allgather_rounds v sendbuf sendcount recvcount send_msg buf)

unfoldable pub rdma_allgather_exp :
    CommView → Option Bytes → ℤ → ℤ → Option Bytes → ℤ → ℤ → M Result
unfolding allgather_blocks
rdma_allgather_exp v sendbuf sendcount sendtype recvbuf recvcount recvtype =
    unless_refused (buffers_refusal sendbuf recvbuf sendcount recvcount) (λ code. (code, recvbuf))
      (do
        send_bytes ← bytes_of sendbuf
        recv_bytes ← bytes_of recvbuf
        sendcount' ← demand (scale sendcount sendtype)
        recvcount' ← demand (scale recvcount recvtype)
        r ← allgather_blocks v send_bytes sendcount' recvcount' recv_bytes
        with_buffer r)
