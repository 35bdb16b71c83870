-- ===== src/Mpi/Gather.antt =====
-- RDMA_Gather and RDMA_Scatter of src/mpi.cc.
pub mod Delivers
pub mod Deals
use ffrdma.Common.{ℕ, true, false, Option, none, some, ℤ, pos, negsuc, eqb_ℤ, ◌==◌, if◌then◌else◌}
use ffrdma.Mpi.Machine.{
  Bytes, AMessage, CommView, M, pure, ◌>>=◌, ◌>>◌, demand, unless_refused, scale, int_product,
  memcpy, at, amessage_create, amessage_destroy, send, recv,
}
use ffrdma.Mpi.Loop.{for_each}
use ffrdma.Mpi.Rank.{rdma_socket}
use ffrdma.Mpi.PointToPoint.{Result, bytes_of}
use ffrdma.Mpi.Collective.{
  buffers_refusal, root_refusal, send_or_return, accept_block, on_success, with_buffer,
}

-- The checks of the two operations: the buffers and counts, then the root.
unfoldable pub rooted_refusal : CommView → Option Bytes → Option Bytes → ℤ → ℤ → ℤ → Option ℤ
unfolding buffers_refusal root_refusal
rooted_refusal v sendbuf recvbuf sendcount recvcount root =
    elim (buffers_refusal sendbuf recvbuf sendcount recvcount) [
      | some code ↦ some code
      | none ↦ root_refusal v root
    ]

pub gathered : Bytes → ℤ → ℕ → Option AMessage → M (ℤ × Bytes)
unfolding accept_block
gathered buf recvcount i none = pure (pos 4, buf)
gathered buf recvcount i (some msg) = do
  off ← demand (int_product recvcount (pos i))
  accept_block buf off recvcount msg

-- One round of the root: its own block at sendcount * i, another's at recvcount * i.
pub gather_round : CommView → Bytes → ℤ → ℤ → ℕ → Bytes → M (ℤ × Bytes)
unfolding gathered
gather_round v sendbuf sendcount recvcount i buf =
    if i == v.rank
    then (do
      off ← demand (int_product sendcount (pos i))
      buf' ← memcpy buf off sendbuf sendcount
      pure (pos 0, buf'))
    else (do from ← rdma_socket v (pos i); m ← recv from; gathered buf recvcount i m)

pub gather_leaf : CommView → Bytes → ℤ → ℤ → Bytes → M (ℤ × Bytes)
gather_leaf v sendbuf sendcount root buf = do
  msg ← amessage_create sendbuf sendcount 0 false
  to ← rdma_socket v root
  res ← send to msg
  amessage_destroy (some msg)
  pure (res, buf)

unfoldable pub rdma_gather : CommView → Option Bytes → ℤ → ℤ → Option Bytes → ℤ → ℤ → ℤ → M Result
unfolding gather_round gather_leaf
rdma_gather v sendbuf sendcount sendtype recvbuf recvcount recvtype root =
    unless_refused (rooted_refusal v sendbuf recvbuf sendcount recvcount root)
      (λ code. (code, recvbuf))
      (do
        send_bytes ← bytes_of sendbuf
        recv_bytes ← bytes_of recvbuf
        sendcount' ← demand (scale sendcount sendtype)
        recvcount' ← demand (scale recvcount recvtype)
        r ←
            (if eqb_ℤ (pos v.rank) root
              then for_each v.size 0 (gather_round v send_bytes sendcount' recvcount') recv_bytes
              else gather_leaf v send_bytes sendcount' root recv_bytes)
        with_buffer r)

pub scatter_part : CommView → Bytes → ℤ → ℕ → Bytes → M (ℤ × Bytes)
unfolding send_or_return
scatter_part v part sendcount i buf =
    if i == v.rank then (do buf' ← memcpy buf (pos 0) part sendcount; pure (pos 0, buf')) else (do
      msg ← amessage_create part sendcount 0 false
      to ← rdma_socket v (pos i)
      send_or_return to msg buf (amessage_destroy (some msg) >> pure (pos 0, buf)))

-- One round of the root: its own block to its receive buffer, the others' out.
pub scatter_round : CommView → Bytes → ℤ → ℕ → Bytes → M (ℤ × Bytes)
unfolding scatter_part
scatter_round v sendbuf sendcount i buf = do
  off ← demand (int_product sendcount (pos i))
  part ← demand (at sendbuf off)
  scatter_part v part sendcount i buf

scattered : Bytes → ℤ → Option AMessage → M (ℤ × Bytes)
unfolding accept_block
scattered buf recvcount none = pure (negsuc 0, buf)
scattered buf recvcount (some msg) = accept_block buf (pos 0) recvcount msg

pub scatter_leaf : CommView → ℤ → ℤ → Bytes → M (ℤ × Bytes)
unfolding scattered
scatter_leaf v recvcount root buf = do
  from ← rdma_socket v root
  m ← recv from
  scattered buf recvcount m

unfoldable pub rdma_scatter : CommView → Option Bytes → ℤ → ℤ → Option Bytes → ℤ → ℤ → ℤ → M Result
unfolding scatter_round scatter_leaf
rdma_scatter v sendbuf sendcount sendtype recvbuf recvcount recvtype root =
    unless_refused (rooted_refusal v sendbuf recvbuf sendcount recvcount root)
      (λ code. (code, recvbuf))
      (do
        send_bytes ← bytes_of sendbuf
        recv_bytes ← bytes_of recvbuf
        sendcount' ← demand (scale sendcount sendtype)
        recvcount' ← demand (scale recvcount recvtype)
        r ←
            (if eqb_ℤ (pos v.rank) root
              then for_each v.size 0 (scatter_round v send_bytes sendcount') recv_bytes
              else scatter_leaf v recvcount' root recv_bytes)
        with_buffer r)
