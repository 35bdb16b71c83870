-- ===== src/Mpi/Reduce.antt =====
-- RDMA_Reduce and RDMA_Allreduce of src/mpi.cc. What the machine does with two elements of a type is
-- a parameter: sums of double and of the integer types, and the least and the greatest of two.
pub mod Elements
pub mod Folded
pub mod Delivers
use ffrdma.Common.{
  ℕ, zero, suc, ◌*◌, ◌/◌, Bool, true, false, ◌&&◌, Option, none, some, ℤ, pos, pos_part, eqb_ℤ,
  ◌==◌, leb, if◌then◌else◌, length, take, drop, ◌++◌,
}
use ffrdma.Mpi.Machine.{
  Bytes, AMessage, CommView, M, pure, ◌>>=◌, ◌>>◌, demand, scale, memcpy, amessage_create,
  amessage_destroy, send, recv,
}
use ffrdma.Mpi.Loop.{for_each}
use ffrdma.Mpi.Rank.{rdma_socket}
use ffrdma.Mpi.PointToPoint.{Result, bytes_of}
use ffrdma.Mpi.Collective.{with_buffer}
use ffrdma.Mpi.Bcast.{rdma_bcast}

-- Two elements to one, each as its bytes. The sum is none where it overflows a signed type, which is
-- undefined.
pub record ElementOp : Type 0 where
  pub sum : Bytes → Bytes → Option Bytes
  pub least : Bytes → Bytes → Bytes
  pub greatest : Bytes → Bytes → Bytes

pub record ElementOps : Type 0 where
  pub of_double : ElementOp
  pub of_int : ElementOp
  pub of_long_long : ElementOp

-- op: 0 the sum, 1 the least, any other the greatest.
abbrev pub chosen : ElementOp → ℤ → Bytes → Bytes → Option Bytes
chosen e op =
    if eqb_ℤ op (pos 0)
    then e.sum
    else (if eqb_ℤ op (pos 1) then (λ a b. some (e.least a b)) else (λ a b. some (e.greatest a b)))

-- The size of an element, and its operations, for the types that the code combines.
unfoldable pub layout : ElementOps → ℤ → Option (ℕ × ElementOp)
layout ops datatype =
    if eqb_ℤ datatype (pos 0)
    then some (8, ops.of_double)
    else (if eqb_ℤ datatype (pos 1)
        then some (4, ops.of_int)
        else (if eqb_ℤ datatype (pos 2) then some (8, ops.of_long_long) else none))

-- An element and the elements behind it.
abbrev pub append_element : Option Bytes → Option Bytes → Option Bytes
append_element none rest = none
append_element (some x) none = none
append_element (some x) (some rest) = some (x ++ rest)

-- resbuf[j] = f(resbuf[j], msgbuffer[j]) for n elements
unfoldable pub elem_wise : (Bytes → Bytes → Option Bytes) → ℕ → ℕ → Bytes → Bytes → Option Bytes
elem_wise f size zero buf msg = some buf
elem_wise f size (suc n) buf msg =
    append_element (f (take size buf) (take size msg))
      (elem_wise f size n (drop size buf) (drop size msg))

-- The loop over count / size elements; beyond a buffer it is a fault.
abbrev pub merge_elements : (Bytes → Bytes → Option Bytes) → ℕ → ℕ → Bytes → Bytes → Option Bytes
merge_elements f size n buf msg =
    if leb (n * size) (length buf) && leb (n * size) (length msg)
    then elem_wise f size n buf msg
    else none

abbrev pub merge_layout : Option (ℕ × ElementOp) → ℤ → ℕ → Bytes → Bytes → Option Bytes
merge_layout none op count buf msg = some buf
merge_layout (some (size, e)) op count buf msg =
    merge_elements (chosen e op) size (count / size) buf msg

module _ (ops : ElementOps) where
  -- A round of the root. It reads msg->buffer with no test for NULL.
  unfoldable pub reduce_round : CommView → ℤ → ℤ → ℤ → ℕ → Bytes → M (ℤ × Bytes)
  reduce_round v count datatype op i buf = if i == v.rank then pure (pos 0, buf) else (do
    from ← rdma_socket v (pos i)
    m ← recv from
    msg ← demand m
    buf' ← demand (merge_layout (layout ops datatype) op (pos_part count) buf msg.buffer)
    amessage_destroy (some msg)
    pure (pos 0, buf'))

  unfoldable pub reduce_root : CommView → Bytes → Bytes → ℤ → ℤ → ℤ → M (ℤ × Bytes)
  reduce_root v sendbuf recvbuf count datatype op = do
    buf ← memcpy recvbuf (pos 0) sendbuf count
    for_each v.size 0 (reduce_round v count datatype op) buf

  -- The status of send_ is not used.
  unfoldable pub reduce_leaf : CommView → Bytes → ℤ → ℤ → M ℤ
  reduce_leaf v sendbuf count root = do
    msg ← amessage_create sendbuf count 0 false
    to ← rdma_socket v root
    send to msg
    amessage_destroy (some msg)
    pure (pos 0)

  unfoldable pub rdma_reduce : CommView → Option Bytes → Option Bytes → ℤ → ℤ → ℤ → ℤ → M Result
  rdma_reduce v sendbuf recvbuf count datatype op root = do
    count' ← demand (scale count datatype)
    send_bytes ← bytes_of sendbuf
    (if eqb_ℤ (pos v.rank) root
        then (do
          recv_bytes ← bytes_of recvbuf
          r ← reduce_root v send_bytes recv_bytes count' datatype op
          with_buffer r)
        else (do code ← reduce_leaf v send_bytes count' root; pure (code, recvbuf)))

  -- The codes of the two calls are not used.
  unfoldable pub rdma_allreduce : CommView → Option Bytes → Option Bytes → ℤ → ℤ → ℤ → M Result
  rdma_allreduce v sendbuf recvbuf count datatype op = do
    (code, buf) ← rdma_reduce v sendbuf recvbuf count datatype op (pos 0)
    (code', buf') ← rdma_bcast v buf count datatype (pos 0)
    pure (pos 0, buf')
