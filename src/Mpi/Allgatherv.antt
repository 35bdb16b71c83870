-- ===== src/Mpi/Allgatherv.antt =====
-- RDMA_Allgatherv_exp of src/mpi.cc: blocks of different lengths, each at a displacement of its own.
use ffrdma.Common.{
  zero, suc, suc, ℕ, ◌-◌, true, false, Option, none, some, List, [], ◌∷◌, ℤ, pos, negsuc, leb_ℤ,
  eqb_ℤ, if◌then◌else◌, get_elem?,
}
use ffrdma.Mpi.Machine.{
  unless_refused, Bytes, AMessage, CommView, M, pure, ◌>>=◌, ◌>>◌, demand, scale, memcpy,
  amessage_create, amessage_destroy, recv,
}
use ffrdma.Mpi.Loop.{for_each}
use ffrdma.Mpi.Rank.{rdma_socket, get_offset_rank}
use ffrdma.Mpi.Collective.{send_or_return}
use ffrdma.Mpi.PointToPoint.{bytes_of}

-- The return value, the receive buffer, and the two arrays, which the call scales in place.
pub record Gathered : Type 0 where
  pub code : ℤ
  pub recvbuf : Option Bytes
  pub recvcount : Option (List ℤ)
  pub displs : List ℤ

-- An array of int read at a rank; a fault outside of it.
abbrev pub entry : List ℤ → ℤ → Option ℤ
entry xs (pos i) = get_elem? xs i
entry xs (negsuc i) = none

abbrev pub scaled_head : ℤ → Option ℤ → Option (List ℤ) → Option (List ℤ)
scaled_head type none rest = none
scaled_head type (some x) none = none
scaled_head type (some x) (some xs) = some (x ∷ xs)

-- The loop that scales the first n entries.
unfoldable pub scale_all : ℤ → ℕ → List ℤ → Option (List ℤ)
scale_all type zero xs = some xs
scale_all type (suc n) [] = none
scale_all type (suc n) (x ∷ xs) = scaled_head type (scale x type) (scale_all type n xs)

-- sendcount <= 0 || recvcount <= 0, where recvcount is a pointer: it is so for NULL.
unfoldable pub allgatherv_refusal : Option Bytes → Option Bytes → ℤ → Option (List ℤ) → Option ℤ
allgatherv_refusal none recvbuf sendcount recvcount = some (pos 1)
allgatherv_refusal (some b) none sendcount recvcount = some (pos 1)
allgatherv_refusal (some b) (some r) sendcount none = some (pos 2)
allgatherv_refusal (some b) (some r) sendcount (some counts) =
    if leb_ℤ sendcount (pos 0) then some (pos 2) else none

-- A message of the expected length is copied to its displacement and freed. On a wrong length the
-- message that was sent is freed, and not this one.
unfoldable pub place_at : AMessage → List ℤ → List ℤ → ℤ → Bytes → AMessage → M (ℤ × Bytes)
place_at send_msg recvcount displs recv_rank buf msg = do
  n ← demand (entry recvcount recv_rank)
  (if eqb_ℤ msg.length n
      then (do
        off ← demand (entry displs recv_rank)
        buf' ← memcpy buf off msg.buffer n
        amessage_destroy (some msg)
        pure (pos 0, buf'))
      else (amessage_destroy (some send_msg) >> pure (pos 5, buf)))

-- In the loop NULL frees nothing.
abbrev pub placed_message : AMessage → List ℤ → List ℤ → ℤ → Bytes → Option AMessage → M (ℤ × Bytes)
placed_message send_msg recvcount displs recv_rank buf none = pure (pos 4, buf)
placed_message send_msg recvcount displs recv_rank buf (some msg) =
    place_at send_msg recvcount displs recv_rank buf msg

unfoldable pub allgatherv_round : CommView → List ℤ → List ℤ → AMessage → ℕ → Bytes → M (ℤ × Bytes)
allgatherv_round v recvcount displs send_msg i buf = do
  let recv_rank = get_offset_rank v (pos (i - 1)) false
  to ← rdma_socket v (get_offset_rank v (pos i) true)
  send_or_return to send_msg buf (do
    from ← rdma_socket v recv_rank
    m ← recv from
    placed_message send_msg recvcount displs recv_rank buf m)

-- After the loop the message that was sent is freed once more where the last receive goes wrong.
abbrev pub placed_last : AMessage → List ℤ → List ℤ → ℤ → Bytes → Option AMessage → M (ℤ × Bytes)
placed_last send_msg recvcount displs recv_rank buf none =
    amessage_destroy (some send_msg) >> pure (pos 4, buf)
placed_last send_msg recvcount displs recv_rank buf (some msg) =
    place_at send_msg recvcount displs recv_rank buf msg

unfoldable pub allgatherv_last : CommView → List ℤ → List ℤ → AMessage → Bytes → M (ℤ × Bytes)
allgatherv_last v recvcount displs send_msg buf = do
  let recv_rank = get_offset_rank v (pos (v.size - 1)) false
  from ← rdma_socket v recv_rank
  m ← recv from
  placed_last send_msg recvcount displs recv_rank buf m

unfoldable pub allgatherv_blocks : CommView → Bytes → ℤ → List ℤ → List ℤ → Bytes → M (ℤ × Bytes)
allgatherv_blocks v sendbuf sendcount recvcount displs buf = do
  send_msg ← amessage_create sendbuf sendcount 0 false
  first ← rdma_socket v (get_offset_rank v (pos 1) true)
  send_or_return first send_msg buf (do
    off ← demand (entry displs (pos v.rank))
    buf' ← memcpy buf off sendbuf sendcount
    (code, buf'') ← for_each (v.size - 2) 2 (allgatherv_round v recvcount displs send_msg) buf'
    elim (eqb_ℤ code (pos 0)) [
      | true ↦
          (amessage_destroy (some send_msg) >> allgatherv_last v recvcount displs send_msg buf'')
      | false ↦ pure (code, buf'')
    ])

unfoldable pub rdma_allgatherv_exp :
    CommView → Option Bytes → ℤ → ℤ → Option Bytes → Option (List ℤ) → List ℤ → ℤ → M Gathered
rdma_allgatherv_exp v sendbuf sendcount sendtype recvbuf recvcount displs recvtype =
    unless_refused (allgatherv_refusal sendbuf recvbuf sendcount recvcount)
      (λ code. record { code = code; recvbuf = recvbuf; recvcount = recvcount; displs = displs })
      (do
        send_bytes ← bytes_of sendbuf
        recv_bytes ← bytes_of recvbuf
        counts ← demand recvcount
        sendcount' ← demand (scale sendcount sendtype)
        counts' ← demand (scale_all recvtype v.size counts)
        displs' ← demand (scale_all recvtype v.size displs)
        (code, buf) ← allgatherv_blocks v send_bytes sendcount' counts' displs' recv_bytes
        pure (record {
          code = code;
          recvbuf = some buf;
          recvcount = some counts';
          displs = displs';
        }))
