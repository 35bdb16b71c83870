-- ===== src/Mpi/PointToPoint.antt =====
-- RDMA_Send, RDMA_Recv and RDMA_Irecv of src/mpi.cc.
pub mod Laws
use ffrdma.Common.{
  ℕ, Bool, true, false, Option, none, some, ℤ, pos, ltb_ℤ, leb_ℤ, eqb_ℤ, if◌then◌else◌,
}
use ffrdma.Mpi.Machine.{
  unless_refused, Bytes, AMessage, Proc, CommView, Run, ok, fault, M, pure, ◌>>=◌, ◌>>◌, demand,
  scale, memcpy, amessage_create, amessage_destroy, send, recv, irecv,
}
use ffrdma.Mpi.Rank.{rdma_socket}

-- What a call leaves: its return value, and the buffer that it was given.
abbrev pub Result : Type 0
Result = ℤ × Option Bytes

-- The checks that the three calls make first, with the value that they return.
unfoldable pub refusal : CommView → Option Bytes → ℤ → ℤ → Option ℤ
refusal v none count peer = some (pos 1)
refusal v (some buf) count peer =
    if ltb_ℤ count (pos 0)
    then some (pos 2)
    else (if eqb_ℤ peer (pos v.rank) then some (pos 3) else none)

send_message : CommView → Bytes → ℤ → ℤ → ℤ → M ℤ
send_message v buf count type dest = do
  n ← demand (scale count type)
  msg ← amessage_create buf n 0 false
  socket ← rdma_socket v dest
  res ← send socket msg
  amessage_destroy (some msg)
  pure res

-- A NULL buffer is read only where the checks have refused it.
abbrev pub bytes_of : Option Bytes → M Bytes
bytes_of buf = demand buf

unfoldable pub rdma_send : CommView → Option Bytes → ℤ → ℤ → ℤ → M ℤ
unfolding send_message
rdma_send v buf count type dest =
    unless_refused (refusal v buf count dest) (λ code. code)
      (do b ← bytes_of buf; send_message v b count type dest)

-- A message of the expected length is copied to the buffer; then the message is freed.
unfoldable pub store_message : Bytes → ℤ → AMessage → M Result
store_message buf n msg =
    if eqb_ℤ msg.length n
    then (do
      buf' ← memcpy buf (pos 0) msg.buffer n
      amessage_destroy (some msg)
      pure (pos 0, some buf'))
    else (amessage_destroy (some msg) >> pure (pos 6, some buf))

recv_message : CommView → Bytes → ℤ → ℤ → ℤ → M Result
unfolding store_message
recv_message v buf count type source = do
  n ← demand (scale count type)
  listen ← rdma_socket v source
  m ← recv listen
  msg ← demand m
  store_message buf n msg

unfoldable pub rdma_recv : CommView → Option Bytes → ℤ → ℤ → ℤ → M Result
unfolding recv_message
rdma_recv v buf count type source =
    unless_refused (refusal v buf count source) (λ code. (code, buf))
      (do b ← bytes_of buf; recv_message v b count type source)

-- listen->close_flag
close_flag : Option ℕ → M Bool
close_flag none s = fault
close_flag (some socket) s = ok (s.closed socket) s

stored : Bytes → ℤ → Option AMessage → M Result
unfolding store_message
stored buf n none = pure (pos 6, some buf)
stored buf n (some msg) = store_message buf n msg

irecv_message : CommView → Bytes → ℤ → ℤ → ℤ → M Result
unfolding close_flag stored
irecv_message v buf count type source = do
  n ← demand (scale count type)
  listen ← rdma_socket v source
  m ← irecv listen
  closed ← close_flag listen
  if closed then pure (pos 1, some buf) else stored buf n m

unfoldable pub rdma_irecv : CommView → Option Bytes → ℤ → ℤ → ℤ → M Result
unfolding irecv_message
rdma_irecv v buf count type source =
    unless_refused (refusal v buf count source) (λ code. (code, buf))
      (do b ← bytes_of buf; irecv_message v b count type source)
