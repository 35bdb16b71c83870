-- ===== src/Mpi/Collective.antt =====
-- What the collective operations of src/mpi.cc share: their checks, the send that returns on
-- failure, and the receipt of a message of an expected length.
use ffrdma.Common.{ℕ, true, false, Option, none, some, ℤ, pos, leb_ℤ, ltb_ℤ, eqb_ℤ, if◌then◌else◌}
use ffrdma.Mpi.Machine.{
  Bytes, AMessage, CommView, M, pure, ◌>>=◌, ◌>>◌, memcpy, amessage_destroy, send,
}
use ffrdma.Mpi.PointToPoint.{Result}

-- The checks of the buffers and counts with which the operations start.
unfoldable pub buffers_refusal : Option Bytes → Option Bytes → ℤ → ℤ → Option ℤ
buffers_refusal none recvbuf sendcount recvcount = some (pos 1)
buffers_refusal (some b) none sendcount recvcount = some (pos 1)
buffers_refusal (some b) (some r) sendcount recvcount =
    if leb_ℤ sendcount (pos 0)
    then some (pos 2)
    else (if leb_ℤ recvcount (pos 0) then some (pos 2) else none)

-- Sends; a status other than 0 frees the message and is returned.
unfoldable pub send_or_return : {A : Type 0} → Option ℕ → AMessage → A → M (ℤ × A) → M (ℤ × A)
send_or_return socket msg a next = do
  res ← send socket msg
  elim (eqb_ℤ res (pos 0)) [ true ↦ next | false ↦ (amessage_destroy (some msg) >> pure (res, a)) ]

abbrev pub with_buffer : ℤ × Bytes → M Result
with_buffer (code, buf) = pure (code, some buf)

-- root >= whole_ranks || root < 0
unfoldable pub root_refusal : CommView → ℤ → Option ℤ
root_refusal v root =
    if leb_ℤ (pos v.size) root
    then some (pos 3)
    else (if ltb_ℤ root (pos 0) then some (pos 3) else none)

-- A message of the expected length is copied to offset `off` and freed; any other is freed, and the
-- code is 5.
unfoldable pub accept_block : Bytes → ℤ → ℤ → AMessage → M (ℤ × Bytes)
accept_block buf off n msg =
    if eqb_ℤ msg.length n
    then (do buf' ← memcpy buf off msg.buffer n; amessage_destroy (some msg); pure (pos 0, buf'))
    else (amessage_destroy (some msg) >> pure (pos 5, buf))

-- Code 0 goes on, any other is returned.
abbrev pub on_success : {B : Type 0} → ℤ → B → M (ℤ × B) → M (ℤ × B)
on_success code b next = elim (eqb_ℤ code (pos 0)) [ true ↦ next | false ↦ pure (code, b) ]
