-- ===== src/Mpi/Examples.antt =====
-- Runs of src/mpi.cc's functions on three processes, seen from rank 1: the theorems at work.
mod Collectives
mod Reduction
use ffrdma.Common.{
  ℕ, zero, suc, ◌+◌, ◌<◌, ◌≡◌, refl, ◌≢◌, Option, none, some, List, [], ◌∷◌, ℤ, pos, negsuc, arith,
  false, true,
}
use ffrdma.Mpi.Machine.{Bytes, Proc, CommView, scale, ok, fault, pop_inbox}
use ffrdma.Mpi.Peers.{IsConnected}
use ffrdma.Mpi.PointToPoint.{refusal, rdma_send, rdma_recv, rdma_irecv}
use ffrdma.Mpi.PointToPoint.Laws.{
  rdma_send_refused, rdma_send-ok, rdma_send-fails, rdma_recv-ok, rdma_recv-mismatch,
  rdma_recv_closed, send-recv_roundtrip,
}

-- The socket of rank q is q + 10, and the rank itself has none.
abbrev sockets : ℤ → Option (Option ℕ)
sockets (pos zero) = some (some 10)
sockets (pos (suc zero)) = some none
sockets (pos (suc (suc zero))) = some (some 12)
sockets r = none

abbrev pub peer : ℕ → ℕ
peer q = q + 10

abbrev pub view : CommView
view = record { rank = 1; size = 3; socket = sockets }

pub view-IsConnected : IsConnected view peer
view-IsConnected = record {
  rank_lt = omega arith;
  socket_eq = at;
  injective = λ q r q_lt r_lt e. omega arith;
}
  where
    at : (r : ℕ) → r < 3 → r ≢ 1 → sockets (pos r) ≡ some (some (r + 10))
    at zero lt ne = refl
    at (suc zero) lt ne = absurd (ne refl)
    at (suc (suc zero)) lt ne = refl
    at (suc (suc (suc r))) lt ne = absurd (omega arith)

-- On every socket one message waits, a byte with the socket's number.
abbrev waiting : ℕ → List (Option Bytes)
waiting p = some (p ∷ []) ∷ []

abbrev pub idle : Proc
idle = record {
  inbox = waiting;
  closed = λ p. false;
  statuses = [];
  sent = [];
  live = [];
  next = 1;
}

abbrev gone : Proc
gone = record idle { inbox = λ p. none ∷ []; closed = λ p. true }

abbrev broken : Proc
broken = record idle { statuses = negsuc 0 ∷ [] }

-- MPI_CHAR of one byte
abbrev pub char : ℤ
char = pos 3

abbrev pub mine : Bytes
mine = 11 ∷ []

abbrev pub parts : Bytes
parts = 7 ∷ 11 ∷ 9 ∷ []

abbrev pub room : Bytes
room = 0 ∷ 0 ∷ 0 ∷ []

abbrev pub block : ℕ → Bytes
block q = peer q ∷ []

rdma_send-fails_example :
    rdma_send view (some parts) (pos 2) char (pos 0) broken
    ≡ ok (negsuc 0) (record idle { next = 2 })
unfolding refusal scale
rdma_send-fails_example =
    rdma_send-fails view parts (pos 2) char 2 0 10 broken refl refl refl (negsuc 0) [] (omega arith)
      refl (λ e. ground (arith, e))

rdma_recv-mismatch_example :
    rdma_recv view (some parts) (pos 2) char (pos 2) idle
    ≡ ok (pos 6, some parts) (record idle { inbox = pop_inbox waiting 12 []; next = 2 })
unfolding refusal scale
rdma_recv-mismatch_example =
    rdma_recv-mismatch view parts (pos 2) char 2 2 12 idle refl refl refl (12 ∷ []) [] refl
      (λ e. omega arith)

rdma_recv_closed_example :
    (rdma_recv view (some parts) (pos 1) char (pos 2) gone ≡ fault)
    × (rdma_irecv view (some parts) (pos 1) char (pos 2) gone
        ≡ ok (pos 1, some parts) (record gone { inbox = pop_inbox (λ p. none ∷ []) 12 [] }))
unfolding refusal scale
rdma_recv_closed_example =
    rdma_recv_closed view parts (pos 1) char 1 2 12 gone refl refl refl [] refl refl

-- Rank 1 sends to rank 2, whose socket for rank 1 is 11.
abbrev view_2 : CommView
view_2 = record {
  rank = 2;
  size = 3;
  socket = λ r. elim r [ pos p ↦ some (some (p + 10)) | negsuc p ↦ none ];
}

send-recv_roundtrip_example :
    (rdma_send view (some mine) (pos 1) char (pos 2) idle
      ≡ ok (pos 0) (record idle { sent = (12, mine) ∷ []; next = 2 }))
    × (rdma_recv view_2 (some room) (pos 1) char (pos 1) idle
        ≡ ok
            (pos 0, some (11 ∷ 0 ∷ 0 ∷ []))
            (record idle { inbox = pop_inbox waiting 11 []; next = 2 }))
unfolding refusal scale
send-recv_roundtrip_example =
    send-recv_roundtrip view view_2 mine room (pos 1) char 1 2 1 12 11 idle idle refl refl refl refl
      refl (omega arith) (omega arith) refl [] refl
