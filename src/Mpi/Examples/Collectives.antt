-- ===== src/Mpi/Examples/Collectives.antt =====
-- The collective operations of src/mpi.cc run by rank 1 of three.
use ffrdma.Common.{ℕ, ◌*◌, ◌<◌, ◌≡◌, refl, some, List, [], ◌∷◌, ℤ, pos, arith, Option, length}
use ffrdma.Mpi.Machine.{Proc, Bytes, scale, pop_inbox}
use ffrdma.Mpi.Memory.{slice}
use ffrdma.Mpi.Loop.{Returns}
use ffrdma.Mpi.Collective.{buffers_refusal}
use ffrdma.Mpi.Bcast.{rdma_bcast}
use ffrdma.Mpi.Bcast.Delivers.{bcast_root_delivers, bcast_leaf_delivers}
use ffrdma.Mpi.Allgather.{rdma_allgather_exp}
use ffrdma.Mpi.Allgather.Delivers.{allgather_exp_delivers}
use ffrdma.Mpi.Alltoall.{rdma_alltoall}
use ffrdma.Mpi.Alltoall.Delivers.{alltoall_delivers}
use ffrdma.Mpi.Gather.{rooted_refusal, rdma_gather, rdma_scatter}
use ffrdma.Mpi.Gather.Delivers.{gather_delivers}
use ffrdma.Mpi.Gather.Deals.{scatter_delivers}
use ffrdma.Mpi.Examples.{peer, view, view-IsConnected, idle, char, mine, parts, room, block}

-- What is still in the inbox behind the first message of rank q.
abbrev behind : ℕ → List (Option Bytes)
behind q = []

-- The outcome of an operation that fills the receive buffer with everybody's block and sends `out`.
abbrev Filled : List (ℕ × Bytes) → ℤ × Option Bytes → Proc → Type 0
Filled out (code, buf) t =
    (code ≡ pos 0)
    × (b : Bytes) × (buf ≡ some b)
    × (length b ≡ 3)
    × ((q : ℕ) → q < 3 → slice (q * 1) 1 b ≡ block q)
    × (t.sent ≡ out)
    × (t.live ≡ [])

bcast_root_delivers_example :
    Returns
      (λ (code, out) t.
        (code ≡ pos 0)
        × (out ≡ some parts)
        × (t.sent ≡ (10, 7 ∷ 11 ∷ []) ∷ ((12, 7 ∷ 11 ∷ []) ∷ []))
        × (t.live ≡ []))
      (rdma_bcast view (some parts) (pos 2) char (pos 1) idle)
unfolding scale
bcast_root_delivers_example =
    bcast_root_delivers view peer 2 parts (pos 2) char idle view-IsConnected refl (omega arith)
      (omega arith) refl

bcast_leaf_delivers_example :
    Returns
      (λ r t.
        (r ≡ (pos 0, some (12 ∷ 0 ∷ 0 ∷ [])))
        × (t.inbox ≡ pop_inbox idle.inbox 12 [])
        × (t.live ≡ []))
      (rdma_bcast view (some room) (pos 1) char (pos 2) idle)
unfolding scale
bcast_leaf_delivers_example =
    bcast_leaf_delivers view 2 12 1 room (pos 1) char idle (some (12 ∷ [])) [] (λ e. omega arith)
      (omega arith) refl refl (omega arith) (omega arith) refl

allgather_exp_delivers_example :
    Returns
      (Filled ((12, mine) ∷ ((10, mine) ∷ [])))
      (rdma_allgather_exp view (some mine) (pos 1) char (some room) (pos 1) char idle)
unfolding scale buffers_refusal
allgather_exp_delivers_example =
    allgather_exp_delivers view peer 1 1 mine room (pos 1) char (pos 1) char block behind idle
      view-IsConnected refl refl refl refl (omega arith) (omega arith) (omega arith) (λ q lt. refl)
      refl (λ q lt ne. refl) refl

alltoall_delivers_example :
    Returns
      (Filled ((12, 9 ∷ []) ∷ ((10, 7 ∷ []) ∷ [])))
      (rdma_alltoall view (some parts) (pos 1) char (some room) (pos 1) char idle)
unfolding scale buffers_refusal
alltoall_delivers_example =
    alltoall_delivers view peer 1 1 parts room (pos 1) char (pos 1) char block behind idle
      view-IsConnected refl refl refl refl (omega arith) (omega arith) (omega arith) (λ q lt. refl)
      refl (λ q lt ne. refl) refl

gather_delivers_example :
    Returns
      (λ (code, out) t.
        (code ≡ pos 0)
        × (b : Bytes) × (out ≡ some b)
        × (length b ≡ 3)
        × ((q : ℕ) → q < 3 → slice (q * 1) 1 b ≡ block q)
        × (t.live ≡ []))
      (rdma_gather view (some mine) (pos 1) char (some room) (pos 1) char (pos 1) idle)
unfolding scale rooted_refusal
gather_delivers_example =
    gather_delivers view peer 1 mine room (pos 1) char (pos 1) char block behind idle
      view-IsConnected refl refl refl (omega arith) (omega arith) (omega arith) (λ q lt. refl) refl
      (λ q ge lt ne. refl)

scatter_delivers_example :
    Returns
      (λ (code, out) t.
        (code ≡ pos 0)
        × (out ≡ some (11 ∷ 0 ∷ 0 ∷ []))
        × (t.sent ≡ (10, 7 ∷ []) ∷ ((12, 9 ∷ []) ∷ []))
        × (t.live ≡ []))
      (rdma_scatter view (some parts) (pos 1) char (some room) (pos 1) char (pos 1) idle)
unfolding scale rooted_refusal
scatter_delivers_example =
    scatter_delivers view peer 1 parts room (pos 1) char (pos 1) char (pos 1) idle view-IsConnected
      refl refl refl (omega arith) (omega arith) (omega arith) refl
