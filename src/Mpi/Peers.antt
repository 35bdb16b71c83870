-- ===== src/Mpi/Peers.antt =====
-- The communicator as the collective operations rely on it: a valid rank, and for every other rank
-- a socket of its own.
use ffrdma.Common.{ℕ, ◌<◌, ◌≡◌, ◌≢◌, some, pos}
use ffrdma.Mpi.Machine.{CommView}

pub record IsConnected (v : CommView) (peer : ℕ → ℕ) : Type 0 where
  pub rank_lt : v.rank < v.size
  pub socket_eq : (r : ℕ) → r < v.size → r ≢ v.rank → v.socket (pos r) ≡ some (some (peer r))
  pub injective : (q r : ℕ) → q < v.size → r < v.size → peer q ≡ peer r → q ≡ r
