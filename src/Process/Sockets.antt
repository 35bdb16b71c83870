-- ===== src/Process/Sockets.antt =====
-- RDMA_Rank, RDMA_Size and RDMA_Socket of src/fmpi.cc: what a communicator shows to src/mpi.cc.
use ffrdma.Common.{ℕ, ◌<◌, ◌≡◌, ◌≢◌, sym, ◌∙◌, ap, Option, some, none, ℤ, pos, pos_part, get_elem?}
use ffrdma.Comm.{Communicator, get}
use ffrdma.Comm.Members.{IsComm}
use ffrdma.Mpi.Machine.{CommView}
use ffrdma.Mpi.Peers.{IsConnected}
use ffrdma.Process.{Process, comm_get_socket, get_root_rank}

-- The communicator with number `comm` and a given rank and size.
abbrev pub view : Process → ℤ → ℕ → ℕ → CommView
view p comm rank size = record { rank = rank; size = size; socket = λ r. comm_get_socket p comm r }

abbrev number : Option ℤ → ℕ
number none = 0
number (some r) = pos_part r

-- The socket of each rank of a communicator.
abbrev pub peer_of : (ℕ → ℕ) → Communicator → ℕ → ℕ
peer_of sock c r = sock (number (get_elem? c.root_ranks r))

same_root :
    (world : ℕ) (c : Communicator) (q r : ℕ)
    → IsComm world c
    → q < c.comm_world_size
    → r < c.comm_world_size
    → get_elem? c.root_ranks q ≡ get_elem? c.root_ranks r
    → q ≡ r
same_root world c q r is q_lt r_lt e =
    let (a, a_lt, a_root, a_rank) = is.ranks q q_lt in
    let (b, b_lt, b_root, b_rank) = is.ranks r r_lt in
    let same : some (pos a) ≡ some (pos b) = sym a_root ∙ (e ∙ b_root) in
    let same' : a ≡ b = cc in
    let back : some (pos q) ≡ some (pos r) =
      sym a_rank ∙ (ap (get_elem? c.comm_ranks) same' ∙ b_rank) in
    cc

socket_at :
    (p : Process) (comm : ℤ) (c : Communicator) (r q s : ℕ)
    → get p.comm_pool comm ≡ some c
    → get_elem? c.root_ranks r ≡ some (pos q)
    → get_elem? p.socket_pool q ≡ some (some s)
    → comm_get_socket p comm (pos r) ≡ some (some s)
unfolding comm_get_socket get_root_rank get
socket_at p comm c r q s found root at = rw (found) (rw (root) at)

-- A well-formed communicator of a process, with a socket of its own in the pool for every other
-- rank of the world, is connected: each rank of the communicator but the caller's has its own
-- socket, which is what the collective operations rely on.
pub view-IsConnected :
    (p : Process) (comm : ℤ) (c : Communicator) (sock : ℕ → ℕ) (r₀ : ℕ)
    → get p.comm_pool comm ≡ some c
    → IsComm p.world_size c
    → r₀ < c.comm_world_size
    → get_elem? c.root_ranks r₀ ≡ some (pos p.my_root_rank)
    → ((q : ℕ)
        → q < p.world_size
        → q ≢ p.my_root_rank
        → get_elem? p.socket_pool q ≡ some (some (sock q)))
    → ((a b : ℕ) → sock a ≡ sock b → a ≡ b)
    → IsConnected (view p comm r₀ c.comm_world_size) (peer_of sock c)
view-IsConnected p comm c sock r₀ found is lt mine filled apart = record {
  rank_lt = lt;
  socket_eq = λ r r_lt ne.
      let (q, q_lt, root, back) = is.ranks r r_lt in
      let other : q ≢ p.my_root_rank = λ e.
        ne (
          same_root p.world_size c r r₀ is r_lt lt
            (root ∙ (ap (λ t. some (pos t)) e ∙ sym mine))) in
      socket_at p comm c r q (sock q) found root (filled q q_lt other)
      ∙ ap (λ t. some (some (sock (number t)))) (sym root);
  injective = λ q r q_lt r_lt e.
      let (a, a_lt, a_root, a_rank) = is.ranks q q_lt in
      let (b, b_lt, b_root, b_rank) = is.ranks r r_lt in
      let e' : sock a ≡ sock b =
        ap (λ t. sock (number t)) (sym a_root) ∙ (e ∙ ap (λ t. sock (number t)) b_root) in
      same_root p.world_size c q r is q_lt r_lt
        (a_root ∙ (ap (λ t. some (pos t)) (apart a b e') ∙ sym b_root));
}
