-- ===== src/Process/Examples.antt =====
-- Rank 1 of three sets up, looks up its sockets and reconnects.
use ffrdma.Common.{
  negsuc, ◌≤◌, ◌⊎◌, ℕ, zero, suc, ◌+◌, ◌-◌, ◌<◌, ◌≡◌, refl, ◌≢◌, List, [], ◌∷◌, ◌++◌, Option, none,
  some, length, get_elem?, pos, arith, inl, replicate, map,
}
use ffrdma.Comm.{Communicator, get}
use ffrdma.Comm.Members.{IsComm}
use ffrdma.Mpi.Peers.{IsConnected}
use ffrdma.Process.{
  Process, init, accept, conn_ok, conn_error, returned, threw, invalid_argument, setup,
  setup_policy, connect_to_server, left_over,
}
use ffrdma.Process.Retry.{Attempts, connect_to_server_retries}
use ffrdma.Process.Setup.{Held}
use ffrdma.Process.Connects.{setup_connects}
use ffrdma.Process.Sockets.{view, peer_of, view-IsConnected}

abbrev sock : ℕ → ℕ
sock q = q + 10

-- The first attempt fails.
abbrev attempts : ℕ → Attempts
attempts q = (none, conn_error) ∷ ((some (q + 10), conn_ok) ∷ [])

abbrev fresh : Process
fresh = record {
  my_root_rank = 1;
  world_size = 3;
  listen_socket = none;
  socket_pool = none ∷ (none ∷ (none ∷ []));
  state = init;
  comm_pool = [];
  connects = attempts;
  accepts = some 10 ∷ [];
  server_socket = some 5;
  node_id = λ s. pos (s - 10);
  closes = [];
}

abbrev unreachable : Process
unreachable = record fresh { connects = λ q. replicate 11 (none, conn_error) }

connect_to_server_retries_example :
    (connect_to_server 2 setup_policy fresh
      ≡ returned (some 12) (record fresh { connects = left_over attempts 2 [] }))
    × (connect_to_server 2 setup_policy unreachable ≡ threw invalid_argument)
connect_to_server_retries_example =
    connect_to_server_retries 10 1000 2 (none ∷ []) (some 12) [] fresh unreachable refl
      (omega arith) (replicate 11 none) [] refl (omega arith)

reaches :
    (q : ℕ)
    → 1 < q
    → q < 3
    → (fs : List (Option ℕ)) × (rest : Attempts) × (attempts q
        ≡ map (λ s. (s, conn_error)) fs ++ ((some (sock q), conn_ok) ∷ rest))
      × (length fs ≤ 10)
reaches q ge lt = (none ∷ [], [], refl, omega arith)

setup_connects_example :
    (done : Process) × (setup fresh ≡ returned tt done)
    × (done.state ≡ accept)
    × (0 < fresh.my_root_rank → done.listen_socket ≡ some 5)
    × (fresh.my_root_rank ≡ 0 → done.listen_socket ≡ none)
    × ((c : Communicator) × (done.comm_pool ≡ c ∷ [])
        × IsComm 3 c
        × (c.my_comm_rank ≡ pos 1)
        × (c.comm_world_size ≡ 3))
    × (length done.socket_pool ≡ 3)
    × ((q : ℕ) → 1 < q → q < 3 → get_elem? done.socket_pool q ≡ some (some (sock q)))
    × ((q : ℕ) → q < 1 → Held fresh.node_id done.socket_pool q)
    × (get_elem? done.socket_pool 1 ≡ some none)
setup_connects_example =
    setup_connects sock fresh 5 (10 ∷ []) [] refl refl (omega arith) refl reaches refl refl
      ((0, refl, omega arith), tt) lower
  where
    lower : (q : ℕ) → q < 1 → (pos 0 ≡ pos q) ⊎ ⊥
    lower zero lt = inl refl
    lower (suc q) lt = absurd (omega arith)

-- The same process with its sockets, and a communicator of the ranks 2 and 1 in this order.
abbrev pair : Communicator
pair = record {
  color = pos 4;
  my_comm_rank = pos 1;
  comm_world_size = 2;
  comm_ranks = negsuc 0 ∷ (pos 1 ∷ (pos 0 ∷ []));
  root_ranks = pos 2 ∷ (pos 1 ∷ (negsuc 0 ∷ []));
}

abbrev ready : Process
ready = record fresh {
  socket_pool = some 10 ∷ (none ∷ (some 12 ∷ []));
  state = accept;
  listen_socket = some 5;
  comm_pool = pair ∷ [];
}

pair-IsComm : IsComm 3 pair
pair-IsComm = record { roots_length = refl; ranks_length = refl; ranks = ranks }
  where
    ranks :
        (r : ℕ)
        → r < 2
        → (q : ℕ) × (q < 3)
          × (get_elem? pair.root_ranks r ≡ some (pos q))
          × (get_elem? pair.comm_ranks q ≡ some (pos r))
    ranks zero lt = (2, omega arith, refl, refl)
    ranks (suc zero) lt = (1, omega arith, refl, refl)
    ranks (suc (suc r)) lt = absurd (omega arith)

view-IsConnected_example : IsConnected (view ready (pos 0) 1 2) (peer_of sock pair)
unfolding get
view-IsConnected_example =
    view-IsConnected ready (pos 0) pair sock 1 refl pair-IsComm (omega arith) refl slots
      (λ a b e. omega arith)
  where
    slots : (q : ℕ) → q < 3 → q ≢ 1 → get_elem? ready.socket_pool q ≡ some (some (sock q))
    slots zero lt ne = refl
    slots (suc zero) lt ne = absurd (ne refl)
    slots (suc (suc zero)) lt ne = refl
    slots (suc (suc (suc q))) lt ne = absurd (omega arith)

-- Rank 0 of the world, asked for by its number in a communicator of all.
abbrev all_ranks : Communicator
all_ranks = record {
  color = pos 0;
  my_comm_rank = pos 1;
  comm_world_size = 3;
  comm_ranks = pos 0 ∷ (pos 1 ∷ (pos 2 ∷ []));
  root_ranks = pos 0 ∷ (pos 1 ∷ (pos 2 ∷ []));
}

abbrev in_world : Process
in_world = record ready { comm_pool = all_ranks ∷ []; accepts = some 10 ∷ [] }
