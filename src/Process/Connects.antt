-- ===== src/Process/Connects.antt =====
-- setup of src/process.cc as a whole: how it leaves the process.
use ffrdma.Common.{
  ℕ, ◌<◌, ◌≡◌, refl, ◌∙◌, List, [], ◌∷◌, ◌++◌, Option, some, map, length, get_elem?, pos, arith,
}
use ffrdma.Comm.{Communicator}
use ffrdma.Comm.Members.{IsComm}
use ffrdma.Process.{
  Process, returned, setup, setup_root_comm_world, init, accept, root_comm, open_port,
  connected_to_all_server,
}
use ffrdma.Process.RootComm.{root_comm-Identity, Identity-IsComm}
use ffrdma.Process.Setup.{Reachable, Ranked, Occurs, Held, server-ok, client-ok, accepted-ok}

world-ok :
    (p : Process) (c : Communicator)
    → root_comm p.world_size p.my_root_rank ≡ some c
    → setup_root_comm_world p ≡ returned tt (record p { comm_pool = p.comm_pool ++ (c ∷ []) })
unfolding setup_root_comm_world
world-ok p c e = rw e refl

-- A process of rank my in a world of several runs setup: it can listen, every higher rank connects
-- after at most ten failures, and the sockets that it accepts, my of them, announce ranks below my,
-- each at least once. Then setup returns in state ACCEPT, listening on its server socket unless its
-- rank is 0, where m_listenSocket is as before; the root communicator is in the pool,
-- which is well formed and gives the process its own rank; the slot of every higher rank holds the
-- socket that connected, that of every lower rank a socket that announced it, and its own slot is
-- as before.
pub setup_connects :
    (sock : ℕ → ℕ) (p : Process) (l : ℕ) (ss : List ℕ) (rest : List (Option ℕ))
    → p.state ≡ init
    → p.server_socket ≡ some l
    → p.my_root_rank < p.world_size
    → length p.socket_pool ≡ p.world_size
    → ((q : ℕ) → p.my_root_rank < q → q < p.world_size → Reachable (p.connects q) (sock q))
    → p.accepts ≡ map some ss ++ rest
    → length ss ≡ p.my_root_rank
    → Ranked p.node_id p.my_root_rank ss
    → ((q : ℕ) → q < p.my_root_rank → Occurs p.node_id q ss)
    → (done : Process) × (setup p ≡ returned tt done)
      × (done.state ≡ accept)
      × (0 < p.my_root_rank → done.listen_socket ≡ some l)
      × (p.my_root_rank ≡ 0 → done.listen_socket ≡ p.listen_socket)
      × ((c : Communicator) × (done.comm_pool ≡ p.comm_pool ++ (c ∷ []))
          × IsComm p.world_size c
          × (c.my_comm_rank ≡ pos p.my_root_rank)
          × (c.comm_world_size ≡ p.world_size))
      × (length done.socket_pool ≡ p.world_size)
      × ((q : ℕ)
          → p.my_root_rank < q
          → q < p.world_size
          → get_elem? done.socket_pool q ≡ some (some (sock q)))
      × ((q : ℕ) → q < p.my_root_rank → Held p.node_id done.socket_pool q)
      × (get_elem? done.socket_pool p.my_root_rank ≡ get_elem? p.socket_pool p.my_root_rank)
unfolding setup
setup_connects sock p l ss rest st listens lt len reach arrive count ranked all =
    let my = p.my_root_rank in
    let (c, made, id) = root_comm-Identity p.world_size my in
    let p₁ : Process = record p { comm_pool = p.comm_pool ++ (c ∷ []) } in
    let (listen, served, listening, deaf) = server-ok p₁ l st listens in
    let p₂ : Process = record p₁ { listen_socket = listen; state = open_port } in
    let (connects, pool, ran, size, higher, kept) = client-ok sock p₂ refl lt len reach in
    let p₃ : Process = record p₂ {
      connects = connects;
      socket_pool = pool;
      state = connected_to_all_server;
    } in
    let (pool', ended, size', lower, above) =
      accepted-ok p₃ l ss rest listening refl arrive count ranked (omega arith) in
    (
      record p₃ { accepts = rest; socket_pool = pool'; state = accept },
      rw (world-ok p c made) (rw served (rw ran (rw ended refl))),
      refl,
      listening,
      deaf,
      (c, refl, Identity-IsComm p.world_size my c id, id.mine, id.size),
      size' ∙ size,
      (λ q ge below. above q (omega arith) ∙ higher q ge below),
      (λ q below. lower q (all q below)),
      above my (omega arith) ∙ kept my (omega arith),
    )
