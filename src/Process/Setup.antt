-- ===== src/Process/Setup.antt =====
-- setup of src/process.cc: the root communicator, and a socket for every other rank.
use ffrdma.Common.{
  ◌-◌, ap, [], Bool, sym, map, true, ◌⊎◌, ltb_ℤ, ◌==◌, ==→eq, ==-false→ne, Bool-cases, ℕ, zero, suc,
  ◌+◌, ◌≤◌, ◌<◌, ◌≡◌, refl, ◌∙◌, List, ◌∷◌, ◌++◌, Option, some, length, get_elem?, set, length-set,
  get_elem?-set_self, get_elem?-set_ne, ℤ, pos, arith, lt→ltb, ne→==, inl, inr,
}
use ffrdma.Process.{
  connected_to_all_server, setup_as_client, setup_accept, accept, State, require, is_init,
  is_open_port, is_connected, served, init, create_server_socket, open_listener, accept_all,
  accept_from_client, rank_type, setup_as_server, open_port, is_client, Process, returned, conn_ok,
  connect_all, store_socket, left_over,
}
use ffrdma.Process.Retry.{Attempts, failures, connect_to_server_finds}

-- The socket in slot q is one that announced rank q.
abbrev pub Held : (ℕ → ℤ) → List (Option ℕ) → ℕ → Type 0
Held node pool q = (s : ℕ) × (get_elem? pool q ≡ some (some s)) × (node s ≡ pos q)

-- Every accepted socket announces a rank below `my`.
abbrev pub Ranked : (ℕ → ℤ) → ℕ → List ℕ → Type 0
Ranked node my [] = Unit {0}
Ranked node my (s ∷ ss) = ((q : ℕ) × (node s ≡ pos q) × (q < my)) × Ranked node my ss

abbrev pub Occurs : (ℕ → ℤ) → ℕ → List ℕ → Type 0
Occurs node q [] = ⊥
Occurs node q (s ∷ ss) = (node s ≡ pos q) ⊎ Occurs node q ss

-- At most ten attempts fail before the socket s connects.
abbrev pub Reachable : Attempts → ℕ → Type 0
Reachable attempts s =
    (fs : List (Option ℕ)) × (rest : Attempts) × (attempts
      ≡ failures fs ++ ((some s, conn_ok) ∷ rest))
    × (length fs ≤ 10)

pub store-ok :
    (p : Process) (q : ℕ) (s : Option ℕ)
    → q < length p.socket_pool
    → store_socket (pos q) s p ≡ returned tt (record p { socket_pool = set p.socket_pool q s })
unfolding store_socket
store-ok p q s h = rw (lt→ltb q (length p.socket_pool) h)

connect_all_fills :
    (sock : ℕ → ℕ) (k rank : ℕ) (p : Process)
    → rank + k ≤ length p.socket_pool
    → ((q : ℕ) → rank ≤ q → q < rank + k → Reachable (p.connects q) (sock q))
    → (connects : ℕ → Attempts) × (pool : List (Option ℕ)) × (connect_all k rank p
        ≡ returned tt (record p { connects = connects; socket_pool = pool }))
      × (length pool ≡ length p.socket_pool)
      × ((q : ℕ) → rank ≤ q → q < rank + k → get_elem? pool q ≡ some (some (sock q)))
      × ((q : ℕ) → q < rank → get_elem? pool q ≡ get_elem? p.socket_pool q)
unfolding connect_all
connect_all_fills sock zero rank p room reach =
    (p.connects, p.socket_pool, refl, refl, (λ q ge lt. absurd (omega arith)), λ q lt. refl)
connect_all_fills sock (suc k) rank p room reach =
    let (fs, rest, e, few) = reach rank (omega arith) (omega arith) in
    let connects' = left_over p.connects rank rest in
    let pool' = set p.socket_pool rank (some (sock rank)) in
    let len' : length pool' ≡ length p.socket_pool =
      length-set p.socket_pool rank (some (sock rank)) in
    let p' : Process = record p { connects = connects'; socket_pool = pool' } in
    let (connects, pool, ran, len, filled, kept) =
      connect_all_fills sock k (suc rank) p' (omega (arith, len'))
        (λ q ge lt. rw (ne→== q rank (λ e. omega arith)) (reach q (omega arith) (omega arith))) in
    (
      connects,
      pool,
      rw (connect_to_server_finds 10 1000 rank fs (some (sock rank)) rest p e few) (
          rw (store-ok (record p { connects = connects' }) rank (some (sock rank)) (omega arith))
            ran),
      len ∙ len',
      (λ q ge lt. elim (Bool-cases (q == rank)) [
        | inl same ↦
            let same' : q ≡ rank = ==→eq q rank same in
            rw same' (
              kept rank (omega arith)
              ∙ get_elem?-set_self p.socket_pool rank (some (sock rank)) (omega arith))
        | inr other ↦
            let ne = ==-false→ne q rank other in filled q (omega (arith, ne)) (omega arith)
      ]),
      λ q lt.
          kept q (omega arith)
          ∙ get_elem?-set_ne p.socket_pool (some (sock rank)) (λ e. omega arith),
    )

pub accept-ok :
    (p : Process) (s l : ℕ) (rest : List (Option ℕ))
    → p.listen_socket ≡ some l
    → p.accepts ≡ some s ∷ rest
    → accept_from_client p ≡ returned s (record p { accepts = rest })
unfolding accept_from_client
accept-ok p s l rest listens e = rw (listens, e) refl

lower-client : (p : Process) (q : ℕ) → q < p.my_root_rank → is_client (rank_type p (pos q)) ≡ true
unfolding rank_type
lower-client p q lt =
    let below : ltb_ℤ (pos q) (pos p.my_root_rank) ≡ true = ground arith in rw below refl

Held-set :
    (node : ℕ → ℤ) (pool : List (Option ℕ)) (q s r : ℕ)
    → node s ≡ pos q
    → q < length pool
    → Held node pool r ⊎ (r ≡ q)
    → Held node (set pool q (some s)) r
Held-set node pool q s r e lt h = elim (Bool-cases (r == q)) [
  | inl same ↦
      let same' : r ≡ q = ==→eq r q same in rw same' (s, get_elem?-set_self pool q (some s) lt, e)
  | inr other ↦
      let ne = ==-false→ne r q other in
      elim h [
        | inl (t, at, id) ↦ (t, get_elem?-set_ne pool (some s) (λ e. ne (sym e)) ∙ at, id)
        | inr same ↦ absurd (ne same)
      ]
]

accept_all_fills :
    (p : Process) (k l : ℕ) (ss : List ℕ) (rest : List (Option ℕ))
    → (0 < k → p.listen_socket ≡ some l)
    → p.accepts ≡ map some ss ++ rest
    → length ss ≡ k
    → Ranked p.node_id p.my_root_rank ss
    → p.my_root_rank ≤ length p.socket_pool
    → (pool : List (Option ℕ)) × (accept_all k p
        ≡ returned tt (record p { accepts = rest; socket_pool = pool }))
      × (length pool ≡ length p.socket_pool)
      × ((r : ℕ) → Held p.node_id p.socket_pool r ⊎ Occurs p.node_id r ss → Held p.node_id pool r)
      × ((r : ℕ) → p.my_root_rank ≤ r → get_elem? pool r ≡ get_elem? p.socket_pool r)
unfolding accept_all
accept_all_fills p zero l [] rest listens e len ranked room = (
  p.socket_pool,
  rw (sym e) refl,
  refl,
  (λ r h. elim h [ inl held ↦ held | inr none_left ↦ absurd none_left ]),
  λ r ge. refl,
)
accept_all_fills p zero l (s ∷ ss) rest listens e len ranked room = absurd (omega arith)
accept_all_fills p (suc k) l [] rest listens e len ranked room = absurd (omega arith)
accept_all_fills p (suc k) l (s ∷ ss) rest listens e len ranked room =
    let (q, id, lt) = ranked.0 in
    let pool' = set p.socket_pool q (some s) in
    let len' : length pool' ≡ length p.socket_pool = length-set p.socket_pool q (some s) in
    let p' : Process = record p { accepts = map some ss ++ rest; socket_pool = pool' } in
    let inside : q < length p.socket_pool = omega arith in
    let (pool, ran, size, held, kept) =
      accept_all_fills p' k l ss rest (λ lt. listens (omega arith)) refl (omega arith) ranked.1
        (omega (arith, len')) in
    let p₁ : Process = record p { accepts = map some ss ++ rest } in
    (
      pool,
      rw (accept-ok p s l (map some ss ++ rest) (listens (omega arith)) e)
          (rw id (rw (lower-client p₁ q lt) (rw id (rw (store-ok p₁ q (some s) inside) ran)))),
      size ∙ len',
      (λ r h. held r (elim h [
        | inl before ↦ inl (Held-set p.node_id p.socket_pool q s r id inside (inl before))
        | inr (inl this) ↦
            let same : pos r ≡ pos q = sym this ∙ id in
            let same' : r ≡ q = cc in
            inl (Held-set p.node_id p.socket_pool q s r id inside (inr same'))
        | inr (inr later) ↦ inr later
      ])),
      λ r ge. kept r ge ∙ get_elem?-set_ne p.socket_pool (some s) (λ e. omega arith),
    )

create_server_socket-ok :
    (p : Process) (l : ℕ) → p.server_socket ≡ some l → create_server_socket p ≡ returned (some l) p
unfolding create_server_socket
create_server_socket-ok p l e = ap (λ o. served o p) e

require_state :
    (test : State → Bool) (p : Process) (s : State)
    → p.state ≡ s
    → test s ≡ true
    → require (test p.state) p ≡ returned tt p
require_state test p s e ok = ap (λ b. require b p) (ap test e ∙ ok)

pub server-ok :
    (p : Process) (l : ℕ)
    → p.state ≡ init
    → p.server_socket ≡ some l
    → (listen : Option ℕ) × (setup_as_server p
        ≡ returned tt (record p { listen_socket = listen; state = open_port }))
      × (0 < p.my_root_rank → listen ≡ some l)
      × (p.my_root_rank ≡ 0 → listen ≡ p.listen_socket)
unfolding setup_as_server open_listener
server-ok p l st e = elim (Bool-cases (p.my_root_rank == 0)) [
  | inl zero_rank ↦
      let same : p.my_root_rank ≡ 0 = ==→eq p.my_root_rank 0 zero_rank in
      (
        p.listen_socket,
        rw (require_state is_init p init st refl) (rw zero_rank refl),
        (λ lt. absurd (omega arith)),
        λ none_lower. refl,
      )
  | inr other ↦ (
    some l,
    rw (require_state is_init p init st refl) (rw (other, create_server_socket-ok p l e) refl),
    (λ lt. refl),
    λ same. absurd (==-false→ne p.my_root_rank 0 other same),
  )
]

pub client-ok :
    (sock : ℕ → ℕ) (p : Process)
    → p.state ≡ open_port
    → p.my_root_rank < p.world_size
    → length p.socket_pool ≡ p.world_size
    → ((q : ℕ) → p.my_root_rank < q → q < p.world_size → Reachable (p.connects q) (sock q))
    → (connects : ℕ → Attempts) × (pool : List (Option ℕ)) × (setup_as_client p
        ≡ returned tt
            (record p { connects = connects; socket_pool = pool; state = connected_to_all_server }))
      × (length pool ≡ p.world_size)
      × ((q : ℕ) → p.my_root_rank < q → q < p.world_size → get_elem? pool q ≡ some (some (sock q)))
      × ((q : ℕ) → q ≤ p.my_root_rank → get_elem? pool q ≡ get_elem? p.socket_pool q)
unfolding setup_as_client
client-ok sock p st lt len reach =
    let (connects, pool, ran, size, filled, kept) =
      connect_all_fills sock (p.world_size - suc p.my_root_rank) (suc p.my_root_rank) p
        (omega arith) (λ q ge below. reach q (omega arith) (omega arith)) in
    (
      connects,
      pool,
      rw (require_state is_open_port p open_port st refl) (rw ran refl),
      size ∙ len,
      (λ q ge below. filled q (omega arith) (omega arith)),
      λ q le. kept q (omega arith),
    )

pub accepted-ok :
    (p : Process) (l : ℕ) (ss : List ℕ) (rest : List (Option ℕ))
    → (0 < p.my_root_rank → p.listen_socket ≡ some l)
    → p.state ≡ connected_to_all_server
    → p.accepts ≡ map some ss ++ rest
    → length ss ≡ p.my_root_rank
    → Ranked p.node_id p.my_root_rank ss
    → p.my_root_rank ≤ length p.socket_pool
    → (pool : List (Option ℕ)) × (setup_accept p
        ≡ returned tt (record p { accepts = rest; socket_pool = pool; state = accept }))
      × (length pool ≡ length p.socket_pool)
      × ((r : ℕ) → Occurs p.node_id r ss → Held p.node_id pool r)
      × ((r : ℕ) → p.my_root_rank ≤ r → get_elem? pool r ≡ get_elem? p.socket_pool r)
unfolding setup_accept
accepted-ok p l ss rest listens st e len ranked room =
    let (pool, ran, size, held, kept) =
      accept_all_fills p p.my_root_rank l ss rest listens e len ranked room in
    (
      pool,
      rw (require_state is_connected p connected_to_all_server st refl) (rw ran refl),
      size,
      (λ r h. held r (inr h)),
      kept,
    )
