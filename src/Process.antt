-- ===== src/Process.antt =====
-- RdmaProcess of include/process.hpp and src/process.cc in the release build: setup, connecting
-- with retries, reconnecting, and the lookup of sockets.
pub mod Retry
pub mod RootComm
pub mod Setup
pub mod Connects
pub mod Sockets
pub mod Reconnect
mod Examples
use ffrdma.Common.{
  ℕ, zero, suc, ◌-◌, Bool, true, false, ◌&&◌, List, [], ◌∷◌, ◌++◌, Option, none, some, ℤ, pos,
  negsuc, ltb, ltb_ℤ, leb_ℤ, eqb_ℤ, ◌==◌, if◌then◌else◌, length, set,
}
use ffrdma.Comm.{Communicator, communicator, set_rank, get}

pub data Policy : Type 0 where
  never : Policy
  always : Policy
  try_failed : Policy

pub record RetryPolicy : Type 0 where
  pub policy : Policy
  pub retry_times : ℤ
  pub sleep_time : ℕ

pub data RankType : Type 0 where
  server : RankType
  client : RankType
  self : RankType

pub data State : Type 0 where
  init : State
  open_port : State
  connected_to_all_server : State
  accept : State

pub data ConnStatus : Type 0 where
  conn_ok : ConnStatus
  conn_error : ConnStatus

pub data Exception : Type 0 where
  invalid_argument : Exception
  runtime_error : Exception

-- The members of the class, and what the network will do: the results of the coming calls of
-- createConnectToServer for each rank, and of accept_; what createServerSocket returns, none if it
-- throws; the node_id of each socket; and the sockets that were given to close_.
pub record Process : Type 0 where
  pub my_root_rank : ℕ
  pub world_size : ℕ
  pub listen_socket : Option ℕ
  pub socket_pool : List (Option ℕ)
  pub state : State
  pub comm_pool : List Communicator
  pub connects : ℕ → List (Option ℕ × ConnStatus)
  pub accepts : List (Option ℕ)
  pub server_socket : Option ℕ
  pub node_id : ℕ → ℤ
  pub closes : List ℕ

-- A call returns, throws, breaks an assert or runs into undefined behaviour, or waits.
pub data Outcome (A : Type 0) : Type 0 where
  returned : A → Process → Outcome A
  threw : Exception → Outcome A
  failed : Outcome A
  waiting : Outcome A

abbrev pub P : Type 0 → Type 0
P A = Process → Outcome A

abbrev pub pure : {A : Type 0} → A → P A
pure = returned

module _ {A B : Type 0} where
  abbrev pub and_then : Outcome A → (A → P B) → Outcome B
  and_then (returned a p) k = k a p
  and_then (threw e) k = threw e
  and_then failed k = failed
  and_then waiting k = waiting

  infixl 5 ◌>>=◌ ◌>>◌
  abbrev pub ◌>>=◌ : P A → (A → P B) → P B
  m >>= k = λ p. and_then (m p) k

  abbrev pub ◌>>◌ : P A → P B → P B
  m >> n = m >>= λ _. n

abbrev pub demand : {A : Type 0} → Option A → P A
demand none p = failed
demand (some a) p = returned a p

abbrev pub is_never : Policy → Bool
is_never never = true
is_never always = false
is_never try_failed = false

abbrev pub is_try_failed : Policy → Bool
is_try_failed never = false
is_try_failed always = false
is_try_failed try_failed = true

-- The loop of connectToServer over the results of the attempts: the socket that it returns with the
-- results that are left, or none where it throws std::invalid_argument. When no result is left it
-- waits.
pub data Connected : Type 0 where
  found : Option ℕ → List (Option ℕ × ConnStatus) → Connected
  gave_up : Connected
  still_trying : Connected

unfoldable pub connect_loop : RetryPolicy → ℕ → List (Option ℕ × ConnStatus) → Connected
connect_loop policy retry_cnt [] = still_trying
connect_loop policy retry_cnt ((socket, conn_ok) ∷ rest) = found socket rest
connect_loop policy retry_cnt ((socket, conn_error) ∷ rest) =
    let again = connect_loop policy (suc retry_cnt) rest in
    if is_never policy.policy
    then found socket rest
    else (if is_try_failed policy.policy && leb_ℤ policy.retry_times (pos retry_cnt)
        then gave_up
        else again)

abbrev pub left_over :
    (ℕ → List (Option ℕ × ConnStatus))
    → ℕ
    → List (Option ℕ × ConnStatus)
    → ℕ
    → List (Option ℕ × ConnStatus)
left_over connects to_rank rest q = if q == to_rank then rest else connects q

unfoldable pub connected : ℕ → Connected → P (Option ℕ)
connected to_rank (found socket rest) p =
    returned socket (record p { connects = left_over p.connects to_rank rest })
connected to_rank gave_up p = threw invalid_argument
connected to_rank still_trying p = waiting

unfoldable pub connect_to_server : ℕ → RetryPolicy → P (Option ℕ)
connect_to_server to_rank policy p =
    connected to_rank (connect_loop policy 0 (p.connects to_rank)) p

-- accept_ on the listening socket, which it dereferences; NULL as its result makes the call throw.
unfoldable pub accept_from_client : P ℕ
accept_from_client p = listening p.listen_socket
  where
    accepted : List (Option ℕ) → Outcome ℕ
    accepted [] = waiting
    accepted (none ∷ rest) = threw runtime_error
    accepted (some socket ∷ rest) = returned socket (record p { accepts = rest })

    listening : Option ℕ → Outcome ℕ
    listening none = failed
    listening (some listen_socket) = accepted p.accepts

-- m_socketPool[rank] = socket
unfoldable pub store_socket : ℤ → Option ℕ → P (Unit {0})
store_socket (pos rank) socket p =
    if ltb rank (length p.socket_pool)
    then returned tt (record p { socket_pool = set p.socket_pool rank socket })
    else failed
store_socket (negsuc rank) socket p = failed

unfoldable pub rank_type : Process → ℤ → RankType
rank_type p rank =
    if ltb_ℤ rank (pos p.my_root_rank)
    then client
    else (if ltb_ℤ (pos p.my_root_rank) rank then server else self)

abbrev if_some : {A B : Type 0} → Option A → (A → Option B) → Option B
if_some none k = none
if_some (some a) k = k a

-- comm.setRank(rank, rank) for k ranks from `rank` on
unfoldable pub set_root_ranks : ℕ → ℕ → Communicator → Option Communicator
set_root_ranks zero rank c = some c
set_root_ranks (suc k) rank c =
    if_some (set_rank c (pos rank) (pos rank)) λ c'. set_root_ranks k (suc rank) c'

unfoldable pub root_comm : ℕ → ℕ → Option Communicator
unfolding communicator
root_comm world_size my_root_rank = set_root_ranks world_size 0 (record (communicator world_size) {
  color = pos 0;
  my_comm_rank = pos my_root_rank;
  comm_world_size = world_size;
})

unfoldable pub setup_root_comm_world : P (Unit {0})
setup_root_comm_world p =
    and_then (demand (root_comm p.world_size p.my_root_rank) p)
      λ comm p'. returned tt (record p' { comm_pool = p'.comm_pool ++ (comm ∷ []) })

abbrev pub served : Option ℕ → P (Option ℕ)
served none p = threw runtime_error
served (some s) p = returned (some s) p

unfoldable pub create_server_socket : P (Option ℕ)
create_server_socket p = served p.server_socket p

abbrev pub require : Bool → P (Unit {0})
require true p = returned tt p
require false p = failed

abbrev pub is_init : State → Bool
is_init init = true
is_init s = false

abbrev pub is_open_port : State → Bool
is_open_port open_port = true
is_open_port s = false

abbrev pub is_connected : State → Bool
is_connected connected_to_all_server = true
is_connected s = false

abbrev to_state : State → P (Unit {0})
to_state state p = returned tt (record p { state = state })

unfoldable pub open_listener : P (Unit {0})
open_listener p =
    if p.my_root_rank == 0
    then returned tt p
    else and_then (create_server_socket p) λ s p'. returned tt (record p' { listen_socket = s })

unfoldable pub setup_as_server : P (Unit {0})
setup_as_server p = (require (is_init p.state) >> (open_listener >> to_state open_port)) p

abbrev pub setup_policy : RetryPolicy
setup_policy = record { policy = try_failed; retry_times = pos 10; sleep_time = 1000 }

-- The loop over the ranks from `rank` on, k of them.
unfoldable pub connect_all : ℕ → ℕ → P (Unit {0})
connect_all zero rank = pure tt
connect_all (suc k) rank = do
  socket ← connect_to_server rank setup_policy
  store_socket (pos rank) socket
  connect_all k (suc rank)

unfoldable pub setup_as_client : P (Unit {0})
setup_as_client p =
    (require (is_open_port p.state)
        >> (connect_all (p.world_size - suc p.my_root_rank) (suc p.my_root_rank)
            >> to_state connected_to_all_server))
      p

abbrev pub is_client : RankType → Bool
is_client client = true
is_client t = false

unfoldable pub accept_all : ℕ → P (Unit {0})
accept_all zero = pure tt
accept_all (suc k) = do
  socket ← accept_from_client
  λ p. require (is_client (rank_type p (p.node_id socket))) p
  λ p. store_socket (p.node_id socket) (some socket) p
  accept_all k

unfoldable pub setup_accept : P (Unit {0})
setup_accept p =
    (require (is_connected p.state) >> (accept_all p.my_root_rank >> to_state accept)) p

unfoldable pub setup : P (Unit {0})
setup = setup_root_comm_world >> (setup_as_server >> (setup_as_client >> setup_accept))

-- close_, which dereferences the socket.
abbrev pub close_old : Option ℕ → P (Unit {0})
close_old none p = failed
close_old (some old) p = returned tt (record p { closes = p.closes ++ (old ∷ []) })

-- close_(m_socketPool[rank]), then the new socket takes its place.
unfoldable pub replace_socket : ℤ → Option ℕ → P (Option ℕ)
unfolding store_socket
replace_socket rank socket = do
  old ← (λ p. demand (get p.socket_pool rank) p)
  close_old old
  store_socket rank socket
  pure socket

unfoldable pub reconnect_as_server : ℤ → P (Option ℕ)
unfolding accept_from_client replace_socket
reconnect_as_server from_rank = do
  listen ← accept_from_client
  λ p.
      if eqb_ℤ (p.node_id listen) from_rank
      then replace_socket from_rank (some listen) p
      else threw invalid_argument

unfoldable pub reconnect_as_client : ℤ → P (Option ℕ)
unfolding connect_to_server replace_socket
reconnect_as_client (pos to_rank) = do
  socket ←
      connect_to_server to_rank
        (record { policy = try_failed; retry_times = pos 5; sleep_time = 10 })
  replace_socket (pos to_rank) socket
reconnect_as_client (negsuc r) = λ p. failed

-- m_commPool[comm].rootRanks[rank]
unfoldable pub get_root_rank : Process → ℤ → ℤ → Option ℤ
get_root_rank p comm rank = if_some (get p.comm_pool comm) λ c. get c.root_ranks rank

unfoldable pub comm_get_socket : Process → ℤ → ℤ → Option (Option ℕ)
unfolding get_root_rank
comm_get_socket p comm rank = if_some (get_root_rank p comm rank) λ root. get p.socket_pool root

unfoldable pub comm_my_rank : Process → ℤ → Option ℤ
comm_my_rank p comm = if_some (get p.comm_pool comm) λ c. some c.my_comm_rank

unfoldable pub comm_world_size : Process → ℤ → Option ℕ
comm_world_size p comm = if_some (get p.comm_pool comm) λ c. some c.comm_world_size

unfoldable pub reconnect_by : RankType → ℤ → P (Option ℕ)
unfolding reconnect_as_client reconnect_as_server
reconnect_by server rank = reconnect_as_client rank
reconnect_by client rank = reconnect_as_server rank
reconnect_by self rank = λ p. threw invalid_argument

unfoldable pub reconnect : ℤ → ℤ → P (Option ℕ)
unfolding get_root_rank rank_type reconnect_by
reconnect to_rank comm p =
    and_then (demand (get_root_rank p comm to_rank) p)
      λ rank p'. reconnect_by (rank_type p' rank) rank p'
