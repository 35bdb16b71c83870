-- ===== src/Rsocket/Machine.antt =====
-- What one thread computes with on a connected Socket of rsocket/include/rdma_socket.h. The verbs
-- library, the threads that share the socket and the peer are given by what they will do: the
-- completions that come, the results of the checked calls, and whether close_lock is held.
use ffrdma.Common.{ℕ, ◌+◌, ◌^◌, ◌%◌, Bool, true, false, Option, List, [], ◌∷◌, ℤ, if◌then◌else◌}
use ffrdma.Mpi.Machine.{Bytes, AMessage}

abbrev pub metadata_ack : ℕ
metadata_ack = 14

abbrev pub metadata_normal : ℕ
metadata_normal = 15

abbrev pub metadata_close : ℕ
metadata_close = 16

abbrev pub md_buffer_size : ℕ
md_buffer_size = 50

pub record MetaData : Type 0 where
  pub type : ℕ
  pub flag : ℕ
  pub length : ℕ
  pub msg_addr : ℕ
  pub mr_addr : ℕ
  pub rkey : ℕ

-- wc->opcode, as far as the code tells them apart.
pub data Opcode : Type 0 where
  wc_send : Opcode
  wc_rdma_read : Opcode
  wc_recv : Opcode
  wc_other : Opcode

-- A completion. Status 0 is IBV_WC_SUCCESS; `rinfo` is the receive buffer that wr_id points to, and
-- `md_buffer` what the peer has written there.
pub record Wc : Type 0 where
  pub opcode : Opcode
  pub status : ℕ
  pub rinfo : ℕ
  pub md_buffer : MetaData

-- A copy of a message that the peer may read: its registration, its address and its bytes.
pub record Region : Type 0 where
  pub mr : ℕ
  pub addr : ℕ
  pub bytes : Bytes

-- The fields of Socket that change, the queues as lists; then what the environment will do:
-- `events` are the completions that each ibv_get_cq_event will find, none where it fails, and
-- `ready` those that each polling loop without an event will find; `locks` says whether the other
-- thread holds close_lock at each coming trylock, and `checks` which of the coming calls under
-- TEST_Z and TEST_NZ fail. A list that has run out means: nothing comes, free, no failure.
-- `remote` is the peer's memory and `key` the key of each registration. At last what the thread has
-- done: the live copies, the number of registrations of metadata, the metadata posted to the peer,
-- the receive buffers posted, the numbers of messages sent and acknowledged, and every completion
-- put into wr_queue.
pub record Sock : Type 0 where
  pub close_flag : Bool
  pub recv_queue : List AMessage
  pub wr_queue : List Wc
  pub peer_buff_count : ℤ
  pub ack_counter : ℕ
  pub metadata_counter : ℕ
  pub node_id : ℕ
  pub events : List (Option (List Wc))
  pub ready : List (List Wc)
  pub locks : List Bool
  pub self_locked : Bool
  pub checks : List Bool
  pub remote : ℕ → ℕ → Bytes
  pub key : ℕ → ℕ
  pub next : ℕ
  pub exported : List Region
  pub mrs : ℕ
  pub out : List MetaData
  pub posted : List ℕ
  pub sent_count : ℕ
  pub acked_count : ℕ
  pub arrived : List Wc

-- A call returns; a failed check ends the program (`die`); `fault` is undefined behaviour; `blocked`
-- waits for ever, or spins on a closed socket.
pub data Out (A : Type 0) : Type 0 where
  done : A → Sock → Out A
  died : Out A
  fault : Out A
  blocked : Out A

abbrev pub M : Type 0 → Type 0
M A = Sock → Out A

unfoldable pub pure : {A : Type 0} → A → M A
pure a s = done a s

abbrev pub and_then : {A B : Type 0} → Out A → (A → M B) → Out B
and_then (done a s) k = k a s
and_then died k = died
and_then fault k = fault
and_then blocked k = blocked

infixl 5 ◌>>=◌ ◌>>◌
unfoldable pub ◌>>=◌ : {A B : Type 0} → M A → (A → M B) → M B
◌>>=◌ m k s = and_then (m s) k

abbrev pub ◌>>◌ : {A B : Type 0} → M A → M B → M B
m >> n = m >>= λ _. n

unfoldable pub stop : {A : Type 0} → Out A → M A
stop o s = o

unfoldable pub gets : {A : Type 0} → (Sock → A) → M A
gets f s = done (f s) s

unfoldable pub modify : (Sock → Sock) → M (Unit {0})
modify f s = done tt (f s)

-- TEST_Z or TEST_NZ of a call.
abbrev pub checked : List Bool → M (Unit {0})
checked [] s = done tt s
checked (false ∷ rest) s = done tt (record s { checks = rest })
checked (true ∷ rest) s = died

unfoldable pub test : M (Unit {0})
test s = checked s.checks s

-- pthread_mutex_trylock(&close_lock), with the unlock where it succeeds; true if it was held. A lock
-- that this thread has kept stays held.
abbrev pub tried : List Bool → M Bool
tried [] s = done false s
tried (held ∷ rest) s = done held (record s { locks = rest })

unfoldable pub try_close_lock : M Bool
try_close_lock s = if s.self_locked then done true s else tried s.locks s

-- unsigned long
abbrev pub count_up : ℕ → ℕ
count_up n = (n + 1) % 2 ^ 64
