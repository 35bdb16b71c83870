-- ===== src/Comm.antt =====
-- Communicators: include/comm.hpp, and RdmaProcess::splitComm of src/process.cc as a function of
-- the pool of communicators.
pub mod Fill
mod Examples
pub mod Members
pub mod Laws
pub mod Split
use ffrdma.Common.{
  ℕ, zero, suc, ◌+◌, Bool, true, false, not, Option, none, some, List, [], ◌∷◌, ◌++◌, ℤ, pos,
  negsuc, eqb_ℤ, leb_ℤ, ltb_ℤ, ltb, leb, if◌then◌else◌, length, get_elem?, set, replicate,
}

abbrev pub rdma_undefined : ℤ
rdma_undefined = negsuc 0

pub record CommConfig : Type 0 where
  pub color : ℤ
  pub key : ℤ

pub record MemCommConfig : Type 0 where
  pub root_rank : ℤ
  pub key : ℤ

-- MemCommConfig::operator<
unfoldable pub less : MemCommConfig → MemCommConfig → Bool
less a b = ltb_ℤ a.key b.key

-- comm_ranks takes a root rank to a rank of this communicator, root_ranks the other way; both are as
-- long as the world, and -1 where there is no rank.
pub record Communicator : Type 0 where
  pub color : ℤ
  pub my_comm_rank : ℤ
  pub comm_world_size : ℕ
  pub comm_ranks : List ℤ
  pub root_ranks : List ℤ

-- vec[i]: none is an access out of range.
unfoldable pub get {ℓ} : {A : Type ℓ} → List A → ℤ → Option A
get xs (pos i) = get_elem? xs i
get xs (negsuc i) = none

unfoldable pub put : List ℤ → ℤ → ℤ → Option (List ℤ)
put xs (pos i) v = if ltb i (length xs) then some (set xs i v) else none
put xs (negsuc i) v = none

infixl 5 ◌>>=◌
abbrev pub ◌>>=◌ {ℓ κ} : {A : Type ℓ} {B : Type κ} → Option A → (A → Option B) → Option B
none >>= f = none
some a >>= f = f a

unfoldable pub communicator : ℕ → Communicator
communicator world_size = record {
  color = pos 0;
  my_comm_rank = pos 0;
  comm_world_size = 0;
  comm_ranks = replicate world_size (negsuc 0);
  root_ranks = replicate world_size (negsuc 0);
}

unfoldable pub set_rank : Communicator → ℤ → ℤ → Option Communicator
set_rank c root_rank comm_rank = do
  comm_ranks ← put c.comm_ranks root_rank comm_rank
  root_ranks ← put c.root_ranks comm_rank root_rank
  some (record c { comm_ranks = comm_ranks; root_ranks = root_ranks })

unfoldable pub is_mem : Communicator → ℤ → Option Bool
unfolding get
is_mem c root_rank = do r ← get c.comm_ranks root_rank; some (not (eqb_ℤ r (negsuc 0)))

-- The members of the caller's color, with their ranks in the world: the loop over cRank.
unfoldable pub members : Communicator → ℤ → ℕ → List CommConfig → Option (List MemCommConfig)
members from my_color i [] = some []
members from my_color i (config ∷ configs) = do
  rest ← members from my_color (suc i) configs
  (if eqb_ℤ config.color my_color
      then (do
        root ← get from.root_ranks (pos i)
        some (record { root_rank = root; key = config.key } ∷ rest))
      else some rest)

-- newComm.setRank(memCommConfigs[nRank].rootRank, nRank) for each nRank
unfoldable pub set_ranks : ℕ → List MemCommConfig → Communicator → Option Communicator
set_ranks n [] c = some c
set_ranks n (m ∷ ms) c = do c' ← set_rank c m.root_rank (pos n); set_ranks (suc n) ms c'

-- std::sort is the parameter `sort`.
module _ (sort : List MemCommConfig → List MemCommConfig) where
  unfoldable pub mem_comm_configs : Communicator → List CommConfig → Option (ℤ × List MemCommConfig)
  mem_comm_configs from configs = do
    mine ← get configs from.my_comm_rank
    (if eqb_ℤ mine.color rdma_undefined
        then (do
          root ← get from.root_ranks from.my_comm_rank
          some (mine.color, record { root_rank = root; key = pos 0 } ∷ []))
        else (do ms ← members from mine.color 0 configs; some (mine.color, sort ms)))

  unfoldable pub new_comm :
      (world_size : ℕ) (my_root_rank : ℤ) → ℤ → List MemCommConfig → Option Communicator
  new_comm world_size my_root_rank color ms = do
    filled ←
        set_ranks 0 ms
          (record (communicator world_size) { color = color; comm_world_size = length ms })
    mine ← get filled.comm_ranks my_root_rank
    some (record filled { my_comm_rank = mine })

  -- The new pool and the number of the new communicator; `inl` is std::invalid_argument.
  unfoldable pub split_comm :
      (world_size : ℕ) (my_root_rank : ℤ)
      → List Communicator
      → ℤ
      → List CommConfig
      → Option (Option (List Communicator × ℕ))
  split_comm world_size my_root_rank pool from configs =
      if ltb_ℤ from (pos 0)
      then some none
      else (if leb_ℤ (pos (length pool)) from then some none else (do
        f ← get pool from
        (color, ms) ← mem_comm_configs f configs
        c ← new_comm world_size my_root_rank color ms
        some (some (pool ++ (c ∷ []), length pool))))
