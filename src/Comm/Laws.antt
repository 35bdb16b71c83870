-- ===== src/Comm/Laws.antt =====
-- RdmaProcess::splitComm of src/process.cc: what the communicator is that it makes.
use mathlib.Core.List.{mem-cons_self, Mem}
use mathlib.Core.HLevel.{×_prop}
use native.Mathlib.Bridge.{le_prop}
use mathlib.Core.List.Perm
use ffrdma.Common.Perm.{Differs, All, All-perm, Distinct, Distinct-perm}
use ffrdma.Common.{
  eqb_ℤ-false→ne, eqb_ℤ→eq, sym, get_elem?-replicate, ℕ, ◌+◌, ◌≤◌, ◌<◌, ◌≡◌, refl, ap, ◌∙◌, some,
  List, [], ◌∷◌, ◌++◌, arith, ℤ, pos, negsuc, false, eqb_ℤ, ltb_ℤ, leb_ℤ, inl, inr, Bool-cases,
  length-map, length, get_elem?, length-replicate, get_elem?-some_of_lt,
}
use ffrdma.Comm.{
  Communicator, MemCommConfig, CommConfig, communicator, get, mem_comm_configs, new_comm,
  split_comm, rdma_undefined,
}
use ffrdma.Comm.Split.{IsGroup, IsSplit, Group-mem, place-mem, Numbered-start_root, Numbered-start}
use ffrdma.Comm.Fill.{Numbered, set_ranks-Filled}
use ffrdma.Comm.Members.{
  Numbered-own, Ascending, IsComm, IsSort, root, roots, InWorld, All-Roots, All-below, From-InWorld,
  From-Distinct, members-From, Numbered-first,
}

get-mine {ℓ} :
    {A : Type ℓ} (xs : List A) (i : ℤ) (n : ℕ) (a : A)
    → i ≡ pos n
    → get_elem? xs n ≡ some a
    → get xs i ≡ some a
unfolding get
get-mine xs i n a e at = ap (get xs) e ∙ at

module _ (sort : List MemCommConfig → List MemCommConfig) (sorts : IsSort sort) (world my : ℕ)
    (my_lt : my < world) where
  new_comm-IsComm :
      (color : ℤ) (ms : List MemCommConfig)
      → All (InWorld world) ms
      → Distinct (roots ms)
      → length ms ≤ world
      → (c : Communicator) × (new_comm sort world (pos my) color ms ≡ some c)
        × IsComm world c
        × (c.color ≡ color)
        × (c.comm_world_size ≡ length ms)
        × (get_elem? c.comm_ranks my ≡ some c.my_comm_rank)
        × Numbered 0 (roots ms) c
        × ((q : ℕ) → q < world → Differs q (roots ms) → get_elem? c.comm_ranks q ≡ some (negsuc 0))
  unfolding new_comm communicator get
  new_comm-IsComm color ms inside distinct few =
      let start : Communicator = record (communicator world) {
        color = color;
        comm_world_size = length ms;
      } in
      let minus = negsuc 0 in
      let (d, ran, f) =
        set_ranks-Filled 0 world (roots ms) ms start (All-Roots world ms inside) distinct
          (All-below world ms inside) (omega (arith, length-map root ms))
          (length-replicate world minus) (length-replicate world minus) in
      let ranks_length : length d.comm_ranks ≡ world =
        f.ranks_length ∙ length-replicate world minus in
      let (mine, at) = get_elem?-some_of_lt d.comm_ranks my (omega arith) in
      (
        record d { my_comm_rank = mine },
        rw (ran, at),
        record {
          roots_length = f.roots_length ∙ length-replicate world minus;
          ranks_length = ranks_length;
          ranks = λ r lt.
              Numbered-first world (roots ms) d r f.numbered (All-below world ms inside)
                (omega (arith, length-map root ms, f.size));
        },
        f.color,
        f.size,
        at,
        Numbered-own 0 (roots ms) d mine f.numbered,
        λ q q_lt away. f.ranks_kept q away ∙ get_elem?-replicate world q minus q_lt,
      )

  chosen :
      (f : Communicator) (r₀ : ℕ) (configs : List CommConfig)
      → IsComm world f
      → f.my_comm_rank ≡ pos r₀
      → r₀ < f.comm_world_size
      → f.comm_world_size ≤ world
      → length configs ≡ f.comm_world_size
      → get_elem? f.root_ranks r₀ ≡ some (pos my)
      → (mine : CommConfig) × (get_elem? configs r₀ ≡ some mine)
        × (ms : List MemCommConfig) × (mem_comm_configs sort f configs ≡ some (mine.color, ms))
        × All (InWorld world) ms
        × Distinct (roots ms)
        × (length ms ≤ world)
        × Ascending ms
        × IsGroup my f mine.color configs ms
        × Mem my (roots ms)
  unfolding mem_comm_configs
  chosen f r₀ configs is me lt few len mine_at =
      let (mine, at) = get_elem?-some_of_lt configs r₀ (omega arith) in
      let shift : 0 + r₀ ≡ r₀ = omega arith in
      let (ms, found, from, short, group) =
        members-From world f mine.color 0 configs is (omega arith) in
      elim (Bool-cases (eqb_ℤ mine.color rdma_undefined)) [
        | inl alone ↦ (
          mine,
          at,
          record { root_rank = pos my; key = pos 0 } ∷ [],
          rw
              (
                get-mine configs f.my_comm_rank r₀ mine me at,
                alone,
                get-mine f.root_ranks f.my_comm_rank r₀ (pos my) me mine_at,
              )
              refl,
          ((refl, my_lt), tt),
          (tt, tt),
          omega arith,
          tt,
          inl (eqb_ℤ→eq mine.color rdma_undefined alone, refl),
          mem-cons_self,
        )
        | inr shared ↦ (
          mine,
          at,
          sort ms,
          rw (get-mine configs f.my_comm_rank r₀ mine me at, shared, found) refl,
          All-perm (InWorld world) (λ m. ×_prop (hlevel) le_prop) (sorts.perm ms)
              (From-InWorld world f 0 ms from),
          Distinct-perm (Perm.map root (sorts.perm ms)) (From-Distinct world f 0 ms from),
          omega (arith, sorts.length_eq ms),
          sorts.ascending ms,
          inr (eqb_ℤ-false→ne mine.color rdma_undefined shared, (ms, group, sorts.perm ms)),
          (Perm.mem_iff (Perm.map root (sorts.perm ms))).1
              (Group-mem f mine.color 0 configs ms r₀ mine my group at refl (rw shift mine_at)),
        )
      ]

-- A rank of a well-formed communicator that is in the pool calls RDMA_Comm_split's splitComm with a
-- configuration for each rank; its own entry in the table of that communicator is its rank in the
-- world. Then the call succeeds whatever the colors and keys are: it puts one
-- communicator at the end of the pool, leaves the others and returns its number; the new one is
-- well formed, its two tables being inverse on its ranks. Its color is the caller's; its members are
-- the ranks with that color in ascending order of their keys, or the caller alone if the color is
-- RDMA_UNDEFINED; the table holds -1 for every other rank of the world; and its my_comm_rank is the
-- caller's place among the members.
pub split_comm-IsComm :
    (sort : List MemCommConfig → List MemCommConfig) (world my from r₀ : ℕ)
    (pool : List Communicator) (f : Communicator) (configs : List CommConfig)
    → IsSort sort
    → my < world
    → get_elem? pool from ≡ some f
    → from < length pool
    → IsComm world f
    → f.my_comm_rank ≡ pos r₀
    → r₀ < f.comm_world_size
    → f.comm_world_size ≤ world
    → length configs ≡ f.comm_world_size
    → get_elem? f.root_ranks r₀ ≡ some (pos my)
    → (c : Communicator) × (split_comm sort world (pos my) pool (pos from) configs
        ≡ some (some (pool ++ (c ∷ []), length pool)))
      × IsComm world c
      × (c.comm_world_size ≤ world)
      × (get_elem? c.comm_ranks my ≡ some c.my_comm_rank)
      × IsSplit world my r₀ f configs c
unfolding split_comm get
split_comm-IsComm sort world my from r₀ pool f configs sorts my_lt at lt is me r_lt few len
      mine_at =
    let (config, asked, ms, found, inside, distinct, short, sorted, group, member) =
      chosen sort sorts world my my_lt f r₀ configs is me r_lt few len mine_at in
    let (c, made, is', color_eq, size, mine, numbered, outside) =
      new_comm-IsComm sort sorts world my my_lt config.color ms inside distinct short in
    let (n, n_at) = place-mem my (roots ms) member in
    let (n_lt, n_root, n_rank) = Numbered-start (roots ms) c n my numbered n_at in
    let own : some c.my_comm_rank ≡ some (pos n) = sym mine ∙ n_rank in
    let first : ltb_ℤ (pos from) (pos 0) ≡ false = ground arith in
    let second : leb_ℤ (pos (length pool)) (pos from) ≡ false = ground arith in
    (
      c,
      rw (first, second) (rw (at) (rw (found) (rw (made)))),
      is',
      omega arith,
      mine,
      record {
        mine = config;
        asked = asked;
        color = color_eq;
        ms = ms;
        group = group;
        ascending = sorted;
        size = size;
        numbers = λ r m at. Numbered-start_root world ms c r m numbered inside at;
        outside = outside;
        own = (n, omega (arith, length-map root ms), cc, n_root);
      },
    )
