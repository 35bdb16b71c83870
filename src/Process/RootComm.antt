-- ===== src/Process/RootComm.antt =====
-- setupRootCommWorld of src/process.cc: the root communicator.
use ffrdma.Common.{
  ◌==◌, ==→eq, ==-false→ne, Bool-cases, Bool-cases, ℕ, zero, suc, ◌+◌, ◌<◌, ◌≡◌, refl, ◌∙◌, subst,
  List, some, length, get_elem?, set, length-set, get_elem?-set_self, get_elem?-set_ne, ℤ, pos,
  arith, lt→ltb, length-replicate, inl, inr, negsuc,
}
use ffrdma.Comm.{Communicator, communicator, set_rank, put}
use ffrdma.Comm.Members.{IsComm}
use ffrdma.Process.{set_root_ranks, root_comm}

-- The ranks below n stand for themselves in both tables.
pub record Identity (n world my : ℕ) (c : Communicator) : Type 0 where
  pub roots_length : length c.root_ranks ≡ world
  pub ranks_length : length c.comm_ranks ≡ world
  pub mine : c.my_comm_rank ≡ pos my
  pub size : c.comm_world_size ≡ world
  pub roots : (q : ℕ) → q < n → get_elem? c.root_ranks q ≡ some (pos q)
  pub ranks : (q : ℕ) → q < n → get_elem? c.comm_ranks q ≡ some (pos q)

set_at :
    (xs : List ℤ) (n q : ℕ)
    → n < length xs
    → ((i : ℕ) → i < n → get_elem? xs i ≡ some (pos i))
    → q < suc n
    → get_elem? (set xs n (pos n)) q ≡ some (pos q)
set_at xs n q h at lt = elim (Bool-cases (q == n)) [
  | inl same ↦ let e : q ≡ n = ==→eq q n same in rw e (get_elem?-set_self xs n (pos n) h)
  | inr other ↦
      let ne = ==-false→ne q n other in
      get_elem?-set_ne xs (pos n) (λ e. ne (omega arith)) ∙ at q (omega (arith, ne))
]

put-set : (xs : List ℤ) (i : ℕ) (v : ℤ) → i < length xs → put xs (pos i) v ≡ some (set xs i v)
unfolding put
put-set xs i v h = rw (lt→ltb i (length xs) h)

set_root_ranks-Identity :
    (k n world my : ℕ) (c : Communicator)
    → n + k ≡ world
    → Identity n world my c
    → (d : Communicator) × (set_root_ranks k n c ≡ some d) × Identity world world my d
unfolding set_root_ranks set_rank
set_root_ranks-Identity zero n world my c e is =
    let e' : n ≡ world = omega arith in (c, refl, subst (λ m. Identity m world my c) e' is)
set_root_ranks-Identity (suc k) n world my c e is =
    let c' : Communicator = record c {
      comm_ranks = set c.comm_ranks n (pos n);
      root_ranks = set c.root_ranks n (pos n);
    } in
    let (d, ran, id) = set_root_ranks-Identity k (suc n) world my c' (omega arith) (record {
      roots_length = length-set c.root_ranks n (pos n) ∙ is.roots_length;
      ranks_length = length-set c.comm_ranks n (pos n) ∙ is.ranks_length;
      mine = is.mine;
      size = is.size;
      roots = λ q lt. set_at c.root_ranks n q (omega (arith, is.roots_length)) is.roots lt;
      ranks = λ q lt. set_at c.comm_ranks n q (omega (arith, is.ranks_length)) is.ranks lt;
    }) in
    (
      d,
      rw (put-set c.comm_ranks n (pos n) (omega (arith, is.ranks_length)))
          (rw (put-set c.root_ranks n (pos n) (omega (arith, is.roots_length))) ran),
      id,
    )

pub root_comm-Identity :
    (world my : ℕ) → (c : Communicator) × (root_comm world my ≡ some c) × Identity world world my c
unfolding root_comm communicator
root_comm-Identity world my =
    set_root_ranks-Identity world 0 world my
      (record (communicator world) {
        color = pos 0;
        my_comm_rank = pos my;
        comm_world_size = world;
      })
      (omega arith)
      (record {
        roots_length = length-replicate world (negsuc 0);
        ranks_length = length-replicate world (negsuc 0);
        mine = refl;
        size = refl;
        roots = λ q lt. absurd (omega arith);
        ranks = λ q lt. absurd (omega arith);
      })

pub Identity-IsComm : (world my : ℕ) (c : Communicator) → Identity world world my c → IsComm world c
Identity-IsComm world my c is = record {
  roots_length = is.roots_length;
  ranks_length = is.ranks_length;
  ranks = λ r lt.
      let below : r < world = omega (arith, is.size) in
      (r, below, is.roots r below, is.ranks r below);
}
