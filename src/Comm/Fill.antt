-- ===== src/Comm/Fill.antt =====
-- The loop that numbers the members: afterwards the two tables are inverse on them.
use ffrdma.Common.Perm.{Differs, Distinct}
use ffrdma.Common.{
  ℕ, suc, ◌+◌, ◌≤◌, ◌<◌, ◌≡◌, refl, sym, ◌∙◌, some, List, [], ◌∷◌, arith, ℤ, pos, lt→ltb, length,
  get_elem?, set, length-set, get_elem?-set_self, get_elem?-set_ne,
}
use ffrdma.Comm.{Communicator, MemCommConfig, put, set_rank, set_ranks}

-- The world ranks of the members, in order.
abbrev pub Roots : List ℕ → List MemCommConfig → Type 0
Roots [] [] = Unit {0}
Roots [] (m ∷ ms) = ⊥
Roots (q ∷ qs) [] = ⊥
Roots (q ∷ qs) (m ∷ ms) = (m.root_rank ≡ pos q) × Roots qs ms

abbrev pub AllBelow : ℕ → List ℕ → Type 0
AllBelow n [] = Unit {0}
AllBelow n (q ∷ qs) = (q < n) × AllBelow n qs

put-ok : (xs : List ℤ) (i : ℕ) (v : ℤ) → i < length xs → put xs (pos i) v ≡ some (set xs i v)
unfolding put
put-ok xs i v h = rw (lt→ltb i (length xs) h)

-- Member i of the list gets the number n + i, in both tables.
abbrev pub Numbered : ℕ → List ℕ → Communicator → Type 0
Numbered n [] c = Unit {0}
Numbered n (q ∷ qs) c =
    (get_elem? c.root_ranks n ≡ some (pos q))
    × (get_elem? c.comm_ranks q ≡ some (pos n))
    × Numbered (suc n) qs c

-- What the loop leaves alone.
pub record Filled (n : ℕ) (qs : List ℕ) (c d : Communicator) : Type 0 where
  pub numbered : Numbered n qs d
  pub roots_kept : (i : ℕ) → i < n → get_elem? d.root_ranks i ≡ get_elem? c.root_ranks i
  pub ranks_kept : (q : ℕ) → Differs q qs → get_elem? d.comm_ranks q ≡ get_elem? c.comm_ranks q
  pub color : d.color ≡ c.color
  pub size : d.comm_world_size ≡ c.comm_world_size
  pub roots_length : length d.root_ranks ≡ length c.root_ranks
  pub ranks_length : length d.comm_ranks ≡ length c.comm_ranks

pub set_ranks-Filled :
    (n world : ℕ) (qs : List ℕ) (ms : List MemCommConfig) (c : Communicator)
    → Roots qs ms
    → Distinct qs
    → AllBelow world qs
    → n + length qs ≤ world
    → length c.root_ranks ≡ world
    → length c.comm_ranks ≡ world
    → (d : Communicator) × (set_ranks n ms c ≡ some d) × Filled n qs c d
unfolding set_ranks set_rank
set_ranks-Filled n world [] [] c roots dis below room lr lc = (
  c,
  refl,
  record {
    numbered = tt;
    roots_kept = λ i h. refl;
    ranks_kept = λ q h. refl;
    color = refl;
    size = refl;
    roots_length = refl;
    ranks_length = refl;
  },
)
set_ranks-Filled n world [] (m ∷ ms) c roots dis below room lr lc = absurd roots
set_ranks-Filled n world (q ∷ qs) [] c roots dis below room lr lc = absurd roots
set_ranks-Filled n world (q ∷ qs) (m ∷ ms) c roots dis below room lr lc =
    let c' : Communicator = record c {
      comm_ranks = set c.comm_ranks q (pos n);
      root_ranks = set c.root_ranks n (pos q);
    } in
    let (d, ran, f) =
      set_ranks-Filled (suc n) world qs ms c' roots.1 dis.1 below.1 (omega arith)
        (length-set c.root_ranks n (pos q) ∙ lr) (length-set c.comm_ranks q (pos n) ∙ lc) in
    (
      d,
      rw (roots.0, put-ok c.comm_ranks q (pos n) (omega (arith, below.0, lc)))
          (rw (put-ok c.root_ranks n (pos q) (omega (arith, lr))) ran),
      record {
        numbered = (
          f.roots_kept n (omega arith)
              ∙ get_elem?-set_self c.root_ranks n (pos q) (omega (arith, lr)),
          f.ranks_kept q dis.0
              ∙ get_elem?-set_self c.comm_ranks q (pos n) (omega (arith, below.0, lc)),
          f.numbered,
        );
        roots_kept = λ i h.
            f.roots_kept i (omega arith) ∙ get_elem?-set_ne c.root_ranks (pos q) (λ e. omega arith);
        ranks_kept =
            λ r h. f.ranks_kept r h.1 ∙ get_elem?-set_ne c.comm_ranks (pos n) (λ e. h.0 (sym e));
        color = f.color;
        size = f.size;
        roots_length = f.roots_length ∙ length-set c.root_ranks n (pos q);
        ranks_length = f.ranks_length ∙ length-set c.comm_ranks q (pos n);
      },
    )
