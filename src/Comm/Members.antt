-- ===== src/Comm/Members.antt =====
-- Well-formed communicators, what std::sort promises, and the members that splitComm collects.
use mathlib.Core.List.{Perm}
use ffrdma.Common.Perm.{All, Differs, Distinct}
use ffrdma.Common.{
  eqb_ℤ-false→ne, eqb_ℤ→eq, ◌≢◌, ◌⊎◌, ℕ, zero, suc, ◌+◌, ◌≤◌, ◌<◌, ◌≡◌, refl, sym, ap, ◌∙◌, some,
  List, [], ◌∷◌, map, arith, ℤ, pos, pos_part, eqb_ℤ, inl, inr, Bool-cases, ◌≤ℤ◌, length, get_elem?,
}
use ffrdma.Comm.{Communicator, MemCommConfig, CommConfig, get, members}
use ffrdma.Comm.Fill.{Roots, AllBelow, Numbered}

-- Every rank of the communicator stands for a rank of the world, and the two tables are inverse on
-- them, so no two ranks stand for the same one.
pub record IsComm (world : ℕ) (c : Communicator) : Type 0 where
  pub roots_length : length c.root_ranks ≡ world
  pub ranks_length : length c.comm_ranks ≡ world
  pub ranks :
      (r : ℕ)
      → r < c.comm_world_size
      → (q : ℕ) × (q < world)
        × (get_elem? c.root_ranks r ≡ some (pos q))
        × (get_elem? c.comm_ranks q ≡ some (pos r))

abbrev pub root : MemCommConfig → ℕ
root m = pos_part m.root_rank

abbrev pub roots : List MemCommConfig → List ℕ
roots = map root

-- What std::sort promises: the same elements, in ascending order of their keys.
abbrev pub Ascending : List MemCommConfig → Type 0
Ascending [] = Unit {0}
Ascending (m ∷ []) = Unit {0}
Ascending (m ∷ (n ∷ ms)) = (m.key ≤ℤ n.key) × Ascending (n ∷ ms)

pub record IsSort (sort : List MemCommConfig → List MemCommConfig) : Type 0 where
  pub perm : (ms : List MemCommConfig) → Perm (sort ms) ms
  pub length_eq : (ms : List MemCommConfig) → length (sort ms) ≡ length ms
  pub ascending : (ms : List MemCommConfig) → Ascending (sort ms)

-- The ranks of the old communicator from i on that ask for the color, in order: the world rank of
-- each with its key.
abbrev pub Group : Communicator → ℤ → ℕ → List CommConfig → List MemCommConfig → Type 0
Group f color i [] ms = ms ≡ []
Group f color i (config ∷ configs) ms =
    ((config.color ≡ color)
      × ((q : ℕ) × (rest : List MemCommConfig) × (get_elem? f.root_ranks i ≡ some (pos q))
          × (ms ≡ record { root_rank = pos q; key = config.key } ∷ rest)
          × Group f color (suc i) configs rest))
    ⊎ ((config.color ≢ color) × Group f color (suc i) configs ms)

pub Numbered-own :
    (n : ℕ) (qs : List ℕ) (c : Communicator) (mine : ℤ)
    → Numbered n qs c
    → Numbered n qs (record c { my_comm_rank = mine })
Numbered-own n [] c mine num = tt
Numbered-own n (q ∷ qs) c mine num = (num.0, num.1, Numbered-own (suc n) qs c mine num.2)

-- Members found from rank i on, in ascending order of their ranks in the old communicator.
abbrev pub From : ℕ → Communicator → ℕ → List MemCommConfig → Type 0
From world f i [] = Unit {0}
From world f i (m ∷ ms) =
    (r : ℕ) × (i ≤ r)
    × (m.root_rank ≡ pos (root m))
    × (root m < world)
    × (get_elem? f.comm_ranks (root m) ≡ some (pos r))
    × From world f (suc r) ms

pub From-weaken :
    (world : ℕ) (f : Communicator) (i j : ℕ) (ms : List MemCommConfig)
    → i ≤ j
    → From world f j ms
    → From world f i ms
From-weaken world f i j [] h fr = tt
From-weaken world f i j (m ∷ ms) h (r, le, nat, below, at, rest) =
    (r, omega arith, nat, below, at, rest)

pub From-Differs :
    (world : ℕ) (f : Communicator) (q r i : ℕ) (ms : List MemCommConfig)
    → get_elem? f.comm_ranks q ≡ some (pos r)
    → r < i
    → From world f i ms
    → Differs q (roots ms)
From-Differs world f q r i [] e lt fr = tt
From-Differs world f q r i (m ∷ ms) e lt (s, le, nat, below, at, rest) = (
  (λ same.
      let eq : some (pos r) ≡ some (pos s) = sym e ∙ (ap (get_elem? f.comm_ranks) same ∙ at) in
      let num : r ≡ s = cc in omega arith),
  From-Differs world f q r (suc s) ms e (omega arith) rest,
)

pub From-Distinct :
    (world : ℕ) (f : Communicator) (i : ℕ) (ms : List MemCommConfig)
    → From world f i ms
    → Distinct (roots ms)
From-Distinct world f i [] fr = tt
From-Distinct world f i (m ∷ ms) (r, le, nat, below, at, rest) = (
  From-Differs world f (root m) r (suc r) ms at (omega arith) rest,
  From-Distinct world f (suc r) ms rest,
)

-- A member's root rank is a rank of the world.
abbrev pub InWorld : ℕ → MemCommConfig → Type 0
InWorld world m = (m.root_rank ≡ pos (root m)) × (root m < world)

pub From-InWorld :
    (world : ℕ) (f : Communicator) (i : ℕ) (ms : List MemCommConfig)
    → From world f i ms
    → All (InWorld world) ms
From-InWorld world f i [] fr = tt
From-InWorld world f i (m ∷ ms) (r, le, nat, below, at, rest) =
    ((nat, below), From-InWorld world f (suc r) ms rest)

pub All-Roots : (world : ℕ) (ms : List MemCommConfig) → All (InWorld world) ms → Roots (roots ms) ms
All-Roots world [] a = tt
All-Roots world (m ∷ ms) a = (a.0.0, All-Roots world ms a.1)

pub All-below :
    (world : ℕ) (ms : List MemCommConfig) → All (InWorld world) ms → AllBelow world (roots ms)
All-below world [] a = tt
All-below world (m ∷ ms) a = (a.0.1, All-below world ms a.1)

pub members-From :
    (world : ℕ) (f : Communicator) (color : ℤ) (i : ℕ) (configs : List CommConfig)
    → IsComm world f
    → i + length configs ≤ f.comm_world_size
    → (ms : List MemCommConfig) × (members f color i configs ≡ some ms)
      × From world f i ms
      × (length ms ≤ length configs)
      × Group f color i configs ms
unfolding members get
members-From world f color i [] is room = ([], refl, tt, omega arith, refl)
members-From world f color i (config ∷ configs) is room =
    let (ms, found, from, few, group) =
      members-From world f color (suc i) configs is (omega arith) in
    elim (Bool-cases (eqb_ℤ config.color color)) [
      | inl mine ↦
          let (q, below, at, back) = is.ranks i (omega arith) in
          (
            record { root_rank = pos q; key = config.key } ∷ ms,
            rw (found, mine, at),
            (i, omega arith, refl, below, back, from),
            omega arith,
            inl (eqb_ℤ→eq config.color color mine, (q, ms, at, refl, group)),
          )
      | inr other ↦ (
        ms,
        rw (found, other),
        From-weaken world f i (suc i) ms (omega arith) from,
        omega arith,
        inr (eqb_ℤ-false→ne config.color color other, group),
      )
    ]

pub Numbered-at :
    (world n : ℕ) (qs : List ℕ) (c : Communicator) (r : ℕ)
    → Numbered n qs c
    → AllBelow world qs
    → r < length qs
    → (q : ℕ) × (q < world)
      × (get_elem? c.root_ranks (n + r) ≡ some (pos q))
      × (get_elem? c.comm_ranks q ≡ some (pos (n + r)))
Numbered-at world n [] c r num below lt = elim lt [ ]
Numbered-at world n (q ∷ qs) c zero num below lt =
    let e : n + 0 ≡ n = omega arith in (q, below.0, rw e num.0, rw e num.1)
Numbered-at world n (q ∷ qs) c (suc r) num below lt =
    let e : suc n + r ≡ n + suc r = omega arith in
    rw (← e) (Numbered-at world (suc n) qs c r num.2 below.1 (omega arith))

pub Numbered-first :
    (world : ℕ) (qs : List ℕ) (c : Communicator) (r : ℕ)
    → Numbered 0 qs c
    → AllBelow world qs
    → r < length qs
    → (q : ℕ) × (q < world)
      × (get_elem? c.root_ranks r ≡ some (pos q))
      × (get_elem? c.comm_ranks q ≡ some (pos r))
Numbered-first world qs c r num below lt =
    let e : 0 + r ≡ r = omega arith in rw e at (Numbered-at world 0 qs c r num below lt)
