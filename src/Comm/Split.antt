-- ===== src/Comm/Split.antt =====
-- What splitComm of src/process.cc promises of the communicator that it makes, apart from its two
-- tables being inverse.
use mathlib.Core.List.{Perm, Mem, mem-cons_self, mem-cons_of_mem}
use mathlib.Core.Path.{subst}
use ffrdma.Common.Perm.{All, Differs, Differs-not-mem}
use ffrdma.Common.{
  ℕ, zero, suc, ◌+◌, ◌<◌, ◌≡◌, ◌≢◌, sym, ap, ◌∙◌, some, List, [], ◌∷◌, ℤ, pos, negsuc, ◌⊎◌, inl,
  inr, length, get_elem?, arith, ◌==◌, ==→eq, ==-false→ne, Bool-cases,
}
use ffrdma.Comm.{Communicator, MemCommConfig, CommConfig, rdma_undefined}
use ffrdma.Comm.Fill.{Numbered}
use ffrdma.Comm.Members.{roots, InWorld, Ascending, Group}

-- All that ask for the color, in any order, or the caller alone where it is undefined.
abbrev pub IsGroup : ℕ → Communicator → ℤ → List CommConfig → List MemCommConfig → Type 0
IsGroup my f color configs ms =
    ((color ≡ rdma_undefined) × (ms ≡ record { root_rank = pos my; key = pos 0 } ∷ []))
    ⊎ ((color ≢ rdma_undefined)
        × ((all : List MemCommConfig) × Group f color 0 configs all × Perm ms all))

-- The communicator c that rank r₀ of f, rank `my` of the world, makes: its members are those that
-- ask for the caller's color in ascending order of their keys, or the caller alone where that color
-- is undefined; every other rank of the world is outside; and the caller knows its own rank.
pub record IsSplit (world my r₀ : ℕ) (f : Communicator) (configs : List CommConfig)
    (c : Communicator) : Type 0 where
  pub mine : CommConfig
  pub asked : get_elem? configs r₀ ≡ some mine
  pub color : c.color ≡ mine.color
  pub ms : List MemCommConfig
  pub group : IsGroup my f mine.color configs ms
  pub ascending : Ascending ms
  pub size : c.comm_world_size ≡ length ms
  pub numbers :
      (r : ℕ) (m : MemCommConfig)
      → get_elem? ms r ≡ some m
      → get_elem? c.root_ranks r ≡ some m.root_rank
  pub outside :
      (q : ℕ) → q < world → Differs q (roots ms) → get_elem? c.comm_ranks q ≡ some (negsuc 0)
  pub own :
      (n : ℕ) × (n < c.comm_world_size)
      × (c.my_comm_rank ≡ pos n)
      × (get_elem? c.root_ranks n ≡ some (pos my))

-- The caller is in the group of its color.
pub Group-mem :
    (f : Communicator) (color : ℤ) (i : ℕ) (configs : List CommConfig) (ms : List MemCommConfig)
    (k : ℕ) (config : CommConfig) (my : ℕ)
    → Group f color i configs ms
    → get_elem? configs k ≡ some config
    → config.color ≡ color
    → get_elem? f.root_ranks (i + k) ≡ some (pos my)
    → Mem my (roots ms)
Group-mem f color i [] ms k config my g at e mine = absurd cc
Group-mem f color i (c ∷ cs) ms zero config my (inl (_, (q, rest, here, eq, g))) at e mine =
    let same : i + 0 ≡ i = omega arith in
    let back : some (pos q) ≡ some (pos my) =
      sym here ∙ (sym (ap (get_elem? f.root_ranks) same) ∙ mine) in
    let q_eq : q ≡ my = cc in
    subst (λ l. Mem my (roots l)) (sym eq)
      (subst (λ t. Mem my (t ∷ roots rest)) (sym q_eq) mem-cons_self)
Group-mem f color i (c ∷ cs) ms zero config my (inr (ne, g)) at e mine =
    let same : c ≡ config = cc in absurd (ne (ap (λ (t : CommConfig). t.color) same ∙ e))
Group-mem f color i (c ∷ cs) ms (suc k) config my (inl (_, (q, rest, here, eq, g))) at e mine =
    let same : i + suc k ≡ suc i + k = omega arith in
    subst (λ l. Mem my (roots l)) (sym eq)
      (mem-cons_of_mem q (Group-mem f color (suc i) cs rest k config my g at e (rw same at mine)))
Group-mem f color i (c ∷ cs) ms (suc k) config my (inr (ne, g)) at e mine =
    let same : i + suc k ≡ suc i + k = omega arith in
    Group-mem f color (suc i) cs ms k config my g at e (rw same at mine)

pub place : (q : ℕ) (qs : List ℕ) → ((n : ℕ) × (get_elem? qs n ≡ some q)) ⊎ Differs q qs
place q [] = inr tt
place q (r ∷ rs) = elim (Bool-cases (q == r)) [
  | inl same ↦ inl (0, ap some (sym (==→eq q r same)))
  | inr other ↦ elim (place q rs) [
    | inl (n, at) ↦ inl (suc n, at)
    | inr away ↦ inr (==-false→ne q r other, away)
  ]
]

pub place-mem : (q : ℕ) (qs : List ℕ) → Mem q qs → (n : ℕ) × (get_elem? qs n ≡ some q)
place-mem q qs m = elim (place q qs) [
  | inl found ↦ found
  | inr away ↦ absurd (Differs-not-mem q qs away m)
]

Numbered-root :
    (world n : ℕ) (ms : List MemCommConfig) (c : Communicator) (r : ℕ) (m : MemCommConfig)
    → Numbered n (roots ms) c
    → All (InWorld world) ms
    → get_elem? ms r ≡ some m
    → get_elem? c.root_ranks (n + r) ≡ some m.root_rank
Numbered-root world n [] c r m num inside at = absurd cc
Numbered-root world n (x ∷ xs) c zero m num inside at =
    let e : n + 0 ≡ n = omega arith in
    let same : x ≡ m = cc in
    rw e (num.0 ∙ ap some (sym inside.0.0 ∙ ap (λ (t : MemCommConfig). t.root_rank) same))
Numbered-root world n (x ∷ xs) c (suc r) m num inside at =
    let e : suc n + r ≡ n + suc r = omega arith in
    rw (← e) (Numbered-root world (suc n) xs c r m num.2 inside.1 at)

-- The place of a world rank in the list is its rank in both tables.
Numbered-place :
    (n : ℕ) (qs : List ℕ) (c : Communicator) (r q : ℕ)
    → Numbered n qs c
    → get_elem? qs r ≡ some q
    → (r < length qs)
      × (get_elem? c.root_ranks (n + r) ≡ some (pos q))
      × (get_elem? c.comm_ranks q ≡ some (pos (n + r)))
Numbered-place n [] c r q num at = absurd cc
Numbered-place n (x ∷ xs) c zero q num at =
    let e : n + 0 ≡ n = omega arith in
    let same : x ≡ q = cc in
    (
      omega arith,
      rw e (num.0 ∙ ap (λ t. some (pos t)) same),
      rw e (ap (get_elem? c.comm_ranks) (sym same) ∙ num.1),
    )
Numbered-place n (x ∷ xs) c (suc r) q num at =
    let e : suc n + r ≡ n + suc r = omega arith in
    let (lt, a, b) = Numbered-place (suc n) xs c r q num.2 at in
    (omega arith, rw (← e) a, rw (← e) b)

pub Numbered-start_root :
    (world : ℕ) (ms : List MemCommConfig) (c : Communicator) (r : ℕ) (m : MemCommConfig)
    → Numbered 0 (roots ms) c
    → All (InWorld world) ms
    → get_elem? ms r ≡ some m
    → get_elem? c.root_ranks r ≡ some m.root_rank
Numbered-start_root world ms c r m num inside at =
    let e : 0 + r ≡ r = omega arith in rw e at (Numbered-root world 0 ms c r m num inside at)

pub Numbered-start :
    (qs : List ℕ) (c : Communicator) (r q : ℕ)
    → Numbered 0 qs c
    → get_elem? qs r ≡ some q
    → (r < length qs)
      × (get_elem? c.root_ranks r ≡ some (pos q))
      × (get_elem? c.comm_ranks q ≡ some (pos r))
Numbered-start qs c r q num at =
    let e : 0 + r ≡ r = omega arith in
    let (lt, a, b) = Numbered-place 0 qs c r q num at in (lt, rw e at a, rw e at b)
