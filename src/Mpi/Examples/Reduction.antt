-- ===== src/Mpi/Examples/Reduction.antt =====
-- RDMA_Reduce of src/mpi.cc run by rank 1 of three, on one int each.
use ffrdma.Common.{
  ◌≢◌, ◌≤◌, ◌-◌, ◌-◌, ◌≤◌, ℕ, ◌+◌, ◌<◌, ◌≡◌, refl, ◌∙◌, ap, some, List, [], ◌∷◌, pos, arith, Option,
  length,
}
use ffrdma.Mpi.Machine.{Proc, Bytes, scale}
use ffrdma.Mpi.Loop.{Returns}
use ffrdma.Mpi.Reduce.{ElementOp, ElementOps, rdma_reduce}
use ffrdma.Mpi.Reduce.Elements.{element, IsSized}
use ffrdma.Common.{none, drop, ltb, if◌then◌else◌, inl, inr, Bool-cases, sym, zero, suc}
use ffrdma.Mpi.Reduce.Folded.{folded}
use ffrdma.Mpi.Reduce.Delivers.{reduce_delivers}
use ffrdma.Mpi.Examples.{peer, view, view-IsConnected, idle}

-- The sum of the lowest bytes, undefined from 128 on.
abbrev add_low : Bytes → Bytes → Option Bytes
add_low [] b = some []
add_low (x ∷ xs) [] = some (x ∷ xs)
add_low (x ∷ xs) (y ∷ ys) = if ltb (x + y) 128 then some ((x + y) ∷ xs) else none

abbrev adding : ElementOp
adding = record { sum = add_low; least = λ a b. a; greatest = λ a b. b }

abbrev adding_all : ElementOps
adding_all = record { of_double = adding; of_int = adding; of_long_long = adding }

abbrev int_block : ℕ → Bytes
int_block q = q ∷ (0 ∷ (0 ∷ (0 ∷ [])))

abbrev behind_ints : ℕ → List (Option Bytes)
behind_ints q = []

abbrev ints : Proc
ints = record idle { inbox = λ p. some ((p - 10) ∷ (0 ∷ (0 ∷ (0 ∷ [])))) ∷ [] }

abbrev own_int : Bytes
own_int = 40 ∷ (0 ∷ (0 ∷ (0 ∷ [])))

abbrev empty_int : Bytes
empty_int = 9 ∷ (9 ∷ (9 ∷ (9 ∷ [])))

add_low-IsSized : IsSized add_low 4
add_low-IsSized [] b r la lb e = absurd (omega arith)
add_low-IsSized (x ∷ xs) [] r la lb e = absurd (omega arith)
add_low-IsSized (x ∷ xs) (y ∷ ys) r la lb e = elim (Bool-cases (ltb (x + y) 128)) [
  | inl small ↦
      let at : some ((x + y) ∷ xs) ≡ some r = rw small at e in
      let same : (x + y) ∷ xs ≡ r = cc in ap length (sym same) ∙ la
  | inr large ↦ let at : none ≡ some r = rw large at e in absurd cc
]

-- 40 with the 0 of rank 0 and the 2 of rank 2.
abbrev total : ℕ → Bytes
total j = 42 ∷ (0 ∷ (0 ∷ (0 ∷ [])))

reduce_delivers_example :
    Returns
      (λ (code, out) t.
        (code ≡ pos 0)
        × (b : Bytes) × (out ≡ some b)
        × (length b ≡ 4)
        × ((j : ℕ) → j < 1 → element 4 j b ≡ total j)
        × (drop 4 b ≡ [])
        × (t.live ≡ []))
      (rdma_reduce adding_all view
        (some own_int)
        (some empty_int)
        (pos 1)
        (pos 1)
        (pos 0)
        (pos 1)
        ints)
unfolding scale
reduce_delivers_example =
    reduce_delivers adding_all view peer 4 4 1 (pos 1) (pos 1) (pos 0) adding add_low own_int
      empty_int int_block behind_ints total ints view-IsConnected refl
      (inr (inl (refl, refl, refl))) (inl (refl, refl)) refl refl add_low-IsSized (omega arith)
      (omega arith) (λ q lt. refl) arrives sums
  where
    arrives : (q : ℕ) → 0 ≤ q → q < 3 → q ≢ 1 → ints.inbox (peer q) ≡ some (int_block q) ∷ []
    arrives q ge lt ne = ap (λ x. some (x ∷ (0 ∷ (0 ∷ (0 ∷ [])))) ∷ []) (omega arith)

    sums :
        (j : ℕ)
        → j < 1
        → folded add_low 1 (λ q. element 4 j (int_block q)) (element 4 j own_int) 3 ≡ some (total j)
    sums zero lt = refl
    sums (suc j) lt = absurd (omega arith)
