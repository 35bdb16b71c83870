-- ===== src/Comm/Examples.antt =====
-- splitComm on a world of three, with insertion sort for std::sort.
use ffrdma.Common.{
  subst, ◌∙◌, ◌∙◌, ℕ, zero, suc, ◌≤◌, ◌<◌, ◌≡◌, refl, Bool-cases, true, false, inl, inr, ap, some,
  List, [], ◌∷◌, pos, arith, if◌then◌else◌, length, get_elem?,
}
use mathlib.Core.List.{Perm}
use mathlib.Core.List.Perm
use ffrdma.Comm.{less, CommConfig, MemCommConfig, Communicator, split_comm}
use ffrdma.Comm.Members.{Ascending, IsSort, IsComm}
use ffrdma.Comm.Split.{IsSplit}
use ffrdma.Comm.Laws.{split_comm-IsComm}

insert : MemCommConfig → List MemCommConfig → List MemCommConfig
insert m [] = m ∷ []
insert m (n ∷ ns) = let rest = insert m ns in if less n m then n ∷ rest else m ∷ (n ∷ ns)

sort : List MemCommConfig → List MemCommConfig
unfolding insert
sort [] = []
sort (m ∷ ms) = insert m (sort ms)

insert_up :
    (m n : MemCommConfig) (ns : List MemCommConfig)
    → less n m ≡ true
    → n ∷ insert m ns ≡ insert m (n ∷ ns)
unfolding insert
insert_up m n ns e = rw e refl

insert_stay :
    (m n : MemCommConfig) (ns : List MemCommConfig)
    → less n m ≡ false
    → m ∷ (n ∷ ns) ≡ insert m (n ∷ ns)
unfolding insert
insert_stay m n ns e = rw e refl

insert-Perm : (m : MemCommConfig) (ns : List MemCommConfig) → Perm (insert m ns) (m ∷ ns)
unfolding insert
insert-Perm m [] = Perm.refl (m ∷ [])
insert-Perm m (n ∷ ns) = elim (Bool-cases (less n m)) [
  | inl up ↦
      subst (λ t. Perm t (m ∷ (n ∷ ns))) (insert_up m n ns up)
        (Perm.trans (Perm.cons n (insert-Perm m ns)) (Perm.swap m n ns))
  | inr stay ↦
      subst (λ t. Perm t (m ∷ (n ∷ ns))) (insert_stay m n ns stay) (Perm.refl (m ∷ (n ∷ ns)))
]

sort-Perm : (ms : List MemCommConfig) → Perm (sort ms) ms
unfolding sort
sort-Perm [] = Perm.refl []
sort-Perm (m ∷ ms) = Perm.trans (insert-Perm m (sort ms)) (Perm.cons m (sort-Perm ms))

length-insert :
    (m : MemCommConfig) (ns : List MemCommConfig) → length (insert m ns) ≡ suc (length ns)
unfolding insert
length-insert m [] = refl
length-insert m (n ∷ ns) = elim (Bool-cases (less n m)) [
  | inl up ↦ rw up (ap suc (length-insert m ns))
  | inr stay ↦ rw stay refl
]

length-sort : (ms : List MemCommConfig) → length (sort ms) ≡ length ms
unfolding sort
length-sort [] = refl
length-sort (m ∷ ms) = length-insert m (sort ms) ∙ ap suc (length-sort ms)

insert-Ascending :
    (m : MemCommConfig) (ns : List MemCommConfig) → Ascending ns → Ascending (insert m ns)
unfolding insert less
insert-Ascending m [] a = tt
insert-Ascending m (n ∷ []) a = elim (Bool-cases (less n m)) [
  | inl up ↦ rw up (ground arith, tt)
  | inr stay ↦ rw stay (ground arith, tt)
]
insert-Ascending m (n ∷ (o ∷ os)) a =
    let rest = insert-Ascending m (o ∷ os) a.1 in
    elim (Bool-cases (less n m)) [
      | inl up ↦ elim (Bool-cases (less o m)) [
        | inl over ↦ rw (up, over) (a.0, rw over at rest)
        | inr under ↦ rw (up, under) (ground arith, rw under at rest)
      ]
      | inr stay ↦ rw stay (ground arith, a)
    ]

sort-Ascending : (ms : List MemCommConfig) → Ascending (sort ms)
unfolding sort
sort-Ascending [] = tt
sort-Ascending (m ∷ ms) = insert-Ascending m (sort ms) (sort-Ascending ms)

sort-IsSort : IsSort sort
sort-IsSort = record { perm = sort-Perm; length_eq = length-sort; ascending = sort-Ascending }

abbrev world_comm : Communicator
world_comm = record {
  color = pos 0;
  my_comm_rank = pos 0;
  comm_world_size = 3;
  comm_ranks = pos 0 ∷ (pos 1 ∷ (pos 2 ∷ []));
  root_ranks = pos 0 ∷ (pos 1 ∷ (pos 2 ∷ []));
}

world_comm-IsComm : IsComm 3 world_comm
world_comm-IsComm = record { roots_length = refl; ranks_length = refl; ranks = ranks }
  where
    ranks :
        (r : ℕ)
        → r < 3
        → (q : ℕ) × (q < 3)
          × (get_elem? world_comm.root_ranks r ≡ some (pos q))
          × (get_elem? world_comm.comm_ranks q ≡ some (pos r))
    ranks zero lt = (0, omega arith, refl, refl)
    ranks (suc zero) lt = (1, omega arith, refl, refl)
    ranks (suc (suc zero)) lt = (2, omega arith, refl, refl)
    ranks (suc (suc (suc r))) lt = absurd (omega arith)

-- Ranks 0 and 2 ask for color 7, rank 2 with the smaller key.
abbrev configs : List CommConfig
configs =
    record { color = pos 7; key = pos 5 }
    ∷ (record { color = pos 8; key = pos 0 } ∷ (record { color = pos 7; key = pos 2 } ∷ []))

split_comm-IsComm_example :
    (c : Communicator) × (split_comm sort 3 (pos 0) (world_comm ∷ []) (pos 0) configs
      ≡ some (some (world_comm ∷ (c ∷ []), 1)))
    × IsComm 3 c
    × (c.comm_world_size ≤ 3)
    × (get_elem? c.comm_ranks 0 ≡ some c.my_comm_rank)
    × IsSplit 3 0 0 world_comm configs c
split_comm-IsComm_example =
    split_comm-IsComm sort 3 0 0 0 (world_comm ∷ []) world_comm configs sort-IsSort (omega arith)
      refl (omega arith) world_comm-IsComm refl (omega arith) (omega arith) refl refl
