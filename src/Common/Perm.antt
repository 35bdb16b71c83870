-- ===== src/Common/Perm.antt =====
-- What a permutation keeps: facts about every element, and that no element stands twice.
use mathlib.Core.List.{
  List, [], ◌∷◌, Mem, Nodup, Nodup-cons, Nodup-nil, Perm, mem-cons, mem-cons_self, mem-cons_of_mem,
  not-mem-nil,
}
use mathlib.Core.List.Perm
use mathlib.Core.Logic.Or
use mathlib.Core.Logic.{◌≢◌}
use mathlib.Core.HLevel.{⊥_prop}
use mathlib.Core.Path.{sym, subst}
use Prim.Native.Nat.{ℕ}

abbrev pub All {ℓ} : {A : Type ℓ} → (A → Type 0) → List A → Type 0
All P [] = Unit {0}
All P (x ∷ xs) = P x × All P xs

abbrev pub Differs : ℕ → List ℕ → Type 0
Differs q [] = Unit {0}
Differs q (r ∷ rs) = (q ≢ r) × Differs q rs

abbrev pub Distinct : List ℕ → Type 0
Distinct [] = Unit {0}
Distinct (q ∷ qs) = Differs q qs × Distinct qs

module _ {ℓ} {A : Type ℓ} (P : A → Type 0) (prop : (x : A) → IsProp (P x)) where
  All-mem : (xs : List A) → All P xs → (x : A) → Mem x xs → P x
  All-mem [] a x m = absurd (not-mem-nil m)
  All-mem (y ∷ ys) a x m =
      Or.elim (prop x) (mem-cons.0 m) (λ e. subst P (sym e) a.0) (λ n. All-mem ys a.1 x n)

  mem-All : (xs : List A) → ((x : A) → Mem x xs → P x) → All P xs
  mem-All [] h = tt
  mem-All (y ∷ ys) h = (h y mem-cons_self, mem-All ys (λ x m. h x (mem-cons_of_mem y m)))

  pub All-perm : {xs ys : List A} → Perm xs ys → All P ys → All P xs
  All-perm {xs} {ys} p a = mem-All xs (λ x m. All-mem ys a x ((Perm.mem_iff p).0 m))

pub Differs-not-mem : (q : ℕ) (qs : List ℕ) → Differs q qs → ¬ Mem q qs
Differs-not-mem q [] d m = not-mem-nil m
Differs-not-mem q (r ∷ rs) d m = Or.elim ⊥_prop (mem-cons.0 m) d.0 (Differs-not-mem q rs d.1)

not-mem-Differs : (q : ℕ) (qs : List ℕ) → ¬ Mem q qs → Differs q qs
not-mem-Differs q [] n = tt
not-mem-Differs q (r ∷ rs) n =
    ((λ e. n (mem-cons.1 (Or.inl e))), not-mem-Differs q rs (λ m. n (mem-cons_of_mem r m)))

Distinct-Nodup : (qs : List ℕ) → Distinct qs → Nodup qs
Distinct-Nodup [] d = Nodup-nil
Distinct-Nodup (q ∷ qs) d = Nodup-cons.1 (Differs-not-mem q qs d.0, Distinct-Nodup qs d.1)

Nodup-Distinct : (qs : List ℕ) → Nodup qs → Distinct qs
Nodup-Distinct [] d = tt
Nodup-Distinct (q ∷ qs) d =
    (not-mem-Differs q qs (Nodup-cons.0 d).0, Nodup-Distinct qs (Nodup-cons.0 d).1)

pub Distinct-perm : {xs ys : List ℕ} → Perm xs ys → Distinct ys → Distinct xs
Distinct-perm {xs} {ys} p d = Nodup-Distinct xs (Perm.nodup (Perm.symm p) (Distinct-Nodup ys d))
