-- ===== src/Mpi/Reduce/Folded.antt =====
-- What RDMA_Reduce of src/mpi.cc is to do with an element of every rank, by its datatype and `op`.
use ffrdma.Common.{
  ℕ, suc, zero, ◌+◌, ◌≡◌, ◌≢◌, refl, sym, ap, ◌∙◌, Option, some, none, ℤ, pos, ◌⊎◌, inl, inr, ◌==◌,
  if◌then◌else◌, Bool-cases, eqb_ℤ, eqb_ℤ→eq, arith, false,
}
use ffrdma.Mpi.Machine.{Bytes}
use ffrdma.Mpi.Reduce.{ElementOp, ElementOps, chosen, layout}

-- The size of an element and its operations: 8 bytes for double (0) and long long (2), 4 for int (1).
abbrev pub IsKind : ElementOps → ℤ → ℕ → ElementOp → Type 0
IsKind ops datatype size e =
    ((datatype ≡ pos 0) × (size ≡ 8) × (e ≡ ops.of_double))
    ⊎ (((datatype ≡ pos 1) × (size ≡ 4) × (e ≡ ops.of_int))
        ⊎ ((datatype ≡ pos 2) × (size ≡ 8) × (e ≡ ops.of_long_long)))

-- What `op` asks for: 0 the sum, 1 the least, any other number the greatest.
abbrev pub Does : ElementOp → ℤ → (Bytes → Bytes → Option Bytes) → Type 0
Does e op f =
    ((op ≡ pos 0) × (f ≡ e.sum))
    ⊎ (((op ≡ pos 1) × (f ≡ λ a b. some (e.least a b)))
        ⊎ ((op ≢ pos 0) × (op ≢ pos 1) × (f ≡ λ a b. some (e.greatest a b))))

abbrev pub take_in : (Bytes → Bytes → Option Bytes) → Bytes → Option Bytes → Option Bytes
take_in f b none = none
take_in f b (some a) = f a b

-- The root's element, with those of the ranks below k but its own taken into it one after another;
-- none if one of these operations is undefined.
abbrev pub folded : (Bytes → Bytes → Option Bytes) → ℕ → (ℕ → Bytes) → Bytes → ℕ → Option Bytes
folded f rank part own zero = some own
folded f rank part own (suc k) =
    let before = folded f rank part own k in if k == rank then before else take_in f (part k) before

pub kind-layout :
    (ops : ElementOps) (datatype : ℤ) (size : ℕ) (e : ElementOp)
    → IsKind ops datatype size e
    → layout ops datatype ≡ some (size, e)
unfolding layout
kind-layout ops datatype size e (inl (d, z, o)) = rw (d, z, o) refl
kind-layout ops datatype size e (inr (inl (d, z, o))) = rw (d, z, o) refl
kind-layout ops datatype size e (inr (inr (d, z, o))) = rw (d, z, o) refl

ne-eqb_ℤ : (a b : ℤ) → a ≢ b → eqb_ℤ a b ≡ false
ne-eqb_ℤ a b ne = elim (Bool-cases (eqb_ℤ a b)) [
  | inl same ↦ absurd (ne (eqb_ℤ→eq a b same))
  | inr other ↦ other
]

pub Does-chosen :
    (e : ElementOp) (op : ℤ) (f : Bytes → Bytes → Option Bytes) → Does e op f → chosen e op ≡ f
Does-chosen e op f (inl (o, g)) = rw o (sym g)
Does-chosen e op f (inr (inl (o, g))) = rw o (sym g)
Does-chosen e op f (inr (inr (zero_ne, one_ne, g))) =
    rw (ne-eqb_ℤ op (pos 0) zero_ne, ne-eqb_ℤ op (pos 1) one_ne) (sym g)

pub same_some : {a b : Bytes} → some a ≡ some b → a ≡ b
same_some e = cc

taken_in :
    (f : Bytes → Bytes → Option Bytes) (b : Bytes) (o : Option Bytes) (x : Bytes)
    → take_in f b o ≡ some x
    → (y : Bytes) × (o ≡ some y)
taken_in f b none x e = absurd cc
taken_in f b (some y) x e = (y, refl)

last_round :
    (f : Bytes → Bytes → Option Bytes) (rank : ℕ) (part : ℕ → Bytes) (own : Bytes) (k : ℕ)
    (x : Bytes)
    → folded f rank part own (suc k) ≡ some x
    → (y : Bytes) × (folded f rank part own k ≡ some y)
last_round f rank part own k x e = elim (Bool-cases (k == rank)) [
  | inl same ↦ (x, rw same at e)
  | inr other ↦ taken_in f (part k) (folded f rank part own k) x (rw other at e)
]

pub folded_before :
    (f : Bytes → Bytes → Option Bytes) (rank : ℕ) (part : ℕ → Bytes) (own : Bytes) (d k m : ℕ)
    (x : Bytes)
    → d + k ≡ m
    → folded f rank part own m ≡ some x
    → (y : Bytes) × (folded f rank part own k ≡ some y)
folded_before f rank part own zero k m x e at =
    let e' : m ≡ k = omega arith in (x, ap (folded f rank part own) (sym e') ∙ at)
folded_before f rank part own (suc d) k m x e at =
    let e' : suc (d + k) ≡ m = omega arith in
    let (y, at') = last_round f rank part own (d + k) x (ap (folded f rank part own) e' ∙ at) in
    folded_before f rank part own d k (d + k) y refl at'
