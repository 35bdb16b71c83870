-- ===== src/Mpi/Memory.antt =====
-- Slices of a byte buffer, and what memcpy does to them.
use ffrdma.Common.{
  sym, ℕ, zero, suc, ◌+◌, ◌≤◌, ◌≡◌, refl, ap, ◌∙◌, ◌⊎◌, inl, inr, some, [], ◌∷◌, ◌++◌, arith, pos,
  le→leb, length, take, drop, length-append, length-take, length-drop,
}
use native.Mathlib.Nat.{suc-add, zero-add}
use ffrdma.Mpi.Machine.{Bytes, Proc, ok, memcpy, read}

-- n bytes from offset `off` on
abbrev pub slice : ℕ → ℕ → Bytes → Bytes
slice off n b = take n (drop off b)

abbrev pub patch : Bytes → ℕ → Bytes → Bytes
patch dst off bytes = take off dst ++ (bytes ++ drop (off + length bytes) dst)

pub length-patch :
    (dst : Bytes) (off : ℕ) (bytes : Bytes)
    → off + length bytes ≤ length dst
    → length (patch dst off bytes) ≡ length dst
length-patch dst off bytes h = omega (
  arith,
  length-append (take off dst) (bytes ++ drop (off + length bytes) dst),
  length-append bytes (drop (off + length bytes) dst),
  length-take off dst (omega arith),
  length-drop (off + length bytes) dst,
)

take-append : (xs ys : Bytes) → take (length xs) (xs ++ ys) ≡ xs
take-append [] ys = refl
take-append (x ∷ xs) ys = ap (λ t. x ∷ t) (take-append xs ys)

-- The bytes written are read back.
pub slice-patch_self :
    (dst : Bytes) (off : ℕ) (bytes : Bytes)
    → off + length bytes ≤ length dst
    → slice off (length bytes) (patch dst off bytes) ≡ bytes
slice-patch_self dst zero bytes h = take-append bytes _
slice-patch_self [] (suc off) bytes h = absurd (omega arith)
slice-patch_self (x ∷ dst) (suc off) bytes h =
    rw (suc-add off (length bytes)) (slice-patch_self dst off bytes (omega arith))

slice-append_left :
    (dst zs : Bytes) (off o n : ℕ)
    → off ≤ length dst
    → o + n ≤ off
    → slice o n (take off dst ++ zs) ≡ slice o n dst
slice-append_left [] zs zero zero zero h k = refl
slice-append_left [] zs zero (suc o) n h k = absurd (omega arith)
slice-append_left [] zs zero zero (suc n) h k = absurd (omega arith)
slice-append_left [] zs (suc off) o n h k = absurd (omega arith)
slice-append_left (x ∷ dst) zs zero zero zero h k = refl
slice-append_left (x ∷ dst) zs zero (suc o) n h k = absurd (omega arith)
slice-append_left (x ∷ dst) zs zero zero (suc n) h k = absurd (omega arith)
slice-append_left (x ∷ dst) zs (suc off) zero zero h k = refl
slice-append_left (x ∷ dst) zs (suc off) zero (suc n) h k =
    ap (λ t. x ∷ t) (slice-append_left dst zs off zero n (omega arith) (omega arith))
slice-append_left (x ∷ dst) zs (suc off) (suc o) n h k =
    slice-append_left dst zs off o n (omega arith) (omega arith)

drop_nil : (n : ℕ) → drop {A = ℕ} n [] ≡ []
drop_nil zero = refl
drop_nil (suc n) = refl

drop-append_right :
    (bytes dst : Bytes) (o : ℕ)
    → length bytes ≤ o
    → drop o (bytes ++ drop (length bytes) dst) ≡ drop o dst
drop-append_right [] dst o h = refl
drop-append_right (b ∷ bytes) dst zero h = absurd (omega arith)
drop-append_right (b ∷ bytes) [] (suc o) h =
    ap (λ (t : Bytes). drop o (bytes ++ t)) (sym (drop_nil (length bytes)))
    ∙ drop-append_right bytes [] o (omega arith)
    ∙ drop_nil o
drop-append_right (b ∷ bytes) (x ∷ dst) (suc o) h = drop-append_right bytes dst o (omega arith)

drop-patch_right :
    (dst : Bytes) (off : ℕ) (bytes : Bytes) (o : ℕ)
    → off ≤ length dst
    → off + length bytes ≤ o
    → drop o (patch dst off bytes) ≡ drop o dst
drop-patch_right dst zero bytes o h k =
    rw (zero-add (length bytes)) (drop-append_right bytes dst o (omega arith))
drop-patch_right [] (suc off) bytes o h k = absurd (omega arith)
drop-patch_right (x ∷ dst) (suc off) bytes zero h k = absurd (omega arith)
drop-patch_right (x ∷ dst) (suc off) bytes (suc o) h k =
    rw (suc-add off (length bytes)) (drop-patch_right dst off bytes o (omega arith) (omega arith))

-- What lies before or behind the bytes written keeps its value.
pub slice-patch_other :
    (dst : Bytes) (off : ℕ) (bytes : Bytes) (o n : ℕ)
    → off ≤ length dst
    → (o + n ≤ off) ⊎ (off + length bytes ≤ o)
    → slice o n (patch dst off bytes) ≡ slice o n dst
slice-patch_other dst off bytes o n h (inl before) = slice-append_left dst _ off o n h before
slice-patch_other dst off bytes o n h (inr behind) =
    ap (take n) (drop-patch_right dst off bytes o h behind)

pub read-ok : (src : Bytes) (n : ℕ) → n ≤ length src → read src (pos n) ≡ some (take n src)
unfolding read
read-ok src n h = rw (le→leb _ _ h)

-- A memcpy within bounds is a patch.
pub memcpy-ok :
    (dst src : Bytes) (off n : ℕ) (s : Proc)
    → n ≤ length src
    → off + n ≤ length dst
    → memcpy dst (pos off) src (pos n) s ≡ ok (patch dst off (take n src)) s
unfolding memcpy
memcpy-ok dst src off n s h k =
    rw (le→leb n (length src) h)
      (rw (le→leb (off + length (take n src)) (length dst) (omega (arith, length-take n src h))))
