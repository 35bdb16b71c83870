-- ===== src/Mpi/Reduce/Elements.antt =====
-- The elements of a buffer of RDMA_Reduce of src/mpi.cc, and what the loop over them does to each.
use ffrdma.Common.{
  ℕ, zero, suc, ◌+◌, ◌*◌, ◌≤◌, ◌<◌, ◌≡◌, refl, sym, ap, ◌∙◌, Option, some, [], ◌∷◌, ◌++◌, arith,
  length, take, drop, length-append, length-drop, length-take,
}
use ffrdma.Mpi.Machine.{Bytes}
use ffrdma.Mpi.Reduce.{elem_wise}

-- The element with number j, of `size` bytes.
abbrev pub element : ℕ → ℕ → Bytes → Bytes
element size zero b = take size b
element size (suc j) b = element size j (drop size b)

-- What follows the first n elements.
abbrev pub behind : ℕ → ℕ → Bytes → Bytes
behind size zero b = b
behind size (suc n) b = behind size n (drop size b)

-- An operation on elements of `size` bytes gives one of that size.
abbrev pub IsSized : (Bytes → Bytes → Option Bytes) → ℕ → Type 0
IsSized f size =
    (a b r : Bytes) → length a ≡ size → length b ≡ size → f a b ≡ some r → length r ≡ size

take_exact : (n : ℕ) (xs ys : Bytes) → length xs ≡ n → take n (xs ++ ys) ≡ xs
take_exact zero [] ys e = refl
take_exact zero (x ∷ xs) ys e = absurd (omega arith)
take_exact (suc n) [] ys e = absurd (omega arith)
take_exact (suc n) (x ∷ xs) ys e = ap (λ t. x ∷ t) (take_exact n xs ys (omega arith))

drop_exact : (n : ℕ) (xs ys : Bytes) → length xs ≡ n → drop n (xs ++ ys) ≡ ys
drop_exact zero [] ys e = refl
drop_exact zero (x ∷ xs) ys e = absurd (omega arith)
drop_exact (suc n) [] ys e = absurd (omega arith)
drop_exact (suc n) (x ∷ xs) ys e = drop_exact n xs ys (omega arith)

take_long : (n : ℕ) (xs ys : Bytes) → n ≤ length xs → take n (xs ++ ys) ≡ take n xs
take_long zero xs ys h = refl
take_long (suc n) [] ys h = absurd (omega arith)
take_long (suc n) (x ∷ xs) ys h = ap (λ t. x ∷ t) (take_long n xs ys (omega arith))

drop_long : (n : ℕ) (xs ys : Bytes) → n ≤ length xs → drop n (xs ++ ys) ≡ drop n xs ++ ys
drop_long zero xs ys h = refl
drop_long (suc n) [] ys h = absurd (omega arith)
drop_long (suc n) (x ∷ xs) ys h = drop_long n xs ys (omega arith)

element-append :
    (size n j : ℕ) (xs ys : Bytes)
    → j < n
    → n * size ≤ length xs
    → element size j (xs ++ ys) ≡ element size j xs
element-append size zero j xs ys lt h = absurd (omega arith)
element-append size (suc n) zero xs ys lt h =
    let h' : size + n * size ≤ length xs = omega (arith, h) in take_long size xs ys (omega arith)
element-append size (suc n) (suc j) xs ys lt h =
    let h' : size + n * size ≤ length xs = omega (arith, h) in
    ap (element size j) (drop_long size xs ys (omega arith))
    ∙ element-append size n j (drop size xs) ys (omega arith) (omega (arith, length-drop size xs))

behind-append : (size n : ℕ) (xs ys : Bytes) → length xs ≡ n * size → behind size n (xs ++ ys) ≡ ys
behind-append size zero [] ys e = refl
behind-append size zero (x ∷ xs) ys e = absurd (omega arith)
behind-append size (suc n) xs ys e =
    let e' : length xs ≡ size + n * size = omega (arith, e) in
    ap (behind size n) (drop_long size xs ys (omega arith))
    ∙ behind-append size n (drop size xs) ys (omega (arith, length-drop size xs))

take-drop : (n : ℕ) (xs : Bytes) → take n xs ++ drop n xs ≡ xs
take-drop zero xs = refl
take-drop (suc n) [] = refl
take-drop (suc n) (x ∷ xs) = ap (λ t. x ∷ t) (take-drop n xs)

-- The elements of the first c bytes, and what follows them.
pub element-take :
    (size n j c : ℕ) (xs ys : Bytes)
    → j < n
    → n * size ≡ c
    → c ≤ length xs
    → element size j (take c xs ++ ys) ≡ element size j xs
element-take size n j c xs ys lt e h =
    let len = length-take c xs h in
    element-append size n j (take c xs) ys lt (omega arith)
    ∙ sym (element-append size n j (take c xs) (drop c xs) lt (omega arith))
    ∙ ap (element size j) (take-drop c xs)

pub behind-take :
    (size n c : ℕ) (xs ys : Bytes)
    → n * size ≡ c
    → c ≤ length xs
    → behind size n (take c xs ++ ys) ≡ ys
behind-take size n c xs ys e h = behind-append size n (take c xs) ys (length-take c xs h ∙ sym e)

pub behind-drop :
    (size n c : ℕ) (xs : Bytes) → n * size ≡ c → c ≤ length xs → behind size n xs ≡ drop c xs
behind-drop size n c xs e h =
    ap (behind size n) (sym (take-drop c xs)) ∙ behind-take size n c xs (drop c xs) e h

-- What the loop leaves, where the operation is defined on every pair of elements.
pub record Merged (f : Bytes → Bytes → Option Bytes) (size n : ℕ) (buf msg out : Bytes)
    : Type 0 where
  pub merged :
      (j : ℕ) → j < n → f (element size j buf) (element size j msg) ≡ some (element size j out)
  pub rest : behind size n out ≡ behind size n buf
  pub length_kept : length out ≡ length buf

pub elem_wise-Merged :
    (f : Bytes → Bytes → Option Bytes) (size n : ℕ) (buf msg : Bytes)
    → IsSized f size
    → n * size ≤ length buf
    → n * size ≤ length msg
    → ((j : ℕ) → j < n → (x : Bytes) × (f (element size j buf) (element size j msg) ≡ some x))
    → (out : Bytes) × (elem_wise f size n buf msg ≡ some out) × Merged f size n buf msg out
unfolding elem_wise
elem_wise-Merged f size zero buf msg sized h k runs =
    (buf, refl, record { merged = λ j lt. absurd (omega arith); rest = refl; length_kept = refl })
elem_wise-Merged f size (suc n) buf msg sized h k runs =
    let h' : size + n * size ≤ length buf = omega (arith, h) in
    let k' : size + n * size ≤ length msg = omega (arith, k) in
    let (x, first) = runs 0 (omega arith) in
    let len : length x ≡ size =
      sized (take size buf) (take size msg) x (length-take size buf (omega arith))
        (length-take size msg (omega arith)) first in
    let (out, ran, m) =
      elem_wise-Merged f size n (drop size buf) (drop size msg) sized
        (omega (arith, length-drop size buf)) (omega (arith, length-drop size msg))
        (λ j lt. runs (suc j) (omega arith)) in
    let front : take size (x ++ out) ≡ x = take_exact size x out len in
    let back : drop size (x ++ out) ≡ out = drop_exact size x out len in
    (
      x ++ out,
      rw (first, ran) refl,
      record {
        merged = each x out first front back m;
        rest = ap (behind size n) back ∙ m.rest;
        length_kept = omega (arith, length-append x out, m.length_kept, len, length-drop size buf);
      },
    )
  where
    each :
        (x out : Bytes)
        → f (take size buf) (take size msg) ≡ some x
        → take size (x ++ out) ≡ x
        → drop size (x ++ out) ≡ out
        → Merged f size n (drop size buf) (drop size msg) out
        → (j : ℕ) → j < suc n
        → f (element size j buf) (element size j msg) ≡ some (element size j (x ++ out))
    each x out first front back m zero lt = first ∙ ap some (sym front)
    each x out first front back m (suc j) lt =
        m.merged j (omega arith) ∙ ap (λ t. some (element size j t)) (sym back)
