-- ===== src/Hostmap/Split.antt =====
-- Spliter takes apart what a delimiter joins.
use ffrdma.Common.{
  ℕ, zero, suc, ◌+◌, ◌-◌, ◌≤◌, ◌≡◌, ◌≢◌, refl, sym, ap, ◌∙◌, true, false, List, [], ◌∷◌, ◌++◌,
  Option, none, some, arith, length, take, drop, length-append, length-drop, le→leb, ne→==, ==-refl,
  append-nil,
}
use ffrdma.Hostmap.{
  Str, starts_with, find, find_from, substr_from, substr, Spliter, get_next, each_token, spliter,
  rounds, if_some,
}

-- The token has no `d` in it.
abbrev pub Lacks : ℕ → Str → Type 0
Lacks d [] = Unit {0}
Lacks d (c ∷ cs) = (d ≢ c) × Lacks d cs

abbrev pub AllLack : ℕ → List Str → Type 0
AllLack d [] = Unit {0}
AllLack d (t ∷ ts) = Lacks d t × AllLack d ts

-- Each further token behind a delimiter.
abbrev pub behind : ℕ → List Str → Str
behind d [] = []
behind d (t ∷ ts) = d ∷ (t ++ behind d ts)

abbrev pub join : ℕ → Str → List Str → Str
join d t ts = t ++ behind d ts

-- The body runs on each token in order.
abbrev pub run_all {ℓ} : {A : Type ℓ} → (Str → A → Option A) → List Str → A → Option A
run_all body [] a = some a
run_all body (t ∷ ts) a = if_some (body t a) λ a'. run_all body ts a'

find_next :
    (d : ℕ) (t r : Str) (i : ℕ) → Lacks d t → find (d ∷ []) (t ++ (d ∷ r)) i ≡ some (i + length t)
unfolding find starts_with
find_next d [] r i l = let e : i ≡ i + 0 = omega arith in rw (==-refl d) (ap some e)
find_next d (c ∷ cs) r i l =
    let e : suc i + length cs ≡ i + suc (length cs) = omega arith in
    rw (ne→== d c l.0) (find_next d cs r (suc i) l.1 ∙ ap some e)

find-none : (d : ℕ) (t : Str) (i : ℕ) → Lacks d t → find (d ∷ []) t i ≡ none
unfolding find starts_with
find-none d [] i l = refl
find-none d (c ∷ cs) i l = rw (ne→== d c l.0) (find-none d cs (suc i) l.1)

take-append : (t r : Str) → take (length t) (t ++ r) ≡ t
take-append [] r = refl
take-append (c ∷ cs) r = ap (λ s. c ∷ s) (take-append cs r)

pub drop_past : (t : Str) (d : ℕ) (r : Str) → drop (suc (length t)) (t ++ (d ∷ r)) ≡ r
drop_past [] d r = refl
drop_past (c ∷ cs) d r = drop_past cs d r

abbrev the_empty : Str
the_empty = []

drop-nil : (n : ℕ) → drop n the_empty ≡ the_empty
drop-nil zero = refl
drop-nil (suc n) = refl

drop-drop : (i n : ℕ) (s : Str) → drop (i + n) s ≡ drop n (drop i s)
drop-drop zero n s = let e : 0 + n ≡ n = omega arith in ap (λ k. drop k s) e
drop-drop (suc i) n [] = drop-nil (suc i + n) ∙ sym (drop-nil n)
drop-drop (suc i) n (c ∷ cs) =
    let e : suc i + n ≡ suc (i + n) = omega arith in ap (λ k. drop k (c ∷ cs)) e ∙ drop-drop i n cs

module _ (text : Str) (d i : ℕ) (le : i ≤ length text) where
  abbrev pub at_start : Spliter
  at_start = record {
    text = text;
    delim = d ∷ [];
    ended = false;
    pos_start = i;
    overflow_warn = false;
  }

  pub next_last :
      (t : Str)
      → drop i text ≡ t
      → Lacks d t
      → get_next at_start ≡ some (t, record at_start { ended = true })
  unfolding get_next find_from substr_from
  next_last t e l =
      rw (le→leb i (length text) le)
        (rw e (rw (find-none d t i l) (rw (le→leb i (length text) le) (rw e refl))))

  pub next_more :
      (t r : Str)
      → drop i text ≡ t ++ (d ∷ r)
      → Lacks d t
      → get_next at_start ≡ some (t, record at_start { pos_start = i + length t + 1 })
  unfolding get_next find_from substr
  next_more t r e l =
      let k : i + length t - i ≡ length t = omega arith in
      rw (le→leb i (length text) le) (
        rw e (
          rw (find_next d t r i l)
            (rw k (rw (le→leb i (length text) le) (rw e (rw (take-append t (d ∷ r)) refl))))))

pub if_some-cong {ℓ} :
    {A : Type ℓ} {f g : A → Option A} (m : Option A)
    → ((a : A) → f a ≡ g a)
    → if_some m f ≡ if_some m g
if_some-cong none h = refl
if_some-cong (some a) h = h a

-- A loop over the tokens of a joined text.
walk {ℓ} :
    {A : Type ℓ} (body : Str → A → Option A) (text : Str) (d : ℕ) (ts : List Str) (fuel i : ℕ)
    (t : Str) (a : A)
    → i ≤ length text
    → drop i text ≡ join d t ts
    → Lacks d t
    → AllLack d ts
    → length ts + 2 ≤ fuel
    → each_token fuel body
        (record {
          text = text;
          delim = d ∷ [];
          ended = false;
          pos_start = i;
          overflow_warn = false;
        })
        a
      ≡ run_all body (t ∷ ts) a
unfolding each_token
walk body text d ts zero i t a le e l ls enough = absurd (omega arith)
walk body text d ts (suc zero) i t a le e l ls enough = absurd (omega arith)
walk body text d [] (suc (suc fuel)) i t a le e l ls enough =
    rw (next_last text d i le t (e ∙ append-nil t) l) refl
walk body text d (u ∷ us) (suc (suc fuel)) i t a le e l ls enough =
    let r = join d u us in
    let n = i + length t + 1 in
    let size : length text - i ≡ length t + suc (length r) =
      sym (length-drop i text) ∙ (ap length e ∙ length-append t (d ∷ r)) in
    let after : drop n text ≡ r =
      let k : n ≡ i + suc (length t) = omega arith in
      ap (λ m. drop m text) k
      ∙ (drop-drop i (suc (length t)) text ∙ (ap (drop (suc (length t))) e ∙ drop_past t d r)) in
    rw (next_more text d i le t r e l) (
      if_some-cong (body t a) (λ a'.
        walk body text d us (suc fuel) n u a' (omega (arith, size)) after ls.0 ls.1 (omega arith)))

length-behind : (d : ℕ) (ts : List Str) → length ts ≤ length (behind d ts)
length-behind d [] = omega arith
length-behind d (t ∷ ts) = omega (arith, length-behind d ts, length-append t (behind d ts))

-- A loop over the tokens of texts joined by a character that none of them has runs its body on each
-- of the texts, in order, and ends.
pub each_token-join {ℓ} :
    {A : Type ℓ} (body : Str → A → Option A) (d : ℕ) (t : Str) (ts : List Str) (a : A)
    → Lacks d t
    → AllLack d ts
    → each_token (rounds (join d t ts)) body (spliter (join d t ts) (d ∷ [])) a
      ≡ run_all body (t ∷ ts) a
unfolding spliter
each_token-join body d t ts a l ls =
    walk body (join d t ts) d ts (rounds (join d t ts)) 0 t a (omega arith) refl l ls
      (omega (arith, length-behind d ts, length-append t (behind d ts)))
