-- ===== src/Hostmap/Ranks.antt =====
-- RankAlg numbers the processes by their place, and finds the own number again.
use ffrdma.Common.{
  eqb_ℤ→eq, ℕ, zero, suc, ◌+◌, ◌≡◌, refl, sym, ap, ◌∙◌, Bool, true, false, ◌&&◌, Bool-cases, inl,
  inr, List, [], ◌∷◌, ◌++◌, some, ℤ, eqb_ℤ, eqb_ℤ_refl, ==-refl, length, get_elem?, arith, subst,
}
use ffrdma.Hostmap.Order.{eqb_str→eq}
use ffrdma.Hostmap.{
  Str, eqb_str, HostPortsMap, ProcessInfo, host_ranks, cal_rank_from, cal_rank, get_rank,
}

eqb_str_refl : (s : Str) → eqb_str s s ≡ true
unfolding eqb_str
eqb_str_refl [] = refl
eqb_str_refl (c ∷ cs) = rw (==-refl c) (eqb_str_refl cs)

-- The ranks count up from n.
abbrev Numbered : ℕ → List ProcessInfo → Type 0
Numbered n [] = Unit {0}
Numbered n (pi ∷ arr) = (pi.rank ≡ n) × Numbered (suc n) arr

Numbered-append :
    (n : ℕ) (xs ys : List ProcessInfo)
    → Numbered n xs
    → Numbered (n + length xs) ys
    → Numbered n (xs ++ ys)
Numbered-append n [] ys a b = let e : n + 0 ≡ n = omega arith in subst (λ k. Numbered k ys) e b
Numbered-append n (x ∷ xs) ys a b =
    let e : n + suc (length xs) ≡ suc n + length xs = omega arith in
    (a.0, Numbered-append (suc n) xs ys a.1 (subst (λ k. Numbered k ys) e b))

length-host_ranks :
    (n : ℕ) (ip : Str) (ports : List ℤ) → length (host_ranks n ip ports) ≡ length ports
unfolding host_ranks
length-host_ranks n ip [] = refl
length-host_ranks n ip (p ∷ ps) = ap suc (length-host_ranks (suc n) ip ps)

host_ranks-Numbered : (n : ℕ) (ip : Str) (ports : List ℤ) → Numbered n (host_ranks n ip ports)
unfolding host_ranks
host_ranks-Numbered n ip [] = tt
host_ranks-Numbered n ip (p ∷ ps) = (refl, host_ranks-Numbered (suc n) ip ps)

cal_rank_from-Numbered : (n : ℕ) (m : HostPortsMap) → Numbered n (cal_rank_from n m)
unfolding cal_rank_from
cal_rank_from-Numbered n [] = tt
cal_rank_from-Numbered n ((ip, ports) ∷ m) =
    Numbered-append n (host_ranks n ip ports) (cal_rank_from (n + length ports) m)
      (host_ranks-Numbered n ip ports)
      (subst (λ k. Numbered (n + k) (cal_rank_from (n + length ports) m))
        (sym (length-host_ranks n ip ports)) (cal_rank_from-Numbered (n + length ports) m))

Numbered-at :
    (n i : ℕ) (arr : List ProcessInfo) (pi : ProcessInfo)
    → Numbered n arr
    → get_elem? arr i ≡ some pi
    → pi.rank ≡ n + i
Numbered-at n i [] pi num at = absurd (ground (arith, at))
Numbered-at n zero (x ∷ xs) pi num at =
    let same : x ≡ pi = cc in
    let e : n ≡ n + 0 = omega arith in sym (ap (λ q. q.rank) same) ∙ (num.0 ∙ e)
Numbered-at n (suc i) (x ∷ xs) pi num at =
    let e : suc n + i ≡ n + suc i = omega arith in Numbered-at (suc n) i xs pi num.1 at ∙ e

-- What get_rank finds: the entry at place k, which has the same address.
abbrev Found : ℕ → List ProcessInfo → ProcessInfo → Type 0
Found n arr pi =
    (k : ℕ) × (qi : ProcessInfo) × (get_rank arr pi.ip pi.port ≡ some (n + k))
    × (get_elem? arr k ≡ some qi)
    × (qi.ip ≡ pi.ip)
    × (qi.port ≡ pi.port)

matches : ProcessInfo → ProcessInfo → Bool
matches x pi = eqb_str x.ip pi.ip && eqb_ℤ x.port pi.port

matches_self : (pi : ProcessInfo) → matches pi pi ≡ true
unfolding matches
matches_self pi = rw (eqb_str_refl pi.ip) (eqb_ℤ_refl pi.port)

matches→eq : (x pi : ProcessInfo) → matches x pi ≡ true → (x.ip ≡ pi.ip) × (x.port ≡ pi.port)
unfolding matches
matches→eq x pi e = elim (Bool-cases (eqb_str x.ip pi.ip)) [
  | inl same ↦
      let ports : eqb_ℤ x.port pi.port ≡ true = rw same at e in
      (eqb_str→eq x.ip pi.ip same, eqb_ℤ→eq x.port pi.port ports)
  | inr other ↦ let no : false ≡ true = rw other at e in absurd (ground (arith, no))
]

first_hit :
    (n : ℕ) (x : ProcessInfo) (xs : List ProcessInfo) (pi : ProcessInfo)
    → Numbered n (x ∷ xs)
    → matches x pi ≡ true
    → Found n (x ∷ xs) pi
unfolding get_rank matches
first_hit n x xs pi num hit =
    let (ips, ports) = matches→eq x pi hit in
    let z : n ≡ n + 0 = omega arith in (0, x, rw hit (ap some (num.0 ∙ z)), refl, ips, ports)

search :
    (n i : ℕ) (arr : List ProcessInfo) (pi : ProcessInfo)
    → Numbered n arr
    → get_elem? arr i ≡ some pi
    → Found n arr pi
unfolding get_rank matches
search n i [] pi num at = absurd (ground (arith, at))
search n zero (x ∷ xs) pi num at =
    let same : x ≡ pi = cc in
    let hit : matches x pi ≡ true = ap (λ q. matches q pi) same ∙ matches_self pi in
    first_hit n x xs pi num hit
search n (suc i) (x ∷ xs) pi num at = elim (Bool-cases (matches x pi)) [
  | inl hit ↦ first_hit n x xs pi num hit
  | inr miss ↦
      let (k, qi, found, place, ips, ports) = search (suc n) i xs pi num.1 at in
      let e : suc n + k ≡ n + suc k = omega arith in
      (suc k, qi, rw miss (found ∙ ap some e), place, ips, ports)
]

-- For the process at place i of calRank's array: its rank is i; and getRank of its address and port
-- does not throw, and gives the rank of an entry of the array with the same address and port.
pub get_rank-cal_rank :
    (m : HostPortsMap) (i : ℕ) (pi : ProcessInfo)
    → get_elem? (cal_rank m) i ≡ some pi
    → (pi.rank ≡ i)
      × (r : ℕ) × (qi : ProcessInfo) × (get_rank (cal_rank m) pi.ip pi.port ≡ some r)
      × (get_elem? (cal_rank m) r ≡ some qi)
      × (qi.ip ≡ pi.ip)
      × (qi.port ≡ pi.port)
unfolding cal_rank
get_rank-cal_rank m i pi at =
    let num = cal_rank_from-Numbered 0 m in
    let (k, qi, found, place, ips, ports) = search 0 i (cal_rank_from 0 m) pi num at in
    let z : 0 + i ≡ i = omega arith in
    let y : 0 + k ≡ k = omega arith in
    (Numbered-at 0 i (cal_rank_from 0 m) pi num at ∙ z, k, qi, found ∙ ap some y, place, ips, ports)
