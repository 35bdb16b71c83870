-- ===== src/Hostmap/Order.antt =====
-- The order of strings and of ports in include/utils/rank_alg.hpp's maps and sets.
use ffrdma.Common.{
  ℕ, ◌<◌, ◌≡◌, refl, ◌∙◌, true, false, List, [], ◌∷◌, ◌⊎◌, inl, inr, ltb, ◌==◌, arith, Bool-cases,
  ==→eq, ==-refl, ==-false→ne, lt→ltb, ltb_ℤ, eqb_ℤ, eqb_ℤ→eq, ℤ,
}
use ffrdma.Hostmap.{Str, eqb_str, ltb_str, insert_port, port_set}

pub eqb_str→eq : (s t : Str) → eqb_str s t ≡ true → s ≡ t
unfolding eqb_str
eqb_str→eq [] [] e = refl
eqb_str→eq [] (d ∷ ds) e = absurd cc
eqb_str→eq (c ∷ cs) [] e = absurd cc
eqb_str→eq (c ∷ cs) (d ∷ ds) e = elim (Bool-cases (c == d)) [
  | inl same ↦
      let rest : eqb_str cs ds ≡ true = rw same at e in
      let tail = eqb_str→eq cs ds rest in let head = ==→eq c d same in cc
  | inr other ↦ let bad : false ≡ true = rw other at e in absurd cc
]

-- The first characters decide, or the rest does.
ltb_str-cases :
    (c d : ℕ) (cs ds : Str)
    → ltb_str (c ∷ cs) (d ∷ ds) ≡ true
    → (c < d) ⊎ ((c ≡ d) × (ltb_str cs ds ≡ true))
unfolding ltb_str
ltb_str-cases c d cs ds e = elim (Bool-cases (ltb c d)) [
  | inl less ↦ inl (ground arith)
  | inr not_less ↦ elim (Bool-cases (c == d)) [
    | inl same ↦ inr (==→eq c d same, rw (not_less, same) at e)
    | inr other ↦ let bad : false ≡ true = rw (not_less, other) at e in absurd cc
  ]
]

ltb_str_first : (c d : ℕ) (cs ds : Str) → c < d → ltb_str (c ∷ cs) (d ∷ ds) ≡ true
unfolding ltb_str
ltb_str_first c d cs ds lt = rw (lt→ltb c d lt) refl

ltb_str_next : (c : ℕ) (cs ds : Str) → ltb_str cs ds ≡ true → ltb_str (c ∷ cs) (c ∷ ds) ≡ true
unfolding ltb_str
ltb_str_next c cs ds lt = let stay : ltb c c ≡ false = ground arith in rw (stay, ==-refl c, lt) refl

pub ltb_str_trans : (s t u : Str) → ltb_str s t ≡ true → ltb_str t u ≡ true → ltb_str s u ≡ true
unfolding ltb_str
ltb_str_trans s [] u h k = absurd cc
ltb_str_trans s (d ∷ ds) [] h k = absurd cc
ltb_str_trans [] (d ∷ ds) (e ∷ es) h k = refl
ltb_str_trans (c ∷ cs) (d ∷ ds) (e ∷ es) h k = elim (ltb_str-cases c d cs ds h) [
  | inl lt ↦ elim (ltb_str-cases d e ds es k) [
    | inl lt' ↦ ltb_str_first c e cs es (omega arith)
    | inr (same', rest') ↦ ltb_str_first c e cs es (omega arith)
  ]
  | inr (same, rest) ↦ elim (ltb_str-cases d e ds es k) [
    | inl lt' ↦ ltb_str_first c e cs es (omega arith)
    | inr (same', rest') ↦
        let all : c ≡ e = same ∙ same' in
        rw (← all) (ltb_str_next c cs es (ltb_str_trans cs ds es rest rest'))
  ]
]

pub ltb_str_irrefl : (s : Str) → ¬ (ltb_str s s ≡ true)
unfolding ltb_str
ltb_str_irrefl [] h = absurd cc
ltb_str_irrefl (c ∷ cs) h = elim (ltb_str-cases c c cs cs h) [
  | inl lt ↦ absurd (omega arith)
  | inr (same, rest) ↦ ltb_str_irrefl cs rest
]

-- Neither less nor equal is greater.
pub ltb_str_other : (s t : Str) → ltb_str s t ≡ false → eqb_str s t ≡ false → ltb_str t s ≡ true
unfolding ltb_str eqb_str
ltb_str_other [] [] h k = absurd cc
ltb_str_other (c ∷ cs) [] h k = refl
ltb_str_other [] (d ∷ ds) h k = absurd cc
ltb_str_other (c ∷ cs) (d ∷ ds) h k = elim (Bool-cases (ltb c d)) [
  | inl less ↦ let bad : true ≡ false = rw less at h in absurd cc
  | inr not_less ↦ elim (Bool-cases (c == d)) [
    | inl same ↦
        let h' : ltb_str cs ds ≡ false = rw (not_less, same) at h in
        let k' : eqb_str cs ds ≡ false = rw same at k in
        let e = ==→eq c d same in rw e (ltb_str_next d ds cs (ltb_str_other cs ds h' k'))
    | inr other ↦ let ne = ==-false→ne c d other in ltb_str_first d c ds cs (ground (arith, ne))
  ]
]

-- A port stands in a list.
abbrev pub HasPort : ℤ → List ℤ → Type 0
HasPort n [] = ⊥
HasPort n (m ∷ ms) = (n ≡ m) ⊎ HasPort n ms

abbrev pub PortsAbove : ℤ → List ℤ → Type 0
PortsAbove n [] = Unit {0}
PortsAbove n (m ∷ ms) = (ltb_ℤ n m ≡ true) × PortsAbove n ms

abbrev pub AscendingPorts : List ℤ → Type 0
AscendingPorts [] = Unit {0}
AscendingPorts (m ∷ ms) = PortsAbove m ms × AscendingPorts ms

-- The set of the ports: the same ones, each once, in ascending order.
pub record IsPortSet (ports set : List ℤ) : Type 0 where
  pub ascending : AscendingPorts set
  pub kept : (n : ℤ) → HasPort n ports → HasPort n set
  pub only : (n : ℤ) → HasPort n set → HasPort n ports

PortsAbove-weaken : (n m : ℤ) (ms : List ℤ) → ltb_ℤ n m ≡ true → PortsAbove m ms → PortsAbove n ms
PortsAbove-weaken n m [] h a = tt
PortsAbove-weaken n m (k ∷ ks) h a =
    let lt = a.0 in (ground (arith, h, lt), PortsAbove-weaken n m ks h a.1)

insert_port-HasPort : (n : ℤ) (ms : List ℤ) → HasPort n (insert_port n ms)
unfolding insert_port
insert_port-HasPort n [] = inl refl
insert_port-HasPort n (m ∷ ms) = elim (Bool-cases (ltb_ℤ n m)) [
  | inl less ↦ rw less (inl refl)
  | inr not_less ↦ elim (Bool-cases (eqb_ℤ n m)) [
    | inl same ↦ rw (not_less, same) (inl (eqb_ℤ→eq n m same))
    | inr other ↦ rw (not_less, other) (inr (insert_port-HasPort n ms))
  ]
]

insert_port_keeps : (n k : ℤ) (ms : List ℤ) → HasPort k ms → HasPort k (insert_port n ms)
unfolding insert_port
insert_port_keeps n k [] h = absurd h
insert_port_keeps n k (m ∷ ms) h = elim (Bool-cases (ltb_ℤ n m)) [
  | inl less ↦ rw less (inr h)
  | inr not_less ↦ elim (Bool-cases (eqb_ℤ n m)) [
    | inl same ↦ rw (not_less, same) h
    | inr other ↦
        rw (not_less, other)
          (elim h [ inl here ↦ inl here | inr there ↦ inr (insert_port_keeps n k ms there) ])
  ]
]

insert_port_only : (n k : ℤ) (ms : List ℤ) → HasPort k (insert_port n ms) → (k ≡ n) ⊎ HasPort k ms
unfolding insert_port
insert_port_only n k [] h = h
insert_port_only n k (m ∷ ms) h = elim (Bool-cases (ltb_ℤ n m)) [
  | inl less ↦ rw less at h
  | inr not_less ↦ elim (Bool-cases (eqb_ℤ n m)) [
    | inl same ↦ inr (rw (not_less, same) at h)
    | inr other ↦
        let h' : (k ≡ m) ⊎ HasPort k (insert_port n ms) = rw (not_less, other) at h in
        elim h' [
          | inl here ↦ inr (inl here)
          | inr there ↦ elim (insert_port_only n k ms there) [
            | inl new ↦ inl new
            | inr old ↦ inr (inr old)
          ]
        ]
  ]
]

insert_port-PortsAbove :
    (n x : ℤ) (ms : List ℤ) → ltb_ℤ x n ≡ true → PortsAbove x ms → PortsAbove x (insert_port n ms)
unfolding insert_port
insert_port-PortsAbove n x [] lt a = (lt, tt)
insert_port-PortsAbove n x (m ∷ ms) lt a = elim (Bool-cases (ltb_ℤ n m)) [
  | inl less ↦ rw less (lt, a)
  | inr not_less ↦ elim (Bool-cases (eqb_ℤ n m)) [
    | inl same ↦ rw (not_less, same) a
    | inr other ↦ rw (not_less, other) (a.0, insert_port-PortsAbove n x ms lt a.1)
  ]
]

insert_port-AscendingPorts :
    (n : ℤ) (ms : List ℤ) → AscendingPorts ms → AscendingPorts (insert_port n ms)
unfolding insert_port
insert_port-AscendingPorts n [] a = (tt, tt)
insert_port-AscendingPorts n (m ∷ ms) a = elim (Bool-cases (ltb_ℤ n m)) [
  | inl less ↦ rw less ((less, PortsAbove-weaken n m ms less a.0), a)
  | inr not_less ↦ elim (Bool-cases (eqb_ℤ n m)) [
    | inl same ↦ rw (not_less, same) a
    | inr other ↦
        let above : ltb_ℤ m n ≡ true = ground (arith, not_less, other) in
        rw (not_less, other)
          (insert_port-PortsAbove n m ms above a.0, insert_port-AscendingPorts n ms a.1)
  ]
]

pub port_set-IsPortSet : (ports : List ℤ) → IsPortSet ports (port_set ports)
unfolding port_set
port_set-IsPortSet [] = record { ascending = tt; kept = λ n h. h; only = λ n h. h }
port_set-IsPortSet (p ∷ ps) =
    let is = port_set-IsPortSet ps in
    record {
      ascending = insert_port-AscendingPorts p (port_set ps) is.ascending;
      kept = λ n h. elim h [
        | inl here ↦ rw here (insert_port-HasPort p (port_set ps))
        | inr there ↦ insert_port_keeps p n (port_set ps) (is.kept n there)
      ];
      only = λ n h. elim (insert_port_only p n (port_set ps) h) [
        | inl here ↦ inl here
        | inr there ↦ inr (is.only n there)
      ];
    }
