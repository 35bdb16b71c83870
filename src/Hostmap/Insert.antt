-- ===== src/Hostmap/Insert.antt =====
-- hostmap.insert of include/utils/decoder.hpp, one entry after another: the map that it builds.
use ffrdma.Common.{
  subst, ◌≡◌, refl, sym, ap, ◌∙◌, true, List, [], ◌∷◌, ◌⊎◌, inl, inr, Bool-cases, Option, none,
  some, ℤ,
}
use ffrdma.Hostmap.{Str, HostPortsMap, eqb_str, ltb_str, insert_host, port_set, if_some}
use ffrdma.Hostmap.Order.{
  eqb_str→eq, ltb_str_trans, ltb_str_irrefl, ltb_str_other, IsPortSet, port_set-IsPortSet,
}

-- A host with its ports, as texts and as the numbers that they stand for.
pub record Entry : Type 0 where
  pub host : Str
  pub first : Str
  pub more : List Str
  pub ports : List ℤ

-- The host stands in the map, and with these ports; the host is one of the entries'.
abbrev pub HasHost : Str → HostPortsMap → Type 0
HasHost host [] = ⊥
HasHost host ((h, ps) ∷ m) = (host ≡ h) ⊎ HasHost host m

abbrev pub Has : Str → List ℤ → HostPortsMap → Type 0
Has host ports [] = ⊥
Has host ports ((h, ps) ∷ m) = ((host ≡ h) × (ports ≡ ps)) ⊎ Has host ports m

abbrev pub HostIn : Str → List Entry → Type 0
HostIn host [] = ⊥
HostIn host (e ∷ es) = (host ≡ e.host) ⊎ HostIn host es

-- Each host with the set of its ports.
abbrev pub AllListed : List Entry → HostPortsMap → Type 0
AllListed [] m = Unit {0}
AllListed (e ∷ es) m = ((ps : List ℤ) × Has e.host ps m × IsPortSet e.ports ps) × AllListed es m

-- The hosts ascend, so each stands once.
abbrev pub HostsAbove : Str → HostPortsMap → Type 0
HostsAbove host [] = Unit {0}
HostsAbove host ((h, ps) ∷ m) = (ltb_str host h ≡ true) × HostsAbove host m

abbrev pub AscendingHosts : HostPortsMap → Type 0
AscendingHosts [] = Unit {0}
AscendingHosts ((h, ps) ∷ m) = HostsAbove h m × AscendingHosts m

HostsAbove-weaken :
    (x h : Str) (m : HostPortsMap) → ltb_str x h ≡ true → HostsAbove h m → HostsAbove x m
HostsAbove-weaken x h [] lt a = tt
HostsAbove-weaken x h ((k, ps) ∷ m) lt a =
    (ltb_str_trans x h k lt a.0, HostsAbove-weaken x h m lt a.1)

HostsAbove-fresh : (x : Str) (m : HostPortsMap) → HostsAbove x m → ¬ HasHost x m
HostsAbove-fresh x [] a h = h
HostsAbove-fresh x ((k, ps) ∷ m) a (inl same) = ltb_str_irrefl x (ap (ltb_str x) same ∙ a.0)
HostsAbove-fresh x ((k, ps) ∷ m) a (inr there) = HostsAbove-fresh x m a.1 there

-- What a successful insertion does.
record Inserted (host : Str) (ports : List ℤ) (m m' : HostPortsMap) : Type 0 where
  pub ascending : AscendingHosts m'
  pub fresh : ¬ HasHost host m
  pub here : Has host ports m'
  pub kept : (h : Str) (ps : List ℤ) → Has h ps m → Has h ps m'
  pub only : (h : Str) → HasHost h m' → (h ≡ host) ⊎ HasHost h m
  pub above : (x : Str) → ltb_str x host ≡ true → HostsAbove x m → HostsAbove x m'

abbrev Outcome : Str → List ℤ → HostPortsMap → Option HostPortsMap → Type 0
Outcome host ports m none = HasHost host m
Outcome host ports m (some m') = Inserted host ports m m'

Outcome-cons :
    (host h : Str) (ports ps : List ℤ) (m : HostPortsMap) (r : Option HostPortsMap)
    → ltb_str h host ≡ true
    → HostsAbove h m
    → Outcome host ports m r
    → Outcome host ports ((h, ps) ∷ m) (if_some r λ m'. some ((h, ps) ∷ m'))
Outcome-cons host h ports ps m none lt a out = inr out
Outcome-cons host h ports ps m (some m') lt a out = record {
  ascending = (out.above h lt a, out.ascending);
  fresh = λ has. elim has [
    | inl same ↦ ltb_str_irrefl h (ap (ltb_str h) (sym same) ∙ lt)
    | inr there ↦ out.fresh there
  ];
  here = inr out.here;
  kept = λ k qs has. elim has [ inl this ↦ inl this | inr there ↦ inr (out.kept k qs there) ];
  only = λ k has. elim has [
    | inl this ↦ inr (inl this)
    | inr there ↦ elim (out.only k there) [ inl new ↦ inl new | inr old ↦ inr (inr old) ]
  ];
  above = λ x below over. (over.0, out.above x below over.1);
}

insert_host-Outcome :
    (host : Str) (ports : List ℤ) (m : HostPortsMap)
    → AscendingHosts m
    → Outcome host ports m (insert_host host ports m)
unfolding insert_host
insert_host-Outcome host ports [] a = record {
  ascending = (tt, tt);
  fresh = λ h. h;
  here = inl (refl, refl);
  kept = λ k qs h. absurd h;
  only = λ k h. h;
  above = λ x below over. (below, tt);
}
insert_host-Outcome host ports ((h, ps) ∷ m) a = elim (Bool-cases (ltb_str host h)) [
  | inl less ↦ rw less (record {
    ascending = ((less, HostsAbove-weaken host h m less a.0), a);
    fresh = HostsAbove-fresh host ((h, ps) ∷ m) (less, HostsAbove-weaken host h m less a.0);
    here = inl (refl, refl);
    kept = λ k qs has. inr has;
    only = λ k has. has;
    above = λ x below over. (below, over);
  })
  | inr not_less ↦ elim (Bool-cases (eqb_str host h)) [
    | inl same ↦ rw (not_less, same) (inl (eqb_str→eq host h same))
    | inr other ↦
        let above : ltb_str h host ≡ true = ltb_str_other host h not_less other in
        rw (not_less, other)
          (Outcome-cons host h ports ps m (insert_host host ports m) above a.0
            (insert_host-Outcome host ports m a.1))
  ]
]

-- Each entry is inserted in order, and a host that is there already stops it.
abbrev pub insert_all : List Entry → HostPortsMap → Option HostPortsMap
insert_all [] m = some m
insert_all (e ∷ es) m = if_some (insert_host e.host (port_set e.ports) m) λ m'. insert_all es m'

-- No two entries have the same host, and some two have.
abbrev pub AllApart : List Entry → Type 0
AllApart [] = Unit {0}
AllApart (e ∷ es) = (¬ HostIn e.host es) × AllApart es

abbrev pub Repeats : List Entry → Type 0
Repeats [] = ⊥
Repeats (e ∷ es) = HostIn e.host es ⊎ Repeats es

-- The map of the entries.
pub record IsHostmap (es : List Entry) (m : HostPortsMap) : Type 0 where
  pub apart : AllApart es
  pub ascending : AscendingHosts m
  pub listed : AllListed es m
  pub only : (h : Str) → HasHost h m → HostIn h es

-- A map if no host is repeated, and nothing if one is.
abbrev pub IsDecoded : List Entry → Option HostPortsMap → Type 0
IsDecoded es none = Repeats es
IsDecoded es (some m) = IsHostmap es m

-- The same from a map that has some hosts already.
record Added (es : List Entry) (m m' : HostPortsMap) : Type 0 where
  pub apart : AllApart es
  pub ascending : AscendingHosts m'
  pub new : (h : Str) → HostIn h es → ¬ HasHost h m
  pub listed : AllListed es m'
  pub kept : (h : Str) (ps : List ℤ) → Has h ps m → Has h ps m'
  pub only : (h : Str) → HasHost h m' → HostIn h es ⊎ HasHost h m

abbrev Result : List Entry → HostPortsMap → Option HostPortsMap → Type 0
Result es m none = Repeats es ⊎ ((h : Str) × HostIn h es × HasHost h m)
Result es m (some m') = Added es m m'

Has-HasHost : (h : Str) (ps : List ℤ) (m : HostPortsMap) → Has h ps m → HasHost h m
Has-HasHost h ps [] has = absurd has
Has-HasHost h ps ((k, qs) ∷ m) (inl (same, eq)) = inl same
Has-HasHost h ps ((k, qs) ∷ m) (inr there) = inr (Has-HasHost h ps m there)

HasHost-Has : (h : Str) (m : HostPortsMap) → HasHost h m → (ps : List ℤ) × Has h ps m
HasHost-Has h [] has = absurd has
HasHost-Has h ((k, qs) ∷ m) (inl same) = (qs, inl (same, refl))
HasHost-Has h ((k, qs) ∷ m) (inr there) = let (ps, has) = HasHost-Has h m there in (ps, inr has)

Result-cons :
    (e : Entry) (es : List Entry) (m m₁ : HostPortsMap) (r : Option HostPortsMap)
    → Inserted e.host (port_set e.ports) m m₁
    → Result es m₁ r
    → Result (e ∷ es) m r
Result-cons e es m m₁ none ins (inl rep) = inl (inr rep)
Result-cons e es m m₁ none ins (inr (h, among, has)) = elim (ins.only h has) [
  | inl this ↦ inl (inl (subst (λ t. HostIn t es) this among))
  | inr old ↦ inr (h, inr among, old)
]
Result-cons e es m m₁ (some m') ins add = record {
  apart = (
    (λ among. add.new e.host among (Has-HasHost e.host (port_set e.ports) m₁ ins.here)),
    add.apart,
  );
  ascending = add.ascending;
  new = λ h among has. elim among [
    | inl this ↦ ins.fresh (subst (λ t. HasHost t m) this has)
    | inr later ↦
        let (ps, at) = HasHost-Has h m has in
        add.new h later (Has-HasHost h ps m₁ (ins.kept h ps at))
  ];
  listed = (
    (port_set e.ports, add.kept e.host (port_set e.ports) ins.here, port_set-IsPortSet e.ports),
    add.listed,
  );
  kept = λ h ps has. add.kept h ps (ins.kept h ps has);
  only = λ h has. elim (add.only h has) [
    | inl later ↦ inl (inr later)
    | inr before ↦ elim (ins.only h before) [ inl this ↦ inl (inl this) | inr old ↦ inr old ]
  ];
}

insert_all-Result :
    (es : List Entry) (m : HostPortsMap) → AscendingHosts m → Result es m (insert_all es m)
insert_all-Result [] m a = record {
  apart = tt;
  ascending = a;
  new = λ h among. absurd among;
  listed = tt;
  kept = λ h ps has. has;
  only = λ h has. inr has;
}
insert_all-Result (e ∷ es) m a =
    first_one (insert_host e.host (port_set e.ports) m)
      (insert_host-Outcome e.host (port_set e.ports) m a) (insert_all-Result es)
  where
    first_one :
        (r : Option HostPortsMap)
        → Outcome e.host (port_set e.ports) m r
        → ((m₁ : HostPortsMap) → AscendingHosts m₁ → Result es m₁ (insert_all es m₁))
        → Result (e ∷ es) m (if_some r λ m₁. insert_all es m₁)
    first_one none out later = inr (e.host, inl refl, out)
    first_one (some m₁) out later =
        Result-cons e es m m₁ (insert_all es m₁) out (later m₁ out.ascending)

pub insert_all-IsDecoded : (es : List Entry) → IsDecoded es (insert_all es [])
insert_all-IsDecoded es = finished (insert_all es []) (insert_all-Result es [] tt)
  where
    finished : (r : Option HostPortsMap) → Result es [] r → IsDecoded es r
    finished none (inl rep) = rep
    finished none (inr (h, among, has)) = absurd has
    finished (some m) add = record {
      apart = add.apart;
      ascending = add.ascending;
      listed = add.listed;
      only = λ h has. elim (add.only h has) [ inl among ↦ among | inr old ↦ absurd old ];
    }
