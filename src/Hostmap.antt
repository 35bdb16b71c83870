-- ===== src/Hostmap.antt =====
-- The host map: Spliter and Decoder of include/utils/decoder.hpp, and the numbering of the processes
-- of include/utils/rank_alg.hpp. std::stoi is the parameter `stoi`, none where it throws.
pub mod Split
pub mod Order
pub mod Insert
pub mod Decode
pub mod Ranks
mod Examples
use ffrdma.Common.{
  ℕ, zero, suc, ◌+◌, ◌-◌, Bool, true, false, ◌&&◌, ◌||◌, List, [], ◌∷◌, ◌++◌, Option, none, some, ℤ,
  pos, ltb, leb, ltb_ℤ, eqb_ℤ, ◌==◌, if◌then◌else◌, length, take, drop,
}

-- The characters of a std::string, as numbers.
abbrev pub Str : Type 0
Str = List ℕ

unfoldable pub eqb_str : Str → Str → Bool
eqb_str [] [] = true
eqb_str [] (c ∷ cs) = false
eqb_str (c ∷ cs) [] = false
eqb_str (c ∷ cs) (d ∷ ds) = (c == d) && eqb_str cs ds

-- std::less on strings
unfoldable pub ltb_str : Str → Str → Bool
ltb_str s [] = false
ltb_str [] (d ∷ ds) = true
ltb_str (c ∷ cs) (d ∷ ds) = ltb c d || ((c == d) && ltb_str cs ds)

unfoldable pub starts_with : Str → Str → Bool
starts_with [] s = true
starts_with (d ∷ ds) [] = false
starts_with (d ∷ ds) (c ∷ cs) = (d == c) && starts_with ds cs

-- The first place where `delim` stands in a string that begins at position i.
unfoldable pub find : Str → Str → ℕ → Option ℕ
unfolding starts_with
find delim [] i = if starts_with delim [] then some i else none
find delim (c ∷ cs) i =
    let rest = find delim cs (suc i) in if starts_with delim (c ∷ cs) then some i else rest

-- std::string::find from a position on
unfoldable pub find_from : Str → Str → ℕ → Option ℕ
find_from text delim i = if leb i (length text) then find delim (drop i text) i else none

-- std::string::substr from a position on; none is std::out_of_range.
unfoldable pub substr_from : Str → ℕ → Option Str
substr_from text i = if leb i (length text) then some (drop i text) else none

unfoldable pub substr : Str → ℕ → ℕ → Option Str
substr text i n = if leb i (length text) then some (take n (drop i text)) else none

pub record Spliter : Type 0 where
  pub text : Str
  pub delim : Str
  pub ended : Bool
  pub pos_start : ℕ
  pub overflow_warn : Bool

abbrev pub if_some {ℓ κ} : {A : Type ℓ} {B : Type κ} → Option A → (A → Option B) → Option B
if_some none k = none
if_some (some a) k = k a

unfoldable pub spliter : Str → Str → Spliter
spliter text delim = record {
  text = text;
  delim = delim;
  ended = false;
  pos_start = 0;
  overflow_warn = false;
}

abbrev pub next_token : Spliter → Option ℕ → Option (Str × Spliter)
next_token sp (some pos_end) =
    if_some (substr sp.text sp.pos_start (pos_end - sp.pos_start))
      λ token. some (token, record sp { pos_start = pos_end + length sp.delim })
next_token sp none =
    if_some (substr_from sp.text sp.pos_start) λ token. some (token, record sp { ended = true })

-- Spliter::getNext; none is an exception.
unfoldable pub get_next : Spliter → Option (Str × Spliter)
get_next sp =
    if sp.ended
    then (if sp.overflow_warn then none else some ([], sp))
    else next_token sp (find_from sp.text sp.delim sp.pos_start)

-- while (!sp.end()) with a body that takes the next token; fuel bounds the rounds.
unfoldable pub each_token {ℓ} : {A : Type ℓ} → ℕ → (Str → A → Option A) → Spliter → A → Option A
each_token zero body sp a = none
each_token (suc fuel) body sp a =
    if sp.ended
    then some a
    else if_some (get_next sp)
        λ (token, sp'). if_some (body token a) λ a'. each_token fuel body sp' a'

-- A token takes at least its delimiter, so this is enough fuel.
abbrev pub rounds : Str → ℕ
rounds text = suc (suc (length text))

-- std::set<int>: ascending, each once.
unfoldable pub insert_port : ℤ → List ℤ → List ℤ
insert_port n [] = n ∷ []
insert_port n (m ∷ ms) =
    let rest = insert_port n ms in
    if ltb_ℤ n m then n ∷ (m ∷ ms) else (if eqb_ℤ n m then m ∷ ms else m ∷ rest)

unfoldable pub port_set : List ℤ → List ℤ
port_set [] = []
port_set (n ∷ ns) = insert_port n (port_set ns)

-- std::map<std::string, std::set<int>>: ascending in the hosts.
abbrev pub HostPortsMap : Type 0
HostPortsMap = List (Str × List ℤ)

-- hostmap.insert, none where the host is there already.
unfoldable pub insert_host : Str → List ℤ → HostPortsMap → Option HostPortsMap
insert_host host ports [] = some ((host, ports) ∷ [])
insert_host host ports ((h, ps) ∷ m) =
    let rest = insert_host host ports m in
    if ltb_str host h
    then some ((host, ports) ∷ ((h, ps) ∷ m))
    else (if eqb_str host h then none else if_some rest λ m'. some ((h, ps) ∷ m'))

abbrev pub comma : ℕ
comma = 44

abbrev pub colon : ℕ
colon = 58

abbrev pub plus : ℕ
plus = 43

unfoldable pub decode_addr_pair : Str → Option (Str × Str)
decode_addr_pair host_str =
    if_some (get_next (spliter host_str (colon ∷ [])))
      λ (host, sp). if_some (get_next sp) λ (ports_str, sp'). some (host, ports_str)

module _ (stoi : Str → Option ℤ) where
  abbrev pub port_round : Str → List ℤ → Option (List ℤ)
  port_round port_str ports = if_some (stoi port_str) λ port. some (ports ++ (port ∷ []))

  unfoldable pub decode_port_list : Str → Option (List ℤ)
  decode_port_list ports_str =
      each_token (rounds ports_str) port_round (spliter ports_str (plus ∷ [])) []

  abbrev pub host_round : Str → HostPortsMap → Option HostPortsMap
  host_round token hostmap = if_some (decode_addr_pair token) λ (host, ports_str).
      if_some (decode_port_list ports_str) λ ports. insert_host host (port_set ports) hostmap

  unfoldable pub decode : Str → Option HostPortsMap
  decode text = each_token (rounds text) host_round (spliter text (comma ∷ [])) []

pub record ProcessInfo : Type 0 where
  pub rank : ℕ
  pub ip : Str
  pub port : ℤ

-- The inner loop of calRank, for one host.
unfoldable pub host_ranks : ℕ → Str → List ℤ → List ProcessInfo
host_ranks rank ip [] = []
host_ranks rank ip (port ∷ ports) =
    record { rank = rank; ip = ip; port = port } ∷ host_ranks (suc rank) ip ports

unfoldable pub cal_rank_from : ℕ → HostPortsMap → List ProcessInfo
unfolding host_ranks
cal_rank_from rank [] = []
cal_rank_from rank ((ip, ports) ∷ m) =
    host_ranks rank ip ports ++ cal_rank_from (rank + length ports) m

unfoldable pub cal_rank : HostPortsMap → List ProcessInfo
unfolding cal_rank_from
cal_rank m = cal_rank_from 0 m

-- none is std::invalid_argument.
unfoldable pub get_rank : List ProcessInfo → Str → ℤ → Option ℕ
unfolding eqb_str
get_rank [] ip port = none
get_rank (pi ∷ arr) ip port =
    let rest = get_rank arr ip port in
    if eqb_str pi.ip ip && eqb_ℤ pi.port port then some pi.rank else rest
