-- ===== src/Hostmap/Examples.antt =====
-- Decoding a map of two hosts, and the ranks of their processes.
use ffrdma.Common.{ℕ, ◌-◌, ◌≡◌, refl, [], ◌∷◌, Option, some, none, ℤ, pos, arith, get_elem?, map}
use ffrdma.Hostmap.{Str, HostPortsMap, ProcessInfo, decode, comma, cal_rank, get_rank}
use ffrdma.Hostmap.Split.{join}
use ffrdma.Hostmap.Insert.{Entry, IsDecoded}
use ffrdma.Hostmap.Decode.{entry_text, IsEntry, decode_inserts}
use ffrdma.Hostmap.Ranks.{get_rank-cal_rank}

-- stoi on one digit.
stoi : Str → Option ℤ
stoi (c ∷ []) = some (pos (c - 48))
stoi s = none

-- a:2+1 and b:5
abbrev host_a : Entry
host_a = record {
  host = 97 ∷ [];
  first = 50 ∷ [];
  more = (49 ∷ []) ∷ [];
  ports = pos 2 ∷ (pos 1 ∷ []);
}

abbrev host_b : Entry
host_b = record { host = 98 ∷ []; first = 53 ∷ []; more = []; ports = pos 5 ∷ [] }

host_a-IsEntry : IsEntry stoi host_a
unfolding stoi
host_a-IsEntry = record {
  host_comma = ((λ e. omega arith), tt);
  host_colon = ((λ e. omega arith), tt);
  ports_comma = (((λ e. omega arith), tt), (((λ e. omega arith), tt), tt));
  ports_colon = (((λ e. omega arith), tt), (((λ e. omega arith), tt), tt));
  ports_plus = (((λ e. omega arith), tt), (((λ e. omega arith), tt), tt));
  reads = (refl, (refl, tt));
}

host_b-IsEntry : IsEntry stoi host_b
unfolding stoi
host_b-IsEntry = record {
  host_comma = ((λ e. omega arith), tt);
  host_colon = ((λ e. omega arith), tt);
  ports_comma = (((λ e. omega arith), tt), tt);
  ports_colon = (((λ e. omega arith), tt), tt);
  ports_plus = (((λ e. omega arith), tt), tt);
  reads = (refl, tt);
}

decode_inserts_example :
    IsDecoded
      (host_a ∷ (host_b ∷ []))
      (decode stoi (join comma (entry_text host_a) (map entry_text (host_b ∷ []))))
decode_inserts_example =
    decode_inserts stoi host_a (host_b ∷ []) host_a-IsEntry (host_b-IsEntry, tt)

abbrev hosts : HostPortsMap
hosts = (97 ∷ [], pos 1 ∷ (pos 2 ∷ [])) ∷ ((98 ∷ [], pos 5 ∷ []) ∷ [])

abbrev third : ProcessInfo
third = record { rank = 2; ip = 98 ∷ []; port = pos 5 }

get_rank-cal_rank_example :
    (third.rank ≡ 2)
    × (r : ℕ) × (qi : ProcessInfo) × (get_rank (cal_rank hosts) (98 ∷ []) (pos 5) ≡ some r)
    × (get_elem? (cal_rank hosts) r ≡ some qi)
    × (qi.ip ≡ 98 ∷ [])
    × (qi.port ≡ pos 5)
unfolding cal_rank
get_rank-cal_rank_example = get_rank-cal_rank hosts 2 third refl
