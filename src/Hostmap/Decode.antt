-- ===== src/Hostmap/Decode.antt =====
-- Decoder::decode on a text in the format of the host map.
use ffrdma.Common.{
  drop, suc, ℕ, ◌≡◌, refl, sym, ap, ◌∙◌, ◌≢◌, List, [], ◌∷◌, ◌++◌, Option, some, ℤ, map,
  append_assoc, append-nil, arith, length, ◌+◌, length-append,
}
use ffrdma.Hostmap.{
  Str, HostPortsMap, decode, decode_port_list, decode_addr_pair, host_round, port_round, port_set,
  insert_host, comma, colon, plus, spliter,
}
use ffrdma.Common.{subst}
use ffrdma.Hostmap.Insert.{Entry, insert_all, IsDecoded, insert_all-IsDecoded}
use ffrdma.Hostmap.Split.{
  Lacks, AllLack, join, behind, run_all, each_token-join, next_last, next_more, drop_past,
  if_some-cong,
}

-- host:port+port+...
abbrev pub entry_text : Entry → Str
entry_text e = e.host ++ (colon ∷ join plus e.first e.more)

Lacks-append : (d : ℕ) (s t : Str) → Lacks d s → Lacks d t → Lacks d (s ++ t)
Lacks-append d [] t l m = m
Lacks-append d (c ∷ cs) t l m = (l.0, Lacks-append d cs t l.1 m)

Lacks-behind : (d e : ℕ) (ts : List Str) → d ≢ e → AllLack d ts → Lacks d (behind e ts)
Lacks-behind d e [] ne l = tt
Lacks-behind d e (t ∷ ts) ne l =
    (ne, Lacks-append d t (behind e ts) l.0 (Lacks-behind d e ts ne l.1))

module _ (stoi : Str → Option ℤ) where
  -- stoi reads each text as the number beside it.
  abbrev pub Reads : List Str → List ℤ → Type 0
  Reads [] [] = Unit {0}
  Reads [] (n ∷ ns) = ⊥
  Reads (s ∷ ss) [] = ⊥
  Reads (s ∷ ss) (n ∷ ns) = (stoi s ≡ some n) × Reads ss ns

  -- No separator stands inside a host or a port, and the ports are read as numbers.
  pub record IsEntry (e : Entry) : Type 0 where
    pub host_comma : Lacks comma e.host
    pub host_colon : Lacks colon e.host
    pub ports_comma : AllLack comma (e.first ∷ e.more)
    pub ports_colon : AllLack colon (e.first ∷ e.more)
    pub ports_plus : AllLack plus (e.first ∷ e.more)
    pub reads : Reads (e.first ∷ e.more) e.ports

  abbrev pub AllEntries : List Entry → Type 0
  AllEntries [] = Unit {0}
  AllEntries (e ∷ es) = IsEntry e × AllEntries es

  read_all :
      (ss : List Str) (ns acc : List ℤ)
      → Reads ss ns
      → run_all (port_round stoi) ss acc ≡ some (acc ++ ns)
  read_all [] [] acc r = ap some (sym (append-nil acc))
  read_all [] (n ∷ ns) acc r = absurd r
  read_all (s ∷ ss) [] acc r = absurd r
  read_all (s ∷ ss) (n ∷ ns) acc r =
      rw r.0 (read_all ss ns (acc ++ (n ∷ [])) r.1 ∙ ap some (append_assoc acc (n ∷ []) ns))

  ports_decoded :
      (e : Entry) → IsEntry e → decode_port_list stoi (join plus e.first e.more) ≡ some e.ports
  unfolding decode_port_list
  ports_decoded e is =
      each_token-join (port_round stoi) plus e.first e.more [] is.ports_plus.0 is.ports_plus.1
      ∙ read_all (e.first ∷ e.more) e.ports [] is.reads

  pair_decoded :
      (e : Entry)
      → IsEntry e
      → decode_addr_pair (entry_text e) ≡ some (e.host, join plus e.first e.more)
  unfolding decode_addr_pair spliter
  pair_decoded e is =
      let text = entry_text e in
      let ports = join plus e.first e.more in
      let n = 0 + length e.host + 1 in
      let lacks : Lacks colon ports =
        Lacks-append colon e.first (behind plus e.more) is.ports_colon.0
          (Lacks-behind colon plus e.more (λ q. omega arith) is.ports_colon.1) in
      let k : n ≡ suc (length e.host) = omega arith in
      rw (next_more text colon 0 (omega arith) e.host ports refl is.host_colon) (
        rw
          (next_last text colon n (omega (arith, length-append e.host (colon ∷ ports))) ports
            (ap (λ m. drop m text) k ∙ drop_past e.host colon ports) lacks)
          refl)

  text_comma : (e : Entry) → IsEntry e → Lacks comma (entry_text e)
  text_comma e is = Lacks-append comma e.host (colon ∷ join plus e.first e.more) is.host_comma (
    (λ q. omega arith),
    Lacks-append comma e.first (behind plus e.more) is.ports_comma.0
        (Lacks-behind comma plus e.more (λ q. omega arith) is.ports_comma.1),
  )

  texts_comma : (es : List Entry) → AllEntries es → AllLack comma (map entry_text es)
  texts_comma [] is = tt
  texts_comma (e ∷ es) is = (text_comma e is.0, texts_comma es is.1)

  inserted :
      (es : List Entry) (m : HostPortsMap)
      → AllEntries es
      → run_all (host_round stoi) (map entry_text es) m ≡ insert_all es m
  inserted [] m is = refl
  inserted (e ∷ es) m is = rw (pair_decoded e is.0) (
      rw (ports_decoded e is.0)
        (if_some-cong (insert_host e.host (port_set e.ports) m) (λ m'. inserted es m' is.1)))

  -- decode of a text in the format host:port+port,host:port and so on ends. If two entries have the
  -- same host it throws; if not, it gives a map whose hosts are exactly those of the entries, in
  -- ascending order, each with the set of its ports: the same ones, each once, in ascending order.
  pub decode_inserts :
      (e : Entry) (es : List Entry)
      → IsEntry e
      → AllEntries es
      → IsDecoded (e ∷ es) (decode stoi (join comma (entry_text e) (map entry_text es)))
  unfolding decode
  decode_inserts e es is all =
      let eq : decode stoi (join comma (entry_text e) (map entry_text es))
          ≡ insert_all (e ∷ es) [] =
        each_token-join (host_round stoi) comma (entry_text e) (map entry_text es) []
          (text_comma e is) (texts_comma es all)
        ∙ inserted (e ∷ es) [] (is, all) in
      subst (IsDecoded (e ∷ es)) (sym eq) (insert_all-IsDecoded (e ∷ es))
