-- ===== src/Api/Init.antt =====
-- RDMA_Init of src/fmpi.cc reads back a command line.
use ffrdma.Common.{ℕ, Option, some, List, [], ◌∷◌, ℤ, ◌≡◌, refl}
use ffrdma.Hostmap.{Str, HostPortsMap, decode, cal_rank, get_rank, eqb_str}
use ffrdma.Args.{parsed, at, emplace}
use ffrdma.Args.Parser.{
  dash, token, value_text, arg_parser, add_argument, change, parse_loop, open_option, check_must,
  check_args_valid, arg_at, items, parse_args, get_arg_data,
}
use ffrdma.Api.{r_myip, r_myport, r_hostmap, rdma_parser, parse_rdma_args, rdma_init}

-- --name
abbrev pub long : Str → Str
long name = dash ∷ (dash ∷ name)

-- A text that parse_args takes as a value: it does not begin with a dash.
abbrev pub IsValue : Str → Type 0
IsValue text = token text ≡ value_text text

abbrev pub command_line : Str → Str → Str → Str → List Str → List Str
command_line program ip port hostmap rest =
    program
    ∷ (long r_myip
        ∷ (ip ∷ (long r_myport ∷ (port ∷ (long r_hostmap ∷ (hostmap ∷ (long [] ∷ rest)))))))

module _ {D : Type 0} (stoi : Str → Option ℤ) (stod : Str → Option D) (zero_d : D) where
  -- On the command line PROGRAM --r_myip IP --r_myport PORT --r_hostmap HOSTMAP -- REST, with values
  -- that do not begin with a dash, a port that std::stoi reads as n, and a host map that is decoded
  -- and holds the process of that address and port at rank r, RDMA_Init hands on the rank r, the
  -- address, n and the numbered host map, and leaves PROGRAM REST to the program.
  pub rdma_init-command_line :
      (program ip port hostmap : Str) (rest : List Str) (n : ℤ) (m : HostPortsMap) (r : ℕ)
      → IsValue ip
      → IsValue port
      → IsValue hostmap
      → stoi port ≡ some n
      → decode stoi hostmap ≡ some m
      → get_rank (cal_rank m) ip n ≡ some r
      → rdma_init stoi stod zero_d (command_line program ip port hostmap rest)
        ≡ parsed (record {
          my_rank = r;
          my_ip = ip;
          my_port = n;
          infos = cal_rank m;
          argv = program ∷ rest;
        })
  unfolding rdma_init parse_rdma_args rdma_parser arg_parser add_argument emplace at eqb_str change
      parse_args parse_loop open_option check_args_valid check_must arg_at items get_arg_data
  rdma_init-command_line program ip port hostmap rest n m r ip_value port_value hostmap_value n_read
        m_read r_found =
      rw (ip_value, port_value, hostmap_value, n_read, m_read, r_found) refl
