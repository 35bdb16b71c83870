-- ===== src/Api.antt =====
-- parseArgs and RDMA_Init of src/fmpi.cc, up to RdmaProcess::Init.
pub mod Init
pub mod Types
mod Examples
use ffrdma.Common.{ℕ, Option, List, [], ◌∷◌, ℤ, true, drop, if◌then◌else◌}
use ffrdma.Hostmap.{Str, ProcessInfo, decode, cal_rank, get_rank}
use ffrdma.Args.{
  ArgParser, ArgObj, Parsed, parsed, aborted, or_exit, ◌>>=◌, t_string, t_int, format_error,
}
use ffrdma.Args.Parser.{arg_parser, add_argument, parse_args, get_val_str, get_val_int}

-- "r_help"
abbrev pub r_help : Str
r_help = 114 ∷ (95 ∷ (104 ∷ (101 ∷ (108 ∷ (112 ∷ [])))))

-- "r_myip"
abbrev pub r_myip : Str
r_myip = 114 ∷ (95 ∷ (109 ∷ (121 ∷ (105 ∷ (112 ∷ [])))))

-- "r_myport"
abbrev pub r_myport : Str
r_myport = 114 ∷ (95 ∷ (109 ∷ (121 ∷ (112 ∷ (111 ∷ (114 ∷ (116 ∷ [])))))))

-- "r_hostmap"
abbrev pub r_hostmap : Str
r_hostmap = 114 ∷ (95 ∷ (104 ∷ (111 ∷ (115 ∷ (116 ∷ (109 ∷ (97 ∷ (112 ∷ []))))))))

-- What RDMA_Init hands to RdmaProcess::Init, and the arguments that it leaves to the program.
pub record Started : Type 0 where
  pub my_rank : ℕ
  pub my_ip : Str
  pub my_port : ℤ
  pub infos : List ProcessInfo
  pub argv : List Str

-- The help texts are not kept.
unfoldable pub rdma_parser : {D : Type 0} → Parsed (ArgParser D)
rdma_parser = arg_parser r_help [] >>= λ p. add_argument r_myip t_string true [] [] [] p >>= λ p'.
    add_argument r_myport t_int true [] [] [] p' >>= λ p''.
    add_argument r_hostmap t_string true [] [] [] p''

module _ {D : Type 0} (stoi : Str → Option ℤ) (stod : Str → Option D) (zero_d : D) where
  unfoldable pub parse_rdma_args : List Str → Parsed (ArgObj D)
  parse_rdma_args argv = rdma_parser >>= parse_args stoi stod zero_d argv

  -- *argc and *argv without what was parsed, the program's name kept in front.
  abbrev pub left_argv : ℕ → List Str → List Str
  left_argv last_index [] = []
  left_argv last_index (program ∷ args) = program ∷ drop last_index (program ∷ args)

  unfoldable pub rdma_init : List Str → Parsed Started
  rdma_init argv = parse_rdma_args argv >>= λ obj. get_val_str obj r_myip >>= λ my_ip.
      get_val_int obj r_myport >>= λ my_port. get_val_str obj r_hostmap >>= λ hostmap_str.
      or_exit format_error (decode stoi hostmap_str) >>= λ hostmap.
      or_exit format_error (get_rank (cal_rank hostmap) my_ip my_port) >>= λ my_rank.
      parsed (record {
        my_rank = my_rank;
        my_ip = my_ip;
        my_port = my_port;
        infos = cal_rank hostmap;
        argv = left_argv obj.last_index argv;
      })
