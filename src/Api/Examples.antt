-- ===== src/Api/Examples.antt =====
-- A process at address b and port 5, on the host map a:2+1,b:5.
use ffrdma.Common.{ℕ, ◌-◌, ◌≡◌, refl, List, [], ◌∷◌, Option, some, none, ℤ, pos, false}
use ffrdma.Hostmap.{
  Str, HostPortsMap, decode, cal_rank, cal_rank_from, host_ranks, get_rank, eqb_str, ltb_str,
  each_token, get_next, spliter, find_from, find, starts_with, substr, substr_from, insert_host,
  port_set, insert_port, decode_addr_pair, decode_port_list,
}
use ffrdma.Args.{parsed, ArgObj, string_p, num_i, bool_e, t_string, t_int, t_bool, at, emplace}
use ffrdma.Args.Parser.{
  arg_parser, add_argument, change, parse_loop, open_option, check_must, check_args_valid, arg_at,
  items, parse_args, get_arg_data,
}
use ffrdma.Api.{r_help, r_myip, r_myport, r_hostmap, rdma_init, rdma_parser, parse_rdma_args}
use ffrdma.Api.Init.{command_line, rdma_init-command_line}
use ffrdma.Api.Types.{HasValues, parse_rdma_args-getters}

-- std::stoi on one digit.
abbrev stoi : Str → Option ℤ
stoi (c ∷ []) = some (pos (c - 48))
stoi s = none

abbrev stod : Str → Option ℕ
stod s = none

abbrev program : Str
program = 112 ∷ []

abbrev hostmap_text : Str
hostmap_text = 97 ∷ (58 ∷ (50 ∷ (43 ∷ (49 ∷ (44 ∷ (98 ∷ (58 ∷ (53 ∷ []))))))))

abbrev hosts : HostPortsMap
hosts = (97 ∷ [], pos 1 ∷ (pos 2 ∷ [])) ∷ ((98 ∷ [], pos 5 ∷ []) ∷ [])

abbrev argv : List Str
argv = command_line program (98 ∷ []) (53 ∷ []) hostmap_text ((120 ∷ []) ∷ [])

rdma_init-command_line_example :
    rdma_init stoi stod 0 argv
    ≡ parsed (record {
      my_rank = 2;
      my_ip = 98 ∷ [];
      my_port = pos 5;
      infos = cal_rank hosts;
      argv = program ∷ ((120 ∷ []) ∷ []);
    })
unfolding decode each_token get_next spliter find_from find starts_with substr substr_from
    insert_host port_set insert_port decode_addr_pair decode_port_list cal_rank cal_rank_from
    host_ranks get_rank eqb_str ltb_str
rdma_init-command_line_example =
    rdma_init-command_line stoi stod 0 program (98 ∷ []) (53 ∷ []) hostmap_text ((120 ∷ []) ∷ [])
      (pos 5) hosts 2 refl refl refl refl refl refl

abbrev read_back : ArgObj ℕ
read_back = record {
  arg_items =
      (r_hostmap, record { base_data = string_p hostmap_text; type = t_string; is_raw = false })
      ∷ ((r_myport, record { base_data = num_i (pos 5); type = t_int; is_raw = false })
          ∷ ((r_myip, record { base_data = string_p (98 ∷ []); type = t_string; is_raw = false })
              ∷ ((r_help, record { base_data = bool_e false; type = t_bool; is_raw = false })
                  ∷ [])));
  last_index = 8;
}

parse_rdma_args-getters_example : HasValues read_back
unfolding parse_rdma_args rdma_parser arg_parser add_argument emplace at eqb_str change parse_args
    parse_loop open_option check_args_valid check_must arg_at items get_arg_data
parse_rdma_args-getters_example = parse_rdma_args-getters stoi stod 0 argv read_back refl
