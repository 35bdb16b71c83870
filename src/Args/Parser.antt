-- ===== src/Args/Parser.antt =====
-- ArgParser of include/utils/arg_parser.hpp: add_argument and parse_args, without the printing.
use ffrdma.Common.{
  ℕ, zero, suc, Bool, true, false, not, ◌&&◌, ◌||◌, List, [], ◌∷◌, ◌++◌, Option, none, some, ℤ, leb,
  ◌==◌, if◌then◌else◌, length,
}
use ffrdma.Hostmap.{Str}
use ffrdma.Args.{
  ArgType, t_float, t_bool, t_int, t_string, ArgData, Parsed, parsed, exited, aborted, ◌>>=◌,
  or_exit, duplicated, error_position, unknown, missing_must, help_shown, no_item, new_data,
  set_str, set_int, set_double, set_bool, is_defined, get_str, get_int, get_bool, set_default,
  Argument, at, emplace, ArgParser, ArgObj,
}

abbrev pub is_empty : Str → Bool
is_empty [] = true
is_empty (c ∷ cs) = false

abbrev pub is_bool : ArgType → Bool
is_bool t_float = false
is_bool t_bool = true
is_bool t_int = false
is_bool t_string = false

-- isspace in the C locale
abbrev pub is_space : ℕ → Bool
is_space c = (c == 32) || (leb 9 c && leb c 13)

-- "help" and "h"
abbrev pub help_name : Str
help_name = 104 ∷ (101 ∷ (108 ∷ (112 ∷ [])))

abbrev pub h_name : Str
h_name = 104 ∷ []

abbrev pub dash : ℕ
dash = 45

-- What parse_args makes of one argument by its first characters.
pub data Token : Type 0 where
  end_of_args : Token
  option_name : Str → Token
  value_text : Str → Token

abbrev pub long_token : Str → Token
long_token [] = end_of_args
long_token (c ∷ cs) = if is_space c then end_of_args else option_name (c ∷ cs)

abbrev pub dash_token : Str → Token
dash_token [] = option_name []
dash_token (c ∷ cs) = if c == dash then long_token cs else option_name (c ∷ cs)

abbrev pub token : Str → Token
token [] = value_text []
token (c ∷ cs) = if c == dash then dash_token cs else value_text (c ∷ cs)

module _ {D : Type 0} where
  -- A change of the argument at a place of argumentContainer.
  unfoldable pub change :
      ℕ → (Argument D → Parsed (ArgData D)) → List (Argument D) → Parsed (List (Argument D))
  change place f [] = aborted
  change zero f (a ∷ rest) = f a >>= λ arg_data. parsed (record a { arg_value = arg_data } ∷ rest)
  change (suc place) f (a ∷ rest) = change place f rest >>= λ rest'. parsed (a ∷ rest')

  unfoldable pub add_argument :
      Str → ArgType → Bool → Str → Str → Str → ArgParser D → Parsed (ArgParser D)
  add_argument long_arg type must default_value short_arg help_msg p =
      let place = length p.container in
      let argument : Argument D = record {
        long_arg = long_arg;
        arg_value = new_data type;
        is_must = must;
        default_val = default_value;
        short_arg = short_arg;
        help_message = help_msg;
      } in
      or_exit duplicated (emplace long_arg place p.args_map) >>= λ with_long.
      (if is_empty short_arg
        then parsed with_long
        else or_exit duplicated (emplace short_arg place with_long))
      >>= λ args_map.
          parsed (record p { args_map = args_map; container = p.container ++ (argument ∷ []) })

  abbrev pub no_arguments : Str → ArgParser D
  no_arguments help_cmd = record { help_cmd = help_cmd; args_map = []; container = [] }

  abbrev pub help_closed : Argument D → Parsed (ArgData D)
  help_closed a = parsed (set_bool false a.arg_value)

  -- The constructor: the help command, closed.
  unfoldable pub arg_parser : Str → Str → Parsed (ArgParser D)
  arg_parser help_cmd print_help =
      let cmd = if is_empty help_cmd then help_name else help_cmd in
      let short = if is_empty help_cmd then h_name else [] in
      add_argument cmd t_bool false [] short print_help (no_arguments cmd) >>= λ p.
      or_exit no_item (at cmd p.args_map) >>= λ place.
      change place help_closed p.container >>= λ container.
      parsed (record p { container = container })

  unfoldable pub get_arg_data : ArgObj D → Str → Parsed (ArgData D)
  get_arg_data obj arg = or_exit no_item (at arg obj.arg_items)

  abbrev pub get_val_str : ArgObj D → Str → Parsed Str
  get_val_str obj arg = get_arg_data obj arg >>= get_str

  abbrev pub get_val_int : ArgObj D → Str → Parsed ℤ
  get_val_int obj arg = get_arg_data obj arg >>= get_int

  abbrev pub is_option_on : ArgObj D → Str → Parsed Bool
  is_option_on obj arg = get_arg_data obj arg >>= get_bool

  -- checkMustArg
  unfoldable pub check_must : List (Argument D) → Parsed (Unit {0})
  check_must [] = parsed tt
  check_must (a ∷ rest) =
      let later = check_must rest in
      if a.is_must && not (is_defined a.arg_value) then exited missing_must else later

  unfoldable pub arg_at : ℕ → List (Argument D) → Parsed (Argument D)
  arg_at place [] = aborted
  arg_at zero (a ∷ rest) = parsed a
  arg_at (suc place) (a ∷ rest) = arg_at place rest

  unfoldable pub check_args_valid : ArgParser D → Parsed (Unit {0})
  check_args_valid p = or_exit no_item (at p.help_cmd p.args_map) >>= λ place.
      arg_at place p.container >>= λ a.
      get_bool a.arg_value >>= λ help. (if help then exited help_shown else check_must p.container)

  abbrev pub or_old :
      List (Str × ArgData D) → Option (List (Str × ArgData D)) → List (Str × ArgData D)
  or_old old none = old
  or_old old (some new) = new

module _ {D : Type 0} (stoi : Str → Option ℤ) (stod : Str → Option D) (zero_d : D) where
  -- strToArgData; an exception of std::stoi or std::stod ends in exitProgram.
  abbrev pub typed_data : ArgType → Str → ArgData D → Parsed (ArgData D)
  typed_data t_bool value arg_data = parsed (set_bool false arg_data)
  typed_data t_string value arg_data = parsed (set_str value arg_data)
  typed_data t_float value arg_data =
      or_exit unknown (stod value) >>= λ d. parsed (set_double d arg_data)
  typed_data t_int value arg_data =
      or_exit unknown (stoi value) >>= λ n. parsed (set_int n arg_data)

  abbrev pub str_to_arg_data : Str → ArgData D → Parsed (ArgData D)
  str_to_arg_data value arg_data = typed_data arg_data.type value arg_data

  -- An option is switched on, or gets its default.
  unfoldable pub open_option : Argument D → Parsed (ArgData D)
  open_option a =
      let arg_data = if is_bool a.arg_value.type then set_bool true a.arg_value else a.arg_value in
      let with_default = str_to_arg_data a.default_val arg_data in
      if not a.is_must && not (is_empty a.default_val) then with_default else parsed arg_data

  abbrev pub store_value : Str → Argument D → Parsed (ArgData D)
  store_value value a = str_to_arg_data value a.arg_value

  -- The loop of parse_args from argument `last_index` on; `prev` is prev_arg, none being npos.
  unfoldable pub parse_loop : List Str → ℕ → Option ℕ → ArgParser D → Parsed (ℕ × ArgParser D)
  parse_loop [] last_index prev p = parsed (last_index, p)
  parse_loop (arg ∷ args) last_index prev p = elim (token arg) [
    | end_of_args ↦ parsed (suc last_index, p)
    | option_name name ↦
        (or_exit unknown (at name p.args_map) >>= λ place.
        change place open_option p.container >>= λ container.
        parse_loop args (suc last_index) (some place) (record p { container = container }))
    | value_text value ↦
        (or_exit error_position prev >>= λ place.
        change place (store_value value) p.container >>= λ container.
        parse_loop args (suc last_index) none (record p { container = container }))
  ]

  abbrev pub with_default : ArgData D → Parsed (ArgData D)
  with_default arg_data =
      if is_defined arg_data then parsed arg_data else set_default zero_d arg_data

  -- The entries of the object, for each argument in turn.
  unfoldable pub items :
      List (Argument D) → List (Str × ArgData D) → Parsed (List (Str × ArgData D))
  items [] done = parsed done
  items (a ∷ rest) done = with_default a.arg_value >>= λ arg_data.
      items rest (or_old done (emplace a.long_arg arg_data done))

  unfoldable pub parse_args : List Str → ArgParser D → Parsed (ArgObj D)
  parse_args [] p = aborted
  parse_args (program ∷ args) p = parse_loop args 1 none p >>= λ (last_index, p').
      check_args_valid p' >>= λ _. items p'.container [] >>= λ arg_items.
      parsed (record { arg_items = arg_items; last_index = last_index })
