-- ===== src/Args.antt =====
-- The argument parser of include/utils/arg_parser.hpp. std::stoi and std::stod are parameters, none
-- where they throw; D is the type double.
pub mod Parser
pub mod Laws
use ffrdma.Common.{
  ℕ, zero, suc, ◌+◌, Bool, true, false, not, ◌&&◌, ◌||◌, List, [], ◌∷◌, ◌++◌, Option, none, some, ℤ,
  pos, ltb, leb, ◌==◌, if◌then◌else◌,
}
use ffrdma.Hostmap.{Str, eqb_str}

pub data ArgType : Type 0 where
  t_float : ArgType
  t_bool : ArgType
  t_int : ArgType
  t_string : ArgType

-- The union base_data.
pub data BaseData (D : Type 0) : Type 0 where
  null : BaseData D
  string_p : Str → BaseData D
  num_i : ℤ → BaseData D
  num_d : D → BaseData D
  bool_e : Bool → BaseData D

pub record ArgData (D : Type 0) : Type 0 where
  pub base_data : BaseData D
  pub type : ArgType
  pub is_raw : Bool

-- A call returns; the program exits with a message; or an assertion fails.
pub data Reason : Type 0 where
  duplicated : Reason
  error_position : Reason
  unknown : Reason
  missing_must : Reason
  help_shown : Reason
  no_item : Reason
  format_error : Reason

pub data Parsed {ℓ} (A : Type ℓ) : Type ℓ where
  parsed : A → Parsed A
  exited : Reason → Parsed A
  aborted : Parsed A

infixl 5 ◌>>=◌
abbrev pub ◌>>=◌ {ℓ κ} : {A : Type ℓ} {B : Type κ} → Parsed A → (A → Parsed B) → Parsed B
(parsed a) >>= k = k a
(exited r) >>= k = exited r
aborted >>= k = aborted

-- at of a std::map that throws std::out_of_range, and the place of the catch.
abbrev pub or_exit {ℓ} : {A : Type ℓ} → Reason → Option A → Parsed A
or_exit r none = exited r
or_exit r (some a) = parsed a

module _ {D : Type 0} where
  abbrev pub new_data : ArgType → ArgData D
  new_data t = record { base_data = null; type = t; is_raw = true }

  abbrev pub set_str : Str → ArgData D → ArgData D
  set_str str arg_data = record { base_data = string_p str; type = t_string; is_raw = false }

  abbrev pub set_int : ℤ → ArgData D → ArgData D
  set_int num arg_data = record { base_data = num_i num; type = t_int; is_raw = false }

  abbrev pub set_double : D → ArgData D → ArgData D
  set_double num arg_data = record { base_data = num_d num; type = t_float; is_raw = false }

  abbrev pub set_bool : Bool → ArgData D → ArgData D
  set_bool e arg_data = record { base_data = bool_e e; type = t_bool; is_raw = false }

  abbrev pub is_defined : ArgData D → Bool
  is_defined arg_data = not arg_data.is_raw

  abbrev pub default_of : D → ArgType → BaseData D
  default_of zero_d t_float = num_d zero_d
  default_of zero_d t_bool = bool_e false
  default_of zero_d t_int = num_i (pos 0)
  default_of zero_d t_string = string_p []

  -- The getters assert the type and that there is a value.
  abbrev pub str_of : ArgType → Bool → BaseData D → Parsed Str
  str_of t_string false (string_p s) = parsed s
  str_of _ _ _ = aborted

  abbrev pub get_str : ArgData D → Parsed Str
  get_str arg_data = str_of arg_data.type arg_data.is_raw arg_data.base_data

  abbrev pub int_of : ArgType → Bool → BaseData D → Parsed ℤ
  int_of t_int false (num_i n) = parsed n
  int_of _ _ _ = aborted

  abbrev pub get_int : ArgData D → Parsed ℤ
  get_int arg_data = int_of arg_data.type arg_data.is_raw arg_data.base_data

  abbrev pub double_of : ArgType → Bool → BaseData D → Parsed D
  double_of t_float false (num_d d) = parsed d
  double_of _ _ _ = aborted

  abbrev pub get_double : ArgData D → Parsed D
  get_double arg_data = double_of arg_data.type arg_data.is_raw arg_data.base_data

  abbrev pub bool_of : ArgType → Bool → BaseData D → Parsed Bool
  bool_of t_bool false (bool_e b) = parsed b
  bool_of _ _ _ = aborted

  abbrev pub get_bool : ArgData D → Parsed Bool
  get_bool arg_data = bool_of arg_data.type arg_data.is_raw arg_data.base_data

  -- setDefault, which asserts that there is no value.
  abbrev pub set_default : D → ArgData D → Parsed (ArgData D)
  set_default zero_d arg_data =
      if arg_data.is_raw
      then parsed (record arg_data { base_data = default_of zero_d arg_data.type; is_raw = false })
      else aborted

pub record Argument (D : Type 0) : Type 0 where
  pub long_arg : Str
  pub arg_value : ArgData D
  pub is_must : Bool
  pub default_val : Str
  pub short_arg : Str
  pub help_message : Str

-- std::map: emplace does nothing where the key stands, and says so by none.
unfoldable pub at {ℓ} : {A : Type ℓ} → Str → List (Str × A) → Option A
at key [] = none
at key ((k, a) ∷ rest) = let found = at key rest in if eqb_str key k then some a else found

abbrev pub or_new {ℓ} : {A : Type ℓ} → Str → A → List (Str × A) → Option A → Option (List (Str × A))
or_new key a items none = some ((key, a) ∷ items)
or_new key a items (some old) = none

unfoldable pub emplace {ℓ} : {A : Type ℓ} → Str → A → List (Str × A) → Option (List (Str × A))
emplace key a items = or_new key a items (at key items)

pub record ArgParser (D : Type 0) : Type 0 where
  pub help_cmd : Str
  pub args_map : List (Str × ℕ)
  pub container : List (Argument D)

pub record ArgObj (D : Type 0) : Type 0 where
  pub arg_items : List (Str × ArgData D)
  pub last_index : ℕ
