-- ===== src/Args/Laws.antt =====
-- Types of the arguments through parse_args of include/utils/arg_parser.hpp.
use ffrdma.Common.{
  subst, ℕ, zero, suc, ◌≡◌, refl, sym, Bool, true, false, not, ◌&&◌, List, [], ◌∷◌, Option, none,
  some, ℤ, if◌then◌else◌,
}
use ffrdma.Hostmap.{Str}
use ffrdma.Args.{
  ArgType, t_float, t_bool, t_int, t_string, BaseData, string_p, num_i, num_d, bool_e, ArgData,
  Parsed, parsed, exited, aborted, ◌>>=◌, or_exit, Reason, set_bool, Argument, at, ArgParser,
  unknown, error_position,
}
use ffrdma.Args.Parser.{
  Token, token, end_of_args, option_name, value_text, change, typed_data, str_to_arg_data,
  open_option, store_value, parse_loop, is_bool, is_empty,
}

-- What holds of the result of a call that returns.
abbrev pub Yields : {A : Type 0} → (A → Type 0) → Parsed A → Type 0
Yields P (parsed a) = P a
Yields P (exited r) = Unit {0}
Yields P aborted = Unit {0}

pub Yields-then :
    {A B : Type 0} {P : A → Type 0} (Q : B → Type 0) (m : Parsed A) (k : A → Parsed B)
    → Yields P m
    → ((a : A) → P a → Yields Q (k a))
    → Yields Q (m >>= k)
Yields-then Q (parsed a) k h kk = kk a h
Yields-then Q (exited r) k h kk = tt
Yields-then Q aborted k h kk = tt

pub Yields-or_exit :
    {A B : Type 0} (Q : B → Type 0) (r : Reason) (o : Option A) (k : A → Parsed B)
    → ((a : A) → Yields Q (k a))
    → Yields Q (or_exit r o >>= k)
Yields-or_exit Q r none k kk = tt
Yields-or_exit Q r (some a) k kk = kk a

module _ {D : Type 0} where
  -- The union holds a value of the type.
  abbrev pub HasType : ArgType → BaseData D → Type 0
  HasType t_float b = (d : D) × (b ≡ num_d d)
  HasType t_bool b = (e : Bool) × (b ≡ bool_e e)
  HasType t_int b = (n : ℤ) × (b ≡ num_i n)
  HasType t_string b = (s : Str) × (b ≡ string_p s)

  abbrev pub FitsType : ArgType → ArgData D → Type 0
  FitsType t d = (d.type ≡ t) × (d.is_raw ≡ false → HasType t d.base_data)

  -- An argument as it was declared: its name, its type, and whether it must be given.
  pub record IsDeclared (name : Str) (t : ArgType) (must : Bool) (a : Argument D) : Type 0 where
    pub named : a.long_arg ≡ name
    pub obliged : a.is_must ≡ must
    pub fits : FitsType t a.arg_value

  abbrev pub AllDeclared : List (Str × ArgType × Bool) → List (Argument D) → Type 0
  AllDeclared [] [] = Unit {0}
  AllDeclared [] (a ∷ rest) = ⊥
  AllDeclared (d ∷ ds) [] = ⊥
  AllDeclared ((name, t, must) ∷ ds) (a ∷ rest) = IsDeclared name t must a × AllDeclared ds rest

  pub change-AllDeclared :
      (ds : List (Str × ArgType × Bool)) (place : ℕ) (f : Argument D → Parsed (ArgData D))
      (container : List (Argument D))
      → ((a : Argument D) (t : ArgType) → FitsType t a.arg_value → Yields (FitsType t) (f a))
      → AllDeclared ds container
      → Yields (AllDeclared ds) (change place f container)
  unfolding change
  change-AllDeclared [] place f [] keeps h = tt
  change-AllDeclared [] place f (a ∷ rest) keeps h = absurd h
  change-AllDeclared (d ∷ ds) place f [] keeps h = tt
  change-AllDeclared ((name, t, must) ∷ ds) zero f (a ∷ rest) keeps (ha, h) =
      Yields-then (AllDeclared ((name, t, must) ∷ ds)) (f a) _ (keeps a t ha.fits)
        λ d fits. (record { named = ha.named; obliged = ha.obliged; fits = fits }, h)
  change-AllDeclared ((name, t, must) ∷ ds) (suc place) f (a ∷ rest) keeps (ha, h) =
      Yields-then (AllDeclared ((name, t, must) ∷ ds)) (change place f rest) _
        (change-AllDeclared ds place f rest keeps h) λ changed hc. (ha, hc)

  module _ (stoi : Str → Option ℤ) (stod : Str → Option D) (zero_d : D) where
    typed_data-FitsType :
        (t : ArgType) (value : Str) (d : ArgData D)
        → Yields (FitsType t) (typed_data stoi stod zero_d t value d)
    typed_data-FitsType t_bool value d = (refl, λ _. (false, refl))
    typed_data-FitsType t_string value d = (refl, λ _. (value, refl))
    typed_data-FitsType t_float value d =
        Yields-or_exit (FitsType t_float) unknown (stod value) _ λ x. (refl, λ _. (x, refl))
    typed_data-FitsType t_int value d =
        Yields-or_exit (FitsType t_int) unknown (stoi value) _ λ x. (refl, λ _. (x, refl))

    store-FitsType :
        (value : Str) (a : Argument D) (t : ArgType)
        → FitsType t a.arg_value
        → Yields (FitsType t) (store_value stoi stod zero_d value a)
    store-FitsType value a t (same, h) =
        subst (λ u. Yields (FitsType t) (typed_data stoi stod zero_d u value a.arg_value))
          (sym same) (typed_data-FitsType t value a.arg_value)

    switched :
        (u : ArgType) (d : ArgData D)
        → FitsType u d
        → FitsType u (if is_bool u then set_bool true d else d)
    switched t_float d h = h
    switched t_bool d h = (refl, λ _. (true, refl))
    switched t_int d h = h
    switched t_string d h = h

    open-FitsType :
        (a : Argument D) (t : ArgType)
        → FitsType t a.arg_value
        → Yields (FitsType t) (open_option stoi stod zero_d a)
    unfolding open_option
    open-FitsType a t fits = chosen (not a.is_must && not (is_empty a.default_val)) (
        subst (λ u. FitsType t (if is_bool u then set_bool true a.arg_value else a.arg_value))
          (sym fits.0) (switched t a.arg_value fits))
      where
        now : ArgData D
        now = if is_bool a.arg_value.type then set_bool true a.arg_value else a.arg_value

        chosen :
            (b : Bool)
            → FitsType t now
            → Yields
                (FitsType t)
                (if b then str_to_arg_data stoi stod zero_d a.default_val now else parsed now)
        chosen true (same, h) =
            subst (λ u. Yields (FitsType t) (typed_data stoi stod zero_d u a.default_val now))
              (sym same) (typed_data-FitsType t a.default_val now)
        chosen false f = f

    pub parse_loop-AllDeclared :
        (ds : List (Str × ArgType × Bool)) (args : List Str) (i : ℕ) (prev : Option ℕ)
        (p : ArgParser D)
        → AllDeclared ds p.container
        → Yields
            (λ (j, p'). AllDeclared ds p'.container)
            (parse_loop stoi stod zero_d args i prev p)
    unfolding parse_loop
    parse_loop-AllDeclared ds [] i prev p h = h
    parse_loop-AllDeclared ds (arg ∷ args) i prev p h =
        go (token arg) (λ prev' p' h'. parse_loop-AllDeclared ds args (suc i) prev' p' h')
      where
        KeptDeclared : ℕ × ArgParser D → Type 0
        KeptDeclared (j, p') = AllDeclared ds p'.container

        go :
            (t : Token)
            → ((prev' : Option ℕ) (p' : ArgParser D)
                → AllDeclared ds p'.container
                → Yields KeptDeclared (parse_loop stoi stod zero_d args (suc i) prev' p'))
            → Yields KeptDeclared (elim t [
              | end_of_args ↦ parsed (suc i, p)
              | option_name name ↦
                  (or_exit unknown (at name p.args_map) >>= λ place.
                  change place (open_option stoi stod zero_d) p.container >>= λ container.
                  parse_loop stoi stod zero_d args
                    (suc i)
                    (some place)
                    (record p { container = container }))
              | value_text value ↦
                  (or_exit error_position prev >>= λ place.
                  change place (store_value stoi stod zero_d value) p.container >>= λ container.
                  parse_loop stoi stod zero_d args
                    (suc i)
                    none
                    (record p { container = container }))
            ])
        go end_of_args ih = h
        go (option_name name) ih =
            Yields-or_exit KeptDeclared unknown (at name p.args_map) _ λ place.
              Yields-then KeptDeclared (change place (open_option stoi stod zero_d) p.container) _
                (change-AllDeclared ds place (open_option stoi stod zero_d) p.container
                  open-FitsType h)
                λ container hc. ih (some place) (record p { container = container }) hc
        go (value_text value) ih = Yields-or_exit KeptDeclared error_position prev _ λ place.
            Yields-then KeptDeclared (change place (store_value stoi stod zero_d value) p.container)
              _
              (change-AllDeclared ds place (store_value stoi stod zero_d value) p.container
                (store-FitsType value) h)
              λ container hc. ih none (record p { container = container }) hc
