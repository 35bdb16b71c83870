-- ===== src/Api/Types.antt =====
-- The getters that RDMA_Init of src/fmpi.cc calls never fail their assertions.
use ffrdma.Common.{
  subst, ℕ, ◌≡◌, refl, Bool, true, false, not, ◌&&◌, List, [], ◌∷◌, Option, none, ℤ, if◌then◌else◌,
}
use ffrdma.Hostmap.{Str, eqb_str}
use ffrdma.Args.{
  ArgType, t_bool, t_int, t_string, BaseData, string_p, num_i, ArgData, Parsed, parsed, exited,
  aborted, ◌>>=◌, Argument, at, emplace, ArgParser, ArgObj, get_bool, missing_must, help_shown,
  no_item,
}
use ffrdma.Args.Parser.{
  arg_parser, add_argument, change, parse_loop, check_must, check_args_valid, arg_at, items,
  with_default, parse_args, get_arg_data, get_val_str, get_val_int,
}
use ffrdma.Args.Laws.{
  Yields, Yields-then, Yields-or_exit, FitsType, AllDeclared, parse_loop-AllDeclared,
}
use ffrdma.Api.{r_help, r_myip, r_myport, r_hostmap, rdma_parser, parse_rdma_args}

Yields-any :
    {A B : Type 0} (Q : B → Type 0) (m : Parsed A) (k : A → Parsed B)
    → ((a : A) → Yields Q (k a))
    → Yields Q (m >>= k)
Yields-any Q (parsed a) k kk = kk a
Yields-any Q (exited r) k kk = tt
Yields-any Q aborted k kk = tt

abbrev declared : List (Str × ArgType × Bool)
declared =
    (r_help, t_bool, false)
    ∷ ((r_myip, t_string, true) ∷ ((r_myport, t_int, true) ∷ ((r_hostmap, t_string, true) ∷ [])))

Yields-inner :
    {A B C : Type 0} (Q : C → Type 0) (m : Parsed A) (k : A → Parsed B) (l : B → Parsed C)
    → ((a : A) → Yields Q (k a >>= l))
    → Yields Q ((m >>= k) >>= l)
Yields-inner Q (parsed a) k l kk = kk a
Yields-inner Q (exited r) k l kk = tt
Yields-inner Q aborted k l kk = tt

module _ {D : Type 0} where
  -- Every argument that must be given has a value.
  abbrev AllGiven : List (Argument D) → Type 0
  AllGiven [] = Unit {0}
  AllGiven (a ∷ rest) = (a.is_must ≡ true → a.arg_value.is_raw ≡ false) × AllGiven rest

  check_must-AllGiven :
      (container : List (Argument D)) → Yields (λ _. AllGiven container) (check_must container)
  unfolding check_must
  check_must-AllGiven [] = tt
  check_must-AllGiven (a ∷ rest) =
      go a.is_must a.arg_value.is_raw (check_must rest) (check_must-AllGiven rest)
    where
      go :
          (must raw : Bool) (later : Parsed (Unit {0}))
          → Yields (λ _. AllGiven rest) later
          → Yields
              (λ _. (must ≡ true → raw ≡ false) × AllGiven rest)
              (if must && not (not raw) then exited missing_must else later)
      go true true later h = tt
      go true false (parsed x) h = (λ _. refl, h)
      go true false (exited r) h = tt
      go true false aborted h = tt
      go false raw (parsed x) h = (λ e. cc e, h)
      go false raw (exited r) h = tt
      go false raw aborted h = tt

  check-AllGiven : (p : ArgParser D) → Yields (λ _. AllGiven p.container) (check_args_valid p)
  unfolding check_args_valid
  check-AllGiven p = Yields-or_exit Q no_item (at p.help_cmd p.args_map) _ λ place.
      Yields-any Q (arg_at place p.container) _
        λ a. Yields-any Q (get_bool a.arg_value) _ λ help. go help
    where
      Q : Unit {0} → Type 0
      Q _ = AllGiven p.container

      go : (help : Bool) → Yields Q (if help then exited help_shown else check_must p.container)
      go true = tt
      go false = check_must-AllGiven p.container

  abbrev given : BaseData D → ArgType → Bool → ArgData D
  given b t r = record { base_data = b; type = t; is_raw = r }

  str_data :
      (d : ArgData D)
      → FitsType t_string d
      → d.is_raw ≡ false
      → (s : Str) × (d ≡ given (string_p s) t_string false)
  str_data d (t, h) raw = let (s, b) = h raw in (s, go d.base_data d.type d.is_raw s b t raw)
    where
      go :
          (b : BaseData D) (t : ArgType) (r : Bool) (s : Str)
          → b ≡ string_p s
          → t ≡ t_string
          → r ≡ false
          → given b t r ≡ given (string_p s) t_string false
      go b t r s eb et er = rw (eb, et, er) refl

  int_data :
      (d : ArgData D)
      → FitsType t_int d
      → d.is_raw ≡ false
      → (n : ℤ) × (d ≡ given (num_i n) t_int false)
  int_data d (t, h) raw = let (n, b) = h raw in (n, go d.base_data d.type d.is_raw n b t raw)
    where
      go :
          (b : BaseData D) (t : ArgType) (r : Bool) (n : ℤ)
          → b ≡ num_i n
          → t ≡ t_int
          → r ≡ false
          → given b t r ≡ given (num_i n) t_int false
      go b t r n eb et er = rw (eb, et, er) refl

  abbrev pub HasValues : ArgObj D → Type 0
  HasValues obj =
      (ip : Str) × (port : ℤ) × (hostmap : Str) × (get_val_str obj r_myip ≡ parsed ip)
      × (get_val_int obj r_myport ≡ parsed port)
      × (get_val_str obj r_hostmap ≡ parsed hostmap)

  module _ (stoi : Str → Option ℤ) (stod : Str → Option D) (zero_d : D) where
    items-HasValues :
        (i : ℕ) (container : List (Argument D))
        → AllDeclared declared container
        → AllGiven container
        → Yields HasValues (
            items stoi stod zero_d container [] >>= λ arg_items.
            parsed (record { arg_items = arg_items; last_index = i }))
    unfolding items emplace at eqb_str get_arg_data
    items-HasValues i [] x _ = absurd x
    items-HasValues i (a ∷ []) (_, x) _ = absurd x
    items-HasValues i (a ∷ (b ∷ [])) (_, (_, x)) _ = absurd x
    items-HasValues i (a ∷ (b ∷ (c ∷ []))) (_, (_, (_, x))) _ = absurd x
    items-HasValues i (a ∷ (b ∷ (c ∷ (d ∷ (e ∷ rest))))) (_, (_, (_, (_, x)))) _ = absurd x
    items-HasValues i (a ∷ (b ∷ (c ∷ (d ∷ [])))) (ha, (hb, (hc, (hd, _))))
          (_, (gb, (gc, (gd, _)))) =
        let (ip, eb) = str_data b.arg_value hb.fits (gb hb.obliged) in
        let (port, ec) = int_data c.arg_value hc.fits (gc hc.obliged) in
        let (hostmap, ed) = str_data d.arg_value hd.fits (gd hd.obliged) in
        rw (ha.named, hb.named, hc.named, hd.named, eb, ec, ed)
          (Yields-inner HasValues (with_default stoi stod zero_d a.arg_value) _ _
            (λ help. (ip, port, hostmap, refl, refl, refl)))

    parse_args-HasValues :
        (argv : List Str) (p : ArgParser D)
        → AllDeclared declared p.container
        → Yields HasValues (parse_args stoi stod zero_d argv p)
    unfolding parse_args
    parse_args-HasValues [] p h = tt
    parse_args-HasValues (program ∷ args) p h =
        Yields-then HasValues (parse_loop stoi stod zero_d args 1 none p) _
          (parse_loop-AllDeclared stoi stod zero_d declared args 1 none p h)
          λ (i, p') h'.
            Yields-then HasValues (check_args_valid p') _ (check-AllGiven p')
              λ _ g. items-HasValues i p'.container h' g

    parse_rdma_args-HasValues :
        (argv : List Str) → Yields HasValues (parse_rdma_args stoi stod zero_d argv)
    unfolding parse_rdma_args rdma_parser arg_parser add_argument emplace at eqb_str change
    parse_rdma_args-HasValues argv = parse_args-HasValues argv _ (
      record { named = refl; obliged = refl; fits = (refl, λ _. (false, refl)) },
      (
        record { named = refl; obliged = refl; fits = (refl, λ e. cc e) },
        (
          record { named = refl; obliged = refl; fits = (refl, λ e. cc e) },
          (record { named = refl; obliged = refl; fits = (refl, λ e. cc e) }, tt),
        ),
      ),
    )

    -- Whatever the command line, where parseArgs returns, the getters that RDMA_Init then calls
    -- succeed: r_myip and r_hostmap have a string and r_myport has a number.
    pub parse_rdma_args-getters :
        (argv : List Str) (obj : ArgObj D)
        → parse_rdma_args stoi stod zero_d argv ≡ parsed obj
        → HasValues obj
    parse_rdma_args-getters argv obj e = subst (Yields HasValues) e (parse_rdma_args-HasValues argv)
