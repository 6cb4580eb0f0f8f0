-- ===== src/Config/Calc/Strings.antt =====
-- Values as strings in package/config/symbol.c: sym_string_within_range, sym_clear_all_valid,
-- sym_set_string_value for the types S_INT, S_HEX, S_STRING, S_UNKNOWN and S_OTHER, and
-- sym_get_string_default. `calc` is sym_calc_value, and `all` the symbols of the hash table.
pub mod End
pub mod Runs
use dir842v2_gpl.Common.{
  ◌++◌, ℕ, ◌+◌, Bool, true, false, List, [], ◌∷◌, Option, none, some, ltb, leb, ◌==◌, ◌&&◌, ◌||◌,
  if◌then◌else◌, Bytes, codes, str_eq,
}
use dir842v2_gpl.Config.Types.{
  Tristate, tri_no, tri_mod, tri_yes, expr_or, expr_and, Expr, range, SymbolId, SymbolType, unknown,
  boolean, tristate, int, hex, string, other,
}
use dir842v2_gpl.Config.Numbers.{strtoll}
use dir842v2_gpl.Config.Escape.{sym_string_valid}
use dir842v2_gpl.Config.Printer.{hex_prefix}
use dir842v2_gpl.Config.Calc.State.{
  Val, null, text, chosen, Property, Sym, World, M, ◌>>=◌, ◌>>◌, pure, sym_at, get_modules_val,
  get_modules_sym, count_change, modify, when, prop_get_symbol, type_within,
}
use dir842v2_gpl.Config.Calc.Deps.{
  expr_and_value, bytes_of, signed_leb, Found, calc_value, sym_get_default_prop, sym_get_range_prop,
  sym_get_range_val, sym_calc_visibility,
}

-- The tests of sym_tristate_within_range after the one of the type.
abbrev pub tri_within : Sym → Tristate → Bool
tri_within y val =
    if leb y.visible y.rev_dep
    then false
    else if y.implied == tri_yes && val == tri_mod
    then false
    else if y.is_choice_value && y.visible == tri_yes
    then val == tri_yes
    else leb y.rev_dep val && leb val y.visible

abbrev pub tri_within_typed : SymbolType → Sym → Tristate → Bool
tri_within_typed boolean y val = if val == tri_mod then false else tri_within y val
tri_within_typed tristate y val = tri_within y val
tri_within_typed _ y val = false

unfoldable pub sym_tristate_within_range : Sym → Tristate → Tristate → Bool
sym_tristate_within_range y modules val =
    if y.visible == tri_no then false else tri_within_typed (type_within y modules) y val

-- The first letter of a bool or tristate value, in either case.
abbrev pub tri_of_letter : ℕ → Option Tristate
tri_of_letter c =
    if c == b'y' || c == b'Y'
    then some tri_yes
    else if c == b'm' || c == b'M'
    then some tri_mod
    else if c == b'n' || c == b'N'
    then some tri_no
    else none

abbrev pub tri_of_text : Bytes → Option Tristate
tri_of_text [] = none
tri_of_text (c ∷ s) = tri_of_letter c

module _ (calc : SymbolId → M (Unit {0})) where
  unfoldable pub below_high : SymbolId → ℕ → ℕ → M Bool
  below_high right base val = do
    high ← sym_get_range_val calc right base
    pure (signed_leb val high)

  unfoldable pub in_range : ℕ → ℕ → Option Expr → M Bool
  in_range base val (some (range left right)) = do
    low ← sym_get_range_val calc left base
    if signed_leb low val then below_high right base val else pure false
  in_range base val _ = pure true

  unfoldable pub number_within : Sym → ℕ → Bytes → M Bool
  number_within y base str =
      if sym_string_valid y.type str
      then (do
        found ← sym_get_range_prop calc y
        elim found [
          | none ↦ pure true
          | some f ↦ in_range base (strtoll str base).pattern f.prop.expr
        ])
      else pure false

  unfoldable pub switch_within : Sym → Bytes → M Bool
  switch_within y str = do
    m ← get_modules_val
    pure (elim (tri_of_text str) [ none ↦ false | some t ↦ sym_tristate_within_range y m t ])

  unfoldable pub within_for : SymbolType → Sym → Bytes → M Bool
  within_for string y str = pure (sym_string_valid string str)
  within_for int y str = number_within y 10 str
  within_for hex y str = number_within y 16 str
  within_for boolean y str = switch_within y str
  within_for tristate y str = switch_within y str
  within_for _ y str = pure false

  unfoldable pub sym_string_within_range : SymbolId → Bytes → M Bool
  sym_string_within_range s str = do y ← sym_at s; within_for y.type y str

  -- Symbols of type S_OTHER are passed over.
  unfoldable pub no_longer_valid : Sym → Sym
  no_longer_valid y = elim y.type [ other ↦ y | _ ↦ record y { valid = false } ]

  unfoldable pub clear_valid : List SymbolId → M (Unit {0})
  clear_valid [] = pure tt
  clear_valid (x ∷ xs) = do modify x no_longer_valid; clear_valid xs

  unfoldable pub sym_clear_all_valid : List SymbolId → M (Unit {0})
  sym_clear_all_valid all = do clear_valid all; count_change; m ← get_modules_sym; calc m

  -- What is stored: a hex value gets its prefix.
  abbrev pub stored_text : SymbolType → Bytes → Bytes
  stored_text hex newval = hex_prefix newval ++ newval
  stored_text _ newval = newval

  -- Without a prefix to add, a value that is there already is left.
  abbrev pub is_stored : SymbolType → Val → Bytes → Bool
  is_stored type (text old) newval = str_eq old (stored_text type newval) && str_eq old newval
  is_stored type _ newval = false

  unfoldable pub store_text : List SymbolId → SymbolId → Bytes → M Bool
  store_text all s newval = do
    modify s (λ y. record y { def_user = true })
    y ← sym_at s
    if is_stored y.type y.def_val newval then pure true else (do
      modify s (λ z. record z { def_val = text (stored_text y.type newval) })
      sym_clear_all_valid all
      pure true)

  unfoldable pub sym_set_string_value : List SymbolId → SymbolId → Bytes → M Bool
  sym_set_string_value all s newval = do
    ok ← sym_string_within_range s newval
    if ok then store_text all s newval else pure false

  -- The value and the string that the default gives.
  pub record Default : Type 0 where
    pub val : Tristate
    pub str : Bytes

  unfoldable pub default_text : Option SymbolId → M Default
  default_text none = pure (record { val = tri_no; str = [] })
  default_text (some d) = do
    calc d
    z ← sym_at d
    pure (record { val = tri_no; str = bytes_of z.curr_val })

  unfoldable pub default_switch : Found → M Default
  default_switch f = do
    v ← expr_and_value calc f.prop.expr f.tri
    pure (record { val = v; str = [] })

  unfoldable pub default_for : SymbolType → Found → M Default
  default_for boolean f = default_switch f
  default_for tristate f = default_switch f
  default_for _ f = default_text (prop_get_symbol f.prop)

  -- `modules` is the value of MODULES.
  abbrev pub adjusted : Sym → Tristate → Tristate → Tristate
  adjusted y modules val =
      let selected = expr_or val y.rev_dep in
      let no_modules =
        if selected == tri_mod && ((if y.is_choice_value then false else true) && modules == tri_no)
        then tri_yes
        else selected in
      let of_type =
        (if no_modules == tri_mod && (elim y.type [ boolean ↦ true | _ ↦ false ])
          then tri_yes
          else no_modules) in
      if ltb of_type y.implied then y.implied else of_type

  abbrev pub tri_text : Tristate → Bytes
  tri_text t = if t == tri_no then codes "n" else if t == tri_mod then codes "m" else codes "y"

  abbrev pub shown : SymbolType → Tristate → Bytes → Bytes
  shown boolean val str = tri_text val
  shown tristate val str = tri_text val
  shown int val str = str
  shown hex val str = str
  shown string val str = str
  shown _ val str = []

  unfoldable pub default_of : Sym → M Default
  default_of y = do
    found ← sym_get_default_prop calc y
    elim found [ none ↦ default_text none | some f ↦ default_for y.type f ]

  unfoldable pub sym_get_string_default : SymbolId → M Bytes
  sym_get_string_default s = do
    sym_calc_visibility calc s
    m ← get_modules_sym
    calc m
    y ← sym_at s
    d ← default_of y
    z ← sym_at s
    modules ← sym_at m
    pure (shown z.type (adjusted z modules.curr_tri d.val) d.str)
