-- ===== src/Config/Calc/Choices.antt =====
-- The values of a choice in package/config: set_all_choice_values of confdata.c, and
-- sym_choice_default and sym_calc_choice of symbol.c. `calc` is the call of sym_calc_value.
use dir842v2_gpl.Common.{
  Bool, true, false, List, [], ◌∷◌, Option, none, some, ◌==◌, ◌&&◌, if◌then◌else◌, str_eq,
}
use dir842v2_gpl.Config.Types.{Tristate, tri_no, SymbolId}
use dir842v2_gpl.Config.Calc.State.{
  Val, null, text, chosen, Property, Sym, M, ◌>>=◌, ◌>>◌, pure, sym_at, modify, when, set_write,
  is_default, prop_get_symbol, choice_values,
}
use dir842v2_gpl.Config.Calc.Deps.{calc_value, sym_calc_visibility}

-- A choice value that the user has not set becomes `n`.
unfoldable pub clear_value : Sym → Sym
clear_value y = if y.def_user then y else record y { def_tri = tri_no }

-- The loop of set_all_choice_values.
unfoldable pub clear_values : List SymbolId → M (Unit {0})
clear_values [] = pure tt
clear_values (x ∷ xs) = do modify x clear_value; clear_values xs

abbrev pub values_set : Sym → Sym
values_set y = record y { def_user = true; valid = false; need_set = false }

unfoldable pub set_all_choice_values : SymbolId → M (Unit {0})
set_all_choice_values s = do y ← sym_at s; clear_values (choice_values y); modify s values_set

-- Equal values. Two strings at different addresses are the same here, which `modules_sym`, a bool
-- symbol, never shows.
abbrev pub val_eq : Val → Val → Bool
val_eq null null = true
val_eq (text a) (text b) = str_eq a b
val_eq (chosen x) (chosen y) = x == y
val_eq _ _ = false

abbrev pub has_curr : Tristate → Val → Sym → Bool
has_curr tri val y = y.curr_tri == tri && val_eq y.curr_val val

unfoldable pub find_visible : List SymbolId → M (Option SymbolId)
find_visible [] = pure none
find_visible (x ∷ xs) = do
  y ← sym_at x
  if y.visible == tri_no then find_visible xs else pure (some x)

-- The values of a choice when the choice is written: the visible ones are written too.
unfoldable pub write_values : List SymbolId → M (Unit {0})
write_values [] = pure tt
write_values (x ∷ xs) = do
  y ← sym_at x
  when (if y.visible == tri_no then false else true) (modify x set_write)
  write_values xs

module _ (calc : SymbolId → M (Unit {0})) where
  -- A default of a choice counts when the symbol that it names is visible.
  unfoldable pub default_value : Property → Tristate → M (Option SymbolId)
  default_value p v = elim (if v == tri_no then none else prop_get_symbol p) [
    | none ↦ pure none
    | some d ↦ find_visible (d ∷ [])
  ]

  unfoldable pub choice_default_of : Property → M (Option SymbolId)
  choice_default_of p =
      if is_default p then (do v ← calc_value calc p.condition; default_value p v) else pure none

  unfoldable pub first_default : List SymbolId → List Property → M (Option SymbolId)
  first_default values [] = find_visible values
  first_default values (p ∷ ps) = do
    d ← choice_default_of p
    elim d [ none ↦ first_default values ps | some x ↦ pure (some x) ]

  unfoldable pub sym_choice_default : SymbolId → M (Option SymbolId)
  sym_choice_default s = do y ← sym_at s; first_default (choice_values y) y.props

  -- Whether the choice and all its visible values have SYMBOL_DEF_USER.
  unfoldable pub calc_values : Bool → List SymbolId → M Bool
  calc_values user [] = pure user
  calc_values user (x ∷ xs) = do
    sym_calc_visibility calc x
    y ← sym_at x
    calc_values (if y.visible == tri_no then user else user && y.def_user) xs

  unfoldable pub user_choice : Val → M (Option SymbolId)
  user_choice (chosen x) = find_visible (x ∷ [])
  user_choice _ = pure none

  -- With no default, the choice is reset to `n`.
  unfoldable pub default_choice : SymbolId → M Val
  default_choice s = do
    d ← sym_choice_default s
    elim d [
      | none ↦ modify s (λ y. record y { curr_tri = tri_no }) >> pure null
      | some x ↦ pure (chosen x)
    ]

  unfoldable pub sym_calc_choice : SymbolId → M Val
  sym_calc_choice s = do
    y ← sym_at s
    user ← calc_values y.def_user (choice_values y)
    modify s (λ z. record z { def_user = z.def_user && user })
    z ← sym_at s
    u ← user_choice z.def_val
    elim u [ none ↦ default_choice s | some x ↦ pure (chosen x) ]
