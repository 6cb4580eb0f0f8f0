-- ===== src/Config/Calc.antt =====
-- sym_calc_value of package/config/symbol.c. A call of sym_calc_value from inside is `calc` until the
-- last function, where the fuel bounds how deep the calls nest: three times the number of symbols
-- and one more is enough. The warning about unmet dependencies is left out.
pub mod State
pub mod Deps
pub mod Choices
pub mod Newval
pub mod NewvalSound
pub mod Settles
pub mod Ends
pub mod DepsEnd
pub mod ChoicesEnd
pub mod NewvalEnd
pub mod SymbolEnd
pub mod Total
pub mod Once
pub mod Sample
pub mod Strings
pub mod NewSymbols
mod Tests
use dir842v2_gpl.Common.{
  ℕ, zero, suc, Bool, true, false, List, [], ◌∷◌, Option, none, some, ltb, ◌==◌, ◌&&◌, ◌||◌,
  if◌then◌else◌, Bytes, codes, str_eq,
}
use dir842v2_gpl.Config.Types.{
  Tristate, tri_no, tri_mod, tri_yes, expr_or, expr_and, Expr, SymbolId, SymbolType, unknown,
  boolean, tristate, int, hex, string, other,
}
use dir842v2_gpl.Config.Calc.State.{
  Val, null, text, chosen, Property, Sym, World, M, ◌>>=◌, ◌>>◌, pure, sym_at, get_modules_val,
  get_modules_sym, set_modules_val, modify, when, set_valid, set_write, clear_write, clear_need_set,
  set_curr, set_curr_val, is_default, prop_get_symbol, choice_of, choice_values, get_type,
}
use dir842v2_gpl.Config.Calc.Deps.{
  is_switch, Found, calc_value, sym_get_default_prop, sym_validate_range, sym_calc_visibility,
}
use dir842v2_gpl.Config.Calc.Choices.{
  set_all_choice_values, has_curr, write_values, sym_calc_choice,
}
use dir842v2_gpl.Config.Calc.Newval.{calc_tristate, calc_text}

-- What follows the new value: `modules_val`, the values of a choice, SYMBOL_AUTO and
-- SYMBOL_NEED_SET_CHOICE_VALUES. `same` tells whether the value is the one from before.
unfoldable pub update_modules : SymbolId → (Sym → Bool) → M (Unit {0})
update_modules s same = do
  y ← sym_at s
  m ← get_modules_sym
  when (m == s && (if same y then false else true)) (set_modules_val y.curr_tri)

unfoldable pub finish : SymbolId → M (Unit {0})
finish s = do
  y ← sym_at s
  when (y.is_choice && y.write) (write_values (choice_values y))
  when y.is_auto (modify s clear_write)
  z ← sym_at s
  when z.need_set (set_all_choice_values s)

-- `newval` at first, for the types that are calculated.
abbrev pub blank_val : SymbolType → Option Val
blank_val int = some (text [])
blank_val hex = some (text [])
blank_val string = some (text [])
blank_val boolean = some (text (codes "n"))
blank_val tristate = some (text (codes "n"))
blank_val _ = none

abbrev pub name_val : Option Bytes → Val
name_val none = null
name_val (some name) = text name

module _ (calc : SymbolId → M (Unit {0})) where
  unfoldable pub settle_tristate : SymbolId → M (Unit {0})
  settle_tristate s = do
    t ← calc_tristate calc s
    modify s (set_curr t (text (codes "n")))
    y ← sym_at s
    when (y.is_choice && t == tri_yes) (do c ← sym_calc_choice calc s; modify s (set_curr_val c))

  unfoldable pub settle_text : SymbolId → M (Unit {0})
  settle_text s = do v ← calc_text calc s; modify s (set_curr tri_no v)

  unfoldable pub calc_blank : SymbolId → Sym → Val → M (Unit {0})
  calc_blank s old v = do
    modify s clear_write
    sym_calc_visibility calc s
    y ← sym_at s
    when (ltb tri_no y.visible) (modify s set_write)
    modify s (set_curr tri_no v)
    (if is_switch y.type then settle_tristate s else settle_text s)
    sym_validate_range calc s
    update_modules s (has_curr old.curr_tri old.curr_val)
    finish s

  -- From SYMBOL_VALID on.
  unfoldable pub calc_new : SymbolId → M (Unit {0})
  calc_new s = do
    modify s set_valid
    y ← sym_at s
    elim (blank_val y.type) [
      | none ↦ modify s (set_curr tri_no (name_val y.name))
      | some v ↦ calc_blank s y v
    ]

  -- A choice value has its choice calculated first when it is told to.
  unfoldable pub calc_choice_first : SymbolId → Option SymbolId → M (Unit {0})
  calc_choice_first s choice = do
    modify s clear_need_set
    elim choice [ none ↦ pure tt | some c ↦ calc c ]

  unfoldable pub calc_invalid : SymbolId → Sym → M (Unit {0})
  calc_invalid s y = do
    when (y.is_choice_value && y.need_set) (calc_choice_first s (choice_of y))
    calc_new s

  unfoldable pub calc_body : SymbolId → M (Unit {0})
  calc_body s = do y ← sym_at s; if y.valid then pure tt else calc_invalid s y

unfoldable pub sym_calc_value : ℕ → SymbolId → M (Unit {0})
sym_calc_value zero s = λ w. none
sym_calc_value (suc fuel) s = calc_body (sym_calc_value fuel) s
