-- ===== src/Config/Calc/Newval.antt =====
-- The new value that sym_calc_value of package/config/symbol.c works out, its two switches on the
-- type. `calc` is the call of sym_calc_value.
use dir842v2_gpl.Common.{
  Bool, true, false, [], Option, none, some, ltb, ◌==◌, ◌&&◌, ◌||◌, if◌then◌else◌,
}
use dir842v2_gpl.Config.Types.{
  Tristate, tri_no, tri_mod, tri_yes, expr_or, expr_and, SymbolId, boolean,
}
use dir842v2_gpl.Config.Calc.State.{
  Val, text, chosen, Sym, M, ◌>>=◌, ◌>>◌, pure, sym_at, modify, when, set_write, prop_get_symbol,
  choice_of, get_type,
}
use dir842v2_gpl.Config.Calc.Deps.{expr_and_value, Found, sym_get_default_prop}
use dir842v2_gpl.Config.Calc.Choices.{val_eq}

module _ (calc : SymbolId → M (Unit {0})) where
  -- `newval` of a bool or tristate choice value that is visible with `y`.
  unfoldable pub value_in_choice : SymbolId → Sym → M Tristate
  value_in_choice s y = elim (choice_of y) [
    | none ↦ pure tri_no
    | some c ↦ do z ← sym_at c; pure (if val_eq z.curr_val (chosen s) then tri_yes else tri_no)
  ]

  unfoldable pub written_if : Bool → SymbolId → M (Unit {0})
  written_if b s = when b (modify s set_write)

  unfoldable pub tri_of_default : SymbolId → Option Found → M Tristate
  tri_of_default s none = pure tri_no
  tri_of_default s (some f) = do
    n ← expr_and_value calc f.prop.expr f.tri
    written_if (ltb tri_no n) s
    pure n

  unfoldable pub default_or_implied : SymbolId → M Tristate
  default_or_implied s = do
    y ← sym_at s
    found ← sym_get_default_prop calc y
    n ← tri_of_default s found
    z ← sym_at s
    written_if (ltb tri_no z.implied) s
    pure (if z.implied == tri_no then n else expr_or n z.implied)

  unfoldable pub default_tristate : SymbolId → Sym → M Tristate
  default_tristate s y = do
    written_if (ltb tri_no y.rev_dep) s
    if y.is_choice then pure tri_no else default_or_implied s

  -- What the user or the defaults say, with what selects the symbol.
  unfoldable pub value_with_selects : SymbolId → Sym → M Tristate
  value_with_selects s y = do
    n ←
        (if ltb tri_no y.visible && y.def_user
          then pure (expr_and y.def_tri y.visible)
          else default_tristate s y)
    z ← sym_at s
    pure (expr_or n z.rev_dep)

  unfoldable pub calc_tristate : SymbolId → M Tristate
  calc_tristate s = do
    y ← sym_at s
    n ←
        (if y.is_choice_value && y.visible == tri_yes
          then value_in_choice s y
          else value_with_selects s y)
    z ← sym_at s
    t ← get_type s
    pure (
        if n == tri_mod && (z.implied == tri_yes || (elim t [ boolean ↦ true | _ ↦ false ]))
        then tri_yes
        else n)

  unfoldable pub text_of_default : SymbolId → Option SymbolId → M Val
  text_of_default s none = pure (text [])
  text_of_default s (some d) = do modify s set_write; calc d; z ← sym_at d; pure z.curr_val

  unfoldable pub calc_text : SymbolId → M Val
  calc_text s = do
    y ← sym_at s
    if ltb tri_no y.visible && y.def_user then pure y.def_val else (do
      found ← sym_get_default_prop calc y
      text_of_default s (elim found [ none ↦ none | some f ↦ prop_get_symbol f.prop ]))
