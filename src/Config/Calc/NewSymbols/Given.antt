-- ===== src/Config/Calc/NewSymbols/Given.antt =====
-- The first loop of conf_set_all_new_symbols: which symbols get a value, and which value.
use dir842v2_gpl.Common.{
  ℕ, ◌≡◌, ◌==◌, ◌&&◌, ◌||◌, Bool, true, false, List, [], ◌∷◌, some, if◌then◌else◌,
}
use dir842v2_gpl.Config.Types.{SymbolId, Tristate, tri_yes, tri_mod}
use dir842v2_gpl.Config.Calc.State.{Sym, World, M, type_within}
use dir842v2_gpl.Config.Calc.Deps.{is_switch}
use dir842v2_gpl.Config.Calc.NewSymbols.{
  Mode, def_yes, def_mod, def_no, Chances, is_random, in_table, with_user_tri, no_value,
}

-- A bool or tristate symbol of the table that has neither a value of the user nor SYMBOL_VALID.
abbrev pub is_new : Tristate → Sym → Bool
is_new m y =
    (in_table y && ((if y.def_user then false else true) && (if y.valid then false else true)))
    && is_switch (type_within y m)

-- The symbol with the value of the mode as the user's.
unfoldable pub given : Mode → Sym → Sym
given def_yes y = with_user_tri tri_yes y
given def_mod y = with_user_tri tri_mod y
given def_no y = with_user_tri (no_value y) y
given _ y = y

abbrev pub contains : List SymbolId → SymbolId → Bool
contains [] x = false
contains (y ∷ ys) x = x == y || contains ys x

abbrev pub any_new : World → List SymbolId → Bool
any_new w [] = false
any_new w (x ∷ xs) = is_new w.modules_val (w.at x) || any_new w xs

abbrev pub given_if : Bool → Mode → Sym → Sym
given_if b mode y = if b then given mode y else y

module _ (rand : ℕ → ℕ) (p : Chances) (mode : Mode) (plain : is_random mode ≡ false) where
  -- What a part of the loop makes of the symbols, those for which the test holds getting a value.
  record Gives (q : M Bool) (w : World) (changed : Bool) (test : SymbolId → Bool) : Type 0 where
    after : World
    ends : q w ≡ some (changed, after)
    same_modules : after.modules_val ≡ w.modules_val
    symbols : (z : SymbolId) → after.at z ≡ given_if (test z) mode (w.at z)
