-- ===== src/Config/Menu/Tests.antt =====
-- Concrete runs of the functions of menu.c, and the theorems applied to sample data.

use dir842v2_gpl.Common.{List, zero, suc, ◌≡◌, ◌≤◌, refl, arith, Option, none, some, codes}
use dir842v2_gpl.Config.Types.{
  SymbolId, symbol_mod, tri_no, tri_mod, tri_yes, Symbol, Table, constant, symbol, leaf, unknown,
}
use dir842v2_gpl.Config.Valid.{IsValid}
use dir842v2_gpl.Config.Value.{calc_value}
use dir842v2_gpl.Config.Calc.State.{p_prompt}
use dir842v2_gpl.Config.Menu.{
  MenuId, MenuProp, Building, current, skip_space, menu_init, menu_add_entry, menu_add_menu,
  menu_add_prompt, menu_add_visibility,
}
use dir842v2_gpl.Config.Menu.Built.{
  Built, IsInOrder, blank, begun, with_entry, in_menu, with_visibility,
}
use dir842v2_gpl.Config.Menu.Order.{Built-IsInOrder}
use dir842v2_gpl.Config.Menu.Visibility.{Above, least, menu_add_prompt-least}

constants : SymbolId → Symbol
constants zero = constant (codes "n") tri_no
constants (suc zero) = constant (codes "m") tri_mod
constants (suc (suc zero)) = constant (codes "y") tri_yes
constants (suc (suc (suc s))) = constant (codes "off") tri_no

abbrev table : Table
table = record { at = constants; modules_sym = 3 }

constants-le_yes : (s : SymbolId) → (constants s).curr_tri ≤ tri_yes
unfolding constants
constants-le_yes zero = omega arith
constants-le_yes (suc zero) = omega arith
constants-le_yes (suc (suc zero)) = omega arith
constants-le_yes (suc (suc (suc s))) = omega arith

constants-unknown : (s : SymbolId) → (constants s).type ≡ unknown
unfolding constants
constants-unknown zero = refl
constants-unknown (suc zero) = refl
constants-unknown (suc (suc zero)) = refl
constants-unknown (suc (suc (suc s))) = refl

table-IsValid : IsValid table
unfolding constants
table-IsValid = record {
  no_constant = refl;
  mod_constant = refl;
  yes_constant = refl;
  le_yes = constants-le_yes;
  boolean_ne_mod = λ s h. let e = constants-unknown s in cc;
  tristate_mod = λ s h k. let e = constants-unknown s in cc;
}

abbrev entered : Option SymbolId → Building → Building
entered s b = elim (menu_add_entry s b) [ none ↦ b | some c ↦ c ]

-- A menu in the root menu, that `m` makes visible, and an entry in it.
abbrev outer : Building
outer = entered none (menu_init blank)

abbrev shown : Building
shown = menu_add_menu (menu_add_visibility (some (symbol symbol_mod)) outer)

abbrev inner : Building
inner = entered (some 5) shown

inner-Built : Built inner
unfolding menu_add_entry menu_init menu_add_menu menu_add_visibility
inner-Built =
    with_entry (some 5)
      (in_menu (with_visibility (symbol symbol_mod) leaf (with_entry none begun refl))) refl

Built-IsInOrder_example : IsInOrder inner
Built-IsInOrder_example = Built-IsInOrder inner inner-Built

menu_add_prompt-least_example :
    (c : Building) × (p : MenuProp) × (ms : List MenuId) × (menu_add_prompt p_prompt
        (some (codes " Text"))
        (some (symbol 2))
        inner
      ≡ some c)
    × ((c.at 2).prompt ≡ some p)
    × (p.text ≡ some (skip_space (codes " Text")))
    × Above inner.at (current inner).parent ms
    × (calc_value table p.visible ≡ least table inner.at (calc_value table (some (symbol 2))) ms)
unfolding menu_add_entry menu_init menu_add_menu menu_add_visibility
menu_add_prompt-least_example =
    menu_add_prompt-least table inner (codes " Text") (some (symbol 2)) table-IsValid inner-Built
