-- ===== src/Config/Menu/Built.antt =====
-- What the calls of the parser build.

use dir842v2_gpl.Common.{◌≡◌, ◌<◌, [], Option, none, some, Bytes}
use dir842v2_gpl.Config.Types.{SymbolId, Expr, IsLogical, SymbolType, unknown}
use dir842v2_gpl.Config.Calc.State.{PropType}
use dir842v2_gpl.Config.Menu.{
  MenuId, Building, rootmenu, list_of, no_menu, menu_init, menu_add_entry, menu_add_menu,
  menu_end_menu, menu_add_dep, menu_set_type, menu_add_prompt, menu_add_visibility, menu_add_expr,
  menu_add_symbol,
}

-- The state before the parser runs.
abbrev pub blank : Building
blank = record {
  at = λ _. no_menu;
  free = 1;
  current_entry = rootmenu;
  current_menu = none;
  last_entry = list_of rootmenu;
  props = λ _. [];
  types = λ _. unknown;
  warnings = [];
}

-- The states that calls of these functions build from menu_init on; what makes a menu visible is
-- decided by symbols, comparisons and operators, as expr_copy demands.
pub data Built : Building → Type 0 where
  begun : Built (menu_init blank)
  with_entry :
      {b c : Building} (s : Option SymbolId) → Built b → menu_add_entry s b ≡ some c → Built c
  in_menu : {b : Building} → Built b → Built (menu_add_menu b)
  out_of_menu : {b c : Building} → Built b → menu_end_menu b ≡ some c → Built c
  with_dep : {b : Building} (e : Option Expr) → Built b → Built (menu_add_dep e b)
  with_type :
      {b c : Building} (type : SymbolType) → Built b → menu_set_type type b ≡ some c → Built c
  with_visibility :
      {b : Building} (e : Expr) → IsLogical e → Built b → Built (menu_add_visibility (some e) b)
  with_prompt :
      {b c : Building} (kind : PropType) (text : Option Bytes) (dep : Option Expr)
      → Built b
      → menu_add_prompt kind text dep b ≡ some c
      → Built c
  with_expr :
      {b c : Building} (kind : PropType) (e dep : Option Expr)
      → Built b
      → menu_add_expr kind e dep b ≡ some c
      → Built c
  with_symbol :
      {b c : Building} (kind : PropType) (s : SymbolId) (dep : Option Expr)
      → Built b
      → menu_add_symbol kind s dep b ≡ some c
      → Built c

-- An entry, if there is one, is older than the entry `n`.
pub data IsOlder : Option MenuId → MenuId → Type 0 where
  no_entry : {n : MenuId} → IsOlder none n
  older : {m n : MenuId} → m < n → IsOlder (some m) n

pub data IsLogicalIfAny : Option Expr → Type 0 where
  no_expr : IsLogicalIfAny none
  has_expr : {e : Expr} → IsLogical e → IsLogicalIfAny (some e)

pub record IsInOrder (b : Building) : Type 0 where
  pub entry_low : b.current_entry < b.free
  pub menu_low : IsOlder b.current_menu b.free
  pub descends : (m : MenuId) → IsOlder (b.at m).parent m
  pub logical : (m : MenuId) → IsLogicalIfAny (b.at m).visibility
