-- ===== src/Config/Menu.antt =====
-- The functions of package/config/menu.c that the parser calls while it reads a menu, and prop_alloc
-- of symbol.c. A `struct menu *` is a number, the order in which the entries were allocated, and
-- `rootmenu` is 0. File names, line numbers and the texts of warnings are left out.
pub mod Built
pub mod Place
pub mod Order
pub mod Modules
pub mod Visibility
mod Tests
use dir842v2_gpl.Common.{
  ℕ, zero, suc, ◌+◌, Bool, true, false, List, [], ◌∷◌, ◌++◌, Option, none, some, ◌==◌, ◌&&◌,
  if◌then◌else◌, Bytes, is_space,
}
use dir842v2_gpl.Config.Types.{
  SymbolId, symbol_mod, Expr, symbol, not, and, or, comp, list, range, SymbolType, unknown, boolean,
  tristate, int, hex, string, other,
}
use dir842v2_gpl.Config.EliminateEq.{expr_copy}
use dir842v2_gpl.Config.Query.{expr_alloc_and}
use dir842v2_gpl.Config.Calc.State.{PropType, p_prompt, p_symbol}

abbrev pub MenuId : Type 0
MenuId = ℕ

abbrev pub rootmenu : MenuId
rootmenu = 0

-- A property as menu_add_prop makes it.
pub record MenuProp : Type 0 where
  pub kind : PropType
  pub menu : MenuId
  pub expr : Option Expr
  pub visible : Option Expr
  pub text : Option Bytes

pub record Menu : Type 0 where
  pub next : Option MenuId
  pub parent : Option MenuId
  pub list : Option MenuId
  pub sym : Option SymbolId
  pub prompt : Option MenuProp
  pub visibility : Option Expr
  pub dep : Option Expr

-- What `last_entry_ptr` points to: the `list` or the `next` of an entry.
pub data Link : Type 0 where
  list_of next_of : MenuId → Link

pub data Warning : Type 0 where
  leading_whitespace prompt_redefined type_redefinition : Warning

-- `props` and `types` are those of each symbol; `free` is the next entry to allocate.
pub record Building : Type 0 where
  pub at : MenuId → Menu
  pub free : MenuId
  pub current_entry : MenuId
  pub current_menu : Option MenuId
  pub last_entry : Link
  pub props : SymbolId → List MenuProp
  pub types : SymbolId → SymbolType
  pub warnings : List Warning

unfoldable pub put_menu : MenuId → (Menu → Menu) → Building → Building
put_menu m f b = record b { at = λ x. if x == m then f (b.at x) else b.at x }

abbrev pub current : Building → Menu
current b = b.at b.current_entry

abbrev pub no_menu : Menu
no_menu = record {
  next = none;
  parent = none;
  list = none;
  sym = none;
  prompt = none;
  visibility = none;
  dep = none;
}

unfoldable pub menu_init : Building → Building
menu_init b = record b {
  current_entry = rootmenu;
  current_menu = some rootmenu;
  last_entry = list_of rootmenu;
}

-- `*last_entry_ptr = menu`.
unfoldable pub link_to : MenuId → Link → Building → Building
unfolding put_menu
link_to m (list_of p) b = put_menu p (λ y. record y { list = some m }) b
link_to m (next_of p) b = put_menu p (λ y. record y { next = some m }) b

-- 'm' becomes 'm' && MODULES.
unfoldable pub rewrite_m : SymbolId → Expr → Expr
rewrite_m modules (not e) = not (rewrite_m modules e)
rewrite_m modules (or l r) = or (rewrite_m modules l) (rewrite_m modules r)
rewrite_m modules (and l r) = and (rewrite_m modules l) (rewrite_m modules r)
rewrite_m modules (symbol s) = if s == symbol_mod then and (symbol s) (symbol modules) else symbol s
rewrite_m modules e = e

unfoldable pub menu_add_dep : Option Expr → Building → Building
unfolding put_menu
menu_add_dep dep b = put_menu b.current_entry (λ y. record y { dep = expr_alloc_and y.dep dep }) b

abbrev pub is_unknown_type : SymbolType → Bool
is_unknown_type unknown = true
is_unknown_type _ = false

abbrev pub type_number : SymbolType → ℕ
type_number unknown = 0
type_number boolean = 1
type_number tristate = 2
type_number int = 3
type_number hex = 4
type_number string = 5
type_number other = 6

-- The type of the symbol of the current entry; the parser calls this where there is one.
unfoldable pub set_type : SymbolId → SymbolType → Building → Building
set_type s type b =
    if type_number (b.types s) == type_number type
    then b
    else if is_unknown_type (b.types s)
    then record b { types = λ x. if x == s then type else b.types x }
    else record b { warnings = type_redefinition ∷ b.warnings }

abbrev pub menu_set_type : SymbolType → Building → Option Building
menu_set_type type b = elim (current b).sym [ none ↦ none | some s ↦ some (set_type s type b) ]

-- The property at the end of the list of its symbol, if it has one.
unfoldable pub prop_alloc : MenuProp → Option SymbolId → Building → Building
prop_alloc p none b = b
prop_alloc p (some s) b = record b {
  props = λ x. if x == s then b.props x ++ (p ∷ []) else b.props x;
}

unfoldable pub skip_space : Bytes → Bytes
skip_space [] = []
skip_space (c ∷ s) = if is_space c then skip_space s else c ∷ s

-- `prop->visible.expr` after the entry `p` above: a copy of its visibility is added.
abbrev pub add_visibility : Menu → Option Expr → Option Expr
add_visibility y visible = elim y.visibility [
  | none ↦ visible
  | some v ↦ expr_alloc_and visible (expr_copy v)
]

-- The loop over the entries above; a chain of `parent` longer than the fuel gives nothing.
unfoldable pub upper_visibilities :
    ℕ → (MenuId → Menu) → Option MenuId → Option Expr → Option (Option Expr)
upper_visibilities fuel at none visible = some visible
upper_visibilities zero at (some p) visible = none
upper_visibilities (suc fuel) at (some p) visible =
    upper_visibilities fuel at (at p).parent (add_visibility (at p) visible)

abbrev pub starts_with_space : Bytes → Bool
starts_with_space [] = false
starts_with_space (c ∷ s) = is_space c

abbrev pub is_prompt : PropType → Bool
is_prompt p_prompt = true
is_prompt _ = false

abbrev pub warn_if : Bool → Warning → Building → Building
warn_if c w b = if c then record b { warnings = w ∷ b.warnings } else b

abbrev pub has_prompt : Menu → Bool
has_prompt y = elim y.prompt [ none ↦ false | some _ ↦ true ]

-- The warnings about a prompt.
abbrev pub prompt_warnings : Bytes → Building → Building
prompt_warnings text b =
    warn_if (has_prompt (current b) && (if b.current_entry == rootmenu then false else true))
      prompt_redefined (warn_if (starts_with_space text) leading_whitespace b)

abbrev pub visible_of : PropType → Option Expr → Building → Option (Option Expr)
visible_of kind dep b =
    if is_prompt kind then upper_visibilities b.free b.at (current b).parent dep else some dep

abbrev pub prompt_prop : PropType → Bytes → Option Expr → MenuId → Option Expr → MenuProp
prompt_prop kind text expr m visible = record {
  kind = kind;
  menu = m;
  expr = expr;
  visible = visible;
  text = some (skip_space text);
}

-- A property with a prompt, once its condition is known, becomes the prompt of the entry.
unfoldable pub add_prompt : MenuProp → Bytes → Building → Building
unfolding put_menu prop_alloc
add_prompt p text b =
    put_menu b.current_entry (λ y. record y { prompt = some p })
      (prop_alloc p (current b).sym (prompt_warnings text b))

abbrev pub add_plain : PropType → Option Expr → Option Expr → Building → Building
add_plain kind expr dep b =
    prop_alloc
      (record { kind = kind; menu = b.current_entry; expr = expr; visible = dep; text = none })
      (current b).sym b

abbrev pub prompted :
    PropType → Bytes → Option Expr → Building → Option (Option Expr) → Option Building
prompted kind text expr b none = none
prompted kind text expr b (some visible) =
    some (add_prompt (prompt_prop kind text expr b.current_entry visible) text b)

unfoldable pub menu_add_prop :
    PropType → Option Bytes → Option Expr → Option Expr → Building → Option Building
unfolding add_prompt prop_alloc
menu_add_prop kind none expr dep b = some (add_plain kind expr dep b)
menu_add_prop kind (some text) expr dep b = prompted kind text expr b (visible_of kind dep b)

unfoldable pub menu_add_prompt : PropType → Option Bytes → Option Expr → Building → Option Building
unfolding menu_add_prop
menu_add_prompt kind text dep b = menu_add_prop kind text none dep b

unfoldable pub menu_add_visibility : Option Expr → Building → Building
unfolding put_menu
menu_add_visibility e b =
    put_menu b.current_entry (λ y. record y { visibility = expr_alloc_and y.visibility e }) b

unfoldable pub menu_add_expr : PropType → Option Expr → Option Expr → Building → Option Building
unfolding menu_add_prop
menu_add_expr kind expr dep b = menu_add_prop kind none expr dep b

unfoldable pub menu_add_symbol : PropType → SymbolId → Option Expr → Building → Option Building
unfolding menu_add_prop
menu_add_symbol kind s dep b = menu_add_prop kind none (some (symbol s)) dep b

abbrev pub add_own_symbol : Option SymbolId → Building → Option Building
add_own_symbol none b = some b
add_own_symbol (some s) b = menu_add_symbol p_symbol s none b

unfoldable pub menu_add_entry : Option SymbolId → Building → Option Building
unfolding link_to put_menu menu_add_symbol
menu_add_entry s b =
    let m = b.free in
    let new = put_menu m (λ _. record no_menu { sym = s; parent = b.current_menu }) b in
    add_own_symbol s (record (link_to m b.last_entry new) {
      last_entry = next_of m;
      current_entry = m;
      free = m + 1;
    })

unfoldable pub menu_add_menu : Building → Building
menu_add_menu b = record b {
  last_entry = list_of b.current_entry;
  current_menu = some b.current_entry;
}

-- The end of a menu that was never begun follows a NULL pointer.
unfoldable pub menu_end_menu : Building → Option Building
menu_end_menu b = elim b.current_menu [
  | none ↦ none
  | some m ↦ some (record b { last_entry = next_of m; current_menu = (b.at m).parent })
]
