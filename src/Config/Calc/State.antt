-- ===== src/Config/Calc/State.antt =====
-- The symbols with all that sym_calc_value reads and writes, and programs over them.
-- A program gives nothing where the fuel does not suffice. Of the flags, SYMBOL_CHANGED is left
-- out: it is only for what the front ends draw again.
use dir842v2_gpl.Common.{
  ℕ, ◌+◌, Bool, true, false, List, [], ◌∷◌, Option, none, some, ◌==◌, ◌&&◌, if◌then◌else◌, Bytes,
}
use dir842v2_gpl.Config.Types.{
  Tristate, tri_no, tri_yes, Expr, symbol, list, SymbolId, SymbolType, unknown, boolean, tristate,
  int, hex, string, other,
}

-- What the pointer `val` of a `struct symbol_value` leads to.
pub data Val : Type 0 where
  null : Val
  text : Bytes → Val
  chosen : SymbolId → Val

pub data PropType : Type 0 where
  p_unknown p_prompt p_comment p_menu p_default p_choice p_select p_imply p_range p_env p_symbol :
      PropType

-- `has_text` tells whether `text` is set, and `condition` is `visible.expr`. `visible.tri` is not
-- kept: it is read only where it has just been computed.
pub record Property : Type 0 where
  pub kind : PropType
  pub has_text : Bool
  pub condition : Option Expr
  pub expr : Option Expr

-- `def_tri` and `def_val` are `def[S_DEF_USER]`; `dir_dep`, `rev_dep` and `implied` are the `tri`
-- parts, and `dir_expr`, `rev_expr` and `implied_expr` the expressions.
pub record Sym : Type 0 where
  pub name : Option Bytes
  pub type : SymbolType
  pub props : List Property
  pub dir_expr : Option Expr
  pub rev_expr : Option Expr
  pub implied_expr : Option Expr
  pub is_choice : Bool
  pub is_choice_value : Bool
  pub is_auto : Bool
  pub allnoconfig_y : Bool
  pub valid : Bool
  pub need_set : Bool
  pub write : Bool
  pub def_user : Bool
  pub curr_tri : Tristate
  pub curr_val : Val
  pub def_tri : Tristate
  pub def_val : Val
  pub visible : Tristate
  pub dir_dep : Tristate
  pub rev_dep : Tristate
  pub implied : Tristate

-- The symbols, `changes` for sym_change_count, and how often rand was called.
pub record World : Type 0 where
  pub at : SymbolId → Sym
  pub modules_sym : SymbolId
  pub modules_val : Tristate
  pub changes : ℕ
  pub drawn : ℕ

abbrev pub M : Type 0 → Type 0
M A = World → Option (A × World)

infixl 5 ◌>>=◌ ◌>>◌
unfoldable pub ◌>>=◌ : {A B : Type 0} → M A → (A → M B) → M B
◌>>=◌ p f w = elim (p w) [ none ↦ none | some (a, v) ↦ f a v ]

abbrev pub ◌>>◌ : {B : Type 0} → M (Unit {0}) → M B → M B
p >> q = p >>= λ _. q

unfoldable pub pure : {A : Type 0} → A → M A
pure a w = some (a, w)

-- A pointer dereferenced.
unfoldable pub sym_at : SymbolId → M Sym
sym_at s w = some (w.at s, w)

unfoldable pub get_modules_val : M Tristate
get_modules_val w = some (w.modules_val, w)

unfoldable pub get_modules_sym : M SymbolId
get_modules_sym w = some (w.modules_sym, w)

unfoldable pub set_modules_val : Tristate → M (Unit {0})
set_modules_val t w = some (tt, record w { modules_val = t })

unfoldable pub count_change : M (Unit {0})
count_change w = some (tt, record w { changes = w.changes + 1 })

-- Assignments to one symbol.
unfoldable pub write_sym : SymbolId → (Sym → Sym) → World → World
write_sym s f w = record w { at = λ x. if x == s then f (w.at x) else w.at x }

unfoldable pub modify : SymbolId → (Sym → Sym) → M (Unit {0})
modify s f w = some (tt, write_sym s f w)

unfoldable pub when : Bool → M (Unit {0}) → M (Unit {0})
when b p = if b then p else pure tt

abbrev pub set_valid : Sym → Sym
set_valid y = record y { valid = true }

abbrev pub set_write : Sym → Sym
set_write y = record y { write = true }

abbrev pub clear_write : Sym → Sym
clear_write y = record y { write = false }

abbrev pub clear_need_set : Sym → Sym
clear_need_set y = record y { need_set = false }

abbrev pub set_curr : Tristate → Val → Sym → Sym
set_curr t v y = record y { curr_tri = t; curr_val = v }

abbrev pub set_curr_val : Val → Sym → Sym
set_curr_val v y = record y { curr_val = v }

abbrev pub is_default : Property → Bool
is_default p = elim p.kind [ p_default ↦ true | _ ↦ false ]

abbrev pub is_range : Property → Bool
is_range p = elim p.kind [ p_range ↦ true | _ ↦ false ]

abbrev pub is_choice_prop : Property → Bool
is_choice_prop p = elim p.kind [ p_choice ↦ true | _ ↦ false ]

unfoldable pub sym_get_choice_prop : List Property → Option Property
sym_get_choice_prop [] = none
sym_get_choice_prop (p ∷ ps) = if is_choice_prop p then some p else sym_get_choice_prop ps

-- For an E_LIST the code reads the other member of the union; no caller has one there.
abbrev pub prop_get_symbol : Property → Option SymbolId
prop_get_symbol p = elim p.expr [ some (symbol s) ↦ some s | _ ↦ none ]

-- prop_get_symbol(sym_get_choice_prop(sym)) for a choice value. The parser gives every choice and
-- choice value such a property; the code does not test for one that is missing.
abbrev pub choice_of : Sym → Option SymbolId
choice_of y = elim (sym_get_choice_prop y.props) [ none ↦ none | some p ↦ prop_get_symbol p ]

-- What expr_list_for_each_sym goes through for a choice.
abbrev pub choice_values : Sym → List SymbolId
choice_values y = elim (sym_get_choice_prop y.props) [
  | none ↦ []
  | some p ↦ elim p.expr [ some (list xs) ↦ xs | _ ↦ [] ]
]

unfoldable pub type_within : Sym → Tristate → SymbolType
type_within y modules = elim y.type [
  | tristate ↦
      if y.is_choice_value && y.visible == tri_yes
      then boolean
      else if modules == tri_no
      then boolean
      else tristate
  | unknown ↦ unknown
  | boolean ↦ boolean
  | int ↦ int
  | hex ↦ hex
  | string ↦ string
  | other ↦ other
]

-- sym_get_type.
unfoldable pub get_type : SymbolId → M SymbolType
get_type s = do y ← sym_at s; m ← get_modules_val; pure (type_within y m)
