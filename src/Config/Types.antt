-- ===== src/Config/Types.antt =====
-- package/config/expr.h: tristate values, expression trees and symbols.
-- A `struct symbol *` is a number, its index in a table: two pointers are equal when the numbers
-- are. `symbol_no`, `symbol_mod` and `symbol_yes` are the addresses of the three constants.
-- The union `left`/`right` of an expression node is read by its type, so each type is a
-- constructor with what it stores; the six comparisons share one. A chain of E_LIST nodes is the
-- list of its symbols. A NULL expression is `none` where the code allows one.
use dir842v2_gpl.Common.{
  ℕ, suc, ◌+◌, ◌-◌, ◌≡◌, refl, arith, Bool, true, false, List, Option, some, ltb, leb, ◌==◌,
  if◌then◌else◌, min, max, Bytes, codes,
}

abbrev pub Tristate : Type 0
Tristate = ℕ

abbrev pub tri_no : Tristate
tri_no = 0

abbrev pub tri_mod : Tristate
tri_mod = 1

abbrev pub tri_yes : Tristate
tri_yes = 2

-- The macros EXPR_OR, EXPR_AND and EXPR_NOT.
unfoldable pub expr_or : Tristate → Tristate → Tristate
expr_or a b = if ltb b a then a else b

unfoldable pub expr_and : Tristate → Tristate → Tristate
expr_and a b = if ltb a b then a else b

abbrev pub expr_not : Tristate → Tristate
expr_not a = 2 - a

pub expr_or-max : (a b : Tristate) → expr_or a b ≡ max a b
unfolding expr_or
expr_or-max a b = ground arith

pub expr_and-min : (a b : Tristate) → expr_and a b ≡ min a b
unfolding expr_and
expr_and-min a b = ground arith

pub ruleset tristate_laws = (arith, expr_or-max, expr_and-min)

abbrev pub SymbolId : Type 0
SymbolId = ℕ

abbrev pub symbol_no : SymbolId
symbol_no = 0

abbrev pub symbol_mod : SymbolId
symbol_mod = 1

abbrev pub symbol_yes : SymbolId
symbol_yes = 2

-- E_EQUAL to E_GEQ.
pub data Relation : Type 0 where
  equal unequal lth leq gth geq : Relation

pub data Expr : Type 0 where
  symbol : SymbolId → Expr
  not : Expr → Expr
  and or : Expr → Expr → Expr
  comp : Relation → SymbolId → SymbolId → Expr
  list : List SymbolId → Expr
  range : SymbolId → SymbolId → Expr

pub data SymbolType : Type 0 where
  unknown boolean tristate int hex string other : SymbolType

-- The bits of `flags` that are read here.
pub record Flags : Type 0 where
  pub is_const : Bool
  pub choice : Bool
  pub choice_val : Bool
  pub def_user : Bool

-- `curr.val` is the string it points to, `def_val` is the user's `def[S_DEF_USER]`; the `tri`
-- parts of `dir_dep`, `rev_dep` and `implied` stand alone.
pub record Symbol : Type 0 where
  pub name : Option Bytes
  pub type : SymbolType
  pub curr_tri : Tristate
  pub curr_val : Bytes
  pub def_tri : Tristate
  pub visible : Tristate
  pub rev_dep : Tristate
  pub implied : Tristate
  pub flags : Flags

-- All symbols, by address, and `modules_sym`.
pub record Table : Type 0 where
  pub at : SymbolId → Symbol
  pub modules_sym : SymbolId

-- The fields of a symbol with everything clear, as `memset` leaves it.
abbrev pub no_flags : Flags
no_flags = record { is_const = false; choice = false; choice_val = false; def_user = false }

-- The shape of `symbol_yes`, `symbol_mod` and `symbol_no`: constants of type S_UNKNOWN.
abbrev pub constant : Bytes → Tristate → Symbol
constant name tri = record {
  name = some name;
  type = unknown;
  curr_tri = tri;
  curr_val = name;
  def_tri = tri_no;
  visible = tri_no;
  rev_dep = tri_no;
  implied = tri_no;
  flags = record no_flags { is_const = true };
}

-- A tree of symbols, comparisons and operators: what stands under `depends on`, `if` and prompts.
pub data IsLogical : Expr → Type 0 where
  leaf : {s : SymbolId} → IsLogical (symbol s)
  negation : {e : Expr} → IsLogical e → IsLogical (not e)
  conjunction : {l r : Expr} → IsLogical l → IsLogical r → IsLogical (and l r)
  disjunction : {l r : Expr} → IsLogical l → IsLogical r → IsLogical (or l r)
  comparison : {k : Relation} {s t : SymbolId} → IsLogical (comp k s t)

unfoldable pub size : Expr → ℕ
size (symbol _) = 1
size (not e) = suc (size e)
size (and l r) = suc (size l + size r)
size (or l r) = suc (size l + size r)
size (comp _ _ _) = 1
size (list _) = 1
size (range _ _) = 1
