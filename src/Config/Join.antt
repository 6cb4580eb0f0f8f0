-- ===== src/Config/Join.antt =====
-- expr_join_or and expr_join_and of package/config/expr.c: two operands of a `||` or a `&&` that
-- can be said in one. The outer option is that of expr_eq; the inner one is NULL, where the code
-- finds nothing to join.
pub mod Operands
pub mod Or
pub mod And
use dir842v2_gpl.Common.{
  ℕ, Bool, true, false, ◌&&◌, ◌||◌, Option, none, some, ◌==◌, if◌then◌else◌, ◌>>=◌,
}
use dir842v2_gpl.Config.EliminateEq.{expr_copy, expr_eq}
use dir842v2_gpl.Config.Types.{
  SymbolId, symbol_no, symbol_mod, symbol_yes, equal, unequal, Expr, symbol, not, and, or, comp,
  list, range, SymbolType, boolean, tristate, Table,
}

-- `e->type == E_EQUAL && e->right.sym == r`, and the same for E_UNEQUAL.
pub is_equal : SymbolId → Expr → Bool
is_equal r (comp equal _ x) = x == r
is_equal r _ = false

pub is_unequal : SymbolId → Expr → Bool
is_unequal r (comp unequal _ x) = x == r
is_unequal r _ = false

-- `e->type == E_SYMBOL`, and a E_NOT above one.
pub is_any_symbol : Expr → Bool
is_any_symbol (symbol _) = true
is_any_symbol _ = false

pub is_not_symbol : Expr → Bool
is_not_symbol (not (symbol _)) = true
is_not_symbol _ = false

-- `sym1`: the symbol that the first operand is about, if its type is one of those that are joined.
pub first_symbol : Expr → Option SymbolId
first_symbol (symbol s) = some s
first_symbol (comp equal s _) = some s
first_symbol (comp unequal s _) = some s
first_symbol (not (symbol s)) = some s
first_symbol (not (comp equal s _)) = some s
first_symbol (not (comp unequal s _)) = some s
first_symbol _ = none

-- `sym2`: under a `!` only a symbol will do.
pub second_symbol : Expr → Option SymbolId
second_symbol (symbol s) = some s
second_symbol (comp equal s _) = some s
second_symbol (comp unequal s _) = some s
second_symbol (not (symbol s)) = some s
second_symbol _ = none

-- The two operands pass `p` and `q`, in one order or the other.
abbrev pub either_way : (Expr → Bool) → (Expr → Bool) → Expr → Expr → Bool
either_way p q e1 e2 = (p e1 && q e2) || (q e1 && p e2)

pub or_tristate : SymbolId → Expr → Expr → Option Expr
or_tristate s e1 e2 =
    if either_way (is_equal symbol_yes) (is_equal symbol_mod) e1 e2
    then some (comp unequal s symbol_no)
    else if either_way (is_equal symbol_yes) (is_equal symbol_no) e1 e2
    then some (comp unequal s symbol_mod)
    else if either_way (is_equal symbol_mod) (is_equal symbol_no) e1 e2
    then some (comp unequal s symbol_yes)
    else none

pub or_boolean : Expr → Expr → Option Expr
or_boolean e1 e2 =
    if either_way is_not_symbol is_any_symbol e1 e2 then some (symbol symbol_yes) else none

or_rules : SymbolType → SymbolId → Expr → Expr → Option Expr
or_rules boolean s e1 e2 = or_boolean e1 e2
or_rules tristate s e1 e2 = or_tristate s e1 e2
or_rules _ s e1 e2 = none

-- The checks on `sym1` and `sym2` that both functions begin with.
pub on_one_symbol :
    (SymbolType → SymbolId → Expr → Expr → Option Expr) → Table → Expr → Expr → Option Expr
on_one_symbol rules t e1 e2 = do
  sym1 ← first_symbol e1
  sym2 ← second_symbol e2
  if sym1 == sym2 then rules (t.at sym1).type sym1 e1 e2 else none

unfoldable pub expr_join_or : Table → Expr → Expr → Option (Option Expr)
unfolding on_one_symbol or_rules first_symbol second_symbol or_boolean or_tristate is_equal
    is_any_symbol is_not_symbol expr_copy
expr_join_or t e1 e2 = do
  same ← expr_eq e1 e2
  some (if same then expr_copy e1 else on_one_symbol or_rules t e1 e2)

-- The rules that hold for bool and tristate symbols alike.
pub and_switch : SymbolId → Expr → Expr → Option Expr
and_switch s e1 e2 =
    if either_way is_any_symbol (is_equal symbol_yes) e1 e2
    then some (comp equal s symbol_yes)
    else if either_way is_any_symbol (is_unequal symbol_no) e1 e2
    then some (symbol s)
    else if either_way is_any_symbol (is_unequal symbol_mod) e1 e2
    then some (comp equal s symbol_yes)
    else none

-- `(a='b') && (a!='c')` for two constants.
equal_unequal : Table → SymbolId → SymbolId → SymbolId → Option Expr
equal_unequal t s b c =
    if (t.at c).flags.is_const && (t.at b).flags.is_const
    then some (if b == c then symbol symbol_no else comp equal s b)
    else none

pub and_constants : Table → SymbolId → Expr → Expr → Option Expr
unfolding equal_unequal
and_constants t s (comp equal _ b) (comp unequal _ c) = equal_unequal t s b c
and_constants t s (comp unequal _ c) (comp equal _ b) = equal_unequal t s b c
and_constants t s _ _ = none

pub and_unequals : SymbolId → Expr → Expr → Option Expr
and_unequals s e1 e2 =
    if either_way (is_unequal symbol_yes) (is_unequal symbol_no) e1 e2
    then some (comp equal s symbol_mod)
    else if either_way (is_unequal symbol_yes) (is_unequal symbol_mod) e1 e2
    then some (comp equal s symbol_no)
    else if either_way (is_unequal symbol_mod) (is_unequal symbol_no) e1 e2
    then some (comp equal s symbol_yes)
    else none

-- The first rule that gives an expression.
pub or_else : Option Expr → Option Expr → Option Expr
or_else (some e) _ = some e
or_else none o = o

and_rules : Table → SymbolType → SymbolId → Expr → Expr → Option Expr
and_rules t boolean s e1 e2 = and_switch s e1 e2
and_rules t tristate s e1 e2 =
    or_else (and_switch s e1 e2) (or_else (and_constants t s e1 e2) (and_unequals s e1 e2))
and_rules t _ s e1 e2 = none

unfoldable pub expr_join_and : Table → Expr → Expr → Option (Option Expr)
unfolding on_one_symbol and_rules first_symbol second_symbol and_switch and_constants and_unequals
    or_else is_equal is_unequal is_any_symbol expr_copy
expr_join_and t e1 e2 = do
  same ← expr_eq e1 e2
  some (if same then expr_copy e1 else on_one_symbol (and_rules t) t e1 e2)
