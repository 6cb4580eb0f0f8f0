-- ===== src/Config/EliminateYn.antt =====
-- expr_eliminate_yn of package/config/expr.c. It rewrites in place; the model returns the tree.
pub mod Meaning
pub mod Reduced
use dir842v2_gpl.Common.{Bool, false, ◌==◌, if◌then◌else◌}
use dir842v2_gpl.Config.Types.{
  SymbolId, symbol_no, symbol_yes, Expr, symbol, not, and, or, comp, list, range,
}

-- `e->type == E_SYMBOL && e->left.sym == s`.
unfoldable pub is_symbol : SymbolId → Expr → Bool
is_symbol s (symbol x) = x == s
is_symbol s _ = false

-- The case E_AND, once both operands are reduced.
unfoldable pub reduce_and : Expr → Expr → Expr
reduce_and l r =
    if is_symbol symbol_no l
    then symbol symbol_no
    else if is_symbol symbol_yes l
    then r
    else if is_symbol symbol_no r
    then symbol symbol_no
    else if is_symbol symbol_yes r
    then l
    else and l r

-- The case E_OR.
unfoldable pub reduce_or : Expr → Expr → Expr
reduce_or l r =
    if is_symbol symbol_no l
    then r
    else if is_symbol symbol_yes l
    then symbol symbol_yes
    else if is_symbol symbol_no r
    then l
    else if is_symbol symbol_yes r
    then symbol symbol_yes
    else or l r

unfoldable pub expr_eliminate_yn : Expr → Expr
expr_eliminate_yn (and l r) = reduce_and (expr_eliminate_yn l) (expr_eliminate_yn r)
expr_eliminate_yn (or l r) = reduce_or (expr_eliminate_yn l) (expr_eliminate_yn r)
expr_eliminate_yn e = e
