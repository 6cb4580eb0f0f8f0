-- ===== src/Config/Query.antt =====
-- The small functions of package/config/expr.c: expr_alloc_and, expr_alloc_or, expr_trans_bool,
-- expr_contains_symbol and expr_depends_symbol.
pub mod Laws
pub mod Frame
pub mod Tests
use dir842v2_gpl.Common.{Bool, true, false, ◌&&◌, ◌||◌, Option, none, some, ◌==◌, if◌then◌else◌}
use dir842v2_gpl.Config.Types.{
  SymbolId, symbol_no, symbol_mod, symbol_yes, Relation, equal, unequal, Expr, symbol, not, and, or,
  comp, list, range, SymbolType, tristate, Table,
}

unfoldable pub expr_alloc_and : Option Expr → Option Expr → Option Expr
expr_alloc_and none e2 = e2
expr_alloc_and (some e1) (some e2) = some (and e1 e2)
expr_alloc_and (some e1) none = some e1

pub expr_alloc_or : Option Expr → Option Expr → Option Expr
expr_alloc_or none e2 = e2
expr_alloc_or (some e1) (some e2) = some (or e1 e2)
expr_alloc_or (some e1) none = some e1

abbrev pub is_tristate : SymbolType → Bool
is_tristate tristate = true
is_tristate _ = false

-- FOO!=n becomes FOO.
unfoldable pub expr_trans_bool : Table → Expr → Expr
expr_trans_bool t (and l r) = and (expr_trans_bool t l) (expr_trans_bool t r)
expr_trans_bool t (or l r) = or (expr_trans_bool t l) (expr_trans_bool t r)
expr_trans_bool t (not e) = not (expr_trans_bool t e)
expr_trans_bool t (comp unequal s r) =
    if is_tristate (t.at s).type && r == symbol_no then symbol s else comp unequal s r
expr_trans_bool t e = e

unfoldable pub expr_contains_symbol : Expr → SymbolId → Bool
expr_contains_symbol (and l r) s = expr_contains_symbol l s || expr_contains_symbol r s
expr_contains_symbol (or l r) s = expr_contains_symbol l s || expr_contains_symbol r s
expr_contains_symbol (symbol x) s = x == s
expr_contains_symbol (comp _ a b) s = a == s || b == s
expr_contains_symbol (not e) s = expr_contains_symbol e s
expr_contains_symbol _ s = false

unfoldable pub expr_depends_symbol : Expr → SymbolId → Bool
expr_depends_symbol (and l r) s = expr_depends_symbol l s || expr_depends_symbol r s
expr_depends_symbol (symbol x) s = x == s
expr_depends_symbol (comp equal a b) s = a == s && (b == symbol_yes || b == symbol_mod)
expr_depends_symbol (comp unequal a b) s = a == s && b == symbol_no
expr_depends_symbol _ s = false
