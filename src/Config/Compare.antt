-- ===== src/Config/Compare.antt =====
-- expr_trans_compare of package/config/expr.c, which puts a comparison with a symbol into an
-- expression. Its `type` is E_EQUAL or E_UNEQUAL, told apart by `unequally`. Lists and ranges,
-- marked as a panic there, and a comparison with a symbol other than the constants give NULL; an
-- expression with such a part has no result here.
pub mod Laws
mod Tests
use dir842v2_gpl.Common.{Bool, true, false, Option, none, some, ◌==◌, if◌then◌else◌, ◌>>=◌}
use dir842v2_gpl.Config.Types.{
  SymbolId, symbol_no, symbol_mod, symbol_yes, equal, unequal, Expr, symbol, not, and, or, comp,
  list, range,
}

abbrev pub wrap : Bool → Expr → Expr
wrap unequally e = if unequally then not e else e

-- The cases E_AND and E_OR, from the original and what was made for the constants.
abbrev pub rebuild : SymbolId → Expr → Expr → Expr → Expr
rebuild s original for_yes for_no =
    if s == symbol_yes then for_yes else if s == symbol_no then for_no else original

-- The comparisons.
abbrev pub compare_constant : Expr → Bool → SymbolId → Option Expr
compare_constant e unequally s =
    if s == symbol_yes
    then some (wrap unequally e)
    else if s == symbol_mod
    then some (symbol (if unequally then symbol_yes else symbol_no))
    else if s == symbol_no
    then some (if unequally then e else not e)
    else none

abbrev pub flip : Bool → Bool
flip true = false
flip false = true

unfoldable pub expr_trans_compare : Expr → Bool → SymbolId → Option Expr
expr_trans_compare (and l r) unequally s = do
  e1 ← expr_trans_compare l false s
  e2 ← expr_trans_compare r false s
  some (wrap unequally (rebuild s (and l r) (and e1 e2) (or e1 e2)))
expr_trans_compare (or l r) unequally s = do
  e1 ← expr_trans_compare l false s
  e2 ← expr_trans_compare r false s
  some (wrap unequally (rebuild s (or l r) (or e1 e2) (and e1 e2)))
expr_trans_compare (not e) unequally s = expr_trans_compare e (flip unequally) s
expr_trans_compare (comp k a b) unequally s = compare_constant (comp k a b) unequally s
expr_trans_compare (symbol x) unequally s = some (comp (if unequally then unequal else equal) x s)
expr_trans_compare (list _) unequally s = none
expr_trans_compare (range _ _) unequally s = none

-- With no expression: the symbol or its negation.
unfoldable pub trans_compare : Option Expr → Bool → SymbolId → Option Expr
trans_compare none unequally s = some (wrap unequally (symbol s))
trans_compare (some e) unequally s = expr_trans_compare e unequally s
