-- ===== src/Config/Valid/Bounds.antt =====
-- The value of an expression over a valid table is a tristate.
use dir842v2_gpl.Common.{◌≤◌, arith, none, some, Option}
use Prim.Native.Nat.{Ordering}
use dir842v2_gpl.Config.Types.{
  tri_yes, Relation, equal, Expr, symbol, not, and, or, comp, Table, tristate_laws,
}
use dir842v2_gpl.Config.Valid.{IsValid}
use dir842v2_gpl.Config.Value.{expr_calc_value, relation_value, verdict, compare_symbols}

relation_value-le-yes : (rel : Relation) (o : Ordering) → relation_value rel o ≤ tri_yes
unfolding relation_value
relation_value-le-yes equal o = ground arith
relation_value-le-yes _ o = ground arith

verdict-le-yes : (rel : Relation) (o : Option Ordering) → verdict rel o ≤ tri_yes
unfolding verdict
verdict-le-yes rel none = omega arith
verdict-le-yes rel (some o) = relation_value-le-yes rel o

pub calc-le-yes : (t : Table) → IsValid t → (e : Expr) → expr_calc_value t e ≤ tri_yes
unfolding expr_calc_value
calc-le-yes t v (symbol s) = v.le_yes s
calc-le-yes t v (and l r) = omega (tristate_laws, calc-le-yes t v l)
calc-le-yes t v (or l r) = omega (tristate_laws, calc-le-yes t v l, calc-le-yes t v r)
calc-le-yes t v (not e) = omega arith
calc-le-yes t v (comp rel a b) = verdict-le-yes rel (compare_symbols t rel a b)
calc-le-yes t v _ = omega arith
