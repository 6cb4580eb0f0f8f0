-- ===== src/Config/Transform.antt =====
-- expr_transform of package/config/expr.c. `none` is the bound on the depth of calls used up, or a
-- range, on which the code would take a symbol for a node.
pub mod Bound
pub mod Normal
pub mod Meaning
use dir842v2_gpl.Common.{
  ℕ, zero, suc, ◌+◌, ◌*◌, Bool, true, false, Option, none, some, ◌==◌, if◌then◌else◌, ◌>>=◌,
}
use dir842v2_gpl.Config.Types.{
  SymbolId, symbol_no, symbol_mod, symbol_yes, Relation, equal, unequal, lth, leq, gth, geq, Expr,
  symbol, not, and, or, comp, list, range, SymbolType, boolean, Table,
}

abbrev pub is_boolean : SymbolType → Bool
is_boolean boolean = true
is_boolean _ = false

-- The cases E_EQUAL and E_UNEQUAL of the second switch.
transform_equal : Table → SymbolId → SymbolId → Expr
transform_equal t s r =
    if is_boolean (t.at s).type
    then if r == symbol_no
      then not (symbol s)
      else if r == symbol_mod
      then symbol symbol_no
      else if r == symbol_yes
      then symbol s
      else comp equal s r
    else comp equal s r

transform_unequal : Table → SymbolId → SymbolId → Expr
transform_unequal t s r =
    if is_boolean (t.at s).type
    then if r == symbol_no
      then symbol s
      else if r == symbol_mod
      then symbol symbol_yes
      else if r == symbol_yes
      then not (symbol s)
      else comp unequal s r
    else comp unequal s r

transform_comp : Table → Relation → SymbolId → SymbolId → Expr
transform_comp t equal s r = transform_equal t s r
transform_comp t unequal s r = transform_unequal t s r
transform_comp t k s r = comp k s r

-- The comparison that is left of a negated one.
negated : Relation → Relation
negated equal = unequal
negated unequal = equal
negated leq = gth
negated geq = lth
negated lth = geq
negated gth = leq

not_symbol : SymbolId → Expr
not_symbol s =
    if s == symbol_yes
    then symbol symbol_no
    else if s == symbol_mod
    then symbol symbol_mod
    else if s == symbol_no
    then symbol symbol_yes
    else not (symbol s)

-- The case E_NOT, on the operand that has been transformed; `again` is the call on what the rule
-- makes of it.
transform_not : (Expr → Option Expr) → Expr → Option Expr
unfolding negated not_symbol
transform_not again (not e) = again e
transform_not again (comp k s r) = some (comp (negated k) s r)
transform_not again (or a b) = again (and (not a) (not b))
transform_not again (and a b) = again (or (not a) (not b))
transform_not again (symbol s) = some (not_symbol s)
transform_not again (list l) = some (not (list l))
transform_not again (range a b) = some (not (range a b))

pub transform_within : ℕ → Table → Expr → Option Expr
unfolding transform_not transform_comp transform_equal transform_unequal
transform_within zero t e = none
transform_within (suc f) t (symbol s) = some (symbol s)
transform_within (suc f) t (list l) = some (list l)
transform_within (suc f) t (range _ _) = none
transform_within (suc f) t (comp k s r) = some (transform_comp t k s r)
transform_within (suc f) t (and l r) = do
  tl ← transform_within f t l
  tr ← transform_within f t r
  some (and tl tr)
transform_within (suc f) t (or l r) = do
  tl ← transform_within f t l
  tr ← transform_within f t r
  some (or tl tr)
transform_within (suc f) t (not e) = do
  te ← transform_within f t e
  transform_not (transform_within f t) te

-- What no rule makes larger: a negation counts its operand twice.
unfoldable pub weight : Expr → ℕ
weight (symbol _) = 1
weight (comp _ _ _) = 2
weight (not e) = 2 * weight e
weight (and l r) = suc (weight l + weight r)
weight (or l r) = suc (weight l + weight r)
weight (list _) = 1
weight (range _ _) = 1

unfoldable pub expr_transform : Table → Expr → Option Expr
unfolding transform_within
expr_transform t e = transform_within (weight e) t e
