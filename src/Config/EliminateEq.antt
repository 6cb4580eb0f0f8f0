-- ===== src/Config/EliminateEq.antt =====
-- expr_copy, __expr_eliminate_eq, expr_eliminate_eq and expr_eq of package/config/expr.c.
-- The two trees are rewritten in place and do not share a node, so a step returns both. `none` is
-- a NULL that is dereferenced, or the bound on the depth of expr_eq used up.
pub mod Meaning
pub mod Sound
pub mod Rounds
pub mod Total
use dir842v2_gpl.Common.{
  ℕ, zero, suc, ◌+◌, Bool, true, false, ◌&&◌, ◌||◌, Option, none, some, ◌==◌, if◌then◌else◌, ◌>>=◌,
}
use dir842v2_gpl.Config.EliminateYn.{expr_eliminate_yn}
use dir842v2_gpl.Config.Types.{
  SymbolId, symbol_no, symbol_yes, Relation, equal, unequal, lth, leq, gth, geq, Expr, symbol, not,
  and, or, comp, list, range, size,
}

-- A range is the `default` case, which gives NULL. On a list the code would copy a symbol as if it
-- were a node. Above a NULL operand there is no tree.
unfoldable pub expr_copy : Expr → Option Expr
expr_copy (symbol s) = some (symbol s)
expr_copy (not e) = do c ← expr_copy e; some (not c)
expr_copy (comp rel s1 s2) = some (comp rel s1 s2)
expr_copy (and l r) = do cl ← expr_copy l; cr ← expr_copy r; some (and cl cr)
expr_copy (or l r) = do cl ← expr_copy l; cr ← expr_copy r; some (or cl cr)
expr_copy (list _) = none
expr_copy (range _ _) = none

-- The values E_OR and E_AND of the parameter `type`.
pub data Operator : Type 0 where
  op_or op_and : Operator

-- The two trees and the global `trans_count`.
pub record Pair : Type 0 where
  pub left : Expr
  pub right : Expr
  pub trans_count : ℕ

abbrev pub neutral : Operator → Expr
neutral op_or = symbol symbol_no
neutral op_and = symbol symbol_yes

-- Both are the symbol `y`, or both `n`.
same_constant : Expr → Expr → Bool
same_constant (symbol a) (symbol b) = a == b && (a == symbol_yes || a == symbol_no)
same_constant _ _ = false

module _ (eq : Expr → Expr → Option Bool) where
  -- Two leaves.
  pub eliminate_leaves : Operator → Expr → Expr → ℕ → Option Pair
  unfolding same_constant
  eliminate_leaves op e1 e2 n =
      let kept : Pair = record { left = e1; right = e2; trans_count = n } in
      if same_constant e1 e2 then some kept else do
        same ← eq e1 e2
        some (
            if same
            then record { left = neutral op; right = neutral op; trans_count = n + 1 }
            else kept)

  -- `e1` is a leaf, and stays one: its place holds `e1` or a symbol.
  pub eliminate_leaf : Operator → Expr → Expr → ℕ → Option Pair
  eliminate_leaf op_and e1 (and l r) n = do
    p ← eliminate_leaf op_and e1 l n
    q ← eliminate_leaf op_and p.left r p.trans_count
    some (record { left = q.left; right = and p.right q.right; trans_count = q.trans_count })
  eliminate_leaf op_or e1 (or l r) n = do
    p ← eliminate_leaf op_or e1 l n
    q ← eliminate_leaf op_or p.left r p.trans_count
    some (record { left = q.left; right = or p.right q.right; trans_count = q.trans_count })
  eliminate_leaf op e1 e2 n = eliminate_leaves op e1 e2 n

  -- __expr_eliminate_eq.
  pub eliminate_at : Operator → Expr → Expr → ℕ → Option Pair
  eliminate_at op_and (and l r) e2 n = do
    p ← eliminate_at op_and l e2 n
    q ← eliminate_at op_and r p.right p.trans_count
    some (record { left = and p.left q.left; right = q.right; trans_count = q.trans_count })
  eliminate_at op_or (or l r) e2 n = do
    p ← eliminate_at op_or l e2 n
    q ← eliminate_at op_or r p.right p.trans_count
    some (record { left = or p.left q.left; right = q.right; trans_count = q.trans_count })
  eliminate_at op e1 e2 n = eliminate_leaf op e1 e2 n

  -- The first switch, on `e1->type`.
  pub eliminate_first : Expr → Expr → ℕ → Option Pair
  eliminate_first (or l r) e2 n = eliminate_at op_or (or l r) e2 n
  eliminate_first (and l r) e2 n = eliminate_at op_and (and l r) e2 n
  eliminate_first e1 e2 n = some (record { left = e1; right = e2; trans_count = n })

  -- The second, on `e2->type`, if the types differ.
  pub eliminate_second : Expr → Expr → ℕ → Option Pair
  eliminate_second (or a b) (or l r) n =
      some (record { left = or a b; right = or l r; trans_count = n })
  eliminate_second (and a b) (and l r) n =
      some (record { left = and a b; right = and l r; trans_count = n })
  eliminate_second e1 (or l r) n = eliminate_at op_or e1 (or l r) n
  eliminate_second e1 (and l r) n = eliminate_at op_and e1 (and l r) n
  eliminate_second e1 e2 n = some (record { left = e1; right = e2; trans_count = n })

  -- expr_eliminate_eq on two trees that are not NULL.
  pub eliminate_eq_by : Expr → Expr → ℕ → Option Pair
  unfolding eliminate_first eliminate_second
  eliminate_eq_by e1 e2 n = do
    p ← eliminate_first e1 e2 n
    q ← eliminate_second p.left p.right p.trans_count
    some (record {
      left = expr_eliminate_yn q.left;
      right = expr_eliminate_yn q.right;
      trans_count = q.trans_count;
    })

abbrev pub same_relation : Relation → Relation → Bool
same_relation equal equal = true
same_relation unequal unequal = true
same_relation lth lth = true
same_relation leq leq = true
same_relation gth gth = true
same_relation geq geq = true
same_relation _ _ = false

-- Both are symbols, and the same one.
abbrev pub same_symbol : Expr → Expr → Bool
same_symbol (symbol a) (symbol b) = a == b
same_symbol _ _ = false

-- The cases E_AND and E_OR of expr_eq: `trans_count` is restored, so that any start will do.
eq_operands : (Expr → Expr → Option Bool) → Expr → Expr → Option Bool
unfolding eliminate_eq_by
eq_operands eq e1 e2 = do
  c1 ← expr_copy e1
  c2 ← expr_copy e2
  p ← eliminate_eq_by eq c1 c2 0
  some (same_symbol p.left p.right)

-- expr_eq, with a bound on the depth of its calls.
pub eq_within : ℕ → Expr → Expr → Option Bool
eq_within zero e1 e2 = none
eq_within (suc f) (comp k a b) (comp k' a' b') = some (same_relation k k' && a == a' && b == b')
eq_within (suc f) (symbol a) (symbol b) = some (a == b)
eq_within (suc f) (not a) (not b) = eq_within f a b
eq_within (suc f) (and a b) (and c d) = eq_operands (eq_within f) (and a b) (and c d)
eq_within (suc f) (or a b) (or c d) = eq_operands (eq_within f) (or a b) (or c d)
eq_within (suc f) _ _ = some false

-- Each call is on smaller trees: the two sizes bound the depth.
unfoldable pub expr_eq : Expr → Expr → Option Bool
unfolding eq_within eq_operands eliminate_eq_by eliminate_first eliminate_second eliminate_at
    eliminate_leaf eliminate_leaves expr_copy
expr_eq e1 e2 = eq_within (suc (size e1 + size e2)) e1 e2

unfoldable pub expr_eliminate_eq : Expr → Expr → ℕ → Option Pair
unfolding eliminate_eq_by eliminate_first eliminate_second eliminate_at eliminate_leaf
    eliminate_leaves expr_copy
expr_eliminate_eq e1 e2 n = eliminate_eq_by expr_eq e1 e2 n
