-- ===== src/Config/EliminateYn/Reduced.antt =====
-- What is left after the constants are dropped.
use dir842v2_gpl.Common.{◌≡◌, arith, false, ◌≤◌}
use dir842v2_gpl.Config.EliminateYn.{is_symbol, reduce_and, reduce_or, expr_eliminate_yn}
use dir842v2_gpl.Config.Types.{
  IsLogical, leaf, negation, conjunction, disjunction, comparison, symbol_no, symbol_yes, Expr, and,
  or, size,
}

-- Neither `y` nor `n`.
abbrev pub IsOpen : Expr → Type 0
IsOpen e = (is_symbol symbol_no e ≡ false) × (is_symbol symbol_yes e ≡ false)

-- No `y` and no `n` is an operand of the operators that are reached without crossing a `!`.
abbrev pub IsReduced : Expr → Type 0
IsReduced (and l r) = IsOpen l × IsReduced l × IsOpen r × IsReduced r
IsReduced (or l r) = IsOpen l × IsReduced l × IsOpen r × IsReduced r
IsReduced _ = Unit

reduce_and-IsReduced : (l r : Expr) → IsReduced l → IsReduced r → IsReduced (reduce_and l r)
unfolding reduce_and
reduce_and-IsReduced l r hl hr = ground arith

reduce_or-IsReduced : (l r : Expr) → IsReduced l → IsReduced r → IsReduced (reduce_or l r)
unfolding reduce_or
reduce_or-IsReduced l r hl hr = ground arith

-- After expr_eliminate_yn no `y` and no `n` is left as an operand of a `&&` or `||` that is
-- reached from the root through such operators.
pub eliminate_yn-IsReduced : (e : Expr) → IsReduced (expr_eliminate_yn e)
unfolding expr_eliminate_yn
eliminate_yn-IsReduced (and l r) =
    reduce_and-IsReduced _ _ (eliminate_yn-IsReduced l) (eliminate_yn-IsReduced r)
eliminate_yn-IsReduced (or l r) =
    reduce_or-IsReduced _ _ (eliminate_yn-IsReduced l) (eliminate_yn-IsReduced r)
eliminate_yn-IsReduced _ = tt

size-reduce_and-le : (l r : Expr) → size (reduce_and l r) ≤ size (and l r)
unfolding reduce_and size
size-reduce_and-le l r = ground arith

size-reduce_or-le : (l r : Expr) → size (reduce_or l r) ≤ size (or l r)
unfolding reduce_or size
size-reduce_or-le l r = ground arith

-- expr_eliminate_yn never makes a tree larger.
pub size-eliminate_yn-le : (e : Expr) → size (expr_eliminate_yn e) ≤ size e
unfolding size expr_eliminate_yn
size-eliminate_yn-le (and l r) = omega (
  arith,
  size-reduce_and-le (expr_eliminate_yn l) (expr_eliminate_yn r),
  size-eliminate_yn-le l,
  size-eliminate_yn-le r,
)
size-eliminate_yn-le (or l r) = omega (
  arith,
  size-reduce_or-le (expr_eliminate_yn l) (expr_eliminate_yn r),
  size-eliminate_yn-le l,
  size-eliminate_yn-le r,
)
size-eliminate_yn-le _ = omega arith

reduce_and-IsLogical : {l r : Expr} → IsLogical l → IsLogical r → IsLogical (reduce_and l r)
unfolding reduce_and
reduce_and-IsLogical h k = ground (arith, leaf {s = symbol_no}, conjunction h k)

reduce_or-IsLogical : {l r : Expr} → IsLogical l → IsLogical r → IsLogical (reduce_or l r)
unfolding reduce_or
reduce_or-IsLogical h k = ground (arith, leaf {s = symbol_yes}, disjunction h k)

-- A tree of symbols, comparisons and operators stays one.
pub eliminate_yn-IsLogical : {e : Expr} → IsLogical e → IsLogical (expr_eliminate_yn e)
unfolding expr_eliminate_yn
eliminate_yn-IsLogical leaf = leaf
eliminate_yn-IsLogical (negation h) = negation h
eliminate_yn-IsLogical (conjunction h k) =
    reduce_and-IsLogical (eliminate_yn-IsLogical h) (eliminate_yn-IsLogical k)
eliminate_yn-IsLogical (disjunction h k) =
    reduce_or-IsLogical (eliminate_yn-IsLogical h) (eliminate_yn-IsLogical k)
eliminate_yn-IsLogical comparison = comparison
