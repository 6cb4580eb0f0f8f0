-- ===== src/Config/Compare/Laws.antt =====
-- What the expression of expr_trans_compare says.
use dir842v2_gpl.Common.{
  ◌-◌, ◌∙◌, ◌≡◌, ◌≢◌, ◌⊎◌, inl, inr, refl, arith, Bool, true, false, Option, none, some, ◌==◌,
  if◌then◌else◌,
}
use Prim.Native.Nat.{Ordering}
use dir842v2_gpl.Config.Types.{
  leq, geq, lth, gth, expr_and-min, expr_or-max, Tristate, tri_no, tri_mod, tri_yes, SymbolId,
  symbol_no, symbol_yes, Relation, Expr, symbol, not, and, or, comp, Table, equal, unequal,
}
use dir842v2_gpl.Config.Valid.{IsValid}
use dir842v2_gpl.Config.Value.{relation_value, expr_calc_value, compare_symbols, verdict}
use dir842v2_gpl.Config.Value.Constants.{IsSwitch, calc-equal, calc-unequal}
use dir842v2_gpl.Config.Compare.{wrap, rebuild, flip, expr_trans_compare}

-- Operators over comparisons and over bool or tristate symbols that are not `m`.
pub data IsSettled (t : Table) : Expr → Type 0 where
  leaf :
      {s : SymbolId} → IsSwitch (t.at s).type → (t.at s).curr_tri ≢ tri_mod → IsSettled t (symbol s)
  negation : {e : Expr} → IsSettled t e → IsSettled t (not e)
  conjunction : {l r : Expr} → IsSettled t l → IsSettled t r → IsSettled t (and l r)
  disjunction : {l r : Expr} → IsSettled t l → IsSettled t r → IsSettled t (or l r)
  comparison : {k : Relation} {a b : SymbolId} → IsSettled t (comp k a b)

abbrev pub truth : Bool → Tristate
truth true = tri_yes
truth false = tri_no

-- Whether the value compares as asked.
abbrev pub holds : Bool → Tristate → SymbolId → Bool
holds unequally v s = if unequally then flip (v == s) else v == s

IsTruth : Tristate → Type 0
IsTruth v = (v ≡ tri_no) ⊎ (v ≡ tri_yes)

relation-IsTruth : (k : Relation) (o : Ordering) → IsTruth (relation_value k o)
unfolding IsTruth relation_value
relation-IsTruth equal Ordering.lt = inl refl
relation-IsTruth equal Ordering.eq = inr refl
relation-IsTruth equal Ordering.gt = inl refl
relation-IsTruth geq Ordering.lt = inl refl
relation-IsTruth geq Ordering.eq = inr refl
relation-IsTruth geq Ordering.gt = inr refl
relation-IsTruth gth Ordering.lt = inl refl
relation-IsTruth gth Ordering.eq = inl refl
relation-IsTruth gth Ordering.gt = inr refl
relation-IsTruth leq Ordering.lt = inr refl
relation-IsTruth leq Ordering.eq = inr refl
relation-IsTruth leq Ordering.gt = inl refl
relation-IsTruth lth Ordering.lt = inr refl
relation-IsTruth lth Ordering.eq = inl refl
relation-IsTruth lth Ordering.gt = inl refl
relation-IsTruth unequal Ordering.lt = inr refl
relation-IsTruth unequal Ordering.eq = inl refl
relation-IsTruth unequal Ordering.gt = inr refl

ordered-IsTruth : (k : Relation) (o : Option Ordering) → IsTruth (verdict k o)
unfolding IsTruth verdict
ordered-IsTruth k none = inl refl
ordered-IsTruth k (some o) = relation-IsTruth k o

verdict-IsTruth :
    (t : Table) (k : Relation) (a b : SymbolId) → IsTruth (expr_calc_value t (comp k a b))
unfolding expr_calc_value
verdict-IsTruth t k a b = ordered-IsTruth k (compare_symbols t k a b)

calc-IsTruth : (t : Table) {e : Expr} → IsValid t → IsSettled t e → IsTruth (expr_calc_value t e)
unfolding expr_calc_value IsTruth
calc-IsTruth t v (leaf {s} k n) = grind (arith, v.le_yes s)
calc-IsTruth t v (negation p) = grind (arith, calc-IsTruth t v p)
calc-IsTruth t v (conjunction {l} {r} p q) = grind (
  arith,
  calc-IsTruth t v p,
  calc-IsTruth t v q,
  expr_and-min (expr_calc_value t l) (expr_calc_value t r),
)
calc-IsTruth t v (disjunction {l} {r} p q) = grind (
  arith,
  calc-IsTruth t v p,
  calc-IsTruth t v q,
  expr_or-max (expr_calc_value t l) (expr_calc_value t r),
)
calc-IsTruth t v (comparison {k} {a} {b}) = verdict-IsTruth t k a b

-- The constants `n` and `y`.
abbrev target : Bool → SymbolId
target false = symbol_no
target true = symbol_yes

Compares : Table → Expr → Bool → SymbolId → Type 0
Compares t e unequally s =
    (r : Expr) × (expr_trans_compare e unequally s ≡ some r)
    × (expr_calc_value t r ≡ truth (holds unequally (expr_calc_value t e) s))

calc-wrap :
    (t : Table) (u b : Bool) (e : Expr)
    → expr_calc_value t e ≡ truth b
    → expr_calc_value t (wrap u e) ≡ truth (if u then flip b else b)
unfolding expr_calc_value
calc-wrap t u b e h = ground (arith, h)

calc-conjunction :
    (t : Table) (b : Bool) (l r e1 e2 : Expr)
    → IsTruth (expr_calc_value t l)
    → IsTruth (expr_calc_value t r)
    → expr_calc_value t e1 ≡ truth (holds false (expr_calc_value t l) (target b))
    → expr_calc_value t e2 ≡ truth (holds false (expr_calc_value t r) (target b))
    → expr_calc_value t (rebuild (target b) (and l r) (and e1 e2) (or e1 e2))
      ≡ truth (holds false (expr_calc_value t (and l r)) (target b))
unfolding expr_calc_value IsTruth
calc-conjunction t true l r e1 e2 p q x y = grind (arith, expr_and-min, expr_or-max)
calc-conjunction t false l r e1 e2 p q x y = grind (arith, expr_and-min, expr_or-max)

calc-disjunction :
    (t : Table) (b : Bool) (l r e1 e2 : Expr)
    → IsTruth (expr_calc_value t l)
    → IsTruth (expr_calc_value t r)
    → expr_calc_value t e1 ≡ truth (holds false (expr_calc_value t l) (target b))
    → expr_calc_value t e2 ≡ truth (holds false (expr_calc_value t r) (target b))
    → expr_calc_value t (rebuild (target b) (or l r) (or e1 e2) (and e1 e2))
      ≡ truth (holds false (expr_calc_value t (or l r)) (target b))
unfolding expr_calc_value IsTruth
calc-disjunction t true l r e1 e2 p q x y = grind (arith, expr_and-min, expr_or-max)
calc-disjunction t false l r e1 e2 p q x y = grind (arith, expr_and-min, expr_or-max)

holds-negation :
    (u b : Bool) (x : Tristate)
    → IsTruth x
    → truth (holds (flip u) x (target b)) ≡ truth (holds u (2 - x) (target b))
unfolding IsTruth
holds-negation true true x h = grind arith
holds-negation true false x h = grind arith
holds-negation false true x h = grind arith
holds-negation false false x h = grind arith

trans_compare_comparison :
    (t : Table) (k : Relation) (a c : SymbolId) (u b : Bool)
    → IsTruth (expr_calc_value t (comp k a c))
    → Compares t (comp k a c) u (target b)
unfolding Compares expr_trans_compare expr_calc_value IsTruth
trans_compare_comparison t k a c true true h = (not (comp k a c), refl, grind arith)
trans_compare_comparison t k a c true false h = (comp k a c, refl, grind arith)
trans_compare_comparison t k a c false true h = (comp k a c, refl, grind arith)
trans_compare_comparison t k a c false false h = (not (comp k a c), refl, grind arith)

trans_compare_settled :
    (t : Table) {e : Expr} (u b : Bool) → IsValid t → IsSettled t e → Compares t e u (target b)
unfolding Compares expr_trans_compare expr_calc_value
trans_compare_settled t u b v (leaf {s} k n) = (
  comp (if u then unequal else equal) s (target b),
  refl,
  ground (arith, calc-equal t v s (target b) k, calc-unequal t v s (target b) k),
)
trans_compare_settled t u b v (negation {e} p) =
    let r = trans_compare_settled t (flip u) b v p in
    (r.0, r.1, r.2 ∙ holds-negation u b (expr_calc_value t e) (calc-IsTruth t v p))
trans_compare_settled t u b v (conjunction {l} {r} p q) =
    let x = trans_compare_settled t false b v p in
    let y = trans_compare_settled t false b v q in
    (
      wrap u (rebuild (target b) (and l r) (and x.0 y.0) (or x.0 y.0)),
      rw (x.1, y.1) refl,
      calc-wrap t u _ _
          (calc-conjunction t b l r x.0 y.0 (calc-IsTruth t v p) (calc-IsTruth t v q) x.2 y.2),
    )
trans_compare_settled t u b v (disjunction {l} {r} p q) =
    let x = trans_compare_settled t false b v p in
    let y = trans_compare_settled t false b v q in
    (
      wrap u (rebuild (target b) (or l r) (or x.0 y.0) (and x.0 y.0)),
      rw (x.1, y.1) refl,
      calc-wrap t u _ _
          (calc-disjunction t b l r x.0 y.0 (calc-IsTruth t v p) (calc-IsTruth t v q) x.2 y.2),
    )
trans_compare_settled t u b v (comparison {k} {a} {b = c}) =
    trans_compare_comparison t k a c u b (verdict-IsTruth t k a c)

-- Over a valid table, expr_trans_compare turns an expression, in which every symbol outside a
-- comparison is a bool or tristate that is not `m`, and the constant `n` or `y` into an expression
-- that is `y` where the value of the first compares with the constant as asked, and `n` where it
-- does not.
pub expr_trans_compare_sound :
    (t : Table) (e : Expr) (unequally : Bool) (s : SymbolId)
    → IsValid t
    → s ≡ symbol_no ⊎ s ≡ symbol_yes
    → IsSettled t e
    → (r : Expr) × (expr_trans_compare e unequally s ≡ some r)
      × (expr_calc_value t r ≡ truth (holds unequally (expr_calc_value t e) s))
unfolding Compares
expr_trans_compare_sound t e u s v h p = elim h [
  | inl q ↦ rw q (trans_compare_settled t u false v p)
  | inr q ↦ rw q (trans_compare_settled t u true v p)
]
