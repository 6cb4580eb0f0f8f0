-- ===== src/Config/EliminateEq/Total.antt =====
-- expr_eq and expr_eliminate_eq give an answer on every two trees of symbols, comparisons and
-- operators.
use dir842v2_gpl.Common.{
  ℕ, zero, suc, ◌+◌, ◌≡◌, refl, ◌≤◌, ◌<◌, arith, Bool, Option, some, >>=-eq-some,
  eq_of_some-eq_some,
}
use mathlib.Core.Path.{subst}
use dir842v2_gpl.Config.EliminateEq.{
  Operator, op_or, op_and, Pair, eliminate_at, eliminate_first, eliminate_second, same_symbol,
  eliminate_eq_by, eq_operands, eq_within, expr_eq, expr_eliminate_eq,
}
use dir842v2_gpl.Config.EliminateEq.Meaning.{node}
use dir842v2_gpl.Config.EliminateEq.Rounds.{
  expr_copy-logical, IsTotal, root, Ends, Ends-left, Ends-eliminate_at,
}
use dir842v2_gpl.Config.EliminateYn.{expr_eliminate_yn}
use dir842v2_gpl.Config.EliminateYn.Reduced.{size-eliminate_yn-le, eliminate_yn-IsLogical}
use dir842v2_gpl.Config.Types.{
  Expr, symbol, not, and, or, comp, size, IsLogical, negation, conjunction, disjunction,
}

-- A pair of trees comes out, of symbols, comparisons and operators again, and none larger.
abbrev pub Succeeds : Expr → Expr → Option Pair → Type 0
Succeeds e1 e2 o =
    (p : Pair) × (o ≡ some p)
    × IsLogical p.left
    × IsLogical p.right
    × (size p.left ≤ size e1)
    × (size p.right ≤ size e2)

Ends-Succeeds :
    {op : Operator} {e1 e2 : Expr} {o : Option Pair} → Ends op e1 e2 o → Succeeds e1 e2 o
Ends-Succeeds p = (p.result, p.ends, p.left_logical, p.right_logical, p.left_le, p.right_le)

IsLogical-node : (op : Operator) {l r : Expr} → IsLogical l → IsLogical r → IsLogical (node op l r)
IsLogical-node op_and h k = conjunction h k
IsLogical-node op_or h k = disjunction h k

module _ {eq : Expr → Expr → Option Bool} {k : ℕ} (total : IsTotal eq k) where
  -- At two equal roots the second switch does nothing.
  second_same :
      (op : Operator) (x y : Expr) (n : ℕ)
      → root x ≡ some op
      → root y ≡ some op
      → eliminate_second eq x y n ≡ some (record { left = x; right = y; trans_count = n })
  unfolding eliminate_second
  second_same op_and (and a b) (and l r) n hx hy = refl
  second_same op_or (or a b) (or l r) n hx hy = refl
  second_same _ _ _ n hx hy = cc

  left_root :
      (op : Operator) (l r e2 : Expr) (n : ℕ) {p : Pair}
      → eliminate_at eq op (node op l r) e2 n ≡ some p
      → root p.left ≡ some op
  unfolding eliminate_at
  left_root op_and l r e2 n h =
      let (p, hp, rest) = >>=-eq-some (eliminate_at eq op_and l e2 n) _ h in
      let (q, hq, made) = >>=-eq-some (eliminate_at eq op_and r p.right p.trans_count) _ rest in
      subst (λ (x : Pair). root x.left ≡ some op_and) (eq_of_some-eq_some made) refl
  left_root op_or l r e2 n h =
      let (p, hp, rest) = >>=-eq-some (eliminate_at eq op_or l e2 n) _ h in
      let (q, hq, made) = >>=-eq-some (eliminate_at eq op_or r p.right p.trans_count) _ rest in
      subst (λ (x : Pair). root x.left ≡ some op_or) (eq_of_some-eq_some made) refl

  -- There every leaf of the left tree is a proper part of it.
  Ends-root :
      (op : Operator) {l r : Expr} (e2 : Expr) (n : ℕ)
      → IsLogical l
      → IsLogical r
      → IsLogical e2
      → size l + size r + size e2 < k
      → Ends op (node op l r) e2 (eliminate_at eq op (node op l r) e2 n)
  unfolding eliminate_at
  Ends-root op_and {r} e2 n hl hr h2 hk =
      let p = Ends-eliminate_at total op_and e2 n hl h2 (omega arith) in
      Ends-left total op_and (λ p. eliminate_at eq op_and r p.right p.trans_count) p
        (Ends-eliminate_at total op_and p.result.right p.result.trans_count hr p.right_logical
          (omega (arith, p.right_le)))
  Ends-root op_or {r} e2 n hl hr h2 hk =
      let p = Ends-eliminate_at total op_or e2 n hl h2 (omega arith) in
      Ends-left total op_or (λ p. eliminate_at eq op_or r p.right p.trans_count) p
        (Ends-eliminate_at total op_or p.result.right p.result.trans_count hr p.right_logical
          (omega (arith, p.right_le)))

  first_root :
      (op : Operator) (l r e2 : Expr) (n : ℕ)
      → eliminate_first eq (node op l r) e2 n ≡ eliminate_at eq op (node op l r) e2 n
  unfolding eliminate_first
  first_root op_and l r e2 n = refl
  first_root op_or l r e2 n = refl

  eq_operands_total :
      (op : Operator) (l r e2 : Expr)
      → IsLogical l
      → IsLogical r
      → IsLogical e2
      → root e2 ≡ some op
      → size l + size r + size e2 < k
      → (b : Bool) × (eq_operands eq (node op l r) e2 ≡ some b)
  unfolding eq_operands eliminate_eq_by
  eq_operands_total op l r e2 hl hr h2 same hk =
      let p = Ends-root op e2 0 hl hr h2 hk in
      let c1 = expr_copy-logical (IsLogical-node op hl hr) in
      let second =
        second_same op p.result.left p.result.right p.result.trans_count
          (left_root op l r e2 0 p.ends) (p.right_root same) in
      (
        same_symbol (expr_eliminate_yn p.result.left) (expr_eliminate_yn p.result.right),
        rw (c1, expr_copy-logical h2, first_root op l r e2 0, p.ends, second),
      )

eq_within-IsTotal : (f : ℕ) → IsTotal (eq_within f) f
unfolding eq_within size
eq_within-IsTotal zero a b ha hb h = elim h [ ]
eq_within-IsTotal (suc f) (comp k a b) (comp k' a' b') ha hb h = (_, refl)
eq_within-IsTotal (suc f) (symbol a) (symbol b) ha hb h = (_, refl)
eq_within-IsTotal (suc f) (not a) (not b) (negation ha) (negation hb) h =
    eq_within-IsTotal f a b ha hb (omega arith)
eq_within-IsTotal (suc f) (and a b) (and c d) (conjunction ha hb) hc h =
    eq_operands_total (eq_within-IsTotal f) op_and a b (and c d) ha hb hc refl (omega arith)
eq_within-IsTotal (suc f) (or a b) (or c d) (disjunction ha hb) hc h =
    eq_operands_total (eq_within-IsTotal f) op_or a b (or c d) ha hb hc refl (omega arith)
eq_within-IsTotal (suc f) _ _ ha hb h = (_, refl)

-- expr_eq gives an answer on any two trees of symbols, comparisons and operators.
pub expr_eq_total : (a b : Expr) → IsLogical a → IsLogical b → (r : Bool) × (expr_eq a b ≡ some r)
unfolding expr_eq
expr_eq_total a b ha hb = eq_within-IsTotal (suc (size a + size b)) a b ha hb (omega arith)

module _ {eq : Expr → Expr → Option Bool} {k : ℕ} (total : IsTotal eq k) where
  Succeeds-first :
      {e1 : Expr} (e2 : Expr) (n : ℕ)
      → IsLogical e1
      → IsLogical e2
      → size e1 + size e2 < k
      → Succeeds e1 e2 (eliminate_first eq e1 e2 n)
  unfolding eliminate_first
  Succeeds-first e2 n (disjunction hl hr) h2 hk =
      Ends-Succeeds (Ends-eliminate_at total op_or e2 n (disjunction hl hr) h2 hk)
  Succeeds-first e2 n (conjunction hl hr) h2 hk =
      Ends-Succeeds (Ends-eliminate_at total op_and e2 n (conjunction hl hr) h2 hk)
  Succeeds-first e2 n h1 h2 hk = (_, refl, h1, h2, omega arith, omega arith)

  Succeeds-second :
      (e1 e2 : Expr) (n : ℕ)
      → IsLogical e1
      → IsLogical e2
      → size e1 + size e2 < k
      → Succeeds e1 e2 (eliminate_second eq e1 e2 n)
  unfolding eliminate_second
  Succeeds-second (or a b) (or l r) n h1 h2 hk = (_, refl, h1, h2, omega arith, omega arith)
  Succeeds-second (and a b) (and l r) n h1 h2 hk = (_, refl, h1, h2, omega arith, omega arith)
  Succeeds-second e1 (or l r) n h1 h2 hk =
      Ends-Succeeds (Ends-eliminate_at total op_or (or l r) n h1 h2 hk)
  Succeeds-second e1 (and l r) n h1 h2 hk =
      Ends-Succeeds (Ends-eliminate_at total op_and (and l r) n h1 h2 hk)
  Succeeds-second e1 e2 n h1 h2 hk = (_, refl, h1, h2, omega arith, omega arith)

-- On two trees of symbols, comparisons and operators expr_eliminate_eq succeeds, and neither tree
-- grows; both are again of that form.
pub expr_eliminate_eq_total :
    (e1 e2 : Expr) (n : ℕ)
    → IsLogical e1
    → IsLogical e2
    → Succeeds e1 e2 (expr_eliminate_eq e1 e2 n)
unfolding expr_eliminate_eq eliminate_eq_by
expr_eliminate_eq_total e1 e2 n h1 h2 =
    let total : IsTotal expr_eq (suc (size e1 + size e2)) =
      λ a b ha hb _. expr_eq_total a b ha hb in
    let (p, hp, pl, pr, pls, prs) = Succeeds-first total e2 n h1 h2 (omega arith) in
    let (q, hq, ql, qr, qls, qrs) =
      Succeeds-second total p.left p.right p.trans_count pl pr (omega arith) in
    (
      record {
        left = expr_eliminate_yn q.left;
        right = expr_eliminate_yn q.right;
        trans_count = q.trans_count;
      },
      rw (hp, hq),
      eliminate_yn-IsLogical ql,
      eliminate_yn-IsLogical qr,
      omega (arith, size-eliminate_yn-le q.left),
      omega (arith, size-eliminate_yn-le q.right),
    )
