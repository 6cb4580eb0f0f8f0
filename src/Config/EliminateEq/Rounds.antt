-- ===== src/Config/EliminateEq/Rounds.antt =====
-- A round of __expr_eliminate_eq ends if the comparison of leaves does, and its trees are no
-- larger.
use dir842v2_gpl.Common.{
  ℕ, ◌+◌, ◌≡◌, ◌≢◌, refl, ◌≤◌, ◌<◌, arith, Bool, true, false, Option, some, none, Bool-cases, inl,
  inr, ◌>>=◌, if◌then◌else◌,
}
use dir842v2_gpl.Config.EliminateEq.{
  expr_copy, Operator, op_or, op_and, Pair, neutral, same_constant, eliminate_leaves,
  eliminate_leaf, eliminate_at,
}
use dir842v2_gpl.Config.EliminateEq.Meaning.{node}
use dir842v2_gpl.Config.Types.{
  Expr, symbol, and, or, size, IsLogical, leaf, negation, conjunction, disjunction, comparison,
}

pub expr_copy-logical : {e : Expr} → IsLogical e → expr_copy e ≡ some e
unfolding expr_copy
expr_copy-logical leaf = refl
expr_copy-logical (negation h) = rw (expr_copy-logical h)
expr_copy-logical (conjunction h k) = rw (expr_copy-logical h, expr_copy-logical k)
expr_copy-logical (disjunction h k) = rw (expr_copy-logical h, expr_copy-logical k)
expr_copy-logical comparison = refl

-- The comparison gives an answer on trees of a total size below `k`.
abbrev pub IsTotal : (Expr → Expr → Option Bool) → ℕ → Type 0
IsTotal eq k =
    (a b : Expr) → IsLogical a → IsLogical b → size a + size b < k → (r : Bool) × (eq a b ≡ some r)

abbrev pub root : Expr → Option Operator
root (and _ _) = some op_and
root (or _ _) = some op_or
root _ = none

-- A round ends, in trees that are no larger; a right tree with the operator at its root keeps it.
pub record Ends (op : Operator) (e1 e2 : Expr) (o : Option Pair) : Type 0 where
  pub result : Pair
  pub ends : o ≡ some result
  pub left_logical : IsLogical result.left
  pub right_logical : IsLogical result.right
  pub left_le : size result.left ≤ size e1
  pub right_le : size result.right ≤ size e2
  pub right_root : root e2 ≡ some op → root result.right ≡ some op

size-pos : (e : Expr) → 0 < size e
unfolding size
size-pos (symbol _) = omega arith
size-pos _ = omega arith

neutral-IsLogical : (op : Operator) → IsLogical (neutral op)
neutral-IsLogical op_or = leaf
neutral-IsLogical op_and = leaf

size-neutral : (op : Operator) → size (neutral op) ≡ 1
unfolding size
size-neutral op_or = refl
size-neutral op_and = refl

module _ {eq : Expr → Expr → Option Bool} {k : ℕ} (total : IsTotal eq k) where
  Ends-kept :
      (op : Operator) {e1 e2 : Expr} (n : ℕ)
      → IsLogical e1
      → IsLogical e2
      → Ends op e1 e2 (some (record { left = e1; right = e2; trans_count = n }))
  Ends-kept op {e1} {e2} n h1 h2 = record {
    result = record { left = e1; right = e2; trans_count = n };
    ends = refl;
    left_logical = h1;
    right_logical = h2;
    left_le = omega arith;
    right_le = omega arith;
    right_root = λ r. r;
  }

  Ends-neutral :
      (op : Operator) {e1 e2 : Expr} (n : ℕ)
      → root e2 ≢ some op
      → Ends op e1 e2 (some (record { left = neutral op; right = neutral op; trans_count = n }))
  Ends-neutral op {e1} {e2} n h = record {
    result = record { left = neutral op; right = neutral op; trans_count = n };
    ends = refl;
    left_logical = neutral-IsLogical op;
    right_logical = neutral-IsLogical op;
    left_le = omega (arith, size-neutral op, size-pos e1);
    right_le = omega (arith, size-neutral op, size-pos e2);
    right_root = λ r. absurd (h r);
  }

  Ends-eliminate_leaves :
      (op : Operator) (e1 e2 : Expr) (n : ℕ)
      → IsLogical e1
      → IsLogical e2
      → root e2 ≢ some op
      → size e1 + size e2 < k
      → Ends op e1 e2 (eliminate_leaves eq op e1 e2 n)
  unfolding eliminate_leaves
  Ends-eliminate_leaves op e1 e2 n h1 h2 hr hk = elim (Bool-cases (same_constant e1 e2)) [
    | inl c ↦ rw c (Ends-kept op n h1 h2)
    | inr c ↦ rw c (answered (total e1 e2 h1 h2 hk))
  ]
    where
      answered :
          (r : Bool) × (eq e1 e2 ≡ some r)
          → Ends op e1 e2 (
              eq e1 e2 >>= λ same. some (
                if same
                then record { left = neutral op; right = neutral op; trans_count = n + 1 }
                else record { left = e1; right = e2; trans_count = n }))
      answered (true, r) = rw r (Ends-neutral op (n + 1) hr)
      answered (false, r) = rw r (Ends-kept op n h1 h2)

  Ends-right :
      (op : Operator) {e1 l r : Expr} {o1 : Option Pair} (f : Pair → Option Pair)
      → (p : Ends op e1 l o1) → (q : Ends op p.result.left r (f p.result))
      → Ends op e1 (node op l r) (
          o1 >>= λ p. f p >>= λ q.
          some (record {
            left = q.left;
            right = node op p.right q.right;
            trans_count = q.trans_count;
          }))
  unfolding size
  Ends-right op_and f p q = record {
    result = record {
      left = q.result.left;
      right = and p.result.right q.result.right;
      trans_count = q.result.trans_count;
    };
    ends = rw (p.ends, q.ends);
    left_logical = q.left_logical;
    right_logical = conjunction p.right_logical q.right_logical;
    left_le = omega (arith, p.left_le, q.left_le);
    right_le = omega (arith, p.right_le, q.right_le);
    right_root = λ x. refl;
  }
  Ends-right op_or f p q = record {
    result = record {
      left = q.result.left;
      right = or p.result.right q.result.right;
      trans_count = q.result.trans_count;
    };
    ends = rw (p.ends, q.ends);
    left_logical = q.left_logical;
    right_logical = disjunction p.right_logical q.right_logical;
    left_le = omega (arith, p.left_le, q.left_le);
    right_le = omega (arith, p.right_le, q.right_le);
    right_root = λ x. refl;
  }

  pub Ends-left :
      (op : Operator) {e2 l r : Expr} {o1 : Option Pair} (f : Pair → Option Pair)
      → (p : Ends op l e2 o1) → (q : Ends op r p.result.right (f p.result))
      → Ends op (node op l r) e2 (
          o1 >>= λ p. f p >>= λ q.
          some
            (record { left = node op p.left q.left; right = q.right; trans_count = q.trans_count }))
  unfolding size
  Ends-left op_and f p q = record {
    result = record {
      left = and p.result.left q.result.left;
      right = q.result.right;
      trans_count = q.result.trans_count;
    };
    ends = rw (p.ends, q.ends);
    left_logical = conjunction p.left_logical q.left_logical;
    right_logical = q.right_logical;
    left_le = omega (arith, p.left_le, q.left_le);
    right_le = omega (arith, p.right_le, q.right_le);
    right_root = λ x. q.right_root (p.right_root x);
  }
  Ends-left op_or f p q = record {
    result = record {
      left = or p.result.left q.result.left;
      right = q.result.right;
      trans_count = q.result.trans_count;
    };
    ends = rw (p.ends, q.ends);
    left_logical = disjunction p.left_logical q.left_logical;
    right_logical = q.right_logical;
    left_le = omega (arith, p.left_le, q.left_le);
    right_le = omega (arith, p.right_le, q.right_le);
    right_root = λ x. q.right_root (p.right_root x);
  }

  Ends-eliminate_leaf :
      (op : Operator) (e1 : Expr) {e2 : Expr} (n : ℕ)
      → IsLogical e1
      → IsLogical e2
      → size e1 + size e2 < k
      → Ends op e1 e2 (eliminate_leaf eq op e1 e2 n)
  unfolding eliminate_leaf size
  Ends-eliminate_leaf op_and e1 n h1 (conjunction {r} hl hr) hk =
      let p = Ends-eliminate_leaf op_and e1 n h1 hl (omega arith) in
      Ends-right op_and (λ p. eliminate_leaf eq op_and p.left r p.trans_count) p
        (Ends-eliminate_leaf op_and p.result.left p.result.trans_count p.left_logical hr
          (omega (arith, p.left_le)))
  Ends-eliminate_leaf op_or e1 n h1 (disjunction {r} hl hr) hk =
      let p = Ends-eliminate_leaf op_or e1 n h1 hl (omega arith) in
      Ends-right op_or (λ p. eliminate_leaf eq op_or p.left r p.trans_count) p
        (Ends-eliminate_leaf op_or p.result.left p.result.trans_count p.left_logical hr
          (omega (arith, p.left_le)))
  Ends-eliminate_leaf op e1 {e2} n h1 h2 hk = Ends-eliminate_leaves op e1 e2 n h1 h2 (λ x. cc) hk

  pub Ends-eliminate_at :
      (op : Operator) {e1 : Expr} (e2 : Expr) (n : ℕ)
      → IsLogical e1
      → IsLogical e2
      → size e1 + size e2 < k
      → Ends op e1 e2 (eliminate_at eq op e1 e2 n)
  unfolding eliminate_at size
  Ends-eliminate_at op_and e2 n (conjunction {r} hl hr) h2 hk =
      let p = Ends-eliminate_at op_and e2 n hl h2 (omega arith) in
      Ends-left op_and (λ p. eliminate_at eq op_and r p.right p.trans_count) p
        (Ends-eliminate_at op_and p.result.right p.result.trans_count hr p.right_logical
          (omega (arith, p.right_le)))
  Ends-eliminate_at op_or e2 n (disjunction {r} hl hr) h2 hk =
      let p = Ends-eliminate_at op_or e2 n hl h2 (omega arith) in
      Ends-left op_or (λ p. eliminate_at eq op_or r p.right p.trans_count) p
        (Ends-eliminate_at op_or p.result.right p.result.trans_count hr p.right_logical
          (omega (arith, p.right_le)))
  Ends-eliminate_at op {e1} e2 n h1 h2 hk = Ends-eliminate_leaf op e1 n h1 h2 hk
