-- ===== src/Config/EliminateEq/Meaning.antt =====
-- Eliminating common operands takes the same factor out of both trees.
use dir842v2_gpl.Common.{
  ℕ, ◌≡◌, refl, ◌≤◌, ◌⊎◌, arith, Bool, true, false, Option, some, none, Bool-cases, inl, inr,
  >>=-eq-some, eq_of_some-eq_some, if◌then◌else◌, ◌+◌, min, max,
}
use mathlib.Core.Path.{subst}
use dir842v2_gpl.Config.EliminateEq.{
  expr_copy, Operator, op_or, op_and, Pair, neutral, same_constant, eliminate_leaves,
  eliminate_leaf, eliminate_at,
}
use dir842v2_gpl.Config.EliminateYn.Meaning.{no_value, yes_value}
use dir842v2_gpl.Config.Types.{
  Tristate, Expr, symbol, not, and, or, comp, list, range, Table, tri_yes, tristate_laws,
}
use dir842v2_gpl.Config.Valid.Bounds.{calc-le-yes}
use dir842v2_gpl.Config.Valid.{IsValid}
use dir842v2_gpl.Config.Value.{expr_calc_value}

-- A copy is the tree itself.
pub expr_copy-cases : (e : Expr) → (expr_copy e ≡ none) ⊎ (expr_copy e ≡ some e)
unfolding expr_copy
expr_copy-cases (symbol s) = inr refl
expr_copy-cases (not e) = ground (arith, expr_copy-cases e)
expr_copy-cases (comp k a b) = inr refl
expr_copy-cases (and l r) = ground (arith, expr_copy-cases l, expr_copy-cases r)
expr_copy-cases (or l r) = ground (arith, expr_copy-cases l, expr_copy-cases r)
expr_copy-cases (list _) = inl refl
expr_copy-cases (range _ _) = inl refl

abbrev pub node : Operator → Expr → Expr → Expr
node op_and = and
node op_or = or

pub expr_copy-eq : (e : Expr) {c : Expr} → expr_copy e ≡ some c → c ≡ e
expr_copy-eq e h = ground (arith, expr_copy-cases e)

module _ (t : Table) (v : IsValid t) where
  -- `op` applied to a value that both trees had as an operand.
  abbrev pub with_factor : Operator → Tristate → Tristate → Tristate
  with_factor op_and c x = min c x
  with_factor op_or c x = max c x

  -- Both trees are the rewritten ones with one and the same further operand.
  pub record ShareFactor (op : Operator) (e1 e2 : Expr) (p : Pair) : Type 0 where
    pub factor : Tristate
    pub le_yes : factor ≤ tri_yes
    pub left_value : expr_calc_value t e1 ≡ with_factor op factor (expr_calc_value t p.left)
    pub right_value : expr_calc_value t e2 ≡ with_factor op factor (expr_calc_value t p.right)

  abbrev pub IsSound : (Expr → Expr → Option Bool) → Type 0
  IsSound eq = (a b : Expr) → eq a b ≡ some true → expr_calc_value t a ≡ expr_calc_value t b

  ShareFactor-refl :
      (op : Operator) (e1 e2 : Expr) (n : ℕ)
      → ShareFactor op e1 e2 (record { left = e1; right = e2; trans_count = n })
  ShareFactor-refl op_and e1 e2 n = record {
    factor = 2;
    le_yes = omega arith;
    left_value = omega (arith, calc-le-yes t v e1);
    right_value = omega (arith, calc-le-yes t v e2);
  }
  ShareFactor-refl op_or e1 e2 n = record {
    factor = 0;
    le_yes = omega arith;
    left_value = omega arith;
    right_value = omega arith;
  }

  ShareFactor-neutral :
      (op : Operator) (e1 e2 : Expr) (n : ℕ)
      → expr_calc_value t e1 ≡ expr_calc_value t e2
      → ShareFactor op e1 e2 (record { left = neutral op; right = neutral op; trans_count = n })
  unfolding expr_calc_value
  ShareFactor-neutral op_and e1 e2 n h = record {
    factor = expr_calc_value t e1;
    le_yes = calc-le-yes t v e1;
    left_value = omega (arith, yes_value t v, calc-le-yes t v e1);
    right_value = omega (arith, yes_value t v, calc-le-yes t v e1);
  }
  ShareFactor-neutral op_or e1 e2 n h = record {
    factor = expr_calc_value t e1;
    le_yes = calc-le-yes t v e1;
    left_value = omega (arith, no_value t v);
    right_value = omega (arith, no_value t v);
  }

  -- Two rounds against the operands of the right tree, and of the left one.
  ShareFactor-right :
      (op : Operator) {e1 l r : Expr} {p q : Pair}
      → ShareFactor op e1 l p
      → ShareFactor op p.left r q
      → ShareFactor op e1
          (node op l r)
          (record { left = q.left; right = node op p.right q.right; trans_count = q.trans_count })
  unfolding expr_calc_value
  ShareFactor-right op_and f g = record {
    factor = min f.factor g.factor;
    le_yes = omega (arith, f.le_yes);
    left_value = omega (arith, f.left_value, g.left_value);
    right_value = omega (tristate_laws, f.right_value, g.right_value);
  }
  ShareFactor-right op_or f g = record {
    factor = max f.factor g.factor;
    le_yes = omega (arith, f.le_yes, g.le_yes);
    left_value = omega (arith, f.left_value, g.left_value);
    right_value = omega (tristate_laws, f.right_value, g.right_value);
  }

  ShareFactor-left :
      (op : Operator) {e2 l r : Expr} {p q : Pair}
      → ShareFactor op l e2 p
      → ShareFactor op r p.right q
      → ShareFactor op
          (node op l r)
          e2
          (record { left = node op p.left q.left; right = q.right; trans_count = q.trans_count })
  unfolding expr_calc_value
  ShareFactor-left op_and f g = record {
    factor = min f.factor g.factor;
    le_yes = omega (arith, f.le_yes);
    left_value = omega (tristate_laws, f.left_value, g.left_value);
    right_value = omega (arith, f.right_value, g.right_value);
  }
  ShareFactor-left op_or f g = record {
    factor = max f.factor g.factor;
    le_yes = omega (arith, f.le_yes, g.le_yes);
    left_value = omega (tristate_laws, f.left_value, g.left_value);
    right_value = omega (arith, f.right_value, g.right_value);
  }

  module _ {eq : Expr → Expr → Option Bool} (sound : IsSound eq) where
    eliminate_leaves_sound :
        (op : Operator) (e1 e2 : Expr) (n : ℕ) {p : Pair}
        → eliminate_leaves eq op e1 e2 n ≡ some p
        → ShareFactor op e1 e2 p
    unfolding eliminate_leaves
    eliminate_leaves_sound op e1 e2 n {p} h = elim (Bool-cases (same_constant e1 e2)) [
      | inl c ↦
          subst (ShareFactor op e1 e2) (eq_of_some-eq_some (rw c at h))
            (ShareFactor-refl op e1 e2 n)
      | inr c ↦ decided (>>=-eq-some (eq e1 e2) _ (rw c at h))
    ]
      where
        decided :
            (s : Bool) × (eq e1 e2 ≡ some s)
              × (some (
                    if s
                    then record { left = neutral op; right = neutral op; trans_count = n + 1 }
                    else record { left = e1; right = e2; trans_count = n })
                  ≡ some p)
            → ShareFactor op e1 e2 p
        decided (true, s, r) =
            subst (ShareFactor op e1 e2) (eq_of_some-eq_some r)
              (ShareFactor-neutral op e1 e2 (n + 1) (sound e1 e2 s))
        decided (false, s, r) =
            subst (ShareFactor op e1 e2) (eq_of_some-eq_some r) (ShareFactor-refl op e1 e2 n)

    eliminate_leaf_sound :
        (op : Operator) (e1 e2 : Expr) (n : ℕ) {p : Pair}
        → eliminate_leaf eq op e1 e2 n ≡ some p
        → ShareFactor op e1 e2 p
    unfolding eliminate_leaf
    eliminate_leaf_sound op_and e1 (and l r) n h =
        let (p, hp, rest) = >>=-eq-some (eliminate_leaf eq op_and e1 l n) _ h in
        let (q, hq, made) = >>=-eq-some (eliminate_leaf eq op_and p.left r p.trans_count) _ rest in
        subst (ShareFactor op_and e1 (and l r)) (eq_of_some-eq_some made) (
          ShareFactor-right op_and (eliminate_leaf_sound op_and e1 l n hp)
            (eliminate_leaf_sound op_and p.left r p.trans_count hq))
    eliminate_leaf_sound op_or e1 (or l r) n h =
        let (p, hp, rest) = >>=-eq-some (eliminate_leaf eq op_or e1 l n) _ h in
        let (q, hq, made) = >>=-eq-some (eliminate_leaf eq op_or p.left r p.trans_count) _ rest in
        subst (ShareFactor op_or e1 (or l r)) (eq_of_some-eq_some made) (
          ShareFactor-right op_or (eliminate_leaf_sound op_or e1 l n hp)
            (eliminate_leaf_sound op_or p.left r p.trans_count hq))
    eliminate_leaf_sound op e1 e2 n h = eliminate_leaves_sound op e1 e2 n h

    pub eliminate_at_sound :
        (op : Operator) (e1 e2 : Expr) (n : ℕ) {p : Pair}
        → eliminate_at eq op e1 e2 n ≡ some p
        → ShareFactor op e1 e2 p
    unfolding eliminate_at
    eliminate_at_sound op_and (and l r) e2 n h =
        let (p, hp, rest) = >>=-eq-some (eliminate_at eq op_and l e2 n) _ h in
        let (q, hq, made) = >>=-eq-some (eliminate_at eq op_and r p.right p.trans_count) _ rest in
        subst (ShareFactor op_and (and l r) e2) (eq_of_some-eq_some made) (
          ShareFactor-left op_and (eliminate_at_sound op_and l e2 n hp)
            (eliminate_at_sound op_and r p.right p.trans_count hq))
    eliminate_at_sound op_or (or l r) e2 n h =
        let (p, hp, rest) = >>=-eq-some (eliminate_at eq op_or l e2 n) _ h in
        let (q, hq, made) = >>=-eq-some (eliminate_at eq op_or r p.right p.trans_count) _ rest in
        subst (ShareFactor op_or (or l r) e2) (eq_of_some-eq_some made) (
          ShareFactor-left op_or (eliminate_at_sound op_or l e2 n hp)
            (eliminate_at_sound op_or r p.right p.trans_count hq))
    eliminate_at_sound op e1 e2 n h = eliminate_leaf_sound op e1 e2 n h
