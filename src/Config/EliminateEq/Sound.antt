-- ===== src/Config/EliminateEq/Sound.antt =====
-- Eliminating the common operands of two trees keeps what it takes for them to differ, and so a
-- pair that expr_eq accepts has one value.
use dir842v2_gpl.Common.{
  ℕ, zero, suc, ◌≡◌, refl, sym, ap, ◌∙◌, arith, Bool, true, Option, some, >>=-eq-some, ==_iff, ◌==◌,
  ◌&&◌, eq_of_some-eq_some, ◌+◌,
}
use mathlib.Core.Path.{subst}
use dir842v2_gpl.Config.EliminateEq.{
  expr_copy, Operator, op_or, op_and, Pair, eliminate_first, eliminate_second, eliminate_eq_by,
  same_relation, same_symbol, eq_operands, eq_within, expr_eq, expr_eliminate_eq,
}
use dir842v2_gpl.Config.EliminateEq.Meaning.{
  expr_copy-eq, IsSound, ShareFactor, with_factor, eliminate_at_sound,
}
use dir842v2_gpl.Config.EliminateYn.Meaning.{calc-eliminate_yn}
use dir842v2_gpl.Config.Types.{
  Expr, symbol, not, and, or, comp, Table, expr_not, size, Relation, equal, unequal, lth, leq, gth,
  geq, SymbolId,
}
use dir842v2_gpl.Config.Valid.{IsValid}
use dir842v2_gpl.Config.Value.{expr_calc_value}

module _ (t : Table) (v : IsValid t) where
  module _ {eq : Expr → Expr → Option Bool} (sound : IsSound t v eq) where
    -- Each of the two rounds, and so both: equal results come from trees of equal value.
    abbrev AgreeBack : Expr → Expr → Pair → Type 0
    AgreeBack e1 e2 p =
        expr_calc_value t p.left ≡ expr_calc_value t p.right
        → expr_calc_value t e1 ≡ expr_calc_value t e2

    ShareFactor-agree :
        (op : Operator) {e1 e2 : Expr} {p : Pair} → ShareFactor t v op e1 e2 p → AgreeBack e1 e2 p
    ShareFactor-agree op f h = f.left_value ∙ ap (with_factor t v op f.factor) h ∙ sym f.right_value

    eliminate_first-agree :
        (e1 e2 : Expr) (n : ℕ) {p : Pair} → eliminate_first eq e1 e2 n ≡ some p → AgreeBack e1 e2 p
    unfolding eliminate_first
    eliminate_first-agree (or l r) e2 n h =
        ShareFactor-agree op_or (eliminate_at_sound t v sound op_or (or l r) e2 n h)
    eliminate_first-agree (and l r) e2 n h =
        ShareFactor-agree op_and (eliminate_at_sound t v sound op_and (and l r) e2 n h)
    eliminate_first-agree e1 e2 n {p} h = subst (AgreeBack e1 e2) (eq_of_some-eq_some h) (λ e. e)

    eliminate_second-agree :
        (e1 e2 : Expr) (n : ℕ) {p : Pair} → eliminate_second eq e1 e2 n ≡ some p → AgreeBack e1 e2 p
    unfolding eliminate_second
    eliminate_second-agree (or a b) (or l r) n h =
        subst (AgreeBack (or a b) (or l r)) (eq_of_some-eq_some h) (λ e. e)
    eliminate_second-agree (and a b) (and l r) n h =
        subst (AgreeBack (and a b) (and l r)) (eq_of_some-eq_some h) (λ e. e)
    eliminate_second-agree e1 (or l r) n h =
        ShareFactor-agree op_or (eliminate_at_sound t v sound op_or e1 (or l r) n h)
    eliminate_second-agree e1 (and l r) n h =
        ShareFactor-agree op_and (eliminate_at_sound t v sound op_and e1 (and l r) n h)
    eliminate_second-agree e1 e2 n h = subst (AgreeBack e1 e2) (eq_of_some-eq_some h) (λ e. e)

    eliminate_eq_by-agree :
        (e1 e2 : Expr) (n : ℕ) {p : Pair} → eliminate_eq_by eq e1 e2 n ≡ some p → AgreeBack e1 e2 p
    unfolding eliminate_eq_by
    eliminate_eq_by-agree e1 e2 n {p} h same =
        let (p1, h1, rest) = >>=-eq-some (eliminate_first eq e1 e2 n) _ h in
        let (p2, h2, made) =
          >>=-eq-some (eliminate_second eq p1.left p1.right p1.trans_count) _ rest in
        let reduced =
          subst (λ (r : Pair). expr_calc_value t r.left ≡ expr_calc_value t r.right)
            (sym (eq_of_some-eq_some made)) same in
        eliminate_first-agree e1 e2 n h1 (
          eliminate_second-agree p1.left p1.right p1.trans_count h2
            (sym (calc-eliminate_yn t p2.left v) ∙ reduced ∙ calc-eliminate_yn t p2.right v))

  same_symbol-calc :
      (a b : Expr) → same_symbol a b ≡ true → expr_calc_value t a ≡ expr_calc_value t b
  same_symbol-calc (symbol a) (symbol b) h =
      ap (λ (s : SymbolId). expr_calc_value t (symbol s)) ((==_iff a b).0 h)
  same_symbol-calc (symbol a) _ h = cc
  same_symbol-calc _ _ h = cc

  eq_operands-IsSound :
      {eq : Expr → Expr → Option Bool} → IsSound t v eq → IsSound t v (eq_operands eq)
  unfolding eq_operands
  eq_operands-IsSound {eq} sound e1 e2 h =
      let (c1, h1, rest1) = >>=-eq-some (expr_copy e1) _ h in
      let (c2, h2, rest2) = >>=-eq-some (expr_copy e2) _ rest1 in
      let (p, hp, made) = >>=-eq-some (eliminate_eq_by eq c1 c2 0) _ rest2 in
      let same = same_symbol-calc p.left p.right (eq_of_some-eq_some made) in
      ap (expr_calc_value t) (sym (expr_copy-eq e1 h1))
      ∙ eliminate_eq_by-agree sound c1 c2 0 hp same
      ∙ ap (expr_calc_value t) (expr_copy-eq e2 h2)

  same_relation-eq : (k k' : Relation) → same_relation k k' ≡ true → k ≡ k'
  same_relation-eq equal equal h = refl
  same_relation-eq unequal unequal h = refl
  same_relation-eq lth lth h = refl
  same_relation-eq leq leq h = refl
  same_relation-eq gth gth h = refl
  same_relation-eq geq geq h = refl
  same_relation-eq _ _ h = cc

  same_comparison :
      (k k' : Relation) (a a' b b' : SymbolId)
      → (same_relation k k' && a == a' && b == b') ≡ true
      → expr_calc_value t (comp k a b) ≡ expr_calc_value t (comp k' a' b')
  same_comparison k k' a a' b b' h = cc (
    same_relation-eq k k' (ground arith),
    (==_iff a a').0 (ground arith),
    (==_iff b b').0 (ground arith),
  )

  calc-not :
      (a b : Expr)
      → expr_calc_value t a ≡ expr_calc_value t b
      → expr_calc_value t (not a) ≡ expr_calc_value t (not b)
  unfolding expr_calc_value
  calc-not a b h = ap expr_not h

  eq_within-IsSound : (f : ℕ) → IsSound t v (eq_within f)
  unfolding eq_within
  eq_within-IsSound zero e1 e2 h = cc
  eq_within-IsSound (suc f) (comp k a b) (comp k' a' b') h =
      same_comparison k k' a a' b b' (eq_of_some-eq_some h)
  eq_within-IsSound (suc f) (symbol a) (symbol b) h =
      same_symbol-calc (symbol a) (symbol b) (eq_of_some-eq_some h)
  eq_within-IsSound (suc f) (not a) (not b) h = calc-not a b (eq_within-IsSound f a b h)
  eq_within-IsSound (suc f) (and a b) (and c d) h =
      eq_operands-IsSound (eq_within-IsSound f) (and a b) (and c d) h
  eq_within-IsSound (suc f) (or a b) (or c d) h =
      eq_operands-IsSound (eq_within-IsSound f) (or a b) (or c d) h
  eq_within-IsSound (suc f) _ _ h = cc

-- Over a valid table, two expressions that expr_eq accepts have the same value.
pub expr_eq_sound :
    (t : Table) (a b : Expr)
    → IsValid t
    → expr_eq a b ≡ some true
    → expr_calc_value t a ≡ expr_calc_value t b
unfolding expr_eq
expr_eq_sound t a b v h = eq_within-IsSound t v (suc (size a + size b)) a b h

-- Over a valid table, two expressions from which expr_eliminate_eq leaves trees of one value have
-- one value themselves.
pub expr_eliminate_eq_sound :
    (t : Table) (e1 e2 : Expr) (n : ℕ) {p : Pair}
    → IsValid t
    → expr_eliminate_eq e1 e2 n ≡ some p
    → expr_calc_value t p.left ≡ expr_calc_value t p.right
    → expr_calc_value t e1 ≡ expr_calc_value t e2
unfolding expr_eliminate_eq
expr_eliminate_eq_sound t e1 e2 n v h same =
    eliminate_eq_by-agree t v (λ a b. expr_eq_sound t a b v) e1 e2 n h same
