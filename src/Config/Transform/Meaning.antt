-- ===== src/Config/Transform/Meaning.antt =====
-- expr_transform keeps the value of an expression.
use dir842v2_gpl.Common.{
  true, Bool-cases, true, Bool-cases, ℕ, zero, suc, ◌-◌, ◌≡◌, refl, sym, ap, ◌∙◌, arith, Option,
  some, inl, inr, >>=-eq-some, eq_of_some-eq_some,
}
use dir842v2_gpl.Config.EliminateYn.Meaning.{no_value, mod_value, yes_value}
use dir842v2_gpl.Config.Transform.{
  is_boolean, transform_comp, transform_equal, transform_unequal, negated, not_symbol,
  transform_not, transform_within, expr_transform, weight,
}
use dir842v2_gpl.Config.Types.{
  Relation, equal, unequal, Expr, symbol, not, and, or, comp, list, range, Table, tristate_laws,
  boolean, SymbolType, SymbolId,
}
use dir842v2_gpl.Config.Valid.Bounds.{calc-le-yes}
use dir842v2_gpl.Config.Valid.{IsValid}
use dir842v2_gpl.Config.Value.Constants.{calc-equal, calc-unequal}
use dir842v2_gpl.Config.Value.Negation.{HasNoOther, opposite, calc-opposite}
use dir842v2_gpl.Config.Value.{expr_calc_value}

is_boolean-eq : (k : SymbolType) → is_boolean k ≡ true → k ≡ boolean
is_boolean-eq boolean h = refl
is_boolean-eq _ h = cc

negated-opposite : (k : Relation) → negated k ≡ opposite k
unfolding negated
negated-opposite equal = refl
negated-opposite _ = refl

module _ (t : Table) (a b : Expr) (p : expr_calc_value t a ≡ expr_calc_value t b) where
  calc-not : expr_calc_value t (not a) ≡ expr_calc_value t (not b)
  unfolding expr_calc_value
  calc-not = ap (λ (x : ℕ). 2 - x) p

  calc-and :
      (c d : Expr)
      → expr_calc_value t c ≡ expr_calc_value t d
      → expr_calc_value t (and a c) ≡ expr_calc_value t (and b d)
  unfolding expr_calc_value
  calc-and c d q = cc

  calc-or :
      (c d : Expr)
      → expr_calc_value t c ≡ expr_calc_value t d
      → expr_calc_value t (or a c) ≡ expr_calc_value t (or b d)
  unfolding expr_calc_value
  calc-or c d q = cc

module _ (t : Table) (v : IsValid t) where
  module _ (s r : SymbolId) where
    calc-transform_equal :
        expr_calc_value t (transform_equal t s r) ≡ expr_calc_value t (comp equal s r)
    unfolding transform_equal expr_calc_value
    calc-transform_equal = elim (Bool-cases (is_boolean (t.at s).type)) [
      | inl b ↦
          let k = is_boolean-eq (t.at s).type b in
          rw b (
            ground (
              arith,
              v.le_yes s,
              v.boolean_ne_mod s k,
              no_value t v,
              calc-equal t v s 0 (inl k),
              calc-equal t v s 1 (inl k),
              calc-equal t v s 2 (inl k),
            ))
      | inr b ↦ rw b
    ]

    calc-transform_unequal :
        expr_calc_value t (transform_unequal t s r) ≡ expr_calc_value t (comp unequal s r)
    unfolding transform_unequal expr_calc_value
    calc-transform_unequal = elim (Bool-cases (is_boolean (t.at s).type)) [
      | inl b ↦
          let k = is_boolean-eq (t.at s).type b in
          rw b (
            ground (
              arith,
              v.le_yes s,
              v.boolean_ne_mod s k,
              yes_value t v,
              calc-unequal t v s 0 (inl k),
              calc-unequal t v s 1 (inl k),
              calc-unequal t v s 2 (inl k),
            ))
      | inr b ↦ rw b
    ]

  calc-transform_comp :
      (k : Relation) (s r : SymbolId)
      → expr_calc_value t (transform_comp t k s r) ≡ expr_calc_value t (comp k s r)
  unfolding transform_comp
  calc-transform_comp equal s r = calc-transform_equal s r
  calc-transform_comp unequal s r = calc-transform_unequal s r
  calc-transform_comp _ s r = refl

  calc-not_symbol :
      (s : SymbolId) → expr_calc_value t (not_symbol s) ≡ expr_calc_value t (not (symbol s))
  unfolding not_symbol expr_calc_value
  calc-not_symbol s = ground (arith, no_value t v, mod_value t v, yes_value t v)

  module _ (plain : HasNoOther t) (again : Expr → Option Expr)
      (keeps : (e r : Expr) → again e ≡ some r → expr_calc_value t r ≡ expr_calc_value t e) where
    calc-transform_not :
        (e r : Expr)
        → transform_not again e ≡ some r
        → expr_calc_value t r ≡ expr_calc_value t (not e)
    unfolding transform_not expr_calc_value
    calc-transform_not (symbol s) r h =
        ap (expr_calc_value t) (sym (eq_of_some-eq_some h)) ∙ calc-not_symbol s
    calc-transform_not (comp k a b) r h =
        ap (expr_calc_value t) (sym (eq_of_some-eq_some h))
        ∙ ap (λ (x : Relation). expr_calc_value t (comp x a b)) (negated-opposite k)
        ∙ calc-opposite t k a b plain
    calc-transform_not (not e) r h = omega (arith, keeps e r h, calc-le-yes t v e)
    calc-transform_not (or a b) r h = omega (tristate_laws, keeps (and (not a) (not b)) r h)
    calc-transform_not (and a b) r h = omega (tristate_laws, keeps (or (not a) (not b)) r h)
    calc-transform_not (list _) r h = ap (expr_calc_value t) (sym (eq_of_some-eq_some h))
    calc-transform_not (range _ _) r h = ap (expr_calc_value t) (sym (eq_of_some-eq_some h))

  calc-transform_within :
      (plain : HasNoOther t) (f : ℕ) (e r : Expr)
      → transform_within f t e ≡ some r
      → expr_calc_value t r ≡ expr_calc_value t e
  unfolding transform_within
  calc-transform_within plain zero e r h = cc
  calc-transform_within plain (suc f) (symbol s) r h =
      ap (expr_calc_value t) (sym (eq_of_some-eq_some h))
  calc-transform_within plain (suc f) (list l) r h =
      ap (expr_calc_value t) (sym (eq_of_some-eq_some h))
  calc-transform_within plain (suc f) (range _ _) r h = cc
  calc-transform_within plain (suc f) (comp k a b) r h =
      ap (expr_calc_value t) (sym (eq_of_some-eq_some h)) ∙ calc-transform_comp k a b
  calc-transform_within plain (suc f) (and a b) r h =
      let (x, hx, rest) = >>=-eq-some (transform_within f t a) _ h in
      let (y, hy, made) = >>=-eq-some (transform_within f t b) _ rest in
      ap (expr_calc_value t) (sym (eq_of_some-eq_some made))
      ∙ calc-and t _ _ (calc-transform_within plain f a x hx) _ _
          (calc-transform_within plain f b y hy)
  calc-transform_within plain (suc f) (or a b) r h =
      let (x, hx, rest) = >>=-eq-some (transform_within f t a) _ h in
      let (y, hy, made) = >>=-eq-some (transform_within f t b) _ rest in
      ap (expr_calc_value t) (sym (eq_of_some-eq_some made))
      ∙ calc-or t _ _ (calc-transform_within plain f a x hx) _ _
          (calc-transform_within plain f b y hy)
  calc-transform_within plain (suc f) (not a) r h =
      let (x, hx, rest) = >>=-eq-some (transform_within f t a) _ h in
      calc-transform_not plain (transform_within f t) (calc-transform_within plain f) x r rest
      ∙ calc-not t _ _ (calc-transform_within plain f a x hx)

-- Over a valid table in which no symbol has the type S_OTHER, expr_transform keeps the value of an
-- expression.
pub expr_transform_sound :
    (t : Table) (e : Expr) {r : Expr}
    → IsValid t
    → HasNoOther t
    → expr_transform t e ≡ some r
    → expr_calc_value t r ≡ expr_calc_value t e
unfolding expr_transform
expr_transform_sound t e v plain h = calc-transform_within t v plain (weight e) e _ h
