-- ===== src/Config/Transform/Bound.antt =====
-- expr_transform ends, and the bound by the weight of the expression is enough.
use mathlib.Core.Path.{subst}
use dir842v2_gpl.Common.{
  ◌∙◌, sym, eq_of_some-eq_some, >>=-eq-some, ℕ, zero, suc, ◌*◌, ◌≡◌, ◌≤◌, ◌<◌, refl, arith, Option,
  some,
}
use dir842v2_gpl.Config.Transform.{
  transform_comp, transform_equal, transform_unequal, negated, not_symbol, transform_not,
  transform_within, weight, expr_transform,
}
use dir842v2_gpl.Config.Types.{
  list, range, SymbolId, Relation, equal, unequal, Expr, symbol, not, and, or, comp, Table,
  IsLogical, leaf, negation, conjunction, disjunction, comparison,
}

-- There is a result, of symbols, comparisons and operators, and no heavier.
abbrev pub Shrinks : Expr → Option Expr → Type 0
Shrinks e o = (r : Expr) × (o ≡ some r) × IsLogical r × (weight r ≤ weight e)

weight-pos : (e : Expr) → 0 < weight e
unfolding weight
weight-pos (symbol _) = omega arith
weight-pos (not e) = omega (arith, weight-pos e)
weight-pos _ = omega arith

Shrinks-comp :
    (t : Table) (k : Relation) (s r : SymbolId)
    → Shrinks (comp k s r) (some (transform_comp t k s r))
unfolding transform_comp transform_equal transform_unequal weight
Shrinks-comp t equal s r = (
  transform_equal t s r,
  refl,
  ground (
    arith,
    negation (leaf {s = s}),
    leaf {s = s},
    leaf {s = 0},
    comparison {k = equal} {s = s} {t = r},
  ),
  ground arith,
)
Shrinks-comp t unequal s r = (
  transform_unequal t s r,
  refl,
  ground (
    arith,
    negation (leaf {s = s}),
    leaf {s = s},
    leaf {s = 2},
    comparison {k = unequal} {s = s} {t = r},
  ),
  ground arith,
)
Shrinks-comp t k s r = (comp k s r, refl, comparison, omega arith)

module _ (again : Expr → Option Expr) (f : ℕ)
    (ends : (e : Expr) → IsLogical e → weight e ≤ f → Shrinks e (again e)) where
  Shrinks-not :
      {e : Expr} (n : ℕ)
      → IsLogical e
      → weight e ≤ n
      → 2 * n ≤ suc f
      → (r : Expr) × (transform_not again e ≡ some r) × IsLogical r × (weight r ≤ 2 * n)
  unfolding transform_not not_symbol weight
  Shrinks-not n (leaf {s}) h hf = (
    not_symbol s,
    refl,
    ground (arith, leaf {s = 0}, leaf {s = 1}, leaf {s = 2}, negation (leaf {s = s})),
    ground arith,
  )
  Shrinks-not n (comparison {k} {s} {t}) h hf =
      (comp (negated k) s t, refl, comparison, omega arith)
  Shrinks-not n (negation {e} l) h hf =
      let (r, q, p, w) = ends e l (omega (arith, weight-pos e)) in (r, q, p, omega arith)
  Shrinks-not n (conjunction {l = a} {r = b} l r) h hf =
      let (x, q, p, w) =
        ends (or (not a) (not b)) (disjunction (negation l) (negation r)) (omega arith) in
      (x, q, p, omega arith)
  Shrinks-not n (disjunction {l = a} {r = b} l r) h hf =
      let (x, q, p, w) =
        ends (and (not a) (not b)) (conjunction (negation l) (negation r)) (omega arith) in
      (x, q, p, omega arith)

Shrinks-within :
    (f : ℕ) (t : Table) (e : Expr) → IsLogical e → weight e ≤ f → Shrinks e (transform_within f t e)
unfolding transform_within weight
Shrinks-within zero t e l h = absurd (omega (arith, weight-pos e))
Shrinks-within (suc f) t (symbol s) leaf h = (symbol s, refl, leaf, omega arith)
Shrinks-within (suc f) t (comp k s r) comparison h = Shrinks-comp t k s r
Shrinks-within (suc f) t (and a b) (conjunction l r) h =
    let (x, q, p, w) = Shrinks-within f t a l (omega arith) in
    let (x', q', p', w') = Shrinks-within f t b r (omega arith) in
    (and x x', rw (q, q'), conjunction p p', omega arith)
Shrinks-within (suc f) t (or a b) (disjunction l r) h =
    let (x, q, p, w) = Shrinks-within f t a l (omega arith) in
    let (x', q', p', w') = Shrinks-within f t b r (omega arith) in
    (or x x', rw (q, q'), disjunction p p', omega arith)
Shrinks-within (suc f) t (not a) (negation l) h =
    let (x, q, p, w) = Shrinks-within f t a l (omega (arith, weight-pos a)) in
    let (y, q', p', w') =
      Shrinks-not (transform_within f t) f (Shrinks-within f t) (weight a) p w h in
    (y, rw q q', p', w')
Shrinks-within (suc f) t (list _) l h = elim l [ ]
Shrinks-within (suc f) t (range _ _) l h = elim l [ ]

-- Whatever the bound, a result is such a tree.
not-IsLogical :
    (again : Expr → Option Expr)
    → ((e r : Expr) → IsLogical e → again e ≡ some r → IsLogical r)
    → (e r : Expr) → IsLogical e
    → transform_not again e ≡ some r
    → IsLogical r
unfolding transform_not not_symbol
not-IsLogical again keep (symbol s) r leaf h =
    ground (arith, leaf {s = 0}, leaf {s = 1}, leaf {s = 2}, negation (leaf {s = s}))
not-IsLogical again keep (comp k a b) r l h = subst IsLogical (eq_of_some-eq_some h) comparison
not-IsLogical again keep (not e) r (negation l) h = keep e r l h
not-IsLogical again keep (and a b) r (conjunction l l') h =
    keep _ r (disjunction (negation l) (negation l')) h
not-IsLogical again keep (or a b) r (disjunction l l') h =
    keep _ r (conjunction (negation l) (negation l')) h
not-IsLogical again keep (list _) r l h = elim l [ ]
not-IsLogical again keep (range _ _) r l h = elim l [ ]

pub transform_within-IsLogical :
    (f : ℕ) (t : Table) (e r : Expr) → IsLogical e → transform_within f t e ≡ some r → IsLogical r
unfolding transform_within
transform_within-IsLogical zero t e r l h = cc
transform_within-IsLogical (suc f) t (symbol s) r l h = subst IsLogical (eq_of_some-eq_some h) leaf
transform_within-IsLogical (suc f) t (comp k a b) r l h =
    let (x, q, p, w) = Shrinks-comp t k a b in subst IsLogical (eq_of_some-eq_some (sym q ∙ h)) p
transform_within-IsLogical (suc f) t (and a b) r (conjunction la lb) h =
    let (x, hx, rest) = >>=-eq-some (transform_within f t a) _ h in
    let (y, hy, made) = >>=-eq-some (transform_within f t b) _ rest in
    subst IsLogical (eq_of_some-eq_some made) (
      conjunction (transform_within-IsLogical f t a x la hx)
        (transform_within-IsLogical f t b y lb hy))
transform_within-IsLogical (suc f) t (or a b) r (disjunction la lb) h =
    let (x, hx, rest) = >>=-eq-some (transform_within f t a) _ h in
    let (y, hy, made) = >>=-eq-some (transform_within f t b) _ rest in
    subst IsLogical (eq_of_some-eq_some made) (
      disjunction (transform_within-IsLogical f t a x la hx)
        (transform_within-IsLogical f t b y lb hy))
transform_within-IsLogical (suc f) t (not a) r (negation la) h =
    let (x, hx, rest) = >>=-eq-some (transform_within f t a) _ h in
    not-IsLogical (transform_within f t) (transform_within-IsLogical f t) x r
      (transform_within-IsLogical f t a x la hx) rest
transform_within-IsLogical (suc f) t (list _) r l h = elim l [ ]
transform_within-IsLogical (suc f) t (range _ _) r l h = elim l [ ]

-- On a tree of symbols, comparisons and operators expr_transform gives one, and none that weighs
-- more.
pub expr_transform_total : (t : Table) (e : Expr) → IsLogical e → Shrinks e (expr_transform t e)
unfolding expr_transform
expr_transform_total t e l = Shrinks-within (weight e) t e l (omega arith)
