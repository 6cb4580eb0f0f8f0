-- ===== src/Config/Transform/Normal.antt =====
-- The form of what expr_transform returns.
use dir842v2_gpl.Config.Valid.{IsValid}
use dir842v2_gpl.Common.{
  ℕ, zero, suc, ◌≡◌, ◌<◌, arith, Option, some, true, >>=-eq-some, eq_of_some-eq_some,
}
use mathlib.Core.Path.{subst}
use dir842v2_gpl.Config.Transform.Bound.{transform_within-IsLogical}
use dir842v2_gpl.Config.Transform.{
  is_boolean, transform_comp, transform_equal, transform_unequal, negated, not_symbol,
  transform_not, transform_within, weight, expr_transform,
}
use dir842v2_gpl.Config.Types.{
  SymbolId, Relation, equal, unequal, Expr, symbol, not, and, or, comp, list, range, Table,
  IsLogical, negation, conjunction, disjunction, tri_yes,
}

-- A `!` stands only above a symbol other than `y`, `m` and `n`, and no bool symbol is compared
-- for equality with one of these.
abbrev pub IsNormal : Table → Expr → Type 0
IsNormal t (not (symbol s)) = tri_yes < s
IsNormal t (not _) = ⊥
IsNormal t (and l r) = IsNormal t l × IsNormal t r
IsNormal t (or l r) = IsNormal t l × IsNormal t r
IsNormal t (comp equal s r) = is_boolean (t.at s).type ≡ true → tri_yes < r
IsNormal t (comp unequal s r) = is_boolean (t.at s).type ≡ true → tri_yes < r
IsNormal t _ = Unit

-- The constants have no type.
boolean_gt :
    (t : Table) → IsValid t → (s : SymbolId) → is_boolean (t.at s).type ≡ true → tri_yes < s
boolean_gt t v zero h = cc (rw v.no_constant at h)
boolean_gt t v (suc zero) h = cc (rw v.mod_constant at h)
boolean_gt t v (suc (suc zero)) h = cc (rw v.yes_constant at h)
boolean_gt t v (suc (suc (suc s))) h = omega arith

-- The rules of the second switch bring a comparison and a negated symbol into that form.
transform_comp-IsNormal :
    (t : Table) → IsValid t → (k : Relation) (s r : SymbolId) → IsNormal t (transform_comp t k s r)
unfolding transform_comp transform_equal transform_unequal
transform_comp-IsNormal t v equal s r = ground (arith, boolean_gt t v s)
transform_comp-IsNormal t v unequal s r = ground (arith, boolean_gt t v s)
transform_comp-IsNormal t v _ s r = tt

not_symbol-IsNormal : (t : Table) (s : SymbolId) → IsNormal t (not_symbol s)
unfolding not_symbol
not_symbol-IsNormal t s = ground arith

negated-IsNormal :
    (t : Table) (k : Relation) (s r : SymbolId)
    → IsNormal t (comp k s r)
    → IsNormal t (comp (negated k) s r)
unfolding negated
negated-IsNormal t equal s r h = h
negated-IsNormal t unequal s r h = h
negated-IsNormal t _ s r h = tt

module _ (t : Table) (again : Expr → Option Expr)
    (normal : (e r : Expr) → IsLogical e → again e ≡ some r → IsNormal t r) where
  transform_not-IsNormal :
      (e r : Expr) → IsLogical e → IsNormal t e → transform_not again e ≡ some r → IsNormal t r
  unfolding transform_not
  transform_not-IsNormal (symbol s) r l n h =
      subst (IsNormal t) (eq_of_some-eq_some h) (not_symbol-IsNormal t s)
  transform_not-IsNormal (comp k a b) r l n h =
      subst (IsNormal t) (eq_of_some-eq_some h) (negated-IsNormal t k a b n)
  transform_not-IsNormal (not e) r (negation l) n h = normal e r l h
  transform_not-IsNormal (or a b) r (disjunction la lb) n h =
      normal _ r (conjunction (negation la) (negation lb)) h
  transform_not-IsNormal (and a b) r (conjunction la lb) n h =
      normal _ r (disjunction (negation la) (negation lb)) h
  transform_not-IsNormal (list _) r l n h = elim l [ ]
  transform_not-IsNormal (range _ _) r l n h = elim l [ ]

transform_within-IsNormal :
    (t : Table)
    → IsValid t
    → (f : ℕ) (e r : Expr) → IsLogical e
    → transform_within f t e ≡ some r
    → IsNormal t r
unfolding transform_within
transform_within-IsNormal t v zero e r l h = cc
transform_within-IsNormal t v (suc f) (symbol s) r l h =
    subst (IsNormal t) (eq_of_some-eq_some h) tt
transform_within-IsNormal t v (suc f) (comp k a b) r l h =
    subst (IsNormal t) (eq_of_some-eq_some h) (transform_comp-IsNormal t v k a b)
transform_within-IsNormal t v (suc f) (and a b) r (conjunction la lb) h =
    let (x, hx, rest) = >>=-eq-some (transform_within f t a) _ h in
    let (y, hy, made) = >>=-eq-some (transform_within f t b) _ rest in
    subst (IsNormal t) (eq_of_some-eq_some made)
      (transform_within-IsNormal t v f a x la hx, transform_within-IsNormal t v f b y lb hy)
transform_within-IsNormal t v (suc f) (or a b) r (disjunction la lb) h =
    let (x, hx, rest) = >>=-eq-some (transform_within f t a) _ h in
    let (y, hy, made) = >>=-eq-some (transform_within f t b) _ rest in
    subst (IsNormal t) (eq_of_some-eq_some made)
      (transform_within-IsNormal t v f a x la hx, transform_within-IsNormal t v f b y lb hy)
transform_within-IsNormal t v (suc f) (not a) r (negation la) h =
    let (x, hx, rest) = >>=-eq-some (transform_within f t a) _ h in
    transform_not-IsNormal t (transform_within f t) (transform_within-IsNormal t v f) x r
      (transform_within-IsLogical f t a x la hx) (transform_within-IsNormal t v f a x la hx) rest
transform_within-IsNormal t v (suc f) (list _) r l h = elim l [ ]
transform_within-IsNormal t v (suc f) (range _ _) r l h = elim l [ ]

-- Over a valid table, in what expr_transform makes of a tree of symbols, comparisons and operators
-- a `!` stands only above a symbol other than `y`, `m` and `n`, and no bool symbol is compared for
-- equality with one of these.
pub expr_transform-IsNormal :
    (t : Table) (e : Expr) {r : Expr}
    → IsValid t
    → IsLogical e
    → expr_transform t e ≡ some r
    → IsNormal t r
unfolding expr_transform
expr_transform-IsNormal t e v l h = transform_within-IsNormal t v (weight e) e _ l h
