-- ===== src/Config/Join/And.antt =====
-- What expr_join_and puts in place of two operands has the value of their `&&`.
use dir842v2_gpl.Config.EliminateEq.{expr_eq, expr_copy}
use dir842v2_gpl.Config.EliminateEq.Meaning.{expr_copy-eq}
use dir842v2_gpl.Config.EliminateEq.Sound.{expr_eq_sound}
use dir842v2_gpl.Config.EliminateYn.Meaning.{no_value}
use dir842v2_gpl.Common.{
  ◌⊎◌, >>=-eq-some, eq_of_some-eq_some, ℕ, ◌≡◌, refl, ◌∙◌, ◌≤◌, arith, true, false, some, none,
  Option, Bool, inl, inr, ◌==◌, if◌then◌else◌, min,
}
use dir842v2_gpl.Config.Join.Operands.{
  Operand, the_symbol, the_negation, an_equal, an_unequal, another, is_equal-value,
  is_unequal-value, is_any_symbol-value, on_one_symbol-eq,
}
use dir842v2_gpl.Config.Join.{
  is_unequal, either_way, and_switch, and_unequals, and_constants, equal_unequal, or_else,
  and_rules, on_one_symbol, expr_join_and,
}
use dir842v2_gpl.Config.Types.{
  SymbolType, tristate_laws, SymbolId, symbol_no, tri_no, tri_yes, equal, unequal, Expr, symbol,
  comp, Table, expr_and, expr_and-min, boolean, tristate,
}
use dir842v2_gpl.Config.Valid.{IsValid}
use dir842v2_gpl.Config.Value.Constants.{
  HasNames, calc_contradiction, calc_implication, HasNames, IsSwitch, calc-equal,
}
use dir842v2_gpl.Config.Value.{expr_calc_value}

module _ (t : Table) (v : IsValid t) {s : SymbolId} {e1 e2 : Expr} (o1 : Operand s e1)
    (o2 : Operand s e2) where
  and_switch_sound :
      {e : Expr}
      → IsSwitch (t.at s).type
      → and_switch s e1 e2 ≡ some e
      → expr_calc_value t e ≡ expr_and (expr_calc_value t e1) (expr_calc_value t e2)
  unfolding and_switch expr_calc_value
  and_switch_sound k h = ground (
    arith,
    v.le_yes s,
    calc-equal t v s 2 k,
    expr_and-min (expr_calc_value t e1) (expr_calc_value t e2),
    is_any_symbol-value t o1,
    is_any_symbol-value t o2,
    is_equal-value t v k 2 o1,
    is_equal-value t v k 2 o2,
    is_unequal-value t v k 0 o1,
    is_unequal-value t v k 0 o2,
    is_unequal-value t v k 1 o1,
    is_unequal-value t v k 1 o2,
  )

  -- Two values of the three are left out, so the two tests together ask for the third.
  either_unequal-value :
      (switch : IsSwitch (t.at s).type) (a b c : SymbolId)
      → a ≤ tri_yes
      → b ≤ tri_yes
      → c ≤ tri_yes
      → ((x : ℕ)
          → x ≤ tri_yes
          → min (if x == a then tri_no else tri_yes) (if x == b then tri_no else tri_yes)
            ≡ (if x == c then tri_yes else tri_no))
      → either_way (is_unequal a) (is_unequal b) e1 e2 ≡ true
      → expr_calc_value t (comp equal s c) ≡ expr_and (expr_calc_value t e1) (expr_calc_value t e2)
  either_unequal-value switch a b c ha hb hc partition h = ground (
    arith,
    partition (t.at s).curr_tri (v.le_yes s),
    calc-equal t v s c switch hc,
    expr_and-min (expr_calc_value t e1) (expr_calc_value t e2),
    is_unequal-value t v switch a o1 ha,
    is_unequal-value t v switch b o1 hb,
    is_unequal-value t v switch a o2 ha,
    is_unequal-value t v switch b o2 hb,
  )

  and_unequals_sound :
      {e : Expr}
      → (t.at s).type ≡ tristate
      → and_unequals s e1 e2 ≡ some e
      → expr_calc_value t e ≡ expr_and (expr_calc_value t e1) (expr_calc_value t e2)
  unfolding and_unequals
  and_unequals_sound k h = ground (
    arith,
    either_unequal-value (inr k) 2 0 1,
    either_unequal-value (inr k) 2 1 0,
    either_unequal-value (inr k) 1 0 2,
  )

calc-symbol : (t : Table) (s : SymbolId) → expr_calc_value t (symbol s) ≡ (t.at s).curr_tri
unfolding expr_calc_value
calc-symbol t s = refl

module _ (t : Table) (names : HasNames t) (s : SymbolId) (switch : IsSwitch (t.at s).type) where
  equal_unequal_sound :
      (b c : SymbolId) {e : Expr}
      → equal_unequal t s b c ≡ some e
      → (t.at symbol_no).curr_tri ≡ tri_no
      → expr_calc_value t e
        ≡ min (expr_calc_value t (comp equal s b)) (expr_calc_value t (comp unequal s c))
  unfolding equal_unequal
  equal_unequal_sound b c h no_tri = ground (
    arith,
    calc_contradiction t names s switch b,
    calc_implication t names s switch b c,
    calc-symbol t symbol_no,
  )

  and_constants_sound :
      {e1 e2 e : Expr}
      → (t.at symbol_no).curr_tri ≡ tri_no
      → Operand s e1
      → Operand s e2
      → and_constants t s e1 e2 ≡ some e
      → expr_calc_value t e ≡ expr_and (expr_calc_value t e1) (expr_calc_value t e2)
  unfolding and_constants
  and_constants_sound z (an_equal {r = b}) (an_unequal {r = c}) h =
      equal_unequal_sound b c h z ∙ omega tristate_laws
  and_constants_sound z (an_unequal {r = c}) (an_equal {r = b}) h =
      equal_unequal_sound b c h z ∙ omega tristate_laws
  and_constants_sound z an_equal _ h = cc
  and_constants_sound z an_unequal _ h = cc
  and_constants_sound z the_symbol _ h = cc
  and_constants_sound z the_negation _ h = cc
  and_constants_sound z another _ h = cc

or_else-eq : (a b : Option Expr) {e : Expr} → or_else a b ≡ some e → (a ≡ some e) ⊎ (b ≡ some e)
unfolding or_else
or_else-eq (some x) b h = inl h
or_else-eq none b h = inr h

module _ (t : Table) (v : IsValid t) (names : HasNames t) (e1 e2 : Expr) where
  and_tristate_sound :
      {s : SymbolId} {e : Expr}
      → Operand s e1
      → Operand s e2
      → (t.at s).type ≡ tristate
      → and_rules t tristate s e1 e2 ≡ some e
      → expr_calc_value t e ≡ expr_and (expr_calc_value t e1) (expr_calc_value t e2)
  unfolding and_rules
  and_tristate_sound {s} o1 o2 k h = elim (or_else-eq (and_switch s e1 e2) _ h) [
    | inl a ↦ and_switch_sound t v o1 o2 (inr k) a
    | inr rest ↦ elim (or_else-eq (and_constants t s e1 e2) _ rest) [
      | inl b ↦ and_constants_sound t names s (inr k) (no_value t v) o1 o2 b
      | inr c ↦ and_unequals_sound t v o1 o2 k c
    ]
  ]

  and_rules_sound :
      (k : SymbolType) {s : SymbolId} {e : Expr}
      → Operand s e1
      → Operand s e2
      → (t.at s).type ≡ k
      → and_rules t k s e1 e2 ≡ some e
      → expr_calc_value t e ≡ expr_and (expr_calc_value t e1) (expr_calc_value t e2)
  unfolding and_rules
  and_rules_sound boolean o1 o2 k h = and_switch_sound t v o1 o2 (inl k) h
  and_rules_sound tristate o1 o2 k h = and_tristate_sound o1 o2 k h
  and_rules_sound _ o1 o2 k h = cc

  joined_and_sound :
      {e : Expr}
      → on_one_symbol (and_rules t) t e1 e2 ≡ some e
      → expr_calc_value t e ≡ expr_and (expr_calc_value t e1) (expr_calc_value t e2)
  joined_and_sound h =
      let j = on_one_symbol-eq (and_rules t) t e1 e2 h in
      and_rules_sound _ j.first j.second refl j.rule

-- Over a valid table whose constants are names, an expression that expr_join_and finds for two
-- operands has the value of their `&&`.
pub expr_join_and_sound :
    (t : Table) (e1 e2 : Expr) {e : Expr}
    → IsValid t
    → HasNames t
    → expr_join_and t e1 e2 ≡ some (some e)
    → expr_calc_value t e ≡ expr_and (expr_calc_value t e1) (expr_calc_value t e2)
unfolding expr_join_and
expr_join_and_sound t e1 e2 {e} v names h = decided (>>=-eq-some (expr_eq e1 e2) _ h)
  where
    decided :
        (b : Bool) × (expr_eq e1 e2 ≡ some b)
          × (some (if b then expr_copy e1 else on_one_symbol (and_rules t) t e1 e2) ≡ some (some e))
        → expr_calc_value t e ≡ expr_and (expr_calc_value t e1) (expr_calc_value t e2)
    decided (true, q, r) =
        let same = expr_eq_sound t e1 e2 v q in
        rw (expr_copy-eq e1 (eq_of_some-eq_some r)) (omega (tristate_laws, same))
    decided (false, q, r) = joined_and_sound t v names e1 e2 (eq_of_some-eq_some r)
