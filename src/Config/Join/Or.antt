-- ===== src/Config/Join/Or.antt =====
-- What expr_join_or puts in place of two operands has the value of their `||`.
use dir842v2_gpl.Common.{
  ℕ, >>=-eq-some, eq_of_some-eq_some, ◌≡◌, refl, ◌≤◌, arith, true, false, some, Bool, inr, ◌==◌,
  if◌then◌else◌, max,
}
use dir842v2_gpl.Config.Join.Operands.{
  Operand, is_equal-value, is_any_symbol-value, is_not_symbol-value, on_one_symbol-eq,
}
use dir842v2_gpl.Config.Join.{
  is_equal, either_way, or_tristate, or_boolean, or_rules, on_one_symbol, expr_join_or,
}
use dir842v2_gpl.Config.Types.{
  SymbolId, SymbolType, tristate_laws, tri_no, tri_yes, unequal, Expr, comp, Table, expr_or,
  expr_or-max, boolean, tristate,
}
use dir842v2_gpl.Config.EliminateEq.{expr_eq, expr_copy}
use dir842v2_gpl.Config.EliminateEq.Meaning.{expr_copy-eq}
use dir842v2_gpl.Config.EliminateEq.Sound.{expr_eq_sound}
use dir842v2_gpl.Config.EliminateYn.Meaning.{yes_value}
use dir842v2_gpl.Config.Valid.{IsValid}
use dir842v2_gpl.Config.Value.Constants.{IsSwitch, calc-unequal}
use dir842v2_gpl.Config.Value.{expr_calc_value}

module _ (t : Table) (v : IsValid t) {s : SymbolId} {e1 e2 : Expr} (o1 : Operand s e1)
    (o2 : Operand s e2) where
  -- One value of the three is left out, so the two tests together are its negation.
  either_equal-value :
      (switch : IsSwitch (t.at s).type) (a b c : SymbolId)
      → a ≤ tri_yes
      → b ≤ tri_yes
      → c ≤ tri_yes
      → ((x : ℕ)
          → x ≤ tri_yes
          → max (if x == a then tri_yes else tri_no) (if x == b then tri_yes else tri_no)
            ≡ (if x == c then tri_no else tri_yes))
      → either_way (is_equal a) (is_equal b) e1 e2 ≡ true
      → expr_calc_value t (comp unequal s c) ≡ expr_or (expr_calc_value t e1) (expr_calc_value t e2)
  either_equal-value switch a b c ha hb hc partition h = ground (
    arith,
    partition (t.at s).curr_tri (v.le_yes s),
    calc-unequal t v s c switch hc,
    expr_or-max (expr_calc_value t e1) (expr_calc_value t e2),
    is_equal-value t v switch a o1 ha,
    is_equal-value t v switch b o1 hb,
    is_equal-value t v switch a o2 ha,
    is_equal-value t v switch b o2 hb,
  )

  or_tristate_sound :
      {e : Expr}
      → (t.at s).type ≡ tristate
      → or_tristate s e1 e2 ≡ some e
      → expr_calc_value t e ≡ expr_or (expr_calc_value t e1) (expr_calc_value t e2)
  unfolding or_tristate
  or_tristate_sound k h = ground (
    arith,
    either_equal-value (inr k) 2 1 0,
    either_equal-value (inr k) 2 0 1,
    either_equal-value (inr k) 1 0 2,
  )

  -- A bool symbol is `y` or `n`.
  or_boolean_sound :
      {e : Expr}
      → (t.at s).type ≡ boolean
      → or_boolean e1 e2 ≡ some e
      → expr_calc_value t e ≡ expr_or (expr_calc_value t e1) (expr_calc_value t e2)
  unfolding or_boolean expr_calc_value
  or_boolean_sound k h = ground (
    arith,
    yes_value t v,
    v.boolean_ne_mod s k,
    v.le_yes s,
    expr_or-max (expr_calc_value t e1) (expr_calc_value t e2),
    is_any_symbol-value t o1,
    is_any_symbol-value t o2,
    is_not_symbol-value t o1,
    is_not_symbol-value t o2,
  )

module _ (t : Table) (v : IsValid t) (e1 e2 : Expr) where
  or_rules_sound :
      (k : SymbolType) {s : SymbolId} {e : Expr}
      → Operand s e1
      → Operand s e2
      → (t.at s).type ≡ k
      → or_rules k s e1 e2 ≡ some e
      → expr_calc_value t e ≡ expr_or (expr_calc_value t e1) (expr_calc_value t e2)
  unfolding or_rules
  or_rules_sound boolean o1 o2 k h = or_boolean_sound t v o1 o2 k h
  or_rules_sound tristate o1 o2 k h = or_tristate_sound t v o1 o2 k h
  or_rules_sound _ o1 o2 k h = cc

  joined_or_sound :
      {e : Expr}
      → on_one_symbol or_rules t e1 e2 ≡ some e
      → expr_calc_value t e ≡ expr_or (expr_calc_value t e1) (expr_calc_value t e2)
  joined_or_sound h =
      let j = on_one_symbol-eq or_rules t e1 e2 h in or_rules_sound _ j.first j.second refl j.rule

-- Over a valid table, an expression that expr_join_or finds for two operands has the value of
-- their `||`.
pub expr_join_or_sound :
    (t : Table) (e1 e2 : Expr) {e : Expr}
    → IsValid t
    → expr_join_or t e1 e2 ≡ some (some e)
    → expr_calc_value t e ≡ expr_or (expr_calc_value t e1) (expr_calc_value t e2)
unfolding expr_join_or
expr_join_or_sound t e1 e2 {e} v h = decided (>>=-eq-some (expr_eq e1 e2) _ h)
  where
    decided :
        (b : Bool) × (expr_eq e1 e2 ≡ some b)
          × (some (if b then expr_copy e1 else on_one_symbol or_rules t e1 e2) ≡ some (some e))
        → expr_calc_value t e ≡ expr_or (expr_calc_value t e1) (expr_calc_value t e2)
    decided (true, q, r) =
        let same = expr_eq_sound t e1 e2 v q in
        rw (expr_copy-eq e1 (eq_of_some-eq_some r)) (omega (tristate_laws, same))
    decided (false, q, r) = joined_or_sound t v e1 e2 (eq_of_some-eq_some r)
