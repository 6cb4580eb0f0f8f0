-- ===== src/Config/Join/Operands.antt =====
-- The values of the operands that the rules of the two functions ask for.
use dir842v2_gpl.Common.{
  >>=-eq-some, none, Option, Bool-cases, inl, inr, sym, eq_of_some-eq_some, ==_iff, ◌-◌, ◌≡◌, refl,
  ap, ◌∙◌, ◌≤◌, true, some, ◌==◌, if◌then◌else◌,
}
use dir842v2_gpl.Config.Join.{
  on_one_symbol, is_equal, is_unequal, is_any_symbol, is_not_symbol, first_symbol, second_symbol,
}
use dir842v2_gpl.Config.Types.{
  SymbolId, SymbolType, tri_no, tri_yes, Relation, equal, unequal, Expr, symbol, not, comp, Table,
}
use dir842v2_gpl.Config.Valid.{IsValid}
use dir842v2_gpl.Config.Value.Constants.{IsSwitch, calc-equal, calc-unequal}
use dir842v2_gpl.Config.Value.{expr_calc_value}

-- What an operand may be, for the symbol `s`.
pub data Operand (s : SymbolId) : Expr → Type 0 where
  the_symbol : Operand s (symbol s)
  the_negation : Operand s (not (symbol s))
  an_equal : {r : SymbolId} → Operand s (comp equal s r)
  an_unequal : {r : SymbolId} → Operand s (comp unequal s r)
  another : {k : Relation} {x r : SymbolId} → Operand s (not (comp k x r))

pub first_symbol-Operand : (e : Expr) {s : SymbolId} → first_symbol e ≡ some s → Operand s e
unfolding first_symbol
first_symbol-Operand (symbol x) h = rw (eq_of_some-eq_some h) the_symbol
first_symbol-Operand (comp equal x r) h = rw (eq_of_some-eq_some h) an_equal
first_symbol-Operand (comp unequal x r) h = rw (eq_of_some-eq_some h) an_unequal
first_symbol-Operand (not (symbol x)) h = rw (eq_of_some-eq_some h) the_negation
first_symbol-Operand (not (comp equal x r)) h = another
first_symbol-Operand (not (comp unequal x r)) h = another
first_symbol-Operand _ h = cc

pub second_symbol-Operand : (e : Expr) {s : SymbolId} → second_symbol e ≡ some s → Operand s e
unfolding second_symbol
second_symbol-Operand (symbol x) h = rw (eq_of_some-eq_some h) the_symbol
second_symbol-Operand (comp equal x r) h = rw (eq_of_some-eq_some h) an_equal
second_symbol-Operand (comp unequal x r) h = rw (eq_of_some-eq_some h) an_unequal
second_symbol-Operand (not (symbol x)) h = rw (eq_of_some-eq_some h) the_negation
second_symbol-Operand _ h = cc

module _ (t : Table) (v : IsValid t) {s : SymbolId} (switch : IsSwitch (t.at s).type) where
  pub is_equal-value :
      {e : Expr} (r : SymbolId)
      → Operand s e
      → r ≤ tri_yes
      → is_equal r e ≡ true
      → expr_calc_value t e ≡ (if (t.at s).curr_tri == r then tri_yes else tri_no)
  unfolding is_equal
  is_equal-value r (an_equal {r = x}) hr h = rw ((==_iff x r).0 h) (calc-equal t v s r switch hr)
  is_equal-value r the_symbol hr h = cc
  is_equal-value r the_negation hr h = cc
  is_equal-value r an_unequal hr h = cc
  is_equal-value r another hr h = cc

  pub is_unequal-value :
      {e : Expr} (r : SymbolId)
      → Operand s e
      → r ≤ tri_yes
      → is_unequal r e ≡ true
      → expr_calc_value t e ≡ (if (t.at s).curr_tri == r then tri_no else tri_yes)
  unfolding is_unequal
  is_unequal-value r (an_unequal {r = x}) hr h =
      rw ((==_iff x r).0 h) (calc-unequal t v s r switch hr)
  is_unequal-value r the_symbol hr h = cc
  is_unequal-value r the_negation hr h = cc
  is_unequal-value r an_equal hr h = cc
  is_unequal-value r another hr h = cc

pub is_any_symbol-value :
    (t : Table) {s : SymbolId} {e : Expr}
    → Operand s e
    → is_any_symbol e ≡ true
    → expr_calc_value t e ≡ (t.at s).curr_tri
unfolding is_any_symbol expr_calc_value
is_any_symbol-value t the_symbol h = refl
is_any_symbol-value t the_negation h = cc
is_any_symbol-value t an_equal h = cc
is_any_symbol-value t an_unequal h = cc
is_any_symbol-value t another h = cc

pub is_not_symbol-value :
    (t : Table) {s : SymbolId} {e : Expr}
    → Operand s e
    → is_not_symbol e ≡ true
    → expr_calc_value t e ≡ 2 - (t.at s).curr_tri
unfolding is_not_symbol expr_calc_value
is_not_symbol-value t the_negation h = refl
is_not_symbol-value t the_symbol h = cc
is_not_symbol-value t an_equal h = cc
is_not_symbol-value t an_unequal h = cc
is_not_symbol-value t another h = cc

-- Two operands that are about one symbol, and the rule that applied to them.
pub record Joined (rules : SymbolType → SymbolId → Expr → Expr → Option Expr) (t : Table)
    (e1 e2 e : Expr) : Type 0 where
  pub symbol : SymbolId
  pub first : Operand symbol e1
  pub second : Operand symbol e2
  pub rule : rules (t.at symbol).type symbol e1 e2 ≡ some e

pub on_one_symbol-eq :
    (rules : SymbolType → SymbolId → Expr → Expr → Option Expr) (t : Table) (e1 e2 : Expr)
    {e : Expr}
    → on_one_symbol rules t e1 e2 ≡ some e
    → Joined rules t e1 e2 e
unfolding on_one_symbol
on_one_symbol-eq rules t e1 e2 {e} h =
    let (s1, h1, rest1) = >>=-eq-some (first_symbol e1) _ h in
    let (s2, h2, rest2) = >>=-eq-some (second_symbol e2) _ rest1 in compared s1 s2 h1 h2 rest2
  where
    compared :
        (s1 s2 : SymbolId)
        → first_symbol e1 ≡ some s1
        → second_symbol e2 ≡ some s2
        → (if s1 == s2 then rules (t.at s1).type s1 e1 e2 else none) ≡ some e
        → Joined rules t e1 e2 e
    compared s1 s2 h1 h2 r = elim (Bool-cases (s1 == s2)) [
      | inl same ↦ record {
        symbol = s1;
        first = first_symbol-Operand e1 h1;
        second = second_symbol-Operand e2 (h2 ∙ ap some (sym ((==_iff s1 s2).0 same)));
        rule = rw same at r;
      }
      | inr differ ↦ cc (rw differ at r)
    ]
