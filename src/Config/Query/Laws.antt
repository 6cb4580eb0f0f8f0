-- ===== src/Config/Query/Laws.antt =====
-- The values of what these functions build, and what it means that an expression depends on a
-- symbol.
use mathlib.Core.Path.{ap₂}
use dir842v2_gpl.Common.{
  ℕ, ◌-◌, ◌≡◌, ◌≢◌, refl, ap, arith, true, Bool-cases, inl, inr, Option, none, some, ◌==◌, ◌&&◌,
  ==_iff,
}
use dir842v2_gpl.Config.Types.{
  expr_and-min, SymbolId, symbol_no, Tristate, tri_no, tri_mod, expr_and, expr_or, tristate_laws,
  equal, unequal, Expr, symbol, not, and, or, comp, SymbolType, tristate, Table,
}
use dir842v2_gpl.Config.Valid.{IsValid}
use dir842v2_gpl.Config.Valid.Bounds.{calc-le-yes}
use dir842v2_gpl.Config.Value.{expr_calc_value, calc_value}
use dir842v2_gpl.Config.Value.Constants.{IsSwitch, calc-equal, calc-unequal}
use dir842v2_gpl.Config.Query.{
  expr_alloc_and, expr_alloc_or, is_tristate, expr_trans_bool, expr_depends_symbol,
}

-- A missing operand of expr_alloc_or counts as `n`.
abbrev pub value_or_no : Table → Option Expr → Tristate
value_or_no t none = tri_no
value_or_no t (some e) = expr_calc_value t e

-- Over a valid table, expr_alloc_and gives an expression whose value is the EXPR_AND of the two
-- values, a missing operand being `y`; expr_alloc_or gives the EXPR_OR, a missing operand being
-- `n`.
pub calc-expr_alloc :
    (t : Table) (e1 e2 : Option Expr)
    → IsValid t
    → (calc_value t (expr_alloc_and e1 e2) ≡ expr_and (calc_value t e1) (calc_value t e2))
      × (value_or_no t (expr_alloc_or e1 e2) ≡ expr_or (value_or_no t e1) (value_or_no t e2))
unfolding expr_alloc_and expr_alloc_or calc_value expr_calc_value
calc-expr_alloc t none none v = (omega tristate_laws, omega tristate_laws)
calc-expr_alloc t none (some b) v = (omega (tristate_laws, calc-le-yes t v b), omega tristate_laws)
calc-expr_alloc t (some a) none v = (omega (tristate_laws, calc-le-yes t v a), omega tristate_laws)
calc-expr_alloc t (some a) (some b) v = (refl, refl)

is_tristate-eq : (k : SymbolType) → is_tristate k ≡ true → k ≡ tristate
is_tristate-eq tristate h = refl
is_tristate-eq _ h = cc

-- Over a valid table in which no tristate symbol is `m`, expr_trans_bool keeps the value of an
-- expression.
pub expr_trans_bool_sound :
    (t : Table) (e : Expr)
    → IsValid t
    → ((s : SymbolId) → (t.at s).type ≡ tristate → (t.at s).curr_tri ≢ tri_mod)
    → expr_calc_value t (expr_trans_bool t e) ≡ expr_calc_value t e
unfolding expr_trans_bool expr_calc_value
expr_trans_bool_sound t (and l r) v h =
    ap₂ expr_and (expr_trans_bool_sound t l v h) (expr_trans_bool_sound t r v h)
expr_trans_bool_sound t (or l r) v h =
    ap₂ expr_or (expr_trans_bool_sound t l v h) (expr_trans_bool_sound t r v h)
expr_trans_bool_sound t (not e) v h = ap (λ (x : ℕ). 2 - x) (expr_trans_bool_sound t e v h)
expr_trans_bool_sound t (comp unequal s r) v h =
    elim (Bool-cases (is_tristate (t.at s).type && r == symbol_no)) [
      | inl b ↦
          let k : (t.at s).type ≡ tristate = is_tristate-eq (t.at s).type (ground arith) in
          rw b (ground (arith, h s k, v.le_yes s, calc-unequal t v s 0 (inr k)))
      | inr b ↦ rw b
    ]
expr_trans_bool_sound t _ v h = refl

-- Over a valid table, an expression that depends on a bool or tristate symbol is `n` while the
-- symbol is.
pub expr_depends_symbol_sound :
    (t : Table) (e : Expr) (s : SymbolId)
    → IsValid t
    → IsSwitch (t.at s).type
    → expr_depends_symbol e s ≡ true
    → (t.at s).curr_tri ≡ tri_no
    → expr_calc_value t e ≡ tri_no
unfolding expr_depends_symbol expr_calc_value
expr_depends_symbol_sound t (and l r) s v k d z = ground (
  arith,
  expr_depends_symbol_sound t l s v k,
  expr_depends_symbol_sound t r s v k,
  expr_and-min (expr_calc_value t l) (expr_calc_value t r),
)
expr_depends_symbol_sound t (symbol x) s v k d z = rw ((==_iff x s).0 d) z
expr_depends_symbol_sound t (comp equal a b) s v k d z =
    ground (arith, calc-equal t v s 1 k, calc-equal t v s 2 k)
expr_depends_symbol_sound t (comp unequal a b) s v k d z = ground (arith, calc-unequal t v s 0 k)
expr_depends_symbol_sound t _ s v k d z = cc
