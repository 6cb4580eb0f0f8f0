-- ===== src/Config/EliminateYn/Meaning.antt =====
-- Dropping the constants from an expression keeps its value.
use dir842v2_gpl.Common.{◌≡◌, refl, ap, ◌∙◌, arith, true}
use dir842v2_gpl.Config.EliminateYn.{is_symbol, reduce_and, reduce_or, expr_eliminate_yn}
use dir842v2_gpl.Config.Types.{
  SymbolId, symbol_no, symbol_mod, tri_mod, expr_and-min, expr_or-max, symbol_yes, tri_no, tri_yes,
  Expr, symbol, and, or, Table, expr_and, expr_or, Symbol,
}
use dir842v2_gpl.Config.Valid.{IsValid}
use dir842v2_gpl.Config.Valid.Bounds.{calc-le-yes}
use dir842v2_gpl.Config.Value.{expr_calc_value}

pub is_symbol-eq : (s : SymbolId) (e : Expr) → is_symbol s e ≡ true → e ≡ symbol s
unfolding is_symbol
is_symbol-eq s (symbol x) h = ground arith
is_symbol-eq s _ h = cc

module _ (t : Table) (v : IsValid t) where
  pub no_value : (t.at symbol_no).curr_tri ≡ tri_no
  no_value = ap (λ (s : Symbol). s.curr_tri) v.no_constant

  pub mod_value : (t.at symbol_mod).curr_tri ≡ tri_mod
  mod_value = ap (λ (s : Symbol). s.curr_tri) v.mod_constant

  pub yes_value : (t.at symbol_yes).curr_tri ≡ tri_yes
  yes_value = ap (λ (s : Symbol). s.curr_tri) v.yes_constant

  pub calc-is_no : (e : Expr) → is_symbol symbol_no e ≡ true → expr_calc_value t e ≡ tri_no
  unfolding expr_calc_value
  calc-is_no e h = rw (is_symbol-eq symbol_no e h) no_value

  pub calc-is_yes : (e : Expr) → is_symbol symbol_yes e ≡ true → expr_calc_value t e ≡ tri_yes
  unfolding expr_calc_value
  calc-is_yes e h = rw (is_symbol-eq symbol_yes e h) yes_value

  pub calc-reduce_and :
      (l r : Expr)
      → expr_calc_value t (reduce_and l r) ≡ expr_and (expr_calc_value t l) (expr_calc_value t r)
  unfolding reduce_and expr_calc_value
  calc-reduce_and l r = ground (
    arith,
    calc-is_no l,
    calc-is_yes l,
    calc-is_no r,
    calc-is_yes r,
    calc-le-yes t v l,
    calc-le-yes t v r,
    expr_and-min (expr_calc_value t l) (expr_calc_value t r),
    no_value,
  )

  pub calc-reduce_or :
      (l r : Expr)
      → expr_calc_value t (reduce_or l r) ≡ expr_or (expr_calc_value t l) (expr_calc_value t r)
  unfolding reduce_or expr_calc_value
  calc-reduce_or l r = ground (
    arith,
    calc-is_no l,
    calc-is_yes l,
    calc-is_no r,
    calc-is_yes r,
    calc-le-yes t v l,
    calc-le-yes t v r,
    expr_or-max (expr_calc_value t l) (expr_calc_value t r),
    yes_value,
  )

-- Over a valid table, dropping the constants `y` and `n` from an expression keeps its value.
pub calc-eliminate_yn :
    (t : Table) (e : Expr)
    → IsValid t
    → expr_calc_value t (expr_eliminate_yn e) ≡ expr_calc_value t e
unfolding expr_eliminate_yn expr_calc_value
calc-eliminate_yn t (and l r) v =
    calc-reduce_and t v _ _ ∙ simp (calc-eliminate_yn t l v, calc-eliminate_yn t r v)
calc-eliminate_yn t (or l r) v =
    calc-reduce_or t v _ _ ∙ simp (calc-eliminate_yn t l v, calc-eliminate_yn t r v)
calc-eliminate_yn t _ v = refl
