-- ===== src/Config/Menu/Modules.antt =====
-- rewrite_m makes `m` follow MODULES.
use dir842v2_gpl.Common.{◌≡◌, ◌≤◌, refl, arith, Bool-cases, inl, inr, ◌==◌, if◌then◌else◌}
use dir842v2_gpl.Config.Types.{
  SymbolId, symbol_no, symbol_mod, tri_no, tri_mod, Expr, symbol, not, and, or, comp, list, range,
  Table, tristate_laws,
}
use dir842v2_gpl.Config.Valid.{IsValid}
use dir842v2_gpl.Config.Value.{expr_calc_value}
use dir842v2_gpl.Config.Menu.{rewrite_m}

-- An expression with `n` for every `m` that stands alone.
unfoldable pub without_modules : Expr → Expr
without_modules (not e) = not (without_modules e)
without_modules (and l r) = and (without_modules l) (without_modules r)
without_modules (or l r) = or (without_modules l) (without_modules r)
without_modules (symbol s) = if s == symbol_mod then symbol symbol_no else symbol s
without_modules e = e

module _ (t : Table) (valid : IsValid t) (modules : SymbolId) where
  no_value : (t.at symbol_no).curr_tri ≡ tri_no
  no_value = rw valid.no_constant refl

  mod_value : (t.at symbol_mod).curr_tri ≡ tri_mod
  mod_value = rw valid.mod_constant refl

  off :
      (e : Expr)
      → (t.at modules).curr_tri ≡ tri_no
      → expr_calc_value t (rewrite_m modules e) ≡ expr_calc_value t (without_modules e)
  unfolding rewrite_m without_modules expr_calc_value
  off (symbol s) h = elim (Bool-cases (s == symbol_mod)) [
    | inl e ↦
        let q : s ≡ symbol_mod = ground arith in
        rw (q, h, no_value, mod_value) (omega tristate_laws)
    | inr n ↦ rw n refl
  ]
  off (not e) h = rw (off e h) refl
  off (and l r) h = rw (off l h, off r h) refl
  off (or l r) h = rw (off l h, off r h) refl
  off (comp k s r) h = refl
  off (list xs) h = refl
  off (range s r) h = refl

  on :
      (e : Expr)
      → tri_mod ≤ (t.at modules).curr_tri
      → expr_calc_value t (rewrite_m modules e) ≡ expr_calc_value t e
  unfolding rewrite_m expr_calc_value
  on (symbol s) h = elim (Bool-cases (s == symbol_mod)) [
    | inl e ↦
        let q : s ≡ symbol_mod = ground arith in let m = mod_value in rw q (omega tristate_laws)
    | inr n ↦ rw n refl
  ]
  on (not e) h = rw (on e h) refl
  on (and l r) h = rw (on l h, on r h) refl
  on (or l r) h = rw (on l h, on r h) refl
  on (comp k s r) h = refl
  on (list xs) h = refl
  on (range s r) h = refl

  -- Over a valid table, what rewrite_m makes of an expression has the value of the expression itself
  -- when MODULES is not `n`, and when it is the value of the expression with `n` for every `m` that
  -- stands alone.
  pub rewrite_m_sound :
      (e : Expr)
      → expr_calc_value t (rewrite_m modules e)
        ≡ expr_calc_value t (if (t.at modules).curr_tri == tri_no then without_modules e else e)
  rewrite_m_sound e = elim (Bool-cases ((t.at modules).curr_tri == tri_no)) [
    | inl n ↦ rw n (off e (ground arith))
    | inr y ↦ rw y (on e (ground arith))
  ]
