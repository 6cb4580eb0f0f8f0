-- ===== src/Config/Query/Frame.antt =====
-- An expression that does not contain a symbol does not see it change.
use dir842v2_gpl.Common.{◌∙◌, ℕ, ◌-◌, ◌≡◌, ◌≢◌, refl, ap, arith, false, Bool, ◌==◌, ==_iff}
use mathlib.Core.Path.{ap₂}
use dir842v2_gpl.Config.Types.{
  SymbolId, expr_and, expr_or, Expr, symbol, not, and, or, comp, Symbol, Table,
}
use dir842v2_gpl.Config.Value.{
  expr_calc_value, sym_get_string_value, compare_symbols, modules_off, string_of_type,
}
use dir842v2_gpl.Config.Query.{expr_contains_symbol}

-- Two tables that differ in one symbol at most, which is not `modules_sym`.
pub record DifferAt (s : SymbolId) (t u : Table) : Type 0 where
  pub elsewhere : (x : SymbolId) → x ≢ s → t.at x ≡ u.at x
  pub same_modules : t.modules_sym ≡ u.modules_sym
  pub not_modules : t.modules_sym ≢ s

module _ {s : SymbolId} {t u : Table} (d : DifferAt s t u) where
  unchanged_symbol : (x : SymbolId) → (x == s) ≡ false → t.at x ≡ u.at x
  unchanged_symbol x h = d.elsewhere x (ground (arith, ==_iff x s))

  modules_off-eq : modules_off t ≡ modules_off u
  modules_off-eq =
      ap (λ (x : Symbol). x.curr_tri == 0)
        (d.elsewhere t.modules_sym d.not_modules ∙ ap u.at d.same_modules)

  string_value-eq :
      (x : SymbolId) → (x == s) ≡ false → sym_get_string_value t x ≡ sym_get_string_value u x
  unfolding sym_get_string_value
  string_value-eq x h =
      ap₂ (λ (a : Symbol) (off : Bool). string_of_type a.type off a) (unchanged_symbol x h)
        modules_off-eq

-- Two tables that differ in one symbol only, which is not `modules_sym`, give one value to every
-- expression that expr_contains_symbol does not find that symbol in.
pub expr_contains_symbol_frame :
    (s : SymbolId) (t u : Table) (e : Expr)
    → DifferAt s t u
    → expr_contains_symbol e s ≡ false
    → expr_calc_value t e ≡ expr_calc_value u e
unfolding expr_contains_symbol expr_calc_value compare_symbols
expr_contains_symbol_frame s t u (symbol x) d h =
    ap (λ (a : Symbol). a.curr_tri) (unchanged_symbol d x h)
expr_contains_symbol_frame s t u (and l r) d h =
    ap₂ expr_and (expr_contains_symbol_frame s t u l d (ground arith))
      (expr_contains_symbol_frame s t u r d (ground arith))
expr_contains_symbol_frame s t u (or l r) d h =
    ap₂ expr_or (expr_contains_symbol_frame s t u l d (ground arith))
      (expr_contains_symbol_frame s t u r d (ground arith))
expr_contains_symbol_frame s t u (not e) d h =
    ap (λ (x : ℕ). 2 - x) (expr_contains_symbol_frame s t u e d h)
expr_contains_symbol_frame s t u (comp k a b) d h =
    let ha : (a == s) ≡ false = ground arith in
    let hb : (b == s) ≡ false = ground arith in
    rw
      (
        unchanged_symbol d a ha,
        unchanged_symbol d b hb,
        string_value-eq d a ha,
        string_value-eq d b hb,
      )
      refl
expr_contains_symbol_frame s t u _ d h = refl
