-- ===== src/Config/Query/Tests.antt =====
-- Sample tables, and a run on one.
use dir842v2_gpl.Common.{zero, suc, ◌≤◌, ◌≡◌, ◌≢◌, refl, arith, true, codes}
use dir842v2_gpl.Config.Types.{
  SymbolId, Tristate, symbol_no, tri_no, tri_mod, tri_yes, unequal, Expr, symbol, and, comp,
  boolean, tristate, Symbol, Table, constant, no_flags,
}
use dir842v2_gpl.Config.Valid.{IsValid}
use dir842v2_gpl.Config.Query.{expr_contains_symbol}

abbrev pub switch : Symbol
switch = record (constant (codes "") tri_no) { flags = no_flags; type = boolean }

-- 3 is a bool `y` and 4 a tristate with the given value.
abbrev pub at_with : Tristate → SymbolId → Symbol
at_with v zero = constant (codes "n") tri_no
at_with v (suc zero) = constant (codes "m") tri_mod
at_with v (suc (suc zero)) = constant (codes "y") tri_yes
at_with v (suc (suc (suc zero))) = record switch { curr_tri = tri_yes }
at_with v (suc (suc (suc (suc zero)))) = record switch { type = tristate; curr_tri = v }
at_with v _ = switch

abbrev pub table_with : Tristate → Table
table_with v = record { at = at_with v; modules_sym = 3 }

with-le_yes : (v : Tristate) → v ≤ tri_yes → (s : SymbolId) → (at_with v s).curr_tri ≤ tri_yes
with-le_yes v h zero = omega arith
with-le_yes v h (suc zero) = omega arith
with-le_yes v h (suc (suc zero)) = omega arith
with-le_yes v h (suc (suc (suc zero))) = omega arith
with-le_yes v h (suc (suc (suc (suc zero)))) = h
with-le_yes v h (suc (suc (suc (suc (suc s))))) = omega arith

with-boolean :
    (v : Tristate) (s : SymbolId) → (at_with v s).type ≡ boolean → (at_with v s).curr_tri ≢ tri_mod
with-boolean v zero h = λ e. cc
with-boolean v (suc zero) h = λ e. cc
with-boolean v (suc (suc zero)) h = λ e. cc
with-boolean v (suc (suc (suc zero))) h = omega arith
with-boolean v (suc (suc (suc (suc zero)))) h = λ e. cc
with-boolean v (suc (suc (suc (suc (suc s))))) h = omega arith

pub with-IsValid : (v : Tristate) → v ≤ tri_yes → IsValid (table_with v)
with-IsValid v h = record {
  no_constant = refl;
  mod_constant = refl;
  yes_constant = refl;
  le_yes = with-le_yes v h;
  boolean_ne_mod = with-boolean v;
  tristate_mod = λ s k m. refl;
}

abbrev both : Expr
both = and (symbol 3) (comp unequal 4 symbol_no)

contains : expr_contains_symbol both 4 ≡ true
unfolding expr_contains_symbol
contains = refl
