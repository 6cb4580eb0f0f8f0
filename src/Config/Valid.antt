-- ===== src/Config/Valid.antt =====
-- What holds of a symbol table after a pass of sym_calc_value, in package/config/symbol.c: the
-- three constants are as initialised, values are tristates, and no symbol is `m` unless
-- sym_get_type gives it the type S_TRISTATE, since sym_calc_value rounds such a value up to `y`.
pub mod Bounds
use dir842v2_gpl.Common.{◌≡◌, ◌≢◌, ◌≤◌, refl, false, codes}
use dir842v2_gpl.Config.Types.{
  SymbolId, symbol_no, symbol_mod, symbol_yes, tri_no, tri_mod, tri_yes, boolean, tristate, Table,
  constant,
}
use dir842v2_gpl.Config.Value.{modules_off}

pub record IsValid (t : Table) : Type 0 where
  pub no_constant : t.at symbol_no ≡ constant (codes "n") tri_no
  pub mod_constant : t.at symbol_mod ≡ constant (codes "m") tri_mod
  pub yes_constant : t.at symbol_yes ≡ constant (codes "y") tri_yes
  pub le_yes : (s : SymbolId) → (t.at s).curr_tri ≤ tri_yes
  pub boolean_ne_mod : (s : SymbolId) → (t.at s).type ≡ boolean → (t.at s).curr_tri ≢ tri_mod
  pub tristate_mod :
      (s : SymbolId)
      → (t.at s).type ≡ tristate
      → (t.at s).curr_tri ≡ tri_mod
      → modules_off t ≡ false
