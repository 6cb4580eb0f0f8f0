-- ===== src/Config/Setting/Laws.antt =====
-- The range of a symbol, and what setting it does.
use dir842v2_gpl.Common.{sym, ◌≤◌, ◌≡◌, ◌≢◌, arith, true}
use dir842v2_gpl.Config.Types.{
  Tristate, tri_mod, tri_yes, SymbolId, SymbolType, boolean, tristate, Symbol,
}
use dir842v2_gpl.Config.Setting.{
  State, symbol_at, sym_get_type, within, within_typed, sym_tristate_within_range,
}

within-bounds :
    (sym : Symbol) (val : Tristate)
    → sym.visible ≤ tri_yes
    → within sym val ≡ true
    → (sym.rev_dep ≤ val) × (val ≤ sym.visible)
within-bounds sym val v h = (ground arith, ground arith)

within_typed-bounds :
    (k : SymbolType) (sym : Symbol) (val : Tristate)
    → sym.visible ≤ tri_yes
    → within_typed k sym val ≡ true
    → (sym.rev_dep ≤ val) × (val ≤ sym.visible) × (k ≡ boolean → val ≢ tri_mod)
within_typed-bounds boolean sym val v h =
    let b = within-bounds sym val v (ground arith) in (b.0, b.1, λ e. ground arith)
within_typed-bounds tristate sym val v h = let b = within-bounds sym val v h in (b.0, b.1, cc)
within_typed-bounds _ sym val v h = cc

-- A value that sym_tristate_within_range accepts is not below the symbol's reverse dependencies
-- nor above its visibility, and is not `m` where sym_get_type says bool.
pub sym_tristate_within_range_sound :
    (st : State) (s : SymbolId) (val : Tristate)
    → (symbol_at st s).visible ≤ tri_yes
    → sym_tristate_within_range st s val ≡ true
    → ((symbol_at st s).rev_dep ≤ val)
      × (val ≤ (symbol_at st s).visible)
      × (sym_get_type st s ≡ boolean → val ≢ tri_mod)
unfolding sym_tristate_within_range
sym_tristate_within_range_sound st s val v h =
    within_typed-bounds (sym_get_type st s) (symbol_at st s) val v (ground arith)
