-- ===== src/Config/Setting/Toggle.antt =====
-- How sym_toggle_tristate_value ends.
use dir842v2_gpl.Common.{
  Option-cases, sym, ℕ, zero, suc, ◌≤◌, ◌≡◌, ◌≢◌, ◌⊎◌, inl, inr, refl, arith, false, Option, none,
  some, ◌==◌,
}
use dir842v2_gpl.Config.Types.{Tristate, tri_yes, SymbolId}
use dir842v2_gpl.Config.Setting.{
  State, symbol_at, sym_tristate_within_range, assign, sym_set_tristate_value, next_value, Toggled,
  toggle_within, sym_toggle_tristate_value,
}

accepts-current :
    (st : State) (s : SymbolId) (val : Tristate)
    → (symbol_at st s).curr_tri ≡ val
    → sym_set_tristate_value st s val ≡ some (assign s val st)
unfolding sym_set_tristate_value
accepts-current st s val h = ground arith

refused-range :
    (st : State) (s : SymbolId) (v : Tristate)
    → sym_set_tristate_value st s v ≡ none
    → sym_tristate_within_range st s v ≡ false
unfolding sym_set_tristate_value
refused-range st s v h = ground arith

-- The values that are tried, from one that is a tristate.
record Cycle (c : Tristate) : Type 0 where
  first : next_value c ≢ c
  second : next_value (next_value c) ≢ c
  third : next_value (next_value (next_value c)) ≡ c
  every : (v : Tristate) → v ≤ tri_yes → v ≢ c → v ≡ next_value c ⊎ v ≡ next_value (next_value c)

cycle : (c : Tristate) → c ≤ tri_yes → Cycle c
cycle zero h = record {
  first = omega arith;
  second = omega arith;
  third = refl;
  every = λ v l n. ground arith;
}
cycle (suc zero) h = record {
  first = omega arith;
  second = omega arith;
  third = refl;
  every = λ v l n. ground arith;
}
cycle (suc (suc zero)) h = record {
  first = omega arith;
  second = omega arith;
  third = refl;
  every = λ v l n. ground arith;
}
cycle (suc (suc (suc c))) h = absurd (omega (arith, h))

abbrev Toggles : State → SymbolId → Option Toggled → Type 0
Toggles st s result =
    (r : Toggled) × (result ≡ some r)
    × (sym_set_tristate_value st s r.value ≡ some r.state)
    × (r.value ≡ (symbol_at st s).curr_tri
        → (v : Tristate) → v ≤ tri_yes
        → v ≢ (symbol_at st s).curr_tri
        → sym_tristate_within_range st s v ≡ false)

toggle-some :
    (fuel : ℕ) (st : State) (s : SymbolId) (new : Tristate) (after : State)
    → next_value new ≢ (symbol_at st s).curr_tri
    → sym_set_tristate_value st s (next_value new) ≡ some after
    → Toggles st s (toggle_within (suc fuel) st s (symbol_at st s).curr_tri new)
unfolding toggle_within
toggle-some fuel st s new after n h = (
  record { state = after; value = next_value new },
  rw (toggle_within, h) refl,
  h,
  λ e. absurd (n e),
)

toggle-none :
    (fuel : ℕ) (st : State) (s : SymbolId) (new : Tristate)
    → next_value new ≢ (symbol_at st s).curr_tri
    → sym_set_tristate_value st s (next_value new) ≡ none
    → toggle_within (suc fuel) st s (symbol_at st s).curr_tri new
      ≡ toggle_within fuel st s (symbol_at st s).curr_tri (next_value new)
unfolding toggle_within
toggle-none fuel st s new n h =
    let f : ((symbol_at st s).curr_tri == next_value new) ≡ false = ground arith in
    rw (toggle_within, h, f) refl

toggle-back :
    (st : State) (s : SymbolId)
    → Cycle (symbol_at st s).curr_tri
    → sym_set_tristate_value st s (next_value (symbol_at st s).curr_tri) ≡ none
    → sym_set_tristate_value st s (next_value (next_value (symbol_at st s).curr_tri)) ≡ none
    → Toggles st s (
        toggle_within 1 st s
          (symbol_at st s).curr_tri
          (next_value (next_value (symbol_at st s).curr_tri)))
unfolding toggle_within
toggle-back st s k e1 e2 =
    let v = next_value (next_value (next_value (symbol_at st s).curr_tri)) in
    let h = accepts-current st s v (sym k.third) in
    (
      record { state = assign s v st; value = v },
      rw (toggle_within, h) refl,
      h,
      λ _ w l n. elim (k.every w l n) [
        | inl q ↦ rw q (refused-range st s _ e1)
        | inr q ↦ rw q (refused-range st s _ e2)
      ],
    )

-- Toggling a symbol whose value is a tristate ends, with a value that sym_set_tristate_value
-- accepts and the state that it gives. That is the old value only if neither other value is in
-- range.
pub sym_toggle_tristate_value_total :
    (st : State) (s : SymbolId)
    → (symbol_at st s).curr_tri ≤ tri_yes
    → (r : Toggled) × (sym_toggle_tristate_value st s ≡ some r)
      × (sym_set_tristate_value st s r.value ≡ some r.state)
      × (r.value ≡ (symbol_at st s).curr_tri
          → (v : Tristate) → v ≤ tri_yes
          → v ≢ (symbol_at st s).curr_tri
          → sym_tristate_within_range st s v ≡ false)
unfolding sym_toggle_tristate_value
sym_toggle_tristate_value_total st s h =
    let c = (symbol_at st s).curr_tri in
    let k = cycle c h in
    elim (Option-cases (sym_set_tristate_value st s (next_value c))) [
      | inr u ↦ toggle-some 2 st s c u.0 k.first u.1
      | inl e1 ↦ elim (Option-cases (sym_set_tristate_value st s (next_value (next_value c)))) [
        | inr u ↦
            rw (toggle-none 2 st s c k.first e1)
              (toggle-some 1 st s (next_value c) u.0 k.second u.1)
        | inl e2 ↦
            rw (toggle-none 2 st s c k.first e1, toggle-none 1 st s (next_value c) k.second e2)
              (toggle-back st s k e1 e2)
      ]
    ]
