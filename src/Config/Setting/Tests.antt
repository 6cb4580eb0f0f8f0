-- ===== src/Config/Setting/Tests.antt =====
-- A tristate symbol that can be set, and the theorems applied to it.
use dir842v2_gpl.Common.{◌∷◌, ◌≡◌, ◌≢◌, ◌≤◌, refl, arith, true, false, [], none, some, codes}
use dir842v2_gpl.Config.Types.{
  Tristate, tri_no, tri_mod, tri_yes, boolean, tristate, Symbol, constant, no_flags,
}
use dir842v2_gpl.Config.Setting.{
  State, Toggled, symbol_at, sym_get_type, sym_tristate_within_range, sym_set_tristate_value,
  sym_toggle_tristate_value, assign,
}
use dir842v2_gpl.Config.Setting.Laws.{sym_tristate_within_range_sound}
use dir842v2_gpl.Config.Setting.Toggle.{sym_toggle_tristate_value_total}

-- Visible as `y`, selected as `m`.
abbrev modular : Symbol
modular = record (constant (codes "") tri_mod) {
  type = tristate;
  visible = tri_yes;
  rev_dep = tri_mod;
  flags = no_flags;
}

abbrev state : State
state = record {
  table = record { at = λ s. modular; modules_sym = 0 };
  modules_val = tri_yes;
  choice_of = λ s. s;
  choice_values = λ s. [];
  user_choice = λ s. none;
  changed = λ s. false;
  valid = true;
  change_count = 0;
}

in_range : sym_tristate_within_range state 3 tri_yes ≡ true
unfolding sym_tristate_within_range sym_get_type
in_range = refl

accepted : sym_set_tristate_value state 3 tri_yes ≡ some (assign 3 tri_yes state)
unfolding sym_set_tristate_value sym_tristate_within_range sym_get_type
accepted = refl

too_low : sym_set_tristate_value state 3 tri_no ≡ none
unfolding sym_set_tristate_value sym_tristate_within_range sym_get_type
too_low = refl

sym_tristate_within_range_sound_example :
    ((symbol_at state 3).rev_dep ≤ tri_yes)
    × (tri_yes ≤ (symbol_at state 3).visible)
    × (sym_get_type state 3 ≡ boolean → tri_yes ≢ tri_mod)
sym_tristate_within_range_sound_example =
    sym_tristate_within_range_sound state 3 tri_yes (omega arith) in_range

-- The symbols 3 and 4 are the values of the choice 5.
abbrev choice_value : Symbol
choice_value = record modular { flags = record no_flags { choice_val = true }; rev_dep = tri_no }

abbrev grouped : State
grouped = record state {
  table = record { at = λ s. choice_value; modules_sym = 0 };
  choice_of = λ s. 5;
  choice_values = λ s. 3 ∷ (4 ∷ []);
}

sym_toggle_tristate_value_total_example :
    (r : Toggled) × (sym_toggle_tristate_value state 3 ≡ some r)
    × (sym_set_tristate_value state 3 r.value ≡ some r.state)
    × (r.value ≡ (symbol_at state 3).curr_tri
        → (v : Tristate) → v ≤ tri_yes
        → v ≢ (symbol_at state 3).curr_tri
        → sym_tristate_within_range state 3 v ≡ false)
sym_toggle_tristate_value_total_example = sym_toggle_tristate_value_total state 3 (omega arith)
