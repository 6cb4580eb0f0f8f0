-- ===== src/Config/Calc/Tests.antt =====
-- Runs of sym_calc_value, and the theorems applied to them.
use dir842v2_gpl.Common.{
  ◌≢◌, ◌≤◌, ◌⊎◌, inl, true, decimal, decimal_within, ◌≡◌, refl, false, [], ◌∷◌, Option, none, some,
  codes,
}
use dir842v2_gpl.Config.Types.{expr_or, expr_and, Tristate, tri_no, tri_mod, tri_yes, SymbolId}
use dir842v2_gpl.Config.Numbers.{strtoll}
use dir842v2_gpl.Config.Calc.{
  sym_calc_value, update_modules, finish, settle_tristate, settle_text, calc_blank, calc_new,
  calc_choice_first, calc_invalid, calc_body,
}
use dir842v2_gpl.Config.Calc.State.{set_write, Val, text, World}
use dir842v2_gpl.Config.Calc.State.{
  ◌>>=◌, pure, sym_at, get_modules_val, get_modules_sym, set_modules_val, write_sym, modify, when,
  sym_get_choice_prop, type_within, get_type,
}
use dir842v2_gpl.Config.Calc.Deps.{
  expr_and_value, modules_text, switch_text, string_value, expr_calc_value, calc_value, found_or,
  first_found, sym_get_default_prop, sym_get_range_prop, sym_get_range_val, set_limit,
  validate_high, validate_between, validate_typed, validate_for, sym_validate_range, prompt_tri,
  prompt, prompts, dependency, set_dependencies, sym_calc_visibility,
}
use dir842v2_gpl.Config.Calc.Choices.{
  clear_value, clear_values, set_all_choice_values, find_visible, write_values, default_value,
  choice_default_of, first_default, sym_choice_default, calc_values, user_choice, default_choice,
  sym_calc_choice,
}
use dir842v2_gpl.Config.Calc.Newval.{
  value_in_choice, written_if, tri_of_default, default_or_implied, default_tristate,
  value_with_selects, calc_tristate, text_of_default, calc_text,
}
use dir842v2_gpl.Config.Calc.Settles.{curr}
use dir842v2_gpl.Config.Calc.NewvalSound.{calc_tristate_sound}
use dir842v2_gpl.Config.Calc.Once.{IsCalculated, enough, sym_calc_value_ends, sym_calc_value_keeps}
use dir842v2_gpl.Config.Calc.Sample.{world, world-HasSymbols}

abbrev value_after : SymbolId → Option (Tristate × Val)
value_after s = elim (sym_calc_value (enough 10) s world) [
  | none ↦ none
  | some (u, v) ↦ some ((v.at s).curr_tri, (v.at s).curr_val)
]

ran :
    value_after 3 ∷ value_after 4 ∷ value_after 5 ∷ value_after 6 ∷ []
    ≡ some (tri_yes, text (codes "n"))
      ∷ some (tri_mod, text (codes "n"))
      ∷ some (tri_no, text (codes "64"))
      ∷ some (tri_yes, text (codes "n"))
      ∷ []
unfolding sym_calc_value update_modules finish settle_tristate settle_text calc_blank calc_new
    calc_choice_first calc_invalid calc_body ◌>>=◌ pure sym_at get_modules_val get_modules_sym
    set_modules_val write_sym modify when sym_get_choice_prop type_within get_type modules_text
    switch_text string_value expr_calc_value calc_value found_or first_found sym_get_default_prop
    sym_get_range_prop sym_get_range_val set_limit validate_high validate_between validate_typed
    validate_for sym_validate_range prompt_tri prompt prompts dependency set_dependencies
    sym_calc_visibility clear_value clear_values set_all_choice_values find_visible write_values
    default_value choice_default_of first_default sym_choice_default calc_values user_choice
    default_choice sym_calc_choice value_in_choice written_if expr_and_value tri_of_default
    default_or_implied default_tristate value_with_selects calc_tristate text_of_default calc_text
    expr_or expr_and strtoll decimal decimal_within
ran = refl

-- What a call for B leaves.
abbrev after_b : World
after_b = (sym_calc_value_ends 10 4 world world-HasSymbols).0

ended : sym_calc_value (enough 10) 4 world ≡ some (tt, after_b)
ended = (sym_calc_value_ends 10 4 world world-HasSymbols).1

sym_calc_value_ends_example :
    (v : World) × (sym_calc_value (enough 10) 4 world ≡ some (tt, v))
    × ((false ≡ true) ⊎ IsCalculated (v.at 4))
sym_calc_value_ends_example = sym_calc_value_ends 10 4 world world-HasSymbols

sym_calc_value_keeps_example :
    IsCalculated (after_b.at 1)
    × (curr (after_b.at 1) ≡ record { tri = tri_mod; val = text (codes "m") })
sym_calc_value_keeps_example =
    sym_calc_value_keeps 10 4 1 world after_b world-HasSymbols ended
      (record { valid = refl; no_need = refl })

-- The default of MODULES.
defaulted : calc_tristate (sym_calc_value 1) 6 world ≡ some (tri_yes, write_sym 6 set_write world)
unfolding sym_calc_value update_modules finish settle_tristate settle_text calc_blank calc_new
    calc_choice_first calc_invalid calc_body ◌>>=◌ pure sym_at get_modules_val get_modules_sym
    set_modules_val write_sym modify when sym_get_choice_prop type_within get_type modules_text
    switch_text string_value expr_calc_value calc_value found_or first_found sym_get_default_prop
    sym_get_range_prop sym_get_range_val set_limit validate_high validate_between validate_typed
    validate_for sym_validate_range prompt_tri prompt prompts dependency set_dependencies
    sym_calc_visibility clear_value clear_values set_all_choice_values find_visible write_values
    default_value choice_default_of first_default sym_choice_default calc_values user_choice
    default_choice sym_calc_choice value_in_choice written_if expr_and_value tri_of_default
    default_or_implied default_tristate value_with_selects calc_tristate text_of_default calc_text
    expr_or expr_and strtoll decimal decimal_within
defaulted = refl

calc_tristate_sound_example : (tri_yes ≢ tri_mod) × (0 ≤ tri_yes)
unfolding type_within write_sym
calc_tristate_sound_example =
    calc_tristate_sound (sym_calc_value 1) 6 world (write_sym 6 set_write world) tri_yes refl
      defaulted (inl refl)
