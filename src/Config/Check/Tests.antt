-- ===== src/Config/Check/Tests.antt =====
-- Concrete runs of sym_check_deps: symbol 0 is a choice with the value 1, symbol 2 depends on the
-- choice, and symbols 3 and 4 are free to depend on one another.
use dir842v2_gpl.Common.{
  ◌⊎◌, inr, ℕ, suc, zero, ◌≡◌, ◌<◌, refl, arith, Bool, true, false, List, [], ◌∷◌, Option, none,
  some, codes,
}
use dir842v2_gpl.Config.Types.{SymbolId, symbol, list}
use dir842v2_gpl.Config.Calc.State.{
  Property, Sym, p_prompt, p_choice, p_default, sym_get_choice_prop, choice_of, choice_values,
}
use dir842v2_gpl.Config.Calc.Sample.{fresh}
use dir842v2_gpl.Config.Check.{
  unless_found, sym_check_expr_deps, check_default, check_prop, check_props, sym_check_sym_deps,
  check_values, choice_found, check_group, sym_check_choice_deps, check_value_of, check_value,
  check_symbol, check_unchecked, check_body, sym_check_deps, check_all, no_checks, enough,
}
use dir842v2_gpl.Config.Check.State.{
  Checks, detected, value_contains, ◌>>=◌, pure, change, dep_stack_insert, dep_stack_remove,
  put_flags,
}
use dir842v2_gpl.Config.Check.Messages.{
  frames_from, frame_report, frame_reports, sym_check_print_recursive,
}
use dir842v2_gpl.Config.Check.Graph.{
  named, expr_symbols, props_symbols, symbols_of, all_expected, IsConsistent, IsReady,
}
use dir842v2_gpl.Config.Check.Cycles.{Chain, one}
use dir842v2_gpl.Config.Check.All.{sym_check_deps_restores, check_all_ends, check_all_sound}

abbrev prompt_if : SymbolId → Property
prompt_if s = record { kind = p_prompt; has_text = true; condition = some (symbol s); expr = none }

abbrev default_to : SymbolId → Property
default_to s = record {
  kind = p_default;
  has_text = false;
  condition = none;
  expr = some (symbol s);
}

abbrev the_choice : Sym
the_choice =
    record (fresh (codes "") (
      record { kind = p_choice; has_text = false; condition = none; expr = some (list (1 ∷ [])) }
      ∷ [])) { name = none; is_choice = true }

abbrev the_value : Sym
the_value =
    record (fresh (codes "VALUE") (
      record { kind = p_choice; has_text = false; condition = none; expr = some (symbol 0) }
      ∷ prompt_if 0
      ∷ [])) { is_choice_value = true }

-- What symbols 3 and 4 stand for is left open.
sample : Sym → Sym → SymbolId → Sym
sample c d zero = the_choice
sample c d (suc zero) = the_value
sample c d (suc (suc zero)) = fresh (codes "TWO") (prompt_if 0 ∷ [])
sample c d (suc (suc (suc zero))) = c
sample c d (suc (suc (suc (suc x)))) = d

abbrev free : Sym
free = fresh (codes "FREE") []

abbrev needs : SymbolId → Sym
needs s = fresh (codes "NEEDS") (default_to s ∷ [])

-- Two symbols whose defaults name one another.
cycle_found :
    (w : Checks) × (sym_check_deps (sample (needs 4) (needs 3)) (enough 5) 3 no_checks
      ≡ some (none, w))
    × (w.reports ≡ value_contains 4 3 ∷ value_contains 3 4 ∷ detected 3 ∷ [])
unfolding sample sym_check_deps check_body check_unchecked check_symbol sym_check_sym_deps
    check_props check_prop check_default sym_check_expr_deps unless_found sym_check_print_recursive
    frames_from frame_reports frame_report dep_stack_insert dep_stack_remove change pure ◌>>=◌
cycle_found = (_, refl, refl)

-- Symbol 3 defaults to symbol 4, which is free.
abbrev straight : SymbolId → Sym
straight = sample (needs 4) free

sample_mentions : (s y : SymbolId) → s < 5 → named y (symbols_of (straight s)) ≡ true → y < 5
unfolding sample named symbols_of props_symbols expr_symbols
sample_mentions zero y l h = cc
sample_mentions (suc zero) y l h = ground arith
sample_mentions (suc (suc zero)) y l h = ground arith
sample_mentions (suc (suc (suc zero))) y l h = ground arith
sample_mentions (suc (suc (suc (suc s)))) y l h = cc

sample_value :
    (c v : SymbolId)
    → c < 5
    → (straight c).is_choice ≡ true
    → named v (choice_values (straight c)) ≡ true
    → (v < 5) × ((straight v).is_choice_value ≡ true) × (choice_of (straight v) ≡ some c)
unfolding sample named sym_get_choice_prop
sample_value zero v l h m = let q : v ≡ 1 = ground arith in rw q (omega arith, refl, refl)
sample_value (suc zero) v l h m = cc
sample_value (suc (suc zero)) v l h m = cc
sample_value (suc (suc (suc zero))) v l h m = cc
sample_value (suc (suc (suc (suc c)))) v l h m = cc

sample_choice :
    (v : SymbolId)
    → (straight v).is_choice_value ≡ true
    → (c : SymbolId) × (choice_of (straight v) ≡ some c)
      × (c < 5)
      × ((straight c).is_choice ≡ true)
      × ((straight c).is_choice_value ≡ false)
      × (named v (choice_values (straight c)) ≡ true)
unfolding sample named sym_get_choice_prop
sample_choice zero h = cc
sample_choice (suc zero) h = (0, refl, omega arith, refl, refl, refl)
sample_choice (suc (suc zero)) h = cc
sample_choice (suc (suc (suc zero))) h = cc
sample_choice (suc (suc (suc (suc v)))) h = cc

straight-IsConsistent : IsConsistent straight 5
straight-IsConsistent = record {
  mentions = sample_mentions;
  value = sample_value;
  choice = sample_choice;
}

abbrev everyone : List SymbolId
everyone = 0 ∷ (1 ∷ (2 ∷ (3 ∷ (4 ∷ []))))

everyone_below : (s : SymbolId) → named s everyone ≡ true → s < 5
unfolding named
everyone_below s h = ground arith

straight_silent :
    (v : Checks) × (check_all straight (enough 5) everyone no_checks ≡ some (0, v))
    × (v.reports ≡ [])
unfolding sample sym_get_choice_prop check_all sym_check_deps check_body check_unchecked check_value
    check_value_of sym_check_choice_deps check_group check_values choice_found check_symbol
    sym_check_sym_deps check_props check_prop check_default sym_check_expr_deps unless_found
    dep_stack_insert dep_stack_remove put_flags change pure ◌>>=◌
straight_silent = (_, refl, refl)

check_all_sound_example : ¬ Chain straight 4 4
unfolding named symbols_of props_symbols expr_symbols sample
check_all_sound_example =
    check_all_sound straight 5 straight-IsConsistent everyone 0 straight_silent.0 everyone_below
      straight_silent.1 straight_silent.2 3 4 refl (inr (one refl))

check_all_ends_example :
    (errors : ℕ) × (v : Checks) × (check_all straight (enough 5) everyone no_checks
      ≡ some (errors, v))
    × (v.stack ≡ [])
    × ((x : SymbolId) → v.check x ≡ false)
    × (all_expected v.reports ≡ true)
check_all_ends_example = check_all_ends straight 5 straight-IsConsistent everyone everyone_below

no_checks-IsReady : IsReady straight no_checks
no_checks-IsReady = record {
  on_stack = λ x h. cc;
  marked = λ x h. h;
  together = λ v c value e. refl;
}

sym_check_deps_restores_example :
    (r : Option SymbolId) × (v : Checks) × (sym_check_deps straight (enough 5) 1 no_checks
      ≡ some (r, v))
    × (v.stack ≡ [])
    × ((x : SymbolId) → v.check x ≡ false)
    × ((x : SymbolId) → (◌≡◌ {A = Bool} false false) ⊎ (v.checked x ≡ true))
    × IsReady straight v
sym_check_deps_restores_example =
    sym_check_deps_restores straight 5 straight-IsConsistent 1 no_checks (omega arith)
      no_checks-IsReady
