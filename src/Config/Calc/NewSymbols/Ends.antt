-- ===== src/Config/Calc/NewSymbols/Ends.antt =====
-- conf_set_all_new_symbols ends.
use dir842v2_gpl.Common.{ℕ, ◌*◌, ◌<◌, ◌≡◌, arith, Bool, true, false, List, [], ◌∷◌, some}
use dir842v2_gpl.Config.Types.{SymbolId}
use dir842v2_gpl.Config.Calc.{sym_calc_value}
use dir842v2_gpl.Config.Calc.State.{Sym, World, M, modify, when, choice_values}
use dir842v2_gpl.Config.Calc.Deps.{is_switch}
use dir842v2_gpl.Config.Calc.Choices.{clear_value, clear_values, values_set, set_all_choice_values}
use dir842v2_gpl.Config.Calc.Ends.{get_type-Ends}
use dir842v2_gpl.Config.Calc.SymbolEnd.{clear_value-Aside}
use dir842v2_gpl.Config.Calc.Once.{HasSymbols, enough, weight-calculated, IsCalculated-weight}
use dir842v2_gpl.Config.Calc.Strings.Runs.{
  AllBelow, no_symbols, one_below, Runs, bind-Runs, Ends-Runs, calls, pure-Runs, sym_at-Runs,
  modify-Runs, if-Runs, clear_all-Runs,
}
use dir842v2_gpl.Config.Calc.NewSymbols.{
  Mode, def_default, def_yes, def_mod, def_no, def_random, Chances, is_random, set_new_switch,
  set_without_value, set_new, set_all_new, mark_need, mark_all, set_choice_values, set_choice,
  set_choices, conf_set_all_new_symbols,
}

module _ (n : ℕ) (rand : ℕ → ℕ) (p : Chances) (mode : Mode) (plain : is_random mode ≡ false) where
  clear_values-Runs : (xs : List SymbolId) → Runs n (clear_values xs)
  unfolding clear_values
  clear_values-Runs [] = pure-Runs n tt
  clear_values-Runs (x ∷ xs) =
      bind-Runs n
        (modify-Runs n x clear_value
          (λ y l. let a = clear_value-Aside y in let k = a.weighs in omega arith))
        (λ u. clear_values-Runs xs)

  -- An assignment to one of the first symbols.
  inner-Runs : (s : SymbolId) (f : Sym → Sym) → s < n → Runs n (modify s f)
  inner-Runs s f b = modify-Runs n s f (λ y l. absurd (omega arith))

  set_all-Runs : (s : SymbolId) → s < n → Runs n (set_all_choice_values s)
  unfolding set_all_choice_values
  set_all-Runs s b =
      bind-Runs n (sym_at-Runs n s)
        (λ y. bind-Runs n (clear_values-Runs (choice_values y)) (λ u. inner-Runs s values_set b))

  new_switch-Runs :
      (k : Mode) (s : SymbolId) → is_random k ≡ false → s < n → Runs n (set_new_switch rand p k s)
  unfolding set_new_switch
  new_switch-Runs def_default s h b = pure-Runs n tt
  new_switch-Runs def_yes s h b = inner-Runs s _ b
  new_switch-Runs def_mod s h b = inner-Runs s _ b
  new_switch-Runs def_no s h b = inner-Runs s _ b
  new_switch-Runs def_random s h b = cc

  without_value-Runs : (s : SymbolId) → s < n → Runs n (set_without_value rand p mode s)
  unfolding set_without_value
  without_value-Runs s b = bind-Runs n (Ends-Runs n _ (get_type-Ends n (3 * n) 0 s)) (λ t.
      if-Runs n (is_switch t) _ _
        (bind-Runs n (new_switch-Runs mode s plain b) (λ u. pure-Runs n true)) (pure-Runs n false))

  all_new-Runs : (xs : List SymbolId) → AllBelow n xs → Runs n (set_all_new rand p mode xs)
  unfolding set_all_new set_new
  all_new-Runs [] no_symbols = pure-Runs n false
  all_new-Runs (x ∷ xs) (one_below _ _ b bs) =
      bind-Runs n
        (bind-Runs n (sym_at-Runs n x)
          (λ y. if-Runs n _ _ _ (without_value-Runs x b) (pure-Runs n false)))
        (λ a. bind-Runs n (all_new-Runs xs bs) (λ c. pure-Runs n _))

  mark_all-Runs : (xs : List SymbolId) → AllBelow n xs → Runs n (mark_all xs)
  unfolding mark_all
  mark_all-Runs [] no_symbols = pure-Runs n tt
  mark_all-Runs (x ∷ xs) (one_below _ _ b bs) =
      bind-Runs n (inner-Runs x mark_need b) (λ u. mark_all-Runs xs bs)

  abbrev calc_value : SymbolId → M (Unit {0})
  calc_value = sym_calc_value (enough n)

  choice_values-Runs :
      (k : Mode) (s : SymbolId)
      → is_random k ≡ false
      → s < n
      → Runs n (set_choice_values calc_value rand k s)
  unfolding set_choice_values
  choice_values-Runs def_random s h b = cc
  choice_values-Runs _ s h b = bind-Runs n (set_all-Runs s b) (λ u. pure-Runs n true)

  choices-Runs :
      (xs : List SymbolId) (c : Bool)
      → AllBelow n xs
      → Runs n (set_choices calc_value rand mode xs c)
  unfolding set_choices set_choice
  choices-Runs [] c no_symbols = pure-Runs n c
  choices-Runs (x ∷ xs) c (one_below _ _ b bs) =
      bind-Runs n
        (bind-Runs n (sym_at-Runs n x) (λ y.
          if-Runs n _ _ _
            (bind-Runs n (Ends-Runs n _ (calls n x)) (λ u. choice_values-Runs mode x plain b))
            (pure-Runs n c)))
        (λ now. choices-Runs xs now bs)

  set_new-Runs :
      (xs : List SymbolId)
      → AllBelow n xs
      → Runs n (conf_set_all_new_symbols calc_value rand xs p mode)
  unfolding conf_set_all_new_symbols when
  set_new-Runs xs bs = bind-Runs n (all_new-Runs xs bs) (λ c.
      bind-Runs n (clear_all-Runs n xs bs) (λ u.
        bind-Runs n (if-Runs n _ _ _ (mark_all-Runs xs bs) (pure-Runs n tt))
          (λ v. choices-Runs xs c bs)))

-- Setting all symbols that have no value to `y`, `m` or `n`, or to none, ends with a result, and
-- past the first `n` all is still calculated. It was so before, the mode is not the random one, and
-- the symbols of the hash table are among the first `n`.
pub conf_set_all_new_symbols_ends :
    (n : ℕ) (rand : ℕ → ℕ) (all : List SymbolId) (p : Chances) (mode : Mode) (w : World)
    → is_random mode ≡ false
    → HasSymbols n w
    → AllBelow n all
    → (changed : Bool) × (v : World) × (conf_set_all_new_symbols
          (sym_calc_value (enough n))
          rand
          all
          p
          mode
          w
        ≡ some (changed, v))
      × HasSymbols n v
conf_set_all_new_symbols_ends n rand all p mode w plain c below =
    let r =
      set_new-Runs n rand p mode plain all below w (λ x l. weight-calculated (w.at x) (c x l)) in
    (r.value, r.after, r.ends, λ x l. IsCalculated-weight (r.after.at x) (r.closed x l))
