-- ===== src/Config/Calc/ChoicesEnd.antt =====
-- The functions on the values of a choice end where the calls of sym_calc_value end.
use dir842v2_gpl.Common.{refl, arith, ℕ, Bool, List, [], ◌∷◌, none, some, ◌==◌}
use dir842v2_gpl.Config.Types.{Tristate, tri_no, SymbolId}
use dir842v2_gpl.Config.Calc.State.{
  Val, null, chosen, Property, M, set_write, is_default, choice_values,
}
use dir842v2_gpl.Config.Calc.Ends.{
  Ends, pure-Ends, bind-Ends, sym_at-Ends, modify-Ends, modify_except-Ends, if-Ends, when-Ends,
  option-Ends,
}
use dir842v2_gpl.Config.Calc.DepsEnd.{calc_value-Ends, visibility-Ends}
use dir842v2_gpl.Config.Calc.Choices.{
  find_visible, write_values, default_value, choice_default_of, first_default, sym_choice_default,
  calc_values, user_choice, default_choice, sym_calc_choice,
}

module _ (n m : ℕ) (e : SymbolId) where
  find_visible-Ends : (xs : List SymbolId) → Ends n m e (find_visible xs)
  unfolding find_visible
  find_visible-Ends [] = pure-Ends n m e none
  find_visible-Ends (x ∷ xs) = bind-Ends n m e (sym_at-Ends n m e x) (λ y.
      if-Ends n m e (y.visible == tri_no) _ _ (find_visible-Ends xs) (pure-Ends n m e (some x)))

  pub write_values-Ends : (xs : List SymbolId) → Ends n m e (write_values xs)
  unfolding write_values
  write_values-Ends [] = pure-Ends n m e tt
  write_values-Ends (x ∷ xs) = bind-Ends n m e (sym_at-Ends n m e x) (λ y.
      bind-Ends n m e
        (when-Ends n m e _ _ (modify-Ends n m e x set_write (λ z. omega arith) (λ z. refl)))
        (λ u. write_values-Ends xs))

module _ (n m : ℕ) (e : SymbolId) (calc : SymbolId → M (Unit {0}))
    (calls : (s : SymbolId) → Ends n m e (calc s)) where
  default_value-Ends : (p : Property) (v : Tristate) → Ends n m e (default_value calc p v)
  unfolding default_value
  default_value-Ends p v =
      option-Ends n m e _ _ _ (pure-Ends n m e none) (λ d. find_visible-Ends n m e (d ∷ []))

  default_of-Ends : (p : Property) → Ends n m e (choice_default_of calc p)
  unfolding choice_default_of
  default_of-Ends p =
      if-Ends n m e (is_default p) _ _
        (bind-Ends n m e (calc_value-Ends n m e calc calls p.condition)
          (λ v. default_value-Ends p v))
        (pure-Ends n m e none)

  first_default-Ends :
      (xs : List SymbolId) (ps : List Property) → Ends n m e (first_default calc xs ps)
  unfolding first_default
  first_default-Ends xs [] = find_visible-Ends n m e xs
  first_default-Ends xs (p ∷ ps) =
      bind-Ends n m e (default_of-Ends p)
        (λ d. option-Ends n m e d _ _ (first_default-Ends xs ps) (λ x. pure-Ends n m e (some x)))

  choice_default-Ends : (s : SymbolId) → Ends n m e (sym_choice_default calc s)
  unfolding sym_choice_default
  choice_default-Ends s =
      bind-Ends n m e (sym_at-Ends n m e s) (λ y. first_default-Ends (choice_values y) y.props)

  calc_values-Ends : (xs : List SymbolId) (b : Bool) → Ends n m e (calc_values calc b xs)
  unfolding calc_values
  calc_values-Ends [] b = pure-Ends n m e b
  calc_values-Ends (x ∷ xs) b =
      bind-Ends n m e (visibility-Ends n m e calc calls x)
        (λ u. bind-Ends n m e (sym_at-Ends n m e x) (λ y. calc_values-Ends xs _))

  user_choice-Ends : (v : Val) → Ends n m e (user_choice calc v)
  unfolding user_choice
  user_choice-Ends (chosen x) = find_visible-Ends n m e (x ∷ [])
  user_choice-Ends _ = pure-Ends n m e none

  default_choice-Ends : Ends n m e (default_choice calc e)
  unfolding default_choice
  default_choice-Ends = bind-Ends n m e (choice_default-Ends e) (λ d.
      option-Ends n m e d _ _
        (bind-Ends n m e (modify_except-Ends n m e _ (λ y. omega arith))
          (λ u. pure-Ends n m e null))
        (λ x. pure-Ends n m e (chosen x)))

  pub calc_choice-Ends : Ends n m e (sym_calc_choice calc e)
  unfolding sym_calc_choice
  calc_choice-Ends = bind-Ends n m e (sym_at-Ends n m e e) (λ y.
      bind-Ends n m e (calc_values-Ends (choice_values y) y.def_user) (λ user.
        bind-Ends n m e (modify_except-Ends n m e _ (λ z. omega arith)) (λ u.
          bind-Ends n m e (sym_at-Ends n m e e) (λ z.
            bind-Ends n m e (user_choice-Ends z.def_val) (λ c.
              option-Ends n m e c _ _ default_choice-Ends (λ x. pure-Ends n m e (chosen x)))))))
