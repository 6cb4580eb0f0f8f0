-- ===== src/Config/Calc/NewvalEnd.antt =====
-- The functions that work out a new value end where the calls of sym_calc_value end.
use dir842v2_gpl.Common.{refl, arith, ℕ, Bool, Option, none, some}
use dir842v2_gpl.Config.Types.{tri_no, SymbolId}
use dir842v2_gpl.Config.Calc.State.{Sym, M, modify, set_write}
use dir842v2_gpl.Config.Calc.Deps.{Found}
use dir842v2_gpl.Config.Calc.Ends.{
  Ends, pure-Ends, bind-Ends, sym_at-Ends, modify-Ends, if-Ends, when-Ends, option-Ends,
  get_type-Ends,
}
use dir842v2_gpl.Config.Calc.DepsEnd.{expr_and_value-Ends, default_prop-Ends}
use dir842v2_gpl.Config.Calc.Newval.{
  value_in_choice, written_if, tri_of_default, default_or_implied, default_tristate,
  value_with_selects, calc_tristate, text_of_default, calc_text,
}

module _ (n m : ℕ) (e : SymbolId) (calc : SymbolId → M (Unit {0}))
    (calls : (s : SymbolId) → Ends n m e (calc s)) where
  in_choice-Ends : (s : SymbolId) (y : Sym) → Ends n m e (value_in_choice calc s y)
  unfolding value_in_choice
  in_choice-Ends s y =
      option-Ends n m e _ _ _ (pure-Ends n m e tri_no)
        (λ c. bind-Ends n m e (sym_at-Ends n m e c) (λ z. pure-Ends n m e _))

  write-Ends : (s : SymbolId) → Ends n m e (modify s set_write)
  write-Ends s = modify-Ends n m e s set_write (λ z. omega arith) (λ z. refl)

  written-Ends : (b : Bool) (s : SymbolId) → Ends n m e (written_if calc b s)
  unfolding written_if
  written-Ends b s = when-Ends n m e b _ (write-Ends s)

  of_default-Ends : (s : SymbolId) (o : Option Found) → Ends n m e (tri_of_default calc s o)
  unfolding tri_of_default
  of_default-Ends s none = pure-Ends n m e tri_no
  of_default-Ends s (some f) =
      bind-Ends n m e (expr_and_value-Ends n m e calc calls f.prop.expr f.tri)
        (λ k. bind-Ends n m e (written-Ends _ s) (λ u. pure-Ends n m e k))

  implied-Ends : (s : SymbolId) → Ends n m e (default_or_implied calc s)
  unfolding default_or_implied
  implied-Ends s = bind-Ends n m e (sym_at-Ends n m e s) (λ y.
      bind-Ends n m e (default_prop-Ends n m e calc calls y) (λ f.
        bind-Ends n m e (of_default-Ends s f) (λ k.
          bind-Ends n m e (sym_at-Ends n m e s)
            (λ z. bind-Ends n m e (written-Ends _ s) (λ u. pure-Ends n m e _)))))

  default_tristate-Ends : (s : SymbolId) (y : Sym) → Ends n m e (default_tristate calc s y)
  unfolding default_tristate
  default_tristate-Ends s y =
      bind-Ends n m e (written-Ends _ s)
        (λ u. if-Ends n m e y.is_choice _ _ (pure-Ends n m e tri_no) (implied-Ends s))

  selects-Ends : (s : SymbolId) (y : Sym) → Ends n m e (value_with_selects calc s y)
  unfolding value_with_selects
  selects-Ends s y =
      bind-Ends n m e (if-Ends n m e _ _ _ (pure-Ends n m e _) (default_tristate-Ends s y))
        (λ k. bind-Ends n m e (sym_at-Ends n m e s) (λ z. pure-Ends n m e _))

  pub calc_tristate-Ends : (s : SymbolId) → Ends n m e (calc_tristate calc s)
  unfolding calc_tristate
  calc_tristate-Ends s = bind-Ends n m e (sym_at-Ends n m e s) (λ y.
      bind-Ends n m e (if-Ends n m e _ _ _ (in_choice-Ends s y) (selects-Ends s y)) (λ k.
        bind-Ends n m e (sym_at-Ends n m e s)
          (λ z. bind-Ends n m e (get_type-Ends n m e s) (λ t. pure-Ends n m e _))))

  text_of-Ends : (s : SymbolId) (o : Option SymbolId) → Ends n m e (text_of_default calc s o)
  unfolding text_of_default
  text_of-Ends s none = pure-Ends n m e _
  text_of-Ends s (some d) = bind-Ends n m e (write-Ends s) (λ u.
      bind-Ends n m e (calls d)
        (λ v. bind-Ends n m e (sym_at-Ends n m e d) (λ z. pure-Ends n m e z.curr_val)))

  pub calc_text-Ends : (s : SymbolId) → Ends n m e (calc_text calc s)
  unfolding calc_text
  calc_text-Ends s = bind-Ends n m e (sym_at-Ends n m e s) (λ y.
      if-Ends n m e _ _ _ (pure-Ends n m e y.def_val)
        (bind-Ends n m e (default_prop-Ends n m e calc calls y) (λ f. text_of-Ends s _)))
