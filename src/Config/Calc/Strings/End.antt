-- ===== src/Config/Calc/Strings/End.antt =====
-- The operations on values as strings end.
use dir842v2_gpl.Common.{ℕ, true, false, Option, none, some, Bytes}
use dir842v2_gpl.Config.Types.{
  Expr, range, SymbolId, SymbolType, boolean, tristate, int, hex, string,
}
use dir842v2_gpl.Config.Calc.State.{is_range, Sym, M, prop_get_symbol}
use dir842v2_gpl.Config.Calc.Deps.{Found, sym_get_range_prop}
use dir842v2_gpl.Config.Calc.Ends.{
  Ends, pure-Ends, bind-Ends, sym_at-Ends, modules_val-Ends, modules_sym-Ends, if-Ends, option-Ends,
}
use dir842v2_gpl.Config.Calc.DepsEnd.{
  expr_and_value-Ends, default_prop-Ends, visibility-Ends, range_val-Ends, first_found-Ends,
}
use dir842v2_gpl.Config.Calc.Strings.{
  below_high, in_range, number_within, switch_within, within_for, sym_string_within_range,
  default_text, default_switch, default_for, default_of, sym_get_string_default,
}

module _ (n m : ℕ) (e : SymbolId) (calc : SymbolId → M (Unit {0}))
    (calls : (s : SymbolId) → Ends n m e (calc s)) where
  in_range-Ends : (base val : ℕ) (x : Option Expr) → Ends n m e (in_range calc base val x)
  unfolding in_range below_high
  in_range-Ends base val (some (range l r)) =
      bind-Ends n m e (range_val-Ends n m e calc calls l base) (λ low.
        if-Ends n m e _ _ _
          (bind-Ends n m e (range_val-Ends n m e calc calls r base) (λ high. pure-Ends n m e _))
          (pure-Ends n m e false))
  in_range-Ends base val _ = pure-Ends n m e true

  number-Ends : (y : Sym) (base : ℕ) (str : Bytes) → Ends n m e (number_within calc y base str)
  unfolding number_within sym_get_range_prop
  number-Ends y base str =
      if-Ends n m e _ _ _
        (bind-Ends n m e (first_found-Ends n m e calc calls is_range y.props) (λ found.
          option-Ends n m e found _ _ (pure-Ends n m e true)
            (λ f. in_range-Ends base _ f.prop.expr)))
        (pure-Ends n m e false)

  switch-Ends : (y : Sym) (str : Bytes) → Ends n m e (switch_within calc y str)
  unfolding switch_within
  switch-Ends y str = bind-Ends n m e (modules_val-Ends n m e) (λ k. pure-Ends n m e _)

  within_for-Ends : (k : SymbolType) (y : Sym) (str : Bytes) → Ends n m e (within_for calc k y str)
  unfolding within_for
  within_for-Ends string y str = pure-Ends n m e _
  within_for-Ends int y str = number-Ends y 10 str
  within_for-Ends hex y str = number-Ends y 16 str
  within_for-Ends boolean y str = switch-Ends y str
  within_for-Ends tristate y str = switch-Ends y str
  within_for-Ends _ y str = pure-Ends n m e _

  pub within-Ends : (s : SymbolId) (str : Bytes) → Ends n m e (sym_string_within_range calc s str)
  unfolding sym_string_within_range
  within-Ends s str = bind-Ends n m e (sym_at-Ends n m e s) (λ y. within_for-Ends y.type y str)

  text-Ends : (o : Option SymbolId) → Ends n m e (default_text calc o)
  unfolding default_text
  text-Ends none = pure-Ends n m e _
  text-Ends (some d) =
      bind-Ends n m e (calls d)
        (λ u. bind-Ends n m e (sym_at-Ends n m e d) (λ z. pure-Ends n m e _))

  default_switch-Ends : (f : Found) → Ends n m e (default_switch calc f)
  unfolding default_switch
  default_switch-Ends f =
      bind-Ends n m e (expr_and_value-Ends n m e calc calls f.prop.expr f.tri)
        (λ v. pure-Ends n m e _)

  default_for-Ends : (k : SymbolType) (f : Found) → Ends n m e (default_for calc k f)
  unfolding default_for
  default_for-Ends boolean f = default_switch-Ends f
  default_for-Ends tristate f = default_switch-Ends f
  default_for-Ends _ f = text-Ends (prop_get_symbol f.prop)

  default_of-Ends : (y : Sym) → Ends n m e (default_of calc y)
  unfolding default_of
  default_of-Ends y =
      bind-Ends n m e (default_prop-Ends n m e calc calls y)
        (λ found. option-Ends n m e found _ _ (text-Ends none) (λ f. default_for-Ends y.type f))

  pub string_default-Ends : (s : SymbolId) → Ends n m e (sym_get_string_default calc s)
  unfolding sym_get_string_default
  string_default-Ends s = bind-Ends n m e (visibility-Ends n m e calc calls s) (λ u.
      bind-Ends n m e (modules_sym-Ends n m e) (λ k. bind-Ends n m e (calls k) (λ v.
        bind-Ends n m e (sym_at-Ends n m e s) (λ y. bind-Ends n m e (default_of-Ends y) (λ d.
          bind-Ends n m e (sym_at-Ends n m e s)
            (λ z. bind-Ends n m e (sym_at-Ends n m e k) (λ q. pure-Ends n m e _)))))))
