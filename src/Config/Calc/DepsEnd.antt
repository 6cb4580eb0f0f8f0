-- ===== src/Config/Calc/DepsEnd.antt =====
-- The functions under sym_calc_value end where the calls of it end.
use dir842v2_gpl.Common.{
  ◌≡◌, refl, arith, ℕ, Bool, List, [], ◌∷◌, Option, none, some, ◌==◌, if◌then◌else◌, codes,
}
use dir842v2_gpl.Config.Types.{
  Tristate, tri_no, tri_mod, tri_yes, expr_or, expr_and, expr_not, Expr, symbol, not, and, or, comp,
  list, range, SymbolId, SymbolType, int, hex,
}
use dir842v2_gpl.Config.Value.{compare_texts, verdict}
use dir842v2_gpl.Config.Calc.State.{Property, Sym, M, modify, is_default, is_range}
use dir842v2_gpl.Config.Calc.Settles.{weight, curr}
use dir842v2_gpl.Config.Calc.Ends.{
  option-Ends, Ends, pure-Ends, bind-Ends, sym_at-Ends, modules_val-Ends, modules_sym-Ends,
  modify-Ends, modify_except-Ends, if-Ends, when-Ends, get_type-Ends,
}
use dir842v2_gpl.Config.Calc.Deps.{
  expr_and_value, bytes_of, is_switch, clamp, modules_text, switch_text, string_value,
  expr_calc_value, calc_value, found_or, first_found, sym_get_default_prop, sym_get_range_prop,
  sym_get_range_val, set_limit, validate_high, validate_between, validate_typed, sym_validate_range,
  validate_for, prompt_tri, prompt, prompts, dependency, set_dependencies, sym_calc_visibility,
}

module _ (n m : ℕ) (e : SymbolId) (calc : SymbolId → M (Unit {0}))
    (calls : (s : SymbolId) → Ends n m e (calc s)) where
  modules_text-Ends : Ends n m e (modules_text calc)
  unfolding modules_text
  modules_text-Ends = bind-Ends n m e (modules_sym-Ends n m e) (λ x. bind-Ends n m e (calls x) (λ u.
      bind-Ends n m e (sym_at-Ends n m e x)
        (λ y. pure-Ends n m e (if y.curr_tri == tri_no then codes "n" else codes "m"))))

  pub string_value-Ends : (s : SymbolId) → Ends n m e (string_value calc s)
  unfolding string_value switch_text
  string_value-Ends s = bind-Ends n m e (sym_at-Ends n m e s) (λ y.
      if-Ends n m e (is_switch y.type) _ _
        (if-Ends n m e (y.curr_tri == tri_no) _ _ (pure-Ends n m e (codes "n")) (
          if-Ends n m e (y.curr_tri == tri_mod) _ _ modules_text-Ends (
            if-Ends n m e (y.curr_tri == tri_yes) _ _ (pure-Ends n m e (codes "y"))
              (pure-Ends n m e (bytes_of y.curr_val)))))
        (pure-Ends n m e (bytes_of y.curr_val)))

  pub expr_calc_value-Ends : (x : Expr) → Ends n m e (expr_calc_value calc x)
  unfolding expr_calc_value
  expr_calc_value-Ends (symbol s) =
      bind-Ends n m e (calls s)
        (λ u. bind-Ends n m e (sym_at-Ends n m e s) (λ y. pure-Ends n m e y.curr_tri))
  expr_calc_value-Ends (and l r) =
      bind-Ends n m e (expr_calc_value-Ends l)
        (λ a. bind-Ends n m e (expr_calc_value-Ends r) (λ b. pure-Ends n m e (expr_and a b)))
  expr_calc_value-Ends (or l r) =
      bind-Ends n m e (expr_calc_value-Ends l)
        (λ a. bind-Ends n m e (expr_calc_value-Ends r) (λ b. pure-Ends n m e (expr_or a b)))
  expr_calc_value-Ends (not x) =
      bind-Ends n m e (expr_calc_value-Ends x) (λ a. pure-Ends n m e (expr_not a))
  expr_calc_value-Ends (comp rel s1 s2) = bind-Ends n m e (calls s1) (λ u.
      bind-Ends n m e (calls s2) (λ v. bind-Ends n m e (string_value-Ends s1) (λ str1.
        bind-Ends n m e (string_value-Ends s2) (λ str2.
          bind-Ends n m e (sym_at-Ends n m e s1) (λ y1.
            bind-Ends n m e (sym_at-Ends n m e s2) (λ y2.
              pure-Ends n m e (verdict rel (compare_texts y1.type y2.type rel str1 str2))))))))
  expr_calc_value-Ends (list xs) = pure-Ends n m e tri_no
  expr_calc_value-Ends (range s t) = pure-Ends n m e tri_no

  pub calc_value-Ends : (x : Option Expr) → Ends n m e (calc_value calc x)
  unfolding calc_value
  calc_value-Ends none = pure-Ends n m e tri_yes
  calc_value-Ends (some x) = expr_calc_value-Ends x

  pub expr_and_value-Ends : (x : Option Expr) (t : Tristate) → Ends n m e (expr_and_value calc x t)
  unfolding expr_and_value
  expr_and_value-Ends x t =
      bind-Ends n m e (calc_value-Ends x)
        (λ v. if-Ends n m e _ _ _ (calc_value-Ends x) (pure-Ends n m e t))

  pub first_found-Ends :
      (k : Property → Bool) (ps : List Property) → Ends n m e (first_found calc k ps)
  unfolding first_found found_or
  first_found-Ends k [] = pure-Ends n m e none
  first_found-Ends k (p ∷ ps) =
      if-Ends n m e (k p) _ _
        (bind-Ends n m e (calc_value-Ends p.condition)
          (λ v. if-Ends n m e (v == tri_no) _ _ (first_found-Ends k ps) (pure-Ends n m e _)))
        (first_found-Ends k ps)

  pub default_prop-Ends : (y : Sym) → Ends n m e (sym_get_default_prop calc y)
  unfolding sym_get_default_prop
  default_prop-Ends y = first_found-Ends is_default y.props

  pub range_val-Ends : (s : SymbolId) (base : ℕ) → Ends n m e (sym_get_range_val calc s base)
  unfolding sym_get_range_val
  range_val-Ends s base =
      bind-Ends n m e (calls s)
        (λ u. bind-Ends n m e (sym_at-Ends n m e s) (λ y. pure-Ends n m e _))

  set_limit-Ends : (k : SymbolType) (v : ℕ) → Ends n m e (set_limit calc e k v)
  unfolding set_limit
  set_limit-Ends k v = modify_except-Ends n m e _ (λ y. omega arith)

  validate_between-Ends :
      (k : SymbolType) (base : ℕ) (x : Option Expr) → Ends n m e (validate_between calc e k base x)
  unfolding validate_between validate_high
  validate_between-Ends k base (some (range l r)) = bind-Ends n m e (sym_at-Ends n m e e) (λ y.
      bind-Ends n m e (range_val-Ends l base) (λ low.
        if-Ends n m e _ _ _
          (bind-Ends n m e (range_val-Ends r base)
            (λ high. if-Ends n m e _ _ _ (pure-Ends n m e tt) (set_limit-Ends k high)))
          (set_limit-Ends k low)))
  validate_between-Ends k base _ = pure-Ends n m e tt

  validate_typed-Ends : (k : SymbolType) (base : ℕ) → Ends n m e (validate_typed calc e k base)
  unfolding validate_typed sym_get_range_prop
  validate_typed-Ends k base = bind-Ends n m e (sym_at-Ends n m e e) (λ y.
      bind-Ends n m e (first_found-Ends is_range y.props) (λ found.
        option-Ends n m e found _ _ (pure-Ends n m e tt)
          (λ f. validate_between-Ends k base f.prop.expr)))

  validate_for-Ends : (k : SymbolType) → Ends n m e (validate_for calc e k)
  unfolding validate_for
  validate_for-Ends int = validate_typed-Ends int 10
  validate_for-Ends hex = validate_typed-Ends hex 16
  validate_for-Ends _ = pure-Ends n m e tt

  pub validate_range-Ends : Ends n m e (sym_validate_range calc e)
  unfolding sym_validate_range
  validate_range-Ends = bind-Ends n m e (sym_at-Ends n m e e) (λ y. validate_for-Ends y.type)

  prompt_tri-Ends : (y : Sym) (v : Tristate) → Ends n m e (prompt_tri calc y v)
  unfolding prompt_tri
  prompt_tri-Ends y v =
      option-Ends n m e _ _ _ (pure-Ends n m e v)
        (λ c. bind-Ends n m e (sym_at-Ends n m e c) (λ z. pure-Ends n m e _))

  prompt-Ends : (y : Sym) (p : Property) → Ends n m e (prompt calc y p)
  unfolding prompt
  prompt-Ends y p =
      if-Ends n m e p.has_text _ _
        (bind-Ends n m e (calc_value-Ends p.condition) (λ v. prompt_tri-Ends y v))
        (pure-Ends n m e tri_no)

  prompts-Ends : (y : Sym) (t : Tristate) (ps : List Property) → Ends n m e (prompts calc y t ps)
  unfolding prompts
  prompts-Ends y t [] = pure-Ends n m e t
  prompts-Ends y t (p ∷ ps) =
      bind-Ends n m e (prompt-Ends y p) (λ v. prompts-Ends y (expr_or t v) ps)

  dependency-Ends :
      (s : SymbolId) (missing : Tristate) (x : Option Expr)
      → Ends n m e (dependency calc s missing x)
  unfolding dependency
  dependency-Ends s missing x =
      bind-Ends n m e (option-Ends n m e x _ _ (pure-Ends n m e missing) expr_calc_value-Ends)
        (λ v. bind-Ends n m e (get_type-Ends n m e s) (λ t. pure-Ends n m e (clamp t v)))

  -- An assignment to a field that no symbol is calculated by.
  field-Ends :
      (s : SymbolId) (f : Sym → Sym)
      → ((y : Sym) → weight (f y) ≡ weight y)
      → ((y : Sym) → curr (f y) ≡ curr y)
      → Ends n m e (modify s f)
  field-Ends s f h k = modify-Ends n m e s f (λ y. let q = h y in omega arith) k

  set_dependencies-Ends : (s : SymbolId) → Ends n m e (set_dependencies calc s)
  unfolding set_dependencies
  set_dependencies-Ends s = bind-Ends n m e (sym_at-Ends n m e s) (λ y.
      bind-Ends n m e (dependency-Ends s tri_yes y.dir_expr) (λ d.
        bind-Ends n m e (field-Ends s _ (λ z. refl) (λ z. refl)) (λ u.
          bind-Ends n m e (dependency-Ends s tri_no y.rev_expr) (λ r.
            bind-Ends n m e (field-Ends s _ (λ z. refl) (λ z. refl)) (λ v.
              bind-Ends n m e (dependency-Ends s tri_no _)
                (λ i. field-Ends s _ (λ z. refl) (λ z. refl)))))))

  pub visibility-Ends : (s : SymbolId) → Ends n m e (sym_calc_visibility calc s)
  unfolding sym_calc_visibility
  visibility-Ends s = bind-Ends n m e (sym_at-Ends n m e s) (λ y.
      bind-Ends n m e (prompts-Ends y tri_no y.props) (λ t.
        bind-Ends n m e (modules_val-Ends n m e) (λ k.
          bind-Ends n m e (field-Ends s _ (λ z. refl) (λ z. refl))
            (λ u. when-Ends n m e _ _ (set_dependencies-Ends s)))))
