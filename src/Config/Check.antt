-- ===== src/Config/Check.antt =====
-- sym_check_deps of package/config/symbol.c, with the stack for its messages. What a symbol stands
-- for, `at`, is fixed during the check: the code writes SYMBOL_CHECK and SYMBOL_CHECKED, the stack
-- and stderr. A call of sym_check_deps from inside is `check` until the last function, where the fuel
-- bounds how deep the calls nest. `none` is a NULL pointer that is followed, or no more fuel.
pub mod State
pub mod Messages
pub mod Graph
pub mod Logic
pub mod Search
pub mod Marks
pub mod Symbols
pub mod Group
pub mod Total
pub mod Cycles
pub mod All
mod Tests
use dir842v2_gpl.Common.{
  ℕ, zero, suc, ◌+◌, ◌*◌, Bool, true, false, List, [], ◌∷◌, Option, none, some, ◌==◌, ◌&&◌, ◌||◌,
  if◌then◌else◌,
}
use dir842v2_gpl.Config.Types.{SymbolId, Expr, symbol, not, and, or, comp, list, range}
use dir842v2_gpl.Config.Calc.State.{
  Property, Sym, p_choice, p_select, is_default, choice_of, choice_values,
}
use dir842v2_gpl.Config.Check.State.{
  unmark_values, oops, clear, dep_stack_remove, mark, say, mark_values, dep_stack_insert, set_expr,
  change, set_prop, C, pure, ◌>>=◌, ◌>>◌, fault, Checks, DepStack,
}
use dir842v2_gpl.Config.Check.Messages.{sym_check_print_recursive}

abbrev pub is_choice_or_select : Property → Bool
is_choice_or_select p = elim p.kind [ p_choice ↦ true | p_select ↦ true | _ ↦ false ]

abbrev pub points_to : Option SymbolId → SymbolId → Bool
points_to none s = false
points_to (some t) s = t == s

-- What sym_check_deps does with its own answer: the symbol itself is no news to its caller.
abbrev pub forget : SymbolId → Option SymbolId → Option SymbolId
forget s r = if points_to r s then none else r

-- The second part, unless the first one found something.
unfoldable pub unless_found : C (Option SymbolId) → C (Option SymbolId) → C (Option SymbolId)
unless_found p q = p >>= λ r. elim r [ some s ↦ pure (some s) | none ↦ q ]

module _ (at : SymbolId → Sym) where
  -- A symbol of the choice found is the choice found.
  unfoldable pub choice_found : SymbolId → Option SymbolId → Option SymbolId
  choice_found c none = none
  choice_found c (some s) =
      if (at s).is_choice_value && points_to (choice_of (at s)) c then some c else some s

  module _ (check : SymbolId → C (Option SymbolId)) where
    unfoldable pub sym_check_expr_deps : Expr → C (Option SymbolId)
    sym_check_expr_deps (or l r) = unless_found (sym_check_expr_deps l) (sym_check_expr_deps r)
    sym_check_expr_deps (and l r) = unless_found (sym_check_expr_deps l) (sym_check_expr_deps r)
    sym_check_expr_deps (not e) = sym_check_expr_deps e
    sym_check_expr_deps (comp k s t) = unless_found (check s) (check t)
    sym_check_expr_deps (symbol s) = check s
    sym_check_expr_deps (list xs) = do change (say (oops (list xs))); pure none
    sym_check_expr_deps (range s t) = do change (say (oops (range s t))); pure none

    abbrev pub check_opt : Option Expr → C (Option SymbolId)
    check_opt none = pure none
    check_opt (some e) = sym_check_expr_deps e

    unfoldable pub check_default : Property → C (Option SymbolId)
    check_default p =
        unless_found (do set_expr p.expr; check_opt p.expr) (do set_expr none; pure none)

    unfoldable pub check_prop : Bool → Property → C (Option SymbolId)
    check_prop choice p = do
      set_prop p
      unless_found (check_opt p.condition)
          (if is_default p && (if choice then false else true) then check_default p else pure none)

    unfoldable pub check_props : Bool → List Property → C (Option SymbolId)
    check_props choice [] = pure none
    check_props choice (p ∷ ps) =
        if is_choice_or_select p
        then check_props choice ps
        else unless_found (check_prop choice p) (check_props choice ps)

    unfoldable pub sym_check_sym_deps : SymbolId → C (Option SymbolId)
    sym_check_sym_deps s = do
      dep_stack_insert s
      r ← unless_found (check_opt (at s).rev_expr) (check_props (at s).is_choice (at s).props)
      dep_stack_remove
      pure r

    unfoldable pub check_values : List SymbolId → C (Option SymbolId)
    check_values [] = pure none
    check_values (s ∷ xs) = unless_found (sym_check_sym_deps s) (check_values xs)

    unfoldable pub check_group : SymbolId → List SymbolId → C (Option SymbolId)
    check_group c values = do
      dep_stack_insert c
      change (mark_values values)
      change (mark c)
      r ← unless_found (do r ← sym_check_sym_deps c; change (clear c); pure r) (check_values values)
      change (unmark_values values)
      dep_stack_remove
      pure (choice_found c r)

    unfoldable pub sym_check_choice_deps : SymbolId → C (Option SymbolId)
    sym_check_choice_deps c = check_group c (choice_values (at c))

    unfoldable pub check_value_of : SymbolId → Option SymbolId → C (Option SymbolId)
    check_value_of s none = fault
    check_value_of s (some c) = do dep_stack_insert s; r ← check c; dep_stack_remove; pure r

    unfoldable pub check_value : SymbolId → C (Option SymbolId)
    check_value s = check_value_of s (choice_of (at s))

    unfoldable pub check_symbol : SymbolId → C (Option SymbolId)
    check_symbol s = do change (mark s); r ← sym_check_sym_deps s; change (clear s); pure r

    unfoldable pub check_unchecked : SymbolId → C (Option SymbolId)
    check_unchecked s = do
      r ←
          (if (at s).is_choice_value
            then check_value s
            else if (at s).is_choice
            then sym_check_choice_deps s
            else check_symbol s)
      pure (forget s r)

    unfoldable pub check_body : SymbolId → C (Option SymbolId)
    check_body s w =
        if w.check s
        then (do sym_check_print_recursive at s; pure (some s)) w
        else if w.checked s
        then pure none w
        else check_unchecked s w

  unfoldable pub sym_check_deps : ℕ → SymbolId → C (Option SymbolId)
  sym_check_deps zero s = fault
  sym_check_deps (suc fuel) s = check_body (sym_check_deps fuel) s

-- The loop of conf_parse, which counts the answers.
unfoldable pub check_all : (SymbolId → Sym) → ℕ → List SymbolId → C ℕ
check_all at fuel [] = pure 0
check_all at fuel (s ∷ xs) = do
  r ← sym_check_deps at fuel s
  errors ← check_all at fuel xs
  pure (elim r [ none ↦ errors | some _ ↦ suc errors ])

-- No flag set, and nothing on the stack or on stderr.
abbrev pub no_checks : Checks
no_checks = record { check = λ _. false; checked = λ _. false; stack = []; reports = [] }

-- How deep the calls nest at most, for `n` symbols.
abbrev pub enough : ℕ → ℕ
enough n = 2 * n + 2
