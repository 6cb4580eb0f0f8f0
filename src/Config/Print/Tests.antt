-- ===== src/Config/Print/Tests.antt =====
-- Concrete prints of expr_print.
use dir842v2_gpl.Common.{str_eq, ◌-◌, ◌+◌, ◌≡◌, refl, List, [], ◌∷◌, some, Bytes, codes}
use dir842v2_gpl.Config.Types.{
  SymbolId, Expr, symbol, not, and, or, comp, equal, Table, constant, leaf, negation, conjunction,
  disjunction, comparison,
}
use dir842v2_gpl.Config.Value.{expr_calc_value}
use dir842v2_gpl.Config.Print.{
  e_none, left_symbol, right_symbol, expr_compare_type, expr_print, text_of,
}
use dir842v2_gpl.Config.Print.Grammar.{Word, Lexes, Disjunction, is_word}
use dir842v2_gpl.Config.Print.ReadBack.{expr_print-reads}

abbrev letters : Table
letters = record { at = λ s. constant ((s + 97) ∷ []) 0; modules_sym = 1 }

-- !(a && (b || c=d))
abbrev nested : Expr
nested = not (and (symbol 0) (or (symbol 1) (comp equal 2 3)))

-- Where sym_lookup finds them.
find_letter : Bytes → SymbolId
find_letter [] = 0
find_letter (c ∷ s) = c - 97

nested_text : text_of (expr_print letters e_none nested) ≡ some (codes "!(a && (b || c=d))")
unfolding text_of expr_print left_symbol right_symbol expr_compare_type
nested_text = refl

expr_print-reads_example :
    (s : Bytes) × (ws : List Word) × (f : Expr) × (text_of (expr_print letters e_none nested)
      ≡ some s)
    × Lexes find_letter s ws
    × Disjunction ws f
    × ((u : Table) → expr_calc_value u f ≡ expr_calc_value u nested)
unfolding find_letter is_word str_eq
expr_print-reads_example =
    expr_print-reads letters find_letter nested
      (negation (conjunction leaf (disjunction leaf comparison)))
      (
        (_, refl, refl, refl),
        ((_, refl, refl, refl), ((_, refl, refl, refl), (_, refl, refl, refl))),
      )
