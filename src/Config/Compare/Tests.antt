-- ===== src/Config/Compare/Tests.antt =====
-- Comparisons put into expressions over the tables of the tests of Query.
use dir842v2_gpl.Common.{◌≡◌, inl, inr, refl, arith, true, some}
use dir842v2_gpl.Config.Types.{symbol_no, tri_no, Expr, symbol, and, not}
use dir842v2_gpl.Config.Value.{expr_calc_value}
use dir842v2_gpl.Config.Compare.{expr_trans_compare}
use dir842v2_gpl.Config.Compare.Laws.{
  expr_trans_compare_sound, truth, holds, leaf, negation, conjunction,
}
use dir842v2_gpl.Config.Query.Tests.{table_with, with-IsValid}

abbrev one_off : Expr
one_off = and (symbol 3) (not (symbol 4))

-- The value of a comparison with symbol 3, which is `y`, and symbol 4, which is `n`.
expr_trans_compare_sound_example :
    (r : Expr) × (expr_trans_compare one_off true symbol_no ≡ some r)
    × (expr_calc_value (table_with tri_no) r
        ≡ truth (holds true (expr_calc_value (table_with tri_no) one_off) symbol_no))
expr_trans_compare_sound_example =
    expr_trans_compare_sound (table_with tri_no) one_off true symbol_no
      (with-IsValid tri_no (omega arith)) (inl refl)
      (conjunction (leaf (inl refl) (omega arith)) (negation (leaf (inr refl) (omega arith))))
