-- ===== src/Config/Gstr/Tests.antt =====
-- Concrete runs of expr_gstr_print.
use dir842v2_gpl.Common.{
  ◌+◌, ◌≡◌, ◌≢◌, ◌<◌, ◌≤◌, ◌⊎◌, refl, arith, [], ◌∷◌, ◌++◌, some, Bytes, codes, length,
}
use dir842v2_gpl.Config.Types.{Expr, symbol, and, Table, constant, boolean}
use dir842v2_gpl.Config.Value.{sym_get_string_value}
use dir842v2_gpl.Config.Print.{e_none, left_symbol, expr_compare_type, expr_print, print_opt}
use dir842v2_gpl.Config.Gstr.{str_new, expr_gstr_print}
use dir842v2_gpl.Config.Gstr.Laws.{rendered, expr_gstr_print_lem}

-- Bool symbols named by letters.
abbrev switches : Table
switches = record {
  at = λ s. record (constant ((s + 97) ∷ []) 0) { type = boolean };
  modules_sym = 1;
}

abbrev both : Expr
both = and (symbol 0) (symbol 1)

both_text : (expr_gstr_print switches (some both) str_new).s ≡ codes "a [=n] && b [=n]"
unfolding expr_gstr_print expr_print left_symbol expr_compare_type str_new sym_get_string_value
both_text = refl

-- At a width of 12 the line is broken before each symbol that would be past it.
broken_text :
    (expr_gstr_print switches (some both) (record str_new { max_width = 12 })).s
    ≡ codes "a [=n] && \\" ++ (10 ∷ codes "b [=n]")
unfolding expr_gstr_print expr_print left_symbol expr_compare_type str_new sym_get_string_value
broken_text = refl

expr_gstr_print_lem_example :
    (length (expr_gstr_print switches (some both) str_new).s
      < (expr_gstr_print switches (some both) str_new).len)
    × (str_new.len ≤ (expr_gstr_print switches (some both) str_new).len)
    × ((expr_gstr_print switches (some both) str_new).max_width ≡ str_new.max_width)
    × ((x : Bytes) × ((expr_gstr_print switches (some both) str_new).s ≡ str_new.s ++ x)
        × ((str_new.max_width ≢ 0)
            ⊎ (x ≡ rendered switches (print_opt switches e_none (some both)))))
unfolding str_new
expr_gstr_print_lem_example = expr_gstr_print_lem switches (some both) str_new (omega arith)
