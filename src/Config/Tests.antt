-- ===== src/Config/Tests.antt =====
-- A small table, runs of the functions of package/config on it, and the theorems applied to it.
use dir842v2_gpl.Common.{
  Bool, ap, Bytes, str_eq, zero, suc, ◌≡◌, ◌≢◌, ◌≤◌, refl, arith, true, some, codes,
}
use dir842v2_gpl.Config.EliminateEq.Sound.{expr_eq_sound, expr_eliminate_eq_sound}
use dir842v2_gpl.Config.EliminateEq.Total.{expr_eq_total, expr_eliminate_eq_total, Succeeds}
use dir842v2_gpl.Config.EliminateEq.{expr_eq, expr_eliminate_eq}
use dir842v2_gpl.Config.EliminateYn.Meaning.{calc-eliminate_yn}
use dir842v2_gpl.Config.EliminateYn.Reduced.{eliminate_yn-IsReduced, IsReduced}
use dir842v2_gpl.Config.EliminateYn.{expr_eliminate_yn, reduce_and, reduce_or, is_symbol}
use dir842v2_gpl.Config.Join.And.{expr_join_and_sound}
use dir842v2_gpl.Config.Join.Or.{expr_join_or_sound}
use dir842v2_gpl.Config.Join.{expr_join_or, expr_join_and}
use dir842v2_gpl.Config.Transform.Bound.{expr_transform_total, Shrinks}
use dir842v2_gpl.Config.Transform.Meaning.{expr_transform_sound}
use dir842v2_gpl.Config.Transform.Normal.{expr_transform-IsNormal, IsNormal}
use dir842v2_gpl.Config.Transform.{expr_transform, weight}
use dir842v2_gpl.Config.Types.{
  other, SymbolId, symbol_no, symbol_mod, symbol_yes, tri_no, tri_mod, tri_yes, equal, unequal, lth,
  geq, Expr, symbol, not, and, or, comp, boolean, tristate, int, unknown, Symbol, Table, constant,
  no_flags, IsLogical, leaf, negation, conjunction, disjunction, comparison, size, expr_and,
  expr_or,
}
use dir842v2_gpl.Config.Valid.{IsValid}
use dir842v2_gpl.Config.Value.Constants.{HasNames}
use dir842v2_gpl.Config.Value.{expr_calc_value, expr_parse_string, k_string}
use dir842v2_gpl.Config.Numbers.{strtoll}

abbrev plain_symbol : Symbol
plain_symbol = record (constant (codes "") tri_no) { flags = no_flags }

-- 3 is a bool `y`, 4 a tristate `m`, 5 the number 12 and 6 the number 5.
abbrev sample_at : SymbolId → Symbol
sample_at zero = constant (codes "n") tri_no
sample_at (suc zero) = constant (codes "m") tri_mod
sample_at (suc (suc zero)) = constant (codes "y") tri_yes
sample_at (suc (suc (suc zero))) = record plain_symbol { type = boolean; curr_tri = tri_yes }
sample_at (suc (suc (suc (suc zero)))) = record plain_symbol { type = tristate; curr_tri = tri_mod }
sample_at (suc (suc (suc (suc (suc zero))))) = record plain_symbol {
  type = int;
  curr_val = codes "12";
}
sample_at (suc (suc (suc (suc (suc (suc zero)))))) = record plain_symbol {
  type = int;
  curr_val = codes "5";
}
sample_at _ = plain_symbol

abbrev sample : Table
sample = record { at = sample_at; modules_sym = 3 }

sample-le_yes : (s : SymbolId) → (sample_at s).curr_tri ≤ tri_yes
sample-le_yes zero = omega arith
sample-le_yes (suc zero) = omega arith
sample-le_yes (suc (suc zero)) = omega arith
sample-le_yes (suc (suc (suc zero))) = omega arith
sample-le_yes (suc (suc (suc (suc zero)))) = omega arith
sample-le_yes (suc (suc (suc (suc (suc zero))))) = omega arith
sample-le_yes (suc (suc (suc (suc (suc (suc zero)))))) = omega arith
sample-le_yes (suc (suc (suc (suc (suc (suc (suc s))))))) = omega arith

sample-boolean : (s : SymbolId) → (sample_at s).type ≡ boolean → (sample_at s).curr_tri ≢ tri_mod
sample-boolean zero h = λ e. cc
sample-boolean (suc zero) h = λ e. cc
sample-boolean (suc (suc zero)) h = λ e. cc
sample-boolean (suc (suc (suc zero))) h = omega arith
sample-boolean (suc (suc (suc (suc zero)))) h = λ e. cc
sample-boolean (suc (suc (suc (suc (suc zero))))) h = λ e. cc
sample-boolean (suc (suc (suc (suc (suc (suc zero)))))) h = λ e. cc
sample-boolean (suc (suc (suc (suc (suc (suc (suc s))))))) h = λ e. cc

sample-switch : (s : SymbolId) → (sample_at s).type ≢ other
sample-switch zero h = cc
sample-switch (suc zero) h = cc
sample-switch (suc (suc zero)) h = cc
sample-switch (suc (suc (suc zero))) h = cc
sample-switch (suc (suc (suc (suc zero)))) h = cc
sample-switch (suc (suc (suc (suc (suc zero))))) h = cc
sample-switch (suc (suc (suc (suc (suc (suc zero)))))) h = cc
sample-switch (suc (suc (suc (suc (suc (suc (suc s))))))) h = cc

sample-unknown : (k : SymbolId) → (sample_at k).flags.is_const ≡ true → (sample_at k).type ≡ unknown
sample-unknown zero h = refl
sample-unknown (suc zero) h = refl
sample-unknown (suc (suc zero)) h = refl
sample-unknown (suc (suc (suc zero))) h = cc
sample-unknown (suc (suc (suc (suc zero)))) h = cc
sample-unknown (suc (suc (suc (suc (suc zero))))) h = cc
sample-unknown (suc (suc (suc (suc (suc (suc zero)))))) h = cc
sample-unknown (suc (suc (suc (suc (suc (suc (suc s))))))) h = refl

sample-not_number :
    (k : SymbolId)
    → (sample_at k).flags.is_const ≡ true
    → (expr_parse_string (sample_at k).curr_val unknown).kind ≡ k_string
unfolding expr_parse_string strtoll
sample-not_number zero h = refl
sample-not_number (suc zero) h = refl
sample-not_number (suc (suc zero)) h = refl
sample-not_number (suc (suc (suc zero))) h = cc
sample-not_number (suc (suc (suc (suc zero)))) h = cc
sample-not_number (suc (suc (suc (suc (suc zero))))) h = cc
sample-not_number (suc (suc (suc (suc (suc (suc zero)))))) h = cc
sample-not_number (suc (suc (suc (suc (suc (suc (suc s))))))) h = cc

sample-IsValid : IsValid sample
sample-IsValid = record {
  no_constant = refl;
  mod_constant = refl;
  yes_constant = refl;
  le_yes = sample-le_yes;
  boolean_ne_mod = sample-boolean;
  tristate_mod = λ s k m. refl;
}

sample-constant : (k : SymbolId) → (sample_at k).flags.is_const ≡ true → k ≤ tri_yes
sample-constant zero h = omega arith
sample-constant (suc zero) h = omega arith
sample-constant (suc (suc zero)) h = omega arith
sample-constant (suc (suc (suc zero))) h = cc
sample-constant (suc (suc (suc (suc zero)))) h = cc
sample-constant (suc (suc (suc (suc (suc zero))))) h = cc
sample-constant (suc (suc (suc (suc (suc (suc zero)))))) h = cc
sample-constant (suc (suc (suc (suc (suc (suc (suc s))))))) h = cc

sample-one_for_name :
    (j k : SymbolId)
    → (sample_at j).flags.is_const ≡ true
    → (sample_at k).flags.is_const ≡ true
    → (sample_at j).curr_val ≡ (sample_at k).curr_val
    → j ≡ k
unfolding str_eq
sample-one_for_name zero zero hj hk same = refl
sample-one_for_name zero (suc zero) hj hk same = cc (ap (λ (b : Bytes). str_eq b (codes "n")) same)
sample-one_for_name zero (suc (suc zero)) hj hk same =
    cc (ap (λ (b : Bytes). str_eq b (codes "n")) same)
sample-one_for_name zero (suc (suc (suc k))) hj hk same =
    absurd (omega (arith, sample-constant (suc (suc (suc k))) hk))
sample-one_for_name (suc zero) zero hj hk same = cc (ap (λ (b : Bytes). str_eq b (codes "m")) same)
sample-one_for_name (suc zero) (suc zero) hj hk same = refl
sample-one_for_name (suc zero) (suc (suc zero)) hj hk same =
    cc (ap (λ (b : Bytes). str_eq b (codes "m")) same)
sample-one_for_name (suc zero) (suc (suc (suc k))) hj hk same =
    absurd (omega (arith, sample-constant (suc (suc (suc k))) hk))
sample-one_for_name (suc (suc zero)) zero hj hk same =
    cc (ap (λ (b : Bytes). str_eq b (codes "y")) same)
sample-one_for_name (suc (suc zero)) (suc zero) hj hk same =
    cc (ap (λ (b : Bytes). str_eq b (codes "y")) same)
sample-one_for_name (suc (suc zero)) (suc (suc zero)) hj hk same = refl
sample-one_for_name (suc (suc zero)) (suc (suc (suc k))) hj hk same =
    absurd (omega (arith, sample-constant (suc (suc (suc k))) hk))
sample-one_for_name (suc (suc (suc j))) k hj hk same =
    absurd (omega (arith, sample-constant (suc (suc (suc j))) hj))

sample-HasNames : HasNames sample
sample-HasNames = record {
  unknown_type = sample-unknown;
  not_number = sample-not_number;
  one_for_name = sample-one_for_name;
}

-- !((A=m && B) || !!(C<D)), for a bool A, a tristate B and numbers C and D.
abbrev nested : Expr
nested = not (or (and (comp equal 3 symbol_mod) (symbol 4)) (not (not (comp lth 5 6))))

nested-IsLogical : IsLogical nested
nested-IsLogical =
    negation (disjunction (conjunction comparison leaf) (negation (negation comparison)))

transformed : Expr
transformed = and (or (symbol symbol_yes) (not (symbol 4))) (comp geq 5 6)

transform_nested : expr_transform sample nested ≡ some transformed
unfolding expr_transform weight transformed
transform_nested = refl

-- A && (B || y), and B && A && D: the first operand goes, and the constant with it.
eliminate_example :
    expr_eliminate_eq
      (and (symbol 3) (or (symbol 4) (symbol symbol_no)))
      (and (symbol 4) (and (symbol 3) (symbol 6)))
      0
    ≡ some (record { left = symbol 4; right = and (symbol 4) (symbol 6); trans_count = 1 })
unfolding expr_eliminate_eq expr_eq expr_eliminate_yn size is_symbol reduce_and reduce_or
eliminate_example = refl

expr_transform_sound_example : expr_calc_value sample transformed ≡ expr_calc_value sample nested
expr_transform_sound_example =
    expr_transform_sound sample nested sample-IsValid sample-switch transform_nested

expr_transform-IsNormal_example : IsNormal sample transformed
expr_transform-IsNormal_example =
    expr_transform-IsNormal sample nested sample-IsValid nested-IsLogical transform_nested

expr_transform_total_example : Shrinks nested (expr_transform sample nested)
expr_transform_total_example = expr_transform_total sample nested nested-IsLogical

-- A && B and B && A.
abbrev left_pair : Expr
left_pair = and (symbol 3) (symbol 4)

abbrev right_pair : Expr
right_pair = and (symbol 4) (symbol 3)

eq_pair : expr_eq left_pair right_pair ≡ some true
unfolding expr_eq size expr_eliminate_yn reduce_and is_symbol
eq_pair = refl

expr_eq_sound_example : expr_calc_value sample left_pair ≡ expr_calc_value sample right_pair
expr_eq_sound_example = expr_eq_sound sample left_pair right_pair sample-IsValid eq_pair

expr_eq_total_example : (r : Bool) × (expr_eq left_pair right_pair ≡ some r)
expr_eq_total_example =
    expr_eq_total left_pair right_pair (conjunction leaf leaf) (conjunction leaf leaf)

eliminate_pair :
    expr_eliminate_eq left_pair right_pair 0
    ≡ some (record { left = symbol 2; right = symbol 2; trans_count = 2 })
unfolding expr_eliminate_eq expr_eq expr_eliminate_yn size is_symbol reduce_and reduce_or
eliminate_pair = refl

expr_eliminate_eq_sound_example :
    expr_calc_value sample left_pair ≡ expr_calc_value sample right_pair
expr_eliminate_eq_sound_example =
    expr_eliminate_eq_sound sample left_pair right_pair 0 sample-IsValid eliminate_pair refl

expr_eliminate_eq_total_example :
    Succeeds left_pair right_pair (expr_eliminate_eq left_pair right_pair 0)
expr_eliminate_eq_total_example =
    expr_eliminate_eq_total left_pair right_pair 0 (conjunction leaf leaf) (conjunction leaf leaf)

-- B=y || B=m is B!=n, and B!=y && B!=n is B=m.
join_or_example :
    expr_join_or sample (comp equal 4 2) (comp equal 4 1) ≡ some (some (comp unequal 4 0))
unfolding expr_join_or expr_eq size
join_or_example = refl

expr_join_or_sound_example :
    expr_calc_value sample (comp unequal 4 0)
    ≡ expr_or (expr_calc_value sample (comp equal 4 2)) (expr_calc_value sample (comp equal 4 1))
expr_join_or_sound_example =
    expr_join_or_sound sample (comp equal 4 2) (comp equal 4 1) sample-IsValid join_or_example

join_and_example :
    expr_join_and sample (comp unequal 4 2) (comp unequal 4 0) ≡ some (some (comp equal 4 1))
unfolding expr_join_and expr_eq size
join_and_example = refl

expr_join_and_sound_example :
    expr_calc_value sample (comp equal 4 1)
    ≡ expr_and
        (expr_calc_value sample (comp unequal 4 2))
        (expr_calc_value sample (comp unequal 4 0))
expr_join_and_sound_example =
    expr_join_and_sound sample (comp unequal 4 2) (comp unequal 4 0) sample-IsValid sample-HasNames
      join_and_example

calc-eliminate_yn_example :
    expr_calc_value sample (expr_eliminate_yn transformed) ≡ expr_calc_value sample transformed
calc-eliminate_yn_example = calc-eliminate_yn sample transformed sample-IsValid

eliminate_yn-IsReduced_example : IsReduced (expr_eliminate_yn transformed)
eliminate_yn-IsReduced_example = eliminate_yn-IsReduced transformed
