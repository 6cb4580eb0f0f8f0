-- ===== src/Config/Calc/NewSymbols/Tests.antt =====
-- Runs of conf_set_all_new_symbols, and the theorems applied to them.
use dir842v2_gpl.Common.{◌+◌, ◌≤◌, ◌≡◌, refl, arith, Bool, [], ◌∷◌, some, none, codes}
use dir842v2_gpl.Config.Types.{tri_yes, tri_mod, tri_no, boolean, tristate}
use dir842v2_gpl.Config.Numbers.{strtoll}
use dir842v2_gpl.Config.Calc.{sym_calc_value}
use dir842v2_gpl.Config.Calc.State.{World}
use dir842v2_gpl.Config.Calc.Sample.{world, world-HasSymbols}
use dir842v2_gpl.Config.Calc.Once.{enough, HasSymbols}
use dir842v2_gpl.Config.Calc.Strings.Runs.{AllBelow, no_symbols, one_below}
use dir842v2_gpl.Config.Calc.NewSymbols.{
  Chances, def_yes, read_chances, add_chance, probabilities, random_tri, conf_set_all_new_symbols,
}
use dir842v2_gpl.Config.Calc.NewSymbols.Chance.{probabilities_bounded}
use dir842v2_gpl.Config.Calc.NewSymbols.Ends.{conf_set_all_new_symbols_ends}

abbrev two_numbers : Chances
two_numbers = record { bool_yes = 90; yes = 60; mods = 30 }

read_two : probabilities (some (codes "60:30")) ≡ some two_numbers
unfolding probabilities read_chances add_chance strtoll
read_two = refl

too_many : probabilities (some (codes "60:50")) ≡ none
unfolding probabilities read_chances add_chance strtoll
too_many = refl

drawn :
    random_tri two_numbers tristate 59
      ∷ random_tri two_numbers tristate 60
      ∷ random_tri two_numbers tristate 90
      ∷ random_tri two_numbers boolean 60
      ∷ []
    ≡ tri_yes ∷ tri_mod ∷ tri_no ∷ tri_yes ∷ []
unfolding random_tri
drawn = refl

probabilities_bounded_example : (90 ≤ 100) × (60 + 30 ≤ 100)
probabilities_bounded_example = probabilities_bounded (some (codes "60:30")) two_numbers read_two

symbols_below : AllBelow 10 (3 ∷ 4 ∷ 6 ∷ [])
symbols_below =
    one_below 3 _ (omega arith)
      (one_below 4 _ (omega arith) (one_below 6 _ (omega arith) no_symbols))

conf_set_all_new_symbols_ends_example :
    (changed : Bool) × (v : World) × (conf_set_all_new_symbols
        (sym_calc_value (enough 10))
        (λ i. i)
        (3 ∷ 4 ∷ 6 ∷ [])
        two_numbers
        def_yes
        world
      ≡ some (changed, v))
    × HasSymbols 10 v
conf_set_all_new_symbols_ends_example =
    conf_set_all_new_symbols_ends 10 (λ i. i) (3 ∷ 4 ∷ 6 ∷ []) two_numbers def_yes world refl
      world-HasSymbols symbols_below
