-- ===== src/Config/Calc/NewSymbols.antt =====
-- conf_set_all_new_symbols of package/config/confdata.c with randomize_choice_values. `calc` is
-- sym_calc_value, `all` the symbols of the hash table, and `rand` what the calls of rand give.
pub mod Chance
pub mod Given
pub mod Ends
mod Tests
use dir842v2_gpl.Common.{
  ℕ, zero, suc, ◌+◌, ◌-◌, ◌/◌, ◌%◌, ◌^◌, Bool, true, false, List, [], ◌∷◌, Option, none, some, ltb,
  leb, ◌==◌, ◌&&◌, ◌||◌, if◌then◌else◌, Bytes, length,
}
use dir842v2_gpl.Config.Types.{
  Tristate, tri_no, tri_mod, tri_yes, SymbolId, SymbolType, tristate, other,
}
use dir842v2_gpl.Config.Numbers.{strtoll}
use dir842v2_gpl.Config.Calc.State.{
  chosen, Sym, M, ◌>>=◌, ◌>>◌, pure, sym_at, modify, when, get_type, choice_values,
}
use dir842v2_gpl.Config.Calc.Deps.{is_switch}
use dir842v2_gpl.Config.Calc.Choices.{set_all_choice_values}
use dir842v2_gpl.Config.Calc.Strings.{sym_clear_all_valid}

pub data Mode : Type 0 where
  def_default def_yes def_mod def_no def_random : Mode

-- The percentages `pby`, `pty` and `ptm`.
pub record Chances : Type 0 where
  pub bool_yes : ℕ
  pub yes : ℕ
  pub mods : ℕ

abbrev pub after_colon : Bytes → Bytes
after_colon [] = []
after_colon (c ∷ s) = if c == b':' then s else c ∷ s

abbrev pub prepend_chance : ℕ → Option (List ℕ) → Option (List ℕ)
prepend_chance p none = none
prepend_chance p (some ps) = some (p ∷ ps)

-- A number that is no percentage ends the program.
unfoldable pub add_chance : ℕ → Option (List ℕ) → Option (List ℕ)
add_chance tmp rest = if leb tmp 100 then prepend_chance tmp rest else none

-- The numbers of KCONFIG_PROBABILITY, so many at most, or nothing where the program exits. `tmp` has
-- 32 bits, and a negative one is past 100.
unfoldable pub read_chances : ℕ → Bytes → Option (List ℕ)
read_chances zero env = some []
read_chances (suc n) [] = some []
read_chances (suc n) (c ∷ env) =
    let number = strtoll (c ∷ env) 10 in
    let tmp = number.pattern % 2 ^ 32 in
    let rest = read_chances n (after_colon number.tail) in add_chance tmp rest

abbrev pub chances_of : List ℕ → Chances
chances_of [] = record { bool_yes = 50; yes = 33; mods = 33 }
chances_of (a ∷ []) = record { bool_yes = a; yes = a - a / 2; mods = a / 2 }
chances_of (a ∷ b ∷ []) = record { bool_yes = a + b; yes = a; mods = b }
chances_of (a ∷ b ∷ c ∷ _) = record { bool_yes = a; yes = b; mods = c }

abbrev pub checked : Chances → Option Chances
checked p = if ltb 100 (p.yes + p.mods) then none else some p

abbrev pub chances_from : Option (List ℕ) → Option Chances
chances_from none = none
chances_from (some ps) = checked (chances_of ps)

-- `none` for an environment without KCONFIG_PROBABILITY.
unfoldable pub probabilities : Option Bytes → Option Chances
probabilities none = chances_from (some [])
probabilities (some env) = chances_from (read_chances 3 env)

-- `rand() % n`.
unfoldable pub draw : (ℕ → ℕ) → ℕ → M ℕ
draw rand n w = some (rand w.drawn % n, record w { drawn = w.drawn + 1 })

-- The value that a random number below 100 stands for.
unfoldable pub random_tri : Chances → SymbolType → ℕ → Tristate
random_tri p tristate cnt =
    if ltb cnt p.yes then tri_yes else if ltb cnt (p.yes + p.mods) then tri_mod else tri_no
random_tri p _ cnt = if ltb cnt p.bool_yes then tri_yes else tri_no

abbrev pub with_user_tri : Tristate → Sym → Sym
with_user_tri t y = record y { def_tri = t; def_user = true }

abbrev pub with_random_tri : Tristate → Sym → Sym
with_random_tri t y = record y {
  def_tri = t;
  def_user = y.def_user || (if y.is_choice then false else true);
}

abbrev pub no_value : Sym → Tristate
no_value y = if y.allnoconfig_y then tri_yes else tri_no

abbrev pub in_table : Sym → Bool
in_table y = elim y.type [ other ↦ false | _ ↦ true ]

-- A value in its choice: the one at `def` is chosen.
abbrev pub random_value : ℕ → ℕ → Sym → Sym
random_value def cnt y = record y {
  def_tri = if def == cnt then tri_yes else tri_no;
  def_user = true;
  valid = false;
}

abbrev pub choose : SymbolId → Sym → Sym
choose x y = record y { def_val = chosen x }

-- The loop over the values of a choice from the one numbered `cnt`.
unfoldable pub randomize_values : SymbolId → ℕ → ℕ → List SymbolId → M (Unit {0})
randomize_values csym def cnt [] = pure tt
randomize_values csym def cnt (x ∷ xs) = do
  modify x (random_value def cnt)
  when (def == cnt) (modify csym (choose x))
  randomize_values csym def (cnt + 1) xs

-- A choice without values divides by zero, and the program is stopped.
unfoldable pub draw_of : (ℕ → ℕ) → ℕ → M ℕ
draw_of rand zero = λ w. none
draw_of rand (suc n) = draw rand (suc n)

unfoldable pub randomize_choice : (ℕ → ℕ) → SymbolId → List SymbolId → M Bool
randomize_choice rand csym xs = do
  def ← draw_of rand (length xs)
  randomize_values csym def 0 xs
  modify csym (λ y. record y { def_user = true; valid = false })
  pure true

unfoldable pub randomize_choice_values : (ℕ → ℕ) → SymbolId → M Bool
randomize_choice_values rand csym = do
  y ← sym_at csym
  if y.curr_tri == tri_yes then randomize_choice rand csym (choice_values y) else pure false

module _ (rand : ℕ → ℕ) (p : Chances) where
  -- A bool or tristate symbol that has no value. The result is `has_changed`.
  unfoldable pub set_random : SymbolId → M (Unit {0})
  set_random s = do
    cnt ← draw rand 100
    y ← sym_at s
    modify s (with_random_tri (random_tri p y.type cnt))

  unfoldable pub set_new_switch : Mode → SymbolId → M (Unit {0})
  set_new_switch def_default s = pure tt
  set_new_switch def_yes s = modify s (with_user_tri tri_yes)
  set_new_switch def_mod s = modify s (with_user_tri tri_mod)
  set_new_switch def_no s = modify s (λ y. with_user_tri (no_value y) y)
  set_new_switch def_random s = set_random s

  unfoldable pub set_without_value : Mode → SymbolId → M Bool
  set_without_value mode s = do
    t ← get_type s
    if is_switch t then set_new_switch mode s >> pure true else pure false

  unfoldable pub set_new : Mode → SymbolId → M Bool
  set_new mode s = do
    y ← sym_at s
    if in_table y && ((if y.def_user then false else true) && (if y.valid then false else true))
        then set_without_value mode s
        else pure false

  unfoldable pub set_all_new : Mode → List SymbolId → M Bool
  set_all_new mode [] = pure false
  set_all_new mode (x ∷ xs) = do a ← set_new mode x; b ← set_all_new mode xs; pure (a || b)

-- The choices that the user has not set, and all choice values, need their values set.
abbrev pub mark_need : Sym → Sym
mark_need y =
    if in_table y && ((y.is_choice && (if y.def_user then false else true)) || y.is_choice_value)
    then record y { need_set = true }
    else y

unfoldable pub mark_all : List SymbolId → M (Unit {0})
mark_all [] = pure tt
mark_all (x ∷ xs) = do modify x mark_need; mark_all xs

abbrev pub is_random : Mode → Bool
is_random def_random = true
is_random _ = false

module _ (calc : SymbolId → M (Unit {0})) (rand : ℕ → ℕ) where
  unfoldable pub set_choice_values : Mode → SymbolId → M Bool
  set_choice_values def_random s = randomize_choice_values rand s
  set_choice_values _ s = set_all_choice_values s >> pure true

  unfoldable pub set_choice : Mode → SymbolId → Bool → M Bool
  set_choice mode s has_changed = do
    y ← sym_at s
    if in_table y && ((if y.def_user then false else true) && y.is_choice)
        then (do calc s; set_choice_values mode s)
        else pure has_changed

  -- What the last choice gives is the result, whatever `has_changed` was.
  unfoldable pub set_choices : Mode → List SymbolId → Bool → M Bool
  set_choices mode [] has_changed = pure has_changed
  set_choices mode (x ∷ xs) has_changed = do
    now ← set_choice mode x has_changed
    set_choices mode xs now

  unfoldable pub conf_set_all_new_symbols : List SymbolId → Chances → Mode → M Bool
  conf_set_all_new_symbols all p mode = do
    has_changed ← set_all_new rand p mode all
    sym_clear_all_valid calc all
    when (if is_random mode then false else true) (mark_all all)
    set_choices mode all has_changed
