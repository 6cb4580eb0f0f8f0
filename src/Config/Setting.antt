-- ===== src/Config/Setting.antt =====
-- Setting a bool or tristate symbol, in package/config/symbol.c: sym_get_type,
-- sym_tristate_within_range, sym_set_tristate_value and sym_toggle_tristate_value.
-- A `State` is the table with what these functions read and write beside it. `valid` tells whether
-- the symbols still have SYMBOL_VALID set, which sym_clear_all_valid clears. It also calls
-- sym_calc_value for `modules_sym`; that, and the flags of menus, are left out.
pub mod Marks
pub mod Laws
pub mod Toggle
mod Tests
use dir842v2_gpl.Common.{
  ℕ, zero, suc, ◌+◌, ◌-◌, Bool, true, false, ◌&&◌, ◌||◌, List, [], ◌∷◌, Option, none, some, ltb,
  leb, ◌==◌, if◌then◌else◌,
}
use dir842v2_gpl.Config.Types.{
  Tristate, tri_no, tri_mod, tri_yes, SymbolId, SymbolType, unknown, boolean, tristate, int, hex,
  string, other, Flags, Symbol, Table,
}

-- `choice_of` is the choice of a choice value, `choice_values` the values of a choice and
-- `user_choice` the `def[S_DEF_USER].val` of a choice.
pub record State : Type 0 where
  pub table : Table
  pub modules_val : Tristate
  pub choice_of : SymbolId → SymbolId
  pub choice_values : SymbolId → List SymbolId
  pub user_choice : SymbolId → Option SymbolId
  pub changed : SymbolId → Bool
  pub valid : Bool
  pub change_count : ℕ

abbrev pub symbol_at : State → SymbolId → Symbol
symbol_at st s = st.table.at s

unfoldable pub sym_get_type : State → SymbolId → SymbolType
sym_get_type st s = elim (symbol_at st s).type [
  | tristate ↦
      if (symbol_at st s).flags.choice_val && (symbol_at st s).visible == tri_yes
      then boolean
      else if st.modules_val == tri_no
      then boolean
      else tristate
  | unknown ↦ unknown
  | boolean ↦ boolean
  | int ↦ int
  | hex ↦ hex
  | string ↦ string
  | other ↦ other
]

-- The tests after those of the type.
abbrev pub within : Symbol → Tristate → Bool
within sym val =
    if leb sym.visible sym.rev_dep
    then false
    else if sym.implied == tri_yes && val == tri_mod
    then false
    else if sym.flags.choice_val && sym.visible == tri_yes
    then val == tri_yes
    else leb sym.rev_dep val && leb val sym.visible

abbrev pub within_typed : SymbolType → Symbol → Tristate → Bool
within_typed boolean sym val = if val == tri_mod then false else within sym val
within_typed tristate sym val = within sym val
within_typed _ sym val = false

unfoldable pub sym_tristate_within_range : State → SymbolId → Tristate → Bool
sym_tristate_within_range st s val =
    if (symbol_at st s).visible == tri_no
    then false
    else within_typed (sym_get_type st s) (symbol_at st s) val

-- Change one symbol.
unfoldable pub modify : SymbolId → (Symbol → Symbol) → State → State
modify s f st = record st {
  table = record (st.table) { at = λ x. if x == s then f (st.table.at x) else st.table.at x };
}

abbrev pub with_def_user : Symbol → Symbol
with_def_user sym = record sym { flags = record (sym.flags) { def_user = true } }

-- SYMBOL_DEF_USER is set with sym_set_changed where it was not.
unfoldable pub mark_user : SymbolId → State → State
mark_user s st =
    if (symbol_at st s).flags.def_user
    then st
    else record (modify s with_def_user st) { changed = λ x. if x == s then true else st.changed x }

-- The loop over the values of a choice.
unfoldable pub mark_visible : List SymbolId → State → State
mark_visible [] st = st
mark_visible (x ∷ xs) st =
    mark_visible xs (if (symbol_at st x).visible == tri_no then st else modify x with_def_user st)

unfoldable pub select_in_choice : SymbolId → State → State
select_in_choice s st =
    let cs = st.choice_of s in
    let chosen = record (modify cs with_def_user st) {
      user_choice = λ x. if x == cs then some s else st.user_choice x;
    } in
    mark_visible (st.choice_values cs) chosen

unfoldable pub sym_clear_all_valid : State → State
sym_clear_all_valid st = record st { valid = false; change_count = st.change_count + 1 }

unfoldable pub assign : SymbolId → Tristate → State → State
assign s val st =
    let marked = mark_user s st in
    let chosen =
      if (symbol_at st s).flags.choice_val && val == tri_yes
      then select_in_choice s marked
      else marked in
    let set = modify s (λ sym. record sym { def_tri = val }) chosen in
    if (symbol_at st s).curr_tri == val then set else sym_clear_all_valid set

-- `none` is the result false, with which nothing has changed.
unfoldable pub sym_set_tristate_value : State → SymbolId → Tristate → Option State
sym_set_tristate_value st s val =
    if (symbol_at st s).curr_tri == val
    then some (assign s val st)
    else if sym_tristate_within_range st s val
    then some (assign s val st)
    else none

-- A value past `yes` is kept, as by the switch.
abbrev pub next_value : Tristate → Tristate
next_value zero = tri_mod
next_value (suc zero) = tri_yes
next_value (suc (suc zero)) = tri_no
next_value v = v

pub record Toggled : Type 0 where
  pub state : State
  pub value : Tristate

-- The do loop, for so many rounds, from `newval` and `sym->curr.tri` as it was.
unfoldable pub toggle_within : ℕ → State → SymbolId → Tristate → Tristate → Option Toggled
toggle_within zero st s oldval newval = none
toggle_within (suc fuel) st s oldval newval =
    let again = toggle_within fuel st s oldval (next_value newval) in
    elim (sym_set_tristate_value st s (next_value newval)) [
      | some after ↦ some (record { state = after; value = next_value newval })
      | none ↦
          if oldval == next_value newval
          then some (record { state = st; value = next_value newval })
          else again
    ]

unfoldable pub sym_toggle_tristate_value : State → SymbolId → Option Toggled
sym_toggle_tristate_value st s =
    toggle_within 3 st s (symbol_at st s).curr_tri (symbol_at st s).curr_tri
