-- ===== src/Config/Check/State.antt =====
-- The flags, the stack and the lines on stderr of sym_check_deps, and programs over them.
use dir842v2_gpl.Common.{Bool, true, false, List, [], ◌∷◌, Option, none, some, ◌==◌, if◌then◌else◌}
use dir842v2_gpl.Config.Types.{SymbolId, Expr}
use dir842v2_gpl.Config.Calc.State.{Property}

-- An entry of the stack: `struct dep_stack`, the links apart.
pub record DepStack : Type 0 where
  pub sym : SymbolId
  pub prop : Option Property
  pub expr : Option Expr

-- The lines on stderr, by their wording and the symbols they name. The file and the line number that
-- stand before, the type of the property and the closing reference to the documentation are left out.
pub data Report : Type 0 where
  unexpected : Report
  detected : SymbolId → Report
  value_contains depends_on contains_symbol is_part_of selected_by : SymbolId → SymbolId → Report
  oops : Expr → Report

-- `stack` has the entry at check_top first, and `reports` the last line first.
pub record Checks : Type 0 where
  pub check : SymbolId → Bool
  pub checked : SymbolId → Bool
  pub stack : List DepStack
  pub reports : List Report

abbrev pub C : Type 0 → Type 0
C A = Checks → Option (A × Checks)

infixl 5 ◌>>=◌ ◌>>◌
unfoldable pub ◌>>=◌ : {A B : Type 0} → C A → (A → C B) → C B
◌>>=◌ p f w = elim (p w) [ none ↦ none | some (a, v) ↦ f a v ]

abbrev pub ◌>>◌ : {B : Type 0} → C (Unit {0}) → C B → C B
p >> q = p >>= λ _. q

unfoldable pub pure : {A : Type 0} → A → C A
pure a w = some (a, w)

unfoldable pub change : (Checks → Checks) → C (Unit {0})
change f w = some (tt, f w)

abbrev pub fault : {A : Type 0} → C A
fault w = none

abbrev pub say : Report → Checks → Checks
say r w = record w { reports = r ∷ w.reports }

abbrev pub push : SymbolId → Checks → Checks
push s w = record w { stack = (record { sym = s; prop = none; expr = none }) ∷ w.stack }

abbrev pub pop : List DepStack → List DepStack
pop [] = []
pop (f ∷ fs) = fs

unfoldable pub dep_stack_insert : SymbolId → C (Unit {0})
dep_stack_insert s = change (push s)

unfoldable pub dep_stack_remove : C (Unit {0})
dep_stack_remove = change (λ w. record w { stack = pop w.stack })

-- Assignments to the local `stack` of sym_check_sym_deps, which is at the top there.
abbrev pub on_top : (DepStack → DepStack) → List DepStack → List DepStack
on_top f [] = []
on_top f (x ∷ xs) = f x ∷ xs

abbrev pub set_prop : Property → C (Unit {0})
set_prop p = change (λ w. record w { stack = on_top (λ f. record f { prop = some p }) w.stack })

abbrev pub set_expr : Option Expr → C (Unit {0})
set_expr e = change (λ w. record w { stack = on_top (λ f. record f { expr = e }) w.stack })

-- One flag set or cleared on one symbol, and on each of a list.
abbrev pub put_flag : SymbolId → Bool → (SymbolId → Bool) → SymbolId → Bool
put_flag s b f x = if x == s then b else f x

unfoldable pub put_flags : List SymbolId → Bool → (SymbolId → Bool) → SymbolId → Bool
put_flags [] b f = f
put_flags (s ∷ xs) b f = put_flags xs b (put_flag s b f)

-- `|= SYMBOL_CHECK | SYMBOL_CHECKED` and `&= ~SYMBOL_CHECK`.
abbrev pub mark : SymbolId → Checks → Checks
mark s w = record w { check = put_flag s true w.check; checked = put_flag s true w.checked }

abbrev pub clear : SymbolId → Checks → Checks
clear s w = record w { check = put_flag s false w.check }

abbrev pub mark_values : List SymbolId → Checks → Checks
mark_values xs w = record w {
  check = put_flags xs true w.check;
  checked = put_flags xs true w.checked;
}

abbrev pub unmark_values : List SymbolId → Checks → Checks
unmark_values xs w = record w { check = put_flags xs false w.check }
