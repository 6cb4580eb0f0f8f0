-- ===== src/Config/Check/Messages.antt =====
-- sym_check_print_recursive of package/config/symbol.c.
use dir842v2_gpl.Common.{List, [], ◌∷◌, Option, none, some, ◌==◌, if◌then◌else◌}
use dir842v2_gpl.Config.Types.{SymbolId}
use dir842v2_gpl.Config.Calc.State.{Sym, choice_of}
use dir842v2_gpl.Config.Check.State.{
  C, selected_by, is_part_of, contains_symbol, pop, unexpected, depends_on, push, value_contains,
  detected, say, Checks, Report, DepStack,
}

-- From the entry of `last` up to check_top, which comes last.
unfoldable pub frames_from : SymbolId → List DepStack → List DepStack → Option (List DepStack)
frames_from last above [] = none
frames_from last above (f ∷ fs) =
    if f.sym == last then some (f ∷ above) else frames_from last (f ∷ above) fs

module _ (at : SymbolId → Sym) where
  unfoldable pub frame_report : DepStack → SymbolId → Report
  frame_report f next = elim f.expr [
    | some e ↦ value_contains f.sym next
    | none ↦ elim f.prop [
      | some p ↦ depends_on f.sym next
      | none ↦
          if (at f.sym).is_choice
          then contains_symbol f.sym next
          else if (at f.sym).is_choice_value
          then is_part_of f.sym next
          else selected_by f.sym next
    ]
  ]

  -- The lines for the entries of the cycle, from the bottom up.
  unfoldable pub frame_reports : SymbolId → List DepStack → List Report → List Report
  frame_reports last [] rs = rs
  frame_reports last (f ∷ fs) rs =
      let next : SymbolId = elim fs [ [] ↦ last | g ∷ _ ↦ g.sym ] in
      let seen = if f.sym == last then detected last ∷ rs else rs in
      frame_reports last fs (frame_report f next ∷ seen)

  abbrev pub print_from : SymbolId → Option (List DepStack) → Checks → Checks
  print_from last none w = say unexpected w
  print_from last (some fs) w = record w { reports = frame_reports last fs w.reports }

  -- The entry that was put on top for a choice value stays there when the error is unexpected.
  abbrev pub print_pushed : SymbolId → Checks → Option (List DepStack) → Checks
  print_pushed c v none = say unexpected v
  print_pushed c v (some fs) = record v {
    reports = frame_reports c fs v.reports;
    stack = pop v.stack;
  }

  abbrev pub print_value : SymbolId → SymbolId → Checks → Checks
  print_value s c w = print_pushed c (push s w) (frames_from c [] (push s w).stack)

  unfoldable pub sym_check_print_recursive : SymbolId → C (Unit {0})
  sym_check_print_recursive s w =
      if (at s).is_choice_value
      then elim (choice_of (at s)) [ none ↦ none | some c ↦ some (tt, print_value s c w) ]
      else some (tt, print_from s (frames_from s [] w.stack) w)
