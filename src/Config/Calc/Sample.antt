-- ===== src/Config/Calc/Sample.antt =====
-- Four symbols to try sym_calc_value on: A, a bool with a prompt that the user has set to `y`; B, a
-- tristate with `default m if A` that A depends on in turn; N, an int with a range and a default;
-- and MODULES, a bool that defaults to `y`.
use dir842v2_gpl.Common.{
  zero, suc, length, ◌≤◌, refl, arith, true, false, List, [], ◌∷◌, Option, none, some, codes, Bytes,
}
use dir842v2_gpl.Config.Types.{
  Tristate, tri_no, tri_yes, symbol, range, SymbolId, unknown, boolean, tristate, int,
}
use dir842v2_gpl.Config.Calc.State.{null, text, Property, p_prompt, p_default, p_range, Sym, World}
use dir842v2_gpl.Config.Calc.Once.{IsCalculated, HasSymbols}

abbrev pub constant : Bytes → Tristate → Sym
constant name tri = record {
  name = some name;
  type = unknown;
  props = [];
  dir_expr = none;
  rev_expr = none;
  implied_expr = none;
  is_choice = false;
  is_choice_value = false;
  is_auto = false;
  allnoconfig_y = false;
  valid = true;
  need_set = false;
  write = false;
  def_user = false;
  curr_tri = tri;
  curr_val = text name;
  def_tri = tri_no;
  def_val = null;
  visible = tri_no;
  dir_dep = tri_no;
  rev_dep = tri_no;
  implied = tri_no;
}

abbrev pub fresh : Bytes → List Property → Sym
fresh name props = record (constant name tri_no) {
  type = boolean;
  props = props;
  valid = false;
  curr_val = text (codes "n");
}

abbrev pub default_of : SymbolId → Option SymbolId → Property
default_of s condition = record {
  kind = p_default;
  has_text = false;
  condition = elim condition [ none ↦ none | some c ↦ some (symbol c) ];
  expr = some (symbol s);
}

abbrev pub symbol_a : Sym
symbol_a =
    record (fresh (codes "A")
      (record { kind = p_prompt; has_text = true; condition = none; expr = none } ∷ [])) {
        dir_expr = some (symbol 4);
        def_user = true;
        def_tri = tri_yes;
      }

abbrev pub symbol_b : Sym
symbol_b = record (fresh (codes "B") (default_of 1 (some 3) ∷ [])) { type = tristate }

abbrev pub between : SymbolId → SymbolId → Property
between l r = record { kind = p_range; has_text = false; condition = none; expr = some (range l r) }

abbrev pub symbol_n : Sym
symbol_n = record (fresh (codes "N") (between 8 9 ∷ default_of 7 none ∷ [])) { type = int }

abbrev pub symbols : List Sym
symbols =
    constant (codes "n") 0
    ∷ constant (codes "m") 1
    ∷ constant (codes "y") 2
    ∷ symbol_a
    ∷ symbol_b
    ∷ symbol_n
    ∷ fresh (codes "MODULES") (default_of 2 none ∷ [])
    ∷ constant (codes "99") 0
    ∷ constant (codes "1") 0
    ∷ constant (codes "64") 0
    ∷ []

abbrev pub pick : List Sym → SymbolId → Sym
pick [] s = constant [] 0
pick (y ∷ ys) zero = y
pick (y ∷ ys) (suc s) = pick ys s

abbrev pub world : World
world = record { at = pick symbols; modules_sym = 6; modules_val = tri_yes; changes = 0; drawn = 0 }

past-IsCalculated : (ys : List Sym) (x : SymbolId) → length ys ≤ x → IsCalculated (pick ys x)
past-IsCalculated [] x h = record { valid = refl; no_need = refl }
past-IsCalculated (y ∷ ys) zero h = absurd (omega arith)
past-IsCalculated (y ∷ ys) (suc x) h = past-IsCalculated ys x (omega arith)

pub world-HasSymbols : HasSymbols 10 world
world-HasSymbols x h = past-IsCalculated symbols x h
