-- ===== src/Config/Value.antt =====
-- The value of an expression: expr_parse_string and expr_calc_value of package/config/expr.c, and
-- sym_get_string_value of package/config/symbol.c.
-- The table is one in which every symbol is SYMBOL_VALID, as after a pass of sym_calc_value: that
-- function then returns at once, and `curr` is read as it stands.
pub mod Constants
pub mod Negation
use Prim.Native.Nat.{compare, Ordering}
use dir842v2_gpl.Common.{
  ℕ, ◌+◌, ◌-◌, ◌^◌, ◌%◌, Bool, true, false, ◌&&◌, ◌||◌, List, [], ◌∷◌, Option, none, some, ltb,
  ◌==◌, if◌then◌else◌, Bytes, codes, str_eq,
}
use dir842v2_gpl.Config.Numbers.{Number, strtoll, strtoull, word}
use dir842v2_gpl.Config.Types.{
  Tristate, tri_no, tri_mod, tri_yes, expr_or, expr_and, expr_not, SymbolId, Relation, equal,
  unequal, lth, leq, gth, geq, Expr, symbol, not, and, or, comp, list, range, SymbolType, unknown,
  boolean, tristate, int, hex, string, other, Symbol, Table,
}

pub data StringValueKind : Type 0 where
  k_string k_signed k_unsigned k_invalid : StringValueKind

-- The kind, and the 64-bit pattern of the union `string_value`.
pub record StringValue : Type 0 where
  pub kind : StringValueKind
  pub pattern : ℕ

abbrev string_value : StringValueKind → ℕ → StringValue
string_value k p = record { kind = k; pattern = p }

-- The value of "n", "m" and "y", and -1 as a 64-bit pattern.
tristate_code : Bytes → ℕ
tristate_code str =
    if str_eq str (codes "n")
    then 0
    else if str_eq str (codes "m")
    then 1
    else if str_eq str (codes "y")
    then 2
    else word - 1

-- `!errno && !*tail && tail > str && isxdigit(tail[-1]) ? kind : k_string`. A digit was read
-- exactly when `tail > str`, and then `tail[-1]` is a digit of a base up to 16.
judge : StringValueKind → Number → StringValue
judge k n = elim n.tail [
  | [] ↦
      if n.range_error
      then string_value k_string n.pattern
      else if n.any_digit
      then string_value k n.pattern
      else string_value k_string n.pattern
  | _ ∷ _ ↦ string_value k_string n.pattern
]

unfoldable pub expr_parse_string : Bytes → SymbolType → StringValue
unfolding judge tristate_code
expr_parse_string str boolean = string_value k_signed (tristate_code str)
expr_parse_string str tristate = string_value k_signed (tristate_code str)
expr_parse_string str int = judge k_signed (strtoll str 10)
expr_parse_string str hex = judge k_unsigned (strtoull str 16)
expr_parse_string str string = judge k_signed (strtoll str 0)
expr_parse_string str unknown = judge k_signed (strtoll str 0)
expr_parse_string str other = string_value k_invalid 0

-- `sym_get_tristate_value(modules_sym) == no`.
abbrev pub modules_off : Table → Bool
modules_off t = (t.at t.modules_sym).curr_tri == tri_no

tristate_name : Bool → Symbol → Bytes
tristate_name off s =
    if s.curr_tri == tri_no
    then codes "n"
    else if s.curr_tri == tri_mod
    then if off then codes "n" else codes "m"
    else if s.curr_tri == tri_yes
    then codes "y"
    else s.curr_val

pub string_of_type : SymbolType → Bool → Symbol → Bytes
string_of_type boolean off s = tristate_name off s
string_of_type tristate off s = tristate_name off s
string_of_type _ off s = s.curr_val

unfoldable pub sym_get_string_value : Table → SymbolId → Bytes
unfolding string_of_type tristate_name
sym_get_string_value t s = string_of_type (t.at s).type (modules_off t) (t.at s)

-- The sign of `strcmp(a, b)`.
unfoldable pub strcmp : Bytes → Bytes → Ordering
strcmp [] [] = Ordering.eq
strcmp [] (_ ∷ _) = Ordering.lt
strcmp (_ ∷ _) [] = Ordering.gt
strcmp (x ∷ a) (y ∷ b) = elim (compare x y) [
  | Ordering.eq ↦ strcmp a b
  | Ordering.lt ↦ Ordering.lt
  | Ordering.gt ↦ Ordering.gt
]

-- `(lval.s > rval.s) - (lval.s < rval.s)`: the order of the patterns with the sign bit turned.
abbrev signed_compare : ℕ → ℕ → Ordering
signed_compare a b = compare ((a + 2 ^ 63) % word) ((b + 2 ^ 63) % word)

-- Which of the four comparisons the chain of tests on `k1` and `k2` picks.
joint : StringValueKind → StringValueKind → StringValueKind
joint k_string _ = k_string
joint _ k_string = k_string
joint k_invalid _ = k_invalid
joint _ k_invalid = k_invalid
joint k_unsigned _ = k_unsigned
joint _ k_unsigned = k_unsigned
joint k_signed k_signed = k_signed

-- `e->type != E_EQUAL && e->type != E_UNEQUAL`.
is_ordered : Relation → Bool
is_ordered equal = false
is_ordered unequal = false
is_ordered _ = true

-- The sign of `res`, or nothing for the early `return no` on an order of an S_OTHER symbol.
compare_as : StringValueKind → Relation → Bytes → Bytes → ℕ → ℕ → Option Ordering
compare_as k_string rel a b l r = some (strcmp a b)
compare_as k_invalid rel a b l r = if is_ordered rel then none else some (strcmp a b)
compare_as k_unsigned rel a b l r = some (compare l r)
compare_as k_signed rel a b l r = some (signed_compare l r)

-- The last switch of expr_calc_value, on the relation and the sign of `res`.
unfoldable pub relation_value : Relation → Ordering → Tristate
relation_value equal Ordering.eq = tri_yes
relation_value equal _ = tri_no
relation_value geq Ordering.lt = tri_no
relation_value geq _ = tri_yes
relation_value gth Ordering.gt = tri_yes
relation_value gth _ = tri_no
relation_value leq Ordering.gt = tri_no
relation_value leq _ = tri_yes
relation_value lth Ordering.lt = tri_yes
relation_value lth _ = tri_no
relation_value unequal Ordering.eq = tri_no
relation_value unequal _ = tri_yes

both_strings : SymbolType → SymbolType → Bool
both_strings string string = true
both_strings _ _ = false

-- The sign of `res`, from the types and the strings of the two symbols.
pub compare_texts : SymbolType → SymbolType → Relation → Bytes → Bytes → Option Ordering
unfolding joint is_ordered compare_as both_strings
compare_texts type1 type2 rel str1 str2 =
    let lval = expr_parse_string str1 type1 in
    let rval = expr_parse_string str2 type2 in
    if both_strings type1 type2
    then some (strcmp str1 str2)
    else compare_as (joint lval.kind rval.kind) rel str1 str2 lval.pattern rval.pattern

unfoldable pub compare_symbols : Table → Relation → SymbolId → SymbolId → Option Ordering
compare_symbols t rel s1 s2 =
    compare_texts (t.at s1).type (t.at s2).type rel (sym_get_string_value t s1)
      (sym_get_string_value t s2)

unfoldable pub verdict : Relation → Option Ordering → Tristate
unfolding relation_value
verdict rel none = tri_no
verdict rel (some o) = relation_value rel o

-- Lists and ranges are the `default` case.
unfoldable pub expr_calc_value : Table → Expr → Tristate
unfolding verdict
expr_calc_value t (symbol s) = (t.at s).curr_tri
expr_calc_value t (and l r) = expr_and (expr_calc_value t l) (expr_calc_value t r)
expr_calc_value t (or l r) = expr_or (expr_calc_value t l) (expr_calc_value t r)
expr_calc_value t (not e) = expr_not (expr_calc_value t e)
expr_calc_value t (comp rel s1 s2) = verdict rel (compare_symbols t rel s1 s2)
expr_calc_value t (list _) = tri_no
expr_calc_value t (range _ _) = tri_no

-- A NULL expression is `yes`.
unfoldable pub calc_value : Table → Option Expr → Tristate
calc_value t none = tri_yes
calc_value t (some e) = expr_calc_value t e
