-- ===== src/Config/Gstr.antt =====
-- The growable string of package/config/util.c, and how expr_gstr_print of expr.c fills it.
pub mod Laws
mod Tests
use dir842v2_gpl.Common.{
  ℕ, ◌+◌, ◌-◌, Bool, true, false, ◌&&◌, List, [], ◌∷◌, ◌++◌, Option, none, some, ltb, ◌==◌,
  if◌then◌else◌, Bytes, codes, length, take,
}
use dir842v2_gpl.Config.Types.{SymbolId, Expr, SymbolType, unknown, Symbol, Table}
use dir842v2_gpl.Config.Value.{sym_get_string_value}
use dir842v2_gpl.Config.Print.{e_none, Piece, print_opt}

-- `s` up to the terminating zero, the size of its buffer, and the width at which a line ends.
pub record Gstr : Type 0 where
  pub s : Bytes
  pub len : ℕ
  pub max_width : ℕ

unfoldable pub str_new : Gstr
str_new = record { s = []; len = 64; max_width = 0 }

abbrev pub grow : ℕ → Gstr → Gstr
grow l gs = if ltb gs.len l then record gs { len = l } else gs

-- A NULL string appends nothing.
unfoldable pub str_append : Gstr → Option Bytes → Gstr
str_append gs none = gs
str_append gs (some s) = let l = length gs.s + length s + 1 in record (grow l gs) { s = gs.s ++ s }

-- The formatted text is cut where the array of 10000 bytes ends.
unfoldable pub str_printf : Gstr → Bytes → Gstr
unfolding str_append
str_printf gs text = str_append gs (some (take 9999 text))

unfoldable pub str_get : Gstr → Bytes
str_get gs = gs.s

-- `strlen(gs->s) - (last_cr - gs->s)`: from the last newline on, this one included.
unfoldable pub last_line : ℕ → Bytes → ℕ
last_line n [] = n
last_line n (c ∷ s) = last_line (if c == 10 then 1 else n + 1) s

abbrev pub text_length : Option Bytes → ℕ
text_length none = 0
text_length (some s) = length s

abbrev pub is_unknown : SymbolType → Bool
is_unknown unknown = true
is_unknown _ = false

-- Where the code takes the length of a NULL string, and faults, the model counts 0.
module _ (t : Table) where
  abbrev pub extra_length : Piece → ℕ
  extra_length p = elim p.sym [
    | none ↦ text_length p.str
    | some s ↦ text_length p.str + (4 + length (sym_get_string_value t s))
  ]

  unfoldable pub fits_line : Gstr → Piece → Bool
  unfolding last_line
  fits_line gs p =
      if gs.max_width == 0
      then true
      else if ltb gs.max_width (last_line 0 gs.s + extra_length p)
      then false
      else true

  abbrev pub with_value : Option SymbolId → Gstr → Gstr
  with_value none gs = gs
  with_value (some s) gs =
      if is_unknown (t.at s).type
      then gs
      else str_printf gs (codes " [=" ++ (sym_get_string_value t s ++ codes "]"))

  unfoldable pub expr_print_gstr_helper : Gstr → Piece → Gstr
  unfolding fits_line str_append str_printf
  expr_print_gstr_helper gs p =
      let broken = if fits_line gs p then gs else str_append gs (some (codes "\\" ++ (10 ∷ []))) in
      with_value p.sym (str_append broken p.str)

  unfoldable pub print_pieces : Gstr → List Piece → Gstr
  unfolding expr_print_gstr_helper
  print_pieces gs [] = gs
  print_pieces gs (p ∷ ps) = print_pieces (expr_print_gstr_helper gs p) ps

  unfoldable pub expr_gstr_print : Option Expr → Gstr → Gstr
  unfolding print_pieces
  expr_gstr_print e gs = print_pieces gs (print_opt t e_none e)
