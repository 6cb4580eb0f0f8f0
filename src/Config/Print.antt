-- ===== src/Config/Print.antt =====
-- expr_print of package/config/expr.c with expr_compare_type and expr_print_revdep. The result is
-- the list of the calls of `fn`: the symbol and the string that each gets, NULL being `none`.
pub mod Grammar
pub mod Joined
pub mod Placed
pub mod ReadBack
mod Tests
use dir842v2_gpl.Common.{
  ℕ, Bool, true, false, List, [], ◌∷◌, ◌++◌, Option, none, some, ◌==◌, if◌then◌else◌, Bytes, codes,
}
use dir842v2_gpl.Config.Types.{
  SymbolId, Tristate, Relation, equal, unequal, lth, leq, gth, geq, Expr, symbol, not, and, or,
  comp, list, range, Table,
}
use dir842v2_gpl.Config.Value.{expr_calc_value}

pub data ExprType : Type 0 where
  e_none e_or e_and e_not e_equal e_unequal e_lth e_leq e_gth e_geq e_list e_symbol e_range :
      ExprType

abbrev pub relation_type : Relation → ExprType
relation_type equal = e_equal
relation_type unequal = e_unequal
relation_type lth = e_lth
relation_type leq = e_leq
relation_type gth = e_gth
relation_type geq = e_geq

abbrev pub type_of : Expr → ExprType
type_of (symbol _) = e_symbol
type_of (not _) = e_not
type_of (and _ _) = e_and
type_of (or _ _) = e_or
type_of (comp k _ _) = relation_type k
type_of (list _) = e_list
type_of (range _ _) = e_range

-- The sign of what expr_compare_type returns.
pub data Sign : Type 0 where
  below same above : Sign

-- The cases of the switch, each of which falls through to the next.
unfoldable pub from_list : ExprType → Sign
from_list e_none = above
from_list _ = below

unfoldable pub from_or : ExprType → Sign
from_or e_list = above
from_or t = from_list t

unfoldable pub from_and : ExprType → Sign
from_and e_or = above
from_and t = from_or t

unfoldable pub from_not : ExprType → Sign
from_not e_and = above
from_not t = from_and t

unfoldable pub from_equal : ExprType → Sign
from_equal e_not = above
from_equal t = from_not t

unfoldable pub from_order : ExprType → Sign
from_order e_equal = above
from_order e_unequal = above
from_order t = from_equal t

-- The switch, for types that differ.
unfoldable pub compare_switch : ExprType → ExprType → Sign
compare_switch e_leq t = from_order t
compare_switch e_lth t = from_order t
compare_switch e_geq t = from_order t
compare_switch e_gth t = from_order t
compare_switch e_equal t = from_equal t
compare_switch e_unequal t = from_equal t
compare_switch e_not t = from_not t
compare_switch e_and t = from_and t
compare_switch e_or t = from_or t
compare_switch e_list t = from_list t
compare_switch _ t = below

-- The number that C gives to a type.
abbrev pub type_code : ExprType → ℕ
type_code e_none = 0
type_code e_or = 1
type_code e_and = 2
type_code e_not = 3
type_code e_equal = 4
type_code e_unequal = 5
type_code e_lth = 6
type_code e_leq = 7
type_code e_gth = 8
type_code e_geq = 9
type_code e_list = 10
type_code e_symbol = 11
type_code e_range = 12

unfoldable pub expr_compare_type : ExprType → ExprType → Sign
unfolding compare_switch from_order from_equal from_not from_and from_or from_list
expr_compare_type t1 t2 = if type_code t1 == type_code t2 then same else compare_switch t1 t2

-- A call of `fn`.
pub record Piece : Type 0 where
  pub sym : Option SymbolId
  pub str : Option Bytes

abbrev pub plain : Bytes → Piece
plain s = record { sym = none; str = some s }

abbrev pub sign_text : Relation → Bytes
sign_text equal = codes "="
sign_text unequal = codes "!="
sign_text lth = codes "<"
sign_text leq = codes "<="
sign_text gth = codes ">"
sign_text geq = codes ">="

abbrev pub is_above : Sign → Bool
is_above above = true
is_above _ = false

abbrev pub put_before : Option Bytes → Option Bytes → Option Bytes
put_before (some s) (some r) = some (s ++ r)
put_before _ _ = none

-- What expr_print_file_helper writes; it cannot write NULL.
unfoldable pub text_of : List Piece → Option Bytes
text_of [] = some []
text_of (p ∷ ps) = put_before p.str (text_of ps)

-- Parentheses round a text, where they are wanted.
abbrev pub in_parentheses : Bool → List Piece → List Piece
in_parentheses b ps =
    (if b then plain (codes "(") ∷ [] else []) ++ (ps ++ (if b then plain (codes ")") ∷ [] else []))

module _ (t : Table) where
  -- A symbol without a name is a choice.
  abbrev pub named_or_choice : SymbolId → Option Bytes → Piece
  named_or_choice s (some name) = record { sym = some s; str = some name }
  named_or_choice s none = plain (codes "<choice>")

  unfoldable pub left_symbol : SymbolId → Piece
  left_symbol s = named_or_choice s (t.at s).name

  -- `e->right.sym->name`, which may be NULL.
  unfoldable pub right_symbol : SymbolId → Piece
  right_symbol s = record { sym = some s; str = (t.at s).name }

  unfoldable pub print_list : List SymbolId → List Piece
  print_list [] = []
  print_list (s ∷ []) = right_symbol s ∷ []
  print_list (s ∷ r ∷ xs) = right_symbol s ∷ plain (codes " ^ ") ∷ print_list (r ∷ xs)

  unfoldable pub expr_print : ExprType → Expr → List Piece
  expr_print prev (symbol s) =
      in_parentheses (is_above (expr_compare_type prev e_symbol)) (left_symbol s ∷ [])
  expr_print prev (not e) =
      in_parentheses (is_above (expr_compare_type prev e_not))
        (plain (codes "!") ∷ expr_print e_not e)
  expr_print prev (comp k s r) =
      in_parentheses (is_above (expr_compare_type prev (relation_type k)))
        (left_symbol s ∷ (plain (sign_text k) ∷ (right_symbol r ∷ [])))
  expr_print prev (or l r) =
      in_parentheses (is_above (expr_compare_type prev e_or))
        (expr_print e_or l ++ (plain (codes " || ") ∷ expr_print e_or r))
  expr_print prev (and l r) =
      in_parentheses (is_above (expr_compare_type prev e_and))
        (expr_print e_and l ++ (plain (codes " && ") ∷ expr_print e_and r))
  expr_print prev (list xs) =
      in_parentheses (is_above (expr_compare_type prev e_list)) (print_list xs)
  expr_print prev (range s r) = in_parentheses (is_above (expr_compare_type prev e_range)) (
      plain (codes "[")
      ∷ (right_symbol s ∷ (plain (codes " ") ∷ (right_symbol r ∷ (plain (codes "]") ∷ [])))))

  -- A NULL expression is printed as `y`.
  abbrev pub print_opt : ExprType → Option Expr → List Piece
  print_opt prev none = plain (codes "y") ∷ []
  print_opt prev (some e) = expr_print prev e

  -- What is printed, and the title that is still to be printed.
  pub record Titled : Type 0 where
    pub pieces : List Piece
    pub title : Option Bytes

  abbrev pub title_pieces : Option Bytes → List Piece
  title_pieces none = []
  title_pieces (some s) = plain s ∷ []

  abbrev pub revdep_item : Tristate → Option Bytes → Expr → Titled
  revdep_item pr_type title e =
      if expr_calc_value t e == pr_type
      then record {
        pieces =
            title_pieces title
            ++ (plain (codes "  - ") ∷ (expr_print e_none e ++ (plain (codes "\n") ∷ [])));
        title = none;
      }
      else record { pieces = []; title = title }

  unfoldable pub expr_print_revdep : Tristate → Option Bytes → Expr → Titled
  expr_print_revdep pr_type title (or l r) =
      let a = expr_print_revdep pr_type title l in
      let b = expr_print_revdep pr_type a.title r in
      record { pieces = a.pieces ++ b.pieces; title = b.title }
  expr_print_revdep pr_type title e = revdep_item pr_type title e
