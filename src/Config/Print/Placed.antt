-- ===== src/Config/Print/Placed.antt =====
-- What is printed in a place where another operator stands round it.
use dir842v2_gpl.Common.{◌≡◌, refl, false, List, Bytes}
use dir842v2_gpl.Config.Types.{SymbolId, Relation, equal, Expr}
use dir842v2_gpl.Config.Print.{
  e_symbol, ExprType, e_none, e_or, e_and, e_not, Piece, in_parentheses, is_above,
  expr_compare_type, relation_type,
}
use dir842v2_gpl.Config.Print.Grammar.{Word, Unary, Conjunction, one_factor, Disjunction, one_term}
use dir842v2_gpl.Config.Print.Joined.{Printed, bare, wrapped}

-- Where an expression may stand.
pub data Place : Type 0 where
  top under_or under_and under_not : Place

abbrev pub type_at : Place → ExprType
type_at top = e_none
type_at under_or = e_or
type_at under_and = e_and
type_at under_not = e_not

abbrev pub Reads : Place → List Word → Expr → Type 0
Reads top = Disjunction
Reads under_or = Disjunction
Reads under_and = Conjunction
Reads under_not = Unary

pub of_unary : (p : Place) (ws : List Word) (e : Expr) → Unary ws e → Reads p ws e
of_unary top ws e u = one_term (one_factor u)
of_unary under_or ws e u = one_term (one_factor u)
of_unary under_and ws e u = one_factor u
of_unary under_not ws e u = u

pub weaker :
    {find : Bytes → SymbolId} {R S : List Word → Expr → Type 0} {ps : List Piece} {e : Expr}
    → ((ws : List Word) (f : Expr) → R ws f → S ws f)
    → Printed find R ps e
    → Printed find S ps e
weaker up h =
    let j = h.joined in
    record {
      spelt = h.spelt;
      bytes = h.bytes;
      text = h.text;
      starts = h.starts;
      lexes = h.lexes;
      joined = record { read = j.read; reads = up h.spelt j.read j.reads; value = j.value };
    }

-- A comparison is never put in parentheses.
pub compare-relation :
    (p : Place) (k : Relation) → is_above (expr_compare_type (type_at p) (relation_type k)) ≡ false
unfolding expr_compare_type
compare-relation top equal = refl
compare-relation under_or equal = refl
compare-relation under_and equal = refl
compare-relation under_not equal = refl
compare-relation _ _ = refl

pub placed_symbol :
    {find : Bytes → SymbolId} (p : Place) (ps : List Piece) {e : Expr}
    → Printed find Unary ps e
    → Printed find
        (Reads p)
        (in_parentheses (is_above (expr_compare_type (type_at p) e_symbol)) ps)
        e
unfolding expr_compare_type
placed_symbol top ps h = weaker (of_unary top) (bare ps h)
placed_symbol under_or ps h = weaker (of_unary under_or) (bare ps h)
placed_symbol under_and ps h = weaker (of_unary under_and) (bare ps h)
placed_symbol under_not ps h = bare ps h

pub placed_not :
    {find : Bytes → SymbolId} (p : Place) (ps : List Piece) {e : Expr}
    → Printed find Unary ps e
    → Printed find (Reads p) (in_parentheses (is_above (expr_compare_type (type_at p) e_not)) ps) e
unfolding expr_compare_type
placed_not top ps h = weaker (of_unary top) (bare ps h)
placed_not under_or ps h = weaker (of_unary under_or) (bare ps h)
placed_not under_and ps h = weaker (of_unary under_and) (bare ps h)
placed_not under_not ps h = bare ps h

pub placed_and :
    {find : Bytes → SymbolId} (p : Place) (ps : List Piece) {e : Expr}
    → Printed find Conjunction ps e
    → Printed find (Reads p) (in_parentheses (is_above (expr_compare_type (type_at p) e_and)) ps) e
unfolding expr_compare_type
placed_and top ps h = weaker (λ ws f c. one_term c) (bare ps h)
placed_and under_or ps h = weaker (λ ws f c. one_term c) (bare ps h)
placed_and under_and ps h = bare ps h
placed_and under_not ps h = wrapped ps (weaker (λ ws f c. one_term c) h)

pub placed_or :
    {find : Bytes → SymbolId} (p : Place) (ps : List Piece) {e : Expr}
    → Printed find Disjunction ps e
    → Printed find (Reads p) (in_parentheses (is_above (expr_compare_type (type_at p) e_or)) ps) e
unfolding expr_compare_type
placed_or top ps h = bare ps h
placed_or under_or ps h = bare ps h
placed_or under_and ps h = weaker (of_unary under_and) (wrapped ps h)
placed_or under_not ps h = wrapped ps h
