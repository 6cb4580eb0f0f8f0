-- ===== src/Config/Print/Joined.antt =====
-- Texts that read as an expression of some value, and how they are put together.
use mathlib.Core.List.{append-nil, append_assoc}
use dir842v2_gpl.Common.{
  Bytes, ◌≡◌, ◌∙◌, refl, sym, ap, true, false, List, [], ◌∷◌, ◌++◌, Option, none, some, codes,
  eq_of_some-eq_some,
}
use dir842v2_gpl.Config.Types.{SymbolId, Expr, and, or, Table, tristate_laws}
use dir842v2_gpl.Config.Value.{expr_calc_value}
use dir842v2_gpl.Config.Print.{Piece, plain, in_parentheses, put_before, text_of}
use dir842v2_gpl.Config.Print.Grammar.{
  Word, t_open, t_close, t_and, t_or, Lexes, a_sign, ends_word, is_no_equals, Unary, parentheses,
  Conjunction, one_factor, conjoined, Disjunction, one_term, disjoined,
}

put_before-eq_some :
    (a b : Option Bytes) {s : Bytes}
    → put_before a b ≡ some s
    → (x : Bytes) × (y : Bytes) × (a ≡ some x) × (b ≡ some y) × (s ≡ x ++ y)
put_before-eq_some (some x) (some y) h = (x, y, refl, refl, sym (eq_of_some-eq_some h))
put_before-eq_some (some x) none h = cc
put_before-eq_some none b h = cc

pub text_of-append :
    (ps qs : List Piece) {a b : Bytes}
    → text_of ps ≡ some a
    → text_of qs ≡ some b
    → text_of (ps ++ qs) ≡ some (a ++ b)
unfolding text_of
text_of-append [] qs h k = let e = eq_of_some-eq_some h in rw (← e) k
text_of-append (p ∷ ps) qs {b = b} h k =
    let (x, y, e, f, c) = put_before-eq_some p.str (text_of ps) h in
    rw (e, text_of-append ps qs f k, c, append_assoc x y b) refl

-- Two expressions have one value in every state.
abbrev pub Same : Expr → Expr → Type 0
Same e f = (t : Table) → expr_calc_value t e ≡ expr_calc_value t f

-- An operand on the right that is itself a chain of the same operator joins the one on the left.
pub record Joined (R : List Word → Expr → Type 0) (ws : List Word) (e : Expr) : Type 0 where
  pub read : Expr
  pub reads : R ws read
  pub value : Same read e

pub join_and :
    (ts us : List Word) (e f : Expr)
    → Conjunction ts e
    → Conjunction us f
    → Joined Conjunction (ts ++ (t_and ∷ us)) (and e f)
unfolding expr_calc_value
join_and ts us e f c (one_factor u) = record {
  read = and e f;
  reads = conjoined refl c u;
  value = λ t. refl;
}
join_and ts us e _ c (conjoined {us = front} {vs} {e = a} {f = b} q d u) =
    let h = join_and ts front e a c d in
    record {
      read = and h.read b;
      reads =
          conjoined
            (ap (λ r. ts ++ (t_and ∷ r)) q ∙ sym (append_assoc ts (t_and ∷ front) (t_and ∷ vs)))
            h.reads u;
      value = λ t. let v = h.value t in omega tristate_laws;
    }

pub join_or :
    (ts us : List Word) (e f : Expr)
    → Disjunction ts e
    → Disjunction us f
    → Joined Disjunction (ts ++ (t_or ∷ us)) (or e f)
unfolding expr_calc_value
join_or ts us e f c (one_term u) = record {
  read = or e f;
  reads = disjoined refl c u;
  value = λ t. refl;
}
join_or ts us e _ c (disjoined {us = front} {vs} {e = a} {f = b} q d u) =
    let h = join_or ts front e a c d in
    record {
      read = or h.read b;
      reads =
          disjoined
            (ap (λ r. ts ++ (t_or ∷ r)) q ∙ sym (append_assoc ts (t_or ∷ front) (t_or ∷ vs)))
            h.reads u;
      value = λ t. let v = h.value t in omega tristate_laws;
    }

-- What a text reads as. The lexer makes its words of it whatever follows that does not go on with a
-- word, and it does not begin with `=`.
pub record Printed (find : Bytes → SymbolId) (R : List Word → Expr → Type 0) (ps : List Piece)
    (e : Expr) : Type 0 where
  pub spelt : List Word
  pub bytes : Bytes
  pub text : text_of ps ≡ some bytes
  pub starts : (s : Bytes) → is_no_equals (bytes ++ s) ≡ true
  pub lexes :
      (s : Bytes) (ws : List Word)
      → ends_word s ≡ true
      → Lexes find s ws
      → Lexes find (bytes ++ s) (spelt ++ ws)
  pub joined : Joined R spelt e

pub bare :
    {find : Bytes → SymbolId} {R : List Word → Expr → Type 0} (ps : List Piece) {e : Expr}
    → Printed find R ps e
    → Printed find R (in_parentheses false ps) e
bare ps h = rw (append-nil ps) h

-- In parentheses any expression is an operand.
pub wrapped :
    {find : Bytes → SymbolId} (ps : List Piece) {e : Expr}
    → Printed find Disjunction ps e
    → Printed find Unary (in_parentheses true ps) e
unfolding text_of
wrapped ps h =
    let j = h.joined in
    record {
      spelt = t_open ∷ (h.spelt ++ (t_close ∷ []));
      bytes = b'(' ∷ (h.bytes ++ (b')' ∷ []));
      text = rw (text_of-append ps (plain (codes ")") ∷ []) h.text refl) refl;
      starts = λ s. refl;
      lexes = λ s ws n l. a_sign t_open refl refl refl (
          rw (append_assoc h.bytes (b')' ∷ []) s, append_assoc h.spelt (t_close ∷ []) ws)
            (h.lexes (b')' ∷ s) (t_close ∷ ws) refl (a_sign t_close refl refl refl l)));
      joined = record { read = j.read; reads = parentheses refl j.reads; value = j.value };
    }
