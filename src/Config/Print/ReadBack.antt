-- ===== src/Config/Print/ReadBack.antt =====
-- What expr_print prints reads back as an expression of the same value.
use mathlib.Core.List.{append-nil, append_assoc}
use mathlib.Core.Path.{subst}
use dir842v2_gpl.Common.{true, arith, ◌≡◌, refl, List, [], ◌∷◌, ◌++◌, some, Bytes, codes}
use dir842v2_gpl.Config.Types.{
  lth, gth, list, range, SymbolId, Relation, equal, Expr, symbol, not, and, or, comp, Table,
  IsLogical, leaf, negation, conjunction, disjunction, comparison,
}
use dir842v2_gpl.Config.Value.{expr_calc_value}
use dir842v2_gpl.Config.Print.{
  e_none, Piece, plain, left_symbol, right_symbol, expr_print, text_of, sign_text,
}
use dir842v2_gpl.Config.Print.Grammar.{
  Lexes, the_end, a_blank, a_sign, a_word, is_word, ends_word, is_no_equals, is_longest,
  a_comparison, Word, t_not, t_and, t_or, t_relation, t_symbol, Unary, a_symbol, negated,
  Conjunction, Disjunction,
}
use dir842v2_gpl.Config.Print.Joined.{Printed, bare, join_and, join_or, text_of-append}
use dir842v2_gpl.Config.Print.Placed.{
  Place, top, under_or, under_and, under_not, type_at, Reads, weaker, compare-relation, of_unary,
  placed_symbol, placed_not, placed_and, placed_or,
}

-- A word begins with no `=`.
is_word-no_equals : (b s : Bytes) → is_word b ≡ true → is_no_equals (b ++ s) ≡ true
unfolding is_word
is_word-no_equals [] s h = cc
is_word-no_equals (c ∷ b) s h = ground arith

sign-ends_word : (k : Relation) (s : Bytes) → ends_word (sign_text k ++ s) ≡ true
sign-ends_word equal s = refl
sign-ends_word _ s = refl

sign-is_longest :
    (k : Relation) (s : Bytes) → is_no_equals s ≡ true → is_longest (t_relation k) s ≡ true
sign-is_longest equal s h = refl
sign-is_longest lth s h = h
sign-is_longest gth s h = h
sign-is_longest _ s h = refl

module _ (t : Table) (find : Bytes → SymbolId) where
  -- The symbol has a name that the lexer takes for a word, and that leads back to it.
  abbrev pub IsNamed : SymbolId → Type 0
  IsNamed s = (b : Bytes) × ((t.at s).name ≡ some b) × (is_word b ≡ true) × (find b ≡ s)

  -- Every symbol of the expression is such a one.
  abbrev pub AreNamed : Expr → Type 0
  AreNamed (symbol s) = IsNamed s
  AreNamed (not e) = AreNamed e
  AreNamed (and l r) = AreNamed l × AreNamed r
  AreNamed (or l r) = AreNamed l × AreNamed r
  AreNamed (comp _ s r) = IsNamed s × IsNamed r
  AreNamed _ = Unit {0}

  lexes_name :
      (b : Bytes) (x : SymbolId) (s : Bytes) (ws : List Word)
      → is_word b ≡ true
      → find b ≡ x
      → ends_word s ≡ true
      → Lexes find s ws
      → Lexes find (b ++ s) (t_symbol x ∷ ws)
  lexes_name b x s ws w f n l =
      subst (λ y. Lexes find (b ++ s) (t_symbol y ∷ ws)) f (a_word b refl w n l)

  one_symbol : (s : SymbolId) → IsNamed s → Printed find Unary (left_symbol t s ∷ []) (symbol s)
  unfolding text_of left_symbol
  one_symbol s (b, e, w, f) = record {
    spelt = t_symbol s ∷ [];
    bytes = b;
    text = rw (e, append-nil b) refl;
    starts = λ r. is_word-no_equals b r w;
    lexes = λ r ws n l. lexes_name b s r ws w f n l;
    joined = record { read = symbol s; reads = a_symbol refl; value = λ u. refl };
  }

  one_comparison :
      (k : Relation) (s r : SymbolId)
      → IsNamed s
      → IsNamed r
      → Printed find Unary
          (left_symbol t s ∷ (plain (sign_text k) ∷ (right_symbol t r ∷ [])))
          (comp k s r)
  unfolding text_of left_symbol right_symbol
  one_comparison k s r (b, e, w, f) (c, g, v, h) = record {
    spelt = t_symbol s ∷ (t_relation k ∷ (t_symbol r ∷ []));
    bytes = b ++ (sign_text k ++ c);
    text = rw (e, g, append-nil c) refl;
    starts = λ z. rw (append_assoc b (sign_text k ++ c) z) (is_word-no_equals b _ w);
    lexes = λ z ws n l.
        rw (append_assoc b (sign_text k ++ c) z, append_assoc (sign_text k) c z)
          (lexes_name b s _ _ w f (sign-ends_word k (c ++ z)) (
            a_sign (t_relation k) refl refl (sign-is_longest k _ (is_word-no_equals c z v))
              (lexes_name c r z ws v h n l)));
    joined = record { read = comp k s r; reads = a_comparison refl; value = λ u. refl };
  }

  -- An operator with its blanks, between two texts.
  between :
      {R S : List Word → Expr → Type 0} {ps qs : List Piece} {e f : Expr} (w : Word) (sign : Bytes)
      (h : Printed find R ps e) (k : Printed find S qs f) (z : Bytes) (ws : List Word)
      → ((y : Bytes) (us : List Word)
          → Lexes find y us
          → Lexes find (b' ' ∷ (sign ++ (b' ' ∷ y))) (w ∷ us))
      → ends_word z ≡ true
      → Lexes find z ws
      → Lexes find
          ((h.bytes ++ (b' ' ∷ (sign ++ (b' ' ∷ k.bytes)))) ++ z)
          ((h.spelt ++ (w ∷ k.spelt)) ++ ws)
  between w sign h k z ws op n l =
      rw
        (
          append_assoc h.bytes (b' ' ∷ (sign ++ (b' ' ∷ k.bytes))) z,
          append_assoc sign (b' ' ∷ k.bytes) z,
          append_assoc h.spelt (w ∷ k.spelt) ws,
        )
        (h.lexes _ _ refl (op (k.bytes ++ z) (k.spelt ++ ws) (k.lexes z ws n l)))

  both_and :
      (ps qs : List Piece) (l r : Expr)
      → Printed find Conjunction ps l
      → Printed find Conjunction qs r
      → Printed find Conjunction (ps ++ (plain (codes " && ") ∷ qs)) (and l r)
  unfolding text_of expr_calc_value
  both_and ps qs l r h k =
      let a = h.joined in
      let b = k.joined in
      let j = join_and h.spelt k.spelt a.read b.read a.reads b.reads in
      record {
        spelt = h.spelt ++ (t_and ∷ k.spelt);
        bytes = h.bytes ++ (codes " && " ++ k.bytes);
        text = text_of-append ps (plain (codes " && ") ∷ qs) h.text (rw k.text refl);
        starts = λ z. rw (append_assoc h.bytes (codes " && " ++ k.bytes) z) (h.starts _);
        lexes = λ z ws n u.
            between t_and (codes "&&") h k z ws
              (λ y us o. a_blank refl (a_sign t_and refl refl refl (a_blank refl o))) n u;
        joined = record {
          read = j.read;
          reads = j.reads;
          value = λ u. rw (j.value u, a.value u, b.value u) refl;
        };
      }

  both_or :
      (ps qs : List Piece) (l r : Expr)
      → Printed find Disjunction ps l
      → Printed find Disjunction qs r
      → Printed find Disjunction (ps ++ (plain (codes " || ") ∷ qs)) (or l r)
  unfolding text_of expr_calc_value
  both_or ps qs l r h k =
      let a = h.joined in
      let b = k.joined in
      let j = join_or h.spelt k.spelt a.read b.read a.reads b.reads in
      record {
        spelt = h.spelt ++ (t_or ∷ k.spelt);
        bytes = h.bytes ++ (codes " || " ++ k.bytes);
        text = text_of-append ps (plain (codes " || ") ∷ qs) h.text (rw k.text refl);
        starts = λ z. rw (append_assoc h.bytes (codes " || " ++ k.bytes) z) (h.starts _);
        lexes = λ z ws n u.
            between t_or (codes "||") h k z ws
              (λ y us o. a_blank refl (a_sign t_or refl refl refl (a_blank refl o))) n u;
        joined = record {
          read = j.read;
          reads = j.reads;
          value = λ u. rw (j.value u, a.value u, b.value u) refl;
        };
      }

  refused :
      (ps : List Piece) (e : Expr)
      → Printed find Unary ps e
      → Printed find Unary (plain (codes "!") ∷ ps) (not e)
  unfolding text_of expr_calc_value
  refused ps e h =
      let j = h.joined in
      record {
        spelt = t_not ∷ h.spelt;
        bytes = b'!' ∷ h.bytes;
        text = rw h.text refl;
        starts = λ z. refl;
        lexes = λ z ws n l. a_sign t_not refl refl (h.starts z) (h.lexes z ws n l);
        joined = record {
          read = not j.read;
          reads = negated refl j.reads;
          value = λ u. rw (j.value u) refl;
        };
      }

  printed :
      (p : Place) (e : Expr)
      → IsLogical e
      → AreNamed e
      → Printed find (Reads p) (expr_print t (type_at p) e) e
  unfolding expr_print
  printed p (symbol s) leaf n = placed_symbol p _ (one_symbol s n)
  printed p (comp k s r) comparison n =
      rw (compare-relation p k) (weaker (of_unary p) (bare _ (one_comparison k s r n.0 n.1)))
  printed p (not e) (negation l) n = placed_not p _ (refused _ e (printed under_not e l n))
  printed p (and e f) (conjunction l r) n =
      placed_and p _ (both_and _ _ e f (printed under_and e l n.0) (printed under_and f r n.1))
  printed p (or e f) (disjunction l r) n =
      placed_or p _ (both_or _ _ e f (printed under_or e l n.0) (printed under_or f r n.1))
  printed p (list _) l n = elim l [ ]
  printed p (range _ _) l n = elim l [ ]

  -- What expr_print prints for a tree of symbols, comparisons and operators, written as
  -- expr_print_file_helper does, read by the lexer and the grammar of the configuration language, is
  -- an expression of the same value in every state: no parenthesis is missing. Each symbol has a name
  -- that the lexer takes for one word, and no keyword, and that leads back to the symbol.
  pub expr_print-reads :
      (e : Expr)
      → IsLogical e
      → AreNamed e
      → (s : Bytes) × (ws : List Word) × (f : Expr) × (text_of (expr_print t e_none e) ≡ some s)
        × Lexes find s ws
        × Disjunction ws f
        × ((u : Table) → expr_calc_value u f ≡ expr_calc_value u e)
  expr_print-reads e l n =
      let h = printed top e l n in
      let j = h.joined in
      let r : Lexes find h.bytes h.spelt =
        rw (← append-nil h.bytes, ← append-nil h.spelt) (h.lexes [] [] refl (the_end refl)) in
      (h.bytes, h.spelt, j.read, h.text, r, j.reads, j.value)
