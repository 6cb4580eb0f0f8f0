-- ===== src/Config/Gstr/Laws.antt =====
-- What a growable string holds, and that its buffer has room for it.
use mathlib.Core.List.{append_assoc, append-nil}
use dir842v2_gpl.Common.{
  ◌+◌, ◌≡◌, ◌≢◌, ◌∙◌, ◌<◌, ◌≤◌, refl, sym, ap, arith, Bool-cases, ◌⊎◌, inl, inr, List, [], ◌∷◌,
  ◌++◌, Option, none, some, ◌==◌, ltb, if◌then◌else◌, Bytes, codes, length, length-append, take,
}
use dir842v2_gpl.Config.Types.{SymbolId, Expr, Table}
use dir842v2_gpl.Config.Value.{sym_get_string_value}
use dir842v2_gpl.Config.Print.{e_none, Piece, print_opt}
use dir842v2_gpl.Config.Gstr.{
  Gstr, str_append, str_printf, fits_line, is_unknown, with_value, expr_print_gstr_helper,
  print_pieces, expr_gstr_print,
}

-- The string and its terminating zero are within the buffer.
abbrev pub HasRoom : Gstr → Type 0
HasRoom gs = length gs.s < gs.len

abbrev text_of : Option Bytes → Bytes
text_of none = []
text_of (some s) = s

-- A later string, with a text added behind.
record Appends (added : Bytes) (a b : Gstr) : Type 0 where
  room : HasRoom b
  width_same : b.max_width ≡ a.max_width
  longer : a.len ≤ b.len
  text : b.s ≡ a.s ++ added

Appends-none : (a : Gstr) → HasRoom a → Appends [] a a
Appends-none a h = record {
  room = h;
  width_same = refl;
  longer = omega arith;
  text = sym (append-nil a.s);
}

Appends-trans : (x y : Bytes) (a b c : Gstr) → Appends x a b → Appends y b c → Appends (x ++ y) a c
Appends-trans x y a b c p q = record {
  room = q.room;
  width_same = q.width_same ∙ p.width_same;
  longer = let m = p.longer in let n = q.longer in omega arith;
  text = q.text ∙ ap (λ r. r ++ y) p.text ∙ append_assoc a.s x y;
}

str_append-Appends :
    (gs : Gstr) (o : Option Bytes) → HasRoom gs → Appends (text_of o) gs (str_append gs o)
unfolding str_append
str_append-Appends gs none h = Appends-none gs h
str_append-Appends gs (some s) h =
    let a = length-append gs.s s in
    elim (Bool-cases (ltb gs.len (length gs.s + length s + 1))) [
      | inl m ↦
          rw m
            (record { room = omega arith; width_same = refl; longer = ground arith; text = refl })
      | inr m ↦
          rw m
            (record { room = ground arith; width_same = refl; longer = omega arith; text = refl })
    ]

module _ (t : Table) where
  -- A symbol of a known type is followed by its value.
  abbrev pub value_text : Option SymbolId → Bytes
  value_text none = []
  value_text (some s) =
      if is_unknown (t.at s).type
      then []
      else take 9999 (codes " [=" ++ (sym_get_string_value t s ++ codes "]"))

  unfoldable pub rendered : List Piece → Bytes
  rendered [] = []
  rendered (p ∷ ps) = text_of p.str ++ (value_text p.sym ++ rendered ps)

  with_value-Appends :
      (o : Option SymbolId) (gs : Gstr) → HasRoom gs → Appends (value_text o) gs (with_value t o gs)
  unfolding str_printf
  with_value-Appends none gs h = Appends-none gs h
  with_value-Appends (some s) gs h = elim (Bool-cases (is_unknown (t.at s).type)) [
    | inl u ↦ rw u (Appends-none gs h)
    | inr k ↦ rw k (
        str_append-Appends gs
          (some (take 9999 (codes " [=" ++ (sym_get_string_value t s ++ codes "]")))) h)
  ]

  abbrev broken : Gstr → Piece → Gstr
  broken gs p = if fits_line t gs p then gs else str_append gs (some (codes "\\" ++ (10 ∷ [])))

  -- A line is broken or it is not; it is not where there is no width.
  abbrev break_text : Gstr → Piece → Bytes
  break_text gs p = if fits_line t gs p then [] else codes "\\" ++ (10 ∷ [])

  broken-Appends : (gs : Gstr) (p : Piece) → HasRoom gs → Appends (break_text gs p) gs (broken gs p)
  broken-Appends gs p h = elim (Bool-cases (fits_line t gs p)) [
    | inl f ↦ rw f (Appends-none gs h)
    | inr f ↦ rw f (str_append-Appends gs (some (codes "\\" ++ (10 ∷ []))) h)
  ]

  helper-Appends :
      (gs : Gstr) (p : Piece)
      → HasRoom gs
      → Appends
          (break_text gs p ++ (text_of p.str ++ value_text p.sym))
          gs
          (expr_print_gstr_helper t gs p)
  unfolding expr_print_gstr_helper
  helper-Appends gs p h =
      let a = broken-Appends gs p h in
      let b = str_append-Appends (broken gs p) p.str a.room in
      let c = with_value-Appends p.sym (str_append (broken gs p) p.str) b.room in
      Appends-trans (break_text gs p) (text_of p.str ++ value_text p.sym) gs (broken gs p) _ a
        (Appends-trans (text_of p.str) (value_text p.sym) (broken gs p) _ _ b c)

  -- The text of the pieces with the breaks that come in between.
  added : Gstr → List Piece → Bytes
  added gs [] = []
  added gs (p ∷ ps) =
      (break_text gs p ++ (text_of p.str ++ value_text p.sym))
      ++ added (expr_print_gstr_helper t gs p) ps

  pieces-Appends :
      (ps : List Piece) (gs : Gstr) → HasRoom gs → Appends (added gs ps) gs (print_pieces t gs ps)
  unfolding print_pieces added
  pieces-Appends [] gs h = Appends-none gs h
  pieces-Appends (p ∷ ps) gs h =
      let a = helper-Appends gs p h in
      let b = pieces-Appends ps (expr_print_gstr_helper t gs p) a.room in
      Appends-trans _ _ gs (expr_print_gstr_helper t gs p) _ a b

  added-rendered :
      (ps : List Piece) (gs : Gstr) → HasRoom gs → gs.max_width ≡ 0 → added gs ps ≡ rendered ps
  unfolding added rendered fits_line
  added-rendered [] gs h w = refl
  added-rendered (p ∷ ps) gs h w =
      let a = helper-Appends gs p h in
      rw (added-rendered ps (expr_print_gstr_helper t gs p) a.room (a.width_same ∙ w))
        (rw w (append_assoc (text_of p.str) (value_text p.sym) (rendered ps)))

  -- expr_gstr_print on a string within its buffer leaves a string within its buffer: the text is
  -- added behind what was there, the buffer never shrinks and the width stays. Where no width is set,
  -- the text is the pieces of expr_print, each symbol of a known type followed by its value in
  -- brackets, this cut at 9999 bytes.
  pub expr_gstr_print_lem :
      (e : Option Expr) (gs : Gstr)
      → HasRoom gs
      → HasRoom (expr_gstr_print t e gs)
        × (gs.len ≤ (expr_gstr_print t e gs).len)
        × ((expr_gstr_print t e gs).max_width ≡ gs.max_width)
        × ((x : Bytes) × ((expr_gstr_print t e gs).s ≡ gs.s ++ x)
            × ((gs.max_width ≢ 0) ⊎ (x ≡ rendered (print_opt t e_none e))))
  unfolding expr_gstr_print
  expr_gstr_print_lem e gs h =
      let ps = print_opt t e_none e in
      let a = pieces-Appends ps gs h in
      (a.room, a.longer, a.width_same, (added gs ps, a.text, exact))
    where
      exact :
          (gs.max_width ≢ 0) ⊎ (added gs (print_opt t e_none e) ≡ rendered (print_opt t e_none e))
      exact = elim (Bool-cases (gs.max_width == 0)) [
        | inl z ↦ inr (added-rendered (print_opt t e_none e) gs h (ground arith))
        | inr z ↦ inl (λ q. ground arith)
      ]
