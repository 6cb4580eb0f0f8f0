-- ===== src/Config/Reader/Ends.antt =====
-- Where the lines end that kconfig_print_symbol writes.
use dir842v2_gpl.Common.{
  all-lacks, ◌≡◌, ◌∙◌, sym, ap, refl, arith, true, [], ◌∷◌, ◌++◌, Bytes, codes, is_word, all, lacks,
}
use mathlib.Core.Path.{subst}
use mathlib.Core.List.{append-nil, append_assoc}
use dir842v2_gpl.Config.Escape.{Slot}
use dir842v2_gpl.Config.Printer.{assignment, not_set}
use dir842v2_gpl.Config.Reader.{getlines}
use dir842v2_gpl.Config.Reader.Lines.{IsPlain}
use dir842v2_gpl.Config.Reader.Written.{written, Written, as_unset, as_value}

-- A text that ends a line, and no other one before its end.
abbrev pub EndsLine : Bytes → Type 0
EndsLine t = (seen rest : Bytes) → getlines seen (t ++ rest) ≡ (seen ++ t) ∷ getlines [] rest

newline-EndsLine : EndsLine (codes "\n")
unfolding getlines
newline-EndsLine seen rest = refl

getlines-through :
    (s seen rest : Bytes)
    → lacks b'\n' s ≡ true
    → getlines seen (s ++ rest) ≡ getlines (seen ++ s) rest
unfolding getlines lacks
getlines-through [] seen rest h = ap (λ (x : Bytes). getlines x rest) (sym (append-nil seen))
getlines-through (c ∷ s) seen rest h =
    let more = getlines-through s (seen ++ (c ∷ [])) rest in
    let joined = append_assoc seen (c ∷ []) s in ground (arith, more, joined)

append-EndsLine : (s t : Bytes) → lacks b'\n' s ≡ true → EndsLine t → EndsLine (s ++ t)
append-EndsLine s t h e seen rest =
    ap (getlines seen) (append_assoc s t rest)
    ∙ getlines-through s seen (t ++ rest) h
    ∙ e (seen ++ s) rest
    ∙ ap (λ (x : Bytes). x ∷ getlines [] rest) (append_assoc seen s t)

module _ (prefix name : Bytes) (words : all is_word prefix ≡ true)
    (named : all is_word name ≡ true) where
  assignment-EndsLine : (v : Bytes) → IsPlain v → EndsLine (assignment prefix name v)
  unfolding lacks
  assignment-EndsLine v p = append-EndsLine prefix _ (all-lacks is_word b'\n' prefix refl words) (
      append-EndsLine name _ (all-lacks is_word b'\n' name refl named) (
        append-EndsLine (codes "=") _ refl
          (append-EndsLine v (codes "\n") p.no_newline newline-EndsLine)))

  not_set-EndsLine : EndsLine (not_set prefix name)
  unfolding lacks
  not_set-EndsLine = append-EndsLine (codes "# ") _ refl (
      append-EndsLine prefix _ (all-lacks is_word b'\n' prefix refl words) (
        append-EndsLine name _ (all-lacks is_word b'\n' name refl named)
          (append-EndsLine (codes " is not set") (codes "\n") refl newline-EndsLine)))

  pub Written-EndsLine :
      (slot : Slot) (value : Bytes)
      → Written prefix name slot value
      → EndsLine (written prefix name slot value)
  Written-EndsLine slot value (as_unset e k t) = subst EndsLine (sym e) not_set-EndsLine
  Written-EndsLine slot value (as_value v p e t) = subst EndsLine (sym e) (assignment-EndsLine v p)
