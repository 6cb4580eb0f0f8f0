-- ===== src/Config/Escape/RoundTrip.antt =====
-- A string value that is written to a configuration file is read back.
use dir842v2_gpl.Common.{
  false, ℕ, ◌∙◌, arith, [], ◌∷◌, refl, Bool-cases, inl, inr, ap, ◌≡◌, Bytes, ◌++◌, true, some,
}
use dir842v2_gpl.Config.Types.{string}
use dir842v2_gpl.Config.Escape.{
  prepend, is_special, sym_string_valid, sym_escape_string_value, escape_rest, unquote,
  conf_set_sym_val, Slot,
}

unquote-plain : (c : ℕ) (p : Bytes) → is_special c ≡ false → unquote (c ∷ p) ≡ prepend c (unquote p)
unfolding unquote
unquote-plain c [] h = ground arith
unquote-plain c (d ∷ p) h = ground arith

unquote-quote : (p : Bytes) → unquote (b'"' ∷ p) ≡ some []
unfolding unquote
unquote-quote [] = refl
unquote-quote (d ∷ p) = refl

unquote-backslash : (c : ℕ) (p : Bytes) → unquote (b'\\' ∷ c ∷ p) ≡ prepend c (unquote p)
unfolding unquote
unquote-backslash c p = refl

unquote-escape_rest : (s rest : Bytes) → unquote (escape_rest s ++ rest) ≡ some s
unfolding escape_rest
unquote-escape_rest [] rest = unquote-quote rest
unquote-escape_rest (c ∷ s) rest = elim (Bool-cases (is_special c)) [
  | inl h ↦
      rw h
        (unquote-backslash c (escape_rest s ++ rest) ∙ ap (prepend c) (unquote-escape_rest s rest))
  | inr h ↦
      rw h (unquote-plain c (escape_rest s ++ rest) h ∙ ap (prepend c) (unquote-escape_rest s rest))
]

-- A string symbol that is given its escaped value, with anything after it, is set to the value
-- itself, and the code is 0.
pub conf_set_sym_val-escape :
    (s : Slot) (val rest : Bytes)
    → s.type ≡ string
    → conf_set_sym_val s (sym_escape_string_value val ++ rest)
      ≡ record { sym = record s { val = some val; flagged = true }; code = 0 }
unfolding conf_set_sym_val sym_escape_string_value sym_string_valid
conf_set_sym_val-escape s val rest h = rw (h, unquote-escape_rest val rest) refl
