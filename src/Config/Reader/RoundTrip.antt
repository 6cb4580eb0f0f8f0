-- ===== src/Config/Reader/RoundTrip.antt =====
-- A symbol that is written to a configuration file is read back.
use dir842v2_gpl.Common.{
  ◌≡◌, ◌⊎◌, ◌∙◌, sym, ap, refl, true, false, inl, inr, none, some, Bytes, is_word, all,
}
use dir842v2_gpl.Config.Reader.Written.{
  IsWritable, restored, as_unset, as_value, conf_write_symbol-Written,
}
use dir842v2_gpl.Config.Types.{tri_no, SymbolId, SymbolType, boolean, tristate, other}
use dir842v2_gpl.Config.Escape.{Slot, conf_set_sym_val}
use dir842v2_gpl.Config.Escape.Numeric.{slot-typed}
use dir842v2_gpl.Config.Symtab.{sym_find}
use dir842v2_gpl.Config.Printer.{assignment, not_set, kconfig_print_symbol, conf_write_symbol}
use dir842v2_gpl.Config.Reader.{
  with_target, Target, setsym, user, Choices, Reading, put, target, unset_slot, apply_unset,
  apply_assigned, apply_line, read_line,
}
use dir842v2_gpl.Config.Reader.Lines.{IsPlain, parse_line-assignment, parse_line-not_set}

setsym-plain : (c : Choices) (s : SymbolId) (r : Reading) → c.choice_of s ≡ none → setsym c s r ≡ r
setsym-plain c s r h = rw (setsym, h) refl

unset_slot-switch :
    (slot : Slot)
    → slot.type ≡ boolean ⊎ slot.type ≡ tristate
    → unset_slot slot ≡ record slot { tri = tri_no; flagged = true }
unset_slot-switch slot (inl k) =
    slot-typed (λ x. unset_slot x ≡ record x { tri = tri_no; flagged = true }) boolean slot k refl
unset_slot-switch slot (inr k) =
    slot-typed (λ x. unset_slot x ≡ record x { tri = tri_no; flagged = true }) tristate slot k refl

with_target-found :
    (f : SymbolId → Reading → Reading) (x : Target) (s : SymbolId)
    → x.symbol ≡ some s
    → with_target f x ≡ f s x.reading
with_target-found f x s h = rw (with_target, h) refl

apply_assigned-kept :
    (c : Choices) (s : SymbolId) (r : Reading) (value : Bytes) (slot : Slot)
    → c.choice_of s ≡ none
    → conf_set_sym_val (r.slots s) value ≡ record { sym = slot; code = 0 }
    → apply_assigned c value s r ≡ put s slot r
unfolding apply_assigned
apply_assigned-kept c s r value slot h e = rw e (setsym-plain c s (put s slot r) h)

apply_unset-switch :
    (c : Choices) (s : SymbolId) (r : Reading)
    → c.choice_of s ≡ none
    → (r.slots s).type ≡ boolean ⊎ (r.slots s).type ≡ tristate
    → apply_unset c s r ≡ put s (record (r.slots s) { tri = tri_no; flagged = true }) r
unfolding apply_unset
apply_unset-switch c s r h k =
    setsym-plain c s (put s (unset_slot (r.slots s)) r) h
    ∙ ap (λ (slot : Slot). put s slot r) (unset_slot-switch (r.slots s) k)

module _ (prefix name : Bytes) (c : Choices) (s : SymbolId) (r : Reading)
    (words : all is_word prefix ≡ true) (named : all is_word name ≡ true)
    (found : sym_find (some name) r.store ≡ some s) (plain_symbol : c.choice_of s ≡ none) where
  target-reading : (type : SymbolType) → (target user type name r).reading ≡ r
  unfolding target
  target-reading type = rw (target, found) refl

  target-symbol : (type : SymbolType) → (target user type name r).symbol ≡ some s
  unfolding target
  target-symbol type = found

  with_target-user :
      (type : SymbolType) (f : SymbolId → Reading → Reading)
      → with_target f (target user type name r) ≡ f s r
  with_target-user type f =
      with_target-found f (target user type name r) s (target-symbol type)
      ∙ ap (f s) (target-reading type)

  read-assignment :
      (value : Bytes) (slot : Slot)
      → IsPlain value
      → conf_set_sym_val (r.slots s) value ≡ record { sym = slot; code = 0 }
      → read_line prefix user c (assignment prefix name value) r ≡ put s slot r
  unfolding read_line apply_line
  read-assignment value slot p h = rw (parse_line-assignment prefix name words named value p) (
      with_target-user other (apply_assigned c value)
      ∙ apply_assigned-kept c s r value slot plain_symbol h)

  read-not_set :
      (k : (r.slots s).type ≡ boolean ⊎ (r.slots s).type ≡ tristate)
      → read_line prefix user c (not_set prefix name) r
        ≡ put s (record (r.slots s) { tri = tri_no; flagged = true }) r
  unfolding read_line apply_line
  read-not_set k =
      rw (parse_line-not_set prefix name words named)
        (with_target-user boolean (apply_unset c) ∙ apply_unset-switch c s r plain_symbol k)

-- The line that is written for a symbol with a value of its type, when it is read for S_DEF_USER
-- and the symbol is no choice value, gives the symbol that value again and changes nothing else.
-- The prefix and the name are words, and a string value has no newline and no zero byte.
pub read_line-conf_write_symbol :
    (prefix name value : Bytes) (c : Choices) (s : SymbolId) (r : Reading)
    → all is_word prefix ≡ true
    → all is_word name ≡ true
    → sym_find (some name) r.store ≡ some s
    → c.choice_of s ≡ none
    → IsWritable (r.slots s).type value
    → read_line prefix user c
        (conf_write_symbol (kconfig_print_symbol prefix false) (r.slots s).type name value)
        r
      ≡ put s (restored (r.slots s) value) r
read_line-conf_write_symbol prefix name value c s r words named found plain_symbol w =
    elim (conf_write_symbol-Written prefix name (r.slots s) value w) [
      | as_unset line_eq k e ↦
          ap (λ (line : Bytes). read_line prefix user c line r) line_eq
          ∙ read-not_set prefix name c s r words named found plain_symbol k
          ∙ ap (λ (slot : Slot). put s slot r) (sym e)
      | as_value v plain line_eq e ↦
          ap (λ (line : Bytes). read_line prefix user c line r) line_eq
          ∙ read-assignment prefix name c s r words named found plain_symbol v
              (restored (r.slots s) value) plain e
    ]
