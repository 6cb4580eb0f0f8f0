-- ===== src/Config/Reader/Written.antt =====
-- What kconfig_print_symbol writes of a symbol for .config, and what conf_set_sym_val makes of it.
use mathlib.Core.List.{append-nil}
use mathlib.Core.Path.{subst}
use dir842v2_gpl.Common.{
  ℕ, ◌≡◌, ◌⊎◌, ◌∙◌, sym, ap, refl, arith, true, false, inl, inr, [], ◌∷◌, some, ◌==◌, if◌then◌else◌,
  Bytes, codes, lacks,
}
use dir842v2_gpl.Config.Types.{
  Tristate, tri_no, tri_mod, tri_yes, SymbolType, boolean, tristate, int, hex, string,
}
use dir842v2_gpl.Config.Escape.{
  escape_rest, sym_escape_string_value, sym_string_valid, Slot, conf_set_sym_val,
}
use dir842v2_gpl.Config.Escape.RoundTrip.{conf_set_sym_val-escape}
use dir842v2_gpl.Config.Escape.Numeric.{
  slot-typed, IsForeign, number-lacks, conf_set_sym_val-number,
}
use dir842v2_gpl.Config.Printer.{
  assignment, not_set, starts_with, kconfig_print_symbol, conf_write_symbol,
}
use dir842v2_gpl.Config.Reader.{is_empty, strip_cr}
use dir842v2_gpl.Config.Reader.Lines.{IsPlain}

strip_cr-lacks : (s : Bytes) → lacks 13 s ≡ true → strip_cr s ≡ s
unfolding strip_cr lacks
strip_cr-lacks [] h = refl
strip_cr-lacks (c ∷ s) h = ground (arith, strip_cr-lacks s)

-- Escaping keeps a value on its line.
escape-lacks :
    (b : ℕ) (s : Bytes)
    → (b'"' == b) ≡ false
    → (b'\\' == b) ≡ false
    → lacks b s ≡ true
    → lacks b (escape_rest s) ≡ true
unfolding escape_rest lacks
escape-lacks b [] q e h = ground arith
escape-lacks b (c ∷ s) q e h = ground (arith, escape-lacks b s q e)

escape-full : (s : Bytes) → is_empty (escape_rest s) ≡ false
unfolding escape_rest
escape-full [] = refl
escape-full (c ∷ s) = ground arith

strip_cr-escape : (s : Bytes) → strip_cr (escape_rest s) ≡ escape_rest s
unfolding escape_rest strip_cr
strip_cr-escape [] = refl
strip_cr-escape (c ∷ s) = ground (arith, strip_cr-escape s, escape-full s)

escape-IsPlain :
    (s : Bytes) → lacks b'\n' s ≡ true → lacks 0 s ≡ true → IsPlain (sym_escape_string_value s)
unfolding sym_escape_string_value lacks strip_cr
escape-IsPlain s n z = record {
  no_newline = escape-lacks b'\n' s refl refl n;
  no_zero = escape-lacks 0 s refl refl z;
  no_cr_at_end = ap (λ (t : Bytes). b'"' ∷ t) (strip_cr-escape s);
}

foreign : (b : ℕ) → (b ≡ 0) ⊎ (b ≡ 10) ⊎ (b ≡ 13) → IsForeign b
foreign b (inl e) =
    rw e (record { digit = refl; xdigit = refl; minus = refl; lower = refl; upper = refl })
foreign b (inr (inl e)) =
    rw e (record { digit = refl; xdigit = refl; minus = refl; lower = refl; upper = refl })
foreign b (inr (inr e)) =
    rw e (record { digit = refl; xdigit = refl; minus = refl; lower = refl; upper = refl })

number-IsPlain :
    (k : SymbolType) (s : Bytes) → k ≡ int ⊎ k ≡ hex → sym_string_valid k s ≡ true → IsPlain s
number-IsPlain k s t h = record {
  no_newline = number-lacks k 10 s t (foreign 10 (inr (inl refl))) h;
  no_zero = number-lacks k 0 s t (foreign 0 (inl refl)) h;
  no_cr_at_end = strip_cr-lacks s (number-lacks k 13 s t (foreign 13 (inr (inr refl))) h);
}

-- What the file can hold of a symbol of a type.
pub data IsWritable (k : SymbolType) (value : Bytes) : Type 0 where
  switch : k ≡ boolean ⊎ k ≡ tristate → value ≡ codes "n" ⊎ value ≡ codes "y" → IsWritable k value
  modular : k ≡ tristate → value ≡ codes "m" → IsWritable k value
  number : k ≡ int ⊎ k ≡ hex → sym_string_valid k value ≡ true → IsWritable k value
  text : k ≡ string → lacks b'\n' value ≡ true → lacks 0 value ≡ true → IsWritable k value

abbrev pub tristate_of : Bytes → Tristate
tristate_of value =
    if starts_with b'y' value then tri_yes else if starts_with b'm' value then tri_mod else tri_no

-- The slot of a symbol that has the value as the user's.
abbrev pub restored : Slot → Bytes → Slot
restored slot value = elim slot.type [
  | boolean ↦ record slot { tri = tristate_of value; flagged = true }
  | tristate ↦ record slot { tri = tristate_of value; flagged = true }
  | _ ↦ record slot { val = some value; flagged = true }
]

letter-IsPlain : (b : ℕ) → b ≡ b'y' ⊎ b ≡ b'm' → IsPlain (b ∷ [])
unfolding lacks strip_cr
letter-IsPlain b (inl e) = rw e (record { no_newline = refl; no_zero = refl; no_cr_at_end = refl })
letter-IsPlain b (inr e) = rw e (record { no_newline = refl; no_zero = refl; no_cr_at_end = refl })

-- How the printer puts the value of a symbol.
module _ (prefix name : Bytes) where
  abbrev pub written : Slot → Bytes → Bytes
  written slot value = conf_write_symbol (kconfig_print_symbol prefix false) slot.type name value

  pub data Written (slot : Slot) (value : Bytes) : Type 0 where
    as_unset :
        written slot value ≡ not_set prefix name
        → slot.type ≡ boolean ⊎ slot.type ≡ tristate
        → restored slot value ≡ record slot { tri = tri_no; flagged = true }
        → Written slot value
    as_value :
        (v : Bytes)
        → IsPlain v
        → written slot value ≡ assignment prefix name v
        → conf_set_sym_val slot v ≡ record { sym = restored slot value; code = 0 }
        → Written slot value

  switch-Written :
      (slot : Slot) (value : Bytes)
      → slot.type ≡ boolean ⊎ slot.type ≡ tristate
      → value ≡ codes "n" ⊎ value ≡ codes "y"
      → Written slot value
  unfolding conf_write_symbol kconfig_print_symbol conf_set_sym_val
  switch-Written slot value (inl k) (inl v) =
      subst (Written slot) (sym v)
        (slot-typed (λ x. Written x (codes "n")) boolean slot k (as_unset refl (inl refl) refl))
  switch-Written slot value (inr k) (inl v) =
      subst (Written slot) (sym v)
        (slot-typed (λ x. Written x (codes "n")) tristate slot k (as_unset refl (inr refl) refl))
  switch-Written slot value (inl k) (inr v) = subst (Written slot) (sym v) (
      slot-typed (λ x. Written x (codes "y")) boolean slot k
        (as_value (codes "y") (letter-IsPlain b'y' (inl refl)) refl refl))
  switch-Written slot value (inr k) (inr v) = subst (Written slot) (sym v) (
      slot-typed (λ x. Written x (codes "y")) tristate slot k
        (as_value (codes "y") (letter-IsPlain b'y' (inl refl)) refl refl))

  modular-Written :
      (slot : Slot) (value : Bytes) → slot.type ≡ tristate → value ≡ codes "m" → Written slot value
  unfolding conf_write_symbol kconfig_print_symbol conf_set_sym_val
  modular-Written slot value k v = subst (Written slot) (sym v) (
      slot-typed (λ x. Written x (codes "m")) tristate slot k
        (as_value (codes "m") (letter-IsPlain b'm' (inr refl)) refl refl))

  number-Written :
      (slot : Slot) (value : Bytes)
      → slot.type ≡ int ⊎ slot.type ≡ hex
      → sym_string_valid slot.type value ≡ true
      → Written slot value
  unfolding conf_write_symbol kconfig_print_symbol
  number-Written slot value (inl k) h =
      slot-typed (λ x. sym_string_valid x.type value ≡ true → Written x value) int slot k
        (λ v.
          as_value value (number-IsPlain int value (inl refl) v) refl
            (conf_set_sym_val-number (record slot { type = int }) value (inl refl) v))
        h
  number-Written slot value (inr k) h =
      slot-typed (λ x. sym_string_valid x.type value ≡ true → Written x value) hex slot k
        (λ v.
          as_value value (number-IsPlain hex value (inr refl) v) refl
            (conf_set_sym_val-number (record slot { type = hex }) value (inr refl) v))
        h

  text-Written :
      (slot : Slot) (value : Bytes)
      → slot.type ≡ string
      → lacks b'\n' value ≡ true
      → lacks 0 value ≡ true
      → Written slot value
  unfolding conf_write_symbol kconfig_print_symbol
  text-Written slot value k n z =
      slot-typed (λ x. Written x value) string slot k
        (as_value (sym_escape_string_value value) (escape-IsPlain value n z) refl (
          ap (conf_set_sym_val (record slot { type = string }))
            (sym (append-nil (sym_escape_string_value value)))
          ∙ conf_set_sym_val-escape (record slot { type = string }) value [] refl))

  pub conf_write_symbol-Written :
      (slot : Slot) (value : Bytes) → IsWritable slot.type value → Written slot value
  conf_write_symbol-Written slot value (switch k v) = switch-Written slot value k v
  conf_write_symbol-Written slot value (modular k v) = modular-Written slot value k v
  conf_write_symbol-Written slot value (number k h) = number-Written slot value k h
  conf_write_symbol-Written slot value (text k n z) = text-Written slot value k n z
