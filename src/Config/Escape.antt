-- ===== src/Config/Escape.antt =====
-- The text of string values in package/config: sym_escape_string_value and sym_string_valid of
-- symbol.c, and conf_set_sym_val of confdata.c, which reads such a value back.
-- The buffer of a string is a list of bytes; `memmove(p2, p2 + 1, strlen(p2))` drops the byte at
-- p2, and `*p2 = 0` ends the string there. The warnings are not part of the result.
pub mod RoundTrip
pub mod Numeric
mod Tests
use dir842v2_gpl.Common.{
  all, ℕ, Bool, true, false, ◌&&◌, ◌||◌, List, [], ◌∷◌, ◌++◌, Option, none, some, ◌==◌,
  if◌then◌else◌, Bytes, is_digit, is_xdigit, is_space,
}
use dir842v2_gpl.Config.Types.{
  Tristate, tri_no, tri_mod, tri_yes, SymbolType, unknown, boolean, tristate, int, hex, string,
  other,
}

-- One of the bytes at which strcspn and strpbrk stop.
abbrev pub is_special : ℕ → Bool
is_special c = c == b'"' || c == b'\\'

-- The second loop of sym_escape_string_value, with the closing quote.
unfoldable pub escape_rest : Bytes → Bytes
escape_rest [] = b'"' ∷ []
escape_rest (c ∷ p) =
    let rest = escape_rest p in if is_special c then b'\\' ∷ c ∷ rest else c ∷ rest

unfoldable pub sym_escape_string_value : Bytes → Bytes
sym_escape_string_value s = b'"' ∷ escape_rest s

-- S_INT, after the sign: no leading zero, and digits only.
digits_valid : Bytes → Bool
digits_valid [] = false
digits_valid (c ∷ []) = is_digit c
digits_valid (c ∷ d ∷ s) = if c == b'0' then false else is_digit c && all is_digit (d ∷ s)

int_valid : Bytes → Bool
int_valid [] = false
int_valid (c ∷ s) = if c == b'-' then digits_valid s else digits_valid (c ∷ s)

hex_digits : Bytes → Bool
hex_digits [] = false
hex_digits (c ∷ s) = all is_xdigit (c ∷ s)

hex_valid : Bytes → Bool
hex_valid (c ∷ x ∷ s) =
    if c == b'0' && (x == b'x' || x == b'X') then hex_digits s else hex_digits (c ∷ x ∷ s)
hex_valid s = hex_digits s

tristate_valid : Bytes → Bool
tristate_valid [] = false
tristate_valid (c ∷ _) =
    (c == b'y' || c == b'Y') || (c == b'm' || c == b'M') || (c == b'n' || c == b'N')

unfoldable pub sym_string_valid : SymbolType → Bytes → Bool
unfolding digits_valid int_valid hex_digits hex_valid tristate_valid
sym_string_valid string str = true
sym_string_valid int str = int_valid str
sym_string_valid hex str = hex_valid str
sym_string_valid boolean str = tristate_valid str
sym_string_valid tristate str = tristate_valid str
sym_string_valid _ str = false

-- What conf_set_sym_val writes: `type`, `def[def].tri`, `def[def].val`, and whether `def_flags`
-- are set in `flags`.
pub record Slot : Type 0 where
  pub type : SymbolType
  pub tri : Tristate
  pub val : Option Bytes
  pub flagged : Bool

-- The symbol and the returned code.
pub record Outcome : Type 0 where
  pub sym : Slot
  pub code : ℕ

abbrev pub set_tri : Slot → Tristate → Outcome
set_tri s v = record { sym = record s { tri = v; flagged = true }; code = 0 }

abbrev pub refused : Slot → Outcome
refused s = record { sym = s; code = 1 }

-- From `done` on.
store_valid : Slot → Bytes → Outcome
store_valid s p =
    if sym_string_valid s.type p
    then record { sym = record s { val = some p; flagged = true }; code = 0 }
    else refused s

abbrev pub prepend : ℕ → Option Bytes → Option Bytes
prepend c none = none
prepend c (some s) = some (c ∷ s)

-- The characters up to the closing quote, the backslashes dropped, or `none` without one. A
-- backslash at the end is dropped with nothing after it.
unfoldable pub unquote : Bytes → Option Bytes
unquote [] = none
unquote (c ∷ []) = if c == b'"' then some [] else none
unquote (c ∷ d ∷ p) =
    let escaped = unquote p in
    let plain = unquote (d ∷ p) in
    if c == b'"' then some [] else if c == b'\\' then prepend d escaped else prepend c plain

store_unquoted : Slot → Option Bytes → Outcome
store_unquoted s none = refused s
store_unquoted s (some p) = store_valid s p

set_boolean : Slot → Bytes → Outcome
set_boolean s [] = refused s
set_boolean s (c ∷ _) =
    if c == b'y' then set_tri s tri_yes else if c == b'n' then set_tri s tri_no else refused s

set_tristate : Slot → Bytes → Outcome
set_tristate s [] = refused s
set_tristate s (c ∷ p) = if c == b'm' then set_tri s tri_mod else set_boolean s (c ∷ p)

set_string : Slot → Bytes → Outcome
set_string s [] = record { sym = s; code = 0 }
set_string s (c ∷ p) =
    if c == b'"' then store_unquoted s (unquote p) else record { sym = s; code = 0 }

-- An S_OTHER symbol becomes S_STRING with a value that is not quoted.
set_other : Slot → Bytes → Outcome
set_other s [] = store_valid (record s { type = string }) []
set_other s (c ∷ p) =
    if c == b'"' then set_string s (c ∷ p) else store_valid (record s { type = string }) (c ∷ p)

unfoldable pub conf_set_sym_val : Slot → Bytes → Outcome
unfolding store_valid store_unquoted set_boolean set_tristate set_string set_other
conf_set_sym_val s p = elim s.type [
  | tristate ↦ set_tristate s p
  | boolean ↦ set_boolean s p
  | other ↦ set_other s p
  | string ↦ set_string s p
  | int ↦ store_valid s p
  | hex ↦ store_valid s p
  | unknown ↦ record { sym = s; code = 0 }
]
