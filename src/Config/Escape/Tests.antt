-- ===== src/Config/Escape/Tests.antt =====
-- Values that are escaped, read back and checked.
use dir842v2_gpl.Common.{all, ◌≡◌, refl, ◌++◌, true, false, none, some, codes}
use dir842v2_gpl.Config.Types.{tri_no, string, int, hex}
use dir842v2_gpl.Config.Escape.{
  sym_escape_string_value, escape_rest, unquote, sym_string_valid, conf_set_sym_val, Slot,
}
use dir842v2_gpl.Config.Escape.RoundTrip.{conf_set_sym_val-escape}

abbrev slot : Slot
slot = record { type = string; tri = tri_no; val = none; flagged = false }

escaped : sym_escape_string_value (codes "a\"b") ≡ codes "\"a\\\"b\""
unfolding sym_escape_string_value escape_rest
escaped = refl

unclosed : unquote (codes "ab\\") ≡ none
unfolding unquote
unclosed = refl

leading_zero : sym_string_valid int (codes "012") ≡ false
unfolding sym_string_valid
leading_zero = refl

negative : sym_string_valid int (codes "-12") ≡ true
unfolding sym_string_valid all
negative = refl

prefixed : sym_string_valid hex (codes "0x1F") ≡ true
unfolding sym_string_valid all
prefixed = refl

conf_set_sym_val-escape_example :
    conf_set_sym_val slot (sym_escape_string_value (codes "a\"b") ++ codes " #")
    ≡ record { sym = record slot { val = some (codes "a\"b"); flagged = true }; code = 0 }
conf_set_sym_val-escape_example = conf_set_sym_val-escape slot (codes "a\"b") (codes " #") refl
