-- ===== src/Config/Printer.antt =====
-- The printers of package/config/confdata.c. Each gives the text that it writes for a symbol with a
-- type, a name and a value, or for a comment. `prefix` is CONFIG_, which CONFIG_prefix takes from
-- the environment; `skip_unset` is a printer argument that is not NULL.
use dir842v2_gpl.Common.{
  ℕ, ◌-◌, ◌^◌, Bool, false, ◌&&◌, ◌||◌, List, [], ◌∷◌, ◌++◌, ltb, leb, ◌==◌, if◌then◌else◌, Bytes,
  codes, decimal, take,
}
use dir842v2_gpl.Config.Types.{SymbolType, unknown, boolean, tristate, int, hex, string, other}
use dir842v2_gpl.Config.Numbers.{strtoll}
use dir842v2_gpl.Config.Escape.{sym_escape_string_value}

abbrev pub starts_with : ℕ → Bytes → Bool
starts_with c [] = false
starts_with c (d ∷ s) = d == c

-- What the printers do for S_BOOLEAN and S_TRISTATE: their own text unless the value is `n`.
abbrev pub unless_no : Bytes → Bytes → Bytes
unless_no value text = if starts_with b'n' value then [] else text

abbrev pub module_suffix : Bytes → Bytes
module_suffix value = if starts_with b'm' value then codes "_MODULE" else []

-- "0x" unless the value starts with it.
abbrev pub hex_prefix : Bytes → Bytes
hex_prefix (z ∷ x ∷ s) = if z == b'0' && (x == b'x' || x == b'X') then [] else codes "0x"
hex_prefix s = codes "0x"

abbrev pub toupper : ℕ → ℕ
toupper c = if leb b'a' c && leb c b'z' then c - 32 else c

-- `%ld` of a 64-bit pattern.
abbrev pub signed_decimal : ℕ → Bytes
signed_decimal n = if ltb n (2 ^ 63) then decimal n else b'-' ∷ decimal (2 ^ 64 - n)

module _ (prefix : Bytes) where
  abbrev pub assignment : Bytes → Bytes → Bytes
  assignment name value = prefix ++ (name ++ (b'=' ∷ (value ++ codes "\n")))

  abbrev pub not_set : Bytes → Bytes
  not_set name = codes "# " ++ (prefix ++ (name ++ codes " is not set\n"))

  abbrev pub print_switch : Bool → Bytes → Bytes → Bytes
  print_switch skip_unset name value =
      if starts_with b'n' value
      then if skip_unset then [] else not_set name
      else assignment name value

  unfoldable pub kconfig_print_symbol : Bool → SymbolType → Bytes → Bytes → Bytes
  kconfig_print_symbol skip_unset boolean name value = print_switch skip_unset name value
  kconfig_print_symbol skip_unset tristate name value = print_switch skip_unset name value
  kconfig_print_symbol skip_unset _ name value = assignment name value

  abbrev pub define : Bytes → Bytes → Bytes
  define name value = codes "#define " ++ (prefix ++ (name ++ (b' ' ∷ (value ++ codes "\n"))))

  unfoldable pub header_print_symbol : SymbolType → Bytes → Bytes → Bytes
  header_print_symbol boolean name value =
      unless_no value (define (name ++ module_suffix value) (codes "1"))
  header_print_symbol tristate name value =
      unless_no value (define (name ++ module_suffix value) (codes "1"))
  header_print_symbol hex name value = define name (hex_prefix value ++ value)
  header_print_symbol string name value = define name value
  header_print_symbol int name value = define name value
  header_print_symbol _ name value = []

  abbrev pub cmake_set : Bytes → Bytes → Bytes
  cmake_set name value = codes "set (" ++ (prefix ++ (name ++ (b' ' ∷ (value ++ codes ")\n"))))

  unfoldable pub cmake_print_symbol : SymbolType → Bytes → Bytes → Bytes
  cmake_print_symbol boolean name value =
      unless_no value (cmake_set (name ++ module_suffix value) (codes "TRUE"))
  cmake_print_symbol tristate name value =
      unless_no value (cmake_set (name ++ module_suffix value) (codes "TRUE"))
  cmake_print_symbol hex name value = cmake_set name (hex_prefix value ++ value)
  cmake_print_symbol string name value = cmake_set name value
  cmake_print_symbol int name value = cmake_set name value
  cmake_print_symbol _ name value = []

  abbrev pub json_field : Bytes → Bytes → Bytes
  json_field name value = codes ",\n\"" ++ (prefix ++ (name ++ (codes "\": " ++ value)))

  unfoldable pub json_print_symbol : SymbolType → Bytes → Bytes → Bytes
  json_print_symbol boolean name value =
      unless_no value (json_field (name ++ module_suffix value) (codes "true"))
  json_print_symbol tristate name value =
      unless_no value (json_field (name ++ module_suffix value) (codes "true"))
  json_print_symbol hex name value = json_field name (signed_decimal (strtoll value 16).pattern)
  json_print_symbol string name value = json_field name value
  json_print_symbol int name value = json_field name value
  json_print_symbol _ name value = []

  unfoldable pub tristate_print_symbol : SymbolType → Bytes → Bytes → Bytes
  tristate_print_symbol tristate name [] = prefix ++ (name ++ (b'=' ∷ 0 ∷ codes "\n"))
  tristate_print_symbol tristate name (c ∷ value) =
      unless_no (c ∷ value) (prefix ++ (name ++ (b'=' ∷ toupper c ∷ codes "\n")))
  tristate_print_symbol _ name value = []

-- The choice of what is printed: S_STRING values are escaped, S_OTHER and S_UNKNOWN left out.
unfoldable pub conf_write_symbol :
    (SymbolType → Bytes → Bytes → Bytes) → SymbolType → Bytes → Bytes → Bytes
conf_write_symbol print other name value = []
conf_write_symbol print unknown name value = []
conf_write_symbol print string name value = print string name (sym_escape_string_value value)
conf_write_symbol print type name value = print type name value

-- The lines of a text, the last one with no newline behind it.
unfoldable pub text_lines : Bytes → Bytes → List Bytes
text_lines line [] = line ∷ []
text_lines line (c ∷ s) =
    if c == b'\n' then line ∷ text_lines [] s else text_lines (line ++ (c ∷ [])) s

-- A line with its lead, and a space between them unless the line is empty.
abbrev pub comment_line : Bytes → Bytes → Bytes
comment_line lead [] = lead ++ codes "\n"
comment_line lead (c ∷ s) = lead ++ (b' ' ∷ c ∷ (s ++ codes "\n"))

unfoldable pub comment_lines : Bytes → List Bytes → Bytes
comment_lines lead [] = []
comment_lines lead (l ∷ ls) = comment_line lead l ++ comment_lines lead ls

unfoldable pub kconfig_print_comment : Bytes → Bytes
kconfig_print_comment value = comment_lines (codes "#") (text_lines [] value)

unfoldable pub header_print_comment : Bytes → Bytes
header_print_comment value =
    codes "/*\n" ++ (comment_lines (codes " *") (text_lines [] value) ++ codes " */\n")

-- The heading of a file, from the prompt of the root menu, in a buffer of 256 bytes.
unfoldable pub conf_write_heading : (Bytes → Bytes) → Bytes → Bytes
conf_write_heading print_comment prompt =
    print_comment
      (take 255 (codes "\nAutomatically generated file; DO NOT EDIT.\n" ++ (prompt ++ codes "\n")))
