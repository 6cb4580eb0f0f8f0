-- ===== src/Config/Reader.antt =====
-- conf_read_simple of package/config/confdata.c with compat_getline, once the file is open. `prefix`
-- is CONFIG_. For `def` the values are S_DEF_USER and S_DEF_AUTO, of which a symbol's slot holds the
-- one that is read. A line is a C string, so it ends at a zero byte. Warnings are not part of the
-- result, and SYMBOL_CHANGED and SYMBOL_VALID, which are set and cleared for all symbols, neither.
pub mod Lines
pub mod Written
pub mod RoundTrip
pub mod Ends
pub mod File
mod Tests
use dir842v2_gpl.Common.{
  ℕ, ◌+◌, ◌≡◌, Bool, true, false, ◌&&◌, List, [], ◌∷◌, ◌++◌, Option, none, some, ◌==◌,
  if◌then◌else◌, Bytes, codes, drop, strip_prefix, split_on, Split,
}
use dir842v2_gpl.Config.Types.{
  Tristate, tri_no, tri_mod, tri_yes, expr_or, SymbolId, SymbolType, unknown, boolean, tristate,
  int, hex, string, other,
}
use dir842v2_gpl.Config.Escape.{Slot, Outcome, conf_set_sym_val}
use dir842v2_gpl.Config.Symtab.{Store, Looked, sym_lookup, sym_find}

pub data Def : Type 0 where
  user auto : Def

-- The symbols by address, what the choices have in `def[def].val`, and sym_change_count.
pub record Reading : Type 0 where
  pub store : Store
  pub slots : SymbolId → Slot
  pub chosen : SymbolId → Option SymbolId
  pub changes : ℕ

-- What the parser has made of choices: the choice of a choice value, and which symbols are choices.
pub record Choices : Type 0 where
  pub choice_of : SymbolId → Option SymbolId
  pub is_choice : SymbolId → Bool

-- A symbol fresh from sym_lookup.
abbrev pub blank_slot : Slot
blank_slot = record { type = unknown; tri = tri_no; val = none; flagged = false }

unfoldable pub put : SymbolId → Slot → Reading → Reading
put s slot r = record r { slots = λ x. if x == s then slot else r.slots x }

-- The loop that clears the values; symbols of type S_OTHER are passed over.
abbrev pub cleared : Bool → Slot → Slot
cleared is_choice slot = elim slot.type [
  | other ↦ slot
  | _ ↦ record slot { tri = tri_no; val = none; flagged = is_choice }
]

unfoldable pub reset : Choices → Reading → Reading
reset c r = record r {
  slots = λ x. cleared (c.is_choice x) (r.slots x);
  chosen = λ x. elim (r.slots x).type [ other ↦ r.chosen x | _ ↦ none ];
}

-- What a line asks for.
pub data Line : Type 0 where
  ignored : Line
  unset : Bytes → Line
  assigned : Bytes → Bytes → Line

abbrev pub unset_of : Split → Line
unset_of x = elim (strip_prefix (codes "is not set") x.after) [
  | none ↦ ignored
  | some _ ↦ unset x.before
]

abbrev pub is_empty : Bytes → Bool
is_empty [] = true
is_empty (_ ∷ _) = false

-- One carriage return at the end is dropped.
unfoldable pub strip_cr : Bytes → Bytes
strip_cr [] = []
strip_cr (c ∷ s) = if c == 13 && is_empty s then [] else c ∷ strip_cr s

-- The value, up to the newline.
abbrev pub value_of : Bytes → Bytes
value_of p = elim (split_on b'\n' p) [ none ↦ p | some x ↦ strip_cr x.before ]

abbrev pub assigned_of : Split → Line
assigned_of x = assigned x.before (value_of x.after)

abbrev pub split_line : (Split → Line) → ℕ → Option Bytes → Line
split_line f c none = ignored
split_line f c (some s) = elim (split_on c s) [ none ↦ ignored | some x ↦ f x ]

-- The tests on a line that is not empty.
unfoldable pub parse_line : Bytes → Bytes → Line
parse_line prefix [] = ignored
parse_line prefix (c ∷ s) =
    if c == b'#'
    then split_line unset_of b' ' (strip_prefix prefix (drop 1 s))
    else split_line assigned_of b'=' (strip_prefix prefix (c ∷ s))

pub record Target : Type 0 where
  pub symbol : Option SymbolId
  pub reading : Reading

-- A symbol that sym_lookup has just made is blank.
unfoldable pub after_lookup : Looked → Reading → Reading
after_lookup l r =
    let known = record r { store = l.store } in
    if l.store.next == r.store.next then known else put l.symbol blank_slot known

abbrev pub retyped : SymbolType → Slot → Slot
retyped type slot = elim slot.type [ unknown ↦ record slot { type = type } | _ ↦ slot ]

-- The symbol that a line is about. For S_DEF_AUTO it is made where it does not exist, and gets the
-- type where it has none.
unfoldable pub target : Def → SymbolType → Bytes → Reading → Target
target user type name r = record {
  symbol = sym_find (some name) r.store;
  reading = elim (sym_find (some name) r.store) [
    | some _ ↦ r
    | none ↦ record r { changes = r.changes + 1 }
  ];
}
target auto type name r =
    let l = sym_lookup (some name) 0 r.store in
    let known = after_lookup l r in
    record {
      symbol = some l.symbol;
      reading = put l.symbol (retyped type (known.slots l.symbol)) known;
    }

-- From `setsym` on, for a choice value `s` of the choice `cs`.
unfoldable pub set_choice : SymbolId → SymbolId → Reading → Reading
set_choice cs s r =
    let tri = (r.slots s).tri in
    let slot = r.slots cs in
    let flagged =
      if tri == tri_mod && slot.tri == tri_yes then record slot { flagged = false } else slot in
    let chosen =
      if tri == tri_yes
      then record r { chosen = λ x. if x == cs then some s else r.chosen x }
      else r in
    put cs (record flagged { tri = expr_or slot.tri tri }) chosen

abbrev pub setsym : Choices → SymbolId → Reading → Reading
setsym c s r = elim (c.choice_of s) [ none ↦ r | some cs ↦ set_choice cs s r ]

abbrev pub unset_slot : Slot → Slot
unset_slot slot = elim slot.type [
  | boolean ↦ record slot { tri = tri_no; flagged = true }
  | tristate ↦ record slot { tri = tri_no; flagged = true }
  | _ ↦ slot
]

unfoldable pub apply_unset : Choices → SymbolId → Reading → Reading
apply_unset c s r = setsym c s (put s (unset_slot (r.slots s)) r)

-- A refused value goes on to the next line.
unfoldable pub apply_assigned : Choices → Bytes → SymbolId → Reading → Reading
apply_assigned c value s r =
    let o = conf_set_sym_val (r.slots s) value in
    let stored = put s o.sym r in if o.code == 0 then setsym c s stored else stored

abbrev pub with_target : (SymbolId → Reading → Reading) → Target → Reading
with_target f x = elim x.symbol [ none ↦ x.reading | some s ↦ f s x.reading ]

unfoldable pub apply_line : Def → Choices → Line → Reading → Reading
apply_line d c ignored r = r
apply_line d c (unset name) r = with_target (apply_unset c) (target d boolean name r)
apply_line d c (assigned name value) r =
    with_target (apply_assigned c value) (target d other name r)

-- Up to a zero byte.
unfoldable pub c_string : Bytes → Bytes
c_string [] = []
c_string (c ∷ s) = if c == 0 then [] else c ∷ c_string s

unfoldable pub read_line : Bytes → Def → Choices → Bytes → Reading → Reading
read_line prefix d c line r = apply_line d c (parse_line prefix (c_string line)) r

-- compat_getline to the end of the file: the lines with their newlines, the last one perhaps
-- without. `line` is what has been read of the first.
unfoldable pub getlines : Bytes → Bytes → List Bytes
getlines [] [] = []
getlines (l ∷ line) [] = (l ∷ line) ∷ []
getlines line (c ∷ s) =
    if c == b'\n' then (line ++ (c ∷ [])) ∷ getlines [] s else getlines (line ++ (c ∷ [])) s

unfoldable pub read_lines : Bytes → Def → Choices → List Bytes → Reading → Reading
read_lines prefix d c [] r = r
read_lines prefix d c (l ∷ ls) r = read_lines prefix d c ls (read_line prefix d c l r)

unfoldable pub conf_read_simple : Bytes → Def → Choices → Bytes → Reading → Reading
conf_read_simple prefix d c file r = read_lines prefix d c (getlines [] file) (reset c r)
