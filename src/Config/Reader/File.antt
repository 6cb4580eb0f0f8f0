-- ===== src/Config/Reader/File.antt =====
-- The symbol lines of a whole configuration file: what conf_write puts down for a list of symbols,
-- read back by conf_read_simple.
use dir842v2_gpl.Common.{
  inl, inr, Bool-cases, Bool-cases, ◌≡◌, ◌∙◌, sym, ap, refl, arith, Bool, true, false, List, [],
  ◌∷◌, ◌++◌, Option, none, some, Bytes, is_word, all, ◌==◌,
}
use mathlib.Core.Path.{subst}
use dir842v2_gpl.Config.Types.{
  unknown, boolean, tristate, int, hex, string, other, SymbolId, SymbolType,
}
use dir842v2_gpl.Config.Escape.{Slot}
use dir842v2_gpl.Config.Symtab.{Store, sym_find}
use dir842v2_gpl.Config.Printer.{kconfig_print_symbol, conf_write_symbol}
use dir842v2_gpl.Config.Reader.{
  Tristate, blank_slot, user, Choices, Reading, put, cleared, reset, getlines, read_line,
  read_lines, conf_read_simple,
}
use dir842v2_gpl.Config.Reader.Written.{IsWritable, restored, conf_write_symbol-Written}
use dir842v2_gpl.Config.Reader.Ends.{EndsLine, Written-EndsLine}
use dir842v2_gpl.Config.Reader.RoundTrip.{read_line-conf_write_symbol}

-- A symbol with its value as sym_get_string_value gives it.
pub record Item : Type 0 where
  pub name : Bytes
  pub symbol : SymbolId
  pub value : Bytes

unfoldable pub write_items : Bytes → (SymbolId → SymbolType) → List Item → Bytes
write_items prefix type_of [] = []
write_items prefix type_of (i ∷ is) =
    conf_write_symbol (kconfig_print_symbol prefix false) (type_of i.symbol) i.name i.value
    ++ write_items prefix type_of is

unfoldable pub restore_items : List Item → Reading → Reading
restore_items [] r = r
restore_items (i ∷ is) r = restore_items is (put i.symbol (restored (r.slots i.symbol) i.value) r)

-- The name is a word that finds the symbol, which is no choice value and can hold the value.
pub record IsSaved (c : Choices) (store : Store) (type_of : SymbolId → SymbolType) (i : Item)
    : Type 0 where
  pub named : all is_word i.name ≡ true
  pub found : sym_find (some i.name) store ≡ some i.symbol
  pub plain : c.choice_of i.symbol ≡ none
  pub writable : IsWritable (type_of i.symbol) i.value

pub data AllSaved (c : Choices) (store : Store) (type_of : SymbolId → SymbolType)
    : List Item → Type 0 where
  no_items : AllSaved c store type_of []
  one_more :
      (i : Item) (is : List Item)
      → IsSaved c store type_of i
      → AllSaved c store type_of is
      → AllSaved c store type_of (i ∷ is)

fields-type :
    (type : SymbolType) (tri : Tristate) (val : Option Bytes) (flagged : Bool) (value : Bytes)
    → (restored (record { type = type; tri = tri; val = val; flagged = flagged }) value).type ≡ type
fields-type unknown tri val flagged value = refl
fields-type boolean tri val flagged value = refl
fields-type tristate tri val flagged value = refl
fields-type int tri val flagged value = refl
fields-type hex tri val flagged value = refl
fields-type string tri val flagged value = refl
fields-type other tri val flagged value = refl

restored-type : (slot : Slot) (value : Bytes) → (restored slot value).type ≡ slot.type
restored-type slot value = fields-type slot.type slot.tri slot.val slot.flagged value

put-type :
    (s x : SymbolId) (value : Bytes) (r : Reading)
    → ((put s (restored (r.slots s) value) r).slots x).type ≡ (r.slots x).type
unfolding put
put-type s x value r = elim (Bool-cases (x == s)) [
  | inl e ↦
      let same : x ≡ s = ground arith in
      rw e (restored-type (r.slots s) value ∙ ap (λ (y : SymbolId). (r.slots y).type) (sym same))
  | inr e ↦ rw e refl
]

module _ (prefix : Bytes) (words : all is_word prefix ≡ true) (c : Choices)
    (type_of : SymbolId → SymbolType) where
  read-item :
      (i : Item) (r : Reading)
      → (r.slots i.symbol).type ≡ type_of i.symbol
      → IsSaved c r.store type_of i
      → read_line prefix user c
          (conf_write_symbol (kconfig_print_symbol prefix false) (type_of i.symbol) i.name i.value)
          r
        ≡ put i.symbol (restored (r.slots i.symbol) i.value) r
  read-item i r t f =
      subst
        (λ (k : SymbolType).
          IsWritable k i.value
          → read_line prefix user c
              (conf_write_symbol (kconfig_print_symbol prefix false) k i.name i.value) r
            ≡ put i.symbol (restored (r.slots i.symbol) i.value) r)
        t
        (read_line-conf_write_symbol prefix i.name i.value c i.symbol r words f.named f.found
          f.plain)
        f.writable

  item-EndsLine :
      (i : Item) (store : Store)
      → IsSaved c store type_of i
      → EndsLine
          (conf_write_symbol (kconfig_print_symbol prefix false) (type_of i.symbol) i.name i.value)
  item-EndsLine i store f =
      let slot : Slot = record blank_slot { type = type_of i.symbol } in
      Written-EndsLine prefix i.name words f.named slot i.value
        (conf_write_symbol-Written prefix i.name slot i.value f.writable)

  read_lines-write_items :
      (is : List Item) (r : Reading)
      → ((x : SymbolId) → (r.slots x).type ≡ type_of x)
      → AllSaved c r.store type_of is
      → read_lines prefix user c (getlines [] (write_items prefix type_of is)) r
        ≡ restore_items is r
  unfolding read_lines write_items restore_items getlines put
  read_lines-write_items [] r types saved = refl
  read_lines-write_items (i ∷ is) r types (one_more _ _ f fs) =
      let next = put i.symbol (restored (r.slots i.symbol) i.value) r in
      ap (λ (ls : List Bytes). read_lines prefix user c ls r)
        (item-EndsLine i r.store f [] (write_items prefix type_of is))
      ∙ ap (read_lines prefix user c (getlines [] (write_items prefix type_of is)))
          (read-item i r (types i.symbol) f)
      ∙ read_lines-write_items is next (λ x. put-type i.symbol x i.value r ∙ types x) fs

fields-cleared :
    (type : SymbolType) (tri : Tristate) (val : Option Bytes) (flagged b : Bool)
    → (cleared b (record { type = type; tri = tri; val = val; flagged = flagged })).type ≡ type
fields-cleared unknown tri val flagged b = refl
fields-cleared boolean tri val flagged b = refl
fields-cleared tristate tri val flagged b = refl
fields-cleared int tri val flagged b = refl
fields-cleared hex tri val flagged b = refl
fields-cleared string tri val flagged b = refl
fields-cleared other tri val flagged b = refl

-- The symbol lines that are written for a list of symbols with values, read from the file that
-- holds them for S_DEF_USER, leave every symbol cleared but those of the list, which have their
-- values again. The prefix is a word, and each symbol of the list is found by its name, a word, is
-- no choice value, and has a value of its type: n, m or y, a valid number, or a string with no
-- newline and no zero byte.
pub conf_read_simple-write_items :
    (prefix : Bytes) (c : Choices) (is : List Item) (r : Reading)
    → all is_word prefix ≡ true
    → AllSaved c r.store (λ x. (r.slots x).type) is
    → conf_read_simple prefix user c (write_items prefix (λ x. (r.slots x).type) is) r
      ≡ restore_items is (reset c r)
unfolding conf_read_simple reset
conf_read_simple-write_items prefix c is r words saved =
    read_lines-write_items prefix words c (λ x. (r.slots x).type) is (reset c r)
      (λ x.
        fields-cleared (r.slots x).type (r.slots x).tri (r.slots x).val (r.slots x).flagged
          (c.is_choice x))
      saved
