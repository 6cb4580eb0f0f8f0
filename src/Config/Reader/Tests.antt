-- ===== src/Config/Reader/Tests.antt =====
-- Runs of conf_read_simple.
use dir842v2_gpl.Common.{
  str_eq, split_on, strip_prefix, lacks, is_word, all, ◌≡◌, refl, true, false, List, [], ◌∷◌, none,
  some, Bytes, codes, inl, ◌==◌, if◌then◌else◌,
}
use dir842v2_gpl.Config.Types.{tri_yes, SymbolId, boolean, string}
use dir842v2_gpl.Config.Escape.{
  Slot, conf_set_sym_val, unquote, sym_string_valid, sym_escape_string_value, escape_rest,
}
use dir842v2_gpl.Config.Printer.{conf_write_symbol, kconfig_print_symbol}
use dir842v2_gpl.Config.Symtab.{
  fits, insert_in, lookup_named, hash_from, strhash, constant_of, not_const, has_name, Store,
  sym_lookup, sym_find, search, slot_of,
}
use dir842v2_gpl.Config.Reader.{
  strip_cr, apply_unset, apply_assigned, after_lookup, put, target, c_string, parse_line,
  apply_line, read_line, getlines, read_lines, Def, user, auto, Choices, Reading, blank_slot,
  conf_read_simple, reset,
}
use dir842v2_gpl.Config.Reader.Written.{switch, text}
use dir842v2_gpl.Config.Reader.File.{
  Item, AllSaved, no_items, one_more, write_items, restore_items, conf_read_simple-write_items,
}

abbrev prefix : Bytes
prefix = codes "CONFIG_"

prefix_words : all is_word prefix ≡ true
unfolding all
prefix_words = refl

abbrev empty_store : Store
empty_store = record { buckets = λ h. []; next = 10 }

abbrev two_symbols : Store
two_symbols =
    (sym_lookup (some (codes "NAME")) 0
      (sym_lookup (some (codes "WGET")) 0 empty_store).store).store

abbrev two_slots : SymbolId → Slot
two_slots s =
    if s == 10
    then record blank_slot { type = boolean; tri = tri_yes; flagged = true }
    else if s == 11
    then record blank_slot { type = string }
    else blank_slot

abbrev no_choices : Choices
no_choices = record { choice_of = λ s. none; is_choice = λ s. false }

abbrev start : Reading
start = record { store = two_symbols; slots = two_slots; chosen = λ s. none; changes = 0 }

abbrev items : List Item
items =
    record { name = codes "WGET"; symbol = 10; value = codes "n" }
    ∷ record { name = codes "NAME"; symbol = 11; value = codes "a\"b" }
    ∷ []

-- The text of the two lines.
two_lines :
    write_items prefix (λ x. (start.slots x).type) items
    ≡ codes "# CONFIG_WGET is not set\nCONFIG_NAME=\"a\\\"b\"\n"
unfolding write_items conf_write_symbol kconfig_print_symbol sym_escape_string_value escape_rest
two_lines = refl

abbrev after_file : Def → Bytes → SymbolId → Slot
after_file d file s = (conf_read_simple prefix d no_choices file start).slots s

-- Comments and a carriage return, and with S_DEF_AUTO a symbol that the file makes.
values :
    (after_file user (codes "#\n\n# CONFIG_WGET is not set\nCONFIG_NAME=\"x\"\r\n") 11).val
      ∷ (after_file auto (codes "CONFIG_X=7\n") 12).val
      ∷ []
    ≡ some (codes "x") ∷ some (codes "7") ∷ []
unfolding conf_read_simple read_lines getlines read_line apply_line parse_line c_string strip_prefix
    split_on target reset put conf_set_sym_val unquote sym_string_valid all after_lookup
    apply_assigned apply_unset strip_cr sym_find search has_name not_const constant_of slot_of
    strhash hash_from str_eq sym_lookup lookup_named insert_in fits
values = refl

-- Without S_DEF_AUTO, a symbol that is not known is counted as a change.
abbrev unknown_first : Reading
unknown_first = conf_read_simple prefix user no_choices (codes "CONFIG_X=y\nCONFIG_WGET=y") start

counted : unknown_first.changes ∷ (unknown_first.slots 10).tri ∷ [] ≡ 1 ∷ tri_yes ∷ []
unfolding conf_read_simple read_lines getlines read_line apply_line parse_line c_string strip_prefix
    split_on target reset put conf_set_sym_val unquote sym_string_valid all after_lookup
    apply_assigned apply_unset strip_cr sym_find search has_name not_const constant_of slot_of
    strhash hash_from str_eq sym_lookup lookup_named insert_in fits
counted = refl

items-AllSaved : AllSaved no_choices two_symbols (λ x. (start.slots x).type) items
unfolding all lacks sym_find search has_name not_const constant_of slot_of strhash hash_from str_eq
    sym_lookup lookup_named insert_in fits
items-AllSaved =
    one_more _ _
      (record { named = refl; found = refl; plain = refl; writable = switch (inl refl) (inl refl) })
      (one_more _ _
        (record { named = refl; found = refl; plain = refl; writable = text refl refl refl })
        no_items)

conf_read_simple-write_items_example :
    conf_read_simple prefix user no_choices
      (write_items prefix (λ x. (start.slots x).type) items)
      start
    ≡ restore_items items (reset no_choices start)
conf_read_simple-write_items_example =
    conf_read_simple-write_items prefix no_choices items start prefix_words items-AllSaved
