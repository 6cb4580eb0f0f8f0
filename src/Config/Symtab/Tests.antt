-- ===== src/Config/Symtab/Tests.antt =====
-- Symbols looked up by name, and the theorems applied to them.
use dir842v2_gpl.Common.{List, ◌≡◌, refl, [], ◌∷◌, none, some, codes, str_eq}
use dir842v2_gpl.Config.Symtab.{
  symbol_const, slot_of, sym_lookup, sym_find, constant_of, search, has_name, fits, not_const,
  strhash, hash_from, set_flags, write_all, write_flags, insert_in, lookup_named,
}
use dir842v2_gpl.Config.Symtab.Flat.{
  Op, lookup, find, write, run, flat_run, empty_store, empty_flat,
}
use dir842v2_gpl.Config.Symtab.Agree.{run_refines}

fnv : strhash (codes "a") ≡ 3826002220
unfolding strhash hash_from
fnv = refl

-- FOO twice, a constant of that name, `y`, and a name that is not there.
abbrev calls : List Op
calls =
    lookup (some (codes "FOO")) 0
    ∷ lookup (some (codes "FOO")) symbol_const
    ∷ lookup (some (codes "FOO")) 0
    ∷ lookup (some (codes "y")) 0
    ∷ write 10 4096
    ∷ find (some (codes "FOO"))
    ∷ find (some (codes "BAR"))
    ∷ []

answers : run calls (empty_store 10) ≡ some 10 ∷ some 11 ∷ some 10 ∷ some 2 ∷ some 10 ∷ none ∷ []
unfolding run sym_lookup sym_find constant_of search has_name fits not_const slot_of strhash
    hash_from set_flags write_all write_flags insert_in lookup_named str_eq
answers = refl

run_refines_example : run calls (empty_store 10) ≡ flat_run calls (empty_flat 10)
run_refines_example = run_refines calls 10
