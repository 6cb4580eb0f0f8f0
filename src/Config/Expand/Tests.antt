-- ===== src/Config/Expand/Tests.antt =====
-- Concrete runs of sym_expand_string_value and file_lookup.
use dir842v2_gpl.Common.{◌≡◌, ◌≢◌, refl, [], ◌∷◌, some, codes, Bytes, split_on}
use dir842v2_gpl.Config.Types.{SymbolId}
use dir842v2_gpl.Config.Symtab.{constant_of, Store, sym_find, search}
use dir842v2_gpl.Config.Calc.State.{World, M, ◌>>=◌, pure}
use dir842v2_gpl.Config.Calc.{sym_calc_value}
use dir842v2_gpl.Config.Calc.Once.{HasSymbols, enough}
use dir842v2_gpl.Config.Calc.Sample.{world, world-HasSymbols, constant}
use dir842v2_gpl.Config.Expand.{
  KconfigFile, Files, append_to, name_of, after_name, make_room, expand_name, expand, expand_at,
  sym_expand_string_value, file_lookup,
}
use dir842v2_gpl.Config.Expand.Safe.{short_names, sym_expand_string_value_safe}
use dir842v2_gpl.Config.Expand.Lookup.{is_listed, file_lookup_duplicates}

-- No symbol is known, so that a name expands to nothing.
abbrev nothing : Store
nothing = record { buckets = λ _. []; next = 3 }

abbrev no_calc : SymbolId → M (Unit {0})
no_calc s = pure tt

abbrev state : World
state = record {
  at = λ _. constant (codes "y") 2;
  modules_sym = 1;
  modules_val = 0;
  changes = 0;
  drawn = 0;
}

abbrev path : Bytes
path = codes "a/$B.c"

expanded : sym_expand_string_value nothing no_calc path state ≡ some (codes "a/.c", state)
unfolding sym_expand_string_value expand expand_at split_on append_to expand_name name_of after_name
    make_room sym_find search constant_of ◌>>=◌ pure
expanded = refl

file_lookup_duplicates_example :
    (f g : KconfigFile) × (gs hs : Files) × (file_lookup nothing no_calc path
        (record { file_list = []; next = 1 })
        state
      ≡ some ((f, gs), state))
    × (file_lookup nothing no_calc path gs state ≡ some ((g, hs), state))
    × (hs.file_list ≡ g ∷ (f ∷ []))
    × (f.name ≡ codes "a/.c")
    × (g.name ≡ codes "a/.c")
    × (g.address ≢ f.address)
unfolding is_listed
file_lookup_duplicates_example =
    file_lookup_duplicates nothing no_calc path (codes "a/.c") (record { file_list = []; next = 1 })
      state state state refl (λ e. cc) expanded expanded

-- Symbol 3 stands in the table under its name.
abbrev one_symbol : Store
one_symbol = record nothing {
  buckets = λ _. record { address = 3; name = some (codes "A"); flags = 0 } ∷ [];
}

sym_expand_string_value_safe_example :
    (r : Bytes) × (v : World) × (sym_expand_string_value one_symbol
        (sym_calc_value (enough 10))
        (codes "is $A")
        world
      ≡ some (r, v))
    × HasSymbols 10 v
unfolding short_names name_of
sym_expand_string_value_safe_example =
    sym_expand_string_value_safe 10 one_symbol (codes "is $A") world refl world-HasSymbols
