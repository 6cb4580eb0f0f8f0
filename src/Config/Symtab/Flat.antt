-- ===== src/Config/Symtab/Flat.antt =====
-- What the table of symbols promises: a plain list of them, the newest first, in which the first
-- that fits is found. The calls that a client makes, on the table and on the list.
use dir842v2_gpl.Common.{ℕ, ◌+◌, List, [], ◌∷◌, Option, none, some, Bytes}
use dir842v2_gpl.Config.Types.{SymbolId}
use dir842v2_gpl.Config.Symtab.{
  Entry, Store, constant_of, fits, not_const, search, sym_lookup, sym_find, write_all, set_flags,
}

pub record Flat : Type 0 where
  pub entries : List Entry
  pub next : SymbolId

pub data Op : Type 0 where
  lookup : Option Bytes → ℕ → Op
  find : Option Bytes → Op
  write : SymbolId → ℕ → Op

pub record FlatLooked : Type 0 where
  pub symbol : SymbolId
  pub flat : Flat

abbrev pub add : Option Bytes → ℕ → Flat → FlatLooked
add name flags f = record {
  symbol = f.next;
  flat = record {
    entries = record { address = f.next; name = name; flags = flags } ∷ f.entries;
    next = f.next + 1;
  };
}

unfoldable pub flat_lookup : Option Bytes → ℕ → Flat → FlatLooked
flat_lookup none flags f = add none flags f
flat_lookup (some name) flags f = elim (constant_of name) [
  | some s ↦ record { symbol = s; flat = f }
  | none ↦ elim (search name (fits flags) f.entries) [
    | some s ↦ record { symbol = s; flat = f }
    | none ↦ add (some name) flags f
  ]
]

unfoldable pub flat_find : Option Bytes → Flat → Option SymbolId
flat_find none f = none
flat_find (some name) f = elim (constant_of name) [
  | some s ↦ some s
  | none ↦ search name not_const f.entries
]

-- The answers to a sequence of calls.
unfoldable pub run : List Op → Store → List (Option SymbolId)
run [] st = []
run (lookup name flags ∷ ops) st =
    some (sym_lookup name flags st).symbol ∷ run ops (sym_lookup name flags st).store
run (find name ∷ ops) st = sym_find name st ∷ run ops st
run (write s flags ∷ ops) st = run ops (set_flags s flags st)

unfoldable pub flat_run : List Op → Flat → List (Option SymbolId)
flat_run [] f = []
flat_run (lookup name flags ∷ ops) f =
    some (flat_lookup name flags f).symbol ∷ flat_run ops (flat_lookup name flags f).flat
flat_run (find name ∷ ops) f = flat_find name f ∷ flat_run ops f
flat_run (write s flags ∷ ops) f = flat_run ops (record f { entries = write_all s flags f.entries })

abbrev pub empty_store : SymbolId → Store
empty_store next = record { buckets = λ h. []; next = next }

abbrev pub empty_flat : SymbolId → Flat
empty_flat next = record { entries = []; next = next }
