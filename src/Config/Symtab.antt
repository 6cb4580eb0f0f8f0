-- ===== src/Config/Symtab.antt =====
-- The hash table of symbols in package/config/symbol.c: strhash, sym_lookup and sym_find.
-- `buckets` is the array symbol_hash, each bucket the list that `next` chains, and `next` here the
-- address that malloc gives to the next symbol, one never given before. `char` is signed.
pub mod Flat
pub mod Agree
pub mod Again
mod Tests
use Prim.Native.Nat.{bit_xor, bit_and}
use dir842v2_gpl.Common.{
  ℕ, ◌+◌, ◌-◌, ◌*◌, ◌%◌, ◌^◌, Bool, true, false, ◌&&◌, List, [], ◌∷◌, Option, none, some, ltb, ◌==◌,
  if◌then◌else◌, Bytes, str_eq,
}
use dir842v2_gpl.Config.Types.{SymbolId, symbol_no, symbol_mod, symbol_yes}

-- A symbol of the table, by its address, with the fields that are read here.
pub record Entry : Type 0 where
  pub address : SymbolId
  pub name : Option Bytes
  pub flags : ℕ

pub record Store : Type 0 where
  pub buckets : ℕ → List Entry
  pub next : SymbolId

abbrev pub symbol_const : ℕ
symbol_const = 1

abbrev pub symbol_choice : ℕ
symbol_choice = 16

abbrev pub symbol_hashsize : ℕ
symbol_hashsize = 9973

-- A byte read through a signed `char`, as a 32-bit unsigned number.
abbrev pub from_char : ℕ → ℕ
from_char c = if ltb c 128 then c else c + (2 ^ 32 - 256)

unfoldable pub hash_from : ℕ → Bytes → ℕ
hash_from hash [] = hash
hash_from hash (c ∷ s) = hash_from (bit_xor hash (from_char c) * 16777619 % 2 ^ 32) s

unfoldable pub strhash : Bytes → ℕ
unfolding hash_from
strhash s = hash_from 2166136261 s

unfoldable pub slot_of : Bytes → ℕ
unfolding strhash
slot_of name = strhash name % symbol_hashsize

-- The names of one letter that stand for the constants.
unfoldable pub constant_of : Bytes → Option SymbolId
constant_of (c ∷ []) =
    if c == b'y'
    then some symbol_yes
    else if c == b'm'
    then some symbol_mod
    else if c == b'n'
    then some symbol_no
    else none
constant_of _ = none

unfoldable pub has_name : Bytes → Entry → Bool
has_name name e = elim e.name [ none ↦ false | some n ↦ str_eq n name ]

-- The test of the flags in sym_lookup.
unfoldable pub fits : ℕ → Entry → Bool
fits flags e =
    if flags == 0
    then bit_and e.flags (symbol_const + symbol_choice) == 0
    else ltb 0 (bit_and e.flags flags)

-- The test of the flags in sym_find.
unfoldable pub not_const : Entry → Bool
not_const e = bit_and e.flags symbol_const == 0

-- The loops over a bucket.
unfoldable pub search : Bytes → (Entry → Bool) → List Entry → Option SymbolId
search name p [] = none
search name p (e ∷ es) = if has_name name e && p e then some e.address else search name p es

pub record Looked : Type 0 where
  pub symbol : SymbolId
  pub store : Store

abbrev pub bucket_of : Option Bytes → ℕ
bucket_of none = 0
bucket_of (some name) = slot_of name

-- A new symbol at the head of a bucket.
unfoldable pub insert_in : ℕ → Option Bytes → ℕ → Store → Looked
insert_in hash name flags st = record {
  symbol = st.next;
  store = record {
    buckets = λ h.
        if h == hash
        then record { address = st.next; name = name; flags = flags } ∷ st.buckets h
        else st.buckets h;
    next = st.next + 1;
  };
}

unfoldable pub lookup_named : Bytes → ℕ → Store → Looked
lookup_named name flags st = elim (search name (fits flags) (st.buckets (slot_of name))) [
  | some s ↦ record { symbol = s; store = st }
  | none ↦ insert_in (slot_of name) (some name) flags st
]

unfoldable pub sym_lookup : Option Bytes → ℕ → Store → Looked
unfolding insert_in lookup_named
sym_lookup none flags st = insert_in 0 none flags st
sym_lookup (some name) flags st = elim (constant_of name) [
  | some s ↦ record { symbol = s; store = st }
  | none ↦ lookup_named name flags st
]

unfoldable pub sym_find : Option Bytes → Store → Option SymbolId
sym_find none st = none
sym_find (some name) st = elim (constant_of name) [
  | some s ↦ some s
  | none ↦ search name not_const (st.buckets (slot_of name))
]

-- What the rest of the program does to the flags of a symbol that it holds a pointer to.
unfoldable pub write_flags : SymbolId → ℕ → Entry → Entry
write_flags s flags e = if e.address == s then record e { flags = flags } else e

unfoldable pub write_all : SymbolId → ℕ → List Entry → List Entry
write_all s flags [] = []
write_all s flags (e ∷ es) = write_flags s flags e ∷ write_all s flags es

unfoldable pub set_flags : SymbolId → ℕ → Store → Store
set_flags s flags st = record st { buckets = λ h. write_all s flags (st.buckets h) }
