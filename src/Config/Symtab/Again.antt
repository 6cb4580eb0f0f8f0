-- ===== src/Config/Symtab/Again.antt =====
-- Looking a symbol up again.
use dir842v2_gpl.Common.{
  ℕ, ◌≡◌, refl, true, inl, inr, Option, none, some, Bytes, str_eq_self, ==_self, Option-cases,
}
use dir842v2_gpl.Config.Types.{SymbolId}
use dir842v2_gpl.Config.Symtab.{
  Store, Looked, symbol_const, symbol_choice, constant_of, has_name, fits, search, slot_of,
  insert_in, lookup_named, sym_lookup,
}

-- The flags that the program looks symbols up with.
pub data IsLookupFlags : ℕ → Type 0 where
  plain : {n : ℕ} → n ≡ 0 → IsLookupFlags n
  const : {n : ℕ} → n ≡ symbol_const → IsLookupFlags n
  choice : {n : ℕ} → n ≡ symbol_choice → IsLookupFlags n

fits_self :
    (flags : ℕ) (s : SymbolId) (name : Option Bytes)
    → IsLookupFlags flags
    → fits flags (record { address = s; name = name; flags = flags }) ≡ true
unfolding fits
fits_self flags s name (plain e) = rw e refl
fits_self flags s name (const e) = rw e refl
fits_self flags s name (choice e) = rw e refl

module _ (name : Bytes) (flags : ℕ) (st : Store) (k : IsLookupFlags flags) where
  inserted : Looked
  inserted = insert_in (slot_of name) (some name) flags st

  search-inserted : search name (fits flags) (inserted.store.buckets (slot_of name)) ≡ some st.next
  unfolding inserted insert_in search has_name
  search-inserted =
      rw (==_self (slot_of name), str_eq_self name, fits_self flags st.next (some name) k) refl

  found-again :
      (s : SymbolId) (u : Store)
      → search name (fits flags) (u.buckets (slot_of name)) ≡ some s
      → lookup_named name flags u ≡ record { symbol = s; store = u }
  unfolding lookup_named
  found-again s u h = rw (lookup_named, h) refl

  new-named :
      search name (fits flags) (st.buckets (slot_of name)) ≡ none
      → lookup_named name flags st ≡ inserted
  unfolding lookup_named inserted
  new-named h = rw (lookup_named, h) refl

  named-again :
      lookup_named name flags (lookup_named name flags st).store ≡ lookup_named name flags st
  unfolding inserted insert_in
  named-again = elim (Option-cases (search name (fits flags) (st.buckets (slot_of name)))) [
    | inr (s, h) ↦ rw (found-again s st h, found-again s st h) refl
    | inl h ↦ rw (new-named h) (found-again st.next inserted.store search-inserted)
  ]

-- With flags that the program looks symbols up with, looking a name up a second time gives the
-- symbol of the first time and leaves the table as it is.
pub sym_lookup_again :
    (name : Bytes) (flags : ℕ) (st : Store)
    → IsLookupFlags flags
    → sym_lookup (some name) flags (sym_lookup (some name) flags st).store
      ≡ sym_lookup (some name) flags st
unfolding sym_lookup
sym_lookup_again name flags st k = elim (Option-cases (constant_of name)) [
  | inr (s, h) ↦ rw (sym_lookup, h) (rw (sym_lookup, h) refl)
  | inl h ↦ rw (sym_lookup, h) (rw (sym_lookup, h) (named-again name flags st k))
]
