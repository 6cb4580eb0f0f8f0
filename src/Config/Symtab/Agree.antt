-- ===== src/Config/Symtab/Agree.antt =====
-- The table of symbols answers as the plain list does.
use mathlib.Core.Path.{ap₂}
use dir842v2_gpl.Common.{
  ℕ, ◌+◌, ◌≡◌, ◌∙◌, sym, ap, refl, arith, Bool, false, Bool-cases, inl, inr, List, [], ◌∷◌, Option,
  none, some, Bytes, ◌==◌, str_eq, str_eq_iff, if◌then◌else◌, Option-cases,
}
use dir842v2_gpl.Config.Types.{SymbolId}
use dir842v2_gpl.Config.Symtab.{
  Entry, Store, Looked, constant_of, has_name, fits, not_const, search, slot_of, insert_in,
  lookup_named, sym_lookup, sym_find, write_flags, write_all, set_flags,
}
use dir842v2_gpl.Config.Symtab.Flat.{
  Flat, FlatLooked, Op, lookup, find, write, add, flat_lookup, flat_find, run, flat_run,
  empty_store, empty_flat,
}

-- The symbols of a name, in their order.
named : Bytes → List Entry → List Entry
named name [] = []
named name (e ∷ es) = if has_name name e then e ∷ named name es else named name es

search-named :
    (name : Bytes) (p : Entry → Bool) (es : List Entry)
    → search name p (named name es) ≡ search name p es
unfolding search named
search-named name p [] = refl
search-named name p (e ∷ es) = ground (arith, search-named name p es)

named-write_all :
    (name : Bytes) (s : SymbolId) (flags : ℕ) (es : List Entry)
    → named name (write_all s flags es) ≡ write_all s flags (named name es)
unfolding named write_all write_flags has_name
named-write_all name s flags [] = refl
named-write_all name s flags (e ∷ es) = ground (arith, named-write_all name s flags es)

-- A bucket holds the symbols of its names in the order of the list.
record Agrees (st : Store) (f : Flat) : Type 0 where
  same : (name : Bytes) → named name (st.buckets (slot_of name)) ≡ named name f.entries
  next : st.next ≡ f.next

search-Agrees :
    (name : Bytes) (p : Entry → Bool) (st : Store) (f : Flat)
    → Agrees st f
    → search name p (st.buckets (slot_of name)) ≡ search name p f.entries
search-Agrees name p st f a =
    sym (search-named name p (st.buckets (slot_of name)))
    ∙ ap (search name p) (a.same name)
    ∙ search-named name p f.entries

named-hit :
    (name : Bytes) (e : Entry) (xs ys : List Entry)
    → named name xs ≡ named name ys
    → named name (e ∷ xs) ≡ named name (e ∷ ys)
unfolding named
named-hit name e xs ys h = ground arith

named-miss :
    (name : Bytes) (e : Entry) (xs ys : List Entry)
    → has_name name e ≡ false
    → named name xs ≡ named name ys
    → named name xs ≡ named name (e ∷ ys)
unfolding named
named-miss name e xs ys m h = ground arith

-- A name with another slot is another name.
other_slot : (n name : Bytes) → (slot_of n == slot_of name) ≡ false → str_eq name n ≡ false
other_slot n name h = elim (Bool-cases (str_eq name n)) [
  | inl e ↦
      let q : slot_of n ≡ slot_of name = ap slot_of (sym ((str_eq_iff name n).0 e)) in
      absurd (ground (arith, q))
  | inr e ↦ e
]

module _ (name : Bytes) (flags : ℕ) (st : Store) (f : Flat) (a : Agrees st f) where
  added : Entry
  added = record { address = f.next; name = some name; flags = flags }

  add-same :
      (n : Bytes)
      → named n ((insert_in (slot_of name) (some name) flags st).store.buckets (slot_of n))
        ≡ named n (added ∷ f.entries)
  unfolding insert_in added has_name
  add-same n = elim (Bool-cases (slot_of n == slot_of name)) [
    | inl h ↦ rw (h, a.next) (named-hit n added (st.buckets (slot_of n)) f.entries (a.same n))
    | inr h ↦
        rw h
          (named-miss n added (st.buckets (slot_of n)) f.entries (other_slot n name h) (a.same n))
  ]

  add-Agrees :
      Agrees (insert_in (slot_of name) (some name) flags st).store (add (some name) flags f).flat
  unfolding insert_in added
  add-Agrees = record { same = add-same; next = ap (λ (k : ℕ). k + 1) a.next }

unnamed-Agrees :
    (flags : ℕ) (st : Store) (f : Flat)
    → Agrees st f
    → Agrees (insert_in 0 none flags st).store (add none flags f).flat
unfolding insert_in has_name
unnamed-Agrees flags st f a = record {
  same = λ n. elim (Bool-cases (slot_of n == 0)) [
    | inl h ↦ rw (h, a.next) (named-hit n _ (st.buckets (slot_of n)) f.entries (a.same n))
    | inr h ↦ rw h (named-miss n _ (st.buckets (slot_of n)) f.entries refl (a.same n))
  ];
  next = ap (λ (k : ℕ). k + 1) a.next;
}

write-Agrees :
    (s : SymbolId) (flags : ℕ) (st : Store) (f : Flat)
    → Agrees st f
    → Agrees (set_flags s flags st) (record f { entries = write_all s flags f.entries })
unfolding set_flags
write-Agrees s flags st f a = record {
  same = λ n.
      named-write_all n s flags (st.buckets (slot_of n))
      ∙ ap (write_all s flags) (a.same n)
      ∙ sym (named-write_all n s flags f.entries);
  next = a.next;
}

-- The two answers and the two states after a lookup.
record Match (x : Looked) (y : FlatLooked) : Type 0 where
  symbol : x.symbol ≡ y.symbol
  agree : Agrees x.store y.flat

flat_named : Bytes → ℕ → Flat → FlatLooked
flat_named name flags f = elim (search name (fits flags) f.entries) [
  | some s ↦ record { symbol = s; flat = f }
  | none ↦ add (some name) flags f
]

named-Match :
    (name : Bytes) (flags : ℕ) (st : Store) (f : Flat)
    → Agrees st f
    → Match (lookup_named name flags st) (flat_named name flags f)
unfolding lookup_named flat_named insert_in
named-Match name flags st f a = elim (Option-cases (search name (fits flags) f.entries)) [
  | inr (s, h) ↦
      rw (search-Agrees name (fits flags) st f a, h, lookup_named, flat_named)
        (record { symbol = refl; agree = a })
  | inl h ↦
      rw (search-Agrees name (fits flags) st f a, h, lookup_named, flat_named)
        (record { symbol = a.next; agree = add-Agrees name flags st f a })
]

lookup-Match :
    (name : Option Bytes) (flags : ℕ) (st : Store) (f : Flat)
    → Agrees st f
    → Match (sym_lookup name flags st) (flat_lookup name flags f)
unfolding sym_lookup flat_lookup flat_named
lookup-Match none flags st f a = record { symbol = a.next; agree = unnamed-Agrees flags st f a }
lookup-Match (some name) flags st f a = elim (Option-cases (constant_of name)) [
  | inr (s, h) ↦ rw (h, sym_lookup, flat_lookup) (record { symbol = refl; agree = a })
  | inl h ↦ rw (h, sym_lookup, flat_lookup) (named-Match name flags st f a)
]

find-eq :
    (name : Option Bytes) (st : Store) (f : Flat)
    → Agrees st f
    → sym_find name st ≡ flat_find name f
unfolding sym_find flat_find
find-eq none st f a = refl
find-eq (some name) st f a = ground (arith, search-Agrees name not_const st f a)

run-eq : (ops : List Op) (st : Store) (f : Flat) → Agrees st f → run ops st ≡ flat_run ops f
unfolding run flat_run
run-eq [] st f a = refl
run-eq (lookup name flags ∷ ops) st f a =
    let m = lookup-Match name flags st f a in
    ap₂ (λ (x : SymbolId) (xs : List (Option SymbolId)). some x ∷ xs) m.symbol
      (run-eq ops (sym_lookup name flags st).store (flat_lookup name flags f).flat m.agree)
run-eq (find name ∷ ops) st f a = rw (find-eq name st f a, run-eq ops st f a) refl
run-eq (write s flags ∷ ops) st f a =
    run-eq ops (set_flags s flags st) _ (write-Agrees s flags st f a)

-- Whatever calls of sym_lookup and sym_find a client makes of an empty table, and whatever flags it
-- writes to the symbols between them, the answers are those of a plain list of the symbols.
pub run_refines :
    (ops : List Op) (next : SymbolId) → run ops (empty_store next) ≡ flat_run ops (empty_flat next)
run_refines ops next =
    run-eq ops (empty_store next) (empty_flat next) (record { same = λ n. refl; next = refl })
