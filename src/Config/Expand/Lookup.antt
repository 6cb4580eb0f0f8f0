-- ===== src/Config/Expand/Lookup.antt =====
-- file_lookup compares the name before expansion with names after it.
use dir842v2_gpl.Common.{
  ◌≡◌, ◌≢◌, ◌∙◌, refl, sym, ap, arith, Bool, true, false, Bool-cases, inl, inr, List, [], ◌∷◌, none,
  some, if◌then◌else◌, Bytes, str_eq, str_eq_iff, str_eq_self,
}
use dir842v2_gpl.Config.Symtab.{Store}
use dir842v2_gpl.Config.Types.{SymbolId}
use dir842v2_gpl.Config.Calc.State.{World, M, ◌>>=◌, pure}
use dir842v2_gpl.Config.Expand.{
  KconfigFile, Files, find_file, add_file, found_or_added, sym_expand_string_value, file_lookup,
}

-- Whether a file of the list has this name.
unfoldable pub is_listed : Bytes → List KconfigFile → Bool
is_listed name [] = false
is_listed name (f ∷ fs) = if str_eq name f.name then true else is_listed name fs

find_file-absent :
    (name : Bytes) (fs : List KconfigFile) → is_listed name fs ≡ false → find_file name fs ≡ none
unfolding find_file is_listed
find_file-absent name [] h = refl
find_file-absent name (f ∷ fs) h = ground (arith, find_file-absent name fs)

find_file-listed :
    (name : Bytes) (fs : List KconfigFile)
    → is_listed name fs ≡ true
    → (f : KconfigFile) × (find_file name fs ≡ some f) × (f.name ≡ name)
unfolding find_file is_listed
find_file-listed name [] h = cc
find_file-listed name (f ∷ fs) h = elim (Bool-cases (str_eq name f.name)) [
  | inl e ↦ (f, rw e refl, sym ((str_eq_iff name f.name).0 e))
  | inr e ↦ let (g, a, b) = find_file-listed name fs (ground arith) in (g, rw e a, b)
]

module _ (st : Store) (calc : SymbolId → M (Unit {0})) where
  looked :
      (name full : Bytes) (fs : Files) (w v : World)
      → sym_expand_string_value st calc name w ≡ some (full, v)
      → file_lookup st calc name fs w
        ≡ some (found_or_added full (find_file name fs.file_list) fs, v)
  unfolding file_lookup ◌>>=◌ pure
  looked name full fs w v e = rw (e, ◌>>=◌) refl

  -- A name that expands to itself has one entry: the first file_lookup of a name that is not listed
  -- puts an entry of that name in front, and the next one finds it and leaves the list alone.
  pub file_lookup_again :
      (name : Bytes) (fs : Files) (w v u : World)
      → is_listed name fs.file_list ≡ false
      → sym_expand_string_value st calc name w ≡ some (name, v)
      → sym_expand_string_value st calc name v ≡ some (name, u)
      → (f : KconfigFile) × (gs : Files) × (file_lookup st calc name fs w ≡ some ((f, gs), v))
        × (file_lookup st calc name gs v ≡ some ((f, gs), u))
        × (gs.file_list ≡ f ∷ fs.file_list)
        × (f.name ≡ name)
  unfolding add_file find_file
  file_lookup_again name fs w v u absent first next =
      let r = add_file name fs in
      (
        r.0,
        r.1,
        looked name name fs w v first
            ∙ ap (λ o. some (found_or_added name o fs, v))
                (find_file-absent name fs.file_list absent),
        looked name name r.1 v u next ∙ rw (str_eq_self name) refl,
        refl,
        refl,
      )

  -- A name that expands to another text is never found: while the list has no entry of
  -- the name before expansion, each file_lookup of it makes a new entry, so that the list holds the
  -- expanded name once for every call.
  pub file_lookup_duplicates :
      (name full : Bytes) (fs : Files) (w v u : World)
      → is_listed name fs.file_list ≡ false
      → full ≢ name
      → sym_expand_string_value st calc name w ≡ some (full, v)
      → sym_expand_string_value st calc name v ≡ some (full, u)
      → (f g : KconfigFile) × (gs hs : Files) × (file_lookup st calc name fs w ≡ some ((f, gs), v))
        × (file_lookup st calc name gs v ≡ some ((g, hs), u))
        × (hs.file_list ≡ g ∷ (f ∷ fs.file_list))
        × (f.name ≡ full)
        × (g.name ≡ full)
        × (g.address ≢ f.address)
  unfolding add_file find_file
  file_lookup_duplicates name full fs w v u absent other first next =
      let r = add_file full fs in
      let q = add_file full r.1 in
      let differs : str_eq name full ≡ false = elim (Bool-cases (str_eq name full)) [
        | inl e ↦ absurd (other (sym ((str_eq_iff name full).0 e)))
        | inr e ↦ e
      ] in
      let missing = find_file-absent name fs.file_list absent in
      let again : find_file name r.1.file_list ≡ none = rw differs missing in
      (
        r.0,
        q.0,
        r.1,
        q.1,
        looked name full fs w v first ∙ ap (λ o. some (found_or_added full o fs, v)) missing,
        looked name full r.1 v u next ∙ ap (λ o. some (found_or_added full o r.1, u)) again,
        refl,
        refl,
        refl,
        λ e. omega arith,
      )
