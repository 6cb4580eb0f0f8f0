-- ===== src/Sstrip/Headers/Modify.antt =====
-- What modifyheaders leaves in the headers.
use mathlib.Core.Path.{subst, ap₂}
use dir842v2_gpl.Common.{
  true, false, ℕ, ◌-◌, ◌^◌, ◌%◌, ◌≤◌, ◌<◌, ◌≡◌, ◌∙◌, ap, arith, refl, List, [], ◌∷◌, Bool-cases,
  inl, inr, ltb, leb,
}
use dir842v2_gpl.Sstrip.Endian.{eset}
use dir842v2_gpl.Sstrip.Endian.Laws.{eget-eset, pow256-positive}
use dir842v2_gpl.Sstrip.Headers.{
  Format, Ehdr, Phdr, Headers, half, offset_of, segment_end, clear_sections, shrink, shrink_all,
  modifyheaders,
}

small : (x p : ℕ) → x < p → x % p ≡ x
small x p h = grind arith

offset-eset :
    (k : Format) (x : ℕ) → x < 256 ^ k.class.word → offset_of k (eset k.reverse k.class.word x) ≡ x
offset-eset k x h = eget-eset k.reverse k.class.word x ∙ small x (256 ^ k.class.word) h

-- Every entry starts at `m` at the latest, and ends so, where the end is reduced to 64 bits.
pub data Within (k : Format) (m : ℕ) : List Phdr → Type 0 where
  nil : Within k m []
  cons :
      {p : Phdr} {ps : List Phdr}
      → offset_of k p.p_offset ≤ m
      → segment_end k p ≤ m
      → Within k m ps
      → Within k m (p ∷ ps)

-- A section header table below `m`, or no reference to one.
pub data Sectionless (k : Format) (m : ℕ) (h : Ehdr) : Type 0 where
  kept : offset_of k h.e_shoff < m → Sectionless k m h
  removed :
      offset_of k h.e_shoff ≡ 0
      → half k h.e_shnum ≡ 0
      → half k h.e_shentsize ≡ 0
      → half k h.e_shstrndx ≡ 0
      → Sectionless k m h

shrink-offset :
    (k : Format) (m : ℕ) (p : Phdr)
    → m < 256 ^ k.class.word
    → offset_of k (shrink k m p).p_offset ≤ m
unfolding shrink
shrink-offset k m p h = ground (arith, offset-eset k m h)

shrink-end :
    (k : Format) (m : ℕ) (p : Phdr) → m < 256 ^ k.class.word → segment_end k (shrink k m p) ≤ m
unfolding shrink
shrink-end k m p h = elim (Bool-cases (leb m (offset_of k p.p_offset))) [
  | inl e ↦ rw (e, offset-eset k m h, offset-eset k 0 (omega arith)) (omega arith)
  | inr e ↦ elim (Bool-cases (ltb m (segment_end k p))) [
    | inl l ↦
        let n : ℕ = m - offset_of k p.p_offset in
        rw (e, l, offset-eset k n (omega arith)) (ground arith)
    | inr l ↦ rw (e, l) (ground arith)
  ]
]

shrink_all-Within :
    (k : Format) (m : ℕ) (ps : List Phdr) → m < 256 ^ k.class.word → Within k m (shrink_all k m ps)
unfolding shrink_all
shrink_all-Within k m [] h = nil
shrink_all-Within k m (p ∷ ps) h =
    cons (shrink-offset k m p h) (shrink-end k m p h) (shrink_all-Within k m ps h)

clear_sections-Sectionless :
    (k : Format) (m : ℕ) (h : Ehdr) → Sectionless k m (clear_sections k h m)
unfolding clear_sections
clear_sections-Sectionless k m h = elim (Bool-cases (leb m (offset_of k h.e_shoff))) [
  | inl e ↦ rw e (
      removed (offset-eset k 0 (pow256-positive k.class.word)) (eget-eset k.reverse 2 0)
        (eget-eset k.reverse 2 0) (eget-eset k.reverse 2 0))
  | inr e ↦ rw e (kept (ground arith))
]

-- For a size that an offset can hold, every entry that modifyheaders leaves starts by that size and
-- has an end, the sum of its offset and its file size as the program takes it, reduced to 64 bits,
-- that is not past the size; and the ELF header refers to no section header table at or after it.
pub modifyheaders-Within :
    (k : Format) (m : ℕ) (x : Headers)
    → m < 256 ^ k.class.word
    → Within k m (modifyheaders k m x).phdrs × Sectionless k m (modifyheaders k m x).ehdr
unfolding modifyheaders
modifyheaders-Within k m x h =
    (shrink_all-Within k m x.phdrs h, clear_sections-Sectionless k m x.ehdr)

shrink-past :
    (k : Format) (m : ℕ) (p : Phdr)
    → leb m (offset_of k p.p_offset) ≡ true
    → shrink k m p ≡ record p {
      p_offset = eset k.reverse k.class.word m;
      p_filesz = eset k.reverse k.class.word 0;
    }
unfolding shrink
shrink-past k m p e = rw e refl

shrink-cut :
    (k : Format) (m : ℕ) (p : Phdr)
    → leb m (offset_of k p.p_offset) ≡ false
    → ltb m (segment_end k p) ≡ true
    → shrink k m p
      ≡ record p { p_filesz = eset k.reverse k.class.word (m - offset_of k p.p_offset) }
unfolding shrink
shrink-cut k m p e l = rw (e, l) refl

shrink-keep :
    (k : Format) (m : ℕ) (p : Phdr)
    → leb m (offset_of k p.p_offset) ≡ false
    → segment_end k p ≤ m
    → shrink k m p ≡ p
unfolding shrink
shrink-keep k m p e l = let f : ltb m (segment_end k p) ≡ false = ground arith in rw (e, f) refl

leb_self : (m : ℕ) → leb m m ≡ true
leb_self m = ground arith

shrink-shrink :
    (k : Format) (m : ℕ) (p : Phdr)
    → m < 256 ^ k.class.word
    → shrink k m (shrink k m p) ≡ shrink k m p
shrink-shrink k m p h = elim (Bool-cases (leb m (offset_of k p.p_offset))) [
  | inl e ↦ rw (shrink-past k m p e) (
      shrink-past k m
        (record p {
          p_offset = eset k.reverse k.class.word m;
          p_filesz = eset k.reverse k.class.word 0;
        })
        (ap (leb m) (offset-eset k m h) ∙ leb_self m))
  | inr e ↦ elim (Bool-cases (ltb m (segment_end k p))) [
    | inl l ↦
        let b = shrink-end k m p h in
        let c = shrink-cut k m p e l in
        rw c (shrink-keep k m _ e (subst (λ q. segment_end k q ≤ m) c b))
    | inr l ↦ let c = shrink-keep k m p e (ground arith) in rw (c, c) refl
  ]
]

shrink_all-shrink_all :
    (k : Format) (m : ℕ) (ps : List Phdr)
    → m < 256 ^ k.class.word
    → shrink_all k m (shrink_all k m ps) ≡ shrink_all k m ps
unfolding shrink_all
shrink_all-shrink_all k m [] h = refl
shrink_all-shrink_all k m (p ∷ ps) h =
    ap₂ (λ (q : Phdr) (qs : List Phdr). q ∷ qs) (shrink-shrink k m p h)
      (shrink_all-shrink_all k m ps h)

clear_sections-clear_sections :
    (k : Format) (m : ℕ) (h : Ehdr)
    → clear_sections k (clear_sections k h m) m ≡ clear_sections k h m
unfolding clear_sections
clear_sections-clear_sections k m h = ground arith

-- Doing modifyheaders again for the same size, one that an offset can hold, changes nothing.
pub modifyheaders-modifyheaders :
    (k : Format) (m : ℕ) (x : Headers)
    → m < 256 ^ k.class.word
    → modifyheaders k m (modifyheaders k m x) ≡ modifyheaders k m x
unfolding modifyheaders
modifyheaders-modifyheaders k m x h =
    ap₂ (λ (e : Ehdr) (ps : List Phdr). record { ehdr = e; phdrs = ps })
      (clear_sections-clear_sections k m x.ehdr) (shrink_all-shrink_all k m x.phdrs h)
