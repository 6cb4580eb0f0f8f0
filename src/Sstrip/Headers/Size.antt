-- ===== src/Sstrip/Headers/Size.antt =====
-- What getmemorysize computes.
use dir842v2_gpl.Common.{ℕ, ◌≤◌, ◌↔◌, ◌≢◌, arith, List, [], ◌∷◌}
use dir842v2_gpl.Sstrip.Endian.{eget}
use dir842v2_gpl.Sstrip.Headers.{
  Format, Ehdr, Phdr, segment_end, table_end, start_size, extend, extend_by, getmemorysize,
}

-- The entries that are not PT_NULL end at `m` at the latest.
pub data EndBy (k : Format) (m : ℕ) : List Phdr → Type 0 where
  nil : EndBy k m []
  cons :
      {p : Phdr} {ps : List Phdr}
      → (eget k.reverse 4 p.p_type ≢ 0 → segment_end k p ≤ m)
      → EndBy k m ps
      → EndBy k m (p ∷ ps)

extend_by-le :
    (k : Format) (p : Phdr) (size m : ℕ)
    → (extend_by k p size ≤ m)
      ↔ ((size ≤ m) × (eget k.reverse 4 p.p_type ≢ 0 → segment_end k p ≤ m))
extend_by-le k p size m = (λ h. (ground arith, λ t. ground arith), λ h. ground (arith, h.0, h.1))

extend-le :
    (k : Format) (ps : List Phdr) (size m : ℕ)
    → (extend k ps size ≤ m) ↔ ((size ≤ m) × EndBy k m ps)
unfolding extend
extend-le k [] size m = (λ h. (h, nil), λ h. h.0)
extend-le k (p ∷ ps) size m =
    let rest = extend-le k ps (extend_by k p size) m in
    let here = extend_by-le k p size m in
    (
      λ h. ((here.0 (rest.0 h).0).0, cons (here.0 (rest.0 h).0).1 (rest.0 h).1),
      λ h. elim h.1 [ cons a b ↦ rest.1 (here.1 (h.0, a), b) ],
    )

-- The result of getmemorysize is the least size that has the ELF header, the program segment
-- header table and every segment but those of type PT_NULL below it, ends being taken in 64 bits.
pub getmemorysize_least :
    (k : Format) (h : Ehdr) (phdrs : List Phdr) (m : ℕ)
    → (getmemorysize k h phdrs ≤ m)
      ↔ ((k.class.ehdr_size ≤ m) × (table_end k h ≤ m) × EndBy k m phdrs)
unfolding getmemorysize
getmemorysize_least k h phdrs m =
    let e = extend-le k phdrs (start_size k h) m in
    (
      λ l. let r = e.0 l in (ground (arith, r.0), ground (arith, r.0), r.1),
      λ l. e.1 (ground (arith, l.0, l.1), l.2),
    )
