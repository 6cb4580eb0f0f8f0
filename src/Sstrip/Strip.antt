-- ===== src/Sstrip/Strip.antt =====
-- What main of package/sstrip/sstrip.c does to a file once its headers are read: getmemorysize,
-- truncatezeros, modifyheaders and commitchanges, with writes that succeed.
use dir842v2_gpl.Common.{
  ◌⊎◌, inl, inr, refl, Bool-cases, ltb, ℕ, ◌≤◌, ◌<◌, ◌≡◌, ◌≢◌, ap, arith, Option, none, some,
}
use dir842v2_gpl.Sstrip.Headers.Size.{getmemorysize_least}
use dir842v2_gpl.Sstrip.Headers.{
  Format, Headers, table_end, getmemorysize, clear_sections, modifyheaders, committed_size,
}
use dir842v2_gpl.Sstrip.Zeros.{File, Outcome, failed, resized, truncatezeros}
use dir842v2_gpl.Sstrip.Zeros.Laws.{IsZero, IsTrimmed, truncatezeros_trims}

pub data Stripped : Type 0 where
  unchanged : Stripped
  stripped : ℕ → Headers → Stripped

-- modifyheaders and commitchanges.
abbrev pub commit : Format → Headers → Option Outcome → Option Stripped
commit k x none = none
commit k x (some failed) = some unchanged
commit k x (some (resized n)) =
    some (stripped (committed_size k (modifyheaders k n x).ehdr n) (modifyheaders k n x))

unfoldable pub strip : File → Format → Headers → Option Stripped
strip f k x = commit k x (truncatezeros f (getmemorysize k x.ehdr x.phdrs))

table_end-modifyheaders :
    (k : Format) (n : ℕ) (x : Headers) → table_end k (modifyheaders k n x).ehdr ≡ table_end k x.ehdr
unfolding modifyheaders clear_sections
table_end-modifyheaders k n x = ground arith

-- What is safe about a file cut to `s` bytes: the program header table is kept, nothing is added to
-- the memory image, and what is cut from the image is zero.
pub record IsSafe (f : File) (k : Format) (x : Headers) (s : ℕ) : Type 0 where
  pub table : table_end k x.ehdr ≤ s
  pub image : s ≤ getmemorysize k x.ehdr x.phdrs
  pub zeros : IsZero f s (getmemorysize k x.ehdr x.phdrs)

committed-IsSafe :
    (f : File) (k : Format) (x : Headers) (n : ℕ)
    → IsTrimmed f (getmemorysize k x.ehdr x.phdrs) n
    → IsSafe f k x (committed_size k (modifyheaders k n x).ehdr n)
unfolding committed_size
committed-IsSafe f k x n t =
    let m = getmemorysize_least k x.ehdr x.phdrs (getmemorysize k x.ehdr x.phdrs) in
    let e = table_end-modifyheaders k n x in
    let b = (m.0 (omega arith)).1 in
    rw e (record {
      table = ground arith;
      image = ground (arith, b, t.within);
      zeros = λ i l u. t.zeros i (ground arith) u;
    })

committed_size-larger :
    (k : Format) (n : ℕ) (x : Headers)
    → (n ≤ committed_size k (modifyheaders k n x).ehdr n)
      × ((committed_size k (modifyheaders k n x).ehdr n ≡ n)
          ⊎ (committed_size k (modifyheaders k n x).ehdr n ≡ table_end k x.ehdr))
unfolding committed_size
committed_size-larger k n x =
    let e = table_end-modifyheaders k n x in
    elim (Bool-cases (ltb n (table_end k (modifyheaders k n x).ehdr))) [
      | inl h ↦ rw h (ground arith, inr e)
      | inr h ↦ rw h (omega arith, inl refl)
    ]

-- When a file holds the bytes up to the end of the memory image of its headers and one of them
-- other than the first is not zero, the program ends with a file that is cut safely. Its headers are
-- what modifyheaders makes of the old ones for the size up to the last byte of the image that is not
-- zero, and the file has that size or, where that is larger, the one up to the end of the program
-- header table.
pub strip-IsSafe :
    (f : File) (k : Format) (x : Headers) (i : ℕ)
    → getmemorysize k x.ehdr x.phdrs ≤ f.length
    → 1 ≤ i
    → i < getmemorysize k x.ehdr x.phdrs
    → f.at i ≢ 0
    → (s : ℕ) × (n : ℕ) × (strip f k x ≡ some (stripped s (modifyheaders k n x)))
      × IsTrimmed f (getmemorysize k x.ehdr x.phdrs) n
      × (n ≤ s)
      × ((s ≡ n) ⊎ (s ≡ table_end k x.ehdr))
      × IsSafe f k x s
unfolding strip
strip-IsSafe f k x i l p q d =
    let t = truncatezeros_trims f (getmemorysize k x.ehdr x.phdrs) i l p q d in
    let c = committed_size-larger k t.0 x in
    (
      committed_size k (modifyheaders k t.0 x).ehdr t.0,
      t.0,
      ap (commit k x) t.1,
      t.2,
      c.0,
      c.1,
      committed-IsSafe f k x t.0 t.2,
    )
