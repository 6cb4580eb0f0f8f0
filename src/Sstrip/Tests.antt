-- ===== src/Sstrip/Tests.antt =====
-- A small ELF file, runs of the functions of package/sstrip/sstrip.c on it, and the theorems
-- applied to it.
use dir842v2_gpl.Common.{
  ◌⊎◌, ◌==◌, ℕ, ◌≤◌, ◌↔◌, ◌≡◌, ◌%◌, ◌^◌, refl, arith, true, false, [], ◌∷◌, none, some,
  if◌then◌else◌, ltb,
}
use dir842v2_gpl.Sstrip.Endian.{eget, eset, bytes_of, number_of, reversed, bswap}
use dir842v2_gpl.Sstrip.Endian.Laws.{eget-eset}
use dir842v2_gpl.Sstrip.Headers.{
  Format, Ehdr, Phdr, Headers, elf32, getmemorysize, extend, modifyheaders, table_end,
  readelfheader,
}
use dir842v2_gpl.Sstrip.Headers.Size.{getmemorysize_least, EndBy}
use dir842v2_gpl.Sstrip.Headers.Modify.{modifyheaders-Within, Within, Sectionless}
use dir842v2_gpl.Sstrip.Strip.{strip, strip-IsSafe, stripped, IsSafe}
use dir842v2_gpl.Sstrip.Zeros.{scan, File, truncatezeros, truncate_within, resized}
use dir842v2_gpl.Sstrip.Zeros.Laws.{truncatezeros_trims, IsTrimmed}
use dir842v2_gpl.Sstrip.Zeros.Ends.{truncate_within-stuck}

abbrev format : Format
format = record { reverse = false; class = elf32 }

abbrev header : Ehdr
header = record {
  e_type = 2;
  e_phoff = 52;
  e_shoff = 120;
  e_ehsize = 52;
  e_phentsize = 32;
  e_phnum = 1;
  e_shentsize = 40;
  e_shnum = 3;
  e_shstrndx = 2;
}

-- A segment of 100 bytes.
abbrev segment : Phdr
segment = record { p_type = 1; p_offset = 0; p_filesz = 100 }

abbrev headers : Headers
headers = record { ehdr = header; phdrs = segment ∷ [] }

-- 240 bytes, the last 150 of them zero.
abbrev file : File
file = record { length = 240; at = λ i. if ltb i 90 then 1 else 0 }

abbrev blank_file : File
blank_file = record { length = 3; at = λ i. 0 }

abbrev first_only : File
first_only = record { length = 3; at = λ i. if i == 0 then 1 else 0 }

accepted : readelfheader format header ≡ true
unfolding readelfheader eget
accepted = refl

memory : getmemorysize format header (segment ∷ []) ≡ 100
unfolding getmemorysize extend eget
memory = refl

swapped : eget true 4 305419896 ≡ 2018915346
unfolding eget bswap number_of bytes_of reversed
swapped = refl

trimmed : truncatezeros file 100 ≡ some (resized 90)
unfolding truncatezeros truncate_within scan
trimmed = refl

eget-eset_example : eget true 4 (eset true 4 305419896) ≡ 305419896 % 256 ^ 4
eget-eset_example = eget-eset true 4 305419896

getmemorysize_least_example :
    (getmemorysize format header (segment ∷ []) ≤ 100)
    ↔ ((52 ≤ 100) × (table_end format header ≤ 100) × EndBy format 100 (segment ∷ []))
getmemorysize_least_example = getmemorysize_least format header (segment ∷ []) 100

modifyheaders-Within_example :
    Within format 90 (modifyheaders format 90 headers).phdrs
    × Sectionless format 90 (modifyheaders format 90 headers).ehdr
modifyheaders-Within_example = modifyheaders-Within format 90 headers (omega arith)

truncatezeros_trims_example :
    (s : ℕ) × (truncatezeros file 100 ≡ some (resized s)) × IsTrimmed file 100 s
truncatezeros_trims_example =
    truncatezeros_trims file 100 89 (omega arith) (omega arith) (omega arith) (omega arith)

truncate_within-stuck_example : truncate_within 1000 first_only 3 ≡ none
truncate_within-stuck_example =
    truncate_within-stuck 1000 first_only 3 (omega arith) (omega arith) (omega arith)
      (λ i l u. ground arith)

strip-IsSafe_example :
    (s : ℕ) × (n : ℕ) × (strip file format headers
      ≡ some (stripped s (modifyheaders format n headers)))
    × IsTrimmed file (getmemorysize format headers.ehdr headers.phdrs) n
    × (n ≤ s)
    × ((s ≡ n) ⊎ (s ≡ table_end format headers.ehdr))
    × IsSafe file format headers s
strip-IsSafe_example =
    strip-IsSafe file format headers 89 (rw memory (omega arith)) (omega arith)
      (rw memory (omega arith)) (omega arith)
