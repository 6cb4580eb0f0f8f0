-- ===== src/Sstrip/Headers.antt =====
-- The ELF header and the program segment header table in package/sstrip/sstrip.c: the checks of
-- readelfheader, getmemorysize, modifyheaders and the size of commitchanges. HEADER_FUNCTIONS
-- makes them for the classes 32 and 64, here one definition over what differs, a `Class`. A record
-- has the fields that the program reads or writes, as the file holds them; the other fields go
-- back to the file as they came. `unsigned long` and `size_t` have 64 bits.
pub mod Size
pub mod Modify
use dir842v2_gpl.Common.{
  ℕ, ◌+◌, ◌-◌, ◌*◌, ◌%◌, ◌^◌, max, Bool, true, false, ◌&&◌, ◌||◌, List, [], ◌∷◌, ltb, leb, ◌==◌,
  if◌then◌else◌,
}
use dir842v2_gpl.Sstrip.Endian.{eget, eset}

-- The sizes of Ehdr and Phdr, and the bytes of an offset in them.
pub record Class : Type 0 where
  pub ehdr_size : ℕ
  pub phdr_size : ℕ
  pub word : ℕ

abbrev pub elf32 : Class
elf32 = record { ehdr_size = 52; phdr_size = 32; word = 4 }

abbrev pub elf64 : Class
elf64 = record { ehdr_size = 64; phdr_size = 56; word = 8 }

pub record Ehdr : Type 0 where
  pub e_type : ℕ
  pub e_phoff : ℕ
  pub e_shoff : ℕ
  pub e_ehsize : ℕ
  pub e_phentsize : ℕ
  pub e_phnum : ℕ
  pub e_shentsize : ℕ
  pub e_shnum : ℕ
  pub e_shstrndx : ℕ

pub record Phdr : Type 0 where
  pub p_type : ℕ
  pub p_offset : ℕ
  pub p_filesz : ℕ

-- do_reverse_endian and the class, which stay as they are while a file is worked on.
pub record Format : Type 0 where
  pub reverse : Bool
  pub class : Class

abbrev pub offset_of : Format → ℕ → ℕ
offset_of k x = eget k.reverse k.class.word x

abbrev pub half : Format → ℕ → ℕ
half k x = eget k.reverse 2 x

abbrev pub ulong : ℕ → ℕ
ulong x = x % 2 ^ 64

-- The tests of readelfheader on the header it has read: the sizes, and ET_EXEC or ET_DYN.
unfoldable pub readelfheader : Format → Ehdr → Bool
readelfheader k h =
    if half k h.e_ehsize == k.class.ehdr_size
    then if half k h.e_phentsize == k.class.phdr_size
      then half k h.e_type == 2 || half k h.e_type == 3
      else false
    else false

-- The test of readphdrtable before it reads.
unfoldable pub has_phdrtable : Format → Ehdr → Bool
has_phdrtable k h = if offset_of k h.e_phoff == 0 || half k h.e_phnum == 0 then false else true

abbrev pub table_end : Format → Ehdr → ℕ
table_end k h = ulong (offset_of k h.e_phoff + half k h.e_phnum * k.class.phdr_size)

abbrev pub segment_end : Format → Phdr → ℕ
segment_end k p = ulong (offset_of k p.p_offset + offset_of k p.p_filesz)

-- An entry of type PT_NULL is passed over.
abbrev pub extend_by : Format → Phdr → ℕ → ℕ
extend_by k p size =
    if eget k.reverse 4 p.p_type == 0
    then size
    else if ltb size (segment_end k p)
    then segment_end k p
    else size

-- The loop of getmemorysize.
unfoldable pub extend : Format → List Phdr → ℕ → ℕ
extend k [] size = size
extend k (p ∷ ps) size = extend k ps (extend_by k p size)

abbrev pub start_size : Format → Ehdr → ℕ
start_size k h = if ltb (table_end k h) k.class.ehdr_size then k.class.ehdr_size else table_end k h

-- `phdrs` has e_phnum entries.
unfoldable pub getmemorysize : Format → Ehdr → List Phdr → ℕ
getmemorysize k h phdrs = extend k phdrs (start_size k h)

-- The first part of modifyheaders.
unfoldable pub clear_sections : Format → Ehdr → ℕ → Ehdr
clear_sections k h newsize =
    if leb newsize (offset_of k h.e_shoff)
    then record h {
      e_shoff = eset k.reverse k.class.word 0;
      e_shnum = eset k.reverse 2 0;
      e_shentsize = eset k.reverse 2 0;
      e_shstrndx = eset k.reverse 2 0;
    }
    else h

-- What modifyheaders does to an entry.
unfoldable pub shrink : Format → ℕ → Phdr → Phdr
shrink k newsize p =
    if leb newsize (offset_of k p.p_offset)
    then record p {
      p_offset = eset k.reverse k.class.word newsize;
      p_filesz = eset k.reverse k.class.word 0;
    }
    else if ltb newsize (segment_end k p)
    then record p { p_filesz = eset k.reverse k.class.word (newsize - offset_of k p.p_offset) }
    else p

unfoldable pub shrink_all : Format → ℕ → List Phdr → List Phdr
shrink_all k newsize [] = []
shrink_all k newsize (p ∷ ps) = shrink k newsize p ∷ shrink_all k newsize ps

pub record Headers : Type 0 where
  pub ehdr : Ehdr
  pub phdrs : List Phdr

unfoldable pub modifyheaders : Format → ℕ → Headers → Headers
modifyheaders k newsize x = record {
  ehdr = clear_sections k x.ehdr newsize;
  phdrs = shrink_all k newsize x.phdrs;
}

-- The size that commitchanges gives to ftruncate.
unfoldable pub committed_size : Format → Ehdr → ℕ → ℕ
committed_size k h newsize = if ltb newsize (table_end k h) then table_end k h else newsize
