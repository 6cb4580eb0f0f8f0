-- ===== src/Sstrip/Endian.antt =====
-- The macros EGET and ESET of package/sstrip/sstrip.c: a field of a header is the number that the
-- program's own byte order reads in it, and `reverse` is do_reverse_endian. The functions bswap_16,
-- bswap_32 and bswap_64 are one, on the number of bytes.
pub mod Laws
use dir842v2_gpl.Common.{
  ℕ, zero, suc, ◌+◌, ◌*◌, ◌/◌, ◌%◌, ◌^◌, Bool, List, [], ◌∷◌, ◌++◌, ◌==◌, if◌then◌else◌, Bytes,
}

-- The bytes of a number, the lowest first.
unfoldable pub bytes_of : ℕ → ℕ → Bytes
bytes_of zero x = []
bytes_of (suc k) x = x % 256 ∷ bytes_of k (x / 256)

unfoldable pub number_of : Bytes → ℕ
number_of [] = 0
number_of (b ∷ bs) = b + 256 * number_of bs

unfoldable pub reversed : Bytes → Bytes
reversed [] = []
reversed (b ∷ bs) = reversed bs ++ (b ∷ [])

unfoldable pub bswap : ℕ → ℕ → ℕ
bswap k x = number_of (reversed (bytes_of k x))

-- A field of k bytes. The macros end the program for widths other than 1, 2, 4 and 8, which no field
-- of a header has.
unfoldable pub eget : Bool → ℕ → ℕ → ℕ
eget reverse k x = if reverse then if k == 1 then x else bswap k x else x

-- What a field of k bytes holds once `x` is assigned to it.
unfoldable pub eset : Bool → ℕ → ℕ → ℕ
eset reverse k x =
    if reverse then if k == 1 then x % 256 ^ k else bswap k (x % 256 ^ k) else x % 256 ^ k
