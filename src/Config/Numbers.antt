-- ===== src/Config/Numbers.antt =====
-- strtoll and strtoull of the C library, as expr_parse_string uses them: the value as a 64-bit
-- pattern, whether ERANGE is set, whether any digit was read, and what stands behind the number.
use dir842v2_gpl.Common.{
  ℕ, ◌+◌, ◌-◌, ◌*◌, ◌^◌, ◌%◌, Bool, true, false, ◌&&◌, ◌||◌, [], ◌∷◌, ltb, leb, ◌==◌, if◌then◌else◌,
  Bytes, is_digit, is_space, is_xdigit,
}

pub record Number : Type 0 where
  pub pattern : ℕ
  pub range_error : Bool
  pub any_digit : Bool
  pub tail : Bytes

abbrev pub word : ℕ
word = 2 ^ 64

-- A digit's value in bases up to 16; 16 for other bytes.
unfoldable pub digit_value : ℕ → ℕ
digit_value c =
    if is_digit c
    then c - b'0'
    else if leb b'a' c && leb c b'f'
    then c - b'a' + 10
    else if leb b'A' c && leb c b'F'
    then c - b'A' + 10
    else 16

record Digits : Type 0 where
  magnitude : ℕ
  some_digit : Bool
  rest : Bytes

unfoldable digits_from : ℕ → ℕ → Bool → Bytes → Digits
unfolding digit_value
digits_from base acc seen [] = record { magnitude = acc; some_digit = seen; rest = [] }
digits_from base acc seen (c ∷ cs) =
    let more = digits_from base (acc * base + digit_value c) true cs in
    if ltb (digit_value c) base
    then more
    else record { magnitude = acc; some_digit = seen; rest = c ∷ cs }

skip_spaces : Bytes → Bytes
skip_spaces [] = []
skip_spaces (c ∷ cs) = if is_space c then skip_spaces cs else c ∷ cs

-- A base of 0 is read off the prefix: 0x, 0, or none. In base 16 a 0x is skipped.
digits_in : ℕ → Bytes → Digits
unfolding digits_from
digits_in base (z ∷ x ∷ d ∷ cs) =
    if (base == 0 || base == 16) && z == b'0' && (x == b'x' || x == b'X') && is_xdigit d
    then digits_from 16 0 false (d ∷ cs)
    else digits_from (if base == 0 then if z == b'0' then 8 else 10 else base) 0 false
        (z ∷ x ∷ d ∷ cs)
digits_in base (z ∷ cs) =
    digits_from (if base == 0 then if z == b'0' then 8 else 10 else base) 0 false (z ∷ cs)
digits_in base [] = digits_from base 0 false []

-- On no digit nothing is consumed, the sign and the spaces neither. `hi` and `lo` are the largest
-- magnitudes that are in range with and without a minus sign.
number_of : ℕ → ℕ → Bool → Bytes → Digits → Number
number_of hi lo negative all d =
    let bound = if negative then lo else hi in
    let clipped = if leb d.magnitude bound then d.magnitude else bound in
    record {
      pattern = (if negative then word - clipped else clipped) % word;
      range_error = ltb bound d.magnitude;
      any_digit = d.some_digit;
      tail = if d.some_digit then d.rest else all;
    }

signed_number : ℕ → ℕ → ℕ → Bytes → Bytes → Number
unfolding digits_in number_of
signed_number base hi lo all [] = number_of hi lo false all (digits_in base [])
signed_number base hi lo all (c ∷ cs) =
    if c == b'-'
    then number_of hi lo true all (digits_in base cs)
    else if c == b'+'
    then number_of hi lo false all (digits_in base cs)
    else number_of hi lo false all (digits_in base (c ∷ cs))

unfoldable pub strtoll : Bytes → ℕ → Number
unfolding signed_number skip_spaces
strtoll str base = signed_number base (2 ^ 63 - 1) (2 ^ 63) str (skip_spaces str)

-- Past the range, with a sign or without, the result is ULLONG_MAX: see `strtoull`.
unfoldable pub strtoull : Bytes → ℕ → Number
unfolding signed_number skip_spaces
strtoull str base =
    let n = signed_number base (word - 1) (word - 1) str (skip_spaces str) in
    if n.range_error then record n { pattern = word - 1 } else n
