-- ===== src/Sstrip/Zeros.antt =====
-- truncatezeros of package/sstrip/sstrip.c. The file is its length and its bytes by offset; a read
-- of n bytes gives them all when they are in the file. Reads that fail for another reason are not
-- modelled.
pub mod Laws
pub mod Ends
use dir842v2_gpl.Common.{
  ℕ, zero, suc, ◌+◌, ◌-◌, ◌*◌, ◌/◌, ◌%◌, ◌^◌, Bool, true, false, ◌&&◌, ◌||◌, ◌==◌, ltb, leb, Option,
  none, some, min, if◌then◌else◌,
}

pub record File : Type 0 where
  pub length : ℕ
  pub at : ℕ → ℕ

pub data Outcome : Type 0 where
  failed : Outcome
  resized : ℕ → Outcome

-- The variables `n` and `size`.
pub record Scan : Type 0 where
  pub unread : ℕ
  pub size : ℕ

-- `while (n && !contents[--n]) --size;`, where `contents` is the file from `start` on.
unfoldable pub scan : File → ℕ → ℕ → ℕ → Scan
scan f start zero size = record { unread = 0; size = size }
scan f start (suc n) size =
    let rest = scan f start n (size - 1) in
    if f.at (start + n) == 0 then rest else record { unread = n; size = size }

-- After the loop.
abbrev pub finish : ℕ → Outcome
finish zero = failed
finish (suc size) = resized (suc size)

abbrev pub window : ℕ → ℕ
window size = min 1024 size

abbrev pub readable : File → ℕ → Bool
readable f size = size == 0 || leb size f.length

abbrev pub scan_end : File → ℕ → Scan
scan_end f size = scan f (size - window size) (window size) size

abbrev pub continues : Scan → Bool
continues s = ltb 0 s.size && s.unread == 0

-- The do loop, for so many rounds.
unfoldable pub truncate_within : ℕ → File → ℕ → Option Outcome
truncate_within zero f size = none
truncate_within (suc fuel) f size =
    let s = scan_end f size in
    let again = truncate_within fuel f s.size in
    if readable f size then if continues s then again else some (finish s.size) else some failed

unfoldable pub truncatezeros : File → ℕ → Option Outcome
truncatezeros f size = truncate_within (suc size) f size
