-- ===== src/Common/Text.antt =====
-- C strings as lists of byte values without the terminating zero, and what the programs use of
-- string.h and ctype.h on them.
use Prim.Native.Char.{code}
use Prim.Native.Nat.{ℕ}
use Prim.Native.String.{String}
use mathlib.Core.Bool.{Bool, true, false, ◌&&◌, ◌||◌}
use mathlib.Core.List.{List, [], ◌∷◌, ◌++◌}
use mathlib.Core.Option.{Option, none, some}
use mathlib.Core.Logic.{◌↔◌, inl, inr}
use mathlib.Core.Path.{◌≡◌, refl, ap}
use native.Mathlib.Omega.{arith}
use dir842v2_gpl.Common.Tests.{leb, ◌==◌, if◌then◌else◌, Bool-cases}

abbrev pub Bytes : Type 0
Bytes = List ℕ

-- The code points of a literal: its bytes, for ASCII.
abbrev pub codes : String → Bytes
codes String.[] = []
codes (String.◌∷◌ c s) = code c ∷ codes s

-- `!strcmp(a, b)`.
unfoldable pub str_eq : Bytes → Bytes → Bool
str_eq [] [] = true
str_eq (x ∷ a) (y ∷ b) = x == y && str_eq a b
str_eq _ _ = false

pub str_eq_iff : (a b : Bytes) → (str_eq a b ≡ true) ↔ (a ≡ b)
unfolding str_eq
str_eq_iff (x ∷ a) (y ∷ b) = ground (arith, str_eq_iff a b)
str_eq_iff _ _ = ground arith

pub str_eq_self : (a : Bytes) → str_eq a a ≡ true
str_eq_self a = (str_eq_iff a a).1 refl

abbrev pub is_digit : ℕ → Bool
is_digit c = leb b'0' c && leb c b'9'

abbrev pub is_space : ℕ → Bool
is_space c = c == b' ' || (leb 9 c && leb c 13)

abbrev pub is_alpha : ℕ → Bool
is_alpha c = (leb b'a' c && leb c b'z') || (leb b'A' c && leb c b'Z')

abbrev pub is_xdigit : ℕ → Bool
is_xdigit c = is_digit c || (leb b'a' c && leb c b'f') || (leb b'A' c && leb c b'F')

abbrev pub is_word : ℕ → Bool
is_word c = is_alpha c || is_digit c || c == b'_'

unfoldable pub all : (ℕ → Bool) → Bytes → Bool
all p [] = true
all p (c ∷ s) = p c && all p s

-- A byte that does not occur.
unfoldable pub lacks : ℕ → Bytes → Bool
lacks b [] = true
lacks b (c ∷ s) = if c == b then false else lacks b s

-- `memcmp(s, p, strlen(p))`, with what stands behind when it is 0.
unfoldable pub strip_prefix : Bytes → Bytes → Option Bytes
strip_prefix [] s = some s
strip_prefix (c ∷ p) [] = none
strip_prefix (c ∷ p) (d ∷ s) = if c == d then strip_prefix p s else none

pub record Split : Type 0 where
  pub before : Bytes
  pub after : Bytes

abbrev pub prepend_split : ℕ → Option Split → Option Split
prepend_split c none = none
prepend_split c (some x) = some (record x { before = c ∷ x.before })

-- `strchr`: what stands before and behind the first such byte.
unfoldable pub split_on : ℕ → Bytes → Option Split
split_on b [] = none
split_on b (c ∷ s) =
    if c == b then some (record { before = []; after = s }) else prepend_split c (split_on b s)

pub all-lacks : (p : ℕ → Bool) (b : ℕ) (s : Bytes) → p b ≡ false → all p s ≡ true → lacks b s ≡ true
unfolding all lacks
all-lacks p b [] n h = refl
all-lacks p b (c ∷ s) n h = elim (Bool-cases (c == b)) [
  | inl e ↦ let q : c ≡ b = ground arith in ground (arith, ap p q)
  | inr e ↦ ground (arith, all-lacks p b s n)
]

pub lacks-append :
    (b : ℕ) (s t : Bytes) → lacks b s ≡ true → lacks b t ≡ true → lacks b (s ++ t) ≡ true
unfolding lacks
lacks-append b [] t h k = k
lacks-append b (c ∷ s) t h k = ground (arith, lacks-append b s t)

pub strip_prefix-append : (p s : Bytes) → strip_prefix p (p ++ s) ≡ some s
unfolding strip_prefix
strip_prefix-append [] s = refl
strip_prefix-append (c ∷ p) s = ground (arith, strip_prefix-append p s)

pub split_on-append :
    (b : ℕ) (s t : Bytes)
    → lacks b s ≡ true
    → split_on b (s ++ (b ∷ t)) ≡ some (record { before = s; after = t })
unfolding split_on lacks
split_on-append b [] t h = ground arith
split_on-append b (c ∷ s) t h = ground (arith, split_on-append b s t)
