-- ===== src/Makedevs/Names.antt =====
-- The names of the nodes of a line.
use dir842v2_gpl.Common.{
  decimal, decimal_within, ◌≢◌, ◌≤◌, ℕ, zero, suc, ◌+◌, ◌-◌, ◌*◌, ◌/◌, ◌%◌, ◌<◌, ◌≡◌, ◌∙◌, sym, ap,
  refl, arith, Bool-cases, inl, inr, [], ◌∷◌, ◌++◌, ltb, Bytes,
}
use dir842v2_gpl.Makedevs.{node_name}

-- The number that digits stand for, after one that stands for `n`.
read_from : ℕ → Bytes → ℕ
read_from n [] = n
read_from n (c ∷ s) = read_from (n * 10 + (c - b'0')) s

read_from-append :
    (s : Bytes) (n c : ℕ) → read_from n (s ++ (c ∷ [])) ≡ read_from n s * 10 + (c - b'0')
unfolding read_from
read_from-append [] n c = refl
read_from-append (d ∷ s) n c = read_from-append s (n * 10 + (d - b'0')) c

read_from-decimal : (fuel n : ℕ) → n < fuel → read_from 0 (decimal_within fuel n) ≡ n
unfolding read_from decimal_within
read_from-decimal zero n h = absurd (omega (arith, h))
read_from-decimal (suc fuel) n h = elim (Bool-cases (ltb n 10)) [
  | inl e ↦ rw e (omega arith)
  | inr e ↦
      let l : 10 ≤ n = ground arith in
      rw
        (
          e,
          read_from-append (decimal_within fuel (n / 10)) 0 (b'0' + n % 10),
          read_from-decimal fuel (n / 10) (omega arith),
        )
        (omega arith)
]

decimal_inj : (i j : ℕ) → decimal i ≡ decimal j → i ≡ j
unfolding decimal
decimal_inj i j h =
    sym (read_from-decimal (suc i) i (omega arith))
    ∙ ap (read_from 0) h
    ∙ read_from-decimal (suc j) j (omega arith)

append_cancel : (s a b : Bytes) → s ++ a ≡ s ++ b → a ≡ b
append_cancel [] a b h = h
append_cancel (x ∷ s) a b h = append_cancel s a b cc

node_name-numbered :
    (full_name : Bytes) (count i : ℕ)
    → 0 < count
    → node_name full_name count i ≡ full_name ++ decimal i
unfolding node_name
node_name-numbered full_name count i p = ground arith

node_name_inj :
    (full_name : Bytes) (count i j : ℕ)
    → 0 < count
    → node_name full_name count i ≡ node_name full_name count j
    → i ≡ j
node_name_inj full_name count i j p h = decimal_inj i j (
    append_cancel full_name (decimal i) (decimal j)
      (sym (node_name-numbered full_name count i p) ∙ h ∙ node_name-numbered full_name count j p))

-- Two nodes of a line that makes more than one have different names.
pub node_name_distinct :
    (full_name : Bytes) (count i j : ℕ)
    → 0 < count
    → i ≢ j
    → node_name full_name count i ≢ node_name full_name count j
node_name_distinct full_name count i j p n = λ h. n (node_name_inj full_name count i j p h)
