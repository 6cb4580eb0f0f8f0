-- ===== src/Sstrip/Zeros/Laws.antt =====
-- What truncatezeros finds.
use dir842v2_gpl.Common.{
  ltb, sym, ℕ, zero, suc, ◌+◌, ◌-◌, ◌≤◌, ◌<◌, ◌≡◌, ◌≢◌, refl, arith, true, false, Bool-cases, inl,
  inr, ◌==◌, ltb, some, ◌∙◌, ap,
}
use dir842v2_gpl.Sstrip.Zeros.{
  File, resized, Scan, scan, finish, window, scan_end, continues, truncate_within, truncatezeros,
}

abbrev pub IsZero : File → ℕ → ℕ → Type 0
IsZero f a b = (i : ℕ) → a ≤ i → i < b → f.at i ≡ 0

-- How the inner loop ends on the n bytes from `start`.
pub data Scanned (f : File) (start n : ℕ) (s : Scan) : Type 0 where
  blank : s.size ≡ start → s.unread ≡ 0 → IsZero f start (start + n) → Scanned f start n s
  stopped :
      s.size ≡ start + suc s.unread
      → s.unread < n
      → f.at (start + s.unread) ≢ 0
      → IsZero f s.size (start + n)
      → Scanned f start n s

extend-IsZero : (f : File) (a b c : ℕ) → IsZero f a b → f.at b ≡ 0 → c ≤ suc b → IsZero f a c
extend-IsZero f a b c z h k i l u = elim (Bool-cases (i == b)) [
  | inl e ↦ let e' : i ≡ b = ground arith in rw e' h
  | inr e ↦ z i l (ground arith)
]

wider :
    (f : File) (start n : ℕ) (s : Scan)
    → f.at (start + n) ≡ 0
    → Scanned f start n s
    → Scanned f start (suc n) s
wider f start n s h (blank e u z) =
    blank e u (extend-IsZero f start (start + n) (start + suc n) z h (omega arith))
wider f start n s h (stopped e l d z) =
    stopped e (omega arith) d (extend-IsZero f s.size (start + n) (start + suc n) z h (omega arith))

scan-step :
    (f : File) (start n : ℕ)
    → f.at (start + n) ≡ 0
    → scan f start (suc n) (start + suc n) ≡ scan f start n (start + n)
unfolding scan
scan-step f start n h = let k : start + suc n - 1 ≡ start + n = omega arith in rw (h, k) refl

scan-Scanned : (f : File) (start n : ℕ) → Scanned f start n (scan f start n (start + n))
unfolding scan
scan-Scanned f start zero = blank (omega arith) refl (λ i l u. omega arith)
scan-Scanned f start (suc n) = elim (Bool-cases (f.at (start + n) == 0)) [
  | inl h ↦
      let z : f.at (start + n) ≡ 0 = ground arith in
      rw (scan-step f start n z)
        (wider f start n (scan f start n (start + n)) z (scan-Scanned f start n))
  | inr h ↦ rw h (stopped refl (omega arith) (ground arith) (λ i l u. omega arith))
]

scan-Scanned_to :
    (f : File) (start n size : ℕ) → start + n ≡ size → Scanned f start n (scan f start n size)
scan-Scanned_to f start n size e = rw (sym e) (scan-Scanned f start n)

pub scan_end-Scanned :
    (f : File) (size : ℕ) → Scanned f (size - window size) (window size) (scan_end f size)
scan_end-Scanned f size = scan-Scanned_to f (size - window size) (window size) size (omega arith)

-- `s` is where the last byte that is not zero ends, among the first `size`.
pub record IsTrimmed (f : File) (size s : ℕ) : Type 0 where
  pub positive : 0 < s
  pub within : s ≤ size
  pub last : f.at (s - 1) ≢ 0
  pub zeros : IsZero f s size

Trims : ℕ → File → ℕ → Type 0
Trims fuel f size = (s : ℕ) × (truncate_within fuel f size ≡ some (resized s)) × IsTrimmed f size s

further :
    (f : File) (size t s : ℕ) → s ≤ size → IsZero f s size → IsTrimmed f s t → IsTrimmed f size t
further f size t s l z h = record {
  positive = h.positive;
  within = omega (arith, h.within);
  last = h.last;
  zeros = λ i a b. elim (Bool-cases (ltb i s)) [
    | inl k ↦ h.zeros i a (ground arith)
    | inr k ↦ z i (ground arith) b
  ];
}

pub step-again :
    (fuel : ℕ) (f : File) (size : ℕ)
    → size ≤ f.length
    → continues (scan_end f size) ≡ true
    → truncate_within (suc fuel) f size ≡ truncate_within fuel f (scan_end f size).size
unfolding truncate_within
step-again fuel f size l h = ground arith

pub step-end :
    (fuel : ℕ) (f : File) (size : ℕ)
    → size ≤ f.length
    → continues (scan_end f size) ≡ false
    → truncate_within (suc fuel) f size ≡ some (finish (scan_end f size).size)
unfolding truncate_within
step-end fuel f size l h = ground arith

resume :
    (fuel : ℕ) (f : File) (size : ℕ)
    → size ≤ f.length
    → continues (scan_end f size) ≡ true
    → (scan_end f size).size ≤ size
    → IsZero f (scan_end f size).size size
    → Trims fuel f (scan_end f size).size
    → Trims (suc fuel) f size
unfolding Trims
resume fuel f size l c le z h =
    (h.0, step-again fuel f size l c ∙ h.1, further f size h.0 (scan_end f size).size le z h.2)

finish-positive : (n : ℕ) → 0 < n → finish n ≡ resized n
finish-positive zero h = absurd (omega (arith, h))
finish-positive (suc n) h = refl

settle :
    (fuel : ℕ) (f : File) (size : ℕ)
    → size ≤ f.length
    → continues (scan_end f size) ≡ false
    → IsTrimmed f size (scan_end f size).size
    → Trims (suc fuel) f size
unfolding Trims
settle fuel f size l c h = (
  (scan_end f size).size,
  step-end fuel f size l c ∙ ap some (finish-positive (scan_end f size).size h.positive),
  h,
)

pub upto : (f : File) {a b c e : ℕ} → IsZero f a b → a ≤ c → e ≤ b → IsZero f c e
upto f z h k i l u = z i (omega arith) (omega arith)

pub beyond : (f : File) (a b k : ℕ) → IsZero f a b → f.at k ≢ 0 → k < b → k < a
beyond f a b k z d h = elim (Bool-cases (ltb k a)) [
  | inl e ↦ ground arith
  | inr e ↦ absurd (d (z k (ground arith) h))
]

truncate_within-Trims :
    (fuel : ℕ) (f : File) (size k : ℕ)
    → size < fuel
    → size ≤ f.length
    → 1 ≤ k
    → k < size
    → f.at k ≢ 0
    → Trims fuel f size
unfolding truncate_within
truncate_within-Trims zero f size k h l p q d = absurd (omega (arith, h))
truncate_within-Trims (suc fuel) f size k h l p q d = elim (scan_end-Scanned f size) [
  | blank e u z ↦
      let z' : IsZero f (scan_end f size).size size = upto f z (omega arith) (omega arith) in
      let r : k < (scan_end f size).size = beyond f (scan_end f size).size size k z' d q in
      resume fuel f size l (ground arith) (omega arith) z'
        (truncate_within-Trims fuel f (scan_end f size).size k (omega arith) (omega arith) p r d)
  | stopped e n b z ↦
      let z' : IsZero f (scan_end f size).size size = upto f z (omega arith) (omega arith) in
      let r : k < (scan_end f size).size = beyond f (scan_end f size).size size k z' d q in
      elim (Bool-cases (continues (scan_end f size))) [
        | inl c ↦
            let u : (scan_end f size).unread ≡ 0 = ground arith in
            resume fuel f size l c (omega arith) z' (
              truncate_within-Trims fuel f (scan_end f size).size k (omega arith) (omega arith) p r
                d)
        | inr c ↦
            let last : f.at ((scan_end f size).size - 1) ≢ 0 =
              let m : (scan_end f size).size - 1 ≡ size - window size + (scan_end f size).unread =
                omega arith in
              rw m b in
            settle fuel f size l c
              (record { positive = omega arith; within = omega arith; last = last; zeros = z' })
      ]
]

-- When the file holds the first `size` bytes and one of them other than the first is not zero,
-- truncatezeros ends, with the size up to the last byte that is not zero.
pub truncatezeros_trims :
    (f : File) (size k : ℕ)
    → size ≤ f.length
    → 1 ≤ k
    → k < size
    → f.at k ≢ 0
    → (s : ℕ) × (truncatezeros f size ≡ some (resized s)) × IsTrimmed f size s
unfolding truncatezeros Trims
truncatezeros_trims f size k l p q d =
    truncate_within-Trims (suc size) f size k (omega arith) l p q d
