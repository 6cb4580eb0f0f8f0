-- ===== src/Sstrip/Zeros/Ends.antt =====
-- How truncatezeros ends on zeros only, and that it does not when the first byte alone is not zero.
use dir842v2_gpl.Common.{
  ltb, ℕ, zero, suc, ◌+◌, ◌-◌, ◌≤◌, ◌<◌, ◌≡◌, ◌≢◌, refl, arith, Bool-cases, inl, inr, ltb, none,
  some, ◌∙◌, ap,
}
use dir842v2_gpl.Sstrip.Zeros.{
  File, failed, finish, window, scan_end, continues, truncate_within, truncatezeros,
}
use dir842v2_gpl.Sstrip.Zeros.Laws.{
  IsZero, blank, stopped, scan_end-Scanned, step-again, step-end, beyond, upto,
}

blank-scan :
    (f : File) (size : ℕ)
    → IsZero f 0 size
    → ((scan_end f size).size ≡ size - window size) × ((scan_end f size).unread ≡ 0)
blank-scan f size z = elim (scan_end-Scanned f size) [
  | blank e u y ↦ (e, u)
  | stopped e n b y ↦
      absurd (b (z (size - window size + (scan_end f size).unread) (omega arith) (omega arith)))
]

blank-fails :
    (fuel : ℕ) (f : File) (size : ℕ)
    → size < fuel
    → size ≤ f.length
    → IsZero f 0 size
    → truncate_within fuel f size ≡ some failed
blank-fails zero f size h l z = absurd (omega (arith, h))
blank-fails (suc fuel) f size h l z =
    let b : ((scan_end f size).size ≡ size - window size) × ((scan_end f size).unread ≡ 0) =
      blank-scan f size z in
    elim (Bool-cases (continues (scan_end f size))) [
      | inl c ↦
          step-again fuel f size l c
          ∙ blank-fails fuel f (scan_end f size).size (ground (arith, b.0)) (omega (arith, b.0))
              (λ i a u. z i a (omega (arith, b.0)))
      | inr c ↦
          let e : (scan_end f size).size ≡ 0 = ground (arith, b.1) in
          step-end fuel f size l c ∙ ap (λ (n : ℕ). some (finish n)) e
    ]

-- When the first `size` bytes are all in the file and all zero, truncatezeros ends and fails.
pub truncatezeros-blank :
    (f : File) (size : ℕ) → size ≤ f.length → IsZero f 0 size → truncatezeros f size ≡ some failed
unfolding truncatezeros
truncatezeros-blank f size l z = blank-fails (suc size) f size (omega arith) l z

stuck-scan :
    (f : File) (size : ℕ)
    → 0 < size
    → f.at 0 ≢ 0
    → IsZero f 1 size
    → ((scan_end f size).unread ≡ 0)
      × (0 < (scan_end f size).size)
      × ((scan_end f size).size ≤ size)
stuck-scan f size p d z = elim (scan_end-Scanned f size) [
  | blank e u y ↦
      let r : 0 < (scan_end f size).size =
        beyond f (scan_end f size).size size 0 (upto f y (omega arith) (omega arith)) d p in
      (u, r, omega arith)
  | stopped e n b y ↦ elim (Bool-cases (ltb 0 (size - window size + (scan_end f size).unread))) [
    | inl h ↦
        absurd (b (z (size - window size + (scan_end f size).unread) (ground arith) (omega arith)))
    | inr h ↦ (ground arith, omega arith, omega arith)
  ]
]

-- When only the first of the first `size` bytes is not zero, the loop of truncatezeros does not
-- end, however many rounds it is given.
pub truncate_within-stuck :
    (fuel : ℕ) (f : File) (size : ℕ)
    → 0 < size
    → size ≤ f.length
    → f.at 0 ≢ 0
    → IsZero f 1 size
    → truncate_within fuel f size ≡ none
unfolding truncate_within
truncate_within-stuck zero f size p l d z = refl
truncate_within-stuck (suc fuel) f size p l d z =
    let r = stuck-scan f size p d z in
    step-again fuel f size l (ground (arith, r.0, r.1))
    ∙ truncate_within-stuck fuel f (scan_end f size).size r.1 (omega (arith, r.2)) d
        (upto f z (omega arith) r.2)
