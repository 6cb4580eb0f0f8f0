-- ===== src/Config/Calc/Settles.antt =====
-- How programs over the symbols move towards symbols that are all calculated.
use dir842v2_gpl.Common.{
  ℕ, zero, suc, ◌+◌, ◌*◌, ◌≡◌, ◌≢◌, ◌∙◌, ◌<◌, ◌≤◌, refl, arith, Bool, Bool-cases, inl, inr, ◌==◌,
  if◌then◌else◌,
}
use dir842v2_gpl.Config.Types.{SymbolId, Tristate}
use dir842v2_gpl.Config.Calc.State.{Val, Sym, World}

-- What is still to be done for a symbol.
abbrev pub need_weight : Bool → ℕ
need_weight b = if b then 2 else 0

abbrev pub valid_weight : Bool → ℕ
valid_weight b = if b then 0 else 1

abbrev pub weight : Sym → ℕ
weight y = need_weight y.need_set + valid_weight y.valid

pub record Curr : Type 0 where
  pub tri : Tristate
  pub val : Val

abbrev pub curr : Sym → Curr
curr y = record { tri = y.curr_tri; val = y.curr_val }

-- There is never more to do, and a symbol with nothing to do keeps its value, but for `except`.
pub record Settles (except : SymbolId) (w v : World) : Type 0 where
  pub lighter : (x : SymbolId) → weight (v.at x) ≤ weight (w.at x)
  pub kept : (x : SymbolId) → x ≢ except → weight (w.at x) ≡ 0 → curr (v.at x) ≡ curr (w.at x)

pub Settles-self : (e : SymbolId) (w : World) → Settles e w w
Settles-self e w = record { lighter = λ x. omega arith; kept = λ x n h. refl }

pub Settles-trans : (e : SymbolId) (u w v : World) → Settles e u w → Settles e w v → Settles e u v
Settles-trans e u w v p q = record {
  lighter = λ x. let a = p.lighter x in let b = q.lighter x in omega arith;
  kept = λ x n h. let a = p.lighter x in q.kept x n (omega arith) ∙ p.kept x n h;
}

-- A symbol with something to do is no exception.
pub Settles-any :
    (e s : SymbolId) (w v : World) → 0 < weight (w.at s) → Settles s w v → Settles e w v
Settles-any e s w v p q = record {
  lighter = q.lighter;
  kept = λ x n h. elim (Bool-cases (x == s)) [
    | inl b ↦
        let same : x ≡ s = ground arith in
        let more : 0 < weight (w.at x) = rw same p in absurd (omega arith)
    | inr b ↦ q.kept x (λ k. ground arith) h
  ];
}

-- Past the first `n` symbols there is nothing to do.
abbrev pub IsClosed : ℕ → World → Type 0
IsClosed n w = (x : SymbolId) → n ≤ x → weight (w.at x) ≡ 0

unfoldable pub total : ℕ → World → ℕ
total zero w = 0
total (suc n) w = weight (w.at n) + total n w

pub total-lighter : (e : SymbolId) (n : ℕ) (w v : World) → Settles e w v → total n v ≤ total n w
unfolding total
total-lighter e zero w v p = omega arith
total-lighter e (suc n) w v p =
    let a = p.lighter n in let b = total-lighter e n w v p in omega arith

pub total-strict :
    (e : SymbolId) (n : ℕ) (w v : World) (s : SymbolId)
    → Settles e w v
    → s < n
    → weight (v.at s) < weight (w.at s)
    → total n v < total n w
unfolding total
total-strict e zero w v s p b l = omega arith
total-strict e (suc n) w v s p b l = elim (Bool-cases (s == n)) [
  | inl q ↦
      let same : s ≡ n = ground arith in
      let a : weight (v.at n) < weight (w.at n) = rw⁻¹ same l in
      let c = total-lighter e n w v p in omega arith
  | inr q ↦
      let other : s < n = ground arith in
      let a = p.lighter n in let c = total-strict e n w v s p other l in omega arith
]

pub total-bound : (n : ℕ) (w : World) → total n w ≤ 3 * n
unfolding total
total-bound zero w = omega arith
total-bound (suc n) w = let b = total-bound n w in ground arith

pub weight-le-total : (n : ℕ) (w : World) (s : SymbolId) → s < n → weight (w.at s) ≤ total n w
unfolding total
weight-le-total zero w s b = omega arith
weight-le-total (suc n) w s b = elim (Bool-cases (s == n)) [
  | inl q ↦ let same : s ≡ n = ground arith in rw same (omega arith)
  | inr q ↦ let other : s < n = ground arith in let c = weight-le-total n w s other in omega arith
]
