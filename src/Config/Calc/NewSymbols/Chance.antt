-- ===== src/Config/Calc/NewSymbols/Chance.antt =====
-- The percentages of conf_set_all_new_symbols.
use mathlib.Core.Path.{subst}
use dir842v2_gpl.Common.{
  ℕ, zero, suc, ◌+◌, ◌≤◌, ◌≡◌, refl, arith, Bool-cases, inl, inr, List, [], ◌∷◌, Option, none, some,
  ltb, leb, Bytes, eq_of_some-eq_some,
}
use dir842v2_gpl.Config.Numbers.{strtoll}
use dir842v2_gpl.Config.Calc.NewSymbols.{
  Chances, after_colon, add_chance, read_chances, chances_of, chances_from, checked, probabilities,
}

data AllPercent : List ℕ → Type 0 where
  no_numbers : AllPercent []
  one_percent : (p : ℕ) (ps : List ℕ) → p ≤ 100 → AllPercent ps → AllPercent (p ∷ ps)

add_chance-AllPercent :
    (p : ℕ) (o : Option (List ℕ)) (qs : List ℕ)
    → ((ps : List ℕ) → o ≡ some ps → AllPercent ps)
    → add_chance p o ≡ some qs
    → AllPercent qs
unfolding add_chance
add_chance-AllPercent p none qs f h = elim (Bool-cases (leb p 100)) [
  | inl l ↦ absurd (ground arith)
  | inr l ↦ absurd (ground arith)
]
add_chance-AllPercent p (some ps) qs f h = elim (Bool-cases (leb p 100)) [
  | inl l ↦
      subst AllPercent (eq_of_some-eq_some (ground arith))
        (one_percent p ps (ground arith) (f ps refl))
  | inr l ↦ absurd (ground arith)
]

read_chances-AllPercent :
    (n : ℕ) (env : Bytes) (ps : List ℕ) → read_chances n env ≡ some ps → AllPercent ps
unfolding read_chances
read_chances-AllPercent zero env ps h = subst AllPercent (eq_of_some-eq_some h) no_numbers
read_chances-AllPercent (suc n) [] ps h = subst AllPercent (eq_of_some-eq_some h) no_numbers
read_chances-AllPercent (suc n) (c ∷ env) ps h =
    add_chance-AllPercent _ (read_chances n (after_colon (strtoll (c ∷ env) 10).tail)) ps
      (λ qs g. read_chances-AllPercent n _ qs g) h

checked_bound : (p q : Chances) → checked p ≡ some q → (p ≡ q) × (p.yes + p.mods ≤ 100)
checked_bound p q h = elim (Bool-cases (ltb 100 (p.yes + p.mods))) [
  | inl l ↦ absurd (ground arith)
  | inr l ↦ (eq_of_some-eq_some (ground arith), ground arith)
]

chances-bool :
    (ps : List ℕ)
    → AllPercent ps
    → (chances_of ps).yes + (chances_of ps).mods ≤ 100
    → (chances_of ps).bool_yes ≤ 100
chances-bool [] a h = omega arith
chances-bool (x ∷ []) (one_percent _ _ l _) h = l
chances-bool (x ∷ y ∷ []) a h = h
chances-bool (x ∷ y ∷ z ∷ ps) (one_percent _ _ l _) h = l

bounded :
    (ps : List ℕ) (q : Chances)
    → AllPercent ps
    → checked (chances_of ps) ≡ some q
    → (q.bool_yes ≤ 100) × (q.yes + q.mods ≤ 100)
bounded ps q a h =
    let (e, l) = checked_bound (chances_of ps) q h in
    (
      subst (λ (c : Chances). c.bool_yes ≤ 100) e (chances-bool ps a l),
      subst (λ (c : Chances). c.yes + c.mods ≤ 100) e l,
    )

from_bounded :
    (o : Option (List ℕ)) (q : Chances)
    → ((ps : List ℕ) → o ≡ some ps → AllPercent ps)
    → chances_from o ≡ some q
    → (q.bool_yes ≤ 100) × (q.yes + q.mods ≤ 100)
from_bounded none q f h = cc
from_bounded (some ps) q f h = bounded ps q (f ps refl) h

-- Whatever KCONFIG_PROBABILITY holds, if the program does not exit, a bool symbol is set to `y` with
-- at most 100 percent, and a tristate symbol to `y` or `m` with at most 100 percent together.
pub probabilities_bounded :
    (env : Option Bytes) (q : Chances)
    → probabilities env ≡ some q
    → (q.bool_yes ≤ 100) × (q.yes + q.mods ≤ 100)
unfolding probabilities
probabilities_bounded none q h = bounded [] q no_numbers h
probabilities_bounded (some env) q h =
    from_bounded (read_chances 3 env) q (read_chances-AllPercent 3 env) h
