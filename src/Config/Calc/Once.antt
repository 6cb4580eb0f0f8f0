-- ===== src/Config/Calc/Once.antt =====
-- What one call of sym_calc_value comes to.
use dir842v2_gpl.Common.{
  ◌⊎◌, inl, inr, Bool-cases, ℕ, suc, ◌*◌, ◌≤◌, ◌≡◌, ◌∙◌, sym, ap, refl, arith, true, false, some,
  eq_of_some-eq_some,
}
use mathlib.Core.Path.{subst}
use dir842v2_gpl.Config.Types.{SymbolId}
use dir842v2_gpl.Config.Calc.{sym_calc_value}
use dir842v2_gpl.Config.Calc.State.{Sym, World}
use dir842v2_gpl.Config.Calc.Settles.{weight, curr, Settles, total-bound}
use dir842v2_gpl.Config.Calc.Total.{Calculated, calculated}

-- SYMBOL_VALID is set, and SYMBOL_NEED_SET_CHOICE_VALUES is not.
pub record IsCalculated (y : Sym) : Type 0 where
  pub valid : y.valid ≡ true
  pub no_need : y.need_set ≡ false

-- The symbols are the first `n`.
abbrev pub HasSymbols : ℕ → World → Type 0
HasSymbols n w = (x : SymbolId) → n ≤ x → IsCalculated (w.at x)

pub weight-calculated : (y : Sym) → IsCalculated y → weight y ≡ 0
weight-calculated y c = rw (c.valid, c.no_need) refl

pub IsCalculated-weight : (y : Sym) → weight y ≡ 0 → IsCalculated y
IsCalculated-weight y h = record { valid = ground arith; no_need = ground arith }

-- The fuel that is always enough.
abbrev pub enough : ℕ → ℕ
enough n = suc (3 * n)

run-Calculated :
    (n : ℕ) (e s : SymbolId) (w : World)
    → HasSymbols n w
    → Calculated e s (sym_calc_value (enough n) s) w
run-Calculated n e s w c =
    calculated n (3 * n) e s w (λ x l. weight-calculated (w.at x) (c x l)) (total-bound n w)

-- Whatever the dependencies of the symbols on each other, loops among them included, a call ends,
-- nested no deeper than three times the number of symbols and one, and the symbol that it is for is
-- then calculated, or was to set its choice values. Past the first `n`, all is calculated.
pub sym_calc_value_ends :
    (n : ℕ) (s : SymbolId) (w : World)
    → HasSymbols n w
    → (v : World) × (sym_calc_value (enough n) s w ≡ some (tt, v))
      × (((w.at s).need_set ≡ true) ⊎ IsCalculated (v.at s))
sym_calc_value_ends n s w c =
    let r = run-Calculated n s s w c in
    (
      r.done.after,
      r.done.ends,
      elim (Bool-cases (w.at s).need_set) [
        | inl h ↦ inl h
        | inr h ↦ inr (IsCalculated-weight _ (r.settled h))
      ],
    )

after-eq :
    (n : ℕ) (e s : SymbolId) (w v : World) (c : HasSymbols n w)
    → sym_calc_value (enough n) s w ≡ some (tt, v)
    → (run-Calculated n e s w c).done.after ≡ v
after-eq n e s w v c h =
    let r = run-Calculated n e s w c in
    ap (λ (p : Unit {0} × World). p.1) (eq_of_some-eq_some (sym r.done.ends ∙ h))

-- A symbol that is calculated when a call for any symbol begins is so when the call has ended, with
-- the fuel that is enough, and its value is the same. Past the first `n`, all is calculated.
pub sym_calc_value_keeps :
    (n : ℕ) (s x : SymbolId) (w v : World)
    → HasSymbols n w
    → sym_calc_value (enough n) s w ≡ some (tt, v)
    → IsCalculated (w.at x)
    → IsCalculated (v.at x) × (curr (v.at x) ≡ curr (w.at x))
sym_calc_value_keeps n s x w v c h k =
    let e = suc x in
    let r = run-Calculated n e s w c in
    let settles = subst (Settles e w) (after-eq n e s w v c h) r.done.settles in
    let zero_weight = weight-calculated (w.at x) k in
    let lighter = settles.lighter x in
    (IsCalculated-weight (v.at x) (omega arith), settles.kept x (λ q. ground arith) zero_weight)
