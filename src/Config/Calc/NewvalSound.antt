-- ===== src/Config/Calc/NewvalSound.antt =====
-- What the new value of a bool or tristate symbol is like.
use dir842v2_gpl.Common.{
  ◌⊎◌, ◌≤◌, ◌≡◌, ◌≢◌, sym, refl, arith, Bool, true, false, inl, inr, Option, none, some, ◌==◌, ◌&&◌,
  ◌||◌, if◌then◌else◌, eq_of_some-eq_some,
}
use mathlib.Core.Path.{subst}
use dir842v2_gpl.Config.Types.{Tristate, tri_mod, tri_yes, expr_or, SymbolId, SymbolType, boolean}
use dir842v2_gpl.Config.Calc.State.{
  Sym, World, M, ◌>>=◌, pure, sym_at, get_modules_val, get_type, type_within,
}
use dir842v2_gpl.Config.Calc.Newval.{value_with_selects, calc_tristate}

-- A bind that gave a result.
record Steps {A B : Type 0} (p : M A) (f : A → M B) (w : World) (r : B × World) : Type 0 where
  first : A
  between : World
  begins : p w ≡ some (first, between)
  goes_on : f first between ≡ some r

Steps-of :
    {A B : Type 0} (f : A → M B) (w : World) (r : B × World) (o : Option (A × World)) (p : M A)
    → p w ≡ o
    → (elim o [ none ↦ none | some (a, v) ↦ f a v ]) ≡ some r
    → Steps p f w r
Steps-of f w r none p e h = cc
Steps-of f w r (some (a, v)) p e h = record { first = a; between = v; begins = e; goes_on = h }

>>=-Steps :
    {A B : Type 0} (p : M A) (f : A → M B) (w : World) (r : B × World)
    → (p >>= f) w ≡ some r
    → Steps p f w r
unfolding ◌>>=◌
>>=-Steps p f w r h = Steps-of f w r (p w) p refl h

-- The last test on the new value.
abbrev no_mod : Sym → SymbolType → Tristate → Tristate
no_mod z t n =
    if n == tri_mod && (z.implied == tri_yes || (elim t [ boolean ↦ true | _ ↦ false ]))
    then tri_yes
    else n

no_mod-ge : (z : Sym) (t : SymbolType) (n : Tristate) → n ≤ no_mod z t n
no_mod-ge z t n = ground arith

no_mod-boolean : (z : Sym) (n : Tristate) → no_mod z boolean n ≢ tri_mod
no_mod-boolean z n h = ground arith

no_mod-implied :
    (z : Sym) (t : SymbolType) (n : Tristate) → z.implied ≡ tri_yes → no_mod z t n ≢ tri_mod
no_mod-implied z t n i h = ground arith

ending :
    (s : SymbolId) (n : Tristate) (w : World) (r : Tristate × World)
    → (sym_at s >>= (λ z. get_type s >>= (λ t. pure (no_mod z t n)))) w ≡ some r
    → (no_mod (w.at s) (type_within (w.at s) w.modules_val) n, w) ≡ r
unfolding ◌>>=◌ sym_at get_type get_modules_val pure
ending s n w r h = eq_of_some-eq_some h

selected :
    (s : SymbolId) (n : Tristate) (w : World) (r : Tristate × World)
    → (sym_at s >>= (λ z. pure (expr_or n z.rev_dep))) w ≡ some r
    → (expr_or n (w.at s).rev_dep, w) ≡ r
unfolding ◌>>=◌ sym_at pure
selected s n w r h = eq_of_some-eq_some h

sym_at-step :
    {B : Type 0} (s : SymbolId) (f : Sym → M B) (w : World) (r : B × World)
    → (sym_at s >>= f) w ≡ some r
    → f (w.at s) w ≡ some r
unfolding ◌>>=◌ sym_at
sym_at-step s f w r h = h

if-step :
    {A B : Type 0} (b : Bool) (p q : M A) (f : A → M B) (w : World) (r : B × World)
    → b ≡ false
    → ((if b then p else q) >>= f) w ≡ some r
    → (q >>= f) w ≡ some r
if-step true p q f w r c h = cc
if-step false p q f w r c h = h

no_mod-ne :
    (z : Sym) (t : SymbolType) (n : Tristate)
    → (t ≡ boolean) ⊎ (z.implied ≡ tri_yes)
    → no_mod z t n ≢ tri_mod
no_mod-ne z t n (inl e) =
    subst (λ (k : SymbolType). no_mod z k n ≢ tri_mod) (sym e) (no_mod-boolean z n)
no_mod-ne z t n (inr e) = no_mod-implied z t n e

expr_or-ge : (a b : Tristate) → b ≤ expr_or a b
unfolding expr_or
expr_or-ge a b = ground arith

module _ (calc : SymbolId → M (Unit {0})) (s : SymbolId) where
  selects-ge :
      (y : Sym) (w : World) (r : Tristate × World)
      → value_with_selects calc s y w ≡ some r
      → (r.1.at s).rev_dep ≤ r.0
  unfolding value_with_selects
  selects-ge y w r h =
      let q = >>=-Steps _ _ w r h in
      subst (λ (p : Tristate × World). (p.1.at s).rev_dep ≤ p.0)
        (selected s q.first q.between r q.goes_on) (expr_or-ge q.first (q.between.at s).rev_dep)

  -- What is to be shown of a result.
  abbrev Sound : Tristate × World → Type 0
  Sound p =
      (type_within (p.1.at s) p.1.modules_val ≡ boolean) ⊎ ((p.1.at s).implied ≡ tri_yes)
      → (p.0 ≢ tri_mod) × ((p.1.at s).rev_dep ≤ p.0)

  end-Sound :
      (n : Tristate) (w : World)
      → (w.at s).rev_dep ≤ n
      → Sound (no_mod (w.at s) (type_within (w.at s) w.modules_val) n, w)
  end-Sound n w l k =
      let z = w.at s in
      let m = no_mod-ge z (type_within z w.modules_val) n in
      (no_mod-ne z (type_within z w.modules_val) n k, omega arith)

-- The new value of a symbol that counts as bool, or that a symbol with `y` implies, is not `m`, and
-- it is at least the value of what selects the symbol, if the calculation gives one. The symbol is
-- no choice value that is visible with `y`.
pub calc_tristate_sound :
    (calc : SymbolId → M (Unit {0})) (s : SymbolId) (w v : World) (t : Tristate)
    → ((w.at s).is_choice_value && (w.at s).visible == tri_yes) ≡ false
    → calc_tristate calc s w ≡ some (t, v)
    → (type_within (v.at s) v.modules_val ≡ boolean) ⊎ ((v.at s).implied ≡ tri_yes)
    → (t ≢ tri_mod) × ((v.at s).rev_dep ≤ t)
unfolding calc_tristate
calc_tristate_sound calc s w v t c h k =
    let q =
      >>=-Steps (value_with_selects calc s (w.at s)) _ w (t, v)
        (if-step _ _ _ _ w (t, v) c (sym_at-step s _ w (t, v) h)) in
    subst (Sound calc s) (ending s q.first q.between (t, v) q.goes_on)
      (end-Sound calc s q.first q.between
        (selects-ge calc s (w.at s) w (q.first, q.between) q.begins))
      k
