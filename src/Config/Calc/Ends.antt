-- ===== src/Config/Calc/Ends.antt =====
-- Programs over the symbols that end, and what they do when they have ended.
use dir842v2_gpl.Common.{
  none, ℕ, ◌≡◌, ◌≢◌, ◌∙◌, ◌≤◌, sym, ap, refl, arith, Bool, true, false, Bool-cases, inl, inr,
  Option, some, ◌==◌, if◌then◌else◌,
}
use dir842v2_gpl.Config.Types.{SymbolId, Tristate}
use dir842v2_gpl.Config.Calc.State.{
  Sym, World, M, ◌>>=◌, pure, sym_at, get_modules_val, get_modules_sym, set_modules_val, write_sym,
  modify, when, get_type, type_within,
}
use dir842v2_gpl.Config.Calc.Settles.{
  weight, curr, Settles, Settles-self, Settles-trans, IsClosed, total, total-lighter,
}

-- A program that has little to do ends, and settles.
pub record Done {A : Type 0} (e : SymbolId) (p : M A) (w : World) : Type 0 where
  pub value : A
  pub after : World
  pub ends : p w ≡ some (value, after)
  pub settles : Settles e w after

pub >>=-some :
    {A B : Type 0} (p : M A) (f : A → M B) (w : World) (a : A) (v : World)
    → p w ≡ some (a, v)
    → (r : Option (B × World)) → f a v ≡ r
    → (p >>= f) w ≡ r
unfolding ◌>>=◌
>>=-some p f w a v h r k = rw (◌>>=◌, h) k

pub write-Settles :
    (e s : SymbolId) (f : Sym → Sym) (w : World)
    → weight (f (w.at s)) ≤ weight (w.at s)
    → (s ≢ e → weight (w.at s) ≡ 0 → curr (f (w.at s)) ≡ curr (w.at s))
    → Settles e w (write_sym s f w)
unfolding write_sym
write-Settles e s f w l k = record {
  lighter = λ x. elim (Bool-cases (x == s)) [
    | inl b ↦ let same : x ≡ s = ground arith in rw (b, same) l
    | inr b ↦ rw b (omega arith)
  ];
  kept = λ x n h. elim (Bool-cases (x == s)) [
    | inl b ↦
        let same : x ≡ s = ground arith in
        rw (b, same) (k (λ g. n (same ∙ g)) (ap (λ (y : SymbolId). weight (w.at y)) (sym same) ∙ h))
    | inr b ↦ rw b refl
  ];
}

module _ (n m : ℕ) (e : SymbolId) where
  abbrev pub Ends : {A : Type 0} → M A → Type 0
  Ends p = (w : World) → IsClosed n w → total n w ≤ m → Done e p w

  pub pure-Ends : {A : Type 0} (a : A) → Ends (pure a)
  unfolding pure
  pure-Ends a w c b = record { value = a; after = w; ends = refl; settles = Settles-self e w }

  pub >>=-Ends :
      {A B : Type 0} (p : M A) (f : A → M B) → Ends p → ((a : A) → Ends (f a)) → Ends (p >>= f)
  unfolding ◌>>=◌
  >>=-Ends p f hp hf w c b =
      let d = hp w c b in
      let closed : IsClosed n d.after =
        (λ x l. let h = c x l in let k = d.settles.lighter x in omega arith) in
      let bound : total n d.after ≤ m =
        (let k = total-lighter e n w d.after d.settles in omega arith) in
      let g = hf d.value d.after closed bound in
      record {
        value = g.value;
        after = g.after;
        ends = >>=-some p f w d.value d.after d.ends _ g.ends;
        settles = Settles-trans e w d.after g.after d.settles g.settles;
      }

  pub bind-Ends :
      {A B : Type 0} {p : M A} {f : A → M B} → Ends p → ((a : A) → Ends (f a)) → Ends (p >>= f)
  bind-Ends {p} {f} hp hf = >>=-Ends p f hp hf

  pub sym_at-Ends : (s : SymbolId) → Ends (sym_at s)
  unfolding sym_at
  sym_at-Ends s w c b = record {
    value = w.at s;
    after = w;
    ends = refl;
    settles = Settles-self e w;
  }

  pub modules_val-Ends : Ends get_modules_val
  unfolding get_modules_val
  modules_val-Ends w c b = record {
    value = w.modules_val;
    after = w;
    ends = refl;
    settles = Settles-self e w;
  }

  pub modules_sym-Ends : Ends get_modules_sym
  unfolding get_modules_sym
  modules_sym-Ends w c b = record {
    value = w.modules_sym;
    after = w;
    ends = refl;
    settles = Settles-self e w;
  }

  pub set_modules_val-Ends : (t : Tristate) → Ends (set_modules_val t)
  unfolding set_modules_val
  set_modules_val-Ends t w c b = record {
    value = tt;
    after = record w { modules_val = t };
    ends = refl;
    settles = record { lighter = λ x. omega arith; kept = λ x n h. refl };
  }

  -- An assignment that makes no symbol heavier and leaves the value alone.
  pub modify-Ends :
      (s : SymbolId) (f : Sym → Sym)
      → ((y : Sym) → weight (f y) ≤ weight y)
      → ((y : Sym) → curr (f y) ≡ curr y)
      → Ends (modify s f)
  unfolding modify
  modify-Ends s f l k w c b = record {
    value = tt;
    after = write_sym s f w;
    ends = refl;
    settles = write-Settles e s f w (l (w.at s)) (λ n h. k (w.at s));
  }

  -- An assignment to the exception.
  pub modify_except-Ends :
      (f : Sym → Sym) → ((y : Sym) → weight (f y) ≤ weight y) → Ends (modify e f)
  unfolding modify
  modify_except-Ends f l w c b = record {
    value = tt;
    after = write_sym e f w;
    ends = refl;
    settles = write-Settles e e f w (l (w.at e)) (λ n h. absurd (n refl));
  }

  pub if-Ends : {A : Type 0} (b : Bool) (p q : M A) → Ends p → Ends q → Ends (if b then p else q)
  if-Ends true p q hp hq = hp
  if-Ends false p q hp hq = hq

  pub option-Ends :
      {A B : Type 0} (o : Option A) (p : M B) (f : A → M B)
      → Ends p
      → ((a : A) → Ends (f a))
      → Ends (elim o [ none ↦ p | some a ↦ f a ])
  option-Ends none p f hp hf = hp
  option-Ends (some a) p f hp hf = hf a

  pub when-Ends : (b : Bool) (p : M (Unit {0})) → Ends p → Ends (when b p)
  unfolding when
  when-Ends b p h = if-Ends b p (pure tt) h (pure-Ends tt)

  pub get_type-Ends : (s : SymbolId) → Ends (get_type s)
  unfolding get_type
  get_type-Ends s =
      bind-Ends (sym_at-Ends s) (λ y. bind-Ends modules_val-Ends (λ m. pure-Ends (type_within y m)))
