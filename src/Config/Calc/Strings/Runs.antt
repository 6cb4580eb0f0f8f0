-- ===== src/Config/Calc/Strings/Runs.antt =====
-- sym_set_string_value and sym_get_string_default end, with the fuel that is enough for
-- sym_calc_value.
use dir842v2_gpl.Common.{
  ℕ, ◌+◌, ◌*◌, ◌≤◌, ◌<◌, ◌≡◌, refl, arith, Bool, true, false, Bool-cases, inl, inr, List, [], ◌∷◌,
  some, ◌==◌, if◌then◌else◌, Bytes,
}
use dir842v2_gpl.Config.Types.{SymbolId}
use dir842v2_gpl.Config.Calc.{sym_calc_value}
use dir842v2_gpl.Config.Calc.State.{
  Sym, World, M, ◌>>=◌, pure, sym_at, get_modules_sym, count_change, modify, write_sym,
}
use dir842v2_gpl.Config.Calc.Settles.{weight, IsClosed, total-bound}
use dir842v2_gpl.Config.Calc.Ends.{Ends, >>=-some}
use dir842v2_gpl.Config.Calc.Total.{calculated, IsClosed-Settles}
use dir842v2_gpl.Config.Calc.Once.{HasSymbols, enough, weight-calculated, IsCalculated-weight}
use dir842v2_gpl.Config.Calc.Strings.{
  clear_valid, sym_clear_all_valid, store_text, sym_set_string_value,
}
use dir842v2_gpl.Config.Calc.Strings.End.{within-Ends}

-- The symbols of the hash table are among the first `n`.
pub data AllBelow (n : ℕ) : List SymbolId → Type 0 where
  no_symbols : AllBelow n []
  one_below : (x : SymbolId) (xs : List SymbolId) → x < n → AllBelow n xs → AllBelow n (x ∷ xs)

pub record Ran {A : Type 0} (n : ℕ) (p : M A) (w : World) : Type 0 where
  pub value : A
  pub after : World
  pub ends : p w ≡ some (value, after)
  pub closed : IsClosed n after

module _ (n : ℕ) where
  abbrev pub Runs : {A : Type 0} → M A → Type 0
  Runs p = (w : World) → IsClosed n w → Ran n p w

  pub bind-Runs :
      {A B : Type 0} {p : M A} {f : A → M B} → Runs p → ((a : A) → Runs (f a)) → Runs (p >>= f)
  bind-Runs {p} {f} hp hf w c =
      let r = hp w c in
      let q = hf r.value r.after r.closed in
      record {
        value = q.value;
        after = q.after;
        ends = >>=-some p f w r.value r.after r.ends _ q.ends;
        closed = q.closed;
      }

  pub Ends-Runs : {A : Type 0} (p : M A) → Ends n (3 * n) 0 p → Runs p
  Ends-Runs p h w c =
      let d = h w c (total-bound n w) in
      record {
        value = d.value;
        after = d.after;
        ends = d.ends;
        closed = IsClosed-Settles 0 n w d.after d.settles c;
      }

  pub calls : (s : SymbolId) → Ends n (3 * n) 0 (sym_calc_value (enough n) s)
  calls s w c b = (calculated n (3 * n) 0 s w c b).done

  pub pure-Runs : {A : Type 0} (a : A) → Runs (pure a)
  unfolding pure
  pure-Runs a w c = record { value = a; after = w; ends = refl; closed = c }

  pub sym_at-Runs : (s : SymbolId) → Runs (sym_at s)
  unfolding sym_at
  sym_at-Runs s w c = record { value = w.at s; after = w; ends = refl; closed = c }

  modules_sym-Runs : Runs get_modules_sym
  unfolding get_modules_sym
  modules_sym-Runs w c = record { value = w.modules_sym; after = w; ends = refl; closed = c }

  count-Runs : Runs count_change
  unfolding count_change
  count-Runs w c = record {
    value = tt;
    after = record w { changes = w.changes + 1 };
    ends = refl;
    closed = c;
  }

  -- An assignment to one of the symbols, or one that makes none heavier.
  pub modify-Runs :
      (s : SymbolId) (f : Sym → Sym)
      → ((y : Sym) → n ≤ s → weight (f y) ≤ weight y)
      → Runs (modify s f)
  unfolding modify write_sym
  modify-Runs s f l w c = record {
    value = tt;
    after = write_sym s f w;
    ends = refl;
    closed = λ x b. elim (Bool-cases (x == s)) [
      | inl q ↦
          let same : x ≡ s = ground arith in
          let h = c x b in let k = l (w.at x) (ground arith) in rw q (omega arith)
      | inr q ↦ rw q (c x b)
    ];
  }

  clear_valid-Runs :
      (xs : List SymbolId) → AllBelow n xs → Runs (clear_valid (sym_calc_value (enough n)) xs)
  unfolding clear_valid
  clear_valid-Runs [] no_symbols = pure-Runs tt
  clear_valid-Runs (x ∷ xs) (one_below _ _ b bs) =
      bind-Runs (modify-Runs x _ (λ y l. absurd (omega arith))) (λ u. clear_valid-Runs xs bs)

  pub if-Runs : {A : Type 0} (b : Bool) (p q : M A) → Runs p → Runs q → Runs (if b then p else q)
  if-Runs true p q hp hq = hp
  if-Runs false p q hp hq = hq

  module _ (all : List SymbolId) (below : AllBelow n all) where
    pub clear_all-Runs : Runs (sym_clear_all_valid (sym_calc_value (enough n)) all)
    unfolding sym_clear_all_valid
    clear_all-Runs =
        bind-Runs (clear_valid-Runs all below)
          (λ u. bind-Runs count-Runs (λ v. bind-Runs modules_sym-Runs (λ m. Ends-Runs _ (calls m))))

    store-Runs :
        (s : SymbolId) (str : Bytes) → Runs (store_text (sym_calc_value (enough n)) all s str)
    unfolding store_text
    store-Runs s str = bind-Runs (modify-Runs s _ (λ y l. omega arith)) (λ u.
        bind-Runs (sym_at-Runs s) (λ y. if-Runs _ _ _ (pure-Runs true) (
          bind-Runs (modify-Runs s _ (λ z l. omega arith))
            (λ v. bind-Runs clear_all-Runs (λ k. pure-Runs true)))))

    set_string-Runs :
        (s : SymbolId) (str : Bytes)
        → Runs (sym_set_string_value (sym_calc_value (enough n)) all s str)
    unfolding sym_set_string_value
    set_string-Runs s str =
        bind-Runs (Ends-Runs _ (within-Ends n (3 * n) 0 (sym_calc_value (enough n)) calls s str))
          (λ ok. if-Runs ok _ _ (store-Runs s str) (pure-Runs false))

-- Setting a symbol from a string ends, whether the string is accepted or not, though all symbols
-- may have to be calculated again, and past the first `n` all is still calculated. It was so before,
-- and the symbols of the hash table are among the first `n`.
pub sym_set_string_value_ends :
    (n : ℕ) (all : List SymbolId) (s : SymbolId) (str : Bytes) (w : World)
    → HasSymbols n w
    → AllBelow n all
    → (accepted : Bool) × (v : World) × (sym_set_string_value
          (sym_calc_value (enough n))
          all
          s
          str
          w
        ≡ some (accepted, v))
      × HasSymbols n v
sym_set_string_value_ends n all s str w c below =
    let r = set_string-Runs n all below s str w (λ x l. weight-calculated (w.at x) (c x l)) in
    (r.value, r.after, r.ends, λ x l. IsCalculated-weight (r.after.at x) (r.closed x l))
