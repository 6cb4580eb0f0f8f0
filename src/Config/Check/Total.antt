-- ===== src/Config/Check/Total.antt =====
-- Twice the number of symbols and two is enough fuel, and what a call leaves behind.
use dir842v2_gpl.Common.{
  ℕ, zero, suc, ◌+◌, ◌-◌, ◌*◌, ◌≡◌, ◌∙◌, ◌≤◌, ◌<◌, refl, sym, arith, Bool, true, false, Bool-cases,
  inl, inr, Option, none, some, if◌then◌else◌,
}
use dir842v2_gpl.Config.Types.{SymbolId}
use dir842v2_gpl.Config.Calc.State.{Sym, choice_of, choice_values}
use dir842v2_gpl.Config.Check.{
  check_value_of, forget, sym_check_choice_deps, check_value, check_symbol, check_unchecked,
  check_body, sym_check_deps,
}
use dir842v2_gpl.Config.Check.State.{Checks, C, ◌>>=◌, pure, push, put_flag}
use dir842v2_gpl.Config.Check.Graph.{
  named, unchecked, unchecked-lt, IsGrounded, AllGrounded, IsConsistent, IsReady,
}
use dir842v2_gpl.Config.Check.Logic.{
  Returns, >>=-Returns, pure-Returns, Kept-self, Post-weaken, Solves,
}
use dir842v2_gpl.Config.Check.Marks.{Answers, print-Answers, push-IsReady, bracket-Returns}
use dir842v2_gpl.Config.Check.Symbols.{symbol-Returns}
use dir842v2_gpl.Config.Check.Group.{group-Returns}

unchecked_pos :
    (n : ℕ) (f : SymbolId → Bool) (s : SymbolId) → s < n → f s ≡ false → 0 < unchecked n f
unchecked_pos n f s l h =
    let a = unchecked-lt n f (put_flag s true f) s (λ x m. ground arith) l h (ground arith) in
    omega arith

module _ (at : SymbolId → Sym) where
  -- With a choice that is new, its values have no cycle either.
  pub record Goal (s : SymbolId) (w : Checks) : Type 0 where
    pub grounded : IsGrounded at s
    pub values :
        w.checked s ≡ false
        → (at s).is_choice ≡ true
        → (at s).is_choice_value ≡ false
        → AllGrounded at (choice_values (at s))

  abbrev pub need : SymbolId → Checks → ℕ → ℕ
  need s w n = 2 * unchecked n w.checked + (if (at s).is_choice_value then 2 else 1)

  weaken-Answers :
      {Q R : Type 0} {w : Checks} (p : C (Option SymbolId))
      → (Q → R)
      → Returns p w (Answers at Q w)
      → Returns p w (Answers at R w)
  weaken-Answers {w} p f h = record {
    value = h.value;
    after = h.after;
    ends = h.ends;
    holds = record {
      post = Post-weaken at w h.value h.after f h.holds.post;
      stack = h.holds.stack;
    };
  }

  forget-Returns :
      {Q : Type 0} (s : SymbolId) (p : C (Option SymbolId)) (w : Checks)
      → Returns p w (Answers at Q w)
      → Returns (do r ← p; pure (forget s r)) w (Answers at Q w)
  forget-Returns {Q} s p w h =
      >>=-Returns p _ h (λ r v a. pure-Returns (forget s r) v (forgets r v a))
    where
      some_of :
          (r : Option SymbolId) (t : SymbolId) → forget s r ≡ some t → (u : SymbolId) × (r ≡ some u)
      some_of none t e = absurd (cc)
      some_of (some u) t e = (u, refl)

      forgets :
          (r : Option SymbolId) (v : Checks) → Answers at Q w r v → Answers at Q w (forget s r) v
      forgets r v a = record {
        post = record {
          kept = a.post.kept;
          names_same = a.post.names_same;
          below = a.post.below;
          found = λ t e. let (u, q) = some_of r t e in a.post.found u q;
          quiet = a.post.quiet;
        };
        stack = a.stack;
      }

  module _ (n : ℕ) (con : IsConsistent at n) where
    abbrev Solved : ℕ → Type 0
    Solved fuel =
        (s : SymbolId) (w : Checks)
        → s < n
        → IsReady at w
        → need s w n ≤ fuel
        → Returns (sym_check_deps at fuel s) w (Answers at (Goal s w) w)

    module _ (fuel : ℕ) (inner : Solved fuel) (s : SymbolId) (w : Checks) (low : s < n)
        (ready : IsReady at w) (new : w.checked s ≡ false) where
      abbrev k : ℕ
      k = unchecked n w.checked - 1

      solves :
          2 * unchecked n w.checked ≤ fuel
          → (t : SymbolId) → t < n
          → Solves at n k (sym_check_deps at fuel t) (IsGrounded at t)
      solves l t h v r m =
          let pos = unchecked_pos n w.checked s low new in
          let a = inner t v h r (ground arith) in
          record {
            value = a.value;
            after = a.after;
            ends = a.ends;
            holds = Post-weaken at v a.value a.after (λ g. g.grounded) a.holds.post;
          }

      plain-Returns :
          2 * unchecked n w.checked ≤ fuel
          → (at s).is_choice_value ≡ false
          → (at s).is_choice ≡ false
          → Returns (check_symbol at (sym_check_deps at fuel) s) w (Answers at (Goal s w) w)
      plain-Returns l plain single =
          weaken-Answers (check_symbol at (sym_check_deps at fuel) s)
            (λ g. record { grounded = g; values = λ _ e _. cc })
            (symbol-Returns at n k con (sym_check_deps at fuel) (solves l) s w low ready new plain
              single (omega arith))

      choice-Returns :
          2 * unchecked n w.checked ≤ fuel
          → (at s).is_choice_value ≡ false
          → (at s).is_choice ≡ true
          → Returns
              (sym_check_choice_deps at (sym_check_deps at fuel) s)
              w
              (Answers at (Goal s w) w)
      unfolding sym_check_choice_deps
      choice-Returns l plain choice =
          weaken-Answers _ (λ g. record { grounded = g.0; values = λ _ _ _. g.1 })
            (group-Returns at n k con (sym_check_deps at fuel) (solves l) s w low ready new plain
              (choice_values (at s)) (λ v m. con.value s v low choice m) member (omega arith))
        where
          member :
              (v : SymbolId)
              → (at v).is_choice_value ≡ true
              → choice_of (at v) ≡ some s
              → named v (choice_values (at s)) ≡ true
          member v value e =
              let (d, e', _, _, _, m) = con.choice v value in let q : d ≡ s = cc in rw q at m

      value-Returns :
          2 * unchecked n w.checked + 1 ≤ fuel
          → (at s).is_choice_value ≡ true
          → Returns (check_value at (sym_check_deps at fuel) s) w (Answers at (Goal s w) w)
      unfolding check_value check_value_of
      value-Returns l value =
          let (c, e, low', choice, plain, m) = con.choice s value in
          let a = inner c (push s w) low' (push-IsReady at s w ready) (rw plain l) in
          let untouched = sym (ready.together s c value e) ∙ new in
          rw e (
            bracket-Returns at s (sym_check_deps at fuel c) w (record {
              value = a.value;
              after = a.after;
              ends = a.ends;
              holds =
                  Post-weaken at (push s w) a.value a.after
                    (λ g. record {
                      grounded = g.values untouched choice plain s m;
                      values = λ _ _ f. cc;
                    })
                    a.holds.post;
            }))

      unchecked-Returns :
          need s w n ≤ suc fuel
          → Returns (check_unchecked at (sym_check_deps at fuel) s) w (Answers at (Goal s w) w)
      unfolding check_unchecked
      unchecked-Returns l = elim (Bool-cases (at s).is_choice_value) [
        | inl v ↦ rw v (
            forget-Returns s (check_value at (sym_check_deps at fuel) s) w
              (value-Returns (ground arith) v))
        | inr p ↦ elim (Bool-cases (at s).is_choice) [
          | inl c ↦
              rw (p, c)
                (forget-Returns s (sym_check_choice_deps at (sym_check_deps at fuel) s) w
                  (choice-Returns (ground arith) p c))
          | inr o ↦
              rw (p, o)
                (forget-Returns s (check_symbol at (sym_check_deps at fuel) s) w
                  (plain-Returns (ground arith) p o))
        ]
      ]

    checked-Answers :
        (s : SymbolId) (w : Checks)
        → w.check s ≡ false
        → w.checked s ≡ true
        → Answers at (Goal s w) w none w
    checked-Answers s w free old = record {
      post = record {
        kept = Kept-self at w;
        names_same = refl;
        below = refl;
        found = λ t e. cc;
        quiet = λ e fin. record { grounded = fin s old free; values = λ n _ _. cc };
      };
      stack = refl;
    }

    -- From a state that is ready the check ends.
    pub deps-Returns : (fuel : ℕ) → Solved fuel
    unfolding sym_check_deps check_body
    deps-Returns zero s w low ready l = absurd (ground arith)
    deps-Returns (suc fuel) s w low ready l = elim (Bool-cases (w.check s)) [
      | inl on ↦ opened (rw (on, check_body) refl) (
          print-Answers at s w ready on
            (λ v value. let (c, e, _, _, _, _) = con.choice v value in (c, e)))
      | inr off ↦ elim (Bool-cases (w.checked s)) [
        | inl old ↦
            opened (rw (off, old, check_body) refl)
              (pure-Returns none w (checked-Answers s w off old))
        | inr new ↦
            opened (rw (off, new, check_body) refl)
              (unchecked-Returns fuel (deps-Returns fuel) s w low ready new l)
      ]
    ]
      where
        opened :
            {q : C (Option SymbolId)}
            → sym_check_deps at (suc fuel) s w ≡ q w
            → Returns q w (Answers at (Goal s w) w)
            → Returns (sym_check_deps at (suc fuel) s) w (Answers at (Goal s w) w)
        opened e a = record { value = a.value; after = a.after; ends = e ∙ a.ends; holds = a.holds }
