-- ===== src/Config/Check/All.antt =====
-- The check of every symbol, as conf_parse makes it.
use dir842v2_gpl.Common.{
  ℕ, zero, suc, ◌≡◌, ◌∙◌, ◌≤◌, ◌<◌, refl, arith, Bool, true, false, Bool-cases, ◌⊎◌, inl, inr, List,
  [], ◌∷◌, Option, none, some, ◌==◌, length,
}
use dir842v2_gpl.Config.Types.{SymbolId}
use dir842v2_gpl.Config.Calc.State.{Sym}
use dir842v2_gpl.Config.Check.{sym_check_deps, check_all, no_checks, enough}
use dir842v2_gpl.Config.Check.State.{Checks, ◌>>=◌, pure}
use dir842v2_gpl.Config.Check.Graph.{
  named, all_expected, unchecked, AllGrounded, IsConsistent, IsReady, Kept, IsFinished,
}
use dir842v2_gpl.Config.Check.Logic.{
  Returns, >>=-Returns, pure-Returns, Kept-self, Kept-trans, Kept-IsReady,
}
use dir842v2_gpl.Config.Check.Marks.{Answers}
use dir842v2_gpl.Config.Check.Total.{Goal, deps-Returns}
use dir842v2_gpl.Config.Check.Cycles.{Chain, IsGrounded-no_cycle}

unchecked_bounded : (n : ℕ) (f : SymbolId → Bool) → unchecked n f ≤ n
unfolding unchecked
unchecked_bounded zero f = omega arith
unchecked_bounded (suc n) f = ground (arith, unchecked_bounded n f)

module _ (at : SymbolId → Sym) (n : ℕ) (con : IsConsistent at n) where
  call-Returns :
      (s : SymbolId) (w : Checks)
      → s < n
      → IsReady at w
      → Returns (sym_check_deps at (enough n) s) w (Answers at (Goal at s w) w)
  call-Returns s w low ready =
      let few = unchecked_bounded n w.checked in
      deps-Returns at n con (enough n) s w low ready (ground arith)

  -- For `n` symbols with consistent choices, from any state in which each symbol with SYMBOL_CHECK
  -- is on the stack, itself or its choice, the values of a choice are marked with it and SYMBOL_CHECK
  -- comes with SYMBOL_CHECKED: sym_check_deps ends, the stack and SYMBOL_CHECK are then as before, no
  -- SYMBOL_CHECKED is lost, and the state is again such a one.
  pub sym_check_deps_restores :
      (s : SymbolId) (w : Checks)
      → s < n
      → IsReady at w
      → (r : Option SymbolId) × (v : Checks) × (sym_check_deps at (enough n) s w ≡ some (r, v))
        × (v.stack ≡ w.stack)
        × ((x : SymbolId) → v.check x ≡ w.check x)
        × ((x : SymbolId) → (w.checked x ≡ false) ⊎ (v.checked x ≡ true))
        × IsReady at v
  sym_check_deps_restores s w low ready =
      let a = call-Returns s w low ready in
      let p = a.holds.post in
      (
        a.value,
        a.after,
        a.ends,
        a.holds.stack,
        p.kept.same,
        λ x. elim (Bool-cases (w.checked x)) [ inl h ↦ inr (p.kept.checked x h) | inr h ↦ inl h ],
        Kept-IsReady at w a.after p.kept p.names_same ready,
      )

  abbrev AllBelow : List SymbolId → Type 0
  AllBelow xs = (s : SymbolId) → named s xs ≡ true → s < n

  record Through (xs : List SymbolId) (w v : Checks) : Type 0 where
    kept : Kept at w v
    stack : v.stack ≡ w.stack
    quiet : length v.reports ≡ length w.reports → IsFinished at w → AllGrounded at xs

  all-Returns :
      (xs : List SymbolId) (w : Checks)
      → AllBelow xs
      → IsReady at w
      → Returns (check_all at (enough n) xs) w (λ _ v. Through xs w v)
  unfolding check_all named
  all-Returns [] w b ready =
      pure-Returns 0 w (record { kept = Kept-self at w; stack = refl; quiet = λ e fin y m. cc })
  all-Returns (s ∷ xs) w b ready =
      >>=-Returns (sym_check_deps at (enough n) s) _ (call-Returns s w (b s (ground arith)) ready)
        (λ r v a. rest r v a (
          all-Returns xs v (λ y m. b y (ground arith))
            (Kept-IsReady at w v a.post.kept a.post.names_same ready)))
    where
      both :
          (r : Option SymbolId) (v u : Checks)
          → Answers at (Goal at s w) w r v
          → Through xs v u
          → Through (s ∷ xs) w u
      both r v u a t =
          let early = a.post.kept.more in
          let late = t.kept.more in
          record {
            kept = Kept-trans at w v u a.post.kept t.kept;
            stack = t.stack ∙ a.stack;
            quiet = λ e fin y m. elim (Bool-cases (y == s)) [
              | inl h ↦
                  let q : y ≡ s = ground arith in
                  let g = a.post.quiet (omega arith) fin in rw q g.grounded
              | inr h ↦
                  t.quiet (omega arith) (a.post.kept.finished (omega arith) fin) y (ground arith)
            ];
          }

      rest :
          (r : Option SymbolId) (v : Checks)
          → Answers at (Goal at s w) w r v
          → Returns (check_all at (enough n) xs) v (λ _ u. Through xs v u)
          → Returns
              (do
                errors ← check_all at (enough n) xs
                pure (elim r [ none ↦ errors | some _ ↦ suc errors ]))
              v
              (λ _ u. Through (s ∷ xs) w u)
      rest r v a h =
          >>=-Returns (check_all at (enough n) xs) _ h
            (λ errors u t. pure-Returns _ u (both r v u a t))

  no_checks-IsReady : IsReady at no_checks
  no_checks-IsReady = record {
    on_stack = λ x h. cc;
    marked = λ x h. h;
    together = λ v c value e. refl;
  }

  -- For `n` symbols with consistent choices, with 2 n + 2 as fuel and no flag set at first, the check
  -- of any of the symbols in any order ends. Then the stack is empty and no symbol has SYMBOL_CHECK,
  -- and at no time was "unexpected recursive dependency error" printed.
  pub check_all_ends :
      (xs : List SymbolId)
      → ((s : SymbolId) → named s xs ≡ true → s < n)
      → (errors : ℕ) × (v : Checks) × (check_all at (enough n) xs no_checks ≡ some (errors, v))
        × (v.stack ≡ [])
        × ((x : SymbolId) → v.check x ≡ false)
        × (all_expected v.reports ≡ true)
  unfolding all_expected
  check_all_ends xs b =
      let a = all-Returns xs no_checks b no_checks-IsReady in
      let t = a.holds in (a.value, a.after, a.ends, t.stack, t.kept.same, t.kept.expected refl)

  -- For `n` symbols with consistent choices: when the check of some of them from no flags set has
  -- printed nothing, none of these depends on itself, through others or not, nor on a symbol that
  -- does. What a symbol depends on is what its reverse dependency, the conditions of its
  -- properties and, but for a choice, its defaults name, `select` and `choice` properties apart.
  pub check_all_sound :
      (xs : List SymbolId) (errors : ℕ) (v : Checks)
      → ((s : SymbolId) → named s xs ≡ true → s < n)
      → check_all at (enough n) xs no_checks ≡ some (errors, v)
      → v.reports ≡ []
      → (s t : SymbolId) → named s xs ≡ true
      → (t ≡ s) ⊎ Chain at s t
      → ¬ Chain at t t
  check_all_sound xs errors v b e empty s t m reached =
      let a = all-Returns xs no_checks b no_checks-IsReady in
      let same : a.after ≡ v = cc (e, a.ends) in
      let silent : length a.after.reports ≡ 0 = rw (same, empty) refl in
      IsGrounded-no_cycle at s t (a.holds.quiet silent (λ x c f. cc) s m) reached
