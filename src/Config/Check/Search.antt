-- ===== src/Config/Check/Search.antt =====
-- The walk over the expressions and properties of one symbol.
use dir842v2_gpl.Common.{
  ℕ, ◌≡◌, ◌∙◌, ◌<◌, refl, ap, arith, Bool, true, false, Bool-cases, inl, inr, List, [], ◌∷◌, ◌++◌,
  Option, none, some, if◌then◌else◌,
}
use dir842v2_gpl.Config.Types.{SymbolId, Expr, symbol, not, and, or, comp, list, range}
use dir842v2_gpl.Config.Calc.State.{Property, Sym}
use dir842v2_gpl.Config.Check.{
  unless_found, sym_check_expr_deps, check_opt, check_default, check_prop, check_props,
  is_choice_or_select,
}
use dir842v2_gpl.Config.Check.State.{DepStack, oops, C, ◌>>◌, pure, change, say, pop, on_top}
use dir842v2_gpl.Config.Check.Graph.{
  named, named-append, names, expr_symbols, opt_symbols, has_default, prop_symbols, props_symbols,
  all_expected, IsGrounded, AllGrounded,
}
use dir842v2_gpl.Config.Check.Logic.{
  pure-Returns, change-Returns, Kept-self, Kept-trans, Kept-stack, Kept-IsReady, Solves,
  pure-Solves, weaken-Solves, unless_found-Solves,
}

-- What is named in the first or the second part is below `n`.
abbrev pub AllBelow : ℕ → List SymbolId → Type 0
AllBelow n xs = (y : SymbolId) → named y xs ≡ true → y < n

pub below_left : (n : ℕ) (xs ys : List SymbolId) → AllBelow n (xs ++ ys) → AllBelow n xs
below_left n xs ys h y m = h y (rw (named-append y xs ys, m) refl)

pub below_right : (n : ℕ) (xs ys : List SymbolId) → AllBelow n (xs ++ ys) → AllBelow n ys
below_right n xs ys h y m = h y (ground (arith, named-append y xs ys))

module _ (at : SymbolId → Sym) where
  pub AllGrounded-append :
      (xs ys : List SymbolId) → AllGrounded at xs × AllGrounded at ys → AllGrounded at (xs ++ ys)
  AllGrounded-append xs ys h y m = elim (Bool-cases (named y xs)) [
    | inl e ↦ h.0 y e
    | inr e ↦ h.1 y (ground (arith, named-append y xs ys))
  ]

  pub AllGrounded-one : (s : SymbolId) → IsGrounded at s → AllGrounded at (s ∷ [])
  unfolding named
  AllGrounded-one s h y m = let e : y ≡ s = ground arith in rw e h

  -- A write to the entry on top of the stack.
  module _ (n k : ℕ) where
    pub stack-Solves :
        {Q : Type 0} (f : DepStack → DepStack) (q : C (Option SymbolId))
        → ((x : DepStack) → (f x).sym ≡ x.sym)
        → Solves at n k q Q
        → Solves at n k (do change (λ w. record w { stack = on_top f w.stack }); q) Q
    stack-Solves f q keeps h w ready l =
        let v = record w { stack = on_top f w.stack } in
        let kept = Kept-stack at w w w.stack v.stack (Kept-self at w) in
        let a = h v (Kept-IsReady at w v kept (names-top w.stack) ready) l in
        let p = a.holds in
        change-Returns _ _ w (record {
          value = a.value;
          after = a.after;
          ends = a.ends;
          holds = record {
            kept = Kept-trans at w v a.after kept p.kept;
            names_same = p.names_same ∙ names-top w.stack;
            below = p.below ∙ pop-top w.stack;
            found = p.found;
            quiet = p.quiet;
          };
        })
      where
        names-top : (st : List DepStack) → names (on_top f st) ≡ names st
        names-top [] = refl
        names-top (x ∷ xs) = ap (λ s. s ∷ names xs) (keeps x)

        pop-top : (st : List DepStack) → pop (on_top f st) ≡ pop st
        pop-top [] = refl
        pop-top (x ∷ xs) = refl

    oops-Solves :
        (e : Expr) → Solves at n k (do change (say (oops e)); pure none) (AllGrounded at [])
    unfolding all_expected
    oops-Solves e w ready l =
        let v = say (oops e) w in
        change-Returns _ _ w (
          pure-Returns none v (record {
            kept = record {
              same = λ x. refl;
              checked = λ x h. h;
              together = λ h. h;
              expected = λ h. h;
              more = omega arith;
              finished = λ q h. absurd (omega arith);
            };
            names_same = refl;
            below = refl;
            found = λ s h. cc;
            quiet = λ q h. absurd (omega arith);
          }))

    module _ (check : SymbolId → C (Option SymbolId))
        (solves : (s : SymbolId) → s < n → Solves at n k (check s) (IsGrounded at s)) where
      one-Solves : (s : SymbolId) → s < n → Solves at n k (check s) (AllGrounded at (s ∷ []))
      one-Solves s h = weaken-Solves at n k (check s) (AllGrounded-one s) (solves s h)

      both-Solves :
          (p q : C (Option SymbolId)) (xs ys : List SymbolId)
          → Solves at n k p (AllGrounded at xs)
          → Solves at n k q (AllGrounded at ys)
          → Solves at n k (unless_found p q) (AllGrounded at (xs ++ ys))
      both-Solves p q xs ys h g =
          weaken-Solves at n k (unless_found p q) (AllGrounded-append xs ys)
            (unless_found-Solves at n k p q h g)

      expr-Solves :
          (e : Expr)
          → AllBelow n (expr_symbols e)
          → Solves at n k (sym_check_expr_deps at check e) (AllGrounded at (expr_symbols e))
      unfolding sym_check_expr_deps expr_symbols named
      expr-Solves (symbol s) b = one-Solves s (b s (ground arith))
      expr-Solves (not e) b = expr-Solves e b
      expr-Solves (and l r) b =
          both-Solves _ _ (expr_symbols l) (expr_symbols r)
            (expr-Solves l (below_left n (expr_symbols l) (expr_symbols r) b))
            (expr-Solves r (below_right n (expr_symbols l) (expr_symbols r) b))
      expr-Solves (or l r) b =
          both-Solves _ _ (expr_symbols l) (expr_symbols r)
            (expr-Solves l (below_left n (expr_symbols l) (expr_symbols r) b))
            (expr-Solves r (below_right n (expr_symbols l) (expr_symbols r) b))
      expr-Solves (comp _ s t) b =
          both-Solves _ _ (s ∷ []) (t ∷ []) (one-Solves s (b s (ground arith)))
            (one-Solves t (b t (ground arith)))
      expr-Solves (list xs) b = oops-Solves (list xs)
      expr-Solves (range s t) b = oops-Solves (range s t)

      pub opt-Solves :
          (o : Option Expr)
          → AllBelow n (opt_symbols o)
          → Solves at n k (check_opt at check o) (AllGrounded at (opt_symbols o))
      opt-Solves none b = pure-Solves at n k
      opt-Solves (some e) b = expr-Solves e b

      default-Solves :
          (p : Property)
          → AllBelow n (opt_symbols p.expr)
          → Solves at n k (check_default at check p) (AllGrounded at (opt_symbols p.expr))
      unfolding check_default
      default-Solves p b =
          weaken-Solves at n k (check_default at check p) (λ h. h.0)
            (unless_found-Solves at n k _ _ (stack-Solves _ _ (λ x. refl) (opt-Solves p.expr b))
              (stack-Solves _ _ (λ x. refl) (pure-Solves at n k)))

      then-Solves :
          (b : Bool) (p : C (Option SymbolId)) (xs : List SymbolId)
          → (b ≡ true → Solves at n k p (AllGrounded at xs))
          → Solves at n k (if b then p else pure none) (AllGrounded at (if b then xs else []))
      then-Solves true p xs h = h refl
      then-Solves false p xs h = pure-Solves at n k

      prop-Solves :
          (choice : Bool) (p : Property)
          → AllBelow n (prop_symbols choice p)
          → Solves at n k (check_prop at check choice p) (AllGrounded at (prop_symbols choice p))
      unfolding check_prop
      prop-Solves choice p b =
          let xs = opt_symbols p.condition in
          let ys = if has_default choice p then opt_symbols p.expr else [] in
          let right = below_right n xs ys b in
          stack-Solves _ _ (λ x. refl)
            (both-Solves _ _ xs ys (opt-Solves p.condition (below_left n xs ys b)) (
              then-Solves (has_default choice p) _ (opt_symbols p.expr)
                (λ t. default-Solves p (λ y m. right y (rw t m)))))

      pub props-Solves :
          (choice : Bool) (ps : List Property)
          → AllBelow n (props_symbols choice ps)
          → Solves at n k
              (check_props at check choice ps)
              (AllGrounded at (props_symbols choice ps))
      unfolding check_props props_symbols
      props-Solves choice [] b = pure-Solves at n k
      props-Solves choice (p ∷ ps) b = elim (Bool-cases (is_choice_or_select p)) [
        | inl t ↦ rw t (props-Solves choice ps (λ y m. b y (rw t m)))
        | inr f ↦
            let here = prop_symbols choice p in
            let rest = props_symbols choice ps in
            let b' : AllBelow n (here ++ rest) = λ y m. b y (rw f m) in
            rw f (
              both-Solves _ _ here rest (prop-Solves choice p (below_left n here rest b'))
                (props-Solves choice ps (below_right n here rest b')))
      ]
