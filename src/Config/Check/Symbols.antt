-- ===== src/Config/Check/Symbols.antt =====
-- The check of a symbol, of a choice with its values and of a value, given what the inner calls do.
use mathlib.Core.WellFounded.{Acc}
use dir842v2_gpl.Common.{
  suc, ℕ, ◌≡◌, ◌≤◌, ◌<◌, arith, true, false, Bool-cases, inl, inr, List, [], ◌∷◌, ◌++◌, Option,
  ◌==◌,
}
use dir842v2_gpl.Config.Types.{SymbolId}
use dir842v2_gpl.Config.Calc.State.{Sym}
use dir842v2_gpl.Config.Check.{
  unless_found, check_opt, check_props, sym_check_sym_deps, check_values, check_symbol,
}
use dir842v2_gpl.Config.Check.State.{Checks, C, ◌>>◌, pure, change, push, put_flags, mark, clear}
use dir842v2_gpl.Config.Check.Graph.{
  named, unchecked, unchecked-lt, opt_symbols, props_symbols, symbols_of, IsGrounded, AllGrounded,
  IsConsistent, IsReady, IsTogether,
}
use dir842v2_gpl.Config.Check.Logic.{
  Returns, >>=-Returns, pure-Returns, change-Returns, Post-weaken, Solves, pure-Solves,
  unless_found-Solves, weaken-Solves,
}
use dir842v2_gpl.Config.Check.Search.{
  opt-Solves, props-Solves, AllGrounded-append, AllGrounded-one, below_left, below_right,
}
use dir842v2_gpl.Config.Check.Marks.{
  Answers, push-IsReady, bracket-Returns, mark_values-IsFinished, unmark_values-Kept,
}

module _ (at : SymbolId → Sym) (n k : ℕ) (con : IsConsistent at n)
    (check : SymbolId → C (Option SymbolId))
    (solves : (s : SymbolId) → s < n → Solves at n k (check s) (IsGrounded at s)) where
  pub sym_deps-Returns :
      (s : SymbolId) (w : Checks)
      → s < n
      → IsReady at (push s w)
      → unchecked n w.checked ≤ k
      → Returns (sym_check_sym_deps at check s) w (Answers at (IsGrounded at s) w)
  unfolding sym_check_sym_deps symbols_of
  sym_deps-Returns s w h ready l = bracket-Returns at s both w (
      weaken-Solves at n k both grounded
        (unless_found-Solves at n k _ _
          (opt-Solves at n k check solves (at s).rev_expr (below_left n first rest below))
          (props-Solves at n k check solves (at s).is_choice (at s).props
            (below_right n first rest below)))
        (push s w) ready l)
    where
      both : C (Option SymbolId)
      both =
          unless_found (check_opt at check (at s).rev_expr)
            (check_props at check (at s).is_choice (at s).props)

      first : List SymbolId
      first = opt_symbols (at s).rev_expr

      rest : List SymbolId
      rest = props_symbols (at s).is_choice (at s).props

      below : (y : SymbolId) → named y (first ++ rest) ≡ true → y < n
      below y m = con.mentions s y h m

      grounded : AllGrounded at first × AllGrounded at rest → IsGrounded at s
      grounded g = Acc.intro s (AllGrounded-append at first rest g)

  pub values-Solves :
      (xs : List SymbolId)
      → ((v : SymbolId) → named v xs ≡ true → v < n)
      → Solves at n k (check_values at check xs) (AllGrounded at xs)
  unfolding check_values named
  values-Solves [] b = pure-Solves at n k
  values-Solves (v ∷ xs) b =
      weaken-Solves at n k _ (AllGrounded-append at (v ∷ []) xs)
        (unless_found-Solves at n k _ _ first (values-Solves xs (λ y m. b y (ground arith))))
    where
      first : Solves at n k (sym_check_sym_deps at check v) (AllGrounded at (v ∷ []))
      first w ready l =
          let a = sym_deps-Returns v w (b v (ground arith)) (push-IsReady at v w ready) l in
          record {
            value = a.value;
            after = a.after;
            ends = a.ends;
            holds = Post-weaken at w a.value a.after (AllGrounded-one at v) a.holds.post;
          }

  -- A symbol that is neither a choice nor a value of one.
  module _ (s : SymbolId) (w : Checks) (low : s < n) (ready : IsReady at w)
      (new : w.checked s ≡ false) where
    unmarked : w.check s ≡ false
    unmarked = let a = ready.marked s in ground arith

    module _ (plain : (at s).is_choice_value ≡ false) (single : (at s).is_choice ≡ false) where
      mark-IsTogether : IsTogether at (mark s w)
      mark-IsTogether v c value e =
          let (d, e', _, choice, _, _) = con.choice v value in
          let same : c ≡ d = cc in
          let other : (v == s) ≡ false = elim (Bool-cases (v == s)) [
            | inl b ↦ let q : v ≡ s = ground arith in cc
            | inr b ↦ b
          ] in
          let other' : (c == s) ≡ false = elim (Bool-cases (c == s)) [
            | inl b ↦ let q : c ≡ s = ground arith in cc
            | inr b ↦ b
          ] in
          rw (other, other') (ready.together v c value e)

      mark-IsReady : IsReady at (push s (mark s w))
      unfolding named
      mark-IsReady = record {
        on_stack = λ x h. elim (Bool-cases (x == s)) [
          | inl b ↦ let q : x ≡ s = ground arith in rw (q, plain) (ground arith)
          | inr b ↦ let a = ready.on_stack x (rw b at h) in ground arith
        ];
        marked = λ x h. let a = ready.marked x in ground arith;
        together = mark-IsTogether;
      }

      pub symbol-Returns :
          unchecked n w.checked ≤ suc k
          → Returns (check_symbol at check s) w (Answers at (IsGrounded at s) w)
      unfolding check_symbol put_flags named
      symbol-Returns l =
          let a = mark s w in
          let fewer =
            unchecked-lt n w.checked a.checked s (λ x h. ground arith) low new (ground arith) in
          let r = sym_deps-Returns s a low mark-IsReady (omega arith) in
          change-Returns (mark s) _ w (>>=-Returns (sym_check_sym_deps at check s) _ r cleared)
        where
          finish :
              (r : Option SymbolId) (v : Checks)
              → Answers at (IsGrounded at s) (mark s w) r v
              → Answers at (IsGrounded at s) w r (clear s v)
          finish r v p = record {
            post = record {
              kept =
                  unmark_values-Kept at (s ∷ []) w v p.post.kept
                    (λ x m. let q : x ≡ s = ground arith in rw q unmarked)
                    (λ t. p.post.kept.together mark-IsTogether)
                    (λ e fin x m.
                      let q : x ≡ s = ground arith in
                      rw q (p.post.quiet e (mark_values-IsFinished at (s ∷ []) w fin)));
              names_same = p.post.names_same;
              below = p.post.below;
              found = p.post.found;
              quiet = λ e fin. p.post.quiet e (mark_values-IsFinished at (s ∷ []) w fin);
            };
            stack = p.stack;
          }

          cleared :
              (r : Option SymbolId) (v : Checks)
              → Answers at (IsGrounded at s) (mark s w) r v
              → Returns (do change (clear s); pure r) v (Answers at (IsGrounded at s) w)
          cleared r v p = change-Returns (clear s) _ v (pure-Returns r (clear s v) (finish r v p))
