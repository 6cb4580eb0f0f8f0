-- ===== src/Config/Check/Group.antt =====
-- The check of a choice, with its values, given what the inner calls do.
use dir842v2_gpl.Common.{
  ℕ, suc, ◌≡◌, ◌∙◌, ◌≤◌, ◌<◌, refl, ap, arith, Bool, true, false, Bool-cases, inl, inr, List, [],
  ◌∷◌, Option, none, some, ◌==◌, ◌||◌, length,
}
use dir842v2_gpl.Config.Types.{SymbolId}
use dir842v2_gpl.Config.Calc.State.{Sym, choice_of}
use dir842v2_gpl.Config.Check.{
  unless_found, sym_check_sym_deps, check_values, choice_found, check_group,
}
use dir842v2_gpl.Config.Check.State.{
  Checks, C, ◌>>=◌, ◌>>◌, pure, change, push, pop, dep_stack_insert, dep_stack_remove, put_flag,
  put_flags, mark, clear, mark_values, unmark_values,
}
use dir842v2_gpl.Config.Check.Graph.{
  named, put_flags-named, names, unchecked, unchecked-lt, IsGrounded, AllGrounded, IsConsistent,
  IsReady, IsFinished, IsTogether,
}
use dir842v2_gpl.Config.Check.Logic.{
  Returns, >>=-Returns, pure-Returns, change-Returns, Kept-stack, Post, Solves, second, later,
}
use dir842v2_gpl.Config.Check.Marks.{
  Answers, push-IsReady, mark_values-IsFinished, unmark_values-Kept,
}
use dir842v2_gpl.Config.Check.Symbols.{sym_deps-Returns, values-Solves}

module _ (at : SymbolId → Sym) where
  found_some :
      (c s : SymbolId) (r : Option SymbolId)
      → choice_found at c r ≡ some s
      → (t : SymbolId) × (r ≡ some t)
  unfolding choice_found
  found_some c s none h = absurd (cc)
  found_some c s (some t) h = (t, refl)

  -- Less is being checked.
  fewer-IsReady :
      (w : Checks) (f : SymbolId → Bool)
      → ((x : SymbolId) → f x ≡ true → w.check x ≡ true)
      → IsReady at w
      → IsReady at (record w { check = f })
  fewer-IsReady w f h r = record {
    on_stack = λ x m. r.on_stack x (h x m);
    marked = λ x m. r.marked x (h x m);
    together = r.together;
  }

module _ (at : SymbolId → Sym) (n k : ℕ) (con : IsConsistent at n)
    (check : SymbolId → C (Option SymbolId))
    (solves : (s : SymbolId) → s < n → Solves at n k (check s) (IsGrounded at s)) (c : SymbolId)
    (w : Checks) (low : c < n) (ready : IsReady at w) (new : w.checked c ≡ false)
    (plain : (at c).is_choice_value ≡ false) (xs : List SymbolId)
    (value_of : (v : SymbolId)
      → named v xs ≡ true
      → (v < n) × ((at v).is_choice_value ≡ true) × (choice_of (at v) ≡ some c))
    (member : (v : SymbolId)
      → (at v).is_choice_value ≡ true
      → choice_of (at v) ≡ some c
      → named v xs ≡ true) where
  -- The values marked with the choice on the stack, and then the choice.
  abbrev with_values : Checks
  with_values = mark_values xs (push c w)

  abbrev marked : Checks
  marked = mark c (mark_values xs (push c w))

  not_value : named c xs ≡ false
  not_value = elim (Bool-cases (named c xs)) [
    | inl m ↦ let (_, a, _) = value_of c m in cc
    | inr m ↦ m
  ]

  value_unmarked : (v : SymbolId) → named v xs ≡ true → w.check v ≡ false
  value_unmarked v m =
      let (_, a, e) = value_of v m in
      let old = ready.together v c a e in let b = ready.marked v in ground arith

  choice_unmarked : (x : SymbolId) → (x == c || false) ≡ true → with_values.check x ≡ false
  choice_unmarked x m =
      let q : x ≡ c = ground arith in
      let a = put_flags-named xs true w.check c in
      let b = ready.marked c in let out = not_value in rw q (ground arith)

  marked-IsTogether : IsTogether at marked
  marked-IsTogether v d value e =
      let (d', e', _, _, flat, _) = con.choice v value in
      let same : d ≡ d' = cc in
      let a = put_flags-named xs true w.checked v in
      let b = put_flags-named xs true w.checked d in
      let old = ready.together v d value e in
      elim (Bool-cases (d == c)) [
        | inl t ↦
            let q : d ≡ c = ground arith in let m = member v value (e ∙ ap some q) in ground arith
        | inr f ↦
            let out : named v xs ≡ false = elim (Bool-cases (named v xs)) [
              | inl m ↦ let (_, _, g) = value_of v m in let q : d ≡ c = cc in absurd (ground arith)
              | inr m ↦ m
            ] in
            let out' : named d xs ≡ false = elim (Bool-cases (named d xs)) [
              | inl m ↦ let (_, g, _) = value_of d m in cc
              | inr m ↦ m
            ] in
            let other : (v == c) ≡ false = elim (Bool-cases (v == c)) [
              | inl m ↦ let q : v ≡ c = ground arith in cc
              | inr m ↦ m
            ] in
            ground arith
      ]

  marked-IsReady : IsReady at marked
  unfolding named
  marked-IsReady = record {
    on_stack = λ x h. elim (Bool-cases (x == c)) [
      | inl t ↦ let q : x ≡ c = ground arith in rw (q, plain) (ground arith)
      | inr f ↦ elim (Bool-cases (named x xs)) [
        | inl m ↦ let (_, g, e) = value_of x m in rw (g, e) (ground arith)
        | inr m ↦
            let a = put_flags-named xs true w.check x in
            let old = ready.on_stack x (ground arith) in ground arith
      ]
    ];
    marked = λ x h.
        let a = put_flags-named xs true w.checked x in
        let b = put_flags-named xs true w.check x in let old = ready.marked x in ground arith;
    together = marked-IsTogether;
  }

  -- The choice itself.
  abbrev own_part : C (Option SymbolId)
  own_part = do r ← sym_check_sym_deps at check c; change (clear c); pure r

  own-Returns :
      unchecked n marked.checked ≤ k
      → Returns own_part marked (λ r d.
        Post at (IsGrounded at c) with_values r d × IsReady at d × (unchecked n d.checked ≤ k))
  unfolding named put_flags
  own-Returns l =
      >>=-Returns (sym_check_sym_deps at check c) _
        (sym_deps-Returns at n k con check solves c marked low
          (push-IsReady at c marked marked-IsReady) l)
        (λ r v p. change-Returns (clear c) _ v (pure-Returns r (clear c v) (cleared r v p)))
    where
      cleared :
          (r : Option SymbolId) (v : Checks)
          → Answers at (IsGrounded at c) marked r v
          → Post at (IsGrounded at c) with_values r (clear c v)
            × IsReady at (clear c v)
            × (unchecked n v.checked ≤ k)
      cleared r v p =
          let post = p.post in
          let (ready', l') = later at n k marked v r marked-IsReady l post in
          let grounded =
            λ (e : length v.reports ≡ length w.reports) (fin : IsFinished at with_values).
              post.quiet e (mark_values-IsFinished at (c ∷ []) with_values fin) in
          (
            record {
              kept =
                  unmark_values-Kept at (c ∷ []) with_values v post.kept choice_unmarked
                    (λ _. post.kept.together marked-IsTogether)
                    (λ e fin x m. let q : x ≡ c = ground arith in rw q (grounded e fin));
              names_same = post.names_same;
              below = post.below;
              found = post.found;
              quiet = grounded;
            },
            fewer-IsReady at v (put_flag c false v.check) (λ x h. ground arith) ready',
            l',
          )

  abbrev Goal : Type 0
  Goal = IsGrounded at c × AllGrounded at xs

  left :
      (r : Option SymbolId) (v : Checks)
      → Post at Goal with_values r v
      → IsReady at v
      → Answers at Goal w
          (choice_found at c r)
          (record (unmark_values xs v) { stack = pop v.stack })
  left r v p ready' = record {
    post = record {
      kept = Kept-stack at (push c w) (unmark_values xs v) w.stack (pop v.stack) (
          unmark_values-Kept at xs (push c w) v p.kept value_unmarked (λ _. ready'.together)
            (λ e fin. (p.quiet e (mark_values-IsFinished at xs (push c w) fin)).1));
      names_same = ap names p.below;
      below = ap pop p.below;
      found = λ s e. let (t, q) = found_some at c s r e in p.found t q;
      quiet = λ e fin. p.quiet e (mark_values-IsFinished at xs (push c w) fin);
    };
    stack = p.below;
  }

  pub group-Returns :
      unchecked n w.checked ≤ suc k → Returns (check_group at check c xs) w (Answers at Goal w)
  unfolding check_group unless_found dep_stack_insert dep_stack_remove
  group-Returns l =
      let fewer = unchecked-lt n w.checked marked.checked c grown low new (ground arith) in
      change-Returns (push c) _ w (
        change-Returns (mark_values xs) _ (push c w) (
          change-Returns (mark c) _ with_values (
            >>=-Returns _ _
              (>>=-Returns own_part _ (own-Returns (omega arith)) (λ r d h.
                second at n k (check_values at check xs) with_values d r h.1 h.2
                  (values-Solves at n k con check solves xs (λ v m. (value_of v m).0)) h.0))
              (λ r v h.
                change-Returns (unmark_values xs) _ v (
                  change-Returns _ _ (unmark_values xs v) (pure-Returns _ _ (left r v h.0 h.1)))))))
    where
      grown : (x : SymbolId) → w.checked x ≡ true → marked.checked x ≡ true
      grown x h = let a = put_flags-named xs true w.checked x in ground arith
