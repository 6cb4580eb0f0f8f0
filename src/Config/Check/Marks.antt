-- ===== src/Config/Check/Marks.antt =====
-- Marking symbols, the stack, and the lines that sym_check_print_recursive prints.
use dir842v2_gpl.Common.{
  ◌+◌, ◌≡◌, ◌≤◌, refl, ap, arith, true, false, Bool-cases, inl, inr, List, [], ◌∷◌, Option, some,
  ◌==◌, if◌then◌else◌, length,
}
use dir842v2_gpl.Config.Types.{SymbolId}
use dir842v2_gpl.Config.Calc.State.{Sym, choice_of}
use dir842v2_gpl.Config.Check.State.{
  detected, DepStack, Report, Checks, C, ◌>>=◌, ◌>>◌, pure, change, push, pop, dep_stack_insert,
  dep_stack_remove, mark_values, unmark_values,
}
use dir842v2_gpl.Config.Check.Messages.{
  print_from, print_pushed, frames_from, frame_report, frame_reports, sym_check_print_recursive,
}
use dir842v2_gpl.Config.Check.Graph.{
  named, put_flags-named, names, is_expected, all_expected, AllGrounded, IsReady, Kept, IsFinished,
  IsTogether,
}
use dir842v2_gpl.Config.Check.Logic.{
  Returns, >>=-Returns, pure-Returns, change-Returns, Kept-stack, Post,
}

pub frames_from-named :
    (x : SymbolId) (st above : List DepStack)
    → named x (names st) ≡ true
    → (f : DepStack) × (fs : List DepStack) × (frames_from x above st ≡ some (f ∷ fs))
unfolding frames_from named
frames_from-named x [] above h = absurd (cc)
frames_from-named x (g ∷ st) above h = elim (Bool-cases (g.sym == x)) [
  | inl e ↦ (g, above, rw e refl)
  | inr e ↦ rw e (frames_from-named x st (g ∷ above) (ground arith))
]

module _ (at : SymbolId → Sym) where
  frame_report-expected : (f : DepStack) (s : SymbolId) → is_expected (frame_report at f s) ≡ true
  unfolding frame_report
  frame_report-expected f s = ground arith

  pub frame_reports-expected :
      (last : SymbolId) (fs : List DepStack) (rs : List Report)
      → all_expected rs ≡ true
      → all_expected (frame_reports at last fs rs) ≡ true
  unfolding frame_reports all_expected
  frame_reports-expected last [] rs h = h
  frame_reports-expected last (f ∷ fs) rs h =
      frame_reports-expected last fs _
        (ground (arith, frame_report-expected f (elim fs [ [] ↦ last | g ∷ _ ↦ g.sym ])))

  pub frame_reports-length :
      (last : SymbolId) (fs : List DepStack) (rs : List Report)
      → length rs + length fs ≤ length (frame_reports at last fs rs)
  unfolding frame_reports
  frame_reports-length last [] rs = omega arith
  frame_reports-length last (f ∷ fs) rs =
      let next : SymbolId = elim fs [ [] ↦ last | g ∷ _ ↦ g.sym ] in
      let seen : List Report = if f.sym == last then detected last ∷ rs else rs in
      let a = frame_reports-length last fs (frame_report at f next ∷ seen) in
      let b : length rs ≤ length seen = ground arith in omega arith

  -- What holds after a part of the check that leaves the stack as it was.
  pub record Answers (Q : Type 0) (w : Checks) (r : Option SymbolId) (v : Checks) : Type 0 where
    pub post : Post at Q w r v
    pub stack : v.stack ≡ w.stack

  pub push-IsReady : (s : SymbolId) (w : Checks) → IsReady at w → IsReady at (push s w)
  unfolding named
  push-IsReady s w r = record {
    on_stack = λ x h. let a = r.on_stack x h in ground arith;
    marked = r.marked;
    together = r.together;
  }

  -- A part of the check with an entry of its own on the stack.
  pub bracket-Returns :
      {Q : Type 0} (s : SymbolId) (p : C (Option SymbolId)) (w : Checks)
      → Returns p (push s w) (Post at Q (push s w))
      → Returns (do dep_stack_insert s; r ← p; dep_stack_remove; pure r) w (Answers Q w)
  unfolding dep_stack_insert dep_stack_remove
  bracket-Returns {Q} s p w h =
      change-Returns (push s) _ w (>>=-Returns p _ h (λ r v post. popped r v post))
    where
      finish :
          (r : Option SymbolId) (v : Checks)
          → Post at Q (push s w) r v
          → Answers Q w r (record v { stack = pop v.stack })
      finish r v p = record {
        post = record {
          kept = Kept-stack at (push s w) v w.stack (pop v.stack) p.kept;
          names_same = ap names p.below;
          below = ap pop p.below;
          found = p.found;
          quiet = p.quiet;
        };
        stack = p.below;
      }

      popped :
          (r : Option SymbolId) (v : Checks)
          → Post at Q (push s w) r v
          → Returns
              (do change (λ (u : Checks). record u { stack = pop u.stack }); pure r)
              v
              (Answers Q w)
      popped r v post =
          change-Returns _ _ v (pure-Returns r (record v { stack = pop v.stack }) (finish r v post))

  pub mark_values-IsFinished :
      (xs : List SymbolId) (w : Checks) → IsFinished at w → IsFinished at (mark_values xs w)
  mark_values-IsFinished xs w h x c n =
      let a = put_flags-named xs true w.checked x in
      let b = put_flags-named xs true w.check x in h x (ground arith) (ground arith)

  -- Symbols that were not marked are marked for a part of the check, and have no cycle then.
  pub unmark_values-Kept :
      (xs : List SymbolId) (w v : Checks)
      → Kept at (mark_values xs w) v
      → ((x : SymbolId) → named x xs ≡ true → w.check x ≡ false)
      → (IsTogether at w → IsTogether at v)
      → (length v.reports ≡ length w.reports → IsFinished at w → AllGrounded at xs)
      → Kept at w (unmark_values xs v)
  unmark_values-Kept xs w v k clean together grounded = record {
    same = λ x.
        let a = put_flags-named xs true w.check x in
        let b = put_flags-named xs false v.check x in let c = k.same x in ground (arith, clean x);
    checked = λ x h. let a = put_flags-named xs true w.checked x in k.checked x (ground arith);
    together = together;
    expected = k.expected;
    more = k.more;
    finished = λ e fin x c n. elim (Bool-cases (named x xs)) [
      | inl m ↦ grounded e fin x m
      | inr m ↦
          let b = put_flags-named xs false v.check x in
          k.finished e (mark_values-IsFinished xs w fin) x c (ground arith)
    ];
  }

  -- The message about a symbol that is being checked.
  pub print-Answers :
      {Q : Type 0} (s : SymbolId) (w : Checks)
      → IsReady at w
      → w.check s ≡ true
      → ((v : SymbolId)
          → (at v).is_choice_value ≡ true
          → (c : SymbolId) × (choice_of (at v) ≡ some c))
      → Returns (do sym_check_print_recursive at s; pure (some s)) w (Answers Q w)
  unfolding sym_check_print_recursive named
  print-Answers {Q} s w r h owned = elim (Bool-cases (at s).is_choice_value) [
    | inl value ↦
        let (c, e) = owned s value in
        let on : named c (names w.stack) ≡ true = rw (value, e) at (r.on_stack s h) in
        let (f, fs, found) = frames_from-named c (push s w).stack [] (ground arith) in
        ended (said c f fs)
          (rw (value, e) (ap (λ o. some (tt, print_pushed at c (push s w) o)) found))
    | inr plain ↦
        let on : named s (names w.stack) ≡ true = rw plain at (r.on_stack s h) in
        let (f, fs, found) = frames_from-named s w.stack [] on in
        ended (said s f fs) (rw plain (ap (λ o. some (tt, print_from at s o w)) found))
  ]
    where
      spoken : SymbolId → DepStack → List DepStack → Checks
      spoken last f fs = record w { reports = frame_reports at last (f ∷ fs) w.reports }

      said :
          (last : SymbolId) (f : DepStack) (fs : List DepStack)
          → Answers Q w (some s) (spoken last f fs)
      said last f fs =
          let grown = frame_reports-length last (f ∷ fs) w.reports in
          record {
            post = record {
              kept = record {
                same = λ x. refl;
                checked = λ x m. m;
                together = λ m. m;
                expected = frame_reports-expected last (f ∷ fs) w.reports;
                more = omega arith;
                finished = λ q m. absurd (omega arith);
              };
              names_same = refl;
              below = refl;
              found = λ t m. omega arith;
              quiet = λ q m. absurd (omega arith);
            };
            stack = refl;
          }

      ended :
          {v : Checks}
          → Answers Q w (some s) v
          → sym_check_print_recursive at s w ≡ some (tt, v)
          → Returns (do sym_check_print_recursive at s; pure (some s)) w (Answers Q w)
      ended {v} a e =
          >>=-Returns (sym_check_print_recursive at s) _ {P = λ _ u. u ≡ v}
            (record { value = tt; after = v; ends = e; holds = refl })
            (λ _ u q. rw q (pure-Returns (some s) v a))
