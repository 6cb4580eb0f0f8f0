-- ===== src/Config/Check/Logic.antt =====
-- Programs of the check that have enough fuel: they end, and what they leave behind.
use dir842v2_gpl.Common.{
  ℕ, ◌≡◌, ◌∙◌, ◌≤◌, ◌<◌, refl, sym, arith, List, [], Option, none, some, length,
}
use dir842v2_gpl.Config.Types.{SymbolId}
use dir842v2_gpl.Config.Calc.State.{Sym}
use dir842v2_gpl.Config.Check.{unless_found}
use dir842v2_gpl.Config.Check.State.{DepStack, Checks, C, ◌>>=◌, ◌>>◌, pure, change, pop}
use dir842v2_gpl.Config.Check.Graph.{
  named, names, unchecked, unchecked-le, AllGrounded, IsReady, Kept, IsFinished,
}

-- A program that ends, and what holds of its result.
pub record Returns {A : Type 0} (p : C A) (w : Checks) (P : A → Checks → Type 0) : Type 0 where
  pub value : A
  pub after : Checks
  pub ends : p w ≡ some (value, after)
  pub holds : P value after

module _ {A B : Type 0} (p : C A) (f : A → C B) {w : Checks} where
  pub >>=-Returns :
      {P : A → Checks → Type 0} {Q : B → Checks → Type 0}
      → Returns p w P
      → ((a : A) (v : Checks) → P a v → Returns (f a) v Q)
      → Returns (p >>= f) w Q
  unfolding ◌>>=◌
  >>=-Returns h k =
      let r = k h.value h.after h.holds in
      record { value = r.value; after = r.after; ends = rw (h.ends, ◌>>=◌) r.ends; holds = r.holds }

pub pure-Returns :
    {A : Type 0} {P : A → Checks → Type 0} (a : A) (w : Checks) → P a w → Returns (pure a) w P
unfolding pure
pure-Returns a w h = record { value = a; after = w; ends = refl; holds = h }

pub change-Returns :
    {B : Type 0} {P : B → Checks → Type 0} (f : Checks → Checks) (q : C B) (w : Checks)
    → Returns q (f w) P
    → Returns (do change f; q) w P
unfolding change ◌>>=◌
change-Returns f q w h = record { value = h.value; after = h.after; ends = h.ends; holds = h.holds }

module _ (at : SymbolId → Sym) where
  pub Kept-self : (w : Checks) → Kept at w w
  Kept-self w = record {
    same = λ x. refl;
    checked = λ x h. h;
    together = λ h. h;
    expected = λ h. h;
    more = omega arith;
    finished = λ e h. h;
  }

  pub Kept-trans : (u w v : Checks) → Kept at u w → Kept at w v → Kept at u v
  Kept-trans u w v p q = record {
    same = λ x. q.same x ∙ p.same x;
    checked = λ x h. q.checked x (p.checked x h);
    together = λ h. q.together (p.together h);
    expected = λ h. q.expected (p.expected h);
    more = let a = p.more in let b = q.more in omega arith;
    finished = λ e h.
        let a = p.more in let b = q.more in q.finished (omega arith) (p.finished (omega arith) h);
  }

  -- The stack is not looked at.
  pub Kept-stack :
      (w v : Checks) (s t : List DepStack)
      → Kept at w v
      → Kept at (record w { stack = s }) (record v { stack = t })
  Kept-stack w v s t k = record {
    same = k.same;
    checked = k.checked;
    together = k.together;
    expected = k.expected;
    more = k.more;
    finished = k.finished;
  }

  pub Kept-IsReady :
      (w v : Checks) → Kept at w v → names v.stack ≡ names w.stack → IsReady at w → IsReady at v
  Kept-IsReady w v k e r = record {
    on_stack = λ x h. rw e (r.on_stack x (sym (k.same x) ∙ h));
    marked = λ x h. k.checked x (r.marked x (sym (k.same x) ∙ h));
    together = k.together r.together;
  }

  -- What holds after a part of the check that went to all of `xs`: unless a line was printed, they
  -- have no cycle. It answers a symbol only when it has printed one.
  pub record Post (Q : Type 0) (w : Checks) (r : Option SymbolId) (v : Checks) : Type 0 where
    pub kept : Kept at w v
    pub names_same : names v.stack ≡ names w.stack
    pub below : pop v.stack ≡ pop w.stack
    pub found : (s : SymbolId) → r ≡ some s → length w.reports < length v.reports
    pub quiet : length v.reports ≡ length w.reports → IsFinished at w → Q

  pub Post-weaken :
      {Q R : Type 0} (w : Checks) (r : Option SymbolId) (v : Checks)
      → (Q → R)
      → Post Q w r v
      → Post R w r v
  Post-weaken w r v f p = record {
    kept = p.kept;
    names_same = p.names_same;
    below = p.below;
    found = p.found;
    quiet = λ e h. f (p.quiet e h);
  }

  module _ (n k : ℕ) where
    abbrev pub Solves : C (Option SymbolId) → Type 0 → Type 0
    Solves p Q = (w : Checks) → IsReady at w → unchecked n w.checked ≤ k → Returns p w (Post Q w)

    pub pure-Solves : Solves (pure none) (AllGrounded at [])
    unfolding named
    pure-Solves w r l = pure-Returns none w (record {
      kept = Kept-self w;
      names_same = refl;
      below = refl;
      found = λ s e. cc;
      quiet = λ e h y m. cc;
    })

    pub weaken-Solves : {Q R : Type 0} (p : C (Option SymbolId)) → (Q → R) → Solves p Q → Solves p R
    weaken-Solves p f h w r l =
        let a = h w r l in
        record {
          value = a.value;
          after = a.after;
          ends = a.ends;
          holds = Post-weaken w a.value a.after f a.holds;
        }

    -- A state that a ready one leads to.
    pub later :
        {Q : Type 0} (w v : Checks) (r : Option SymbolId)
        → IsReady at w
        → unchecked n w.checked ≤ k
        → Post Q w r v
        → IsReady at v × (unchecked n v.checked ≤ k)
    later w v r ready l p =
        let fewer = unchecked-le n w.checked v.checked p.kept.checked in
        (Kept-IsReady w v p.kept p.names_same ready, omega arith)

    -- The part of a program that comes second.
    pub second :
        {Q R : Type 0} (q : C (Option SymbolId)) (w v : Checks) (r : Option SymbolId)
        → IsReady at v
        → unchecked n v.checked ≤ k
        → Solves q R
        → Post Q w r v
        → Returns
            (elim r [ some s ↦ pure (some s) | none ↦ q ])
            v
            (λ s u. Post (Q × R) w s u × IsReady at u)
    second {Q} {R} q w v (some s) ready l h p =
        let a = p.found s refl in
        let post : Post (Q × R) w (some s) v = record {
          kept = p.kept;
          names_same = p.names_same;
          below = p.below;
          found = λ t e. a;
          quiet = λ e g. absurd (omega arith);
        } in
        pure-Returns (some s) v (post, ready)
    second {Q} {R} q w v none ready l h p =
        let a = h v ready l in
        let b = a.holds in
        let early = p.kept.more in
        let late = b.kept.more in
        let post : Post (Q × R) w a.value a.after = record {
          kept = Kept-trans w v a.after p.kept b.kept;
          names_same = b.names_same ∙ p.names_same;
          below = b.below ∙ p.below;
          found = λ t e. let c = b.found t e in omega arith;
          quiet = λ e g.
              (p.quiet (omega arith) g, b.quiet (omega arith) (p.kept.finished (omega arith) g));
        } in
        record {
          value = a.value;
          after = a.after;
          ends = a.ends;
          holds = (post, (later v a.after a.value ready l b).0);
        }

    pub unless_found-Solves :
        {Q R : Type 0} (p q : C (Option SymbolId))
        → Solves p Q
        → Solves q R
        → Solves (unless_found p q) (Q × R)
    unfolding unless_found
    unless_found-Solves {Q} {R} p q h g w ready l =
        let all = >>=-Returns p _ (h w ready l) (λ r v post. after r v post) in
        record { value = all.value; after = all.after; ends = all.ends; holds = all.holds.0 }
      where
        after :
            (r : Option SymbolId) (v : Checks)
            → Post Q w r v
            → Returns
                (elim r [ some s ↦ pure (some s) | none ↦ q ])
                v
                (λ s u. Post (Q × R) w s u × IsReady at u)
        after r v post = let (a, b) = later w v r ready l post in second q w v r a b g post
