-- ===== src/Config/Calc/Total.antt =====
-- sym_calc_value ends, and what it leaves alone.
use dir842v2_gpl.Common.{
  ltb, ℕ, zero, suc, ◌≤◌, ◌<◌, ◌≡◌, ◌∙◌, ap, refl, arith, true, false, Bool-cases, inl, inr, Option,
  none, some, ◌&&◌, ◌==◌,
}
use dir842v2_gpl.Config.Types.{SymbolId, tri_no}
use dir842v2_gpl.Config.Calc.{
  blank_val, name_val, calc_blank, calc_new, calc_choice_first, calc_invalid, calc_body,
  sym_calc_value,
}
use dir842v2_gpl.Config.Calc.State.{
  Sym, World, M, ◌>>=◌, pure, sym_at, modify, write_sym, set_valid, clear_need_set, set_curr,
  choice_of,
}
use dir842v2_gpl.Config.Calc.Settles.{
  weight, Settles, Settles-self, Settles-trans, Settles-any, IsClosed, total, total-lighter,
  total-strict, weight-le-total,
}
use dir842v2_gpl.Config.Calc.Ends.{
  Ends, Done, write-Settles, >>=-some, pure-Ends, bind-Ends, sym_at-Ends, modify_except-Ends,
  option-Ends,
}
use dir842v2_gpl.Config.Calc.SymbolEnd.{calc_blank-Ends, modify-some, when-true, when-false}

pub IsClosed-Settles :
    (e : SymbolId) (n : ℕ) (w v : World) → Settles e w v → IsClosed n w → IsClosed n v
IsClosed-Settles e n w v p c x l = let h = c x l in let k = p.lighter x in omega arith

-- A program runs after an assignment to the exception.
modify-Done :
    (n k : ℕ) (s : SymbolId) (f : Sym → Sym) (p : M (Unit {0})) (w : World)
    → IsClosed n w
    → weight (f (w.at s)) ≤ weight (w.at s)
    → total n (write_sym s f w) ≤ k
    → Ends n k s p
    → (d : Done s (modify s f >>= λ u. p) w) × Settles s (write_sym s f w) d.after
modify-Done n k s f p w c l b h =
    let v = write_sym s f w in
    let first = write-Settles s s f w l (λ n g. absurd (n refl)) in
    let d = h v (IsClosed-Settles s n w v first c) b in
    (
      record {
        value = d.value;
        after = d.after;
        ends = >>=-some (modify s f) (λ u. p) w tt v (modify-some s f w) _ d.ends;
        settles = Settles-trans s w v d.after first d.settles;
      },
      d.settles,
    )

write-at : (s : SymbolId) (f : Sym → Sym) (w : World) → (write_sym s f w).at s ≡ f (w.at s)
unfolding write_sym
write-at s f w = let q : (s == s) ≡ true = ground arith in rw q refl

invalid-inside : (n : ℕ) (w : World) (s : SymbolId) → IsClosed n w → (w.at s).valid ≡ false → s < n
invalid-inside n w s c v = elim (Bool-cases (ltb s n)) [
  | inl h ↦ ground arith
  | inr h ↦ let q = c s (ground arith) in absurd (ground arith)
]

-- An assignment that makes an inner symbol lighter.
write-total :
    (n k : ℕ) (s : SymbolId) (f : Sym → Sym) (w : World)
    → s < n
    → weight (f (w.at s)) < weight (w.at s)
    → total n w ≤ suc k
    → total n (write_sym s f w) ≤ k
write-total n k s f w i l b =
    let at : weight ((write_sym s f w).at s) ≡ weight (f (w.at s)) = ap weight (write-at s f w) in
    let q =
      total-strict s n w (write_sym s f w) s
        (write-Settles s s f w (omega arith) (λ x h. absurd (x refl))) i (omega arith) in
    omega arith

module _ (n k : ℕ) (s : SymbolId) (calc : SymbolId → M (Unit {0}))
    (calls : (x : SymbolId) → Ends n k s (calc x)) where
  rest-Ends : Ends n k s (
      sym_at s >>= (λ y. elim (blank_val y.type) [
        | none ↦ modify s (set_curr tri_no (name_val y.name))
        | some v ↦ calc_blank calc s y v
      ]))
  rest-Ends = bind-Ends n k s (sym_at-Ends n k s s) (λ y.
      option-Ends n k s (blank_val y.type) _ _ (modify_except-Ends n k s _ (λ z. omega arith))
        (λ v. calc_blank-Ends n k s calc calls y v))

  choice-Ends : (o : Option SymbolId) → Ends n k s (elim o [ none ↦ pure tt | some c ↦ calc c ])
  choice-Ends o = option-Ends n k s o _ _ (pure-Ends n k s tt) calls

  new-Done :
      (w : World)
      → IsClosed n w
      → total n (write_sym s set_valid w) ≤ k
      → (d : Done s (calc_new calc s) w) × Settles s (write_sym s set_valid w) d.after
  unfolding calc_new
  new-Done w c b = modify-Done n k s set_valid _ w c (omega arith) b rest-Ends

  -- The end of a call that does not calculate a choice first.
  alone-Done :
      (w : World)
      → IsClosed n w
      → (w.at s).valid ≡ false
      → total n w ≤ suc k
      → ((w.at s).is_choice_value && (w.at s).need_set) ≡ false
      → (d : Done s (calc_invalid calc s (w.at s)) w) × ((w.at s).need_set ≡ false
          → weight (d.after.at s) ≡ 0)
  unfolding calc_invalid pure
  alone-Done w c v b h =
      let inside = invalid-inside n w s c v in
      let (d, final) = new-Done w c (write-total n k s set_valid w inside (ground arith) b) in
      let at : weight ((write_sym s set_valid w).at s) ≡ weight (set_valid (w.at s)) =
        ap weight (write-at s set_valid w) in
      (
        record {
          value = d.value;
          after = d.after;
          ends =
              >>=-some _ (λ u. calc_new calc s) w tt w
                (ap (λ (q : M (Unit {0})). q w) (when-false _ _ h)) _ d.ends;
          settles = d.settles;
        },
        λ g. let l = final.lighter s in ground arith,
      )

  -- The end of a call that does.
  first-Done :
      (w : World)
      → IsClosed n w
      → (w.at s).valid ≡ false
      → total n w ≤ suc k
      → ((w.at s).is_choice_value && (w.at s).need_set) ≡ true
      → (d : Done s (calc_invalid calc s (w.at s)) w) × ((w.at s).need_set ≡ false
          → weight (d.after.at s) ≡ 0)
  unfolding calc_invalid calc_choice_first
  first-Done w c v b h =
      let inside = invalid-inside n w s c v in
      let need : (w.at s).need_set ≡ true = ground arith in
      let small = write-total n k s clear_need_set w inside (ground arith) b in
      let (f, later) =
        modify-Done n k s clear_need_set _ w c (omega arith) small
          (choice-Ends (choice_of (w.at s))) in
      let closed = IsClosed-Settles s n w f.after f.settles c in
      let after_first = total-lighter s n (write_sym s clear_need_set w) f.after later in
      let valid_next =
        total-lighter s n f.after (write_sym s set_valid f.after)
          (write-Settles s s set_valid f.after (omega arith) (λ n g. absurd (n refl))) in
      let (d, final) = new-Done f.after closed (omega arith) in
      (
        record {
          value = d.value;
          after = d.after;
          ends =
              >>=-some _ (λ u. calc_new calc s) w f.value f.after
                (ap (λ (q : M (Unit {0})). q w) (when-true _ _ h) ∙ f.ends) _ d.ends;
          settles = Settles-trans s w f.after d.after f.settles d.settles;
        },
        λ g. absurd (cc),
      )

  invalid-Done :
      (w : World)
      → IsClosed n w
      → (w.at s).valid ≡ false
      → total n w ≤ suc k
      → (d : Done s (calc_invalid calc s (w.at s)) w) × ((w.at s).need_set ≡ false
          → weight (d.after.at s) ≡ 0)
  invalid-Done w c v b = elim (Bool-cases ((w.at s).is_choice_value && (w.at s).need_set)) [
    | inl h ↦ first-Done w c v b h
    | inr h ↦ alone-Done w c v b h
  ]

-- A call ends, with what it leaves.
pub record Calculated (e s : SymbolId) (p : M (Unit {0})) (w : World) : Type 0 where
  pub done : Done e p w
  pub settled : (w.at s).need_set ≡ false → weight (done.after.at s) ≡ 0

body-valid :
    (calc : SymbolId → M (Unit {0})) (e s : SymbolId) (w : World)
    → (w.at s).valid ≡ true
    → Calculated e s (calc_body calc s) w
unfolding calc_body sym_at pure
body-valid calc e s w h = record {
  done = record {
    value = tt;
    after = w;
    ends = >>=-some (sym_at s) _ w (w.at s) w refl _ (rw h refl);
    settles = Settles-self e w;
  };
  settled = λ g. ground arith;
}

body-invalid :
    (calc : SymbolId → M (Unit {0})) (e s : SymbolId) (w : World)
    → (w.at s).valid ≡ false
    → (d : Done s (calc_invalid calc s (w.at s)) w) × ((w.at s).need_set ≡ false
        → weight (d.after.at s) ≡ 0)
    → Calculated e s (calc_body calc s) w
unfolding calc_body sym_at calc_invalid
body-invalid calc e s w h (d, settled) = record {
  done = record {
    value = d.value;
    after = d.after;
    ends = >>=-some (sym_at s) _ w (w.at s) w refl _ (rw h d.ends);
    settles = Settles-any e s w d.after (ground arith) d.settles;
  };
  settled = settled;
}

pub calculated :
    (n m : ℕ) (e s : SymbolId) (w : World)
    → IsClosed n w
    → total n w ≤ m
    → Calculated e s (sym_calc_value (suc m) s) w
unfolding sym_calc_value
calculated n zero e s w c b = elim (Bool-cases (w.at s).valid) [
  | inl h ↦ body-valid _ e s w h
  | inr h ↦
      let inside = invalid-inside n w s c h in
      let l = weight-le-total n w s inside in absurd (ground arith)
]
calculated n (suc k) e s w c b = elim (Bool-cases (w.at s).valid) [
  | inl h ↦ body-valid _ e s w h
  | inr h ↦ body-invalid _ e s w h (
      invalid-Done n k s (sym_calc_value (suc k))
        (λ x v closed small. (calculated n k s x v closed small).done) w c h b)
]
