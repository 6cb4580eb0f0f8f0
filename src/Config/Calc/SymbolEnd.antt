-- ===== src/Config/Calc/SymbolEnd.antt =====
-- One call of sym_calc_value ends where the calls that it makes end.
use dir842v2_gpl.Common.{
  ap, ◌∙◌, Bool-cases, inl, inr, ◌≤◌, ◌≡◌, refl, arith, ℕ, Bool, true, false, List, [], ◌∷◌, some,
  ◌==◌,
}
use dir842v2_gpl.Config.Types.{SymbolId}
use dir842v2_gpl.Config.Calc.State.{
  Val, Sym, World, M, ◌>>=◌, pure, sym_at, modify, when, clear_write, choice_values,
}
use dir842v2_gpl.Config.Calc.Deps.{is_switch}
use dir842v2_gpl.Config.Calc.Choices.{set_all_choice_values}
use dir842v2_gpl.Config.Calc.{update_modules, finish, settle_tristate, settle_text, calc_blank}
use dir842v2_gpl.Config.Calc.Choices.{clear_value, set_all_choice_values, clear_values, values_set}
use dir842v2_gpl.Config.Calc.State.{write_sym}
use dir842v2_gpl.Config.Calc.Settles.{weight, curr, Settles, Settles-self, Settles-trans}
use dir842v2_gpl.Config.Calc.Ends.{
  write-Settles, >>=-some, Ends, Done, bind-Ends, sym_at-Ends, modules_sym-Ends,
  set_modules_val-Ends, modify_except-Ends, if-Ends, when-Ends,
}
use dir842v2_gpl.Config.Calc.DepsEnd.{validate_range-Ends, visibility-Ends}
use dir842v2_gpl.Config.Calc.ChoicesEnd.{write_values-Ends, calc_choice-Ends}
use dir842v2_gpl.Config.Calc.NewvalEnd.{calc_tristate-Ends, calc_text-Ends}

-- What clear_values leaves.
record Cleared (e : SymbolId) (xs : List SymbolId) (w : World) : Type 0 where
  after : World
  ends : clear_values xs w ≡ some (tt, after)
  settles : Settles e w after
  needs : (x : SymbolId) → (after.at x).need_set ≡ (w.at x).need_set

write-need :
    (s x : SymbolId) (f : Sym → Sym) (w : World)
    → ((y : Sym) → (f y).need_set ≡ y.need_set)
    → ((write_sym s f w).at x).need_set ≡ (w.at x).need_set
unfolding write_sym
write-need s x f w h = elim (Bool-cases (x == s)) [ inl b ↦ rw b (h (w.at x)) | inr b ↦ rw b refl ]

-- A symbol after an assignment that concerns neither its value nor what is to be done.
pub record Aside (f : Sym → Sym) (y : Sym) : Type 0 where
  pub weighs : weight (f y) ≡ weight y
  has_curr_of : curr (f y) ≡ curr y
  needs : (f y).need_set ≡ y.need_set

pub clear_value-Aside : (y : Sym) → Aside clear_value y
unfolding clear_value
clear_value-Aside y = elim (Bool-cases y.def_user) [
  | inl b ↦ record {
    weighs = rw (clear_value, b) refl;
    has_curr_of = rw (clear_value, b) refl;
    needs = rw (clear_value, b) refl;
  }
  | inr b ↦ record {
    weighs = rw (clear_value, b) refl;
    has_curr_of = rw (clear_value, b) refl;
    needs = rw (clear_value, b) refl;
  }
]

pub modify-some :
    (s : SymbolId) (f : Sym → Sym) (w : World) → modify s f w ≡ some (tt, write_sym s f w)
unfolding modify
modify-some s f w = refl

clear_values-Cleared : (e : SymbolId) (xs : List SymbolId) (w : World) → Cleared e xs w
unfolding clear_values pure
clear_values-Cleared e [] w = record {
  after = w;
  ends = refl;
  settles = Settles-self e w;
  needs = λ x. refl;
}
clear_values-Cleared e (x ∷ xs) w =
    let v = write_sym x clear_value w in
    let r = clear_values-Cleared e xs v in
    let same = clear_value-Aside (w.at x) in
    let weighs = same.weighs in
    record {
      after = r.after;
      ends = >>=-some _ (λ u. clear_values xs) w tt v (modify-some x clear_value w) _ r.ends;
      settles =
          Settles-trans e w v r.after
            (write-Settles e x clear_value w (omega arith) (λ n h. same.has_curr_of)) r.settles;
      needs = λ y. r.needs y ∙ write-need x y clear_value w (λ z. (clear_value-Aside z).needs);
    }

set_all-Done :
    (e : SymbolId) (w : World) → (w.at e).need_set ≡ true → Done e (set_all_choice_values e) w
unfolding set_all_choice_values sym_at
set_all-Done e w h =
    let r = clear_values-Cleared e (choice_values (w.at e)) w in
    let need = r.needs e ∙ h in
    let heavy : 2 ≤ weight (r.after.at e) = ground arith in
    record {
      value = tt;
      after = write_sym e values_set r.after;
      ends = >>=-some (sym_at e) _ w (w.at e) w refl _ (
          >>=-some _ (λ u. modify e values_set) w tt r.after r.ends _
            (modify-some e values_set r.after));
      settles =
          Settles-trans e w r.after (write_sym e values_set r.after) r.settles
            (write-Settles e e values_set r.after (omega arith) (λ n g. absurd (n refl)));
    }

pub when-true : (b : Bool) (p : M (Unit {0})) → b ≡ true → when b p ≡ p
unfolding when
when-true b p h = rw h refl

pub when-false : (b : Bool) (p : M (Unit {0})) → b ≡ false → when b p ≡ pure tt
unfolding when
when-false b p h = rw h refl

module _ (n m : ℕ) (e : SymbolId) where
  set_when_needed-Ends : Ends n m e (sym_at e >>= (λ z. when z.need_set (set_all_choice_values e)))
  unfolding sym_at pure
  set_when_needed-Ends w c b = elim (Bool-cases (w.at e).need_set) [
    | inl h ↦
        let d = set_all-Done e w h in
        record {
          value = d.value;
          after = d.after;
          ends =
              >>=-some (sym_at e) _ w (w.at e) w refl _
                (ap (λ (q : M (Unit {0})). q w) (when-true _ (set_all_choice_values e) h) ∙ d.ends);
          settles = d.settles;
        }
    | inr h ↦ record {
      value = tt;
      after = w;
      ends =
          >>=-some (sym_at e) _ w (w.at e) w refl _
            (ap (λ (q : M (Unit {0})). q w) (when-false _ (set_all_choice_values e) h));
      settles = Settles-self e w;
    }
  ]

  finish-Ends : Ends n m e (finish e)
  unfolding finish
  finish-Ends = bind-Ends n m e (sym_at-Ends n m e e) (λ y.
      bind-Ends n m e (when-Ends n m e _ _ (write_values-Ends n m e (choice_values y))) (λ u.
        bind-Ends n m e
          (when-Ends n m e y.is_auto _ (modify_except-Ends n m e clear_write (λ z. omega arith)))
          (λ v. set_when_needed-Ends)))

  modules-Ends : (same : Sym → Bool) → Ends n m e (update_modules e same)
  unfolding update_modules
  modules-Ends same = bind-Ends n m e (sym_at-Ends n m e e) (λ y.
      bind-Ends n m e (modules_sym-Ends n m e)
        (λ k. when-Ends n m e _ _ (set_modules_val-Ends n m e y.curr_tri)))

module _ (n m : ℕ) (e : SymbolId) (calc : SymbolId → M (Unit {0}))
    (calls : (s : SymbolId) → Ends n m e (calc s)) where
  curr-Ends : (f : Sym → Sym) → ((y : Sym) → weight (f y) ≡ weight y) → Ends n m e (modify e f)
  curr-Ends f h = modify_except-Ends n m e f (λ y. let q = h y in omega arith)

  settle_tristate-Ends : Ends n m e (settle_tristate calc e)
  unfolding settle_tristate
  settle_tristate-Ends = bind-Ends n m e (calc_tristate-Ends n m e calc calls e) (λ t.
      bind-Ends n m e (curr-Ends _ (λ y. refl)) (λ u. bind-Ends n m e (sym_at-Ends n m e e) (λ y.
        when-Ends n m e _ _
          (bind-Ends n m e (calc_choice-Ends n m e calc calls) (λ c. curr-Ends _ (λ z. refl))))))

  settle_text-Ends : Ends n m e (settle_text calc e)
  unfolding settle_text
  settle_text-Ends =
      bind-Ends n m e (calc_text-Ends n m e calc calls e) (λ v. curr-Ends _ (λ y. refl))

  pub calc_blank-Ends : (old : Sym) (v : Val) → Ends n m e (calc_blank calc e old v)
  unfolding calc_blank
  calc_blank-Ends old v = bind-Ends n m e (curr-Ends _ (λ y. refl)) (λ a.
      bind-Ends n m e (visibility-Ends n m e calc calls e) (λ b.
        bind-Ends n m e (sym_at-Ends n m e e) (λ y.
          bind-Ends n m e (when-Ends n m e _ _ (curr-Ends _ (λ z. refl))) (λ c.
            bind-Ends n m e (curr-Ends _ (λ z. refl)) (λ d.
              bind-Ends n m e
                (if-Ends n m e (is_switch y.type) _ _ settle_tristate-Ends settle_text-Ends)
                (λ f.
                  bind-Ends n m e (validate_range-Ends n m e calc calls)
                    (λ g. bind-Ends n m e (modules-Ends n m e _) (λ h. finish-Ends n m e))))))))
