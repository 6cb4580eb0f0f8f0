-- ===== src/Config/Menu/Visibility.antt =====
-- A prompt is shown where its own condition and the menus above allow it.
use dir842v2_gpl.Common.{
  ap, List, [], ◌∷◌, ℕ, zero, suc, ◌≡◌, ◌∙◌, ◌≤◌, ◌<◌, refl, arith, Option, none, some, Bytes,
}
use dir842v2_gpl.Config.Types.{Expr, Table, tristate_laws, Tristate, tri_yes, expr_and}
use dir842v2_gpl.Config.Valid.{IsValid}
use dir842v2_gpl.Config.Valid.Bounds.{calc-le-yes}
use dir842v2_gpl.Config.Value.{calc_value}
use dir842v2_gpl.Config.EliminateEq.{expr_copy}
use dir842v2_gpl.Config.EliminateEq.Rounds.{expr_copy-logical}
use dir842v2_gpl.Config.Query.{expr_alloc_and}
use dir842v2_gpl.Config.Query.Laws.{calc-expr_alloc}
use dir842v2_gpl.Config.Calc.State.{p_prompt}
use dir842v2_gpl.Config.Menu.{
  MenuId, Menu, Building, current, add_visibility, upper_visibilities, menu_add_prompt, MenuProp,
  skip_space, prompt_prop, add_prompt, put_menu,
}
use dir842v2_gpl.Config.Menu.Built.{IsInOrder, IsLogicalIfAny, has_expr, Built}
use dir842v2_gpl.Config.Menu.Order.{Built-IsInOrder}
use dir842v2_gpl.Config.Menu.Place.{IsOlder-lt}

-- The entries above one whose parent is given, the nearest first.
pub data Above (at : MenuId → Menu) : Option MenuId → List MenuId → Type 0 where
  no_more : Above at none []
  next_above :
      {p : MenuId} {ms : List MenuId} → Above at (at p).parent ms → Above at (some p) (p ∷ ms)

-- The least of a value and those of the visibilities of some entries, where one without is `y`.
unfoldable pub least : Table → (MenuId → Menu) → Tristate → List MenuId → Tristate
least t at v [] = v
least t at v (m ∷ ms) = expr_and (calc_value t (at m).visibility) (least t at v ms)

least-and :
    (t : Table) (at : MenuId → Menu) (v w : Tristate) (ms : List MenuId)
    → least t at (expr_and v w) ms ≡ expr_and w (least t at v ms)
unfolding least
least-and t at v w [] = omega tristate_laws
least-and t at v w (m ∷ ms) = let h = least-and t at v w ms in omega (tristate_laws, h)

module _ (t : Table) (valid : IsValid t) (b : Building) (o : IsInOrder b) where
  value_bounded : (e : Option Expr) → calc_value t e ≤ tri_yes
  unfolding calc_value
  value_bounded none = omega arith
  value_bounded (some e) = calc-le-yes t valid e

  added_by :
      (visible v : Option Expr)
      → IsLogicalIfAny v
      → calc_value t (elim v [ none ↦ visible | some e ↦ expr_alloc_and visible (expr_copy e) ])
        ≡ expr_and (calc_value t visible) (calc_value t v)
  unfolding calc_value
  added_by visible none h = let l = value_bounded visible in omega tristate_laws
  added_by visible (some e) (has_expr h) =
      rw (expr_copy-logical h) (calc-expr_alloc t visible (some e) valid).0

  added :
      (p : MenuId) (visible : Option Expr)
      → calc_value t (add_visibility (b.at p) visible)
        ≡ expr_and (calc_value t visible) (calc_value t (b.at p).visibility)
  added p visible = added_by visible (b.at p).visibility (o.logical p)

  IsOlder-next : (p fuel : ℕ) → p < suc fuel → (q : MenuId) → (b.at p).parent ≡ some q → q < fuel
  IsOlder-next p fuel l q e = let a = IsOlder-lt e (o.descends p) in omega arith

  -- The loop ends, at the least of the condition and what is above.
  upper_visibilities-least :
      (fuel : ℕ) (parent : Option MenuId) (visible : Option Expr)
      → ((p : MenuId) → parent ≡ some p → p < fuel)
      → (ms : List MenuId) × (r : Option Expr) × Above b.at parent ms
        × (upper_visibilities fuel b.at parent visible ≡ some r)
        × (calc_value t r ≡ least t b.at (calc_value t visible) ms)
  unfolding upper_visibilities least
  upper_visibilities-least fuel none visible l = ([], visible, no_more, refl, refl)
  upper_visibilities-least zero (some p) visible l = absurd (let a = l p refl in omega arith)
  upper_visibilities-least (suc fuel) (some p) visible l =
      let (ms, r, a, e, v) =
        upper_visibilities-least fuel (b.at p).parent (add_visibility (b.at p) visible)
          (IsOlder-next p fuel (l p refl)) in
      (
        p ∷ ms,
        r,
        next_above a,
        e,
        v
            ∙ ap (λ x. least t b.at x ms) (added p visible)
            ∙ least-and t b.at (calc_value t visible) (calc_value t (b.at p).visibility) ms,
      )

-- menu_add_prompt for a prompt proper succeeds, over a valid table, in each state that calls of these
-- functions build from menu_init on, where each expression given to menu_add_visibility is a tree of
-- symbols, comparisons and operators. The entry then has the prompt, with its text from the first
-- byte on that is no space, and the value of the prompt's condition is the least of that of the
-- condition given and those of the visibilities of all the entries above, however many there are.
pub menu_add_prompt-least :
    (t : Table) (b : Building) (text : Bytes) (dep : Option Expr)
    → IsValid t
    → Built b
    → (c : Building) × (p : MenuProp) × (ms : List MenuId) × (menu_add_prompt p_prompt
          (some text)
          dep
          b
        ≡ some c)
      × ((c.at b.current_entry).prompt ≡ some p)
      × (p.text ≡ some (skip_space text))
      × Above b.at (current b).parent ms
      × (calc_value t p.visible ≡ least t b.at (calc_value t dep) ms)
unfolding menu_add_prompt add_prompt put_menu
menu_add_prompt-least t b text dep valid built =
    let o = Built-IsInOrder b built in
    let (ms, r, a, e, v) =
      upper_visibilities-least t valid b o b.free (current b).parent dep (λ p k.
        let d = IsOlder-lt k (o.descends b.current_entry) in let l = o.entry_low in omega arith) in
    let p = prompt_prop p_prompt text none b.current_entry r in
    (add_prompt p text b, p, ms, rw e refl, prompt_set p, refl, a, v)
  where
    prompt_set : (p : MenuProp) → ((add_prompt p text b).at b.current_entry).prompt ≡ some p
    prompt_set p = ground arith
