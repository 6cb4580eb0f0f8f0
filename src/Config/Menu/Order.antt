-- ===== src/Config/Menu/Order.antt =====
-- In what the calls of the parser build, an entry is younger than its parent.
use mathlib.Core.Path.{subst}
use dir842v2_gpl.Common.{
  ◌+◌, ◌≡◌, refl, sym, arith, true, Bool-cases, Option, none, some, Bytes, ◌==◌, eq_of_some-eq_some,
  inl, inr,
}
use dir842v2_gpl.Config.Types.{SymbolId, Expr, IsLogical, conjunction, SymbolType}
use dir842v2_gpl.Config.Query.{expr_alloc_and}
use dir842v2_gpl.Config.Calc.State.{PropType}
use dir842v2_gpl.Config.Menu.{
  MenuId, Building, no_menu, put_menu, current, menu_init, menu_add_entry, add_own_symbol, link_to,
  menu_add_menu, menu_end_menu, menu_add_dep, set_type, menu_set_type, menu_add_prop, prompted,
  menu_add_prompt, menu_add_visibility, menu_add_expr, menu_add_symbol, next_of, type_redefinition,
  visible_of, type_number, is_unknown_type,
}
use dir842v2_gpl.Config.Menu.Built.{
  Built, IsInOrder, IsOlder, IsLogicalIfAny, no_entry, older, no_expr, has_expr, begun, with_entry,
  in_menu, out_of_menu, with_dep, with_type, with_visibility, with_prompt, with_expr, with_symbol,
}
use dir842v2_gpl.Config.Menu.Place.{
  IsSamePlace, same-IsInOrder, put-same, put-SamePlace, prop_alloc-IsInOrder, warn_if-IsInOrder,
  add_prompt-IsInOrder, link_to-SamePlace, IsOlder-weaken, IsOlder-lt,
}

menu_add_prop-IsInOrder :
    (kind : PropType) (text : Option Bytes) (e dep : Option Expr) (b c : Building)
    → IsInOrder b
    → menu_add_prop kind text e dep b ≡ some c
    → IsInOrder c
unfolding menu_add_prop
menu_add_prop-IsInOrder kind none e dep b c o h =
    subst IsInOrder (eq_of_some-eq_some h) (prop_alloc-IsInOrder _ _ b o)
menu_add_prop-IsInOrder kind (some text) e dep b c o h = with_visible (visible_of kind dep b) h
  where
    with_visible : (v : Option (Option Expr)) → prompted kind text e b v ≡ some c → IsInOrder c
    with_visible none k = cc
    with_visible (some v) k =
        subst IsInOrder (eq_of_some-eq_some k) (add_prompt-IsInOrder _ text b o)

alloc-logical :
    (o : Option Expr) (v : Expr)
    → IsLogicalIfAny o
    → IsLogical v
    → IsLogicalIfAny (expr_alloc_and o (some v))
unfolding expr_alloc_and
alloc-logical none v h l = has_expr l
alloc-logical (some u) v (has_expr h) l = has_expr (conjunction h l)

menu_add_visibility-IsInOrder :
    (v : Expr) (b : Building)
    → IsLogical v
    → IsInOrder b
    → IsInOrder (menu_add_visibility (some v) b)
unfolding menu_add_visibility put_menu
menu_add_visibility-IsInOrder v b l o = record {
  entry_low = o.entry_low;
  menu_low = o.menu_low;
  descends = λ m.
      subst (λ x. IsOlder x m)
        (sym (
          put-same b.current_entry
            (λ y. record y { visibility = expr_alloc_and y.visibility (some v) }) (λ y. y.parent) b
            (λ y. refl) m))
        (o.descends m);
  logical = seen;
}
  where
    seen : (m : MenuId) → IsLogicalIfAny ((menu_add_visibility (some v) b).at m).visibility
    seen m = elim (Bool-cases (m == b.current_entry)) [
      | inl k ↦ rw k (alloc-logical (b.at m).visibility v (o.logical m) l)
      | inr k ↦ rw k (o.logical m)
    ]

set_type-IsInOrder :
    (s : SymbolId) (type : SymbolType) (b : Building) → IsInOrder b → IsInOrder (set_type s type b)
unfolding set_type
set_type-IsInOrder s type b o = elim (Bool-cases (type_number (b.types s) == type_number type)) [
  | inl e ↦ rw e o
  | inr e ↦ elim (Bool-cases (is_unknown_type (b.types s))) [
    | inl f ↦
        rw (e, f)
          (record {
            entry_low = o.entry_low;
            menu_low = o.menu_low;
            descends = o.descends;
            logical = o.logical;
          })
    | inr f ↦ rw (e, f) (warn_if-IsInOrder true type_redefinition b o)
  ]
]

menu_add_entry-IsInOrder :
    (s : Option SymbolId) (b c : Building) → IsInOrder b → menu_add_entry s b ≡ some c → IsInOrder c
unfolding menu_add_entry put_menu
menu_add_entry-IsInOrder s b c o h = own s h
  where
    new : Building
    new = put_menu b.free (λ _. record no_menu { sym = s; parent = b.current_menu }) b

    linked : Building
    linked = record (link_to b.free b.last_entry new) {
      last_entry = next_of b.free;
      current_entry = b.free;
      free = b.free + 1;
    }

    place : IsSamePlace new (link_to b.free b.last_entry new)
    place = link_to-SamePlace b.free b.last_entry new

    descends : (m : MenuId) → IsOlder (new.at m).parent m
    descends m = elim (Bool-cases (m == b.free)) [
      | inl k ↦ rw k (IsOlder-weaken o.menu_low (ground arith))
      | inr k ↦ rw k (o.descends m)
    ]

    logical : (m : MenuId) → IsLogicalIfAny (new.at m).visibility
    logical m = elim (Bool-cases (m == b.free)) [
      | inl k ↦ rw k no_expr
      | inr k ↦ rw k (o.logical m)
    ]

    linked-IsInOrder : IsInOrder linked
    linked-IsInOrder = record {
      entry_low = omega arith;
      menu_low = rw place.same_menu (IsOlder-weaken o.menu_low (omega arith));
      descends = λ m. rw (place.same_parent m) (descends m);
      logical = λ m. rw (place.same_visibility m) (logical m);
    }

    own : (s : Option SymbolId) → add_own_symbol s linked ≡ some c → IsInOrder c
    own none h = subst IsInOrder (eq_of_some-eq_some h) linked-IsInOrder
    own (some x) h = menu_add_prop-IsInOrder _ none _ none linked c linked-IsInOrder h

menu_end_menu-IsInOrder : (b c : Building) → IsInOrder b → menu_end_menu b ≡ some c → IsInOrder c
unfolding menu_end_menu
menu_end_menu-IsInOrder b c o h = from b.current_menu refl h
  where
    from :
        (o : Option MenuId)
        → b.current_menu ≡ o
        → elim o [
          | none ↦ none
          | some m ↦ some (record b { last_entry = next_of m; current_menu = (b.at m).parent })
        ]
          ≡ some c
        → IsInOrder c
    from none e k = cc
    from (some m) e k = subst IsInOrder (eq_of_some-eq_some k) (record {
      entry_low = o.entry_low;
      menu_low = let l = IsOlder-lt e o.menu_low in IsOlder-weaken (o.descends m) (omega arith);
      descends = o.descends;
      logical = o.logical;
    })

menu_set_type-IsInOrder :
    (type : SymbolType) (b c : Building) → IsInOrder b → menu_set_type type b ≡ some c → IsInOrder c
menu_set_type-IsInOrder type b c o h = from (current b).sym h
  where
    from :
        (s : Option SymbolId)
        → elim s [ none ↦ none | some x ↦ some (set_type x type b) ] ≡ some c
        → IsInOrder c
    from none k = cc
    from (some x) k = subst IsInOrder (eq_of_some-eq_some k) (set_type-IsInOrder x type b o)

-- In each state that calls of these functions build from menu_init on, where each expression given
-- to menu_add_visibility is a tree of symbols, comparisons and operators, the current entry and the
-- current menu are among those allocated, each entry is younger than its parent, and what an entry
-- has as visibility is such a tree too.
pub Built-IsInOrder : (b : Building) → Built b → IsInOrder b
unfolding menu_init menu_add_dep menu_add_prompt menu_add_expr menu_add_symbol menu_add_menu
Built-IsInOrder b begun = record {
  entry_low = omega arith;
  menu_low = older (omega arith);
  descends = λ m. no_entry;
  logical = λ m. no_expr;
}
Built-IsInOrder b (with_entry s h e) = menu_add_entry-IsInOrder s _ b (Built-IsInOrder _ h) e
Built-IsInOrder b (in_menu h) =
    let o = Built-IsInOrder _ h in
    record {
      entry_low = o.entry_low;
      menu_low = older o.entry_low;
      descends = o.descends;
      logical = o.logical;
    }
Built-IsInOrder b (out_of_menu h e) = menu_end_menu-IsInOrder _ b (Built-IsInOrder _ h) e
Built-IsInOrder b (with_dep e h) =
    same-IsInOrder _ _
      (put-SamePlace _ (λ y. record y { dep = expr_alloc_and y.dep e }) _ (λ y. refl) (λ y. refl))
      (Built-IsInOrder _ h)
Built-IsInOrder b (with_type type h e) = menu_set_type-IsInOrder type _ b (Built-IsInOrder _ h) e
Built-IsInOrder b (with_visibility e l h) =
    menu_add_visibility-IsInOrder e _ l (Built-IsInOrder _ h)
Built-IsInOrder b (with_prompt kind text dep h e) =
    menu_add_prop-IsInOrder kind text none dep _ b (Built-IsInOrder _ h) e
Built-IsInOrder b (with_expr kind x dep h e) =
    menu_add_prop-IsInOrder kind none x dep _ b (Built-IsInOrder _ h) e
Built-IsInOrder b (with_symbol kind s dep h e) =
    menu_add_prop-IsInOrder kind none _ dep _ b (Built-IsInOrder _ h) e
