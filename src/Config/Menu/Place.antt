-- ===== src/Config/Menu/Place.antt =====
-- What leaves the entries of a menu at their places.
use mathlib.Core.Path.{subst}
use dir842v2_gpl.Common.{
  ◌≡◌, ◌<◌, ◌≤◌, refl, arith, Bool, true, false, Bool-cases, Option, none, some, Bytes, ◌==◌,
  eq_of_some-eq_some, inl, inr,
}
use dir842v2_gpl.Config.Types.{SymbolId, Expr, IsLogical}
use dir842v2_gpl.Config.Menu.{
  MenuId, Menu, MenuProp, Building, list_of, put_menu, link_to, add_prompt, prop_alloc, Link,
  next_of, Warning, warn_if,
}
use dir842v2_gpl.Config.Menu.Built.{
  IsInOrder, IsOlder, IsLogicalIfAny, no_entry, older, no_expr, has_expr,
}

-- Nothing that places the entries is changed.
pub record IsSamePlace (b c : Building) : Type 0 where
  pub same_entry : c.current_entry ≡ b.current_entry
  pub same_menu : c.current_menu ≡ b.current_menu
  pub same_free : c.free ≡ b.free
  pub same_parent : (m : MenuId) → (c.at m).parent ≡ (b.at m).parent
  pub same_visibility : (m : MenuId) → (c.at m).visibility ≡ (b.at m).visibility

pub same-IsInOrder : (b c : Building) → IsSamePlace b c → IsInOrder b → IsInOrder c
same-IsInOrder b c s o = record {
  entry_low = rw (s.same_entry, s.same_free) o.entry_low;
  menu_low = rw (s.same_menu, s.same_free) o.menu_low;
  descends = λ m. rw (s.same_parent m) (o.descends m);
  logical = λ m. rw (s.same_visibility m) (o.logical m);
}

pub IsOlder-weaken : {o : Option MenuId} {n k : MenuId} → IsOlder o n → n ≤ k → IsOlder o k
IsOlder-weaken no_entry l = no_entry
IsOlder-weaken (older h) l = older (omega arith)

pub IsLogicalIfAny-some : {o : Option Expr} {e : Expr} → o ≡ some e → IsLogicalIfAny o → IsLogical e
IsLogicalIfAny-some k no_expr = cc
IsLogicalIfAny-some k (has_expr h) = subst IsLogical (eq_of_some-eq_some k) h

pub IsOlder-lt : {o : Option MenuId} {m n : MenuId} → o ≡ some m → IsOlder o n → m < n
IsOlder-lt k no_entry = cc
IsOlder-lt {n = n} k (older h) = subst (λ x. x < n) (eq_of_some-eq_some k) h

pub put-same :
    {A : Type 0} (m : MenuId) (f : Menu → Menu) (g : Menu → A) (b : Building)
    → ((y : Menu) → g (f y) ≡ g y)
    → (x : MenuId) → g ((put_menu m f b).at x) ≡ g (b.at x)
unfolding put_menu
put-same m f g b h x = elim (Bool-cases (x == m)) [ inl e ↦ rw e (h (b.at x)) | inr e ↦ rw e refl ]

pub put-SamePlace :
    (m : MenuId) (f : Menu → Menu) (b : Building)
    → ((y : Menu) → (f y).parent ≡ y.parent)
    → ((y : Menu) → (f y).visibility ≡ y.visibility)
    → IsSamePlace b (put_menu m f b)
unfolding put_menu
put-SamePlace m f b h k = record {
  same_entry = refl;
  same_menu = refl;
  same_free = refl;
  same_parent = put-same m f (λ y. y.parent) b h;
  same_visibility = put-same m f (λ y. y.visibility) b k;
}

pub prop_alloc-IsInOrder :
    (p : MenuProp) (s : Option SymbolId) (b : Building) → IsInOrder b → IsInOrder (prop_alloc p s b)
unfolding prop_alloc
prop_alloc-IsInOrder p none b o = o
prop_alloc-IsInOrder p (some s) b o = record {
  entry_low = o.entry_low;
  menu_low = o.menu_low;
  descends = o.descends;
  logical = o.logical;
}

pub warn_if-IsInOrder :
    (c : Bool) (w : Warning) (b : Building) → IsInOrder b → IsInOrder (warn_if c w b)
warn_if-IsInOrder true w b o = record {
  entry_low = o.entry_low;
  menu_low = o.menu_low;
  descends = o.descends;
  logical = o.logical;
}
warn_if-IsInOrder false w b o = o

pub add_prompt-IsInOrder :
    (p : MenuProp) (text : Bytes) (b : Building) → IsInOrder b → IsInOrder (add_prompt p text b)
unfolding add_prompt
add_prompt-IsInOrder p text b o =
    same-IsInOrder _ _
      (put-SamePlace b.current_entry (λ y. record y { prompt = some p }) _ (λ y. refl) (λ y. refl))
      (prop_alloc-IsInOrder p _ _ (warn_if-IsInOrder _ _ _ (warn_if-IsInOrder _ _ b o)))

pub link_to-SamePlace : (m : MenuId) (l : Link) (b : Building) → IsSamePlace b (link_to m l b)
unfolding link_to
link_to-SamePlace m (list_of p) b =
    put-SamePlace p (λ y. record y { list = some m }) b (λ y. refl) (λ y. refl)
link_to-SamePlace m (next_of p) b =
    put-SamePlace p (λ y. record y { next = some m }) b (λ y. refl) (λ y. refl)
