-- ===== src/Config/Check/Graph.antt =====
-- What a symbol depends on in the eyes of sym_check_deps, and the states it passes through.
use mathlib.Core.WellFounded.{Acc}
use dir842v2_gpl.Common.{
  ℕ, zero, suc, ◌+◌, ◌≡◌, ◌≤◌, ◌<◌, refl, arith, Bool, true, false, Bool-cases, inl, inr, List, [],
  ◌∷◌, ◌++◌, Option, none, some, ◌==◌, ◌&&◌, ◌||◌, if◌then◌else◌, length,
}
use dir842v2_gpl.Config.Types.{SymbolId, Expr, symbol, not, and, or, comp, list, range}
use dir842v2_gpl.Config.Calc.State.{Property, Sym, is_default, choice_of, choice_values}
use dir842v2_gpl.Config.Check.{is_choice_or_select}
use dir842v2_gpl.Config.Check.State.{DepStack, Report, unexpected, Checks, put_flag, put_flags}

unfoldable pub named : SymbolId → List SymbolId → Bool
named x [] = false
named x (y ∷ ys) = x == y || named x ys

pub named-append :
    (x : SymbolId) (xs ys : List SymbolId) → named x (xs ++ ys) ≡ (named x xs || named x ys)
unfolding named
named-append x [] ys = refl
named-append x (y ∷ xs) ys = ground (arith, named-append x xs ys)

pub put_flags-named :
    (xs : List SymbolId) (b : Bool) (f : SymbolId → Bool) (x : SymbolId)
    → put_flags xs b f x ≡ (if named x xs then b else f x)
unfolding put_flags named
put_flags-named [] b f x = refl
put_flags-named (y ∷ xs) b f x = ground (arith, put_flags-named xs b (put_flag y b f) x)

-- The symbols that an expression has checked.
unfoldable pub expr_symbols : Expr → List SymbolId
expr_symbols (symbol s) = s ∷ []
expr_symbols (not e) = expr_symbols e
expr_symbols (and l r) = expr_symbols l ++ expr_symbols r
expr_symbols (or l r) = expr_symbols l ++ expr_symbols r
expr_symbols (comp _ s t) = s ∷ (t ∷ [])
expr_symbols (list _) = []
expr_symbols (range _ _) = []

abbrev pub opt_symbols : Option Expr → List SymbolId
opt_symbols none = []
opt_symbols (some e) = expr_symbols e

abbrev pub has_default : Bool → Property → Bool
has_default choice p = is_default p && (if choice then false else true)

abbrev pub prop_symbols : Bool → Property → List SymbolId
prop_symbols choice p =
    opt_symbols p.condition ++ (if has_default choice p then opt_symbols p.expr else [])

unfoldable pub props_symbols : Bool → List Property → List SymbolId
props_symbols choice [] = []
props_symbols choice (p ∷ ps) =
    (if is_choice_or_select p then [] else prop_symbols choice p) ++ props_symbols choice ps

unfoldable pub symbols_of : Sym → List SymbolId
symbols_of y = opt_symbols y.rev_expr ++ props_symbols y.is_choice y.props

abbrev pub names : List DepStack → List SymbolId
names [] = []
names (f ∷ fs) = f.sym ∷ names fs

-- No line says that the error was unexpected.
abbrev pub is_expected : Report → Bool
is_expected r = elim r [ unexpected ↦ false | _ ↦ true ]

unfoldable pub all_expected : List Report → Bool
all_expected [] = true
all_expected (r ∷ rs) = is_expected r && all_expected rs

-- How many of the first `n` symbols are still to be checked.
unfoldable pub unchecked : ℕ → (SymbolId → Bool) → ℕ
unchecked zero f = 0
unchecked (suc n) f = (if f n then 0 else 1) + unchecked n f

pub unchecked-le :
    (n : ℕ) (f g : SymbolId → Bool)
    → ((x : SymbolId) → f x ≡ true → g x ≡ true)
    → unchecked n g ≤ unchecked n f
unfolding unchecked
unchecked-le zero f g h = omega arith
unchecked-le (suc n) f g h = ground (arith, h n, unchecked-le n f g h)

pub unchecked-lt :
    (n : ℕ) (f g : SymbolId → Bool) (s : SymbolId)
    → ((x : SymbolId) → f x ≡ true → g x ≡ true)
    → s < n
    → f s ≡ false
    → g s ≡ true
    → unchecked n g < unchecked n f
unfolding unchecked
unchecked-lt zero f g s h l a b = absurd (omega arith)
unchecked-lt (suc n) f g s h l a b = elim (Bool-cases (s == n)) [
  | inl e ↦
      let same : s ≡ n = ground arith in
      let a' : f n ≡ false = rw (← same) a in
      let b' : g n ≡ true = rw (← same) b in ground (arith, unchecked-le n f g h)
  | inr e ↦ ground (arith, h n, unchecked-lt n f g s h (ground arith) a b)
]

module _ (at : SymbolId → Sym) where
  abbrev pub DependsOn : SymbolId → SymbolId → Type 0
  DependsOn y x = named y (symbols_of (at x)) ≡ true

  -- No chain of dependencies that starts at the symbol goes on for ever, so none is a cycle.
  abbrev pub IsGrounded : SymbolId → Type 0
  IsGrounded = Acc DependsOn

  abbrev pub AllGrounded : List SymbolId → Type 0
  AllGrounded xs = (y : SymbolId) → named y xs ≡ true → IsGrounded y

  -- The symbol that stands on the stack for one with SYMBOL_CHECK.
  abbrev pub owner : SymbolId → SymbolId
  owner x = if (at x).is_choice_value then elim (choice_of (at x)) [ none ↦ x | some c ↦ c ] else x

  -- The symbols that expressions and choices name are below `n`; a choice has its values as the
  -- parser makes them, and is no value itself.
  pub record IsConsistent (n : ℕ) : Type 0 where
    pub mentions : (s y : SymbolId) → s < n → named y (symbols_of (at s)) ≡ true → y < n
    pub value :
        (c v : SymbolId)
        → c < n
        → (at c).is_choice ≡ true
        → named v (choice_values (at c)) ≡ true
        → (v < n) × ((at v).is_choice_value ≡ true) × (choice_of (at v) ≡ some c)
    pub choice :
        (v : SymbolId)
        → (at v).is_choice_value ≡ true
        → (c : SymbolId) × (choice_of (at v) ≡ some c)
          × (c < n)
          × ((at c).is_choice ≡ true)
          × ((at c).is_choice_value ≡ false)
          × (named v (choice_values (at c)) ≡ true)

  abbrev pub IsTogether : Checks → Type 0
  IsTogether w =
      (v c : SymbolId)
      → (at v).is_choice_value ≡ true
      → choice_of (at v) ≡ some c
      → w.checked v ≡ w.checked c

  -- A symbol with SYMBOL_CHECK is on the stack, itself or its choice; the values of a choice are
  -- marked with it.
  pub record IsReady (w : Checks) : Type 0 where
    pub on_stack : (x : SymbolId) → w.check x ≡ true → named (owner x) (names w.stack) ≡ true
    pub marked : (x : SymbolId) → w.check x ≡ true → w.checked x ≡ true
    pub together : IsTogether w

  -- What was checked and is no longer being checked has no cycle.
  abbrev pub IsFinished : Checks → Type 0
  IsFinished w = (x : SymbolId) → w.checked x ≡ true → w.check x ≡ false → IsGrounded x

  -- From one state to a later one, the stack apart.
  pub record Kept (w v : Checks) : Type 0 where
    pub same : (x : SymbolId) → v.check x ≡ w.check x
    pub checked : (x : SymbolId) → w.checked x ≡ true → v.checked x ≡ true
    pub together : IsTogether w → IsTogether v
    pub expected : all_expected w.reports ≡ true → all_expected v.reports ≡ true
    pub more : length w.reports ≤ length v.reports
    pub finished : length v.reports ≡ length w.reports → IsFinished w → IsFinished v
