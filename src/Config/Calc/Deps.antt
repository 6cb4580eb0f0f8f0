-- ===== src/Config/Calc/Deps.antt =====
-- expr_calc_value of package/config/expr.c, and of package/config/symbol.c the functions that
-- sym_calc_value is made of, up to sym_calc_visibility. `calc` is the call of sym_calc_value.
use dir842v2_gpl.Common.{
  ℕ, ◌+◌, ◌^◌, ◌%◌, ◌/◌, zero, suc, Bool, true, false, List, [], ◌∷◌, Option, none, some, ltb, leb,
  ◌==◌, ◌&&◌, if◌then◌else◌, Bytes, codes,
}
use dir842v2_gpl.Config.Types.{
  Tristate, tri_no, tri_mod, tri_yes, expr_or, expr_and, expr_not, Expr, symbol, not, and, or, comp,
  list, range, SymbolId, SymbolType, boolean, tristate, int, hex,
}
use dir842v2_gpl.Config.Numbers.{strtoll, word}
use dir842v2_gpl.Config.Value.{compare_texts, verdict}
use dir842v2_gpl.Config.Printer.{signed_decimal}
use dir842v2_gpl.Config.Calc.State.{
  Val, text, Property, Sym, M, ◌>>=◌, ◌>>◌, pure, sym_at, get_modules_val, get_modules_sym, modify,
  when, set_curr_val, is_default, is_range, choice_of, get_type,
}

-- The bytes that a pointer leads to. The null pointer, and the address of a symbol, are never read
-- as a string.
abbrev pub bytes_of : Val → Bytes
bytes_of (text s) = s
bytes_of _ = []

abbrev pub is_switch : SymbolType → Bool
is_switch boolean = true
is_switch tristate = true
is_switch _ = false

-- A bool symbol has no `mod`: where it stands, it becomes `yes`.
abbrev pub clamp : SymbolType → Tristate → Tristate
clamp boolean t = if t == tri_mod then tri_yes else t
clamp _ t = t

hex_digit : ℕ → ℕ
hex_digit d = if ltb d 10 then d + b'0' else d + 87

hex_within : ℕ → ℕ → Bytes → Bytes
hex_within zero n tail = tail
hex_within (suc fuel) n tail =
    let more = hex_within fuel (n / 16) (hex_digit (n % 16) ∷ tail) in
    if ltb n 16 then hex_digit n ∷ tail else more

-- `%llx`: sixteen digits hold a 64-bit pattern.
pub hexadecimal : ℕ → Bytes
unfolding hex_within hex_digit
hexadecimal n = hex_within 16 n []

-- `a <= b` on 64-bit patterns of signed numbers.
abbrev pub signed_leb : ℕ → ℕ → Bool
signed_leb a b = leb ((a + 2 ^ 63) % word) ((b + 2 ^ 63) % word)

-- A property with the value of its condition, which is not `no`.
pub record Found : Type 0 where
  pub prop : Property
  pub tri : Tristate

-- The base of a number, by the type.
abbrev pub base_of : SymbolType → ℕ → ℕ
base_of int base = 10
base_of hex base = 16
base_of _ base = base

module _ (calc : SymbolId → M (Unit {0})) where
  -- `mod` is shown as `n` while modules are off.
  unfoldable pub modules_text : M Bytes
  modules_text = do
    m ← get_modules_sym
    calc m
    y ← sym_at m
    pure (if y.curr_tri == tri_no then codes "n" else codes "m")

  unfoldable pub switch_text : SymbolId → Tristate → Val → M Bytes
  switch_text s tri val =
      if tri == tri_no
      then pure (codes "n")
      else if tri == tri_mod
      then modules_text
      else if tri == tri_yes
      then pure (codes "y")
      else pure (bytes_of val)

  -- sym_get_string_value.
  unfoldable pub string_value : SymbolId → M Bytes
  string_value s = do
    y ← sym_at s
    if is_switch y.type then switch_text s y.curr_tri y.curr_val else pure (bytes_of y.curr_val)

  unfoldable pub expr_calc_value : Expr → M Tristate
  expr_calc_value (symbol s) = do calc s; y ← sym_at s; pure y.curr_tri
  expr_calc_value (and l r) = do a ← expr_calc_value l; b ← expr_calc_value r; pure (expr_and a b)
  expr_calc_value (or l r) = do a ← expr_calc_value l; b ← expr_calc_value r; pure (expr_or a b)
  expr_calc_value (not e) = do a ← expr_calc_value e; pure (expr_not a)
  expr_calc_value (comp rel s1 s2) = do
    calc s1
    calc s2
    str1 ← string_value s1
    str2 ← string_value s2
    y1 ← sym_at s1
    y2 ← sym_at s2
    pure (verdict rel (compare_texts y1.type y2.type rel str1 str2))
  expr_calc_value (list _) = pure tri_no
  expr_calc_value (range _ _) = pure tri_no

  -- A NULL expression is `yes`.
  unfoldable pub calc_value : Option Expr → M Tristate
  calc_value none = pure tri_yes
  calc_value (some e) = expr_calc_value e

  -- `EXPR_AND(expr_calc_value(e), t)`: the macro works out its first argument again where that is the
  -- smaller one.
  unfoldable pub expr_and_value : Option Expr → Tristate → M Tristate
  expr_and_value e t = do v ← calc_value e; if ltb v t then calc_value e else pure t

  unfoldable pub found_or : Property → M (Option Found) → M (Option Found)
  found_or p rest = do
    v ← calc_value p.condition
    if v == tri_no then rest else pure (some (record { prop = p; tri = v }))

  -- The first property of a kind whose condition is not `no`.
  unfoldable pub first_found : (Property → Bool) → List Property → M (Option Found)
  first_found of_kind [] = pure none
  first_found of_kind (p ∷ ps) =
      let rest = first_found of_kind ps in if of_kind p then found_or p rest else rest

  unfoldable pub sym_get_default_prop : Sym → M (Option Found)
  sym_get_default_prop y = first_found is_default y.props

  unfoldable pub sym_get_range_prop : Sym → M (Option Found)
  sym_get_range_prop y = first_found is_range y.props

  unfoldable pub sym_get_range_val : SymbolId → ℕ → M ℕ
  sym_get_range_val s base = do
    calc s
    y ← sym_at s
    pure (strtoll (bytes_of y.curr_val) (base_of y.type base)).pattern

  abbrev pub limit_text : SymbolType → ℕ → Bytes
  limit_text int n = signed_decimal n
  limit_text _ n = b'0' ∷ b'x' ∷ hexadecimal n

  unfoldable pub set_limit : SymbolId → SymbolType → ℕ → M (Unit {0})
  set_limit s type n = modify s (set_curr_val (text (limit_text type n)))

  unfoldable pub validate_high : SymbolId → SymbolType → ℕ → SymbolId → ℕ → M (Unit {0})
  validate_high s type base right val = do
    high ← sym_get_range_val right base
    if signed_leb val high then pure tt else set_limit s type high

  unfoldable pub validate_between : SymbolId → SymbolType → ℕ → Option Expr → M (Unit {0})
  validate_between s type base (some (range left right)) = do
    y ← sym_at s
    let val = (strtoll (bytes_of y.curr_val) base).pattern
    low ← sym_get_range_val left base
    if signed_leb low val then validate_high s type base right val else set_limit s type low
  validate_between s type base _ = pure tt

  unfoldable pub validate_typed : SymbolId → SymbolType → ℕ → M (Unit {0})
  validate_typed s type base = do
    y ← sym_at s
    found ← sym_get_range_prop y
    elim found [ none ↦ pure tt | some f ↦ validate_between s type base f.prop.expr ]

  unfoldable pub validate_for : SymbolId → SymbolType → M (Unit {0})
  validate_for s int = validate_typed s int 10
  validate_for s hex = validate_typed s hex 16
  validate_for s _ = pure tt

  unfoldable pub sym_validate_range : SymbolId → M (Unit {0})
  sym_validate_range s = do y ← sym_at s; validate_for s y.type

  -- The value of a prompt of a choice value whose choice has `choice_tri`.
  abbrev pub prompt_value : Bool → SymbolType → Tristate → Tristate → Tristate
  prompt_value has_choice tristate choice_tri v =
      if has_choice && v == tri_mod && choice_tri == tri_yes then tri_no else v
  prompt_value has_choice _ choice_tri v = v

  unfoldable pub prompt_tri : Sym → Tristate → M Tristate
  prompt_tri y v = elim (if y.is_choice_value then choice_of y else none) [
    | none ↦ pure v
    | some c ↦ do z ← sym_at c; pure (prompt_value true y.type z.curr_tri v)
  ]

  -- What a property adds to the visibility.
  unfoldable pub prompt : Sym → Property → M Tristate
  prompt y p = if p.has_text then (do v ← calc_value p.condition; prompt_tri y v) else pure tri_no

  unfoldable pub prompts : Sym → Tristate → List Property → M Tristate
  prompts y tri [] = pure tri
  prompts y tri (p ∷ ps) = do t ← prompt y p; prompts y (expr_or tri t) ps

  -- The value of a dependency, `missing` without one.
  unfoldable pub dependency : SymbolId → Tristate → Option Expr → M Tristate
  dependency s missing e = do
    v ← elim e [ none ↦ pure missing | some x ↦ expr_calc_value x ]
    t ← get_type s
    pure (clamp t v)

  abbrev pub visible_tri : SymbolType → Tristate → Tristate → Tristate
  visible_tri tristate modules t = if t == tri_mod && modules == tri_no then tri_yes else t
  visible_tri _ modules t = if t == tri_mod then tri_yes else t

  unfoldable pub set_dependencies : SymbolId → M (Unit {0})
  set_dependencies s = do
    y ← sym_at s
    d ← dependency s tri_yes y.dir_expr
    modify s (λ z. record z { dir_dep = d })
    r ← dependency s tri_no y.rev_expr
    modify s (λ z. record z { rev_dep = r })
    i ← dependency s tri_no (if d == tri_no then none else y.implied_expr)
    modify s (λ z. record z { implied = i })

  unfoldable pub sym_calc_visibility : SymbolId → M (Unit {0})
  sym_calc_visibility s = do
    y ← sym_at s
    t ← prompts y tri_no y.props
    m ← get_modules_val
    modify s (λ z. record z { visible = visible_tri y.type m t })
    when (if y.is_choice_value then false else true) (set_dependencies s)
