-- ===== src/Config/Value/Constants.antt =====
-- Comparisons of a bool or tristate symbol with `y`, `m` and `n` over a valid table.
use Prim.Native.Nat.{min, Ordering}
use dir842v2_gpl.Common.{
  [], ◌∷◌, ℕ, ◌≡◌, ◌≢◌, refl, ◌≤◌, arith, true, some, ◌⊎◌, inl, inr, ◌==◌, if◌then◌else◌, Bytes,
  codes,
}
use dir842v2_gpl.Config.Types.{
  SymbolId, tri_no, tri_yes, Relation, equal, unequal, comp, SymbolType, unknown, boolean, tristate,
  Table, constant,
}
use dir842v2_gpl.Config.Numbers.{strtoll}
use dir842v2_gpl.Config.Valid.{IsValid}
use dir842v2_gpl.Config.Value.{
  k_string, expr_parse_string, sym_get_string_value, strcmp, compare_symbols, compare_texts,
  expr_calc_value, relation_value,
}

abbrev pub IsSwitch : SymbolType → Type 0
IsSwitch k = (k ≡ boolean) ⊎ (k ≡ tristate)

-- The name of the tristate value 0, 1 or 2.
abbrev pub value_name : ℕ → Bytes
value_name k = if k == 0 then codes "n" else if k == 1 then codes "m" else codes "y"

compare_names :
    (a b : ℕ)
    → a ≤ tri_yes
    → b ≤ tri_yes
    → (relation_value equal (strcmp (value_name a) (value_name b))
        ≡ (if a == b then tri_yes else tri_no))
      × (relation_value unequal (strcmp (value_name a) (value_name b))
          ≡ (if a == b then tri_no else tri_yes))
unfolding strcmp relation_value
compare_names a b ha hb = ground arith

parse_name : (k : ℕ) → k ≤ 2 → (expr_parse_string (value_name k) unknown).kind ≡ k_string
unfolding expr_parse_string strtoll
parse_name k h = ground arith

-- A text that is no number is compared as a text.
compare_with_text :
    (type : SymbolType) (rel : Relation) (str text : Bytes)
    → IsSwitch type
    → (expr_parse_string text unknown).kind ≡ k_string
    → compare_texts type unknown rel str text ≡ some (strcmp str text)
unfolding compare_texts
compare_with_text type rel str text (inl b) h = rw (b, h) (unfold expr_parse_string in refl)
compare_with_text type rel str text (inr b) h = rw (b, h) (unfold expr_parse_string in refl)

strcmp-eq : (a b : Bytes) → strcmp a b ≡ Ordering.eq → a ≡ b
unfolding strcmp
strcmp-eq (x ∷ a) (y ∷ b) h = ground (arith, strcmp-eq a b)
strcmp-eq [] [] h = refl
strcmp-eq [] (_ ∷ _) h = cc
strcmp-eq (_ ∷ _) [] h = cc

module _ (t : Table) (v : IsValid t) where
  constant_at : (k : ℕ) → k ≤ 2 → t.at k ≡ constant (value_name k) k
  constant_at k h = ground (arith, v.no_constant, v.mod_constant, v.yes_constant)

  string_of_constant : (k : ℕ) → k ≤ 2 → sym_get_string_value t k ≡ value_name k
  unfolding sym_get_string_value
  string_of_constant k h = rw (constant_at k h)

  -- `m` shows as `m`, since then modules are on.
  string_of_switch :
      (s : SymbolId)
      → IsSwitch (t.at s).type
      → sym_get_string_value t s ≡ value_name (t.at s).curr_tri
  unfolding sym_get_string_value
  string_of_switch s (inl b) = rw (b) (ground (arith, v.le_yes s, v.boolean_ne_mod s))
  string_of_switch s (inr b) = rw (b) (ground (arith, v.le_yes s, v.tristate_mod s))

  compare_switch :
      (rel : Relation) (s : SymbolId) (k : ℕ)
      → IsSwitch (t.at s).type
      → k ≤ tri_yes
      → compare_symbols t rel s k ≡ some (strcmp (value_name (t.at s).curr_tri) (value_name k))
  unfolding compare_symbols
  compare_switch rel s k h hk =
      rw (constant_at k hk, string_of_switch s h, string_of_constant k hk)
        (compare_with_text (t.at s).type rel _ _ h (parse_name k hk))

  -- `s=k` and `s!=k` for a constant `k`, the symbol with the address of its value.
  pub calc-equal :
      (s : SymbolId) (k : ℕ)
      → IsSwitch (t.at s).type
      → k ≤ tri_yes
      → expr_calc_value t (comp equal s k) ≡ (if (t.at s).curr_tri == k then tri_yes else tri_no)
  unfolding expr_calc_value
  calc-equal s k h hk = rw (compare_switch equal s k h hk) (compare_names _ k (v.le_yes s) hk).0

  pub calc-unequal :
      (s : SymbolId) (k : ℕ)
      → IsSwitch (t.at s).type
      → k ≤ tri_yes
      → expr_calc_value t (comp unequal s k) ≡ (if (t.at s).curr_tri == k then tri_no else tri_yes)
  unfolding expr_calc_value
  calc-unequal s k h hk = rw (compare_switch unequal s k h hk) (compare_names _ k (v.le_yes s) hk).1

-- The SYMBOL_CONST symbols as sym_lookup makes them: of no type, and one for each name. That the
-- name is no number is asked for here; the source does not see to it.
pub record HasNames (t : Table) : Type 0 where
  pub unknown_type : (k : SymbolId) → (t.at k).flags.is_const ≡ true → (t.at k).type ≡ unknown
  pub not_number :
      (k : SymbolId)
      → (t.at k).flags.is_const ≡ true
      → (expr_parse_string (t.at k).curr_val unknown).kind ≡ k_string
  pub one_for_name :
      (j k : SymbolId)
      → (t.at j).flags.is_const ≡ true
      → (t.at k).flags.is_const ≡ true
      → (t.at j).curr_val ≡ (t.at k).curr_val
      → j ≡ k

string_of_unknown :
    (t : Table) (k : SymbolId)
    → (t.at k).type ≡ unknown
    → sym_get_string_value t k ≡ (t.at k).curr_val
unfolding sym_get_string_value
string_of_unknown t k h = rw h

module _ (t : Table) (names : HasNames t) (s : SymbolId) (switch : IsSwitch (t.at s).type) where
  abbrev against : SymbolId → Ordering
  against k = strcmp (sym_get_string_value t s) (t.at k).curr_val

  calc-constant :
      (rel : Relation) (k : SymbolId)
      → (t.at k).flags.is_const ≡ true
      → expr_calc_value t (comp rel s k) ≡ relation_value rel (against k)
  unfolding expr_calc_value compare_symbols
  calc-constant rel k h = rw (
    names.unknown_type k h,
    string_of_unknown t k (names.unknown_type k h),
    compare_with_text (t.at s).type rel (sym_get_string_value t s) (t.at k).curr_val switch
        (names.not_number k h),
  )

  -- `s=b` and `s!=b` exclude one another, and `s=b` implies `s!=c`.
  pub calc_contradiction :
      (b : SymbolId)
      → (t.at b).flags.is_const ≡ true
      → min (expr_calc_value t (comp equal s b)) (expr_calc_value t (comp unequal s b)) ≡ tri_no
  unfolding relation_value
  calc_contradiction b h = rw (calc-constant equal b h, calc-constant unequal b h) (ground arith)

  pub calc_implication :
      (b c : SymbolId)
      → (t.at b).flags.is_const ≡ true
      → (t.at c).flags.is_const ≡ true
      → b ≢ c
      → expr_calc_value t (comp equal s b) ≤ expr_calc_value t (comp unequal s c)
  unfolding relation_value
  calc_implication b c hb hc ne =
      rw (calc-constant equal b hb, calc-constant unequal c hc)
        (ground (
          arith,
          strcmp-eq (sym_get_string_value t s) (t.at b).curr_val,
          strcmp-eq (sym_get_string_value t s) (t.at c).curr_val,
          names.one_for_name b c hb hc,
        ))
