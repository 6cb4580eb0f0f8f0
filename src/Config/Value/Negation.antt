-- ===== src/Config/Value/Negation.antt =====
-- A comparison and its opposite have opposite values, unless a symbol of type S_OTHER is compared.
use Prim.Native.Nat.{ℕ, Ordering}
use dir842v2_gpl.Common.{◌≡◌, ◌≢◌, refl, arith, none, Bytes, ◌-◌, Option-cases, inl, inr}
use dir842v2_gpl.Config.Types.{
  SymbolId, Relation, equal, unequal, lth, leq, gth, geq, comp, SymbolType, unknown, boolean,
  tristate, int, hex, string, other, Table,
}
use dir842v2_gpl.Config.Value.{
  sym_get_string_value, StringValueKind, k_string, k_signed, k_unsigned, k_invalid,
  expr_parse_string, judge, joint, compare_as, compare_texts, compare_symbols, is_ordered,
  relation_value, expr_calc_value,
}
use dir842v2_gpl.Config.Numbers.{Number}

-- No comparison is of an S_OTHER symbol.
abbrev pub HasNoOther : Table → Type 0
HasNoOther t = (s : SymbolId) → (t.at s).type ≢ other

judge-ne-invalid : (k : StringValueKind) (n : Number) → k ≢ k_invalid → (judge k n).kind ≢ k_invalid
unfolding judge
judge-ne-invalid k n h = ground arith

parse-ne-invalid :
    (str : Bytes) (k : SymbolType) → k ≢ other → (expr_parse_string str k).kind ≢ k_invalid
unfolding expr_parse_string
parse-ne-invalid str boolean h = cc
parse-ne-invalid str tristate h = λ e. cc
parse-ne-invalid str int h = judge-ne-invalid k_signed _ (λ e. cc)
parse-ne-invalid str hex h = judge-ne-invalid k_unsigned _ (λ e. cc)
parse-ne-invalid str string h = judge-ne-invalid k_signed _ (λ e. cc)
parse-ne-invalid str unknown h = judge-ne-invalid k_signed _ (λ e. cc)
parse-ne-invalid str other h = absurd (h refl)

joint-ne-invalid : (a b : StringValueKind) → a ≢ k_invalid → b ≢ k_invalid → joint a b ≢ k_invalid
unfolding joint
joint-ne-invalid a b ha hb = ground arith

compare_as-relation :
    (kind : StringValueKind) (rel : Relation) (a b : Bytes) (l r : ℕ)
    → kind ≢ k_invalid
    → compare_as kind rel a b l r ≡ compare_as kind equal a b l r
unfolding compare_as
compare_as-relation k_invalid rel a b l r h = absurd (h refl)
compare_as-relation k_string rel a b l r h = refl
compare_as-relation _ rel a b l r h = refl

compare_texts-relation :
    (k1 k2 : SymbolType) (rel : Relation) (a b : Bytes)
    → k1 ≢ other
    → k2 ≢ other
    → compare_texts k1 k2 rel a b ≡ compare_texts k1 k2 equal a b
unfolding compare_texts
compare_texts-relation k1 k2 rel a b h1 h2 = rw (
    compare_as-relation (joint (expr_parse_string a k1).kind (expr_parse_string b k2).kind) rel a b
      (expr_parse_string a k1).pattern (expr_parse_string b k2).pattern
      (joint-ne-invalid _ _ (parse-ne-invalid a k1 h1) (parse-ne-invalid b k2 h2)))

-- `!(a='x')` is `a!='x'`, `!(a<='x')` is `a>'x'`, and so on.
abbrev pub opposite : Relation → Relation
opposite equal = unequal
opposite unequal = equal
opposite leq = gth
opposite geq = lth
opposite lth = geq
opposite gth = leq

verdict-opposite :
    (rel : Relation) (o : Ordering) → relation_value (opposite rel) o ≡ 2 - relation_value rel o
unfolding relation_value
verdict-opposite equal o = ground arith
verdict-opposite _ o = ground arith

compare_as-equal :
    (kind : StringValueKind) (a b : Bytes) (l r : ℕ) → compare_as kind equal a b l r ≢ none
unfolding compare_as is_ordered
compare_as-equal k_string a b l r = λ e. cc
compare_as-equal _ a b l r = λ e. cc

compare_texts-equal : (k1 k2 : SymbolType) (a b : Bytes) → compare_texts k1 k2 equal a b ≢ none
unfolding compare_texts
compare_texts-equal k1 k2 a b = ground (
  arith,
  compare_as-equal (joint (expr_parse_string a k1).kind (expr_parse_string b k2).kind) a b
      (expr_parse_string a k1).pattern (expr_parse_string b k2).pattern,
)

pub calc-opposite :
    (t : Table) (rel : Relation) (a b : SymbolId)
    → HasNoOther t
    → expr_calc_value t (comp (opposite rel) a b) ≡ 2 - expr_calc_value t (comp rel a b)
unfolding expr_calc_value compare_symbols
calc-opposite t rel a b h =
    elim (Option-cases (
      compare_texts (t.at a).type (t.at b).type equal (sym_get_string_value t a)
        (sym_get_string_value t b))) [
          | inl e ↦ absurd (compare_texts-equal _ _ _ _ e)
          | inr (o, e) ↦
              rw
                (
                  compare_texts-relation (t.at a).type (t.at b).type rel _ _ (h a) (h b),
                  compare_texts-relation (t.at a).type (t.at b).type (opposite rel)
                      (sym_get_string_value t a) (sym_get_string_value t b) (h a) (h b),
                  e,
                )
                (verdict-opposite rel o)
        ]
