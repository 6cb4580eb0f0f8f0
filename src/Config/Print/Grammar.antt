-- ===== src/Config/Print/Grammar.antt =====
-- The words that the lexer of package/config/zconf.l makes of an expression, and the rules `expr` of
-- zconf.y with their precedence: `!` binds more than `&&`, and `&&` more than `||`, both to the left.
use dir842v2_gpl.Common.{
  ℕ, Bool, true, false, ◌&&◌, ◌||◌, ◌==◌, leb, is_digit, ◌≡◌, List, [], ◌∷◌, ◌++◌, Option, none,
  some, if◌then◌else◌, Bytes, codes, str_eq,
}
use dir842v2_gpl.Config.Types.{SymbolId, Relation, lth, gth, Expr, symbol, not, and, or, comp}
use dir842v2_gpl.Config.Print.{sign_text}

pub data Word : Type 0 where
  t_open t_close t_not t_and t_or : Word
  t_relation : Relation → Word
  t_symbol : SymbolId → Word

-- `{n}|[/.]`, the bytes of a word without quotes.
abbrev pub is_word_byte : ℕ → Bool
is_word_byte c =
    (leb b'A' c && leb c b'Z')
    || (leb b'a' c && leb c b'z')
    || is_digit c
    || c == b'_'
    || c == b'-'
    || c == b'/'
    || c == b'.'

abbrev pub are_word_bytes : Bytes → Bool
are_word_bytes [] = true
are_word_bytes (c ∷ s) = is_word_byte c && are_word_bytes s

-- The keywords with TF_PARAM are no words.
unfoldable pub is_word : Bytes → Bool
is_word [] = false
is_word (c ∷ s) =
    is_word_byte c
    && (are_word_bytes s
        && ((if str_eq (c ∷ s) (codes "if") then false else true)
            && (if str_eq (c ∷ s) (codes "on") then false else true)))

-- No word goes on here.
abbrev pub ends_word : Bytes → Bool
ends_word [] = true
ends_word (c ∷ s) = if is_word_byte c then false else true

abbrev pub is_no_equals : Bytes → Bool
is_no_equals [] = true
is_no_equals (c ∷ s) = if c == b'=' then false else true

abbrev pub sign_of : Word → Option Bytes
sign_of t_open = some (codes "(")
sign_of t_close = some (codes ")")
sign_of t_not = some (codes "!")
sign_of t_and = some (codes "&&")
sign_of t_or = some (codes "||")
sign_of (t_relation k) = some (sign_text k)
sign_of (t_symbol s) = none

-- Whether no longer sign begins with this one, where such a text follows.
abbrev pub is_longest : Word → Bytes → Bool
is_longest t_not s = is_no_equals s
is_longest (t_relation lth) s = is_no_equals s
is_longest (t_relation gth) s = is_no_equals s
is_longest _ s = true

-- What the lexer makes of a text, the longest match each time. A word stands for the symbol that
-- `find`, which is `sym_lookup(name, 0)`, gives for it.
pub data Lexes (find : Bytes → SymbolId) : Bytes → List Word → Type 0 where
  the_end : {r : Bytes} → r ≡ [] → Lexes find r []
  a_blank : {r s : Bytes} {ws : List Word} → r ≡ b' ' ∷ s → Lexes find s ws → Lexes find r ws
  a_sign :
      {r s sign : Bytes} {ws : List Word} (w : Word)
      → sign_of w ≡ some sign
      → r ≡ sign ++ s
      → is_longest w s ≡ true
      → Lexes find s ws
      → Lexes find r (w ∷ ws)
  a_word :
      {r s : Bytes} {ws : List Word} (name : Bytes)
      → r ≡ name ++ s
      → is_word name ≡ true
      → ends_word s ≡ true
      → Lexes find s ws
      → Lexes find r (t_symbol (find name) ∷ ws)

mutual
  pub data Unary : List Word → Expr → Type 0 where
    a_symbol : {s : SymbolId} {ws : List Word} → ws ≡ t_symbol s ∷ [] → Unary ws (symbol s)
    a_comparison :
        {k : Relation} {s r : SymbolId} {ws : List Word}
        → ws ≡ t_symbol s ∷ (t_relation k ∷ (t_symbol r ∷ []))
        → Unary ws (comp k s r)
    parentheses :
        {ws us : List Word} {e : Expr}
        → ws ≡ t_open ∷ (us ++ (t_close ∷ []))
        → Disjunction us e
        → Unary ws e
    negated : {ws us : List Word} {e : Expr} → ws ≡ t_not ∷ us → Unary us e → Unary ws (not e)

  pub data Conjunction : List Word → Expr → Type 0 where
    one_factor : {ws : List Word} {e : Expr} → Unary ws e → Conjunction ws e
    conjoined :
        {ws us vs : List Word} {e f : Expr}
        → ws ≡ us ++ (t_and ∷ vs)
        → Conjunction us e
        → Unary vs f
        → Conjunction ws (and e f)

  pub data Disjunction : List Word → Expr → Type 0 where
    one_term : {ws : List Word} {e : Expr} → Conjunction ws e → Disjunction ws e
    disjoined :
        {ws us vs : List Word} {e f : Expr}
        → ws ≡ us ++ (t_or ∷ vs)
        → Disjunction us e
        → Conjunction vs f
        → Disjunction ws (or e f)
