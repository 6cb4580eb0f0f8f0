-- ===== src/Config/Reader/Lines.antt =====
-- How the reader takes the lines that the printer writes.
use dir842v2_gpl.Common.{
  Split, ℕ, ◌≡◌, ◌∙◌, ap, refl, arith, true, false, [], ◌∷◌, ◌++◌, some, Bytes, codes, is_word, all,
  lacks, all-lacks, lacks-append, strip_prefix, strip_prefix-append, split_on, split_on-append,
}
use dir842v2_gpl.Config.Printer.{starts_with, assignment, not_set}
use dir842v2_gpl.Config.Reader.{
  Line, unset, assigned, unset_of, assigned_of, strip_cr, value_of, split_line, parse_line,
  c_string,
}

-- A value that a line can hold.
pub record IsPlain (value : Bytes) : Type 0 where
  pub no_newline : lacks b'\n' value ≡ true
  pub no_zero : lacks 0 value ≡ true
  pub no_cr_at_end : strip_cr value ≡ value

c_string-eq : (s : Bytes) → lacks 0 s ≡ true → c_string s ≡ s
unfolding c_string lacks
c_string-eq [] h = refl
c_string-eq (c ∷ s) h = ground (arith, c_string-eq s)

starts_with-words :
    (s t : Bytes)
    → all is_word s ≡ true
    → starts_with b'#' t ≡ false
    → starts_with b'#' (s ++ t) ≡ false
unfolding all
starts_with-words [] t h k = k
starts_with-words (c ∷ s) t h k = ground arith

split_line-hit :
    (f : Split → Line) (c : ℕ) (s : Bytes) (x : Split)
    → split_on c s ≡ some x
    → split_line f c (some s) ≡ f x
split_line-hit f c s x h = rw (split_line, h) refl

value_of-hit : (p : Bytes) (x : Split) → split_on b'\n' p ≡ some x → value_of p ≡ strip_cr x.before
value_of-hit p x h = rw (value_of, h) refl

parse_line-assigned :
    (prefix line : Bytes)
    → starts_with b'#' line ≡ false
    → parse_line prefix line ≡ split_line assigned_of b'=' (strip_prefix prefix line)
unfolding parse_line strip_prefix split_on
parse_line-assigned [] [] h = refl
parse_line-assigned (c ∷ prefix) [] h = refl
parse_line-assigned prefix (c ∷ line) h = rw (parse_line, h) refl

module _ (prefix name : Bytes) (words : all is_word prefix ≡ true)
    (named : all is_word name ≡ true) where
  name-lacks : (b : ℕ) → is_word b ≡ false → lacks b name ≡ true
  name-lacks b n = all-lacks is_word b name n named

  prefix-lacks : (b : ℕ) → is_word b ≡ false → lacks b prefix ≡ true
  prefix-lacks b n = all-lacks is_word b prefix n words

  module _ (value : Bytes) (plain : IsPlain value) where
    abbrev tail_of : Bytes
    tail_of = b'=' ∷ (value ++ codes "\n")

    tail-lacks : lacks 0 tail_of ≡ true
    unfolding lacks
    tail-lacks = lacks-append 0 value (codes "\n") plain.no_zero refl

    assignment-lacks : lacks 0 (assignment prefix name value) ≡ true
    assignment-lacks =
        lacks-append 0 prefix (name ++ tail_of) (prefix-lacks 0 refl)
          (lacks-append 0 name tail_of (name-lacks 0 refl) tail-lacks)

    value_of-line : value_of (value ++ codes "\n") ≡ value
    value_of-line =
        value_of-hit (value ++ codes "\n") _ (split_on-append b'\n' value [] plain.no_newline)
        ∙ plain.no_cr_at_end

    pub parse_line-assignment :
        parse_line prefix (c_string (assignment prefix name value)) ≡ assigned name value
    parse_line-assignment =
        let first : starts_with b'#' (assignment prefix name value) ≡ false =
          starts_with-words prefix (name ++ tail_of) words
            (starts_with-words name tail_of named refl) in
        ap (parse_line prefix) (c_string-eq (assignment prefix name value) assignment-lacks)
        ∙ parse_line-assigned prefix (assignment prefix name value) first
        ∙ ap (split_line assigned_of b'=') (strip_prefix-append prefix (name ++ tail_of))
        ∙ split_line-hit assigned_of b'=' (name ++ tail_of) _
            (split_on-append b'=' name (value ++ codes "\n") (name-lacks b'=' refl))
        ∙ ap (assigned name) value_of-line

  abbrev unset_tail : Bytes
  unset_tail = codes " is not set\n"

  not_set-lacks : lacks 0 (not_set prefix name) ≡ true
  unfolding lacks
  not_set-lacks =
      lacks-append 0 prefix (name ++ unset_tail) (prefix-lacks 0 refl)
        (lacks-append 0 name unset_tail (name-lacks 0 refl) refl)

  pub parse_line-not_set : parse_line prefix (c_string (not_set prefix name)) ≡ unset name
  unfolding parse_line strip_prefix
  parse_line-not_set =
      ap (parse_line prefix) (c_string-eq (not_set prefix name) not_set-lacks)
      ∙ ap (split_line unset_of b' ') (strip_prefix-append prefix (name ++ unset_tail))
      ∙ split_line-hit unset_of b' ' (name ++ unset_tail) _
          (split_on-append b' ' name (codes "is not set\n") (name-lacks b' ' refl))
