-- ===== src/Config/Escape/Numeric.antt =====
-- The bytes of a valid number.
use mathlib.Core.Path.{subst}
use dir842v2_gpl.Common.{
  sym, ℕ, ◌≡◌, ◌⊎◌, inl, inr, refl, arith, true, false, [], ◌∷◌, ◌==◌, Bytes, some, is_digit,
  is_xdigit, all, lacks, all-lacks,
}
use dir842v2_gpl.Config.Types.{SymbolType, int, hex}
use dir842v2_gpl.Config.Escape.{
  store_valid, conf_set_sym_val, Slot, digits_valid, int_valid, hex_digits, hex_valid,
  sym_string_valid,
}

-- A byte that stands in no number.
pub record IsForeign (b : ℕ) : Type 0 where
  pub digit : is_digit b ≡ false
  pub xdigit : is_xdigit b ≡ false
  pub minus : (b'-' == b) ≡ false
  pub lower : (b'x' == b) ≡ false
  pub upper : (b'X' == b) ≡ false

digits-lacks : (b : ℕ) (s : Bytes) → IsForeign b → digits_valid s ≡ true → lacks b s ≡ true
unfolding digits_valid all
digits-lacks b [] f h = cc
digits-lacks b (c ∷ []) f h = all-lacks is_digit b (c ∷ []) f.digit (ground arith)
digits-lacks b (c ∷ d ∷ s) f h = all-lacks is_digit b (c ∷ d ∷ s) f.digit (ground arith)

int-lacks : (b : ℕ) (s : Bytes) → IsForeign b → int_valid s ≡ true → lacks b s ≡ true
unfolding int_valid lacks
int-lacks b [] f h = cc
int-lacks b (c ∷ s) f h = ground (arith, f.minus, digits-lacks b s f, digits-lacks b (c ∷ s) f)

hex_digits-lacks : (b : ℕ) (s : Bytes) → IsForeign b → hex_digits s ≡ true → lacks b s ≡ true
unfolding hex_digits
hex_digits-lacks b [] f h = cc
hex_digits-lacks b (c ∷ s) f h = all-lacks is_xdigit b (c ∷ s) f.xdigit h

hex-lacks : (b : ℕ) (s : Bytes) → IsForeign b → hex_valid s ≡ true → lacks b s ≡ true
unfolding hex_valid lacks
hex-lacks b [] f h = hex_digits-lacks b [] f h
hex-lacks b (c ∷ []) f h = hex_digits-lacks b (c ∷ []) f h
hex-lacks b (c ∷ x ∷ s) f h =
    ground
      (arith, f.lower, f.upper, f.digit, hex_digits-lacks b s f, hex_digits-lacks b (c ∷ x ∷ s) f)

pub number-lacks :
    (k : SymbolType) (b : ℕ) (s : Bytes)
    → k ≡ int ⊎ k ≡ hex
    → IsForeign b
    → sym_string_valid k s ≡ true
    → lacks b s ≡ true
unfolding sym_string_valid
number-lacks int b s k f h = int-lacks b s f h
number-lacks hex b s k f h = hex-lacks b s f h
number-lacks _ b s k f h = ground arith

store_valid-kept :
    (s : Slot) (p : Bytes)
    → sym_string_valid s.type p ≡ true
    → store_valid s p ≡ record { sym = record s { val = some p; flagged = true }; code = 0 }
unfolding store_valid
store_valid-kept s p h = rw h refl

-- A slot of a known type.
pub slot-typed :
    (P : Slot → Type 0) (type : SymbolType) (slot : Slot)
    → slot.type ≡ type
    → P (record slot { type = type })
    → P slot
slot-typed P type slot k p = subst (λ (t : SymbolType). P (record slot { type = t })) (sym k) p

abbrev Keeps : Bytes → Slot → Type 0
Keeps p s =
    sym_string_valid s.type p ≡ true
    → conf_set_sym_val s p ≡ record { sym = record s { val = some p; flagged = true }; code = 0 }

pub conf_set_sym_val-number :
    (s : Slot) (p : Bytes)
    → s.type ≡ int ⊎ s.type ≡ hex
    → sym_string_valid s.type p ≡ true
    → conf_set_sym_val s p ≡ record { sym = record s { val = some p; flagged = true }; code = 0 }
unfolding conf_set_sym_val
conf_set_sym_val-number s p (inl k) h =
    slot-typed (Keeps p) int s k (store_valid-kept (record s { type = int }) p) h
conf_set_sym_val-number s p (inr k) h =
    slot-typed (Keeps p) hex s k (store_valid-kept (record s { type = hex }) p) h
