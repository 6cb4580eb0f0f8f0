-- ===== src/Sstrip/Endian/Laws.antt =====
-- What a field is given is what it holds.
use mathlib.Core.List.{append-nil, append_assoc}
use dir842v2_gpl.Common.{
  sym, Bool-cases, inl, inr, ◌==◌, ℕ, zero, suc, ◌+◌, ◌*◌, ◌/◌, ◌%◌, ◌^◌, ◌<◌, ◌≡◌, refl, arith,
  ◌∙◌, ap, Bool, true, false, [], ◌∷◌, ◌++◌, Bytes, length, length-append,
}
use dir842v2_gpl.Sstrip.Endian.{bytes_of, number_of, reversed, bswap, eget, eset}

data AreBytes : Bytes → Type 0 where
  nil : AreBytes []
  cons : {b : ℕ} {bs : Bytes} → b < 256 → AreBytes bs → AreBytes (b ∷ bs)

bytes_of-AreBytes : (k x : ℕ) → AreBytes (bytes_of k x)
unfolding bytes_of
bytes_of-AreBytes zero x = nil
bytes_of-AreBytes (suc k) x = cons (omega arith) (bytes_of-AreBytes k (x / 256))

append-AreBytes : {bs cs : Bytes} → AreBytes bs → AreBytes cs → AreBytes (bs ++ cs)
append-AreBytes nil q = q
append-AreBytes (cons h p) q = cons h (append-AreBytes p q)

reversed-AreBytes : {bs : Bytes} → AreBytes bs → AreBytes (reversed bs)
unfolding reversed
reversed-AreBytes nil = nil
reversed-AreBytes (cons h p) = append-AreBytes (reversed-AreBytes p) (cons h nil)

length-bytes_of : (k x : ℕ) → length (bytes_of k x) ≡ k
unfolding bytes_of
length-bytes_of zero x = refl
length-bytes_of (suc k) x = ap suc (length-bytes_of k (x / 256))

length-reversed : (bs : Bytes) → length (reversed bs) ≡ length bs
unfolding reversed
length-reversed [] = refl
length-reversed (b ∷ bs) = omega (arith, length-append (reversed bs) (b ∷ []), length-reversed bs)

bytes_of-number_of : {bs : Bytes} → AreBytes bs → bytes_of (length bs) (number_of bs) ≡ bs
unfolding bytes_of number_of
bytes_of-number_of nil = refl
bytes_of-number_of (cons {b} {bs} h p) =
    let low : (b + 256 * number_of bs) % 256 ≡ b = omega arith in
    let high : (b + 256 * number_of bs) / 256 ≡ number_of bs = omega arith in
    rw (low, high, bytes_of-number_of p) refl

reversed-append : (bs cs : Bytes) → reversed (bs ++ cs) ≡ reversed cs ++ reversed bs
unfolding reversed
reversed-append [] cs = sym (append-nil (reversed cs))
reversed-append (b ∷ bs) cs =
    rw (reversed-append bs cs) (append_assoc (reversed cs) (reversed bs) (b ∷ []))

reversed-reversed : (bs : Bytes) → reversed (reversed bs) ≡ bs
unfolding reversed
reversed-reversed [] = refl
reversed-reversed (b ∷ bs) = rw (reversed-append (reversed bs) (b ∷ []), reversed-reversed bs) refl

number_of-bytes_of : (k x : ℕ) → x < 256 ^ k → number_of (bytes_of k x) ≡ x
unfolding bytes_of number_of
number_of-bytes_of zero x h = omega arith
number_of-bytes_of (suc k) x h = omega (arith, number_of-bytes_of k (x / 256) (omega arith))

-- Swapping the bytes twice gives a number of that many bytes back.
bswap-bswap : (k x : ℕ) → x < 256 ^ k → bswap k (bswap k x) ≡ x
unfolding bswap
bswap-bswap k x h =
    let bs : Bytes = reversed (bytes_of k x) in
    let l : length bs ≡ k = length-reversed (bytes_of k x) ∙ length-bytes_of k x in
    let inner : bytes_of k (number_of bs) ≡ bs =
      ap (λ (n : ℕ). bytes_of n (number_of bs)) (sym l)
      ∙ bytes_of-number_of (reversed-AreBytes (bytes_of-AreBytes k x)) in
    ap (λ (c : Bytes). number_of (reversed c)) inner
    ∙ ap number_of (reversed-reversed (bytes_of k x))
    ∙ number_of-bytes_of k x h

pub pow256-positive : (k : ℕ) → 0 < 256 ^ k
pow256-positive zero = omega arith
pow256-positive (suc k) = omega (arith, pow256-positive k)

-- In a field of any width and either byte order, EGET reads what ESET wrote, reduced to the width.
pub eget-eset : (reverse : Bool) (k x : ℕ) → eget reverse k (eset reverse k x) ≡ x % 256 ^ k
unfolding eget eset
eget-eset false k x = refl
eget-eset true k x = elim (Bool-cases (k == 1)) [
  | inl h ↦ rw h refl
  | inr h ↦ rw h (bswap-bswap k (x % 256 ^ k) (omega (arith, pow256-positive k)))
]
