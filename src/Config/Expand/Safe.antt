-- ===== src/Config/Expand/Safe.antt =====
-- sym_expand_string_value never writes past its buffer, whose size it keeps up to date.
use mathlib.Core.Path.{subst}
use mathlib.Core.Path.{subst}
use dir842v2_gpl.Common.{
  ℕ, zero, suc, ◌+◌, ◌*◌, ◌≡◌, ◌<◌, ◌≤◌, refl, ap, arith, Bool, true, false, Bool-cases, inl, inr,
  [], ◌∷◌, ◌++◌, Option, none, some, eq_of_some-eq_some, prepend_split, ◌==◌, ltb, ◌&&◌,
  if◌then◌else◌, Bytes, length, length-append, split_on, Split,
}
use dir842v2_gpl.Config.Types.{SymbolId}
use dir842v2_gpl.Config.Symtab.{Store, sym_find}
use dir842v2_gpl.Config.Calc.{sym_calc_value}
use dir842v2_gpl.Config.Calc.State.{World, M, ◌>>=◌}
use dir842v2_gpl.Config.Calc.Settles.{IsClosed}
use dir842v2_gpl.Config.Calc.Ends.{>>=-some, bind-Ends}
use dir842v2_gpl.Config.Calc.Once.{HasSymbols, weight-calculated, IsCalculated-weight, enough}
use dir842v2_gpl.Config.Calc.DepsEnd.{string_value-Ends}
use dir842v2_gpl.Config.Calc.Strings.Runs.{Ran, Runs, calls, Ends-Runs, pure-Runs}
use dir842v2_gpl.Config.Expand.{
  expand_at, symbol_maxlength, Buffer, append_to, lift, name_of, after_name, read_name, make_room,
  allocated, value_of_found, expand_name, expand, sym_expand_string_value,
}

-- No `$` stands before a name that is too long for the array `name`.
unfoldable pub short_names : Bytes → Bool
short_names [] = true
short_names (c ∷ s) =
    (if c == b'$' then ltb (length (name_of s)) symbol_maxlength else true) && short_names s

length-after_name : (s : Bytes) → length (after_name s) ≤ length s
unfolding after_name
length-after_name [] = omega arith
length-after_name (c ∷ s) = ground (arith, length-after_name s)

short_names-after : (s : Bytes) → short_names s ≡ true → short_names (after_name s) ≡ true
unfolding short_names after_name
short_names-after [] h = h
short_names-after (c ∷ s) h = ground (arith, short_names-after s)

-- What a found `$` tells of the text.
record Parted (s : Bytes) (x : Split) : Type 0 where
  lengths : length x.before + suc (length x.after) ≡ length s
  short :
      short_names s ≡ true
      → (length (name_of x.after) < symbol_maxlength) × (short_names x.after ≡ true)

prepended :
    (c : ℕ) (o : Option Split) (x : Split)
    → prepend_split c o ≡ some x
    → (y : Split) × (o ≡ some y) × (record { before = c ∷ y.before; after = y.after } ≡ x)
prepended c none x h = cc
prepended c (some y) x h = (y, refl, eq_of_some-eq_some h)

split_on-Parted : (s : Bytes) (x : Split) → split_on b'$' s ≡ some x → Parted s x
unfolding split_on short_names
split_on-Parted [] x h = cc
split_on-Parted (c ∷ s) x h = elim (Bool-cases (c == b'$')) [
  | inl e ↦
      let q : record { before = []; after = s } ≡ x = eq_of_some-eq_some (rw e at h) in
      subst (Parted (c ∷ s)) q (record { lengths = omega arith; short = λ k. ground arith })
  | inr n ↦
      let (y, p, q) = prepended c (split_on b'$' s) x (rw n at h) in
      let r = split_on-Parted s y p in
      let l = r.lengths in
      subst (Parted (c ∷ s)) q
        (record { lengths = omega arith; short = λ k. r.short (ground arith) })
]

append_to-fits :
    (s : Bytes) (b : Buffer)
    → length b.text + length s < b.size
    → append_to s b ≡ some (record b { text = b.text ++ s })
unfolding append_to
append_to-fits s b h = ground arith

make_room-text : (m : ℕ) (b : Buffer) → (make_room m b).text ≡ b.text
unfolding make_room
make_room-text m b = ground arith

make_room-size : (m : ℕ) (b : Buffer) → m ≤ (make_room m b).size
unfolding make_room
make_room-size m b = ground arith

-- A program that ends without a fault, and what holds of its result.
record Safely {A : Type 0} (n : ℕ) (p : M A) (w : World) (P : A → Type 0) : Type 0 where
  ran : Ran n p w
  holds : P ran.value

abbrev dollar : ℕ
dollar = 36

module _ (n : ℕ) where
  abbrev AllSafely : {A : Type 0} → M A → (A → Type 0) → Type 0
  AllSafely p P = (w : World) → IsClosed n w → Safely n p w P

  bind-Safely :
      {A B : Type 0} {p : M A} {f : A → M B} {P : A → Type 0} {Q : B → Type 0}
      → AllSafely p P
      → ((a : A) → P a → AllSafely (f a) Q)
      → AllSafely (p >>= f) Q
  bind-Safely {p} {f} hp hf w c =
      let r = hp w c in
      let q = hf r.ran.value r.holds r.ran.after r.ran.closed in
      record {
        ran = record {
          value = q.ran.value;
          after = q.ran.after;
          ends = >>=-some p f w r.ran.value r.ran.after r.ran.ends _ q.ran.ends;
          closed = q.ran.closed;
        };
        holds = q.holds;
      }

  lift-Safely :
      {A : Type 0} {P : A → Type 0} (o : Option A) (a : A) → o ≡ some a → P a → AllSafely (lift o) P
  lift-Safely o a e h w c = record {
    ran = record { value = a; after = w; ends = rw e refl; closed = c };
    holds = h;
  }

  any-Safely : {A : Type 0} (p : M A) → Runs n p → AllSafely p (λ _. Unit {0})
  any-Safely p h w c = record { ran = h w c; holds = tt }

  module _ (st : Store) where
    value-Runs : (o : Option SymbolId) → Runs n (value_of_found st (sym_calc_value (enough n)) o)
    value-Runs none = pure-Runs n []
    value-Runs (some s) = Ends-Runs n _ (
        bind-Ends n (3 * n) 0 (calls n s)
          (λ u. string_value-Ends n (3 * n) 0 (sym_calc_value (enough n)) (calls n) s))

    -- What is still to come has room behind what is there.
    abbrev Fits : Bytes → Buffer → Type 0
    Fits s b = length b.text + length s < b.size

    name-Safely :
        (src : Bytes) (b : Buffer)
        → length (name_of src) < symbol_maxlength
        → AllSafely (expand_name st (sym_calc_value (enough n)) src b) (Fits (after_name src))
    unfolding expand_name
    name-Safely src b short =
        bind-Safely {P = λ _. Unit {0}}
          (lift-Safely (read_name src) (name_of src) (ground arith) tt)
          (λ name _.
            bind-Safely (any-Safely _ (value-Runs (sym_find (some name) st)))
              (λ symval _. appended symval))
      where
        room : Bytes → Buffer
        room symval = make_room (length b.text + length symval + length (after_name src) + 1) b

        appended :
            (symval : Bytes)
            → AllSafely (lift (append_to symval (room symval))) (Fits (after_name src))
        appended symval =
            let same =
              ap length
                (make_room-text (length b.text + length symval + length (after_name src) + 1) b) in
            let large =
              make_room-size (length b.text + length symval + length (after_name src) + 1) b in
            let more = length-append (room symval).text symval in
            lift-Safely _ (record (room symval) { text = (room symval).text ++ symval })
              (append_to-fits symval (room symval) (omega arith)) (omega arith)

    -- One round of the loop, by what strchr finds.
    round-Safely :
        (rest : Bytes → Buffer → M Buffer) (s : Bytes) (b : Buffer) (o : Option Split)
        → ((x : Split) → o ≡ some x → Parted s x)
        → short_names s ≡ true
        → Fits s b
        → ((t : Bytes) (c : Buffer)
            → length t < length s
            → short_names t ≡ true
            → Fits t c
            → AllSafely (rest t c) (λ r. length r.text < r.size))
        → AllSafely
            (expand_at st (sym_calc_value (enough n)) rest s b o)
            (λ r. length r.text < r.size)
    unfolding expand_at
    round-Safely rest s b none parted short fit later =
        lift-Safely _ (record b { text = b.text ++ s }) (append_to-fits s b fit)
          (let more = length-append b.text s in omega arith)
    round-Safely rest s b (some x) parted short fit later =
        let p = parted x refl in
        let sizes = p.lengths in
        let (name, names) = p.short short in
        let more = length-append b.text x.before in
        let fewer = length-after_name x.after in
        bind-Safely {P = λ c. Fits x.after c}
          (lift-Safely _ (record b { text = b.text ++ x.before })
            (append_to-fits x.before b (omega arith)) (omega arith))
          (λ c _. bind-Safely (name-Safely x.after c name) (λ d room.
            later (after_name x.after) d (omega arith) (short_names-after x.after names) room))

    expand-Safely :
        (fuel : ℕ) (s : Bytes) (b : Buffer)
        → length s < fuel
        → short_names s ≡ true
        → Fits s b
        → AllSafely (expand st (sym_calc_value (enough n)) fuel s b) (λ r. length r.text < r.size)
    unfolding expand
    expand-Safely zero s b l short fit = absurd (omega arith)
    expand-Safely (suc fuel) s b l short fit =
        round-Safely (expand st (sym_calc_value (enough n)) fuel) s b (split_on dollar s)
          (λ x e. split_on-Parted s x e) short fit
          (λ t c less names room. expand-Safely fuel t c (omega arith) names room)

    -- When no name behind a `$` in the text has 256 bytes or more, and past the first `n` symbols all is
    -- calculated, sym_expand_string_value ends, with the fuel for `n` symbols: no write is past its
    -- buffer or past the array for the name, whatever the symbols expand to.
    pub sym_expand_string_value_safe :
        (s : Bytes) (w : World)
        → short_names s ≡ true
        → HasSymbols n w
        → (r : Bytes) × (v : World) × (sym_expand_string_value st (sym_calc_value (enough n)) s w
            ≡ some (r, v))
          × HasSymbols n v
    unfolding sym_expand_string_value
    sym_expand_string_value_safe s w short closed =
        let r =
          bind-Safely {Q = λ _. Unit {0}}
            (expand-Safely (suc (length s)) s (allocated s) (omega arith) short (omega arith))
            (λ b room. any-Safely _ (pure-Runs n b.text)) w
            (λ x l. weight-calculated (w.at x) (closed x l)) in
        (
          r.ran.value,
          r.ran.after,
          r.ran.ends,
          λ x l. IsCalculated-weight (r.ran.after.at x) (r.ran.closed x l),
        )

-- A name of 256 bytes or more is written past the array.
pub sym_expand_string_value_faults :
    (st : Store) (calc : SymbolId → M (Unit {0})) (s : Bytes) (w : World)
    → symbol_maxlength ≤ length (name_of s)
    → sym_expand_string_value st calc (dollar ∷ s) w ≡ none
unfolding sym_expand_string_value expand expand_at split_on append_to expand_name ◌>>=◌
sym_expand_string_value_faults st calc s w h =
    let room : ltb 0 (suc (length s) + 1) ≡ true = ground arith in
    let long : ltb (length (name_of s)) symbol_maxlength ≡ false = ground arith in
    rw (room, long) refl
