-- ===== src/Config/Setting/Marks.antt =====
-- What setting a bool or tristate symbol changes: marks, the value, and the choice of the user.
use dir842v2_gpl.Common.{
  Option, ◌||◌, Bool, false, ap, sym, ◌&&◌, if◌then◌else◌, ◌≡◌, inl, inr, refl, arith, Bool-cases,
  true, List, [], ◌∷◌, some, ◌==◌, ◌∙◌,
}
use dir842v2_gpl.Config.Types.{Tristate, tri_no, tri_yes, SymbolId, Symbol, Table}
use dir842v2_gpl.Config.Setting.{
  with_def_user, State, symbol_at, modify, assign, mark_user, mark_visible, select_in_choice,
  sym_clear_all_valid,
}

abbrev pub contains : List SymbolId → SymbolId → Bool
contains [] x = false
contains (y ∷ ys) x = x == y || contains ys x

-- The symbol marked as set by the user, where the test says so.
abbrev pub marked_if : Bool → Symbol → Symbol
marked_if b y = record y { flags = record (y.flags) { def_user = y.flags.def_user || b } }

marked_if-marked_if : (a b : Bool) (y : Symbol) → marked_if b (marked_if a y) ≡ marked_if (a || b) y
marked_if-marked_if a b y = ground arith

marked_if-false : (y : Symbol) → marked_if false y ≡ y
marked_if-false y = ground arith

mark_user-Marks :
    (st : State) (s x : SymbolId)
    → symbol_at (mark_user s st) x ≡ marked_if (x == s) (symbol_at st x)
unfolding mark_user modify
mark_user-Marks st s x = elim (Bool-cases (x == s)) [
  | inl e ↦ let q : x ≡ s = ground arith in rw q (ground arith)
  | inr e ↦ ground arith
]

modify-Marks :
    (st : State) (s x : SymbolId)
    → symbol_at (modify s with_def_user st) x ≡ marked_if (x == s) (symbol_at st x)
unfolding modify
modify-Marks st s x = ground arith

-- The values of a choice that the loop marks.
abbrev pub is_shown_in : State → List SymbolId → SymbolId → Bool
is_shown_in st xs x = contains xs x && (if (symbol_at st x).visible == tri_no then false else true)

shown-hidden :
    (st : State) (y : SymbolId) (ys : List SymbolId) (x : SymbolId)
    → ((symbol_at st y).visible == tri_no) ≡ true
    → is_shown_in st ys x ≡ is_shown_in st (y ∷ ys) x
shown-hidden st y ys x h = elim (Bool-cases (x == y)) [
  | inl e ↦ let q : x ≡ y = ground arith in rw (q, h) (ground arith)
  | inr e ↦ rw e refl
]

-- What is marked of `y ∷ ys` where `y` is marked first.
shown-shown :
    (st : State) (y : SymbolId) (ys : List SymbolId) (x : SymbolId)
    → ((symbol_at st y).visible == tri_no) ≡ false
    → marked_if
        (is_shown_in (modify y with_def_user st) ys x)
        (symbol_at (modify y with_def_user st) x)
      ≡ marked_if (is_shown_in st (y ∷ ys) x) (symbol_at st x)
unfolding modify
shown-shown st y ys x h = elim (Bool-cases (x == y)) [
  | inl e ↦ let q : x ≡ y = ground arith in rw (e, q, h) (ground arith)
  | inr e ↦ rw e refl
]

mark_visible-Marks :
    (xs : List SymbolId) (st : State) (x : SymbolId)
    → symbol_at (mark_visible xs st) x ≡ marked_if (is_shown_in st xs x) (symbol_at st x)
unfolding mark_visible
mark_visible-Marks [] st x = sym (marked_if-false (symbol_at st x))
mark_visible-Marks (y ∷ ys) st x = elim (Bool-cases ((symbol_at st y).visible == tri_no)) [
  | inl h ↦ rw h (
      mark_visible-Marks ys st x
      ∙ ap (λ b. marked_if b (symbol_at st x)) (shown-hidden st y ys x h))
  | inr h ↦ rw h (mark_visible-Marks ys (modify y with_def_user st) x ∙ shown-shown st y ys x h)
]

-- Whether the value is set for a choice value that becomes the one chosen.
abbrev pub is_selected : State → SymbolId → Tristate → Bool
is_selected st s val = (symbol_at st s).flags.choice_val && val == tri_yes

-- The symbols that are marked as set by the user on the way.
abbrev pub is_marked : State → SymbolId → Tristate → SymbolId → Bool
is_marked st s val x =
    x == s
    || (is_selected st s val
        && (x == st.choice_of s || is_shown_in st (st.choice_values (st.choice_of s)) x))

-- Marks leave `visible` as it is.
shown-marked :
    (st u : State) (f : SymbolId → Bool) (xs : List SymbolId) (x : SymbolId)
    → symbol_at u x ≡ marked_if (f x) (symbol_at st x)
    → is_shown_in u xs x ≡ is_shown_in st xs x
shown-marked st u f xs x h = rw h refl

select_in_choice-Marks :
    (st : State) (s x : SymbolId)
    → symbol_at (select_in_choice s st) x
      ≡ marked_if
          (x == st.choice_of s || is_shown_in st (st.choice_values (st.choice_of s)) x)
          (symbol_at st x)
unfolding select_in_choice
select_in_choice-Marks st s x =
    let cs : SymbolId = st.choice_of s in
    let xs : List SymbolId = st.choice_values (st.choice_of s) in
    let u : State = record (modify (st.choice_of s) with_def_user st) {
      user_choice = λ y. if y == st.choice_of s then some s else st.user_choice y;
    } in
    let m : symbol_at u x ≡ marked_if (x == cs) (symbol_at st x) = modify-Marks st cs x in
    mark_visible-Marks xs u x
    ∙ ap (λ b. marked_if b (symbol_at u x)) (shown-marked st u (λ y. y == cs) xs x m)
    ∙ ap (marked_if (is_shown_in st xs x)) m
    ∙ marked_if-marked_if (x == cs) (is_shown_in st xs x) (symbol_at st x)

mark_user-choice :
    (st : State) (s : SymbolId)
    → ((mark_user s st).choice_of ≡ st.choice_of)
      × ((mark_user s st).choice_values ≡ st.choice_values)
      × ((mark_user s st).user_choice ≡ st.user_choice)
      × ((mark_user s st).valid ≡ st.valid)
unfolding mark_user modify
mark_user-choice st s = elim (Bool-cases (symbol_at st s).flags.def_user) [
  | inl h ↦ rw h (refl, refl, refl, refl)
  | inr h ↦ rw h (refl, refl, refl, refl)
]

-- The state before `def[S_DEF_USER].tri` is set.
abbrev chosen : SymbolId → Tristate → State → State
chosen s val st =
    if is_selected st s val then select_in_choice s (mark_user s st) else mark_user s st

select_in_choice-Marks_by :
    (st : State) (of : SymbolId → SymbolId) (values : SymbolId → List SymbolId) (s x : SymbolId)
    → st.choice_of ≡ of
    → st.choice_values ≡ values
    → symbol_at (select_in_choice s st) x
      ≡ marked_if (x == of s || is_shown_in st (values (of s)) x) (symbol_at st x)
select_in_choice-Marks_by st of values s x a b = rw (← a, ← b) (select_in_choice-Marks st s x)

selected-Marks :
    (st : State) (s x : SymbolId)
    → symbol_at (select_in_choice s (mark_user s st)) x
      ≡ marked_if
          (x == s || (x == st.choice_of s || is_shown_in st (st.choice_values (st.choice_of s)) x))
          (symbol_at st x)
selected-Marks st s x =
    let (a, b, c, d) = mark_user-choice st s in
    let m = mark_user-Marks st s x in
    let n = select_in_choice-Marks_by (mark_user s st) _ _ s x a b in
    n
    ∙ ap (λ e. marked_if (x == st.choice_of s || e) (symbol_at (mark_user s st) x))
        (shown-marked st (mark_user s st) (λ y. y == s) (st.choice_values (st.choice_of s)) x m)
    ∙ ap (marked_if _) m
    ∙ marked_if-marked_if (x == s) _ (symbol_at st x)

chosen-Marks :
    (st : State) (s : SymbolId) (val : Tristate) (x : SymbolId)
    → symbol_at (chosen s val st) x ≡ marked_if (is_marked st s val x) (symbol_at st x)
chosen-Marks st s val x = elim (Bool-cases (is_selected st s val)) [
  | inl h ↦ rw h (selected-Marks st s x)
  | inr h ↦
      rw h (mark_user-Marks st s x ∙ ap (λ b. marked_if b (symbol_at st x)) (or_false (x == s)))
]
  where
    or_false : (b : Bool) → b ≡ (b || false)
    or_false b = ground arith

-- The symbol with `val` as the user's value, where the test says so.
abbrev pub set_tri : Bool → Tristate → Symbol → Symbol
set_tri b val y = if b then record y { def_tri = val } else y

assign-table :
    (st : State) (s : SymbolId) (val : Tristate)
    → (assign s val st).table
      ≡ (modify s (λ sym. record sym { def_tri = val }) (chosen s val st)).table
unfolding assign sym_clear_all_valid
assign-table st s val = elim (Bool-cases ((symbol_at st s).curr_tri == val)) [
  | inl h ↦ rw h refl
  | inr h ↦ rw h refl
]

pub assign-symbol :
    (st : State) (s : SymbolId) (val : Tristate) (x : SymbolId)
    → symbol_at (assign s val st) x
      ≡ set_tri (x == s) val (marked_if (is_marked st s val x) (symbol_at st x))
unfolding modify
assign-symbol st s val x =
    ap (λ (t : Table). t.at x) (assign-table st s val)
    ∙ ap (set_tri (x == s) val) (chosen-Marks st s val x)

mark_visible-choice :
    (xs : List SymbolId) (st : State)
    → ((mark_visible xs st).user_choice ≡ st.user_choice) × ((mark_visible xs st).valid ≡ st.valid)
unfolding mark_visible modify
mark_visible-choice [] st = (refl, refl)
mark_visible-choice (y ∷ ys) st =
    let b : Bool = (symbol_at st y).visible == tri_no in
    let (c, v) = mark_visible-choice ys (if b then st else modify y with_def_user st) in
    (c ∙ kept_choice b, v ∙ kept_valid b)
  where
    kept_choice :
        (b : Bool) → (if b then st else modify y with_def_user st).user_choice ≡ st.user_choice
    kept_choice true = refl
    kept_choice false = refl

    kept_valid : (b : Bool) → (if b then st else modify y with_def_user st).valid ≡ st.valid
    kept_valid true = refl
    kept_valid false = refl

-- What the user has chosen in each choice, where the one of `s` may be set.
abbrev pub choice_with : Bool → State → SymbolId → SymbolId → Option SymbolId
choice_with b st s x = if b && x == st.choice_of s then some s else st.user_choice x

select_in_choice-choice :
    (st : State) (of : SymbolId → SymbolId) (old : SymbolId → Option SymbolId) (s x : SymbolId)
    → st.choice_of ≡ of
    → st.user_choice ≡ old
    → ((select_in_choice s st).user_choice x ≡ (if x == of s then some s else old x))
      × ((select_in_choice s st).valid ≡ st.valid)
unfolding select_in_choice modify
select_in_choice-choice st of old s x a b =
    let (c, d) = mark_visible-choice (st.choice_values (st.choice_of s)) _ in
    rw (← a, ← b) (ap (λ (f : SymbolId → Option SymbolId). f x) c, d)

chosen-choice :
    (st : State) (s : SymbolId) (val : Tristate) (x : SymbolId)
    → ((chosen s val st).user_choice x ≡ choice_with (is_selected st s val) st s x)
      × ((chosen s val st).valid ≡ st.valid)
chosen-choice st s val x =
    let (a, b, c, d) = mark_user-choice st s in
    elim (Bool-cases (is_selected st s val)) [
      | inl h ↦ let (e, f) = select_in_choice-choice (mark_user s st) _ _ s x a c in rw h (e, f ∙ d)
      | inr h ↦ rw h (ap (λ (f : SymbolId → Option SymbolId). f x) c, d)
    ]

pub assign-choice :
    (st : State) (s : SymbolId) (val : Tristate) (x : SymbolId)
    → ((assign s val st).user_choice x ≡ choice_with (is_selected st s val) st s x)
      × ((assign s val st).valid ≡ (st.valid && (symbol_at st s).curr_tri == val))
unfolding assign sym_clear_all_valid modify
assign-choice st s val x =
    let (c, d) = chosen-choice st s val x in
    elim (Bool-cases ((symbol_at st s).curr_tri == val)) [
      | inl h ↦ rw h (c, d ∙ ground arith)
      | inr h ↦ rw h (c, ground arith)
    ]
