-- ===== src/Config/Expand.antt =====
-- sym_expand_string_value of package/config/symbol.c, and file_lookup of util.c. `st` is the hash
-- table, where the parser has put all symbols, and `calc` is sym_calc_value. A write past the buffer
-- `res` or past the array `name` is a fault, and gives nothing; so does fuel that runs out, and one
-- more than the length of the text is enough.
pub mod Safe
pub mod Lookup
mod Tests
use dir842v2_gpl.Common.{
  ℕ, zero, suc, ◌+◌, Bool, true, false, List, [], ◌∷◌, ◌++◌, Option, none, some, ltb, ◌==◌, ◌&&◌,
  ◌||◌, if◌then◌else◌, Bytes, length, Split, is_word, split_on, str_eq,
}
use dir842v2_gpl.Config.Types.{SymbolId}
use dir842v2_gpl.Config.Symtab.{Store, sym_find}
use dir842v2_gpl.Config.Calc.State.{World, M, ◌>>=◌, ◌>>◌, pure}
use dir842v2_gpl.Config.Calc.Deps.{string_value}

abbrev pub symbol_maxlength : ℕ
symbol_maxlength = 256

-- An allocated string: the bytes before the terminating zero, and the size of the allocation.
pub record Buffer : Type 0 where
  pub text : Bytes
  pub size : ℕ

-- strcat and strncat, which do not look at the size.
unfoldable pub append_to : Bytes → Buffer → Option Buffer
append_to s b =
    if ltb (length b.text + length s) b.size then some (record b { text = b.text ++ s }) else none

abbrev pub lift : {A : Type 0} → Option A → M A
lift none w = none
lift (some a) w = some (a, w)

-- The bytes of a name, and what follows.
unfoldable pub name_of : Bytes → Bytes
name_of [] = []
name_of (c ∷ s) = if is_word c then c ∷ name_of s else []

unfoldable pub after_name : Bytes → Bytes
after_name [] = []
after_name (c ∷ s) = if is_word c then after_name s else c ∷ s

-- The array holds the name and a terminating zero.
abbrev pub read_name : Bytes → Option Bytes
read_name s = if ltb (length (name_of s)) symbol_maxlength then some (name_of s) else none

unfoldable pub make_room : ℕ → Buffer → Buffer
make_room newlen b = if ltb b.size newlen then record b { size = newlen } else b

abbrev pub allocated : Bytes → Buffer
allocated s = record { text = []; size = length s + 1 }

-- A `struct file` is known by a number, the address that xmalloc gave.
pub record KconfigFile : Type 0 where
  pub address : ℕ
  pub name : Bytes

-- file_list, and the next free address.
pub record Files : Type 0 where
  pub file_list : List KconfigFile
  pub next : ℕ

unfoldable pub find_file : Bytes → List KconfigFile → Option KconfigFile
find_file name [] = none
find_file name (f ∷ fs) = if str_eq name f.name then some f else find_file name fs

unfoldable pub add_file : Bytes → Files → KconfigFile × Files
add_file name fs =
    let f : KconfigFile = record { address = fs.next; name = name } in
    (f, record { file_list = f ∷ fs.file_list; next = fs.next + 1 })

abbrev pub found_or_added : Bytes → Option KconfigFile → Files → KconfigFile × Files
found_or_added name none fs = add_file name fs
found_or_added name (some f) fs = (f, fs)

module _ (st : Store) (calc : SymbolId → M (Unit {0})) where
  -- An unknown symbol expands to the empty string.
  abbrev pub value_of_found : Option SymbolId → M Bytes
  value_of_found none = pure []
  value_of_found (some s) = do calc s; string_value calc s

  -- The body of the loop, from behind the `$`.
  unfoldable pub expand_name : Bytes → Buffer → M Buffer
  expand_name src b = do
    name ← lift (read_name src)
    symval ← value_of_found (sym_find (some name) st)
    lift (
        append_to symval
          (make_room (length b.text + length symval + length (after_name src) + 1) b))

  -- The loop, with what strchr finds and what the rest of the loop does.
  unfoldable pub expand_at : (Bytes → Buffer → M Buffer) → Bytes → Buffer → Option Split → M Buffer
  expand_at rest s b none = lift (append_to s b)
  expand_at rest s b (some x) = do
    b1 ← lift (append_to x.before b)
    b2 ← expand_name x.after b1
    rest (after_name x.after) b2

  unfoldable pub expand : ℕ → Bytes → Buffer → M Buffer
  expand zero s b = λ w. none
  expand (suc fuel) s b = expand_at (expand fuel) s b (split_on b'$' s)

  unfoldable pub sym_expand_string_value : Bytes → M Bytes
  sym_expand_string_value s = do b ← expand (suc (length s)) s (allocated s); pure b.text

  -- The name that is compared is the one before expansion.
  unfoldable pub file_lookup : Bytes → Files → M (KconfigFile × Files)
  file_lookup name fs = do
    file_name ← sym_expand_string_value name
    pure (found_or_added file_name (find_file name fs.file_list) fs)
