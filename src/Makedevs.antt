-- ===== src/Makedevs.antt =====
-- package/makedevs/makedevs.c: what main does for a line of the device table, once sscanf has read
-- it. A run is the list of the system calls made so far with whether the exit code is a failure;
-- whether the call with a given number succeeds is an argument, as the file system decides it.
-- makedev, mode bits and the ids of users and groups are numbers; `unsigned` has 32 bits.
pub mod Names
pub mod Nodes
mod Tests
use dir842v2_gpl.Common.{
  decimal, ℕ, zero, suc, ◌+◌, ◌-◌, ◌*◌, ◌/◌, ◌%◌, ◌^◌, Bool, true, false, ◌&&◌, ◌||◌, List, [], ◌∷◌,
  ◌++◌, ltb, ◌==◌, if◌then◌else◌, Bytes, length,
}

-- What sscanf reads, with the number of conversions, and the ids of `user` and `group`. `any_field`
-- is not below 0xfffff when one of the five numbers is not, being their bitwise or.
pub record Entry : Type 0 where
  pub fields : ℕ
  pub any_field : ℕ
  pub name : Bytes
  pub type : ℕ
  pub mode : ℕ
  pub uid : ℕ
  pub gid : ℕ
  pub major : ℕ
  pub minor : ℕ
  pub start : ℕ
  pub increment : ℕ
  pub count : ℕ

pub data Call : Type 0 where
  make_directory : Bytes → ℕ → Call
  chown : Bytes → ℕ → ℕ → Call
  chmod : Bytes → ℕ → Call
  is_regular : Bytes → Call
  recursive : Bytes → ℕ → ℕ → ℕ → Call
  mknod : Bytes → ℕ → ℕ → ℕ → Call

pub record Run : Type 0 where
  pub calls : List Call
  pub failed : Bool

-- `sprintf(full_name_inc, count ? "%s%u" : "%s", full_name, i)`, after `count--`.
unfoldable pub node_name : Bytes → ℕ → ℕ → Bytes
node_name full_name count i = if count == 0 then full_name else full_name ++ decimal i

abbrev pub last_count : Entry → ℕ
last_count e = if e.count == 0 then 0 else e.count - 1

abbrev pub node_minor : Entry → ℕ → ℕ
node_minor e i = (e.minor + (i - e.start) * e.increment) % 2 ^ 32

abbrev pub logged : Run → Call → Run
logged r c = record r { calls = r.calls ++ (c ∷ []) }

abbrev pub failure : Run → Run
failure r = record r { failed = true }

-- `mode |= bit`, for one bit.
abbrev pub with_bit : ℕ → ℕ → ℕ
with_bit bit mode = if mode / bit % 2 == 1 then mode else mode + bit

abbrev pub is_comment : Bytes → Bool
is_comment [] = false
is_comment (c ∷ _) = c == b'#'

module _ (succeeds : ℕ → Bool) where
  -- Whether the next call succeeds.
  abbrev pub next_succeeds : Run → Bool
  next_succeeds r = succeeds (length r.calls)

  -- chown, then chmod, each with its error.
  unfoldable pub own : Bytes → ℕ → Entry → Run → Run
  own path mode e r =
      let c = logged r (chown path e.uid e.gid) in
      let m = logged c (chmod path mode) in
      if next_succeeds r then if next_succeeds c then m else failure m else failure c

  -- The body of the loop over `i`.
  unfoldable pub make_node : Bytes → ℕ → Entry → ℕ → Run → Run
  make_node full_name mode e i r =
      let path = node_name full_name (last_count e) i in
      let n = logged r (mknod path mode e.major (node_minor e i)) in
      if next_succeeds r then own path mode e n else failure n

  -- The loop, for so many values from `i` on.
  unfoldable pub make_nodes : ℕ → Bytes → ℕ → Entry → ℕ → Run → Run
  make_nodes zero full_name mode e i r = r
  make_nodes (suc n) full_name mode e i r =
      make_nodes n full_name mode e (suc i) (make_node full_name mode e i r)

  abbrev pub device : Bytes → ℕ → Entry → Run → Run
  device full_name mode e r = make_nodes (suc (last_count e)) full_name mode e e.start r

  -- The same, with no chmod for the mode -1.
  abbrev pub own_unless : Bytes → Entry → Run → Run
  own_unless path e r =
      let c = logged r (chown path e.uid e.gid) in
      if e.mode == 2 ^ 32 - 1 then if next_succeeds r then c else failure c else own path e.mode e r

  -- A directory, whose creation is not looked at.
  abbrev pub directory : Bytes → Entry → Run → Run
  directory full_name e r =
      own_unless full_name e (logged r (make_directory full_name (with_bit (2 ^ 14) e.mode)))

  -- A regular file; one of type F may be missing.
  abbrev pub file : Bytes → Entry → Run → Run
  file full_name e r =
      let s = logged r (is_regular full_name) in
      if next_succeeds r then own_unless full_name e s else if e.type == b'F' then s else failure s

  abbrev pub recurse : Bytes → Entry → Run → Run
  recurse full_name e r =
      let s = logged r (recursive full_name e.uid e.gid e.mode) in
      if next_succeeds r then s else failure s

  -- By the type: d, f or F, r, p, c or b, with the bits S_IFIFO, S_IFCHR and S_IFBLK.
  unfoldable pub make_entry : Bytes → Entry → Run → Run
  make_entry full_name e r =
      if e.type == b'd'
      then directory full_name e r
      else if e.type == b'f' || e.type == b'F'
      then file full_name e r
      else if e.type == b'r'
      then recurse full_name e r
      else if e.type == b'p'
      then device full_name (with_bit (2 ^ 12) e.mode) e r
      else if e.type == b'c'
      then device full_name (with_bit (2 ^ 13) e.mode) e r
      else if e.type == b'b'
      then device full_name (with_bit (2 ^ 13) (with_bit (2 ^ 14) e.mode)) e r
      else failure r

  -- A line that does not parse is passed over when it is empty, a comment or starts with a space,
  -- which `blank` tells; a name that starts with # is a comment too.
  unfoldable pub make_line : Bool → Bytes → Entry → Run → Run
  make_line blank full_name e r =
      if ltb e.fields 2 || ltb 1048575 e.any_field
      then if blank then r else failure r
      else if is_comment e.name
      then r
      else make_entry full_name e r
