-- ===== src/Makedevs/Nodes.antt =====
-- The system calls for a line of devices.
use dir842v2_gpl.Common.{
  ◌⊎◌, max, ◌^◌, ◌==◌, if◌then◌else◌, ℕ, zero, suc, ◌≡◌, ◌∙◌, sym, ap, refl, arith, Bool, inl, inr,
  true, false, List, [], ◌∷◌, ◌++◌, Bytes,
}
use dir842v2_gpl.Makedevs.{
  make_entry, with_bit, Entry, Call, chown, chmod, mknod, Run, logged, failure, last_count,
  node_name, node_minor, next_succeeds, own, make_node, make_nodes,
}
use mathlib.Core.List.{append-nil, append_assoc}

-- The calls for the node `i`.
abbrev pub node_calls : Bytes → ℕ → Entry → ℕ → List Call
node_calls full_name mode e i =
    let path = node_name full_name (last_count e) i in
    mknod path mode e.major (node_minor e i) ∷ chown path e.uid e.gid ∷ chmod path mode ∷ []

-- Those for so many nodes from `i` on.
unfoldable pub line_calls : ℕ → Bytes → ℕ → Entry → ℕ → List Call
line_calls zero full_name mode e i = []
line_calls (suc n) full_name mode e i =
    node_calls full_name mode e i ++ line_calls n full_name mode e (suc i)

-- A run that has not failed, and the calls that it has made.
record Fine (r u : Run) (calls : List Call) : Type 0 where
  before : r.failed ≡ false
  made : u.calls ≡ r.calls ++ calls

-- Three calls, each made only if the one before succeeds.
abbrev in_turn : Bool → Bool → Bool → Run → Call → Call → Call → Run
in_turn p q w r c1 c2 c3 =
    let a = logged r c1 in
    let b = logged a c2 in
    let c = logged b c3 in
    if p then if q then if w then c else failure c else failure b else failure a

in_turn-Fine :
    (p q w : Bool) (r : Run) (c1 c2 c3 : Call)
    → (in_turn p q w r c1 c2 c3).failed ≡ false
    → Fine r (in_turn p q w r c1 c2 c3) (c1 ∷ c2 ∷ c3 ∷ [])
in_turn-Fine true true true r c1 c2 c3 h = record {
  before = h;
  made =
      append_assoc (r.calls ++ (c1 ∷ [])) (c2 ∷ []) (c3 ∷ [])
      ∙ append_assoc r.calls (c1 ∷ []) (c2 ∷ c3 ∷ []);
}
in_turn-Fine true true false r c1 c2 c3 h = cc
in_turn-Fine true false w r c1 c2 c3 h = cc
in_turn-Fine false q w r c1 c2 c3 h = cc

node-Fine :
    (s : ℕ → Bool) (full_name : Bytes) (mode : ℕ) (e : Entry) (i : ℕ) (r : Run)
    → (make_node s full_name mode e i r).failed ≡ false
    → Fine r (make_node s full_name mode e i r) (node_calls full_name mode e i)
unfolding make_node own
node-Fine s full_name mode e i r h =
    let path = node_name full_name (last_count e) i in
    let n = logged r (mknod path mode e.major (node_minor e i)) in
    let c = logged n (chown path e.uid e.gid) in
    in_turn-Fine (next_succeeds s r) (next_succeeds s n) (next_succeeds s c) r
      (mknod path mode e.major (node_minor e i)) (chown path e.uid e.gid) (chmod path mode) h

nodes-Fine :
    (s : ℕ → Bool) (n : ℕ) (full_name : Bytes) (mode : ℕ) (e : Entry) (i : ℕ) (r : Run)
    → (make_nodes s n full_name mode e i r).failed ≡ false
    → Fine r (make_nodes s n full_name mode e i r) (line_calls n full_name mode e i)
unfolding make_nodes line_calls
nodes-Fine s zero full_name mode e i r h = record { before = h; made = sym (append-nil r.calls) }
nodes-Fine s (suc n) full_name mode e i r h =
    let m = make_node s full_name mode e i r in
    let k = nodes-Fine s n full_name mode e (suc i) m h in
    let l = node-Fine s full_name mode e i r k.before in
    record {
      before = l.before;
      made =
          k.made
          ∙ ap (λ (x : List Call). x ++ line_calls n full_name mode e (suc i)) l.made
          ∙ append_assoc r.calls (node_calls full_name mode e i)
              (line_calls n full_name mode e (suc i));
    }

-- The mode of a device node of the given type, S_IFIFO, S_IFCHR or S_IFBLK set in it.
abbrev pub device_mode : Entry → ℕ
device_mode e =
    if e.type == b'p'
    then with_bit (2 ^ 12) e.mode
    else if e.type == b'c'
    then with_bit (2 ^ 13) e.mode
    else with_bit (2 ^ 13) (with_bit (2 ^ 14) e.mode)

make_entry-device :
    (s : ℕ → Bool) (full_name : Bytes) (e : Entry) (r : Run)
    → (e.type ≡ b'p') ⊎ (e.type ≡ b'c') ⊎ (e.type ≡ b'b')
    → make_entry s full_name e r
      ≡ make_nodes s (suc (last_count e)) full_name (device_mode e) e e.start r
unfolding make_entry
make_entry-device s full_name e r (inl h) = rw (make_entry, h) refl
make_entry-device s full_name e r (inr (inl h)) = rw (make_entry, h) refl
make_entry-device s full_name e r (inr (inr h)) = rw (make_entry, h) refl

node_count : (e : Entry) → suc (last_count e) ≡ max 1 e.count
node_count e = ground arith

-- When the exit code is not a failure after a line of type p, c or b, it was none before, and the
-- calls made for the line are a mknod, a chown and a chmod for each of its nodes, which are as
-- many as the count says and one where that is 0, with the numbers from `start` on.
pub make_entry-nodes :
    (s : ℕ → Bool) (full_name : Bytes) (e : Entry) (r : Run)
    → (e.type ≡ b'p') ⊎ (e.type ≡ b'c') ⊎ (e.type ≡ b'b')
    → (make_entry s full_name e r).failed ≡ false
    → (r.failed ≡ false)
      × ((make_entry s full_name e r).calls
          ≡ r.calls ++ line_calls (max 1 e.count) full_name (device_mode e) e e.start)
make_entry-nodes s full_name e r t h =
    let d = make_entry-device s full_name e r t in
    let f =
      nodes-Fine s (suc (last_count e)) full_name (device_mode e) e e.start r
        (ap (λ (u : Run). u.failed) (sym d) ∙ h) in
    (
      f.before,
      ap (λ (u : Run). u.calls) d
          ∙ f.made
          ∙ ap (λ (n : ℕ). r.calls ++ line_calls n full_name (device_mode e) e e.start)
              (node_count e),
    )
