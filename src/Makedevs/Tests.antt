-- ===== src/Makedevs/Tests.antt =====
-- A line of the device table, and the theorems applied to it.
use dir842v2_gpl.Common.{
  decimal, decimal_within, ℕ, ◌≡◌, ◌++◌, max, inl, inr, refl, Bool, true, false, [], codes,
}
use dir842v2_gpl.Makedevs.{Entry, Run, node_name, make_entry, make_nodes, make_node, own, make_line}
use dir842v2_gpl.Makedevs.Nodes.{make_entry-nodes, line_calls, device_mode}

-- /dev/ttyS c 660 0 5 4 64 0 1 2
abbrev serial : Entry
serial = record {
  fields = 10;
  any_field = 71;
  name = codes "/dev/ttyS";
  type = b'c';
  mode = 432;
  uid = 0;
  gid = 5;
  major = 4;
  minor = 64;
  start = 0;
  increment = 1;
  count = 2;
}

abbrev nothing_done : Run
nothing_done = record { calls = []; failed = false }

abbrev all_succeed : ℕ → Bool
all_succeed _ = true

numbered : node_name (codes "tty") 1 42 ≡ codes "tty42"
unfolding node_name decimal decimal_within
numbered = refl

no_failure : (make_entry all_succeed (codes "/r/dev/ttyS") serial nothing_done).failed ≡ false
unfolding make_entry make_nodes make_node own
no_failure = refl

invalid :
    (make_line all_succeed false (codes "/r") (record serial { fields = 1 }) nothing_done).failed
    ≡ true
unfolding make_line
invalid = refl

make_entry-nodes_example :
    (nothing_done.failed ≡ false)
    × ((make_entry all_succeed (codes "/r/dev/ttyS") serial nothing_done).calls
        ≡ nothing_done.calls
          ++ line_calls (max 1 2) (codes "/r/dev/ttyS") (device_mode serial) serial 0)
make_entry-nodes_example =
    make_entry-nodes all_succeed (codes "/r/dev/ttyS") serial nothing_done (inr (inl refl))
      no_failure
