-- ===== src/Node/PidLock/Examples.antt =====
-- Runs of `s_proc_running_check` on small pid files.
use cellframe_node.Prelude.{List, ℕ, ◌≡◌, refl, true, some, [], ◌∷◌, arith, pos, neg}
use cellframe_node.Node.Decimal.{decimal, scan_int}
use cellframe_node.Node.PidLock.{
  PidFile, returned, step, locked_from, locked_within, proc_running_check,
}
use cellframe_node.Node.PidLock.Sequential.{
  claimed, with_lock, check_outcome, proc_running_check-outcome, proc_running_check_stale,
}
use cellframe_node.Node.PidLock.System.{System, advance, init, Reach, here, Inv, Reach-Inv}
use cellframe_node.Node.PidLock.Events.{
  Act, checks, ends, act, check_event, without, play_acts, no_events, IsExclusive,
  play_acts-IsExclusive,
}
use cellframe_node.Node.PidLock.Exclusion.{
  schedule, Reach-schedule, fresh_file, proc_running_check_exclusive, proc_running_check_overlap,
}

-- The file that a former node, gone without a trace of a lock, has left behind.
abbrev left_behind : PidFile
left_behind = record {
  content = some (b'9' ∷ b'1' ∷ []);
  readable = true;
  writable = true;
  locks = [];
}

abbrev owned : PidFile
owned = with_lock 4507 (claimed 4507 left_behind)

owned_refused : proc_running_check 23 owned ≡ (returned (pos 1), owned)
unfolding proc_running_check step decimal scan_int locked_from
owned_refused = refl

-- A file that begins with no number is not tested: the call empties it, writes to it, and fails
-- only at its own lock.
unnumbered_overwritten :
    (proc_running_check 23 (record owned { content = some (b'x' ∷ []) })).0 ≡ returned (neg 1)
unfolding proc_running_check step decimal scan_int locked_from locked_within
unnumbered_overwritten = refl

proc_running_check_stale_example :
    ((proc_running_check 23 left_behind).0 ≡ returned (pos 0))
    × ((proc_running_check 23 left_behind).1.content ≡ some (decimal 23))
proc_running_check_stale_example = proc_running_check_stale 23 left_behind refl refl

abbrev one_call : System
one_call = schedule (7 ∷ 7 ∷ 7 ∷ 7 ∷ []) (init fresh_file)

one_call-Reach : Reach fresh_file one_call
one_call-Reach = Reach-schedule fresh_file (7 ∷ 7 ∷ 7 ∷ 7 ∷ []) here

Reach-Inv_example : Inv one_call
Reach-Inv_example = Reach-Inv fresh_file one_call-Reach

proc_running_check_exclusive_example : ◌≡◌ {A = ℕ} 7 7
unfolding advance step decimal locked_within
proc_running_check_exclusive_example =
    proc_running_check_exclusive fresh_file 7 7 one_call-Reach refl refl (omega arith) (omega arith)

proc_running_check_overlap_example :
    (s : System) × Reach fresh_file s
    × (s.pc 7 ≡ returned (pos 0))
    × (s.pc 12345 ≡ returned (pos 0))
unfolding decimal
proc_running_check_overlap_example = proc_running_check_overlap 7 12345 (omega arith)

proc_running_check-outcome_example : proc_running_check 23 owned ≡ check_outcome 23 owned
proc_running_check-outcome_example = proc_running_check-outcome 23 owned

-- The second of two fails; behind the end of the first, and of its own, a third gets 0.
abbrev three_nodes : List Act
three_nodes = checks 4 ∷ checks 5 ∷ ends 4 ∷ ends 5 ∷ checks 6 ∷ []

three_nodes-played :
    play_acts true three_nodes no_events ≡ record { handles = 6 ∷ []; winners = 6 ∷ [] }
unfolding play_acts act check_event without
three_nodes-played = refl

play_acts-IsExclusive_example :
    IsExclusive (play_acts true (checks 4 ∷ checks 5 ∷ ends 5 ∷ []) no_events)
play_acts-IsExclusive_example = play_acts-IsExclusive (checks 4 ∷ checks 5 ∷ ends 5 ∷ [])
