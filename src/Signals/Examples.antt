-- ===== src/Signals/Examples.antt =====
-- Calls of the signal handlers' two functions.
use cellframe_node.Prelude.{◌≡◌, ◌↔◌, List, [], ◌∷◌}
use cellframe_node.Process.{fault}
use cellframe_node.Signals.{Op, init, deinit, run_ops, at_start, FreesTwice, run_ops-fault}

abbrev twice : List Op
twice = deinit ∷ init "/tmp/node.pid" ∷ deinit ∷ deinit ∷ []

run_ops-fault_example : (run_ops twice at_start ≡ fault) ↔ FreesTwice twice
run_ops-fault_example = run_ops-fault twice
