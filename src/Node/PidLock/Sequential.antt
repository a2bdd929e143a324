-- ===== src/Node/PidLock/Sequential.antt =====
-- `s_proc_running_check` in one process at a time.
use cellframe_node.Prelude.{
  ℕ, ◌≡◌, refl, ◌≢◌, Bool, true, ◌&&◌, ◌++◌, some, List, [], ◌∷◌, append-nil, arith, length, drop,
  if◌then◌else◌, is_some, pos, neg,
}
use cellframe_node.Node.Decimal.{decimal, scan_int, is_nonzero, scan_int-decimal}
use cellframe_node.Node.PidLock.{
  PidFile, Pc, returned, bytes, locked_from, locked_within, step, proc_running_check,
}

-- The pid file after `me` has written it from the start.
abbrev pub claimed : ℕ → PidFile → PidFile
claimed me f = record f { content = some (decimal me) }

abbrev pub with_lock : ℕ → PidFile → PidFile
with_lock me f = record f { locks = record { owner = me; first = length (decimal me) } ∷ f.locks }

-- A node is taken to run if the file can be read, does not begin like something that is no
-- number, and is locked somewhere behind what was read.
abbrev pub seems_running : ℕ → PidFile → Bool
seems_running me f =
    (is_some f.content && f.readable)
    && (is_nonzero (scan_int (bytes f.content))
        && locked_from me (length (bytes f.content)) f.locks)

-- The outcomes, as one table.
abbrev pub check_outcome : ℕ → PidFile → Pc × PidFile
check_outcome me f =
    if seems_running me f
    then (returned (pos 1), f)
    else if f.writable
    then (if locked_within me (length (decimal me)) f.locks
        then (returned (neg 1), claimed me f)
        else (returned (pos 0), with_lock me (claimed me f)))
    else (returned (pos 2), f)

drop_nil : (n : ℕ) → drop {A = ℕ} n [] ≡ []
drop_nil ℕ.zero = refl
drop_nil (ℕ.suc n) = refl

written_bytes : (d : List ℕ) → d ++ drop (length d) [] ≡ d
written_bytes d = rw drop_nil (append-nil d)

-- An undisturbed call of `s_proc_running_check` returns, and does what the table says: 1 and
-- nothing changed if a node seems to run; else 2 and nothing changed if the file cannot be
-- written; else the file holds the caller's pid, and the result is 0 with the caller's lock
-- added, or -1 if another process has a lock in the way.
pub proc_running_check-outcome :
    (me : ℕ) (f : PidFile) → proc_running_check me f ≡ check_outcome me f
unfolding proc_running_check step
proc_running_check-outcome me f = ground (arith, written_bytes (decimal me))

module _ (me q : ℕ) (f g : PidFile) (differ : me ≢ q) where
  -- Where a call by `q` on a readable file has returned 0 and left `g`, an undisturbed call by
  -- another process returns 1 and leaves `g` as it is.
  pub proc_running_check_second :
      f.readable ≡ true
      → proc_running_check q f ≡ (returned (pos 0), g)
      → proc_running_check me g ≡ (returned (pos 1), g)
  unfolding locked_from
  proc_running_check_second readable won =
      rw proc_running_check-outcome
        (ground (arith, proc_running_check-outcome q f, won, scan_int-decimal q))

-- Where no process has a lock and the file can be written, an undisturbed call returns 0
-- whatever a former node has left in the file, and the file then holds the caller's pid.
pub proc_running_check_stale :
    (me : ℕ) (f : PidFile)
    → f.locks ≡ []
    → f.writable ≡ true
    → (proc_running_check me f).0 ≡ returned (pos 0)
      × ((proc_running_check me f).1.content ≡ some (decimal me))
unfolding locked_from locked_within
proc_running_check_stale me f free writable = rw proc_running_check-outcome (ground arith)
