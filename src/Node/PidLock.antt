-- ===== src/Node/PidLock.antt =====
-- `s_proc_running_check` (sources/cellframe-node.c), the guard against a second node, on POSIX.
-- The pid file and its record locks are a state; the function is cut into the system calls that
-- it makes, so that the steps of several processes can be interleaved.
pub mod Sequential
pub mod System
pub mod Exclusion
pub mod Events
mod Examples
use cellframe_node.Prelude.{
  ℕ, zero, suc, ◌+◌, Bool, false, ◌&&◌, ◌||◌, not, Option, none, some, List, [], ◌∷◌, ◌++◌, ltb,
  ◌==◌, length, drop, if◌then◌else◌, is_some, ℤ, pos, neg,
}
use cellframe_node.Node.Decimal.{decimal, scan_int, is_nonzero}

-- `sizeof(pid_t)`
abbrev pub pid_size : ℕ
pid_size = 4

-- A lock of `pid_size` bytes from `first` on.
pub record Lock : Type 0 where
  pub owner : ℕ
  pub first : ℕ

-- The pid file (`none`: there is none), whether opening it to read and to write is permitted,
-- and the locks that processes hold on it.
pub record PidFile : Type 0 where
  pub content : Option (List ℕ)
  pub readable : Bool
  pub writable : Bool
  pub locks : List Lock

-- `lockf(fd, F_TEST, 0)` fails: from `offset` to the end of all files another process has a lock.
unfoldable pub locked_from : ℕ → ℕ → List Lock → Bool
locked_from me offset [] = false
locked_from me offset (l ∷ ls) =
    (not (l.owner == me) && ltb offset (l.first + pid_size)) || locked_from me offset ls

-- `lockf(fd, F_TLOCK, sizeof(pid_t))` fails: another process has a lock on one of the bytes.
unfoldable pub locked_within : ℕ → ℕ → List Lock → Bool
locked_within me offset [] = false
locked_within me offset (l ∷ ls) =
    (not (l.owner == me) && (ltb offset (l.first + pid_size) && ltb l.first (offset + pid_size)))
    || locked_within me offset ls

-- Where a call of `s_proc_running_check` stands; `dead` is a process that is gone.
pub data Pc : Type 0 where
  start : Pc
  -- behind `fopen(a_path, "r")`
  opened : Pc
  -- behind `fscanf`, at this file offset
  scanned : ℕ → Pc
  -- before the `freopen` or `fopen` that writes
  rewriting : Pc
  -- behind it, the file being open at offset 0
  truncated : Pc
  -- behind `fflush`, at this file offset
  written : ℕ → Pc
  returned : ℤ → Pc
  dead : Pc

abbrev pub bytes : Option (List ℕ) → List ℕ
bytes none = []
bytes (some b) = b

-- One system call of process `me`. The file offset behind `fscanf` is the end of the file, since
-- the buffered read takes all of a file this short.
unfoldable pub step : ℕ → Pc → PidFile → Pc × PidFile
step me start f = if is_some f.content && f.readable then (opened, f) else (rewriting, f)
step me opened f =
    let b = bytes f.content in
    if is_nonzero (scan_int b) then (scanned (length b), f) else (rewriting, f)
step me (scanned offset) f =
    if locked_from me offset f.locks then (returned (pos 1), f) else (rewriting, f)
step me rewriting f =
    if f.writable then (truncated, record f { content = some [] }) else (returned (pos 2), f)
step me truncated f =
    let d = decimal me in
    (written (length d), record f { content = some (d ++ drop (length d) (bytes f.content)) })
step me (written offset) f =
    if locked_within me offset f.locks
    then (returned (neg 1), f)
    else (returned (pos 0), record f { locks = record { owner = me; first = offset } ∷ f.locks })
step me (returned r) f = (returned r, f)
step me dead f = (dead, f)

-- The steps of one process with none of another between them.
unfoldable pub run : ℕ → ℕ → Pc → PidFile → Pc × PidFile
run zero me pc f = (pc, f)
run (suc n) me pc f = let (pc', f') = step me pc f in run n me pc' f'

-- A call of `s_proc_running_check` that no other process disturbs: six steps are enough.
unfoldable pub proc_running_check : ℕ → PidFile → Pc × PidFile
unfolding run
proc_running_check me f = run 6 me start f
