-- ===== src/Signals.antt =====
-- sources/sig_unix_handler.c: the node's handlers of signals, and the name of its pid file.
pub mod Windows
mod Examples
use cellframe_node.Prelude.{
  ℕ, zero, suc, ◌≡◌, refl, ◌≢◌, Bool, true, false, not, ◌&&◌, ◌||◌, Option, none, some, List, [],
  ◌∷◌, ◌++◌, ◌↔◌, ◌⊎◌, ap, sym, subst, arith, ◌==◌, if◌then◌else◌, ℤ, pos, neg, String, Bool-cases,
  inl, inr,
}
use cellframe_node.Process.{Outcome, ret, exit, fault}

-- `s_pid_path`: null, a copy of the name, or a pointer to memory that was freed.
pub data PidPath : Type 0 where
  null : PidPath
  live : String → PidPath
  freed : PidPath

pub data Signal : Type 0 where
  sigint sighup sigterm sigquit sigtstp : Signal

-- Whether a signal has the handler or the default action.
pub data Disposition : Type 0 where
  default handler : Disposition

pub record Signals : Type 0 where
  pub pid_path : PidPath
  pub disposition : Signal → Disposition

abbrev pub at_start : Signals
at_start = record { pid_path = null; disposition = λ _. default }

-- `sig_unix_handler_init`; a path that was there is lost.
unfoldable pub sig_unix_handler_init : String → Signals → Outcome (ℤ × Signals)
sig_unix_handler_init path s =
    ret (pos 0, record { pid_path = live path; disposition = λ _. handler })

-- `sig_unix_handler_deinit`: the pointer is freed, and kept; freeing it again is undefined.
unfoldable pub sig_unix_handler_deinit : Signals → Outcome (ℤ × Signals)
sig_unix_handler_deinit s = elim (s.pid_path) [
  | null ↦ ret (pos 0, record { pid_path = null; disposition = λ _. default })
  | live path ↦ ret (pos 0, record { pid_path = freed; disposition = λ _. default })
  | freed ↦ fault
]

-- `clear_pid_file`, which nothing calls: the path whose file is emptied, if it can be opened.
unfoldable pub clear_pid_file : (String → Bool) → Signals → Outcome (Option String)
clear_pid_file can_write s = elim (s.pid_path) [
  | null ↦ fault
  | live path ↦ ret (if can_write path then some path else none)
  | freed ↦ fault
]

-- What a signal does to the process: `sig_exit_handler` exits with 0; the default action of each
-- of these signals is that of the system.
unfoldable pub deliver : Signals → Signal → Outcome Bool
deliver s sig = elim (s.disposition sig) [ default ↦ ret false | handler ↦ exit (pos 0) ]

pub data Op : Type 0 where
  init : String → Op
  deinit : Op

-- Calls of the two functions, one after the other.
unfoldable pub run_ops : List Op → Signals → Outcome Signals
run_ops [] s = ret s
run_ops (init path ∷ ops) s = elim (sig_unix_handler_init path s) [
  | ret (_, s') ↦ run_ops ops s'
  | exit c ↦ exit c
  | fault ↦ fault
]
run_ops (deinit ∷ ops) s = elim (sig_unix_handler_deinit s) [
  | ret (_, s') ↦ run_ops ops s'
  | exit c ↦ exit c
  | fault ↦ fault
]

-- An initialisation with two deinitialisations right behind it.
abbrev pub FreesTwice : List Op → Type 0
FreesTwice ops =
    (before : List Op) × (path : String) × (after : List Op) × (ops
      ≡ before ++ init path ∷ deinit ∷ deinit ∷ after)

later_FreesTwice : (op : Op) {ops : List Op} → FreesTwice ops → FreesTwice (op ∷ ops)
later_FreesTwice op (before, path, after, e) = (op ∷ before, path, after, ap (λ x. op ∷ x) e)

-- What a fault of the calls shows, by where the pointer stood.
abbrev Cause : PidPath → List Op → Type 0
Cause null ops = FreesTwice ops
Cause (live _) ops = FreesTwice ops ⊎ ((after : List Op) × (ops ≡ deinit ∷ deinit ∷ after))
Cause freed ops = FreesTwice ops ⊎ ((after : List Op) × (ops ≡ deinit ∷ after))

abbrev state : PidPath → (Signal → Disposition) → Signals
state p d = record { pid_path = p; disposition = d }

behind_init : (path : String) {ops : List Op} → Cause (live path) ops → FreesTwice (init path ∷ ops)
behind_init path (inl found) = later_FreesTwice (init path) found
behind_init path (inr (after, e)) = ([], path, after, ap (λ x. init path ∷ x) e)

run_ops-Cause :
    (ops : List Op) (p : PidPath) (d : Signal → Disposition)
    → run_ops ops (state p d) ≡ fault
    → Cause p ops
unfolding run_ops sig_unix_handler_init sig_unix_handler_deinit
run_ops-Cause [] p d h = cc
run_ops-Cause (init path ∷ ops) null d h = behind_init path (run_ops-Cause ops (live path) _ h)
run_ops-Cause (init path ∷ ops) (live q) d h =
    inl (behind_init path (run_ops-Cause ops (live path) _ h))
run_ops-Cause (init path ∷ ops) freed d h =
    inl (behind_init path (run_ops-Cause ops (live path) _ h))
run_ops-Cause (deinit ∷ ops) null d h = later_FreesTwice deinit (run_ops-Cause ops null _ h)
run_ops-Cause (deinit ∷ ops) (live q) d h = elim (run_ops-Cause ops freed _ h) [
  | inl found ↦ inl (later_FreesTwice deinit found)
  | inr (after, e) ↦ inr (after, ap (λ x. deinit ∷ x) e)
]
run_ops-Cause (deinit ∷ ops) freed d h = inr (ops, refl)

faults :
    (before : List Op) (path : String) (after : List Op) (p : PidPath) (d : Signal → Disposition)
    → run_ops (before ++ init path ∷ deinit ∷ deinit ∷ after) (state p d) ≡ fault
unfolding run_ops sig_unix_handler_init sig_unix_handler_deinit
faults [] path after p d = refl
faults (init q ∷ before) path after p d = faults before path after (live q) _
faults (deinit ∷ before) path after null d = faults before path after null _
faults (deinit ∷ before) path after (live q) d = faults before path after freed _
faults (deinit ∷ before) path after freed d = refl

FreesTwice-faults : {ops : List Op} → FreesTwice ops → run_ops ops at_start ≡ fault
FreesTwice-faults (before, path, after, e) =
    subst (λ x. run_ops x at_start ≡ fault) (sym e) (faults before path after null (λ _. default))

-- From the start on, calls of the handlers' initialisation and deinitialisation free the name of
-- the pid file twice exactly if somewhere an initialisation has two deinitialisations right behind
-- it.
pub run_ops-fault : (ops : List Op) → (run_ops ops at_start ≡ fault) ↔ FreesTwice ops
run_ops-fault ops = (run_ops-Cause ops null (λ _. default), FreesTwice-faults)

-- What a signal does behind this call.
abbrev pub delivery : Op → Outcome Bool
delivery (init _) = exit (pos 0)
delivery deinit = ret false

delivered :
    (ops : List Op) (op : Op) (sig : Signal) (p : PidPath) (d : Signal → Disposition) (s : Signals)
    → run_ops (ops ++ op ∷ []) (state p d) ≡ ret s
    → deliver s sig ≡ delivery op
unfolding run_ops sig_unix_handler_init sig_unix_handler_deinit deliver
delivered [] (init path) sig p d s h = ground arith
delivered [] deinit sig null d s h = ground arith
delivered [] deinit sig (live q) d s h = ground arith
delivered [] deinit sig freed d s h = cc
delivered (init q ∷ ops) op sig p d s h = delivered ops op sig (live q) _ s h
delivered (deinit ∷ ops) op sig null d s h = delivered ops op sig null _ s h
delivered (deinit ∷ ops) op sig (live q) d s h = delivered ops op sig freed _ s h
delivered (deinit ∷ ops) op sig freed d s h = cc

-- Behind any calls of the two functions that free nothing twice, each of the five signals ends the
-- process with exit code 0 if the last call was an initialisation, and has the system's default
-- action if it was a deinitialisation.
pub run_ops-deliver :
    (ops : List Op) (op : Op) (sig : Signal) (s : Signals)
    → run_ops (ops ++ op ∷ []) at_start ≡ ret s
    → deliver s sig ≡ delivery op
run_ops-deliver ops op sig s h = delivered ops op sig null (λ _. default) s h
