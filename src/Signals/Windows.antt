-- ===== src/Signals/Windows.antt =====
-- The handlers of a build for Windows: of console events (sources/sig_win32_handler.c), and of
-- exceptions (sources/exh_win32.c).
use cellframe_node.Prelude.{
  ℕ, zero, suc, ◌≡◌, refl, Bool, true, false, List, [], ◌∷◌, ◌++◌, if◌then◌else◌, ℤ, pos, String,
}
use cellframe_node.Process.{Outcome, ret, exit}

pub data CtrlType : Type 0 where
  ctrl_c ctrl_close ctrl_break ctrl_logoff ctrl_shutdown : CtrlType
  -- any other code
  other : ℕ → CtrlType

-- What is seen and heard: `SetConsoleTextAttribute`, `printf`, `Beep`.
pub data Shown : Type 0 where
  coloured : ℕ → Shown
  printed : String → Shown
  beeped : ℕ → ℕ → Shown

abbrev pub announce : CtrlType → List Shown
announce ctrl_c = printed "Ctrl-C event\n\n" ∷ beeped 750 300 ∷ []
announce ctrl_close = beeped 600 200 ∷ printed "Ctrl-Close event\n\n" ∷ []
announce ctrl_break = beeped 900 200 ∷ printed "Ctrl-Break event\n\n" ∷ []
announce ctrl_logoff = beeped 1000 200 ∷ printed "Ctrl-Logoff event\n\n" ∷ []
announce ctrl_shutdown = beeped 750 500 ∷ printed "Ctrl-Shutdown event\n\n" ∷ []
announce (other _) = []

-- `ExitProcess(2)` follows, whatever the event.
unfoldable pub sig_exit_handler : CtrlType → List Shown × Outcome Bool
sig_exit_handler event = (coloured 12 ∷ (announce event ++ (coloured 7 ∷ [])), exit (pos 2))

-- How often the handler is in the list of the process. `SetConsoleCtrlHandler` adds it, if it
-- succeeds, or takes it off once.
unfoldable pub sig_win32_handler_init : Bool → ℕ → ℤ × ℕ
sig_win32_handler_init added handlers = if added then (pos 0, suc handlers) else (pos 1, handlers)

unfoldable pub sig_win32_handler_deinit : ℕ → ℤ × ℕ
sig_win32_handler_deinit zero = (pos 0, zero)
sig_win32_handler_deinit (suc handlers) = (pos 0, handlers)

-- An event: without the handler the system does what it does.
unfoldable pub deliver_event : CtrlType → ℕ → List Shown × Outcome Bool
unfolding sig_exit_handler
deliver_event event zero = ([], ret false)
deliver_event event (suc _) = sig_exit_handler event

-- `S_SetExceptionFilter`: no boxes about errors, and where the filter is put.
pub data Setting : Type 0 where
  quiet_errors vectored_filter unhandled_filter : Setting

unfoldable pub set_exception_filter : Bool → List Setting
set_exception_filter win64 =
    quiet_errors ∷ (if win64 then vectored_filter else unhandled_filter) ∷ []

-- `ExceptionFilter`: what `Beep` returns.
unfoldable pub exception_filter : (ℕ → ℕ → ℤ) → ℤ
exception_filter beep = beep 1000 200

-- Behind an initialisation that succeeds, every event ends the process with the code 2; and behind
-- the deinitialisation each is treated as it was before both.
pub deliver_event-init :
    (event : CtrlType) (handlers : ℕ)
    → let behind = (sig_win32_handler_init true handlers).1 in
      ((deliver_event event behind).1 ≡ exit (pos 2))
      × (deliver_event event (sig_win32_handler_deinit behind).1 ≡ deliver_event event handlers)
unfolding deliver_event sig_exit_handler sig_win32_handler_init sig_win32_handler_deinit
deliver_event-init event handlers = (refl, refl)
