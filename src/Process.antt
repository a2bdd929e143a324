-- ===== src/Process.antt =====
-- How a C function of a command line program ends: it returns, it calls `exit`, or it runs into
-- undefined behaviour (a null or wild pointer is read, a buffer is written past its end).
use cellframe_node.Prelude.{ℕ, ◌-◌, ◌%◌, ◌≡◌, refl, ℤ, pos, negsuc, neg}

pub data Outcome {ℓ} (A : Type ℓ) : Type ℓ where
  ret : A → Outcome A
  exit : ℤ → Outcome A
  fault : Outcome A

-- The low eight bits of an exit code, all that a parent process sees of it.
unfoldable pub exit_status : ℤ → ℕ
exit_status (pos n) = n % 256
exit_status (negsuc n) = 255 - n % 256

exit_status_runs : exit_status (neg 2003) ≡ 45
unfolding exit_status
exit_status_runs = refl
