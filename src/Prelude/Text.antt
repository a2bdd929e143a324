-- ===== src/Prelude/Text.antt =====
-- C strings as native texts: comparison, joining, and the length in bytes.
pub use Prim.Native.Char.{code}
pub use Prim.Native.String.{◌++◌ as ◌<>◌, len, slice}
pub use text.Mathlib.Text.{◌==◌ as str_eq}
pub use text.Mathlib.TextEquality.{eq_iff}
use Prim.Native.Nat.{ℕ, ◌-◌}
use Prim.Native.String.{String}
pub use text.Mathlib.TextPositions.{eq_refl, len-append, slice_all}

-- `snprintf(buffer, size, …)` of this text into a buffer of `size` bytes, one of them the null.
abbrev pub snprintf : ℕ → String → String
snprintf size text = slice text 0 (size - 1)
