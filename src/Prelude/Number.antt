-- ===== src/Prelude/Number.antt =====
-- The C library's readers of decimal numbers, on the code points of a text.
use Prim.Native.Nat.{ℕ, ◌+◌, ◌-◌, ◌*◌, ◌/◌, ◌%◌, ◌^◌}
use Prim.Native.Char.{code}
use Prim.Native.String.{String}
use mathlib.Core.Path.{◌≡◌, refl}
use mathlib.Core.Bool.{Bool, true, false, ◌&&◌, ◌||◌}
use mathlib.Core.List.{List, [], ◌∷◌}
use cellframe_node.Prelude.Tests.{leb, ltb, ◌==◌, if◌then◌else◌}
use cellframe_node.Prelude.Int.{ℤ, pos, neg}

abbrev pub codes : String → List ℕ
codes String.[] = []
codes (String.◌∷◌ c s) = code c ∷ codes s

-- The number that the digits at the front make, behind those read already.
unfoldable pub digits : ℕ → List ℕ → ℕ
digits acc [] = acc
digits acc (c ∷ cs) =
    let more = digits (acc * 10 + (c - 48)) cs in if leb 48 c && leb c 57 then more else acc

-- White space in front is skipped.
unfoldable pub skip_space : List ℕ → List ℕ
skip_space [] = []
skip_space (c ∷ cs) =
    let rest = skip_space cs in if c == 32 || (leb 9 c && leb c 13) then rest else c ∷ cs

-- The sign and the magnitude; a number with no digits is 0.
abbrev signed : List ℕ → Bool × ℕ
signed [] = (false, 0)
signed (c ∷ cs) =
    if c == 45
    then (true, digits 0 cs)
    else if c == 43
    then (false, digits 0 cs)
    else (false, digits 0 (c ∷ cs))

-- `atoi`; a number out of the range of `int`, where C leaves the result open, is itself.
unfoldable pub atoi : String → ℤ
unfolding digits skip_space
atoi s = let (minus, n) = signed (skip_space (codes s)) in if minus then neg n else pos n

abbrev word_mod : ℕ
word_mod = 2 ^ 64

-- `strtoul(s, NULL, 10)` and `strtoull`, for words of 64 bits: a number too large is the largest,
-- and a minus sign is taken modulo the word.
unfoldable pub strtoul : String → ℕ
unfolding digits skip_space
strtoul s =
    let (minus, n) = signed (skip_space (codes s)) in
    if leb word_mod n then word_mod - 1 else if minus then (word_mod - n) % word_mod else n

atoi_runs : atoi " -42x" ≡ neg 42
unfolding atoi
atoi_runs = refl

strtoul_runs : strtoul "-1" ≡ word_mod - 1
unfolding strtoul
strtoul_runs = refl

-- `n & bit` and `n |= bit`, for a power of two.
abbrev pub has_bit : ℕ → ℕ → Bool
has_bit bit n = (n / bit) % 2 == 1

abbrev pub set_bit : ℕ → Bool → ℕ → ℕ
set_bit bit false n = n
set_bit bit true n = if has_bit bit n then n else bit + n

-- A 32-bit number as an `int`.
abbrev pub to_int : ℕ → ℤ
to_int n = if ltb (n % 2 ^ 32) (2 ^ 31) then pos (n % 2 ^ 32) else neg (2 ^ 32 - n % 2 ^ 32)
