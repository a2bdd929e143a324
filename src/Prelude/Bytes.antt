-- ===== src/Prelude/Bytes.antt =====
-- C++ strings as lists of bytes, where the program walks them: comparison, cutting, and splitting.
pub mod Cutting
pub mod Replacing
pub mod Spaced
pub mod Words
use Prim.Native.Nat.{ℕ, zero, suc, ◌-◌}
use Prim.Native.Nat.{Ordering, compare}
use mathlib.Core.Path.{◌≡◌, refl}
use mathlib.Core.Logic.{◌↔◌}
use mathlib.Core.Bool.{Bool, true, false, not, ◌&&◌, ◌||◌}
use mathlib.Core.List.{List, [], ◌∷◌, ◌++◌}
use native.Mathlib.Omega.{arith}
use cellframe_node.Prelude.Tests.{leb, ◌==◌, if◌then◌else◌}
use cellframe_node.Prelude.Lists.{length}
pub use cellframe_node.Prelude.Number.{codes}

abbrev pub Bytes : Type 0
Bytes = List ℕ

unfoldable pub same : Bytes → Bytes → Bool
same [] [] = true
same [] (b ∷ ys) = false
same (a ∷ xs) [] = false
same (a ∷ xs) (b ∷ ys) = a == b && same xs ys

pub same_iff : (a b : Bytes) → (same a b ≡ true) ↔ (a ≡ b)
unfolding same
same_iff [] [] = ground arith
same_iff [] (b ∷ ys) = ground arith
same_iff (a ∷ xs) [] = ground arith
same_iff (a ∷ xs) (b ∷ ys) = ground (arith, same_iff xs ys)

pub same_refl : (a : Bytes) → same a a ≡ true
same_refl a = ground (arith, same_iff a a)

-- `operator<` of strings.
unfoldable pub text_lt : Bytes → Bytes → Bool
text_lt [] [] = false
text_lt [] (b ∷ ys) = true
text_lt (a ∷ xs) [] = false
text_lt (a ∷ xs) (b ∷ ys) =
    let rest = text_lt xs ys in
    elim (compare a b) [ Ordering.lt ↦ true | Ordering.eq ↦ rest | Ordering.gt ↦ false ]

abbrev pub is_empty : Bytes → Bool
is_empty [] = true
is_empty (_ ∷ _) = false

unfoldable pub has : ℕ → Bytes → Bool
has x [] = false
has x (c ∷ cs) = c == x || has x cs

-- `s.substr(0, s.find(x))`
unfoldable pub before : ℕ → Bytes → Bytes
before x [] = []
before x (c ∷ cs) = let rest = before x cs in if c == x then [] else c ∷ rest

-- `std::isspace`
abbrev pub is_space : ℕ → Bool
is_space c = c == 32 || (leb 9 c && leb c 13)

unfoldable pub ltrim : Bytes → Bytes
ltrim [] = []
ltrim (c ∷ cs) = let rest = ltrim cs in if is_space c then rest else c ∷ cs

unfoldable pub rtrim : Bytes → Bytes
rtrim [] = []
rtrim (c ∷ cs) = let rest = rtrim cs in if is_space c && is_empty rest then [] else c ∷ rest

unfoldable pub trim : Bytes → Bytes
unfolding ltrim rtrim
trim s = ltrim (rtrim s)

unfoldable pub starts_with : Bytes → Bytes → Bool
starts_with [] s = true
starts_with (n ∷ ns) [] = false
starts_with (n ∷ ns) (c ∷ cs) = n == c && starts_with ns cs

unfoldable pub contains : Bytes → Bytes → Bool
unfolding starts_with
contains needle [] = starts_with needle []
contains needle (c ∷ cs) = starts_with needle (c ∷ cs) || contains needle cs

-- Every occurrence, from the left and none inside another, is replaced; `skip` characters are
-- part of the last one.
unfoldable pub replace_all : Bytes → Bytes → ℕ → Bytes → Bytes
unfolding starts_with
replace_all needle by skip [] = []
replace_all needle by (suc skip) (c ∷ cs) = replace_all needle by skip cs
replace_all needle by zero (c ∷ cs) =
    let hit = by ++ replace_all needle by (length needle - 1) cs in
    let miss = c ∷ replace_all needle by zero cs in
    if starts_with needle (c ∷ cs) then hit else miss

-- The text in front of the first delimiter, and the pieces behind it.
unfoldable pub pieces : (ℕ → Bool) → Bytes → Bytes × List Bytes
pieces p [] = ([], [])
pieces p (c ∷ cs) =
    let (word, rest) = pieces p cs in if p c then ([], word ∷ rest) else (c ∷ word, rest)

unfoldable pub nonempty_pieces : List Bytes → List Bytes
nonempty_pieces [] = []
nonempty_pieces ([] ∷ ws) = nonempty_pieces ws
nonempty_pieces ((c ∷ w) ∷ ws) = (c ∷ w) ∷ nonempty_pieces ws

-- `tokenize` at single characters, or at runs of them: the pieces that are not empty.
unfoldable pub tokenize : (ℕ → Bool) → Bytes → List Bytes
unfolding pieces nonempty_pieces
tokenize p s = let (word, rest) = pieces p s in nonempty_pieces (word ∷ rest)

-- `string_join` with an empty delimiter.
unfoldable pub concat : List Bytes → Bytes
concat [] = []
concat (w ∷ ws) = w ++ concat ws
