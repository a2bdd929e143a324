-- ===== src/Prelude/Bytes/Replacing.antt =====
-- Searching a text and replacing in it.
use Prim.Native.Nat.{ℕ, zero}
use mathlib.Core.Path.{◌≡◌, refl}
use mathlib.Core.Bool.{true, false}
use mathlib.Core.List.{[], ◌∷◌, ◌++◌}
use native.Mathlib.Omega.{arith}
use cellframe_node.Prelude.Lists.{length}
use cellframe_node.Prelude.Bytes.{Bytes, has, starts_with, contains, replace_all}

-- What has not the first character of the needle is passed.
pub replace_all-pass :
    (x : ℕ) (needle by s t : Bytes)
    → has x s ≡ false
    → replace_all (x ∷ needle) by zero (s ++ t) ≡ s ++ replace_all (x ∷ needle) by zero t
unfolding replace_all starts_with has
replace_all-pass x needle by [] t h = refl
replace_all-pass x needle by (c ∷ s) t h = ground (arith, replace_all-pass x needle by s t)

pub contains-pass :
    (x : ℕ) (needle s t : Bytes)
    → has x s ≡ false
    → contains (x ∷ needle) (s ++ t) ≡ contains (x ∷ needle) t
unfolding contains starts_with has
contains-pass x needle [] t h = refl
contains-pass x needle (c ∷ s) t h = ground (arith, contains-pass x needle s t)

pub replace_all-skip :
    (needle by s t : Bytes)
    → replace_all needle by (length s) (s ++ t) ≡ replace_all needle by zero t
unfolding replace_all
replace_all-skip needle by [] t = refl
replace_all-skip needle by (c ∷ s) t = replace_all-skip needle by s t

pub starts_with-rest :
    (needle s : Bytes) → starts_with needle s ≡ true → (rest : Bytes) × (s ≡ needle ++ rest)
unfolding starts_with
starts_with-rest [] s h = (s, refl)
starts_with-rest (n ∷ ns) [] h = absurd (cc h)
starts_with-rest (n ∷ ns) (c ∷ s) h =
    let more = starts_with-rest ns s (ground arith) in (more.0, ground (arith, more.1))
