-- ===== src/Prelude/Bytes/Cutting.antt =====
-- Which texts trimming, cutting and splitting leave as they are.
use Prim.Native.Nat.{ℕ}
use mathlib.Core.Path.{◌≡◌, refl}
use mathlib.Core.Bool.{Bool, true, false, not, ◌||◌}
use mathlib.Core.List.{[], ◌∷◌, ◌++◌}
use native.Mathlib.Omega.{arith}
use cellframe_node.Prelude.Tests.{◌==◌}
use cellframe_node.Prelude.Bytes.{Bytes, has, before, is_space, ltrim, rtrim, trim, pieces}

pub before-id : (x : ℕ) (s : Bytes) → has x s ≡ false → before x s ≡ s
unfolding has before
before-id x [] h = refl
before-id x (c ∷ cs) h = ground (arith, before-id x cs)

pub has-append : (x : ℕ) (s t : Bytes) → has x (s ++ t) ≡ (has x s || has x t)
unfolding has
has-append x [] t = refl
has-append x (c ∷ cs) t = ground (arith, has-append x cs t)

pub before-append : (x : ℕ) (s t : Bytes) → has x s ≡ false → before x (s ++ x ∷ t) ≡ s
unfolding has before
before-append x [] t h = ground arith
before-append x (c ∷ cs) t h = ground (arith, before-append x cs t)

-- There is no white space at the end, or in front.
abbrev pub ends_in_word : Bytes → Bool
ends_in_word [] = true
ends_in_word (c ∷ []) = not (is_space c)
ends_in_word (c ∷ d ∷ cs) = ends_in_word (d ∷ cs)

abbrev pub begins_in_word : Bytes → Bool
begins_in_word [] = true
begins_in_word (c ∷ cs) = not (is_space c)

rtrim-id : (s : Bytes) → ends_in_word s ≡ true → rtrim s ≡ s
unfolding rtrim
rtrim-id [] h = refl
rtrim-id (c ∷ []) h = ground arith
rtrim-id (c ∷ d ∷ cs) h = rw (rtrim-id (d ∷ cs) h) (ground arith)

ltrim-id : (s : Bytes) → begins_in_word s ≡ true → ltrim s ≡ s
unfolding ltrim
ltrim-id [] h = refl
ltrim-id (c ∷ cs) h = ground arith

pub trim-id : (s : Bytes) → begins_in_word s ≡ true → ends_in_word s ≡ true → trim s ≡ s
unfolding trim
trim-id s b e = rw (rtrim-id s e) (ltrim-id s b)

pub ends_in_word-append :
    (s : Bytes) (c : ℕ) (t : Bytes)
    → is_space c ≡ false
    → ends_in_word t ≡ true
    → ends_in_word (s ++ c ∷ t) ≡ true
ends_in_word-append [] c [] h e = ground arith
ends_in_word-append [] c (d ∷ t) h e = e
ends_in_word-append (a ∷ []) c t h e = ends_in_word-append [] c t h e
ends_in_word-append (a ∷ b ∷ s) c t h e = ends_in_word-append (b ∷ s) c t h e

pub pieces-whole : (x : ℕ) (s : Bytes) → has x s ≡ false → pieces (λ c. c == x) s ≡ (s, [])
unfolding has pieces
pieces-whole x [] h = refl
pieces-whole x (c ∷ cs) h = ground (arith, pieces-whole x cs)

pub pieces-append :
    (x : ℕ) (s t : Bytes)
    → has x s ≡ false
    → pieces (λ c. c == x) (s ++ x ∷ t)
      ≡ (s, (pieces (λ c. c == x) t).0 ∷ (pieces (λ c. c == x) t).1)
unfolding has pieces
pieces-append x [] t h = ground arith
pieces-append x (c ∷ cs) t h = ground (arith, pieces-append x cs t)
