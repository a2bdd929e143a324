-- ===== src/Prelude/Bytes/Spaced.antt =====
-- Words with spaces between them, and how they are split again.
use mathlib.Core.Path.{◌≡◌, refl, ◌∙◌, ap}
use mathlib.Core.Bool.{Bool, true, not, ◌&&◌}
use mathlib.Core.List.{List, [], ◌∷◌, ◌++◌}
use native.Mathlib.Omega.{arith}
use cellframe_node.Prelude.Bytes.{Bytes, is_empty, is_space, pieces, nonempty_pieces, tokenize}

unfoldable pub no_space : Bytes → Bool
no_space [] = true
no_space (c ∷ cs) = not (is_space c) && no_space cs

-- A word: it is not empty and has no white space.
abbrev pub is_token : Bytes → Bool
is_token w = not (is_empty w) && no_space w

unfoldable pub are_tokens : List Bytes → Bool
unfolding no_space
are_tokens [] = true
are_tokens (w ∷ ws) = is_token w && are_tokens ws

-- The words, each with a space behind it.
unfoldable pub spaced : List Bytes → Bytes
spaced [] = []
spaced (w ∷ ws) = w ++ b' ' ∷ spaced ws

pieces-word :
    (w t : Bytes)
    → no_space w ≡ true
    → pieces is_space (w ++ b' ' ∷ t) ≡ (w, (pieces is_space t).0 ∷ (pieces is_space t).1)
unfolding pieces no_space
pieces-word [] t h = refl
pieces-word (c ∷ cs) t h = ground (arith, pieces-word cs t)

pub tokenize-word :
    (w t : Bytes) → is_token w ≡ true → tokenize is_space (w ++ b' ' ∷ t) ≡ w ∷ tokenize is_space t
unfolding tokenize nonempty_pieces
tokenize-word [] t h = ground arith
tokenize-word (c ∷ cs) t h =
    ap (λ (p : Bytes × List Bytes). nonempty_pieces (p.0 ∷ p.1))
      (pieces-word (c ∷ cs) t (ground arith))

pub tokenize-spaced : (ws : List Bytes) → are_tokens ws ≡ true → tokenize is_space (spaced ws) ≡ ws
unfolding spaced are_tokens tokenize nonempty_pieces pieces
tokenize-spaced [] h = refl
tokenize-spaced (w ∷ ws) h =
    tokenize-word w (spaced ws) (ground arith)
    ∙ ap (λ rest. w ∷ rest) (tokenize-spaced ws (ground arith))
