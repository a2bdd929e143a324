-- ===== src/Prelude/Bytes/Words.antt =====
-- Words with one space between two of them, as a line that is read again.
use Prim.Native.Nat.{ℕ}
use mathlib.Core.Path.{◌≡◌, refl, ◌∙◌, ap}
use mathlib.Core.Bool.{Bool, true, false, not, ◌&&◌}
use mathlib.Core.List.{List, [], ◌∷◌, ◌++◌}
use native.Mathlib.Omega.{arith}
use cellframe_node.Prelude.Bytes.{
  Bytes, has, is_empty, is_space, trim, pieces, nonempty_pieces, tokenize,
}
use cellframe_node.Prelude.Bytes.Cutting.{has-append, begins_in_word, ends_in_word, trim-id}
use cellframe_node.Prelude.Bytes.Spaced.{no_space, is_token, are_tokens, tokenize-word}

unfoldable pub unwords : List Bytes → Bytes
unwords [] = []
unwords (w ∷ []) = w
unwords (w ∷ v ∷ ws) = w ++ b' ' ∷ unwords (v ∷ ws)

-- No word has this character.
unfoldable pub without_char : ℕ → List Bytes → Bool
unfolding has
without_char x [] = true
without_char x (w ∷ ws) = not (has x w) && without_char x ws

pieces-last : (w : Bytes) → no_space w ≡ true → pieces is_space w ≡ (w, [])
unfolding pieces no_space
pieces-last [] h = refl
pieces-last (c ∷ cs) h = ground (arith, pieces-last cs)

tokenize-last : (w : Bytes) → is_token w ≡ true → tokenize is_space w ≡ w ∷ []
unfolding tokenize nonempty_pieces
tokenize-last [] h = ground arith
tokenize-last (c ∷ cs) h =
    ap (λ (p : Bytes × List Bytes). nonempty_pieces (p.0 ∷ p.1))
      (pieces-last (c ∷ cs) (ground arith))

pub tokenize-unwords :
    (ws : List Bytes) → are_tokens ws ≡ true → tokenize is_space (unwords ws) ≡ ws
unfolding unwords are_tokens tokenize pieces nonempty_pieces
tokenize-unwords [] h = refl
tokenize-unwords (w ∷ []) h = tokenize-last w (ground arith)
tokenize-unwords (w ∷ v ∷ ws) h =
    tokenize-word w (unwords (v ∷ ws)) (ground arith)
    ∙ ap (λ rest. w ∷ rest) (tokenize-unwords (v ∷ ws) (ground arith))

pub has-unwords :
    (x : ℕ) (ws : List Bytes)
    → has x (b' ' ∷ []) ≡ false
    → without_char x ws ≡ true
    → has x (unwords ws) ≡ false
unfolding unwords without_char has
has-unwords x [] s h = refl
has-unwords x (w ∷ []) s h = ground arith
has-unwords x (w ∷ v ∷ ws) s h =
    has-append x w (b' ' ∷ unwords (v ∷ ws)) ∙ ground (arith, has-unwords x (v ∷ ws))

-- A character that is white space is in no word.
has-no_space : (x : ℕ) (w : Bytes) → is_space x ≡ true → no_space w ≡ true → has x w ≡ false
unfolding no_space has
has-no_space x [] s h = refl
has-no_space x (c ∷ cs) s h = ground (arith, has-no_space x cs)

pub without_char-are_tokens :
    (x : ℕ) (ws : List Bytes) → is_space x ≡ true → are_tokens ws ≡ true → without_char x ws ≡ true
unfolding without_char are_tokens
without_char-are_tokens x [] s h = refl
without_char-are_tokens x (w ∷ ws) s h =
    ground (arith, has-no_space x w, without_char-are_tokens x ws)

begins_in_word-token : (w t : Bytes) → is_token w ≡ true → begins_in_word (w ++ t) ≡ true
unfolding no_space
begins_in_word-token [] t h = ground arith
begins_in_word-token (c ∷ cs) t h = ground arith

begins_in_word-unwords :
    (ws : List Bytes) → are_tokens ws ≡ true → begins_in_word (unwords ws) ≡ true
unfolding unwords are_tokens no_space
begins_in_word-unwords [] h = refl
begins_in_word-unwords ([] ∷ []) h = refl
begins_in_word-unwords ((c ∷ w) ∷ []) h = ground arith
begins_in_word-unwords (w ∷ v ∷ ws) h =
    begins_in_word-token w (b' ' ∷ unwords (v ∷ ws)) (ground arith)

ends_in_word-token : (w : Bytes) → no_space w ≡ true → ends_in_word w ≡ true
unfolding no_space
ends_in_word-token [] h = refl
ends_in_word-token (c ∷ []) h = ground arith
ends_in_word-token (c ∷ d ∷ cs) h = ends_in_word-token (d ∷ cs) (ground arith)

ends_in_word-behind :
    (s t : Bytes) → is_empty t ≡ false → ends_in_word t ≡ true → ends_in_word (s ++ t) ≡ true
ends_in_word-behind [] t e h = h
ends_in_word-behind (a ∷ []) [] e h = absurd (cc e)
ends_in_word-behind (a ∷ []) (d ∷ t) e h = h
ends_in_word-behind (a ∷ b ∷ s) t e h = ends_in_word-behind (b ∷ s) t e h

pub is_empty-unwords :
    (w : Bytes) (ws : List Bytes) → is_token w ≡ true → is_empty (unwords (w ∷ ws)) ≡ false
unfolding unwords
is_empty-unwords [] ws h = ground arith
is_empty-unwords (c ∷ cs) [] h = refl
is_empty-unwords (c ∷ cs) (v ∷ ws) h = refl

ends_in_word-unwords : (ws : List Bytes) → are_tokens ws ≡ true → ends_in_word (unwords ws) ≡ true
unfolding unwords are_tokens
ends_in_word-unwords [] h = refl
ends_in_word-unwords (w ∷ []) h = ends_in_word-token w (ground arith)
ends_in_word-unwords (w ∷ v ∷ ws) h = ends_in_word-behind w (b' ' ∷ unwords (v ∷ ws)) refl (
    ends_in_word-behind (b' ' ∷ []) (unwords (v ∷ ws)) (is_empty-unwords v ws (ground arith))
      (ends_in_word-unwords (v ∷ ws) (ground arith)))

pub trim-unwords : (ws : List Bytes) → are_tokens ws ≡ true → trim (unwords ws) ≡ unwords ws
trim-unwords ws h = trim-id (unwords ws) (begins_in_word-unwords ws h) (ends_in_word-unwords ws h)
