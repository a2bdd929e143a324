-- ===== src/Conftool/Main/Words.antt =====
-- How the words behind `-e` are read back as commands.
use cellframe_node.Prelude.{
  ◌≡◌, refl, sym, ◌∙◌, ap, Bool, true, not, ◌&&◌, List, [], ◌∷◌, ◌++◌, map, append_assoc,
  append-nil, arith,
}
use cellframe_node.Prelude.Bytes.{Bytes, codes, same, is_space, tokenize}
use cellframe_node.Prelude.Bytes.Spaced.{is_token, are_tokens, spaced, tokenize-spaced}
use cellframe_node.Conftool.Main.{split_commands}

-- The words of the commands, with "and" between them.
unfoldable pub joined : List Bytes → List (List Bytes) → List Bytes
joined c [] = c
joined c (d ∷ ds) = c ++ (codes "and" ∷ joined d ds)

abbrev pub is_word : Bytes → Bool
is_word w = is_token w && not (same w (codes "and"))

unfoldable pub are_words : List Bytes → Bool
unfolding same
are_words [] = true
are_words (w ∷ ws) = is_word w && are_words ws

unfoldable pub are_commands : List (List Bytes) → Bool
unfolding are_words
are_commands [] = true
are_commands (c ∷ cs) = are_words c && are_commands cs

are_words-are_tokens : (ws : List Bytes) → are_words ws ≡ true → are_tokens ws ≡ true
unfolding are_words are_tokens
are_words-are_tokens [] h = refl
are_words-are_tokens (w ∷ ws) h = ground (arith, are_words-are_tokens ws)

next_word :
    (w : Bytes) (ws : List Bytes) (current : Bytes)
    → (current ++ (w ++ b' ' ∷ [])) ++ spaced ws ≡ current ++ spaced (w ∷ ws)
unfolding spaced
next_word w ws current =
    append_assoc current (w ++ b' ' ∷ []) (spaced ws)
    ∙ ap (λ s. current ++ s) (append_assoc w (b' ' ∷ []) (spaced ws))

split_commands-last :
    (ws : List Bytes) (current : Bytes)
    → are_words ws ≡ true
    → split_commands current ws ≡ (current ++ spaced ws) ∷ []
unfolding split_commands spaced are_words
split_commands-last [] current h = ap (λ s. s ∷ []) (sym (append-nil current))
split_commands-last (w ∷ ws) current h = ground (
  arith,
  next_word w ws current,
  split_commands-last ws (current ++ (w ++ b' ' ∷ [])) (ground arith),
)

split_commands-and :
    (ws rest : List Bytes) (current : Bytes)
    → are_words ws ≡ true
    → split_commands current (ws ++ (codes "and" ∷ rest))
      ≡ (current ++ spaced ws) ∷ split_commands [] rest
unfolding split_commands spaced are_words same
split_commands-and [] rest current h =
    ap (λ s. s ∷ split_commands [] rest) (sym (append-nil current))
split_commands-and (w ∷ ws) rest current h = ground (
  arith,
  next_word w ws current,
  split_commands-and ws rest (current ++ (w ++ b' ' ∷ [])) (ground arith),
)

-- Commands behind `-e` with "and" between them, whose words are not empty, have no white space and
-- are not "and" themselves, are read back as exactly these commands with exactly these words.
pub split_commands-joined :
    (c : List Bytes) (cs : List (List Bytes))
    → are_words c ≡ true
    → are_commands cs ≡ true
    → map (tokenize is_space) (split_commands [] (joined c cs)) ≡ c ∷ cs
unfolding joined are_commands
split_commands-joined c [] h k =
    ap (map (tokenize is_space)) (split_commands-last c [] h)
    ∙ ap (λ s. s ∷ []) (tokenize-spaced c (are_words-are_tokens c h))
split_commands-joined c (d ∷ ds) h k =
    ap (map (tokenize is_space)) (split_commands-and c (joined d ds) [] h)
    ∙ ap (λ s. s ∷ map (tokenize is_space) (split_commands [] (joined d ds)))
        (tokenize-spaced c (are_words-are_tokens c h))
    ∙ ap (λ rest. c ∷ rest) (split_commands-joined d ds (ground arith) (ground arith))
