-- ===== src/Conftool/Script/Source.antt =====
-- A setup file as the words of its commands, and how it is read.
use cellframe_node.Prelude.{◌≡◌, refl, ◌∙◌, ap, Bool, true, ◌&&◌, List, [], ◌∷◌, map, arith}
use cellframe_node.Prelude.Bytes.{Bytes, has, before}
use cellframe_node.Prelude.Bytes.Cutting.{before-id}
use cellframe_node.Prelude.Bytes.Spaced.{is_token, are_tokens}
use cellframe_node.Prelude.Bytes.Words.{
  unwords, without_char, tokenize-unwords, has-unwords, trim-unwords, is_empty-unwords,
  without_char-are_tokens,
}
use cellframe_node.Conftool.ConfigFile.{strip, read_lines, written}
use cellframe_node.Conftool.ConfigFile.Save.{read_lines-line}
use cellframe_node.Conftool.World.{World, Run, and_then, ◌>>=◌, pure}
use cellframe_node.Conftool.Script.Blocks.{and_then-same}
use cellframe_node.Conftool.Script.{Command, build, parse_line_to_cmd, parse_lines}

-- A line of a setup file: the words of a command, or nothing.
abbrev pub is_source_line : List Bytes → Bool
is_source_line words = are_tokens words && without_char b'#' words

unfoldable pub is_source : List (List Bytes) → Bool
is_source [] = true
is_source (l ∷ ls) = is_source_line l && is_source ls

-- The file, with a space between two words of a line.
unfoldable pub source_text : List (List Bytes) → Bytes
unfolding written
source_text ls = written (map unwords ls)

-- The commands that the lines that have words are built into, one after the other.
unfoldable pub build_all : List (List Bytes) → Run (List Command)
unfolding build
build_all [] = pure []
build_all ([] ∷ ls) = build_all ls
build_all ((w ∷ ws) ∷ ls) = do c ← build (w ∷ ws); cs ← build_all ls; pure (c ∷ cs)

strip-unwords : (ws : List Bytes) → is_source_line ws ≡ true → strip (unwords ws) ≡ unwords ws
unfolding strip has
strip-unwords ws h =
    ap (before b'#') (trim-unwords ws (ground arith))
    ∙ before-id b'#' (unwords ws) (has-unwords b'#' ws refl (ground arith))

read_lines-source :
    (ls : List (List Bytes)) → is_source ls ≡ true → read_lines (source_text ls) ≡ map unwords ls
unfolding source_text written read_lines is_source has
read_lines-source [] h = refl
read_lines-source (l ∷ ls) h =
    read_lines-line (unwords l) (source_text ls)
      (has-unwords b'\n' l refl (without_char-are_tokens b'\n' l refl (ground arith)))
    ∙ ap (λ rest. unwords l ∷ rest) (read_lines-source ls (ground arith))

parse_line-unwords :
    (ws : List Bytes) → are_tokens ws ≡ true → parse_line_to_cmd (unwords ws) ≡ build ws
unfolding parse_line_to_cmd
parse_line-unwords ws h = ap build (tokenize-unwords ws h)

first_token : (x : Bytes) (ws : List Bytes) → are_tokens (x ∷ ws) ≡ true → is_token x ≡ true
unfolding are_tokens
first_token x ws h = ground arith

parse_lines-words :
    (ls : List (List Bytes)) (w : World)
    → is_source ls ≡ true
    → parse_lines (map unwords ls) w ≡ build_all ls w
unfolding parse_lines build_all is_source strip unwords
parse_lines-words [] w h = refl
parse_lines-words ([] ∷ ls) w h = parse_lines-words ls w (ground arith)
parse_lines-words ((x ∷ ws) ∷ ls) w h =
    rw
      (
        strip-unwords (x ∷ ws) (ground arith),
        is_empty-unwords x ws (first_token x ws (ground arith)),
      )
      (ap (λ m. and_then (λ c. parse_lines (map unwords ls) >>= λ cs. pure (c ∷ cs)) (m w))
          (parse_line-unwords (x ∷ ws) (ground arith))
        ∙ and_then-same (build (x ∷ ws) w)
            (λ c. parse_lines (map unwords ls) >>= λ cs. pure (c ∷ cs))
            (λ c. build_all ls >>= λ cs. pure (c ∷ cs))
            (λ c w'. ap (and_then (λ cs. pure (c ∷ cs))) (parse_lines-words ls w' (ground arith))))

-- A setup file of lines each of which is blank, or has the words of one command with a space between
-- two of them, is read as the commands that are built of exactly these words, in their order. No word
-- has white space or begins a comment.
pub parse_lines-source :
    (ls : List (List Bytes)) (w : World)
    → is_source ls ≡ true
    → parse_lines (read_lines (source_text ls)) w ≡ build_all ls w
parse_lines-source ls w h =
    ap (λ lines. parse_lines lines w) (read_lines-source ls h) ∙ parse_lines-words ls w h
