-- ===== src/Conftool/ConfigFile.antt =====
-- `CellframeConfigurationFile` (conftool/config/CellframeConfigFile.cpp): the lines of a file of
-- sections, searched and changed in place. A string that is read at a place where it has none
-- (`tokens[0]` of no tokens) is `broken`, an exception is `thrown`.
pub mod Plain
pub mod Steps
pub mod Map
pub mod Twice
pub mod Save
pub mod Resaved
use cellframe_node.Prelude.{
  ℕ, zero, suc, Bool, true, false, not, ◌&&◌, ◌||◌, List, [], ◌∷◌, ◌++◌, ◌==◌, if◌then◌else◌,
}
use cellframe_node.Prelude.Bytes.{
  Bytes, codes, same, is_empty, has, before, trim, tokenize, starts_with, replace_all,
}

abbrev pub is_eq_sign : ℕ → Bool
is_eq_sign c = c == b'='

-- What `is_group_decl` answers.
pub data GroupDecl : Type 0 where
  no_group no_tokens : GroupDecl
  group : Bytes → GroupDecl

abbrev pub named : Bytes → GroupDecl
named [] = no_group
named (c ∷ cs) = group (c ∷ cs)

-- On the only token: behind `[`, up to `]` or to the end.
abbrev pub group_of : Bytes → GroupDecl
group_of [] = no_group
group_of (c ∷ cs) = if c == b'[' then named (trim (before b']' cs)) else no_group

abbrev pub group_of_tokens : List Bytes → GroupDecl
group_of_tokens [] = no_tokens
group_of_tokens (t ∷ []) = group_of t
group_of_tokens (t ∷ u ∷ ts) = no_group

unfoldable pub is_group_decl : Bytes → GroupDecl
unfolding trim before tokenize
is_group_decl line = group_of_tokens (tokenize is_eq_sign line)

-- What `parse_param_value` returns, or ends with.
pub data ParamValue : Type 0 where
  pair : Bytes → Bytes → ParamValue
  no_pair no_tokens : ParamValue

-- Of more than two tokens the others are dropped; the value is not trimmed.
abbrev pub pair_of_tokens : List Bytes → ParamValue
pair_of_tokens [] = no_tokens
pair_of_tokens (t ∷ []) = pair (trim t) []
pair_of_tokens (t ∷ u ∷ ts) = pair (trim t) u

unfoldable pub parse_param_value : Bytes → ParamValue
unfolding trim has tokenize
parse_param_value line =
    if has b'=' line then pair_of_tokens (tokenize is_eq_sign line) else no_pair

-- `trim(line)`, and `line.substr(0, line.find("#"))`
unfoldable pub strip : Bytes → Bytes
unfolding trim before
strip line = before b'#' (trim line)

-- What the loop of `exists` makes of a line: a line that is no pair matters in the group only.
pub data Line : Type 0 where
  blank broken malformed : Line
  header : Bytes → Line
  entry : Bytes → Bytes → Line

abbrev pub line_of_pair : ParamValue → Line
line_of_pair (pair p v) = entry p v
line_of_pair no_pair = malformed
line_of_pair ParamValue.no_tokens = broken

abbrev pub line_of_decl : GroupDecl → ParamValue → Line
line_of_decl no_group r = line_of_pair r
line_of_decl GroupDecl.no_tokens r = broken
line_of_decl (group n) r = header n

abbrev pub line_of_text : Bytes → Line
line_of_text [] = blank
line_of_text (c ∷ cs) = line_of_decl (is_group_decl (c ∷ cs)) (parse_param_value (c ∷ cs))

unfoldable pub classify : Bytes → Line
unfolding strip is_group_decl parse_param_value
classify line = line_of_text (strip line)

-- What `exists` returns: the value and its line; or whether the group is there, and the line
-- where it ends, or where the file does.
pub data Found : Type 0 where
  found : Bytes → ℕ → Found
  absent : Bool → ℕ → Found
  thrown crashed : Found

-- One line further on.
abbrev pub later : Found → Found
later (found v i) = found v (suc i)
later (absent g i) = absent g (suc i)
later thrown = thrown
later crashed = crashed

-- The loop of `exists`, with `group_found`.
unfoldable pub scan : Bytes → Bytes → Bool → List Bytes → Found
scan g p inside [] = absent inside 0
scan g p true (l ∷ ls) = elim (classify l) [
  | blank ↦ later (scan g p true ls)
  | broken ↦ crashed
  | malformed ↦ thrown
  | header n ↦ absent true 0
  | entry q v ↦ if same q p then found v 0 else later (scan g p true ls)
]
scan g p false (l ∷ ls) = elim (classify l) [
  | blank ↦ later (scan g p false ls)
  | broken ↦ crashed
  | malformed ↦ later (scan g p false ls)
  | header n ↦ later (scan g p (same n g) ls)
  | entry q v ↦ later (scan g p false ls)
]

unfoldable pub exists : List Bytes → Bytes → Bytes → Found
unfolding scan
exists lines g p = scan g p false lines

-- `lines[i] = l`, and `lines.emplace(lines.begin() + i, l)` for each of these in turn.
abbrev pub set_line : ℕ → Bytes → List Bytes → List Bytes
set_line i l [] = []
set_line zero l (x ∷ xs) = l ∷ xs
set_line (suc i) l (x ∷ xs) = x ∷ set_line i l xs

abbrev pub insert_lines : ℕ → List Bytes → List Bytes → List Bytes
insert_lines zero new xs = new ++ xs
insert_lines (suc i) new [] = new
insert_lines (suc i) new (x ∷ xs) = x ∷ insert_lines i new xs

abbrev pub param_line : Bytes → Bytes → Bytes
param_line p v = p ++ b'=' ∷ v

abbrev pub group_line : Bytes → Bytes
group_line g = b'[' ∷ (g ++ b']' ∷ [])

abbrev pub newline : Bytes
newline = b'\n' ∷ []

-- The change that `set` makes where `exists` has answered this.
unfoldable pub edit : Bytes → Bytes → Bytes → Found → List Bytes → List Bytes
edit g p v (found _ i) lines = set_line i (param_line p v) lines
edit g p v (absent true i) lines = insert_lines i (param_line p v ∷ newline ∷ []) lines
edit g p v (absent false i) lines =
    insert_lines i (group_line g ∷ param_line p v ∷ newline ∷ []) lines
edit g p v thrown lines = lines
edit g p v crashed lines = lines

-- The lines that `set` leaves.
abbrev pub set : List Bytes → Bytes → Bytes → Bytes → List Bytes
set lines g p v = edit g p v (exists lines g p) lines

-- `save` writes each line with `std::endl`; the constructor reads them by `std::getline`.
unfoldable pub written : List Bytes → Bytes
written [] = []
written (l ∷ ls) = l ++ b'\n' ∷ written ls

abbrev pub onto_first : ℕ → List Bytes → List Bytes
onto_first c [] = (c ∷ []) ∷ []
onto_first c (l ∷ ls) = (c ∷ l) ∷ ls

unfoldable pub read_lines : Bytes → List Bytes
read_lines [] = []
read_lines (c ∷ cs) =
    let rest = read_lines cs in if c == b'\n' then [] ∷ rest else onto_first c rest

-- `replace_placeholders`: each line that is not empty becomes its own text without its comment,
-- substituted.
unfoldable pub replace_placeholders : (Bytes → Bytes) → List Bytes → List Bytes
unfolding strip
replace_placeholders substitute [] = []
replace_placeholders substitute (l ∷ ls) =
    (if is_empty (strip l) then l else substitute (strip l)) ∷ replace_placeholders substitute ls
