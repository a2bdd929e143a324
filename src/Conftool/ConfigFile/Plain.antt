-- ===== src/Conftool/ConfigFile/Plain.antt =====
-- Names and values that come back from a line of a configuration file as they were.
use cellframe_node.Prelude.{◌≡◌, refl, ◌⊎◌, inl, inr, ◌∙◌, ap, true, false, List, [], ◌∷◌, arith}
use cellframe_node.Prelude.Bytes.{
  Bytes, is_empty, has, before, trim, pieces, nonempty_pieces, tokenize,
}
use cellframe_node.Prelude.Bytes.Cutting.{
  before-id, has-append, before-append, ends_in_word, begins_in_word, trim-id, ends_in_word-append,
  pieces-whole, pieces-append,
}
use cellframe_node.Conftool.ConfigFile.{
  line_of_pair, is_eq_sign, group_of, group_of_tokens, is_group_decl, parse_param_value,
  pair_of_tokens, strip, line_of_text, classify, header, entry, blank, param_line, group_line,
  newline, named, no_group, pair, group,
}

-- A name: not empty, with no `=`, `#` or `]`, no white space at its ends, and not begun by `[`.
pub record IsName (s : Bytes) : Type 0 where
  pub not_empty : is_empty s ≡ false
  pub no_eq : has b'=' s ≡ false
  pub no_hash : has b'#' s ≡ false
  pub no_close : has b']' s ≡ false
  pub no_open : has b'[' s ≡ false
  pub begins : begins_in_word s ≡ true
  pub ends : ends_in_word s ≡ true

-- A value: with no `#`, and no white space at its end.
pub record IsValue (s : Bytes) : Type 0 where
  pub no_hash : has b'#' s ≡ false
  pub ends : ends_in_word s ≡ true

strip-param : (p v : Bytes) → IsName p → IsValue v → strip (param_line p v) ≡ param_line p v
unfolding strip has
strip-param [] v n w = absurd (cc (n.not_empty))
strip-param (c ∷ p) v n w =
    ap (before b'#')
      (trim-id (param_line (c ∷ p) v) n.begins (ends_in_word-append (c ∷ p) b'=' v refl w.ends))
    ∙ before-id b'#' (param_line (c ∷ p) v)
        (has-append b'#' (c ∷ p) (b'=' ∷ v) ∙ ground (arith, n.no_hash, w.no_hash))

-- What is read of a value: it ends at the first `=`.
abbrev pub read_back : Bytes → Bytes
read_back v = (pieces is_eq_sign v).0

-- The tokens of a line with a name: the name, and the pieces of the value.
tokens-param :
    (p v : Bytes)
    → IsName p
    → tokenize is_eq_sign (param_line p v)
      ≡ p ∷ nonempty_pieces (read_back v ∷ (pieces is_eq_sign v).1)
unfolding tokenize nonempty_pieces
tokens-param [] v n = absurd (cc (n.not_empty))
tokens-param (c ∷ p) v n = rw (pieces-append b'=' (c ∷ p) v n.no_eq) refl

-- The value begins with a piece of its own, or is empty.
abbrev pub IsReadable : Bytes → Type 0
IsReadable v = (is_empty (read_back v) ≡ false) ⊎ (v ≡ [])

no_group_of_tokens :
    (p a : Bytes) (rest : List Bytes)
    → is_empty a ≡ false
    → group_of_tokens (p ∷ nonempty_pieces (a ∷ rest)) ≡ no_group
unfolding nonempty_pieces
no_group_of_tokens p [] rest h = cc
no_group_of_tokens p (c ∷ a) rest h = refl

pair_of_piece :
    (p a : Bytes) (rest : List Bytes)
    → is_empty a ≡ false
    → pair_of_tokens (p ∷ nonempty_pieces (a ∷ rest)) ≡ pair (trim p) a
unfolding nonempty_pieces
pair_of_piece p [] rest h = cc
pair_of_piece p (c ∷ a) rest h = refl

group_of-name : (p : Bytes) → has b'[' p ≡ false → group_of p ≡ no_group
unfolding has
group_of-name [] h = refl
group_of-name (c ∷ p) h = ground arith

is_group_decl-param :
    (p v : Bytes) → IsName p → IsReadable v → is_group_decl (param_line p v) ≡ no_group
unfolding is_group_decl nonempty_pieces pieces
is_group_decl-param p v n (inl h) =
    ap group_of_tokens (tokens-param p v n) ∙ no_group_of_tokens p (read_back v) _ h
is_group_decl-param p v n (inr e) =
    rw e (ap group_of_tokens (tokens-param p [] n) ∙ group_of-name p n.no_open)

has-param : (p v : Bytes) → has b'=' (param_line p v) ≡ true
unfolding has
has-param p v = has-append b'=' p (b'=' ∷ v) ∙ ground arith

parse-param :
    (p v : Bytes)
    → IsName p
    → IsReadable v
    → parse_param_value (param_line p v) ≡ pair p (read_back v)
unfolding parse_param_value nonempty_pieces pieces
parse-param p v n (inl h) = rw (has-param p v) (
    ap pair_of_tokens (tokens-param p v n)
    ∙ pair_of_piece p (read_back v) _ h
    ∙ ap (λ x. pair x (read_back v)) (trim-id p n.begins n.ends))
parse-param p v n (inr e) = rw e (
    rw (has-param p [])
      (ap pair_of_tokens (tokens-param p [] n) ∙ ap (λ x. pair x []) (trim-id p n.begins n.ends)))

pub classify-param :
    (p v : Bytes)
    → IsName p
    → IsValue v
    → IsReadable v
    → classify (param_line p v) ≡ entry p (read_back v)
unfolding classify
classify-param [] v n w r = absurd (cc (n.not_empty))
classify-param (c ∷ p) v n w r =
    ap line_of_text (strip-param (c ∷ p) v n w)
    ∙ rw (is_group_decl-param (c ∷ p) v n r) (ap line_of_pair (parse-param (c ∷ p) v n r))

-- A value with no `=` is read as it is.
pub read_back-plain : (v : Bytes) → has b'=' v ≡ false → read_back v ≡ v
read_back-plain v h = ap (λ x. x.0) (pieces-whole b'=' v h)

pub IsReadable-plain : (v : Bytes) → has b'=' v ≡ false → IsReadable v
IsReadable-plain [] h = inr refl
IsReadable-plain (c ∷ v) h = inl (ap is_empty (read_back-plain (c ∷ v) h))

strip-group : (g : Bytes) → IsName g → strip (group_line g) ≡ group_line g
unfolding strip has
strip-group g n =
    ap (before b'#')
      (trim-id (group_line g) refl (ends_in_word-append (b'[' ∷ g) b']' [] refl refl))
    ∙ before-id b'#' (group_line g)
        (has-append b'#' (b'[' ∷ g) (b']' ∷ []) ∙ ground (arith, n.no_hash))

tokens-group : (g : Bytes) → IsName g → tokenize is_eq_sign (group_line g) ≡ group_line g ∷ []
unfolding tokenize nonempty_pieces has
tokens-group g n =
    ap (λ w. nonempty_pieces (w.0 ∷ w.1))
      (pieces-whole b'=' (group_line g)
        (has-append b'=' (b'[' ∷ g) (b']' ∷ []) ∙ ground (arith, n.no_eq)))

named-name : (g : Bytes) → is_empty g ≡ false → named g ≡ group g
named-name [] h = cc
named-name (c ∷ g) h = refl

is_group_decl-group : (g : Bytes) → IsName g → is_group_decl (group_line g) ≡ group g
unfolding is_group_decl
is_group_decl-group g n =
    ap group_of_tokens (tokens-group g n)
    ∙ ap (λ w. named (trim w)) (before-append b']' g [] n.no_close)
    ∙ ap named (trim-id g n.begins n.ends)
    ∙ named-name g n.not_empty

pub classify-group : (g : Bytes) → IsName g → classify (group_line g) ≡ header g
unfolding classify
classify-group g n = ap line_of_text (strip-group g n) ∙ rw (is_group_decl-group g n) refl

pub classify-newline : classify newline ≡ blank
unfolding classify
classify-newline = refl
