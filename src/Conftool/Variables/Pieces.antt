-- ===== src/Conftool/Variables/Pieces.antt =====
-- A text of literal parts and `${NAME}`s, and what replacing one variable makes of it.
use cellframe_node.Prelude.{
  zero, ◌≡◌, refl, ◌∙◌, ap, Bool, true, false, not, ◌&&◌, List, [], ◌∷◌, ◌++◌, arith, if◌then◌else◌,
  append_assoc, Bool-cases, inl, inr, subst,
}
use cellframe_node.Prelude.Bytes.{Bytes, same, same_iff, has, starts_with, replace_all}
use cellframe_node.Prelude.Bytes.Cutting.{has-append}
use cellframe_node.Prelude.Bytes.Replacing.{replace_all-pass, replace_all-skip}
use cellframe_node.Conftool.Variables.{placeholder}

-- A text: what stands there, and the names of variables.
pub data Piece : Type 0 where
  literal named : Bytes → Piece

abbrev pub render_piece : Piece → Bytes
render_piece (literal s) = s
render_piece (named n) = placeholder n

unfoldable pub render : List Piece → Bytes
render [] = []
render (x ∷ xs) = render_piece x ++ render xs

-- There is no dollar sign, and in a name no closing brace.
abbrev pub is_plain : Bytes → Bool
is_plain s = not (has b'$' s)

abbrev pub is_plain_name : Bytes → Bool
is_plain_name n = is_plain n && not (has b'}' n)

unfoldable pub is_plain_text : List Piece → Bool
unfolding has
is_plain_text [] = true
is_plain_text (literal s ∷ xs) = is_plain s && is_plain_text xs
is_plain_text (named n ∷ xs) = is_plain_name n && is_plain_text xs

-- Of two names, one begins where the other stands only if they are the same.
starts_with-name :
    (n m t : Bytes)
    → has b'}' n ≡ false
    → has b'}' m ≡ false
    → starts_with (n ++ b'}' ∷ []) (m ++ b'}' ∷ t) ≡ same n m
unfolding starts_with has same
starts_with-name [] [] t h k = refl
starts_with-name [] (d ∷ m) t h k = ground arith
starts_with-name (c ∷ n) [] t h k = ground arith
starts_with-name (c ∷ n) (d ∷ m) t h k = ground (arith, starts_with-name n m t)

starts_with-placeholder :
    (n m t : Bytes)
    → has b'}' n ≡ false
    → has b'}' m ≡ false
    → starts_with (n ++ b'}' ∷ []) ((m ++ b'}' ∷ []) ++ t) ≡ same n m
starts_with-placeholder n m t h k =
    ap (starts_with (n ++ b'}' ∷ [])) (append_assoc m (b'}' ∷ []) t) ∙ starts_with-name n m t h k

replace_all-hit :
    (n v t : Bytes)
    → has b'}' n ≡ false
    → replace_all (placeholder n) v zero (placeholder n ++ t)
      ≡ v ++ replace_all (placeholder n) v zero t
unfolding replace_all starts_with
replace_all-hit n v t h = ground (
  arith,
  starts_with-placeholder n n t h h,
  same_iff n n,
  replace_all-skip (placeholder n) v (b'{' ∷ (n ++ b'}' ∷ [])) t,
)

replace_all-miss :
    (n m v t : Bytes)
    → has b'}' n ≡ false
    → is_plain_name m ≡ true
    → same n m ≡ false
    → replace_all (placeholder n) v zero (placeholder m ++ t)
      ≡ placeholder m ++ replace_all (placeholder n) v zero t
unfolding replace_all starts_with has
replace_all-miss n m v t h k e = ground (
  arith,
  starts_with-placeholder n m t h (ground arith),
  replace_all-pass b'$' (b'{' ∷ (n ++ b'}' ∷ [])) v (b'{' ∷ (m ++ b'}' ∷ [])) t
      (has-append b'$' m (b'}' ∷ []) ∙ ground arith),
)

-- One variable put in place.
abbrev pub put_piece : Bytes → Bytes → Piece → Piece
put_piece n v (literal s) = literal s
put_piece n v (named m) = if same n m then literal v else named m

unfoldable pub put_text : Bytes → Bytes → List Piece → List Piece
unfolding same
put_text n v [] = []
put_text n v (x ∷ xs) = put_piece n v x ∷ put_text n v xs

replace_all-named :
    (n m v t : Bytes)
    → has b'}' n ≡ false
    → is_plain_name m ≡ true
    → replace_all (placeholder n) v zero (placeholder m ++ t)
      ≡ render_piece (put_piece n v (named m)) ++ replace_all (placeholder n) v zero t
replace_all-named n m v t h k = elim (Bool-cases (same n m)) [
  | inl e ↦ rw e (
      subst
        (λ name.
          replace_all (placeholder n) v zero (placeholder name ++ t)
          ≡ v ++ replace_all (placeholder n) v zero t)
        ((same_iff n m).0 e) (replace_all-hit n v t h))
  | inr e ↦ rw e (replace_all-miss n m v t h k e)
]

pub replace_all-render :
    (n v : Bytes) (xs : List Piece)
    → has b'}' n ≡ false
    → is_plain_text xs ≡ true
    → replace_all (placeholder n) v zero (render xs) ≡ render (put_text n v xs)
unfolding render put_text is_plain_text replace_all
replace_all-render n v [] h k = refl
replace_all-render n v (literal s ∷ xs) h k =
    replace_all-pass b'$' (b'{' ∷ (n ++ b'}' ∷ [])) v s (render xs) (ground arith)
    ∙ ap (λ r. s ++ r) (replace_all-render n v xs h (ground arith))
replace_all-render n v (named m ∷ xs) h k =
    replace_all-named n m v (render xs) h (ground arith)
    ∙ ap (λ r. render_piece (put_piece n v (named m)) ++ r)
        (replace_all-render n v xs h (ground arith))

pub put_text-plain :
    (n v : Bytes) (xs : List Piece)
    → is_plain v ≡ true
    → is_plain_text xs ≡ true
    → is_plain_text (put_text n v xs) ≡ true
unfolding put_text is_plain_text
put_text-plain n v [] h k = refl
put_text-plain n v (literal s ∷ xs) h k = ground (arith, put_text-plain n v xs)
put_text-plain n v (named m ∷ xs) h k = ground (arith, put_text-plain n v xs)
