-- ===== src/Conftool/Variables/Substitution.antt =====
-- What `substitute_variables` makes of a text with `${NAME}` in it.
use cellframe_node.Prelude.{
  ◌≡◌, refl, ◌∙◌, ap, sym, Bool, true, false, ◌&&◌, Option, none, some, List, [], ◌∷◌, ◌++◌, arith,
  if◌then◌else◌, All, Bool-cases, Option-cases, inl, inr,
}
use cellframe_node.Prelude.Bytes.{Bytes, same, same_iff, text_lt, has}
use cellframe_node.Conftool.World.{Vars}
use cellframe_node.Conftool.Variables.{
  put, placeholder, Placeholders, add_placeholders, replace_in_turn, substitute_variables,
}
use cellframe_node.Conftool.Variables.Storage.{
  find_var, find_var-put, is_ordered, all_behind, find_var-behind,
}
use cellframe_node.Conftool.Variables.Pieces.{
  Piece, literal, named, render_piece, render, is_plain, is_plain_name, is_plain_text, put_text,
  replace_all-render, put_text-plain,
}

-- The text with the values of the variables in place; a name that is none of theirs stays.
unfoldable pub render_with : Vars → List Piece → Bytes
unfolding find_var
render_with vars [] = []
render_with vars (literal s ∷ xs) = s ++ render_with vars xs
render_with vars (named n ∷ xs) =
    elim (find_var n vars) [ none ↦ placeholder n | some v ↦ v ] ++ render_with vars xs

unfoldable pub are_plain_vars : Vars → Bool
unfolding has
are_plain_vars [] = true
are_plain_vars ((n, v) ∷ vars) = is_plain_name n && (is_plain v && are_plain_vars vars)

-- What the placeholders say of a piece, the first of each pattern.
abbrev fill_piece : Placeholders → Piece → Piece
fill_piece phs (literal s) = literal s
fill_piece phs (named m) = elim (find_var (placeholder m) phs) [
  | none ↦ named m
  | some v ↦ literal v
]

unfoldable fill_text : Placeholders → List Piece → List Piece
unfolding find_var
fill_text phs [] = []
fill_text phs (x ∷ xs) = fill_piece phs x ∷ fill_text phs xs

-- A pattern is that of a plain name, and the value is plain.
abbrev IsEntry : Bytes × Bytes → Type 0
IsEntry (p, v) = (n : Bytes) × (p ≡ placeholder n) × (is_plain_name n ≡ true) × (is_plain v ≡ true)

same-closed : (a b : Bytes) → same (a ++ b'}' ∷ []) (b ++ b'}' ∷ []) ≡ same a b
unfolding same
same-closed [] [] = refl
same-closed [] (d ∷ []) = ground arith
same-closed [] (d ∷ e ∷ b) = ground arith
same-closed (c ∷ []) [] = ground arith
same-closed (c ∷ e ∷ a) [] = ground arith
same-closed (c ∷ a) (d ∷ b) = ground (arith, same-closed a b)

same-placeholder : (n m : Bytes) → same (placeholder n) (placeholder m) ≡ same n m
unfolding same
same-placeholder n m = same-closed n m

fill_text-nil : (xs : List Piece) → fill_text [] xs ≡ xs
unfolding fill_text find_var
fill_text-nil [] = refl
fill_text-nil (literal s ∷ xs) = ap (λ r. literal s ∷ r) (fill_text-nil xs)
fill_text-nil (named m ∷ xs) = ap (λ r. named m ∷ r) (fill_text-nil xs)

fill_text-cons :
    (n v : Bytes) (phs : Placeholders) (xs : List Piece)
    → fill_text phs (put_text n v xs) ≡ fill_text ((placeholder n, v) ∷ phs) xs
unfolding fill_text find_var put_text
fill_text-cons n v phs [] = refl
fill_text-cons n v phs (literal s ∷ xs) = ap (λ r. literal s ∷ r) (fill_text-cons n v phs xs)
fill_text-cons n v phs (named m ∷ xs) =
    ground (arith, fill_text-cons n v phs xs, same-placeholder n m)

replace_in_turn-render :
    (phs : Placeholders) (xs : List Piece)
    → All IsEntry phs
    → is_plain_text xs ≡ true
    → replace_in_turn phs (render xs) ≡ render (fill_text phs xs)
unfolding replace_in_turn
replace_in_turn-render [] xs h k = ap render (sym (fill_text-nil xs))
replace_in_turn-render ((p, v) ∷ phs) xs ((n, e, pn, pv), h) k = rw e (
    ap (replace_in_turn phs) (replace_all-render n v xs (ground arith) k)
    ∙ replace_in_turn-render phs (put_text n v xs) h (put_text-plain n v xs pv k)
    ∙ ap render (fill_text-cons n v phs xs))

All-if :
    (b : Bool) (xs ys : Placeholders)
    → All IsEntry xs
    → All IsEntry ys
    → All IsEntry (if b then xs else ys)
All-if true xs ys hx hy = hx
All-if false xs ys hx hy = hy

put-IsEntry :
    (p v : Bytes) (phs : Placeholders)
    → IsEntry (p, v)
    → All IsEntry phs
    → All IsEntry (put p v phs)
unfolding put
put-IsEntry p v [] e h = (e, h)
put-IsEntry p v ((q, u) ∷ phs) e h =
    All-if (same q p) ((p, v) ∷ phs) _ (e, h.1)
      (All-if (text_lt p q) ((p, v) ∷ (q, u) ∷ phs) ((q, u) ∷ put p v phs) (e, h)
        (h.0, put-IsEntry p v phs e h.1))

add_placeholders-IsEntry :
    (vars : Vars) (phs : Placeholders)
    → are_plain_vars vars ≡ true
    → All IsEntry phs
    → All IsEntry (add_placeholders vars phs)
unfolding add_placeholders are_plain_vars
add_placeholders-IsEntry [] phs k h = h
add_placeholders-IsEntry ((n, v) ∷ vars) phs k h =
    add_placeholders-IsEntry vars (put (placeholder n) v phs) (ground arith)
      (put-IsEntry (placeholder n) v phs (n, refl, ground arith, ground arith) h)

abbrev or_else : Option Bytes → Option Bytes → Option Bytes
or_else none o = o
or_else (some v) o = some v

find_var-add_placeholders :
    (m : Bytes) (vars : Vars) (phs : Placeholders)
    → is_ordered vars ≡ true
    → find_var (placeholder m) (add_placeholders vars phs)
      ≡ or_else (find_var m vars) (find_var (placeholder m) phs)
unfolding add_placeholders is_ordered find_var all_behind
find_var-add_placeholders m [] phs k = refl
find_var-add_placeholders m ((n, v) ∷ vars) phs k =
    find_var-add_placeholders m vars (put (placeholder n) v phs) (ground arith)
    ∙ ap (or_else (find_var m vars)) (
        find_var-put (placeholder n) v (placeholder m) phs
        ∙ ap (λ b. if b then some v else find_var (placeholder m) phs) (same-placeholder n m))
    ∙ elim (Bool-cases (same n m)) [
      | inl e ↦ ground (arith, find_var-behind m vars, same_iff n m)
      | inr e ↦ ground arith
    ]

render-fill_text :
    (vars : Vars) (xs : List Piece)
    → is_ordered vars ≡ true
    → render (fill_text (add_placeholders vars []) xs) ≡ render_with vars xs
unfolding render fill_text render_with find_var
render-fill_text vars [] k = refl
render-fill_text vars (literal s ∷ xs) k = ap (λ r. s ++ r) (render-fill_text vars xs k)
render-fill_text vars (named m ∷ xs) k =
    ap
      (λ o.
        render_piece (elim o [ none ↦ named m | some v ↦ literal v ])
        ++ render (fill_text (add_placeholders vars []) xs))
      (find_var-add_placeholders m vars [] k)
    ∙ elim (Option-cases (find_var m vars)) [
      | inl e ↦ rw e (ap (λ r. placeholder m ++ r) (render-fill_text vars xs k))
      | inr (v, e) ↦ rw e (ap (λ r. v ++ r) (render-fill_text vars xs k))
    ]

-- `substitute_variables` on a text of literal parts and `${NAME}`s puts the value of each variable
-- in the place of its name, wherever and however often it stands, and leaves the names that are of
-- no variable. The variables are in their order; no literal part, name or value has a dollar sign,
-- and no name a closing brace.
pub substitute_variables-render :
    (vars : Vars) (xs : List Piece)
    → is_ordered vars ≡ true
    → are_plain_vars vars ≡ true
    → is_plain_text xs ≡ true
    → substitute_variables vars (render xs) ≡ render_with vars xs
unfolding substitute_variables
substitute_variables-render vars xs o p t =
    replace_in_turn-render (add_placeholders vars []) xs (add_placeholders-IsEntry vars [] p tt) t
    ∙ render-fill_text vars xs o
