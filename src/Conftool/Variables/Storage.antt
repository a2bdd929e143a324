-- ===== src/Conftool/Variables/Storage.antt =====
-- `variable_storage` as a map: what is found in it behind `put`, and that it stays in order.
use cellframe_node.Prelude.{
  ◌≡◌, refl, Bool, true, false, ◌&&◌, Option, none, some, [], ◌∷◌, arith, if◌then◌else◌,
}
use cellframe_node.Prelude.Bytes.{Bytes, same, same_iff, text_lt}
use cellframe_node.Conftool.World.{Vars}
use cellframe_node.Conftool.Variables.{put}

-- The value of a variable, if there is one.
unfoldable pub find_var : Bytes → Vars → Option Bytes
unfolding same
find_var name [] = none
find_var name ((n, v) ∷ vars) = if same n name then some v else find_var name vars

pub find_var-put :
    (key value name : Bytes) (vars : Vars)
    → find_var name (put key value vars)
      ≡ (if same key name then some value else find_var name vars)
unfolding find_var put
find_var-put key value name [] = refl
find_var-put key value name ((k, v) ∷ rest) =
    ground
      (arith, find_var-put key value name rest, same_iff k key, same_iff k name, same_iff key name)

text_lt_irrefl : (a : Bytes) → text_lt a a ≡ false
unfolding text_lt
text_lt_irrefl [] = refl
text_lt_irrefl (c ∷ a) = ground (arith, text_lt_irrefl a)

text_lt_trans : (a b c : Bytes) → text_lt a b ≡ true → text_lt b c ≡ true → text_lt a c ≡ true
unfolding text_lt
text_lt_trans [] [] c h k = cc
text_lt_trans [] (y ∷ b) [] h k = cc k
text_lt_trans [] (y ∷ b) (z ∷ c) h k = refl
text_lt_trans (x ∷ a) [] c h k = cc h
text_lt_trans (x ∷ a) (y ∷ b) [] h k = cc k
text_lt_trans (x ∷ a) (y ∷ b) (z ∷ c) h k = ground (arith, text_lt_trans a b c)

text_lt_total : (a b : Bytes) → same a b ≡ false → text_lt a b ≡ false → text_lt b a ≡ true
unfolding text_lt same
text_lt_total [] [] h k = cc h
text_lt_total [] (y ∷ b) h k = cc k
text_lt_total (x ∷ a) [] h k = refl
text_lt_total (x ∷ a) (y ∷ b) h k = ground (arith, text_lt_total a b)

-- All names come behind this one.
unfoldable pub all_behind : Bytes → Vars → Bool
unfolding text_lt
all_behind name [] = true
all_behind name ((n, v) ∷ vars) = text_lt name n && all_behind name vars

-- The names are in their order, so that none is there twice.
unfoldable pub is_ordered : Vars → Bool
unfolding all_behind
is_ordered [] = true
is_ordered ((n, v) ∷ vars) = all_behind n vars && is_ordered vars

all_behind_trans :
    (a b : Bytes) (vars : Vars)
    → text_lt a b ≡ true
    → all_behind b vars ≡ true
    → all_behind a vars ≡ true
unfolding all_behind
all_behind_trans a b [] h k = refl
all_behind_trans a b ((n, v) ∷ vars) h k =
    ground (arith, text_lt_trans a b n, all_behind_trans a b vars)

all_behind-put :
    (a key value : Bytes) (vars : Vars)
    → text_lt a key ≡ true
    → all_behind a vars ≡ true
    → all_behind a (put key value vars) ≡ true
unfolding all_behind put
all_behind-put a key value [] h k = ground arith
all_behind-put a key value ((n, v) ∷ vars) h k = ground (arith, all_behind-put a key value vars)

pub is_ordered-put :
    (key value : Bytes) (vars : Vars)
    → is_ordered vars ≡ true
    → is_ordered (put key value vars) ≡ true
unfolding is_ordered put all_behind
is_ordered-put key value [] h = refl
is_ordered-put key value ((n, v) ∷ vars) h = ground (
  arith,
  is_ordered-put key value vars,
  same_iff n key,
  text_lt_total key n,
  same_iff key n,
  all_behind_trans key n vars,
  all_behind-put n key value vars,
)

-- A name behind which all are is not among them.
pub find_var-behind :
    (name : Bytes) (vars : Vars) → all_behind name vars ≡ true → find_var name vars ≡ none
unfolding find_var all_behind
find_var-behind name [] h = refl
find_var-behind name ((n, v) ∷ vars) h =
    ground (arith, find_var-behind name vars, same_iff n name, text_lt_irrefl name)
