-- ===== src/Conftool/Variables.antt =====
-- `variable_storage`, and `substitute_variables` with its `PlaceholderManager`
-- (conftool/config/CellframeConfigFile.cpp).
pub mod Pieces
pub mod Storage
pub mod Substitution
use cellframe_node.Prelude.{zero, List, [], ◌∷◌, ◌++◌, if◌then◌else◌}
use cellframe_node.Prelude.Bytes.{Bytes, same, text_lt, replace_all}
use cellframe_node.Conftool.World.{Vars}

-- `addPlaceholder`: the entry of the key in a `std::map` of strings, which is a list of entries in
-- the order of the keys, is replaced or put in its place.
unfoldable pub put : Bytes → Bytes → Vars → Vars
unfolding same text_lt
put key value [] = (key, value) ∷ []
put key value ((k, v) ∷ rest) =
    let more = (k, v) ∷ put key value rest in
    if same k key
    then (key, value) ∷ rest
    else if text_lt key k
    then (key, value) ∷ (k, v) ∷ rest
    else more

-- `variable_storage[name] = value`
abbrev pub put_var : Bytes → Bytes → Vars → Vars
put_var = put

-- `variable_storage[name]`, empty if it is not there.
unfoldable pub get_var : Bytes → Vars → Bytes
unfolding same
get_var name [] = []
get_var name ((n, v) ∷ vars) = if same n name then v else get_var name vars

-- The text that the pattern of a variable matches, `${NAME}`.
abbrev pub placeholder : Bytes → Bytes
placeholder name = b'$' ∷ b'{' ∷ (name ++ b'}' ∷ [])

-- `placeholders_`: what each pattern stands for, in the order of the patterns.
abbrev pub Placeholders : Type 0
Placeholders = List (Bytes × Bytes)

-- `addPlaceholder` for each variable.
unfoldable pub add_placeholders : Vars → Placeholders → Placeholders
unfolding put
add_placeholders [] phs = phs
add_placeholders ((n, v) ∷ vars) phs = add_placeholders vars (put (placeholder n) v phs)

-- `replaceEachPh`
abbrev pub replace_each_ph : Bytes → Bytes → Bytes → Bytes
replace_each_ph input pattern fmt = replace_all pattern fmt zero input

-- `replacePlaceholders`: one after the other, in their order.
unfoldable pub replace_in_turn : Placeholders → Bytes → Bytes
unfolding replace_all
replace_in_turn [] input = input
replace_in_turn ((p, v) ∷ phs) input = replace_in_turn phs (replace_each_ph input p v)

unfoldable pub substitute_variables : Vars → Bytes → Bytes
unfolding add_placeholders replace_in_turn
substitute_variables vars text = replace_in_turn (add_placeholders vars []) text
