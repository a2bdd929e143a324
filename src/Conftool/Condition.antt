-- ===== src/Conftool/Condition.antt =====
-- `if …`, `endif` (conftool/commands/ConditionCommand.cpp) and `var …`
-- (conftool/commands/StorageCommand.cpp).
use cellframe_node.Prelude.{ℕ, Bool, true, not, ◌&&◌, ◌||◌, List, [], ◌∷◌, ◌==◌, if◌then◌else◌}
use cellframe_node.Prelude.Bytes.{
  Bytes, codes, same, is_empty, contains, concat, tokenize, nonempty_pieces,
}
use cellframe_node.Conftool.ConfigFile.{is_eq_sign}
use cellframe_node.Conftool.World.{Run, done, ◌>>=◌, pure, throw, variables}
use cellframe_node.Conftool.Variables.{substitute_variables, put, put_var}

pub data CondOp : Type 0 where
  equal not_equal is_set : CondOp

pub record Condition : Type 0 where
  pub cond_op : CondOp
  pub arg1 : Bytes
  pub arg2 : Bytes

abbrev cut : Bytes × List Bytes → Bytes × List Bytes
cut (word, rest) = ([], word ∷ rest)

abbrev onto : ℕ → Bytes × List Bytes → Bytes × List Bytes
onto c (word, rest) = (c ∷ word, rest)

-- The text in front of the first `==` or `!=`, and the pieces behind it.
unfoldable pub op_pieces : Bytes → Bytes × List Bytes
op_pieces [] = ([], [])
op_pieces (a ∷ []) = (a ∷ [], [])
op_pieces (a ∷ b ∷ cs) =
    let hit = cut (op_pieces cs) in
    let miss = onto a (op_pieces (b ∷ cs)) in
    if b == b'=' && (a == b'=' || a == b'!') then hit else miss

unfoldable pub op_tokens : Bytes → List Bytes
unfolding op_pieces nonempty_pieces
op_tokens s = let (word, rest) = op_pieces s in nonempty_pieces (word ∷ rest)

-- `!=` counts if both are there.
unfoldable pub operator_of : Bytes → CondOp
unfolding contains
operator_of s =
    if contains (codes "!=") s then not_equal else if contains (codes "==") s then equal else is_set

abbrev pub condition_of : CondOp → List Bytes → Run Condition
condition_of is_set (a ∷ []) = pure (record { cond_op = is_set; arg1 = a; arg2 = [] })
condition_of equal (a ∷ b ∷ []) = pure (record { cond_op = equal; arg1 = a; arg2 = b })
condition_of not_equal (a ∷ b ∷ []) = pure (record { cond_op = not_equal; arg1 = a; arg2 = b })
condition_of _ _ = throw

-- The constructor, on the tokens behind `if`, which are joined without a space.
unfoldable pub new_condition : List Bytes → Run Condition
unfolding concat operator_of op_tokens
new_condition words =
    let joined = concat words in condition_of (operator_of joined) (op_tokens joined)

unfoldable pub holds : CondOp → Bytes → Bytes → Bool
unfolding same
holds equal a b = same a b
holds not_equal a b = not (same a b)
holds is_set a b = is_empty a

unfoldable pub execute_condition : Condition → Run Bool
unfolding holds substitute_variables
execute_condition c = do
  vars ← variables
  pure (holds c.cond_op (substitute_variables vars c.arg1) (substitute_variables vars c.arg2))

pub record VariableCommand : Type 0 where
  pub var : Bytes
  pub val : Bytes

abbrev pub variable_of : List Bytes → Run VariableCommand
variable_of (a ∷ b ∷ []) = pure (record { var = a; val = b })
variable_of _ = throw

-- The constructor, on the tokens behind `var`.
unfoldable pub new_variable : List Bytes → Run VariableCommand
unfolding concat tokenize
new_variable words = variable_of (tokenize is_eq_sign (concat words))

unfoldable pub execute_variable : VariableCommand → Run Bool
unfolding substitute_variables put
execute_variable c w =
    (done true, record w { vars = put_var c.var (substitute_variables w.vars c.val) w.vars })
