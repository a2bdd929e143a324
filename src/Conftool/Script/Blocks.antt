-- ===== src/Conftool/Script/Blocks.antt =====
-- A script as nested blocks of `if … endif`, and how `run_commands` runs one.
use cellframe_node.Prelude.{
  ◌≡◌, refl, ◌∙◌, sym, ap, Bool, true, false, ◌&&◌, Option, none, some, List, [], ◌∷◌, ◌++◌,
  append_assoc, append-nil, arith, if◌then◌else◌,
}
use cellframe_node.Conftool.World.{
  Host, World, Run, Result, done, raised, undefined, and_then, ◌>>=◌, ◌>>◌, pure,
}
use cellframe_node.Conftool.Condition.{Condition, execute_condition}
use cellframe_node.Conftool.Script.{
  Command, if_open, endif, execute, run_guarded, run_commands, run_step, plain, role_of,
}

-- What a script says: its commands in order, and blocks with what follows them.
pub data Script : Type 0 where
  end : Script
  command : Command → Script → Script
  block : Condition → Script → Script → Script

unfoldable pub commands : Script → List Command
commands end = []
commands (command c rest) = c ∷ commands rest
commands (block cond body rest) = if_open cond ∷ (commands body ++ (endif ∷ commands rest))

-- No single command opens or closes a block.
unfoldable pub is_nested : Script → Bool
unfolding role_of
is_nested end = true
is_nested (command c rest) = elim (role_of c) [ plain ↦ is_nested rest | _ ↦ false ]
is_nested (block cond body rest) = is_nested body && is_nested rest

-- The condition that a command stands under.
unfoldable pub innermost : List Condition → Option Condition
innermost [] = none
innermost (cond ∷ _) = some cond

and_then_assoc {ℓ κ μ} :
    {A : Type ℓ} {B : Type κ} {C : Type μ} (p : Result A × World) (f : A → Run B) (g : B → Run C)
    → and_then g (and_then f p) ≡ and_then (λ a. f a >>= g) p
and_then_assoc (done a, w) f g = refl
and_then_assoc (raised, w) f g = refl
and_then_assoc (undefined, w) f g = refl

and_then-pure : (p : Result (Unit {0}) × World) → and_then (λ _. pure tt) p ≡ p
and_then-pure (done tt, w) = refl
and_then-pure (raised, w) = refl
and_then-pure (undefined, w) = refl

pub and_then-same {ℓ κ} :
    {A : Type ℓ} {B : Type κ} (p : Result A × World) (f g : A → Run B)
    → ((a : A) (w : World) → f a w ≡ g a w)
    → and_then f p ≡ and_then g p
and_then-same (done a, w) f g e = e a w
and_then-same (raised, w) f g e = refl
and_then-same (undefined, w) f g e = refl

is_nested-command :
    (c : Command) (rest : Script)
    → is_nested (command c rest) ≡ true
    → (role_of c ≡ plain) × (is_nested rest ≡ true)
unfolding is_nested
is_nested-command c rest h = ground arith

module _ (host : Host) (dry : Bool) where
  -- A command is run if the condition it stands under holds then.
  unfoldable pub run_under : Option Condition → Command → Run (Unit {0})
  unfolding execute execute_condition
  run_under none c = do execute host dry c; pure tt
  run_under (some cond) c = do
    passed ← execute_condition cond
    (if passed then (do execute host dry c; pure tt) else pure tt)

  unfoldable pub run_script : Option Condition → Script → Run (Unit {0})
  unfolding run_under
  run_script guard end = pure tt
  run_script guard (command c rest) = do run_under guard c; run_script guard rest
  run_script guard (block cond body rest) = do run_script (some cond) body; run_script guard rest

  run_under-innermost :
      (stack : List Condition) (c : Command)
      → run_under (innermost stack) c ≡ run_guarded host dry stack c
  unfolding run_under innermost run_guarded execute execute_condition
  run_under-innermost [] c = refl
  run_under-innermost (cond ∷ stack) c = refl

  run_commands-single :
      (c : Command) (cs : List Command) (stack : List Condition) (w : World)
      → role_of c ≡ plain
      → run_commands host dry stack (c ∷ cs) w
        ≡ (run_under (innermost stack) c >> run_commands host dry stack cs) w
  unfolding run_commands run_step
  run_commands-single c cs stack w h =
      ap (λ r. and_then (λ next. run_commands host dry next cs) (run_step host dry r stack c w)) h
      ∙ and_then_assoc (run_guarded host dry stack c w) (λ _. pure stack)
          (λ next. run_commands host dry next cs)
      ∙ ap (λ (m : Run (Unit {0})). and_then (λ _. run_commands host dry stack cs) (m w))
          (sym (run_under-innermost stack c))

  -- The commands of a nested script, with any commands behind them.
  run_commands-before :
      (s : Script) (stack : List Condition) (more : List Command) (w : World)
      → is_nested s ≡ true
      → run_commands host dry stack (commands s ++ more) w
        ≡ (run_script (innermost stack) s >> run_commands host dry stack more) w
  unfolding run_commands commands is_nested run_script run_step role_of innermost
  run_commands-before end stack more w h = refl
  run_commands-before (command c rest) stack more w h =
      run_commands-single c (commands rest ++ more) stack w (is_nested-command c rest h).0
      ∙ and_then-same (run_under (innermost stack) c w)
          (λ _. run_commands host dry stack (commands rest ++ more))
          (λ _. run_script (innermost stack) rest >> run_commands host dry stack more)
          (λ _ w'. run_commands-before rest stack more w' (is_nested-command c rest h).1)
      ∙ sym (
          and_then_assoc (run_under (innermost stack) c w) (λ _. run_script (innermost stack) rest)
            (λ _. run_commands host dry stack more))
  run_commands-before (block cond body rest) stack more w h =
      ap (λ cs. run_commands host dry (cond ∷ stack) cs w)
        (append_assoc (commands body) (endif ∷ commands rest) more)
      ∙ run_commands-before body (cond ∷ stack) (endif ∷ (commands rest ++ more)) w (ground arith)
      ∙ and_then-same (run_script (some cond) body w)
          (λ _. run_commands host dry (cond ∷ stack) (endif ∷ (commands rest ++ more)))
          (λ _. run_script (innermost stack) rest >> run_commands host dry stack more)
          (λ _ w'. run_commands-before rest stack more w' (ground arith))
      ∙ sym (
          and_then_assoc (run_script (some cond) body w) (λ _. run_script (innermost stack) rest)
            (λ _. run_commands host dry stack more))

  -- `run_commands` on the commands of a script of nested blocks does what the script says: each
  -- command is run exactly if the condition of the innermost block around it, if there is one,
  -- holds at that moment, and behind an `endif` the block around it is in force again.
  pub run_commands-commands :
      (s : Script) (w : World)
      → is_nested s ≡ true
      → run_commands host dry [] (commands s) w ≡ run_script none s w
  unfolding run_commands innermost
  run_commands-commands s w h =
      ap (λ cs. run_commands host dry [] cs w) (sym (append-nil (commands s)))
      ∙ run_commands-before s [] [] w h
      ∙ and_then-pure (run_script none s w)
