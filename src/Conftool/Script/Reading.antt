-- ===== src/Conftool/Script/Reading.antt =====
-- Reading a setup file's lines, or the commands behind `-e`, changes nothing.
use cellframe_node.Prelude.{
  subst, sym, ◌≡◌, refl, ◌∙◌, Bool, true, false, List, ℕ, [], ◌∷◌, arith, if◌then◌else◌, String,
}
use cellframe_node.Prelude.Bytes.{
  Bytes, codes, same, is_empty, is_space, before, trim, ltrim, rtrim, pieces, nonempty_pieces,
  tokenize, concat,
}
use cellframe_node.Prelude.Bytes.Cutting.{begins_in_word}
use cellframe_node.Conftool.World.{
  World, Run, Result, done, raised, undefined, and_then, ◌>>=◌, pure, throw,
}
use cellframe_node.Conftool.Frame.{Reads}
use cellframe_node.Conftool.ConfigFile.{strip}
use cellframe_node.Conftool.Network.{new_network, parse_action, allowed_state}
use cellframe_node.Conftool.Config.{new_config, parse_config_action}
use cellframe_node.Conftool.Template.{new_template}
use cellframe_node.Conftool.Service.{new_service, new_net_list}
use cellframe_node.Conftool.Condition.{
  new_condition, operator_of, op_tokens, condition_of, new_variable, CondOp,
}
use cellframe_node.Conftool.Script.{
  Command, network, net_list, config, fromtemplate, service, var, if_open, endif, instantiate,
  build, parse_line_to_cmd, parse_lines,
}

and_then-world {ℓ κ} :
    {A : Type ℓ} {B : Type κ} (f : A → Run B)
    → ((a : A) → Reads (f a))
    → (w : World) (p : Result A × World) → p.1 ≡ w
    → (and_then f p).1 ≡ w
and_then-world f hf w (done a, w') h = hf a w' ∙ h
and_then-world f hf w (raised, w') h = h
and_then-world f hf w (undefined, w') h = h

pub Reads-bind {ℓ κ} :
    {A : Type ℓ} {B : Type κ} (m : Run A) (f : A → Run B)
    → Reads m
    → ((a : A) → Reads (f a))
    → Reads (m >>= f)
Reads-bind m f hm hf w = and_then-world f hf w (m w) (hm w)

abbrev pub is_undefined {ℓ} : {A : Type ℓ} → Result A → Bool
is_undefined undefined = true
is_undefined _ = false

-- A computation that changes nothing, and ends in a value or an exception.
abbrev pub Parses {ℓ} : {A : Type ℓ} → Run A → Type 0
Parses m = (w : World) → ((m w).1 ≡ w) × (is_undefined (m w).0 ≡ false)

and_then-Parses {ℓ κ} :
    {A : Type ℓ} {B : Type κ} (f : A → Run B)
    → ((a : A) → Parses (f a))
    → (w : World) (p : Result A × World) → (p.1 ≡ w) × (is_undefined p.0 ≡ false)
    → ((and_then f p).1 ≡ w) × (is_undefined (and_then f p).0 ≡ false)
and_then-Parses f hf w (done a, w') h = ((hf a w').0 ∙ h.0, (hf a w').1)
and_then-Parses f hf w (raised, w') h = (h.0, refl)
and_then-Parses f hf w (undefined, w') h = h

pub Parses-bind {ℓ κ} :
    {A : Type ℓ} {B : Type κ} (m : Run A) (f : A → Run B)
    → Parses m
    → ((a : A) → Parses (f a))
    → Parses (m >>= f)
Parses-bind m f hm hf w = and_then-Parses f hf w (m w) (hm w)

Parses-network : (tokens : List Bytes) → Parses (new_network tokens)
unfolding new_network parse_action allowed_state
Parses-network tokens w = (ground arith, ground arith)

Parses-config : (tokens : List Bytes) → Parses (new_config tokens)
unfolding new_config parse_config_action
Parses-config tokens w = (ground arith, ground arith)

Parses-template : (tokens : List Bytes) → Parses (new_template tokens)
unfolding new_template
Parses-template tokens w = (ground arith, ground arith)

Parses-condition_of : (op : CondOp) (words : List Bytes) → Parses (condition_of op words)
Parses-condition_of op words w = (ground arith, ground arith)

Parses-condition : (words : List Bytes) → Parses (new_condition words)
unfolding new_condition
Parses-condition words w =
    Parses-condition_of (operator_of (concat words)) (op_tokens (concat words)) w

Parses-variable : (words : List Bytes) → Parses (new_variable words)
unfolding new_variable
Parses-variable words w = (ground arith, ground arith)

Parses-net_list : (words : List Bytes) → Parses (new_net_list words)
unfolding new_net_list
Parses-net_list words w = (ground arith, ground arith)

Parses-service : (words : List Bytes) → Parses (new_service words)
unfolding new_service
Parses-service words w = (ground arith, ground arith)

Parses-if {ℓ} :
    {A : Type ℓ} (b : Bool) (m k : Run A) → Parses m → Parses k → Parses (if b then m else k)
Parses-if true m k hm hk = hm
Parses-if false m k hm hk = hk

Parses-to {ℓ κ} :
    {A : Type ℓ} {B : Type κ} (m : Run A) (f : A → B) → Parses m → Parses (m >>= λ a. pure (f a))
Parses-to m f h = Parses-bind m (λ a. pure (f a)) h (λ a w. (refl, refl))

module _ (name : Bytes) (args tokens : List Bytes) where
  abbrev is : String → Bool
  is word = same name (codes word)

  Parses-instantiate : Parses (instantiate name args tokens)
  unfolding instantiate
  Parses-instantiate =
      Parses-if (is "network") _ _ (Parses-to (new_network tokens) network (Parses-network tokens))
        (Parses-if (is "net_list") _ _
          (Parses-to (new_net_list tokens) net_list (Parses-net_list tokens))
          (Parses-if (is "config") _ _ (Parses-to (new_config tokens) config (Parses-config tokens))
            (Parses-if (is "fromtemplate") _ _
              (Parses-to (new_template tokens) fromtemplate (Parses-template tokens))
              (Parses-if (is "service") _ _
                (Parses-to (new_service tokens) service (Parses-service tokens))
                (Parses-if (is "var") _ _ (Parses-to (new_variable args) var (Parses-variable args))
                  (Parses-if (is "if") _ _
                    (Parses-to (new_condition args) if_open (Parses-condition args))
                    (Parses-if (is "endif") (pure endif) throw (λ w. (refl, refl))
                      (λ w. (refl, refl)))))))))

Reads-build : (tokens : List Bytes) → Reads (build tokens)
unfolding build
Reads-build [] w = refl
Reads-build (name ∷ args) w = (Parses-instantiate name args (name ∷ args) w).0

pub Reads-parse_line_to_cmd : (line : Bytes) → Reads (parse_line_to_cmd line)
unfolding parse_line_to_cmd
Reads-parse_line_to_cmd line w = Reads-build (tokenize is_space line) w

Reads-with : (c : Command) (m : Run (List Command)) → Reads m → Reads (m >>= λ cs. pure (c ∷ cs))
Reads-with c m h = Reads-bind m (λ cs. pure (c ∷ cs)) h (λ cs w. refl)

pub Reads-parse_lines : (lines : List Bytes) → Reads (parse_lines lines)
unfolding parse_lines
Reads-parse_lines [] w = refl
Reads-parse_lines (l ∷ ls) w = ground (
  arith,
  Reads-parse_lines ls w,
  Reads-bind (parse_line_to_cmd (strip l)) (λ c. parse_lines ls >>= λ cs. pure (c ∷ cs))
      (Reads-parse_line_to_cmd (strip l))
      (λ c. Reads-with c (parse_lines ls) (Reads-parse_lines ls)) w,
)

-- A line that is not empty has a word, so that its first token is there.
ltrim-begins : (s : Bytes) → begins_in_word (ltrim s) ≡ true
unfolding ltrim
ltrim-begins [] = refl
ltrim-begins (c ∷ cs) = ground (arith, ltrim-begins cs)

before-begins : (x : ℕ) (s : Bytes) → begins_in_word s ≡ true → begins_in_word (before x s) ≡ true
unfolding before
before-begins x [] h = refl
before-begins x (c ∷ cs) h = ground arith

strip-begins : (l : Bytes) → begins_in_word (strip l) ≡ true
unfolding strip trim
strip-begins l = before-begins b'#' (ltrim (rtrim l)) (ltrim-begins (rtrim l))

tokenize-begins :
    (c : ℕ) (cs : Bytes)
    → is_space c ≡ false
    → tokenize is_space (c ∷ cs)
      ≡ (c ∷ (pieces is_space cs).0) ∷ nonempty_pieces (pieces is_space cs).1
unfolding tokenize pieces nonempty_pieces
tokenize-begins c cs h = rw h refl

Parses-words :
    (s : Bytes) → is_empty s ≡ false → begins_in_word s ≡ true → Parses (parse_line_to_cmd s)
unfolding parse_line_to_cmd build
Parses-words [] e h = absurd (cc e)
Parses-words (c ∷ cs) e h =
    subst (λ tokens. Parses (build tokens)) (sym (tokenize-begins c cs (ground arith)))
      (Parses-instantiate (c ∷ (pieces is_space cs).0) (nonempty_pieces (pieces is_space cs).1)
        ((c ∷ (pieces is_space cs).0) ∷ nonempty_pieces (pieces is_space cs).1))

pub Parses-parse_line_to_cmd :
    (l : Bytes) → is_empty (strip l) ≡ false → Parses (parse_line_to_cmd (strip l))
Parses-parse_line_to_cmd l e = Parses-words (strip l) e (strip-begins l)
