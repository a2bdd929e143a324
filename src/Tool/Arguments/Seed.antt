-- ===== src/Tool/Arguments/Seed.antt =====
-- Which value of -seed the loops of the handlers end with, and what they make of words too many.
use cellframe_node.Prelude.{
  ℕ, zero, suc, ◌<◌, ◌≡◌, refl, ◌≢◌, ◌⊎◌, inl, inr, Bool-cases, if◌then◌else◌, Bool, true, false,
  Option, none, some, List, [], ◌∷◌, ◌++◌, map, ap, sym, ◌∙◌, append-nil, arith, length, String,
  All,
}
use cellframe_node.Prelude.Text.{str_eq}
use cellframe_node.Tool.Calls.{Sdk}
use cellframe_node.Tool.Arguments.{
  seed, find_seed, overrun, parse_types, sig_words, type_of, Accepted,
}

-- The words that stand behind an option -seed, but for those that are such a value themselves; the
-- first word counts too, if one does so in front of the list.
unfoldable pub seed_values : Bool → List String → List String
seed_values taken [] = []
seed_values true (a ∷ rest) = a ∷ seed_values false rest
seed_values false (a ∷ rest) =
    let value = seed_values true rest in
    let more = seed_values false rest in if str_eq a "-seed" then value else more

abbrev pub last_or : Option String → List String → Option String
last_or found [] = found
last_or found (v ∷ vs) = last_or (some v) vs

-- The seed that the arguments give: the last of the values.
abbrev pub given_seed : List String → Option String
given_seed args = last_or none (seed_values false args)

-- The seed that a wallet or a certificate is made from: a seed that is empty is none.
abbrev pub Used : Option String → Option String → Type 0
Used given none = (given ≡ none) ⊎ (given ≡ some "")
Used given (some s) = (given ≡ some s) × (s ≢ "")

find_seed-last_or :
    (found sd : Option String) (args : List String)
    → find_seed found args ≡ seed sd
    → sd ≡ last_or found (seed_values false args)
unfolding find_seed seed_values
find_seed-last_or found sd [] e = ground arith
find_seed-last_or found sd (a ∷ []) e = ground arith
find_seed-last_or found sd (a ∷ b ∷ rest) e = elim (Bool-cases (str_eq a "-seed")) [
  | inl option ↦ rw option (find_seed-last_or (some b) sd rest (rw option at e))
  | inr word ↦ rw word (find_seed-last_or found sd (b ∷ rest) (rw word at e))
]

-- What the loop for -seed ends with is the seed that the arguments give.
pub find_seed-given_seed :
    (sd : Option String) (args : List String) → find_seed none args ≡ seed sd → sd ≡ given_seed args
find_seed-given_seed sd args e = find_seed-last_or none sd args e

-- A word that is not the option.
abbrev pub IsWord : String → Type 0
IsWord a = str_eq a "-seed" ≡ false

pub find_seed_word :
    (found : Option String) (a : String) (rest : List String)
    → IsWord a
    → find_seed found (a ∷ rest) ≡ find_seed found rest
unfolding find_seed
find_seed_word found a [] w = ground arith
find_seed_word found a (b ∷ rest) w = ground arith

pub find_seed_words :
    (found : Option String) (ws rest : List String)
    → All IsWord ws
    → find_seed found (ws ++ rest) ≡ find_seed found rest
find_seed_words found [] rest h = refl
find_seed_words found (a ∷ ws) rest h =
    find_seed_word found a (ws ++ rest) h.0 ∙ find_seed_words found ws rest h.1

find_seed_option :
    (found : Option String) (v : String) (rest : List String)
    → find_seed found ("-seed" ∷ v ∷ rest) ≡ find_seed (some v) rest
unfolding find_seed
find_seed_option found v rest = refl

-- Wherever the option stands among words that are not the option, its value is found; a value
-- found earlier is replaced.
pub find_seed_given :
    (found : Option String) (v : String) (before after : List String)
    → All IsWord before
    → All IsWord after
    → find_seed found (before ++ "-seed" ∷ v ∷ after) ≡ seed (some v)
unfolding find_seed
find_seed_given found v before after hb ha =
    find_seed_words found before _ hb
    ∙ (find_seed_option found v after
        ∙ (ap (find_seed (some v)) (sym (append-nil after)) ∙ find_seed_words (some v) after [] ha))

module _ (sdk : Sdk) where
  -- More accepted types than the array has entries: the loop writes behind its end.
  pub parse_types_overrun :
      (room : ℕ) (skip : Bool) (args : List String)
      → All (Accepted sdk) (map (type_of sdk) (sig_words skip args))
      → room < length (sig_words skip args)
      → parse_types sdk room skip args ≡ overrun
  unfolding parse_types sig_words
  parse_types_overrun room skip [] ok many = absurd (omega arith)
  parse_types_overrun room true (a ∷ rest) ok many = parse_types_overrun room false rest ok many
  parse_types_overrun zero false (a ∷ rest) ok many =
      ground (arith, parse_types_overrun zero true rest)
  parse_types_overrun (suc room) false (a ∷ rest) ok many =
      ground (arith, parse_types_overrun (suc room) true rest, parse_types_overrun room false rest)
