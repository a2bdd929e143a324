-- ===== src/Tool/Arguments.antt =====
-- The loops over the command line of `s_wallet_create`, `s_wallet_create_wp` and `s_cert_create`:
-- the option -seed, and the signature types of a wallet with several keys.
pub mod Seed
use cellframe_node.Prelude.{
  ℕ, zero, suc, ◌+◌, ◌≤◌, ◌<◌, ◌≡◌, refl, ◌≢◌, ◌⊎◌, Bool, true, false, not, ◌&&◌, Option, none,
  some, List, [], ◌∷◌, ◌++◌, map, arith, ltb, ◌==◌, length, if◌then◌else◌, ℤ, neg, String, All,
  Bool-cases, inl, inr,
}
use cellframe_node.Prelude.Text.{str_eq, eq_iff}
use cellframe_node.Tool.Calls.{Sdk, Tool, pure, quit}

-- What the loop for -seed ends with; `no_value` is `exit(-2009)`, or `exit(-603)`.
pub data SeedArg : Type 0 where
  seed : Option String → SeedArg
  no_value : SeedArg

-- `for (i = …; i < argc; i++) if (!strcmp(argv[i], "-seed")) …`, on the arguments left.
unfoldable pub find_seed : Option String → List String → SeedArg
find_seed found [] = seed found
find_seed found (a ∷ []) = if str_eq a "-seed" then no_value else seed found
find_seed found (a ∷ b ∷ rest) =
    let taken = find_seed (some b) rest in
    let next = find_seed found (b ∷ rest) in if str_eq a "-seed" then taken else next

pub SeedArg-cases : (r : SeedArg) → (r ≡ no_value) ⊎ ((s : Option String) × (r ≡ seed s))
SeedArg-cases no_value = inl refl
SeedArg-cases (seed s) = inr (s, refl)

-- What the loop over the signature types ends with: the array's entries, the type that is no
-- type or that is deprecated, or a write behind the array's end.
pub data TypesArg : Type 0 where
  types : List ℕ → TypesArg
  unknown_type deprecated_type overrun : TypesArg

abbrev pub seed_or_quit : SeedArg → ℤ → Tool (Option String)
seed_or_quit (seed s) code = pure s
seed_or_quit no_value code = quit code

abbrev pub put_type : ℕ → TypesArg → TypesArg
put_type t (types ts) = types (t ∷ ts)
put_type t unknown_type = unknown_type
put_type t deprecated_type = deprecated_type
put_type t overrun = overrun

-- The words that are neither -seed nor its value.
unfoldable pub sig_words : Bool → List String → List String
sig_words skip [] = []
sig_words true (a ∷ rest) = sig_words false rest
sig_words false (a ∷ rest) =
    let value = sig_words true rest in
    let next = sig_words false rest in if str_eq a "-seed" then value else a ∷ next

put_type-eq-types :
    (t : ℕ) (r : TypesArg) (ts : List ℕ)
    → put_type t r ≡ types ts
    → (us : List ℕ) × (r ≡ types us) × (ts ≡ t ∷ us)
put_type-eq-types t (types us) ts e = (us, refl, ground arith)
put_type-eq-types t unknown_type ts e = cc
put_type-eq-types t deprecated_type ts e = cc
put_type-eq-types t overrun ts e = cc

module _ (sdk : Sdk) where
  -- The loop with `room` entries of `l_types` left; `skip` stands for the `i++` behind -seed.
  unfoldable pub parse_types : ℕ → Bool → List String → TypesArg
  parse_types room skip [] = types []
  parse_types room true (a ∷ rest) = parse_types room false rest
  parse_types zero false (a ∷ rest) =
      let value = parse_types zero true rest in if str_eq a "-seed" then value else overrun
  parse_types (suc room) false (a ∷ rest) =
      let value = parse_types (suc room) true rest in
      let next = parse_types room false rest in
      let t = sdk.sign_type_from_str (some a) in
      if str_eq a "-seed"
      then value
      else if t == sdk.sig_type_null
      then unknown_type
      else if sdk.sign_type_is_deprecated t
      then deprecated_type
      else put_type t next

  abbrev pub type_of : String → ℕ
  type_of word = sdk.sign_type_from_str (some word)

  -- A signature type that a wallet or a certificate can have.
  pub record Accepted (t : ℕ) : Type 0 where
    pub known : t ≢ sdk.sig_type_null
    pub current : sdk.sign_type_is_deprecated t ≡ false

  -- The loop ends well only with the types of all words, in order, each of them accepted, and
  -- within the array.
  pub parse_types_sound :
      (room : ℕ) (skip : Bool) (args : List String) (ts : List ℕ)
      → parse_types room skip args ≡ types ts
      → (ts ≡ map type_of (sig_words skip args)) × All Accepted ts × (length ts ≤ room)
  unfolding parse_types sig_words
  parse_types_sound room skip [] ts e = ground arith
  parse_types_sound room true (a ∷ rest) ts e = parse_types_sound room false rest ts e
  parse_types_sound zero false (a ∷ rest) ts e = ground (arith, parse_types_sound zero true rest ts)
  parse_types_sound (suc room) false (a ∷ rest) ts e = elim (Bool-cases (str_eq a "-seed")) [
    | inl option ↦ rw option (parse_types_sound (suc room) true rest ts (rw option at e))
    | inr word ↦
        let (us, more, cons) =
          put_type-eq-types (type_of a) (parse_types room false rest) ts (ground arith) in
        rw word (ground (arith, parse_types_sound room false rest us more))
  ]

  -- It does end so if they are accepted and there is room.
  pub parse_types_complete :
      (room : ℕ) (skip : Bool) (args : List String)
      → All Accepted (map type_of (sig_words skip args))
      → length (sig_words skip args) ≤ room
      → parse_types room skip args ≡ types (map type_of (sig_words skip args))
  unfolding parse_types sig_words
  parse_types_complete room skip [] ok fits = refl
  parse_types_complete room true (a ∷ rest) ok fits = parse_types_complete room false rest ok fits
  parse_types_complete zero false (a ∷ rest) ok fits =
      ground (arith, parse_types_complete zero true rest)
  parse_types_complete (suc room) false (a ∷ rest) ok fits =
      ground
        (arith, parse_types_complete (suc room) true rest, parse_types_complete room false rest)
