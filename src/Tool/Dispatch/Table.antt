-- ===== src/Tool/Dispatch/Table.antt =====
-- The loop of `main` over the table finds exactly the command that the arguments begin with.
use cellframe_node.Prelude.{
  ◌≡◌, refl, ◌↔◌, Bool, true, false, ◌&&◌, ◌||◌, Option, none, some, List, [], ◌∷◌, ◌++◌, arith,
  length, drop, if◌then◌else◌, Bool-cases, inl, inr, subst, sym, ap, ◌∙◌, ℤ, pos, neg, String, All,
}
use cellframe_node.Prelude.Text.{str_eq, eq_iff}
use cellframe_node.Process.{ret}
use cellframe_node.Tool.Calls.{Sdk, Dirs, History, helped}
use cellframe_node.Tool.Init.{Setup, init}
use cellframe_node.Tool.Dispatch.{
  Command, Entry, opts, match_subcmds, find_command, finish, tool_main,
}

-- How each command is written.
abbrev pub command_words : Command → List String
command_words Command.wallet_create = "wallet" ∷ "create" ∷ []
command_words Command.wallet_create_from = "wallet" ∷ "create_from" ∷ []
command_words Command.wallet_create_wp = "wallet" ∷ "create_wp" ∷ []
command_words Command.wallet_pkey_show = "wallet" ∷ "pkey" ∷ "show" ∷ []
command_words Command.wallet_pkey_show_full = "wallet" ∷ "pkey" ∷ "show_full" ∷ []
command_words Command.cert_create = "cert" ∷ "create" ∷ []
command_words Command.cert_dump = "cert" ∷ "dump" ∷ []
command_words Command.cert_create_pkey = "cert" ∷ "create_pkey" ∷ []
command_words Command.cert_create_cert_pkey = "cert" ∷ "create_cert_pkey" ∷ []
command_words Command.cert_rename = "cert" ∷ "rename" ∷ []
command_words Command.cert_add_metadata = "cert" ∷ "add_metadata" ∷ []
command_words Command.cert_sign = "cert" ∷ "sign" ∷ []
command_words Command.cert_pkey_show = "cert" ∷ "pkey" ∷ "show" ∷ []
command_words Command.cert_pkey_show_full = "cert" ∷ "pkey" ∷ "show_full" ∷ []
command_words Command.cert_get_addr = "cert" ∷ "addr" ∷ "show" ∷ []

match_subcmds-eq :
    (subs words : List String)
    → match_subcmds subs words ≡ true
    → words ≡ subs ++ drop (length subs) words
unfolding match_subcmds
match_subcmds-eq [] words e = refl
match_subcmds-eq (s ∷ subs) [] e = cc
match_subcmds-eq (s ∷ subs) (w ∷ words) e = ground (arith, eq_iff s w, match_subcmds-eq subs words)

-- A table whose entries are written as their commands are.
abbrev IsNamed : Entry → Type 0
IsNamed e = command_words e.handler ≡ e.cmd ∷ e.subcmd

find_command_named :
    (es : List Entry) (err : ℤ) (word : String) (words : List String) (c : Command)
    → All IsNamed es
    → find_command es err word words ≡ (pos 0, some c)
    → word ∷ words ≡ command_words c ++ drop (length (command_words c)) (word ∷ words)
unfolding find_command
find_command_named [] err word words c h e = cc
find_command_named (x ∷ es) err word words c h e =
    elim (Bool-cases (str_eq x.cmd word && match_subcmds x.subcmd words)) [
      | inl hit ↦
          let picked : x.handler ≡ c = cc (rw hit at e) in
          let named : command_words c ≡ x.cmd ∷ x.subcmd = ap command_words (sym picked) ∙ h.0 in
          rw named (ground (arith, eq_iff x.cmd word, match_subcmds-eq x.subcmd words))
      | inr miss ↦ find_command_named es _ word words c h.1 (rw miss at e)
    ]

-- The arguments select the command.
abbrev pub Selects : Command → List String → Type 0
Selects c [] = ⊥
Selects c (word ∷ words) = find_command opts (neg 2) word words ≡ (pos 0, some c)

Selects-words : (c : Command) (more : List String) → Selects c (command_words c ++ more)
unfolding find_command match_subcmds
Selects-words Command.wallet_create more = refl
Selects-words _ more = refl

opts-IsNamed : All IsNamed opts
opts-IsNamed = (
  refl,
  (
    refl,
    (
      refl,
      (
        refl,
        (refl, (refl, (refl, (refl, (refl, (refl, (refl, (refl, (refl, (refl, (refl, tt))))))))))),
      ),
    ),
  ),
)

words_of_Selects :
    (c : Command) (words : List String)
    → Selects c words
    → words ≡ command_words c ++ drop (length (command_words c)) words
words_of_Selects c [] s = absurd s
words_of_Selects c (word ∷ words) s = find_command_named opts (neg 2) word words c opts-IsNamed s

-- The loop over the table picks the handler of a command exactly if the arguments begin with the
-- words of that command.
pub Selects-iff :
    (c : Command) (words : List String)
    → Selects c words ↔ ((more : List String) × (words ≡ command_words c ++ more))
Selects-iff c words = (
  λ s. (drop (length (command_words c)) words, words_of_Selects c words s),
  λ p. subst (Selects c) (sym p.1) (Selects-words c p.0),
)

-- The first words of the commands.
abbrev pub is_known : String → Bool
is_known w = str_eq "wallet" w || str_eq "cert" w

abbrev has_cmd : List Entry → String → Bool
has_cmd [] w = false
has_cmd (e ∷ es) w = str_eq e.cmd w || has_cmd es w

find_command-none :
    (es : List Entry) (err : ℤ) (word : String) (words : List String)
    → (find_command es err word words).1 ≡ none
    → (find_command es err word words).0 ≡ (if has_cmd es word then neg 1 else err)
unfolding find_command
find_command-none [] err word words e = refl
find_command-none (x ∷ es) err word words e =
    ground (arith, find_command-none es (neg 1) word words, find_command-none es err word words)

find_command_no_cmd :
    (es : List Entry) (err : ℤ) (word : String) (words : List String)
    → has_cmd es word ≡ false
    → find_command es err word words ≡ (err, none)
unfolding find_command
find_command_no_cmd [] err word words e = refl
find_command_no_cmd (x ∷ es) err word words e =
    ground (arith, find_command_no_cmd es err word words)

pub find_command_unknown :
    (err : ℤ) (word : String) (words : List String)
    → is_known word ≡ false
    → find_command opts err word words ≡ (err, none)
find_command_unknown err word words e = find_command_no_cmd opts err word words (ground arith)

-- Where no command is found, `l_err` is -1 if the first word is that of some command, else -2.
find_command_missing :
    (word : String) (words : List String)
    → (find_command opts (neg 2) word words).1 ≡ none
    → (find_command opts (neg 2) word words).0 ≡ (if is_known word then neg 1 else neg 2)
find_command_missing word words e = find_command-none opts (neg 2) word words e ∙ ground arith

-- Words that do not begin with -B.
abbrev IsPlain : List String → Type 0
IsPlain [] = ⊥
IsPlain (word ∷ _) = str_eq word "-B" ≡ false

-- A command that is found is found without an error.
find_command-some :
    (es : List Entry) (err : ℤ) (word : String) (words : List String) (c : Command)
    → (find_command es err word words).1 ≡ some c
    → (find_command es err word words).0 ≡ pos 0
unfolding find_command
find_command-some [] err word words c e = cc
find_command-some (x ∷ es) err word words c e =
    ground (arith, find_command-some es (neg 1) word words c, find_command-some es err word words c)

module _ (sdk : Sdk) (setup : Setup) (h : History) (program : String) {dirs : Dirs} where
  module _ (ready : init setup setup.default_sys_dir ≡ ret (pos 0, dirs)) where
    tool_main_plain :
        (word : String) (words : List String)
        → str_eq word "-B" ≡ false
        → tool_main sdk setup (program ∷ word ∷ words) h
          ≡ finish sdk dirs (program ∷ word ∷ words) (find_command opts (neg 2) word words) h
    unfolding tool_main
    tool_main_plain word [] plain = rw ready (ground arith)
    tool_main_plain word (a ∷ words) plain = rw (plain, ready) (ground arith)

    -- Without -B, and with no command in front of its arguments, the tool shows the help text and
    -- returns -1 if the first word is that of some command, else -2.
    pub tool_main_missing :
        (word : String) (words : List String)
        → str_eq word "-B" ≡ false
        → ((c : Command) → ¬ Selects c (word ∷ words))
        → tool_main sdk setup (program ∷ word ∷ words) h
          ≡ (ret (if is_known word then neg 1 else neg 2), helped ∷ h)
    unfolding finish
    tool_main_missing word words plain absent =
        rw (tool_main_plain word words plain) (missing (find_command opts (neg 2) word words) refl)
      where
        missing :
            (r : ℤ × Option Command)
            → find_command opts (neg 2) word words ≡ r
            → finish sdk dirs (program ∷ word ∷ words) r h
              ≡ (ret (if is_known word then neg 1 else neg 2), helped ∷ h)
        missing (err, none) e =
            ground (arith, find_command_missing word words, ap (λ r. r.0) e, ap (λ r. r.1) e)
        missing (err, some c) e =
            absurd (absent c (ground (arith, e, find_command-some opts (neg 2) word words c)))
