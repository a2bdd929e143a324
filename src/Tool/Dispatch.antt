-- ===== src/Tool/Dispatch.antt =====
-- The table of commands and `main` of sources/main_node_tool.c.
pub mod Table
pub mod Folder
use cellframe_node.Prelude.{
  ℕ, Bool, true, false, not, ◌&&◌, Option, none, some, List, [], ◌∷◌, ltb, ◌==◌, length, drop,
  if◌then◌else◌, ℤ, pos, neg, is_zero, String,
}
use cellframe_node.Prelude.Text.{str_eq}
use cellframe_node.Process.{Outcome, ret, exit, fault}
use cellframe_node.Tool.Calls.{Sdk, Dirs, Tool, History, helped, ◌>>=◌, ◌>>◌, record_event, pure}
use cellframe_node.Tool.Init.{Setup, init}
use cellframe_node.Tool.Wallet
use cellframe_node.Tool.Cert

-- The handlers in `s_opts`.
pub data Command : Type 0 where
  wallet_create wallet_create_from wallet_create_wp wallet_pkey_show : Command
  wallet_pkey_show_full cert_create cert_dump cert_create_pkey : Command
  cert_create_cert_pkey cert_rename cert_add_metadata cert_sign cert_pkey_show : Command
  cert_pkey_show_full cert_get_addr : Command

-- `struct options`; the count of subcommands is the list's length.
pub record Entry : Type 0 where
  pub cmd : String
  pub subcmd : List String
  pub handler : Command

abbrev pub entry : String → List String → Command → Entry
entry c s h = record { cmd = c; subcmd = s; handler = h }

-- `s_opts`
abbrev pub opts : List Entry
opts =
    entry "wallet" ("create" ∷ []) wallet_create
    ∷ entry "wallet" ("create_from" ∷ []) wallet_create_from
    ∷ entry "wallet" ("create_wp" ∷ []) wallet_create_wp
    ∷ entry "wallet" ("pkey" ∷ "show" ∷ []) wallet_pkey_show
    ∷ entry "wallet" ("pkey" ∷ "show_full" ∷ []) wallet_pkey_show_full
    ∷ entry "cert" ("create" ∷ []) cert_create
    ∷ entry "cert" ("dump" ∷ []) cert_dump
    ∷ entry "cert" ("create_pkey" ∷ []) cert_create_pkey
    ∷ entry "cert" ("create_cert_pkey" ∷ []) cert_create_cert_pkey
    ∷ entry "cert" ("rename" ∷ []) cert_rename
    ∷ entry "cert" ("add_metadata" ∷ []) cert_add_metadata
    ∷ entry "cert" ("sign" ∷ []) cert_sign
    ∷ entry "cert" ("pkey" ∷ "show" ∷ []) cert_pkey_show
    ∷ entry "cert" ("pkey" ∷ "show_full" ∷ []) cert_pkey_show_full
    ∷ entry "cert" ("addr" ∷ "show" ∷ []) cert_get_addr
    ∷ []

-- The loop over the subcommands: each has its argument, and they agree.
unfoldable pub match_subcmds : List String → List String → Bool
match_subcmds [] words = true
match_subcmds (s ∷ subs) [] = false
match_subcmds (s ∷ subs) (w ∷ words) = str_eq s w && match_subcmds subs words

-- The loop over the table, on the arguments from the command's place on: `l_err`, and the handler
-- to run if it is 0.
unfoldable pub find_command : List Entry → ℤ → String → List String → ℤ × Option Command
find_command [] err word words = (err, none)
find_command (e ∷ es) err word words =
    let rest = find_command es (if str_eq e.cmd word then neg 1 else err) word words in
    if str_eq e.cmd word && match_subcmds e.subcmd words then (pos 0, some e.handler) else rest

module _ (sdk : Sdk) where
  unfoldable pub run_command : Dirs → Command → List String → Tool ℤ
  run_command dirs wallet_create = Wallet.wallet_create sdk dirs
  run_command dirs wallet_create_from = Wallet.wallet_create_from sdk dirs
  run_command dirs wallet_create_wp = Wallet.wallet_create_wp sdk dirs
  run_command dirs wallet_pkey_show = Wallet.wallet_pkey_show sdk dirs
  run_command dirs wallet_pkey_show_full = Wallet.wallet_pkey_show_full sdk dirs
  run_command dirs cert_create = Cert.cert_create sdk dirs
  run_command dirs cert_dump = Cert.cert_dump sdk dirs
  run_command dirs cert_create_pkey = Cert.cert_create_pkey sdk dirs
  run_command dirs cert_create_cert_pkey = Cert.cert_create_cert_pkey sdk dirs
  run_command dirs cert_rename = Cert.cert_rename sdk dirs
  run_command dirs cert_add_metadata = Cert.cert_add_metadata sdk dirs
  run_command dirs cert_sign = Cert.cert_sign sdk dirs
  run_command dirs cert_pkey_show = Cert.cert_pkey_show sdk dirs
  run_command dirs cert_pkey_show_full = Cert.cert_pkey_show_full sdk dirs
  run_command dirs cert_get_addr = Cert.cert_get_addr sdk dirs

  -- What follows the loop: the handler, or the help text and `l_err`.
  unfoldable pub finish : Dirs → List String → ℤ × Option Command → Tool ℤ
  finish dirs argv (err, some c) = run_command dirs c argv
  finish dirs argv (err, none) = do record_event helped; pure err

  -- The search for the command at argv[start]: past the last argument nothing is compared, and at
  -- the last place stands the null pointer.
  unfoldable pub dispatch : Dirs → ℕ → List String → Tool ℤ
  unfolding finish
  dispatch dirs start argv h =
      if ltb (length argv) start then finish dirs argv (neg 2, none) h else elim (drop start argv) [
        | [] ↦ (fault, h)
        | word ∷ words ↦ finish dirs argv (find_command opts (neg 2) word words) h
      ]

  -- From the count of the arguments on.
  unfoldable pub start_tool : Setup → String → ℕ → List String → Tool ℤ
  unfolding dispatch
  start_tool setup sys_dir start argv h =
      if ltb (length argv) 2 then (ret (neg 2), helped ∷ h) else elim (init setup sys_dir) [
        | ret (code, dirs) ↦ (if is_zero code then dispatch dirs start argv h else (ret (neg 3), h))
        | exit c ↦ (exit c, h)
        | fault ↦ (fault, h)
      ]

  -- `main`: behind `-B DIR` both `argv` and `l_argv_start` go on by two.
  unfoldable pub tool_main : Setup → List String → Tool ℤ
  unfolding start_tool
  tool_main setup (program ∷ option ∷ dir ∷ rest) h =
      if str_eq option "-B"
      then (if setup.dir_test dir then start_tool setup dir 3 (dir ∷ rest) h else (ret (neg 1), h))
      else start_tool setup setup.default_sys_dir 1 (program ∷ option ∷ dir ∷ rest) h
  tool_main setup argv h = start_tool setup setup.default_sys_dir 1 argv h
