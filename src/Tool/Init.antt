-- ===== src/Tool/Init.antt =====
-- `s_init` of sources/main_node_tool.c: the start of the tool, and the two folders.
use Prim.Native.String.append
use cellframe_node.Prelude.{
  ◌≡◌, refl, Bool, true, not, ◌||◌, Option, none, some, arith, ◌==◌, if◌then◌else◌, ℤ, pos, neg,
  is_zero, String,
}
use cellframe_node.Prelude.Text.{◌<>◌, code}
use cellframe_node.Process.{Outcome, ret, fault}
use cellframe_node.Tool.Calls.{Dirs}

-- What the SDK answers while the tool starts.
pub record Setup : Type 0 where
  -- `regGetUsrPath`, `/Library/…` or `/opt/cellframe-node`, as the platform has it
  pub default_sys_dir : String
  pub dir_test : String → Bool
  pub common_init : ℤ
  pub config_init : String → ℤ
  -- whether `dap_config_open` gets the configuration
  pub config_open : Bool
  pub ca_folders : String
  pub wallets_path : String
  -- what `dap_strncpy(…, MAX_PATH)` leaves in the buffer; the call returns the end of it
  pub strncpy : String → String

-- `if (*--l_pos == '/') *l_pos = '\0';` at the end of a text; in front of an empty one `l_pos`
-- leaves the buffer.
unfoldable pub trim_slash : String → Option String
trim_slash String.[] = none
trim_slash (String.◌∷◌ c String.[]) =
    if code c == 47 then some String.[] else some (String.◌∷◌ c String.[])
trim_slash (String.◌∷◌ c (String.◌∷◌ d s)) = elim (trim_slash (String.◌∷◌ d s)) [
  | none ↦ none
  | some t ↦ some (String.◌∷◌ c t)
]

abbrev no_dirs : Dirs
no_dirs = record { ca_dir = ""; wallet_dir = "" }

unfoldable pub init : Setup → String → Outcome (ℤ × Dirs)
init s sys_dir =
    if not (is_zero s.common_init)
    then ret (neg 2, no_dirs)
    else if not (is_zero (s.config_init (sys_dir <> "/etc"))) || not s.config_open
    then ret (neg 3, no_dirs)
    else elim (trim_slash (s.strncpy s.ca_folders)) [
      | none ↦ fault
      | some ca ↦ ret (pos 0, record { ca_dir = ca; wallet_dir = s.strncpy s.wallets_path })
    ]

trim_slash-append : (s : String) → trim_slash (s <> "/") ≡ some s
unfolding trim_slash
trim_slash-append String.[] = refl
trim_slash-append (String.◌∷◌ c String.[]) = rw (append.cons c String.[] "/")
trim_slash-append (String.◌∷◌ c (String.◌∷◌ d s)) =
    let ih = rw (append.cons d s "/") at (trim_slash-append (String.◌∷◌ d s)) in
    rw (append.cons c (String.◌∷◌ d s) "/", append.cons d s "/") (rw (ih, trim_slash))

-- A certificate folder that ends in a slash and fits the buffer is kept without it, the folder of
-- the wallets as it is; so with a certificate's name behind it there is one slash between.
pub init_ca_slash :
    (s : Setup) (sys_dir folder : String)
    → s.common_init ≡ pos 0
    → s.config_init (sys_dir <> "/etc") ≡ pos 0
    → s.config_open ≡ true
    → s.ca_folders ≡ folder <> "/"
    → s.strncpy (folder <> "/") ≡ folder <> "/"
    → init s sys_dir
      ≡ ret (pos 0, record { ca_dir = folder; wallet_dir = s.strncpy s.wallets_path })
unfolding init
init_ca_slash s sys_dir folder c i o e fits = ground (arith, trim_slash-append folder)
