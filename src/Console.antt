-- ===== src/Console.antt =====
-- `main` of sources/main_node_cli.c, the console client, built for Unix.
use cellframe_node.Prelude.{
  ◌≡◌, Bool, true, false, List, [], ◌∷◌, arith, ◌==◌, if◌then◌else◌, ℤ, pos, negsuc, neg, String,
}
use cellframe_node.Prelude.Text.{str_eq}

-- What the SDK and the system answer, and the SDK's codes of four errors.
pub record Client : Type 0 where
  pub dir_test : String → Bool
  -- `dap_app_cli_main`: given `g_sys_dir_path` and the arguments
  pub app_cli_main : String → List String → ℤ
  pub error_format : ℤ
  pub error_socket : ℤ
  pub error_timeout : ℤ
  pub error_incomplete : ℤ

pub data Message : Type 0 where
  invalid_path : String → Message
  format_error socket_error no_response connection_closed : Message

abbrev pub same : ℤ → ℤ → Bool
same (pos a) (pos b) = a == b
same (negsuc a) (negsuc b) = a == b
same _ _ = false

module _ (env : Client) where
  -- The `switch`, whose cases differ.
  unfoldable pub message_of : ℤ → List Message
  message_of res =
      if same res env.error_format
      then format_error ∷ []
      else if same res env.error_socket
      then socket_error ∷ []
      else if same res env.error_timeout
      then no_response ∷ []
      else if same res env.error_incomplete
      then connection_closed ∷ []
      else []

  unfoldable pub run_client : String → List String → ℤ × List Message
  run_client dir argv = let res = env.app_cli_main dir argv in (res, message_of res)

  -- Behind `-B DIR`, `argv` goes on by two.
  unfoldable pub console_main : List String → ℤ × List Message
  console_main (program ∷ option ∷ dir ∷ rest) =
      if str_eq option "-B"
      then (if env.dir_test dir
          then run_client dir (dir ∷ rest)
          else (neg 1, invalid_path dir ∷ []))
      else run_client "/opt/cellframe-node" (program ∷ option ∷ dir ∷ rest)
  console_main argv = run_client "/opt/cellframe-node" argv

  -- Where the client takes no notice of the word in front of the command and of the folder's name,
  -- a command behind `-B DIR`, for a valid folder, is answered as the same command without it: the
  -- result and the messages agree.
  pub console_main_folder :
      (program dir word : String) (rest : List String)
      → env.dir_test dir ≡ true
      → str_eq word "-B" ≡ false
      → env.app_cli_main dir (dir ∷ word ∷ rest)
        ≡ env.app_cli_main "/opt/cellframe-node" (program ∷ word ∷ rest)
      → console_main (program ∷ "-B" ∷ dir ∷ word ∷ rest) ≡ console_main (program ∷ word ∷ rest)
  unfolding console_main run_client
  console_main_folder program dir word [] valid other same_answer = ground arith
  console_main_folder program dir word (next ∷ rest) valid other same_answer = ground arith
