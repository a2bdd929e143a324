-- ===== src/NodeManager.antt =====
-- sources/node_manager.c, which no target builds: the start of its modules, its server and the
-- server's callbacks.
use cellframe_node.Prelude.{
  ℕ, ◌≡◌, ◌↔◌, Bool, true, false, Option, none, some, List, [], ◌∷◌, ◌++◌, ltb, arith,
  if◌then◌else◌, ℤ, pos, neg, is_zero, String,
}
use cellframe_node.Prelude.Number.{atoi}
use cellframe_node.Prelude.Bytes.{has}
use cellframe_node.Process.{Outcome, ret, fault}

pub data Part : Type 0 where
  common config enc enc_key server stream stream_session http http_simple server_client : Part

pub data Callback : Type 0 where
  on_read on_write on_new on_delete : Callback

pub data Call : Type 0 where
  -- an `…_init` with its result; one without; a `…_deinit`
  tried : Part → ℤ → Call
  started stopped : Part → Call
  listens : ℤ → Call
  sets : Callback → Call
  -- `dap_udp_server_loop`, `dap_udp_server_delete`
  loops deletes : Call
  -- `stream_ch_set_ready_to_write`, `stream_ch_pkt_write_f`
  channel_ready : Bool → Call
  channel_sent : String → Call
  -- `dap_client_read`, `dap_client_write`, `dap_udp_client_ready_to_write`
  client_reads : ℕ → Call
  client_sent : String → Call
  client_ready : Call
  -- `dap_server_listen`, `dap_http_new`, `enc_http_add_proc`, `dap_server_loop`
  stream_listens : String → ℕ → Call
  http_made proc_added : String → Call
  stream_loops : Call

-- What the SDK answers: a configuration is the text of its port, if there is one; a server that
-- listens is no null pointer.
pub record Answers : Type 0 where
  pub init_of : Part → ℤ
  pub config_open : String → Option (Option String)
  pub listen : ℤ → Bool

-- `node_manager_t`, whose server is never set.
pub record Manager : Type 0 where
  pub l_config : Option (Option String)

module _ (answers : Answers) where
  -- A module that does not start ends `node_manager_init` with its code.
  abbrev pub attempt : Part → ℤ → ℤ × List Call → ℤ × List Call
  attempt part code (rest, calls) =
      if is_zero (answers.init_of part)
      then (rest, tried part (answers.init_of part) ∷ calls)
      else (code, tried part (answers.init_of part) ∷ [])

  unfoldable pub node_manager_init : ℤ × List Call
  node_manager_init = attempt common (neg 2) (
      attempt config (neg 1) (
        attempt enc (neg 56) (
          attempt enc_key (neg 57) (
            attempt server (neg 4) (
              pos 0,
              started stream ∷ started stream_session ∷ started http ∷ started http_simple ∷ [],
            )))))

  unfoldable pub new_node_manager : String → Manager
  new_node_manager config_file = record { l_config = answers.config_open config_file }

  -- The server's pointer is followed as it is.
  abbrev pub serve : ℤ → Outcome (List Call)
  serve port =
      if answers.listen port
      then ret (
          listens port
          ∷ sets on_read
          ∷ sets on_write
          ∷ sets on_new
          ∷ sets on_delete
          ∷ loops
          ∷ deletes
          ∷ [])
      else fault

  -- Without a port in the configuration a null pointer is read as a number.
  abbrev pub start_on : Option (Option String) → Outcome (List Call)
  start_on none = ret []
  start_on (some none) = fault
  start_on (some (some text)) = if is_zero (atoi text) then ret [] else serve (atoi text)

  unfoldable pub node_manager_start : Manager → Outcome (List Call)
  unfolding atoi
  node_manager_start manager = start_on manager.l_config

unfoldable pub node_manager_deinit : List Call
node_manager_deinit =
    stopped stream_session
    ∷ stopped server
    ∷ stopped server_client
    ∷ stopped enc_key
    ∷ stopped enc
    ∷ stopped common
    ∷ stopped config
    ∷ []

unfoldable pub node_manager_start_stream : List Call
node_manager_start_stream =
    stream_listens "localhost" 56001
    ∷ http_made "KelvinNode"
    ∷ proc_added "/handshake"
    ∷ stream_loops
    ∷ []

-- The packet's bytes are copied and printed as a text: one without a null is read behind its end.
unfoldable pub channel_packet_in : List ℕ → Outcome (List Call)
unfolding has
channel_packet_in bytes =
    if has 0 bytes
    then ret (channel_ready false ∷ channel_sent "ping" ∷ channel_ready true ∷ [])
    else fault

unfoldable pub channel_packet_out : List Call
channel_packet_out = channel_ready false ∷ []

-- A write to this index of a buffer of so many bytes, and what follows it.
abbrev pub write_at : ℕ → ℕ → List Call → Outcome (List Call)
write_at index size calls = if ltb index size then ret calls else fault

unfoldable pub client_read : ℕ → Bool → Outcome (List Call)
client_read buf_in_size ready_to_read = write_at buf_in_size buf_in_size (
    (if ready_to_read then client_reads buf_in_size ∷ [] else [])
    ++ client_sent "ping" ∷ client_ready ∷ [])

-- `node_manager_init` returns 0 exactly if the five modules with a result start.
pub node_manager_init_zero :
    (answers : Answers)
    → ((node_manager_init answers).0 ≡ pos 0) ↔ (
        (is_zero (answers.init_of common) ≡ true)
        × (is_zero (answers.init_of config) ≡ true)
        × (is_zero (answers.init_of enc) ≡ true)
        × (is_zero (answers.init_of enc_key) ≡ true)
        × (is_zero (answers.init_of server) ≡ true))
unfolding node_manager_init
node_manager_init_zero answers = ground arith

-- What the client has sent is never read: its buffer is written behind its end.
pub client_read_overrun :
    (buf_in_size : ℕ) (ready_to_read : Bool) → client_read buf_in_size ready_to_read ≡ fault
unfolding client_read
client_read_overrun buf_in_size ready_to_read = ground arith
