-- ===== src/Android.antt =====
-- The bridge to Java (sources/android/node_jni.cpp): the listeners of notifications, the
-- configuration and the command line. Java's side is a parameter.
pub mod Listeners
pub mod Calls
mod Examples
use cellframe_node.Prelude.{
  ℕ, suc, ℤ, pos, neg, Bool, true, false, ◌||◌, not, Option, none, some, List, [], ◌∷◌, ◌++◌,
  length, map, if◌then◌else◌,
}
use cellframe_node.Prelude.Bytes.{Bytes, is_space, tokenize}
use cellframe_node.Process.{Outcome, ret, fault}
use cellframe_node.Conftool.World.{
  android, Host, Run, Result, done, raised, undefined, World, and_then, ◌>>=◌, ◌>>◌, pure,
}
use cellframe_node.Conftool.Script.{parse_line_to_cmd, run_commands}
use cellframe_node.Conftool.Main.{populate_variables, init_configs}

-- What `GetEnv` returns.
pub data EnvStat : Type 0 where
  env_ok detached bad_version : EnvStat

-- Java's objects are numbers. `method_of` is `GetMethodID` of `onNotify`; `attaches` is whether
-- `AttachCurrentThread` returns 0.
pub record Jni : Type 0 where
  pub method_of : ℕ → Option ℕ
  pub env_stat : EnvStat
  pub attaches : Bool

-- What Java does during one notification: whether `NewStringUTF` fails, which leaves its exception
-- pending; and of each weak reference, by its number, whether its object is still there when it is
-- called (a weak reference keeps no object from being collected, and is null behind that), and
-- whether `onNotify` then ends with an exception. The listeners do not change meanwhile.
pub record Java : Type 0 where
  pub string_fails : Bool
  pub is_alive : ℕ → Bool
  pub throws : ℕ → Bool

-- `NotifyListenerStore`: the weak reference, by its number among all that were made, with the
-- object that it was made for, which may be gone by now; and the method, unless it is null.
pub record Listener : Type 0 where
  pub weak_ref : ℕ
  pub object : ℕ
  pub method : Option ℕ

-- `jvm` (whether it is set), `listeners_vector`, and the weak references made and deleted.
pub record Bridge : Type 0 where
  pub has_jvm : Bool
  pub listeners : List Listener
  pub made : ℕ
  pub deleted : List ℕ

-- `CallVoidMethod` with a message.
pub record Notification : Type 0 where
  pub object : ℕ
  pub method : ℕ
  pub message : Bytes

abbrev pub at_load : Bridge
at_load = record { has_jvm = false; listeners = []; made = 0; deleted = [] }

abbrev pub refs_of : List Listener → List ℕ
refs_of [] = []
refs_of (l ∷ ls) = l.weak_ref ∷ refs_of ls

-- One `CallVoidMethod`: a null method is undefined behaviour.
abbrev pub call_first :
    Option ℕ → ℕ → Bytes → Option (List Notification) → Option (List Notification)
call_first none object message rest = none
call_first (some m) object message none = none
call_first (some m) object message (some calls) =
    some (record { object = object; method = m; message = message } ∷ calls)

-- `callOnNotify`, with whether an exception is pending: to call Java then, or by a weak reference
-- whose object is gone, is undefined behaviour.
unfoldable pub call_on_notify : Java → Bytes → Bool → List Listener → Option (List Notification)
call_on_notify java message pending [] = some []
call_on_notify java message pending (l ∷ ls) =
    let rest = call_on_notify java message (java.throws l.weak_ref) ls in
    if pending || not (java.is_alive l.weak_ref)
    then none
    else call_first (l.method) (l.object) message rest

abbrev pub notified : Option (List Notification) → Outcome (Bool × List Notification)
notified none = fault
notified (some calls) = ret (true, calls)

module _ (jni : Jni) where
  -- `…_setNotifyListenerNativeCallback`
  unfoldable pub set_listener : ℕ → Bridge → Bridge
  set_listener object b = record b {
    has_jvm = true;
    made = suc b.made;
    listeners =
        b.listeners
        ++ (record { weak_ref = b.made; object = object; method = jni.method_of object } ∷ []);
  }

  -- `…_clearNotifyListenerNativeCallbacks`
  unfoldable pub clear_listeners : Bridge → Bridge
  clear_listeners b = record b { listeners = []; deleted = b.deleted ++ refs_of b.listeners }

  -- `notifycallback`: with no environment to call Java by, its pointer is used all the same. An
  -- exception that is pending behind the last call is described, which clears it.
  unfoldable pub notify_callback : Java → Bytes → Bridge → Outcome (Bool × List Notification)
  unfolding call_on_notify
  notify_callback java message b =
      let calls = call_on_notify java message java.string_fails b.listeners in
      if b.has_jvm
      then elim (jni.env_stat) [
        | env_ok ↦ notified calls
        | detached ↦ (if jni.attaches then notified calls else fault)
        | bad_version ↦ fault
      ]
      else ret (false, [])

  -- `…_nodeMainNative`, with what the node's `main` returns, and the bridge that it leaves.
  unfoldable pub node_main_native : ℤ × Bridge → ℤ × Bridge
  unfolding clear_listeners
  node_main_native (res, b) = (res, clear_listeners b)

-- The library of the bridge is built for Android.
abbrev pub on_android : Host → Host
on_android host = record host { platform = android }

-- `catch (std::exception)`, behind which -1 is returned.
abbrev pub caught : Result ℤ × World → Result ℤ × World
caught (done r, w) = (done r, w)
caught (raised, w) = (done (neg 1), w)
caught (undefined, w) = (undefined, w)

module _ (host : Host) where
  -- `…_initConfigs`
  unfoldable pub init_configs_native : Bytes → Bytes → Run ℤ
  unfolding populate_variables init_configs
  init_configs_native base_path setup_file w = caught (
      (populate_variables (on_android host) base_path
          >> init_configs (on_android host) false setup_file)
        w)

  -- `…_configure`: `run_commands` returns true.
  abbrev pub run_one : Bytes → Run ℤ
  run_one command = do
    c ← parse_line_to_cmd command
    run_commands (on_android host) false [] (c ∷ [])
    pure (pos 1)

  unfoldable pub configure : Bytes → Bytes → Run ℤ
  unfolding populate_variables parse_line_to_cmd run_commands
  configure base_path command w =
      caught ((populate_variables (on_android host) base_path >> run_one command) w)

-- `args` behind `push_back(0)`, and its size, which counts the null too.
abbrev pub with_null : List Bytes → List (Option Bytes)
with_null words = map some words ++ (none ∷ [])

-- `dap_cli_exec` answers the arguments.
module _ (cli_exec : ℕ → List (Option Bytes) → Bytes) where
  -- `…_clicommandArgs`
  unfoldable pub cli_command_args : List Bytes → Bytes
  cli_command_args words = cli_exec (length (with_null words)) (with_null words)

  -- `…_clicommandString`
  unfoldable pub cli_command_string : Bytes → Bytes
  unfolding tokenize
  cli_command_string command =
      let words = tokenize is_space command in cli_exec (length (with_null words)) (with_null words)
