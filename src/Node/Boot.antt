-- ===== src/Node/Boot.antt =====
-- `main` of sources/cellframe-node.c, built for Linux without Python plugins: the preparation, the
-- start of the modules in their order, the event loop, and the stop.
pub mod Plan
pub mod Steps
pub mod Checks
pub mod Order
pub mod Guard
pub mod Serve
pub mod Signalled
mod Examples
use cellframe_node.Prelude.{
  ℕ, ◌+◌, ◌*◌, ◌-◌, suc, Bool, true, false, not, Option, none, some, List, [], ◌∷◌, ◌++◌, ltb, ◌==◌,
  if◌then◌else◌, ℤ, pos, negsuc, neg, is_zero, String,
}
use cellframe_node.Prelude.Text.{◌<>◌, str_eq, len, snprintf, code}
use cellframe_node.Process.{Outcome, ret, exit, fault}
use cellframe_node.Node.PidLock.{Pc, returned, proc_running_check}
use cellframe_node.Node.Boot.Plan.{
  Node, Module, Step, Event, fatal, warn, effect, tried, looped, plan, stops, module_init,
}

-- The calls in order: a fatal one that fails ends the list with its code.
unfoldable pub run_steps : (Module → ℤ) → List Step → Option ℤ × List Event
run_steps init [] = (none, [])
run_steps init (effect e ∷ steps) = let (r, es) = run_steps init steps in (r, e ∷ es)
run_steps init (warn m ∷ steps) = let (r, es) = run_steps init steps in (r, tried m (init m) ∷ es)
run_steps init (fatal m c ∷ steps) =
    let (r, es) = run_steps init steps in
    if is_zero (init m) then (r, tried m (init m) ∷ es) else (some c, tried m (init m) ∷ [])

-- `rc * 10`, short of an overflow of `int`.
abbrev pub times_ten : ℤ → ℤ
times_ten (pos n) = pos (n * 10)
times_ten (negsuc n) = neg (suc n * 10)

-- The `~` in front of a path.
unfoldable pub expand_home : Option String → String → String
expand_home home String.[] = String.[]
expand_home none (String.◌∷◌ c rest) = String.◌∷◌ c rest
expand_home (some home) (String.◌∷◌ c String.[]) =
    if code c == 126 then home else String.◌∷◌ c String.[]
expand_home (some home) (String.◌∷◌ c (String.◌∷◌ d rest)) =
    if code c == 126
    then (if code d == 47 then home <> String.◌∷◌ d rest else String.◌∷◌ c (String.◌∷◌ d rest))
    else String.◌∷◌ c (String.◌∷◌ d rest)

-- `g_sys_dir_path`: behind `-B`, or the default.
unfoldable pub sys_dir : List String → String
sys_dir (_ ∷ option ∷ dir ∷ _) = if str_eq option "-B" then dir else "/opt/cellframe-node"
sys_dir _ = "/opt/cellframe-node"

abbrev pub asks_version : List String → Bool
asks_version (_ ∷ option ∷ _) = str_eq "-version" option
asks_version _ = false

module _ (env : Node) where
  -- `return code`, or the event loop and the stop.
  abbrev pub loop_and_stop : Option ℤ × List Event → Outcome ℤ × List Event
  loop_and_stop (some code, es) = (ret code, es)
  loop_and_stop (none, es) =
      (ret (times_ten env.events_wait), es ++ looped env.events_wait ∷ stops env)

  -- Behind the check for another node.
  unfoldable pub boot : String → Option String → Outcome ℤ × List Event
  boot dir plugins = loop_and_stop (run_steps (module_init env) (plan env dir plugins))

  -- `l_plugins_path_override`
  unfoldable pub plugins_override : List String → Option String
  plugins_override argv =
      let (found, long) = env.find_option argv "--plugins-path" none in
      let given = (if found then long else (env.find_option argv "-P" long).1) in
      elim given [ none ↦ none | some path ↦ some (expand_home env.home path) ]

  -- The folders and the general configuration: `rc`. Behind the name of the log folder, which may
  -- be longer than the buffer, stands that of the log.
  unfoldable pub prepare : String → Outcome ℤ
  prepare dir =
      let size = suc env.max_path in
      let pos_end = len dir + 8 in
      let logs = snprintf size (dir <> "/var/log") in
      let log = logs <> snprintf (size - pos_end) "/cellframe-node.log" in
      if not (env.dir_test dir)
      then ret (neg 1)
      else if not (is_zero (env.mkdir_with_parents logs))
      then ret (neg 2)
      else if ltb size pos_end
      then fault
      else if not (is_zero (env.common_init log))
      then ret (neg 3)
      else if not (is_zero (env.config_init (snprintf size (dir <> "/etc"))))
      then ret (neg 4)
      else ret (pos 0)

  abbrev pub pid_path_of : String → String
  pid_path_of dir = env.pid_path (snprintf (suc env.max_path) (dir <> "/tmp"))

  abbrev pub returned_zero : Pc → Bool
  returned_zero (returned r) = is_zero r
  returned_zero _ = false

  -- `!l_pid_check`
  unfoldable pub pid_check : String → Bool
  pid_check dir = returned_zero (proc_running_check env.me (env.pid_file (pid_path_of dir))).0

  unfoldable pub node_main : List String → Outcome ℤ × List Event
  node_main argv =
      let dir = sys_dir argv in
      if asks_version argv then (ret (pos 0), []) else elim (prepare dir) [
        | ret rc ↦
            (if not (is_zero rc)
              then (ret rc, [])
              else if not env.config_open
              then (ret (neg 5), [])
              else if pid_check dir
              then boot dir (plugins_override argv)
              else (ret (pos 2), []))
        | exit c ↦ (exit c, [])
        | fault ↦ (fault, [])
      ]
