-- ===== src/Node/Boot/Guard.antt =====
-- What `main` of sources/cellframe-node.c does before the modules: the folders, the check for
-- another node, and the name of the log in its buffer.
use cellframe_node.Prelude.{
  ℕ, suc, ◌<◌, ◌≡◌, refl, ◌≢◌, ◌↔◌, true, false, List, [], ◌∷◌, arith, ℤ, pos, String,
}
use cellframe_node.Prelude.Text.{◌<>◌, snprintf, len, len-append}
use cellframe_node.Process.{Outcome, ret, fault}
use cellframe_node.Node.PidLock.{PidFile, returned, proc_running_check}
use cellframe_node.Node.PidLock.Sequential.{proc_running_check_second}
use cellframe_node.Node.Boot.{asks_version, sys_dir, prepare, pid_check, pid_path_of, node_main}
use cellframe_node.Node.Boot.Plan.{Node, Event}

module _ (env : Node) where
  -- What holds once a module is called.
  abbrev pub Guarded : List String → Type 0
  Guarded argv =
      (asks_version argv ≡ false)
      × (prepare env (sys_dir argv) ≡ ret (pos 0))
      × (env.config_open ≡ true)
      × ((proc_running_check env.me (env.pid_file (pid_path_of env (sys_dir argv)))).0
          ≡ returned (pos 0))

  -- If `main` calls anything of a module, in whatever run, then the version was not asked for, the
  -- folders and the configuration were found and opened, and the check for another node returned
  -- 0.
  pub node_main-Guarded :
      (argv : List String) (out : Outcome ℤ) (e : Event) (es : List Event)
      → node_main env argv ≡ (out, e ∷ es)
      → Guarded argv
  unfolding node_main pid_check
  node_main-Guarded argv out e es h = ground arith

  -- The name of the log is written behind the end of its buffer exactly if the folders are there
  -- and the path of the log folder is longer than the buffer, whose size is `MAX_PATH + 1`.
  pub prepare_overrun :
      (dir : String)
      → (prepare env dir ≡ fault) ↔ (
          (env.dir_test dir ≡ true)
          × (env.mkdir_with_parents (snprintf (suc env.max_path) (dir <> "/var/log")) ≡ pos 0)
          × (suc env.max_path < len (dir <> "/var/log")))
  unfolding prepare
  prepare_overrun dir = ground (arith, len-append dir "/var/log")

module _ (env : Node) (argv : List String) (q : ℕ) (f : PidFile) (differ : env.me ≢ q) where
  -- Where the node's pid file is readable and another process has got 0 from the check on it, a
  -- second node, if it comes so far, returns 2 and calls nothing of a module.
  pub node_main_second :
      asks_version argv ≡ false
      → prepare env (sys_dir argv) ≡ ret (pos 0)
      → env.config_open ≡ true
      → f.readable ≡ true
      → proc_running_check q f ≡ (returned (pos 0), env.pid_file (pid_path_of env (sys_dir argv)))
      → node_main env argv ≡ (ret (pos 2), [])
  unfolding node_main pid_check
  node_main_second version prepared opened readable won =
      rw
        (
          version,
          prepared,
          opened,
          proc_running_check_second env.me q f (env.pid_file (pid_path_of env (sys_dir argv)))
              differ readable won,
        )
        refl
