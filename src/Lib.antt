-- ===== src/Lib.antt =====
-- cellframe-node: the node's own code, over the Cellframe SDK.
--
-- The repository holds the programs that stand on the Cellframe SDK, a git submodule: the node
-- (sources/cellframe-node.c), the command line tool for wallets and certificates
-- (sources/main_node_tool.c), the console client (sources/main_node_cli.c), the configuration tool
-- (conftool/, in C++), and smaller parts. The SDK is not read: what the programs take from it is a
-- record of answers (`Sdk` and `Setup` for the tool, `Node` for the node, `Client` for the
-- console), a parameter of every definition, and the theorems hold for any such record unless they
-- say what they ask of it.
--
-- The parts, and where they are modelled:
--
--   Prelude        helpers: tests, lists, C's int, C strings, atoi and strtoul.
--   Process        how a C function ends: it returns, it calls exit, or its behaviour is undefined.
--   Node           sources/cellframe-node.c.
--     Decimal        the digits of a pid as printf("%d") writes them and fscanf("%d") reads them.
--     PidLock        s_proc_running_check on POSIX: a state machine of one system call a step (`step`)
--                    over the pid file and its record locks. `proc_running_check` runs it alone
--                    (PidLock/Sequential); PidLock/System interleaves the steps of any processes, which
--                    may also end at any time; PidLock/Exclusion is about two of them.
--                    PidLock/Events has the check of a build for Windows.
--     Boot           main: `sys_dir`, `plugins_override` and `prepare` come before the check for
--                    another node, `boot` behind it. Boot/Plan has the calls in their order as a list
--                    which the configuration determines: a step is fatal with its code, or only
--                    reported, or has no result. `run_steps` does them; `stops` are the calls behind
--                    the event loop. Boot/Checks lists what must start, with the codes, apart
--                    from the plan; Boot/Steps, Boot/Order, Boot/Serve, Boot/Guard and Boot/Signalled
--                    (with the handlers of Signals) hold the proofs.
--   Tool           sources/main_node_tool.c.
--     Calls          the SDK's functions, and the trace of calls. A handler is a function of the trace
--                    of all calls before it, and an answer may depend on it.
--     Arguments      the loops over the command line (-seed, signature types).
--     Wallet, Cert   the handlers s_wallet_… and s_cert_…, one definition each, under their names.
--     Init, Dispatch s_init; s_opts and main. Help has the text of s_help.
--     Helpers        the two functions that nothing calls.
--   Console        main of sources/main_node_cli.c.
--   Signals        sources/sig_unix_handler.c: the name of the pid file, and the
--                  dispositions of signals. Signals/Windows has sources/sig_win32_handler.c and
--                  sources/exh_win32.c.
--   NodeManager    sources/node_manager.c, which no target builds.
--   Conftool       conftool/. A command is a function of the files, the variables and the output, which
--                  may end in an exception (`raised`) or in undefined behaviour (World); what the
--                  system answers is the record `Host`.
--     ConfigFile     conftool/config/CellframeConfigFile.cpp: the text of a configuration file, its
--                    lines, and exists, set, save and replace_placeholders on them.
--                    ConfigFile/Plain, Steps, Map, Twice, Save and Resaved have the lemmas.
--     Path, Variables  config_path and get_config_path; variable_storage and substitute_variables with
--                    its PlaceholderManager. Variables/Substitution says what it makes of a text.
--     Network, Config, Template, Condition, Service  conftool/commands/: a record for each class, its
--                    constructor (`new_…`) and execute (`execute_…`); Condition also has `var`, and
--                    Service has net_list.
--     Control        conftool/service/: the functions of service.h as a record, which Linux (Control),
--                    macOS (Control/Macos) and Windows (Control/Windows) fill; `control_for` takes the
--                    platform's. What Windows answers is the record `Windows`. Control/Status and
--                    Control/Actions have the proofs.
--     Frame          relations between the world in front of a computation and behind it; Script/Lifting
--                    and Main/Lifting take one from the single commands to run_commands and to main.
--     Script         conftool/commands/AbstractCommand.cpp and, of conftool/main.cpp, reading a
--                    script and run_commands with its stack of conditions. Script/Blocks says what a
--                    script of nested blocks means; Script/Source takes a setup file as the words of
--                    its lines, Script/Settings a list of settings as changes of a map (`replay`);
--                    Script/Dry, Script/Vars, Script/Assigned and Script/Reading say what is left
--                    unchanged.
--     Main           conftool/main.cpp for Linux, Android and macOS (`Platform`). Main/Setup
--                    follows a setup file of settings from its text to the configuration that it
--                    leaves.
--     Registry       the lookups of conftool/main.cpp in the Windows registry, and the variables of a
--                    build for Windows; Registry/Registered follows them into the service command.
--   Android        sources/android/node_jni.cpp: the listeners of notifications as a state (`Bridge`) on
--                  which Java's calls act (Listeners); initConfigs and configure over Conftool, and the
--                  command line (Calls). What Java answers is the record `Jni`, and
--                  what it does during one notification the record `Java`: objects may be gone, and
--                  exceptions may be thrown.
--
-- The tool and the node meet in nothing but the SDK's folders; inside the node, `main` uses the pid
-- lock, and sets the handlers of the signals, to which it hands the path of the pid file. conftool
-- writes the configuration files that the SDK reads for the node, and shares no code with it.
--
-- Bounds. s_proc_running_check has no loop: six steps are all that it takes, so `run 6` is the whole
-- call. The array of the wallet's signature types has `max_enc_keys` entries, and a write behind them
-- is the outcome `overrun`. Buffers of MAX_PATH are the parameters `max_path` and `strncpy`.
--
-- conftool's loops run over lists of lines, words or commands, so its definitions need no bound; the
-- loop `remove_loop` of net_list has one, and one turn more than the name has characters is enough
-- (Service/Names).
--
-- Assumed: the names of conftool's variables have no characters that a regular expression gives a
-- meaning, and their values none that std::regex_replace does, so that substitution is literal; a
-- file that exists can be read, and a path of a file is written in one way only. CONFIGS_PATH is set
-- before it is looked up, as main and the bridge do. A pid file is shorter than the buffer of stdio,
-- so that reading the number takes the whole file; the size fields of a key are the lengths of its
-- data; numbers given to atoi fit an int, and ten times the result of the event loop does.
--
-- Not modelled: what a command that conftool runs by std::system does to the files; messages about
-- errors and the log; of the builds for Windows all but conftool's variables and service command, the
-- check for another node and the handlers of events; the builds of the node and the tool for macOS,
-- the node's own build for Android, and Python plugins; conftool's verbose messages; the logs of the
-- bridge to Java; the SDK. A function that the preprocessor leaves out of a Linux build is left out.
-- What network, config and fromtemplate say of their progress is a `Note`, without its fixed words.
-- DAP_DELETE is taken to free the memory, and not to reset a pointer that it is given by value.
pub mod Prelude
pub mod Process
pub mod Node
pub mod Tool
pub mod Console
pub mod Signals
pub mod Conftool
pub mod Android
pub mod NodeManager
