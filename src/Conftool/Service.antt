-- ===== src/Conftool/Service.antt =====
-- `service …` (conftool/commands/ServiceCommand.cpp), and `net_list`
-- (conftool/commands/NetworkListCommand.cpp).
pub mod Names
use cellframe_node.Prelude.{
  ℕ, suc, Option, none, some, length, drop, zero, Bool, true, false, not, ◌&&◌, List, [], ◌∷◌, ◌++◌,
  if◌then◌else◌,
}
use cellframe_node.Prelude.Bytes.{Bytes, codes, same, starts_with, contains, replace_all}
use cellframe_node.Conftool.World.{
  Host, Run, ◌>>=◌, ◌>>◌, pure, throw, print, said, listed, Listing, missing, not_directory,
  entries,
}
use cellframe_node.Prelude.Number.{has_bit}
use cellframe_node.Conftool.Control.{Control, service_enabled, process_running}
use cellframe_node.Conftool.Path.{get_config_path, cfg_network}

-- The constructor, on the tokens: any word is taken.
unfoldable pub new_service : List Bytes → Run Bytes
new_service (_ ∷ action ∷ _) = pure action
new_service _ = throw

abbrev pub say : Bool → Bytes → Run Bool
say ok text = do print (said (if ok then text else codes "error")); pure true

-- What is printed of the status.
abbrev pub print_status : ℕ → Run Bool
print_status status = do
  print (
      said (
        if has_bit service_enabled status
        then codes "service: enabled"
        else codes "service: disabled"))
  print (
      said (
        if has_bit process_running status
        then codes "process: running"
        else codes "process: notfound"))
  pure true

module _ (control : Control) where
  unfoldable pub execute_service : Bytes → Run Bool
  execute_service action =
      if same action (codes "enable")
      then (do ok ← control.enable; say ok (codes "enabled"))
      else if same action (codes "disable")
      then (do ok ← control.disable; say ok (codes "disabled"))
      else if same action (codes "status")
      then (do status ← control.service_status; print_status status)
      else if same action (codes "start")
      then (do ok ← control.start; say ok (codes "started"))
      else if same action (codes "stop")
      then (do ok ← control.stop; say ok (codes "stoped"))
      else if same action (codes "restart")
      then (do ok ← control.restart; say ok (codes "restarted"))
      else pure true

-- `m_state`
pub data NetFilter : Type 0 where
  all only_on only_off : NetFilter

abbrev pub net_filter : Bytes → NetFilter
net_filter word =
    if same word (codes "on") then only_on else if same word (codes "off") then only_off else all

unfoldable pub new_net_list : List Bytes → Run NetFilter
unfolding same
new_net_list (_ ∷ word ∷ _) = pure (net_filter word)
new_net_list _ = pure all

abbrev pub wants_on : NetFilter → Bool
wants_on only_off = false
wants_on _ = true

abbrev pub wants_off : NetFilter → Bool
wants_off only_on = false
wants_off _ = true

abbrev pub wants_unknown : NetFilter → Bool
wants_unknown all = true
wants_unknown _ = false

-- `str.find(needle, pos)`
abbrev pub next : Option ℕ → Option ℕ
next none = none
next (some i) = some (suc i)

unfoldable pub find : Bytes → ℕ → Bytes → Option ℕ
unfolding starts_with
find needle zero [] = if starts_with needle [] then some 0 else none
find needle zero (c ∷ cs) =
    let more = next (find needle zero cs) in if starts_with needle (c ∷ cs) then some 0 else more
find needle (suc pos) [] = none
find needle (suc pos) (c ∷ cs) = next (find needle pos cs)

-- `str.erase(pos, len)`
unfoldable pub erase : ℕ → ℕ → Bytes → Bytes
erase zero len s = drop len s
erase (suc pos) len [] = []
erase (suc pos) len (c ∷ cs) = c ∷ erase pos len cs

-- The loop of `removeSubstring`, for so many turns at most; Service/Names shows that it ends, with
-- what `replace_all` leaves when nothing is put in.
unfoldable pub remove_loop : ℕ → Bytes → ℕ → Bytes → Option Bytes
unfolding find erase
remove_loop zero needle pos str = none
remove_loop (suc turns) needle pos str = elim (find needle pos str) [
  | none ↦ some str
  | some i ↦ remove_loop turns needle i (erase i (length needle) str)
]

-- What the loop adds for a regular file: nothing, or a name and a state.
unfoldable pub net_info : NetFilter → Bytes → List (Bytes × Bytes)
unfolding contains replace_all
net_info filter name =
    let dis = contains (codes ".dis") name in
    let cfg = contains (codes ".cfg") name in
    if (dis && cfg) && wants_off filter
    then (replace_all (codes ".cfg.dis") [] zero name, codes "off") ∷ []
    else if (not dis && cfg) && wants_on filter
    then (replace_all (codes ".cfg") [] zero name, codes "on") ∷ []
    else if (not dis && not cfg) && wants_unknown filter
    then (name, codes "unknown") ∷ []
    else []

unfoldable pub net_infos : NetFilter → List (Bytes × Bool) → List (Bytes × Bytes)
unfolding net_info
net_infos filter [] = []
net_infos filter ((name, regular) ∷ rest) =
    (if regular then net_info filter name else []) ++ net_infos filter rest

unfoldable pub print_infos : List (Bytes × Bytes) → Run Bool
print_infos [] = pure true
print_infos ((name, state) ∷ rest) = do print (listed name state); print_infos rest

abbrev pub refuse : Bytes → Run Bool
refuse text = do print (said text); pure false

abbrev pub print_found : List (Bytes × Bytes) → Run Bool
print_found [] = say true (codes "No networks were found.")
print_found (info ∷ infos) = print_infos (info ∷ infos)

abbrev pub list_networks : NetFilter → Listing → Run Bool
list_networks filter missing = refuse (codes "The catalog was not found.")
list_networks filter not_directory = refuse (codes "The specified path is not a directory.")
list_networks filter (entries names) = print_found (net_infos filter names)

module _ (host : Host) where
  unfoldable pub execute_net_list : NetFilter → Run Bool
  unfolding net_infos print_infos get_config_path
  execute_net_list filter w =
      list_networks filter (host.listing w.files (get_config_path cfg_network w.vars)) w
