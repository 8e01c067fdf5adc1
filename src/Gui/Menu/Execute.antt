-- ===== src/Gui/Menu/Execute.antt =====
-- `menu_execoption`: what Enter does on an item. The status, which is always EXIT_SUCCESS since no
-- pointer is `NULL`, is left out; the result is `semaphore->next_menu`.
pub mod Next
use central_node.Common.{
  ℕ, ◌-◌, ◌%◌, Bool, true, false, Option, none, some, List, [], ◌∷◌, ◌||◌, not, ◌&&◌, ◌==◌,
  if◌then◌else◌,
}
use central_node.World.{num, lit, World, M, gets}
use central_node.World.Faults.{Run, ◌>>=◌, ◌>>◌, call, return}
use central_node.Sys.Logging.{log_write, log_debug, log_reset}
use central_node.Sys.Config.File.{config_read_uuid}
use central_node.Net.Ops.{net_checkupdate}
use central_node.Gui.Menu.{
  MenuInfo, read_key, get_char, menu_id_main, menu_id_networks, menu_id_nodewdctl,
  menu_id_configctl, menu_id_tincdctl, menu_main_entry_update, menu_main_entry_resetlog,
  menu_tincdctl_entry_dstatus, menu_tincdctl_entry_showuuid, menu_exit,
}

-- `char choice`: the low byte of the key; ERR is no answer.
abbrev confirms : Option ℕ → Bool
confirms none = false
confirms (some key) = key % 256 == b'Y' || key % 256 == b'y'

reset_log : ℕ → Run ℕ
reset_log next_menu = do
  choice ← call read_key
  if confirms choice then (do retval ← call log_reset; return next_menu) else return next_menu

-- An item of the main menu.
exec_main : MenuInfo → ℕ → ℕ → Run ℕ
exec_main minfo next_menu item_id =
    if item_id == minfo.nentries - 1
    then return menu_exit
    else if item_id == menu_id_networks - 1
    then (do
      net ← call (gets (λ w. w.net))
      return (if net.netrepo_status then menu_id_networks else next_menu))
    else if item_id == menu_id_nodewdctl - 1
    then (do
      startup ← call (gets (λ w. w.startup))
      return (if startup.is_sys_wsl then next_menu else menu_id_nodewdctl))
    else if item_id == menu_id_configctl - 1
    then return menu_id_configctl
    else if item_id == menu_id_tincdctl - 1
    then return menu_id_tincdctl
    else if item_id == menu_main_entry_update
    then (do update ← net_checkupdate; return next_menu)
    else if item_id == menu_main_entry_resetlog
    then reset_log next_menu
    else return next_menu

-- An item of the tinc menu. Between `endwin` and `wrefresh` the terminal is outside of curses mode.
exec_tincd : MenuInfo → ℕ → ℕ → Run ℕ
exec_tincd minfo next_menu item_id =
    if item_id == minfo.nentries - 1
    then return minfo.prev_mid
    else if item_id == menu_tincdctl_entry_dstatus
    then (do char ← call get_char; return next_menu)
    else if item_id == menu_tincdctl_entry_showuuid
    then (do
      call (log_write log_debug "Reading UUID from '%s'.." (lit "/etc/cnode/.uuidauth" ∷ []))
      found ← call config_read_uuid
      return next_menu)
    else return next_menu

pub menu_execoption : MenuInfo → ℕ → ℕ → Run ℕ
menu_execoption minfo next_menu item_id =
    if minfo.mid == menu_id_main
    then exec_main minfo next_menu item_id
    else if minfo.mid == menu_id_nodewdctl
    then return (if item_id == minfo.nentries - 1 then minfo.prev_mid else next_menu)
    else if minfo.mid == menu_id_tincdctl
    then exec_tincd minfo next_menu item_id
    else return next_menu
