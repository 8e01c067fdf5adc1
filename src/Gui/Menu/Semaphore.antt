-- ===== src/Gui/Menu/Semaphore.antt =====
-- `menu_semaphore` and `menu_init_all_menus`. The menus follow each other for as long as the user wants:
-- `rounds` bounds how many are loaded, and a run that is not over by then ends with none.
pub mod Exit
pub mod Init
pub mod Reach
pub mod Rests
pub mod Endless
mod Runs
use central_node.Common.{
  ℕ, zero, suc, ◌+◌, Bool, true, false, not, Option, none, some, List, [], ◌∷◌, ◌||◌, ◌&&◌, ltb,
  ◌==◌, if◌then◌else◌, length, get_elem?,
}
use central_node.Common.Text.{Bytes, codes}
use central_node.World.{World, gets, exit_success, exit_failure, einval}
use central_node.World.Networks.{Net}
use central_node.World.Faults.{Run, ◌>>=◌, ◌>>◌, call, return, undefined}
use central_node.Sys.Logging.{log_write, log_write_trace, log_debug, set_last_err, current_addr}
use central_node.Sys.Config.Entry.{cfg_nentries}
use central_node.Gui.Menu.{
  MenuInfo, menu_id_main, menu_id_networks, menu_id_nodewdctl, menu_id_configctl, menu_id_tincdctl,
  menu_nmenus, menu_exit, menu_error, menu_entry_maxlen,
}
use central_node.Gui.Menu.Entries.{
  cfg_entryfmt_maxlen, menu_config_formatentries, menu_entries_load_networks,
}
use central_node.Gui.Menu.Load.{menu_loadmenu}

-- The interfaces are shown through `nodecfg.pifnets`, which must be set.
pub gui_displayinfo : Run (Unit {0})
gui_displayinfo = do
  net ← call (gets (λ w. w.net))
  elim net.ifnets [ none ↦ undefined | some ifnets ↦ return tt ]

-- `menuinfos[id]`
pub menu_at : List MenuInfo → ℕ → Run MenuInfo
menu_at menuinfos id = elim (get_elem? menuinfos id) [
  | none ↦ undefined
  | some minfo ↦ return minfo
]

-- The first menu and the loop over the next ones. The result is the id that ended it.
pub run_menus : ℕ → List MenuInfo → ℕ → Run (Option ℕ)
run_menus zero menuinfos id = return none
run_menus (suc rounds) menuinfos id = do
  gui_displayinfo
  minfo ← menu_at menuinfos id
  next_menu ← menu_loadmenu minfo
  if next_menu == menu_exit || next_menu == menu_error
      then return (some next_menu)
      else run_menus rounds menuinfos next_menu

-- `menuinfos` is never `NULL`.
pub menu_semaphore : ℕ → ℕ → List MenuInfo → Run (Option ℕ)
menu_semaphore rounds start_menu menuinfos =
    if ltb menu_nmenus start_menu
    then (do
      call (set_last_err current_addr "" einval)
      call (log_write_trace "menu_semaphore()" "start_menu")
      return (some exit_failure))
    else do
      last ← run_menus rounds menuinfos start_menu
      elim last [
        | none ↦ return none
        | some next_menu ↦ (do
          call (log_write log_debug "Menu Semaphore - Exiting" [])
          return (some (if next_menu == menu_error then exit_failure else exit_success)))
      ]

abbrev main_items : Net → List Bytes
main_items net =
    codes (
      if net.netrepo_status && not (net.n_networks == 0)
      then "Browse networks"
      else "Network Offline")
    ∷ codes "nodeWD CTL"
    ∷ codes "Config CTL"
    ∷ codes "tincd CTL"
    ∷ codes "Check for Updates"
    ∷ codes "Reset Logfile"
    ∷ codes "Contact Info"
    ∷ codes "Exit"
    ∷ []

abbrev nodewd_items : Bool → List Bytes
nodewd_items godmode =
    codes "Load nodeWD"
    ∷ codes "Unload nodeWD"
    ∷ codes "Show process blacklist"
    ∷ codes "Set scan interval"
    ∷ codes (if godmode then "Disable GodMode" else "Enable GodMode")
    ∷ codes "Return"
    ∷ []

abbrev tincdctl_items : List Bytes
tincdctl_items =
    codes "Check daemon status"
    ∷ codes "Generate new keypair"
    ∷ codes "Display UUID"
    ∷ codes "Return"
    ∷ []

abbrev networks_width : ℕ → ℕ → ℕ
networks_width netrepo_len longest =
    if ltb longest netrepo_len
    then netrepo_len + 8
    else if ltb menu_entry_maxlen (longest + 8)
    then longest + 8
    else menu_entry_maxlen

abbrev config_width : ℕ → ℕ
config_width longest =
    if ltb menu_entry_maxlen (longest + cfg_entryfmt_maxlen)
    then longest + cfg_entryfmt_maxlen
    else menu_entry_maxlen

-- The menus of the program, by their numbers.
pub menus : Net → Bool → ℕ → Bytes → List Bytes → List Bytes → List MenuInfo
menus net godmode longest_cfg_entry netrepo config_items network_names =
    record {
      mid = menu_id_main;
      prev_mid = menu_id_main;
      nentries = 8;
      menu_entries = main_items net;
      menu_title = codes "Central Node 7.1";
      maxy = 10;
      maxx = menu_entry_maxlen;
    }
    ∷ record {
      mid = menu_id_networks;
      prev_mid = menu_id_main;
      nentries = length network_names;
      menu_entries = network_names;
      menu_title = netrepo;
      maxy = 10;
      maxx = networks_width (length netrepo) net.longest_net_entry;
    }
    ∷ record {
      mid = menu_id_nodewdctl;
      prev_mid = menu_id_main;
      nentries = 6;
      menu_entries = nodewd_items godmode;
      menu_title = codes "nodeWD Control Panel";
      maxy = 10;
      maxx = menu_entry_maxlen;
    }
    ∷ record {
      mid = menu_id_configctl;
      prev_mid = menu_id_main;
      nentries = cfg_nentries;
      menu_entries = config_items;
      menu_title = codes "Config Control Panel";
      maxy = 10;
      maxx = config_width longest_cfg_entry;
    }
    ∷ record {
      mid = menu_id_tincdctl;
      prev_mid = menu_id_main;
      nentries = 4;
      menu_entries = tincdctl_items;
      menu_title = codes "Tinc Daemon CTL";
      maxy = 10;
      maxx = menu_entry_maxlen + 8;
    }
    ∷ []

-- The status of the semaphore is not looked at.
pub menu_init_all_menus : ℕ → ℕ → Run (Option ℕ)
menu_init_all_menus rounds start_menu = do
  options ← call (gets (λ w. w.options))
  net ← call (gets (λ w. w.net))
  formatted ← menu_config_formatentries
  elim formatted [
    | none ↦ return (some exit_failure)
    | some config_items ↦ elim options.netrepo [
      | none ↦ undefined
      | some netrepo ↦ (do
        names ← menu_entries_load_networks
        ret ←
            menu_semaphore rounds start_menu
              (menus net options.godmode options.longest_cfg_entry netrepo config_items names)
        return (elim ret [ none ↦ none | some code ↦ some exit_success ]))
    ]
  ]
