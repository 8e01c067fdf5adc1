-- ===== src/Main.antt =====
-- src/main.c: the order in which the program starts, opens its terminal, shows its menus and cleans up.
pub mod Refused
pub mod Ends
pub mod Whole
pub mod FirstLaunch
pub mod Relaunch
mod Tests
use central_node.Common.{ℕ, Option, none, some, List, ◌==◌, if◌then◌else◌}
use central_node.Common.Text.{Bytes}
use central_node.World.{exit_success, exit_failure}
use central_node.World.Faults.{Run, ◌>>=◌, ◌>>◌, call, return}
use central_node.Base.Instance.{cnode_init_instance, cnode_cleanup}
use central_node.Gui.Start.{ncurses_init_gui}
use central_node.Gui.Menu.{menu_id_main}
use central_node.Gui.Menu.Semaphore.{menu_init_all_menus}
use central_node.Net.Ifs.{if_get_ifnet_names}

-- The program ends with an exit code behind the clean-up.
end_with : ℕ → Run (Option ℕ)
end_with code = do cleaned ← cnode_cleanup; return (some code)

-- Behind the terminal: the interfaces, the menus and the clean-up.
pub fetch_and_show : ℕ → Run (Option ℕ)
fetch_and_show rounds = do
  ifnets ← if_get_ifnet_names
  if ifnets == exit_success
      then (do
        menus ← menu_init_all_menus rounds menu_id_main
        elim menus [
          | none ↦ return none
          | some code ↦ end_with (if code == exit_success then exit_success else exit_failure)
        ])
      else end_with exit_failure

-- The arguments are `argv[0]` and those behind it; `rounds` bounds the menus that are loaded.
pub main : ℕ → Option Bytes → List Bytes → Run (Option ℕ)
main rounds execname args = do
  cnode_init_status ← cnode_init_instance execname args
  if cnode_init_status == exit_success
      then (do
        init_nc_status ← call ncurses_init_gui
        if init_nc_status == exit_success then fetch_and_show rounds else end_with init_nc_status)
      else end_with cnode_init_status
