-- ===== src/Gui/Menu/Semaphore/Runs.antt =====
-- The semaphore at numbers that are no menu.
use central_node.Common.{ℕ, ◌≡◌, refl, none, some, List, [], true}
use central_node.Common.Text.{Bytes, codes}
use central_node.World.{World, exit_success, exit_failure}
use central_node.World.Tests.{started}
use central_node.World.Faults.{Returns, ◌>>=◌}
use central_node.Gui.Menu.{MenuInfo, menu_nmenus}
use central_node.Gui.Menu.Entries.{menu_config_formatentries, menu_entries_load_networks}
use central_node.Gui.Menu.Semaphore.{
  gui_displayinfo, menu_at, run_menus, menu_semaphore, menus, menu_init_all_menus,
}

abbrev shown : World
shown = record started { net = record started.net { ifnets = some [] } }

abbrev five_menus : List MenuInfo
five_menus = menus started.net true 8 (codes "repo.net") [] []

-- The number behind the last menu passes the check, and the array is read past its end.
start_behind_last : menu_semaphore 1 menu_nmenus five_menus shown ≡ none
unfolding menu_semaphore run_menus gui_displayinfo menu_at menus
start_behind_last = refl

start_far : Returns (λ code w'. code ≡ some exit_failure) (menu_semaphore 1 6 five_menus shown)
unfolding menu_semaphore
start_far = refl

-- The menus are initialised with success whatever the semaphore reports.
menu_init_all_menus-semaphore :
    (rounds start_menu code : ℕ) (netrepo : Bytes) (config_items names : List Bytes)
    (w w1 w2 w3 : World)
    → menu_config_formatentries w ≡ some (some config_items, w1)
    → w.options.netrepo ≡ some netrepo
    → menu_entries_load_networks w1 ≡ some (names, w2)
    → menu_semaphore rounds start_menu
        (menus w.net w.options.godmode w.options.longest_cfg_entry netrepo config_items names)
        w2
      ≡ some (some code, w3)
    → menu_init_all_menus rounds start_menu w ≡ some (some exit_success, w3)
unfolding menu_init_all_menus
menu_init_all_menus-semaphore rounds start_menu code netrepo config_items names w w1 w2 w3 formats
      there loads ends =
    rw (menu_init_all_menus, ◌>>=◌, formats) (simp (there) (rw (loads, ends) refl))
