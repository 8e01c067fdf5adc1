-- ===== src/Gui/Menu/Tests.antt =====
-- The menus at concrete states.
use central_node.Common.{◌≡◌, ◌⊎◌, inl, inr, refl, false, some, List, [], ◌∷◌, arith}
use central_node.Common.Text.{codes}
use central_node.World.{World, Options}
use central_node.World.Tests.{started, updating}
use central_node.World.Faults.{Returns}
use central_node.Net.Tests.{newer_version}
use central_node.Gui.Menu.{
  get_char, take_byte, first_line, behind_line, MenuInfo, key_down, key_bigenter, key_end,
  menu_id_main, menu_exit,
}
use central_node.Gui.Menu.Execute.Next.{IsServed, KeepsMenus-refl}
use central_node.Gui.Menu.Load.{menu_loadmenu}
use central_node.Gui.Menu.Load.Keys.{Leads, Due, later, here, there}
use central_node.Gui.Menu.Load.Colors.{Loads, menu_loadmenu-Loads}
use central_node.Gui.Menu.Semaphore.{menu_semaphore, menus}
use central_node.Gui.Menu.Semaphore.Reach.{
  start, load, IsSafe, Goes, menus-AreMenus, Reaches-Goes, menus-Reaches,
}
use central_node.Gui.Menu.Semaphore.Rests.{Rests, menu_semaphore-Rests}
use central_node.Gui.Menu.Semaphore.Endless.{Endless, menu_semaphore-Endless}

-- A program at its menus, whose user goes down, selects an item and leaves.
abbrev at_menu : World
at_menu = record started {
  os = updating;
  options = record started.options {
    netrepo = some (codes "repo.net");
    proxyaddr = some (codes "NULL");
  };
  net = record started.net { ifnets = some [] };
  screen = record started.screen {
    keys = key_down ∷ key_bigenter ∷ key_end ∷ key_end ∷ key_bigenter ∷ key_end ∷ [];
  };
}

abbrev pub updating-IsServed :
    (o : Options) → o.proxyaddr ≡ some (codes "NULL") → IsServed updating o
updating-IsServed o proxied = record {
  grants = λ n r. refl;
  proxy = codes "NULL";
  proxied = proxied;
  response = codes "X9999";
  version = (false, 9999);
  answers = λ n t same. (refl, refl);
  long = omega arith;
  number = newer_version;
}

abbrev at_menu-Due : Due at_menu.screen.keys
at_menu-Due = later (there (there (here refl refl refl refl)))

abbrev menuinfos : List MenuInfo
menuinfos = menus at_menu.net false 16 (codes "repo.net") [] []

-- The main menu is loaded, and leads to another menu or the exit.
first_step : Goes menuinfos menu_id_main at_menu
first_step =
    elim (Reaches-Goes menuinfos at_menu
      (menus-AreMenus at_menu.net false 16 (codes "repo.net") [] [])
      (updating-IsServed at_menu.options refl) menu_id_main at_menu
      (inl (omega arith), KeepsMenus-refl at_menu, omega arith)) [
        | inl over ↦ absurd (omega (arith, over))
        | inr goes ↦ goes
      ]

menus-Reaches_example :
    IsSafe at_menu first_step.1 first_step.2
    × ((first_step.1 ≡ menu_exit) ⊎ Goes menuinfos first_step.1 first_step.2)
menus-Reaches_example =
    menus-Reaches at_menu.net false 16 (codes "repo.net") [] [] first_step.1 at_menu first_step.2
      (updating-IsServed at_menu.options refl) (load start first_step.3 first_step.4)

menu_semaphore-Rests_example :
    Returns
      (Rests at_menu)
      (menu_semaphore 2 menu_id_main (menus at_menu.net false 16 (codes "repo.net") [] []) at_menu)
menu_semaphore-Rests_example =
    menu_semaphore-Rests 2 at_menu.net false 16 (codes "repo.net") [] [] [] at_menu
      (updating-IsServed at_menu.options refl) refl

-- A terminal that has no more keys.
abbrev without_keys : World
without_keys = record at_menu { screen = record at_menu.screen { keys = [] } }

menu_semaphore-Endless_example : Returns Endless (
    menu_semaphore 1000 menu_id_main
      (menus without_keys.net false 16 (codes "repo.net") [] [])
      without_keys)
menu_semaphore-Endless_example =
    menu_semaphore-Endless 1000 without_keys.net false 16 (codes "repo.net") [] [] [] without_keys
      (λ n r. refl) refl refl

abbrev tinc_menu : MenuInfo
tinc_menu = record {
  mid = 4;
  prev_mid = 0;
  nentries = 4;
  menu_entries = codes "Check daemon status" ∷ [];
  menu_title = codes "Tinc Daemon CTL";
  maxy = 10;
  maxx = 40;
}

menu_loadmenu-Loads_example :
    Returns
      (Loads (Leads at_menu.screen.keys) at_menu.screen.colors at_menu)
      (menu_loadmenu tinc_menu at_menu)
menu_loadmenu-Loads_example =
    menu_loadmenu-Loads tinc_menu at_menu (updating-IsServed at_menu.options refl) (omega arith)
      (inl (omega arith)) (omega arith) at_menu-Due

-- `getchar` waits for a whole line, takes its first byte and keeps the others for the next calls.
waits_for_line :
    let w : World = record started {
      screen = record started.screen { keys = 120 ∷ 121 ∷ 10 ∷ key_end ∷ [] };
    } in
    let first = get_char w in
    let second = get_char first.1 in
    (first.0 ≡ some 120)
    × (first.1.screen.keys ≡ key_end ∷ [])
    × (second.0 ≡ some 121)
    × (second.1.screen.keys ≡ key_end ∷ [])
    × (second.1.screen.stdin ≡ 10 ∷ [])
unfolding get_char take_byte first_line behind_line
waits_for_line = (refl, refl, refl, refl, refl)
