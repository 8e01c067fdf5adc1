-- ===== src/Gui/Menu/Semaphore/Endless.antt =====
-- The menus where no key can be read.
use central_node.Common.{
  ℕ, zero, suc, ◌≡◌, refl, ap, ◌∙◌, Bool, Option, none, some, List, [], arith,
}
use central_node.Common.Text.{Bytes}
use central_node.World.{World}
use central_node.World.Networks.{Net, Ifnet}
use central_node.World.Faults.{Returns, Returns-and_then, ◌>>=◌}
use central_node.Sys.Sysctl.Granted.{GrantsAll}
use central_node.Gui.Menu.{MenuInfo, menu_id_main}
use central_node.Gui.Menu.Load.{menu_loadmenu}
use central_node.Gui.Menu.Load.Colors.{Loads}
use central_node.Gui.Menu.Load.AnyKeys.{menu_loadmenu-none}
use central_node.Gui.Menu.Semaphore.{run_menus, menu_semaphore, menus}
use central_node.Gui.Menu.Semaphore.Exit.{IsAt, menus-IsAt, gui_displayinfo-some, menu_at-some}

abbrev pub Endless : Option ℕ → World → Type 0
Endless code w' = code ≡ none

run_menus-Endless :
    (rounds : ℕ) (menuinfos : List MenuInfo) (ifnets : List Ifnet) (w : World)
    → IsAt menuinfos menu_id_main
    → GrantsAll w.os
    → w.net.ifnets ≡ some ifnets
    → w.screen.keys ≡ []
    → Returns Endless (run_menus rounds menuinfos menu_id_main w)
unfolding run_menus
run_menus-Endless zero menuinfos ifnets w at grants there none_left = refl
run_menus-Endless (suc rounds) menuinfos ifnets w at grants there none_left =
    rw
      (
        run_menus,
        ◌>>=◌,
        gui_displayinfo-some ifnets w there,
        menu_at-some menuinfos menu_id_main at.minfo w at.found,
      )
      (Returns-and_then
        (Loads (λ next_menu keys. (next_menu ≡ at.minfo.mid) × (keys ≡ [])) w.screen.colors w)
        Endless (menu_loadmenu at.minfo w) _
        (menu_loadmenu-none at.minfo w grants (omega (arith, at.numbered)) (at.items refl)
          none_left)
        (λ next_menu w1 ((same, none_left'), os, options, startup, net, colors, echo, cursor).
          rw (same ∙ at.numbered) (
            run_menus-Endless rounds menuinfos ifnets w1 at (rw os grants)
              (ap (λ n. n.ifnets) net ∙ there) none_left')))

-- Where the system grants every request, the interfaces are set and no key can be read, `menu_semaphore`
-- loads the main menu again and again: for no number of rounds it is over.
pub menu_semaphore-Endless :
    (rounds : ℕ) (net : Net) (godmode : Bool) (longest_cfg_entry : ℕ) (netrepo : Bytes)
    (config_items network_names : List Bytes) (ifnets : List Ifnet) (w : World)
    → GrantsAll w.os
    → w.net.ifnets ≡ some ifnets
    → w.screen.keys ≡ []
    → Returns Endless (
        menu_semaphore rounds menu_id_main
          (menus net godmode longest_cfg_entry netrepo config_items network_names)
          w)
unfolding menu_semaphore
menu_semaphore-Endless rounds net godmode longest_cfg_entry netrepo config_items network_names
      ifnets w grants there none_left =
    let menuinfos = menus net godmode longest_cfg_entry netrepo config_items network_names in
    Returns-and_then Endless Endless (run_menus rounds menuinfos menu_id_main w) _
      (run_menus-Endless rounds menuinfos ifnets w
        (menus-IsAt net godmode longest_cfg_entry netrepo config_items network_names menu_id_main
          (omega arith))
        grants there none_left)
      (λ last w1 used_up. rw used_up refl)
