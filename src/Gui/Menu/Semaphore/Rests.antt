-- ===== src/Gui/Menu/Semaphore/Rests.antt =====
-- The loop over the menus follows the step relation, so that it stays safe for any keys.
use central_node.Common.{
  ℕ, zero, suc, ◌<◌, ◌≡◌, ◌⊎◌, inl, inr, refl, ap, ◌∙◌, Bool, Option, none, some, List, arith,
}
use central_node.Common.Text.{Bytes}
use central_node.World.{World, exit_success}
use central_node.World.Networks.{Net, Ifnet}
use central_node.World.Faults.{Returns, Returns-and_then, ◌>>=◌}
use central_node.Gui.Menu.{MenuInfo, menu_id_main, menu_exit, menu_nmenus}
use central_node.Gui.Menu.Execute.Next.{IsServed, IsServed-KeepsMenus, KeepsMenus}
use central_node.Gui.Menu.Load.{menu_loadmenu}
use central_node.Gui.Menu.Semaphore.{run_menus, menu_semaphore, menus}
use central_node.Gui.Menu.Semaphore.Exit.{gui_displayinfo-some, menu_at-some, goes_on}
use central_node.Gui.Menu.Semaphore.Reach.{
  start, load, Reaches, IsSafe, Returns-exists, AreMenus, menu_loadmenu-IsSafe, Reaches-IsSafe,
  menus-AreMenus,
}

-- What the loop over the menus does is such a path: it is over at the exit, or the rounds are used up.
abbrev Follows : List MenuInfo → World → Option ℕ → World → Type 0
Follows menuinfos w last w' =
    (id : ℕ) × Reaches menuinfos menu_id_main w id w'
    × ((last ≡ none) ⊎ ((last ≡ some id) × (id ≡ menu_exit)))

run_menus-Follows :
    (rounds : ℕ) (menuinfos : List MenuInfo) (id : ℕ) (ifnets : List Ifnet) (w w' : World)
    → AreMenus menuinfos
    → IsServed w.os w.options
    → w.net.ifnets ≡ some ifnets
    → Reaches menuinfos menu_id_main w id w'
    → id < menu_nmenus
    → Returns (Follows menuinfos w) (run_menus rounds menuinfos id w')
unfolding run_menus
run_menus-Follows zero menuinfos id ifnets w w' are served there reached small =
    (id, reached, inl refl)
run_menus-Follows (suc rounds) menuinfos id ifnets w w' are served there reached small =
    let safe = Reaches-IsSafe menuinfos w are served reached in
    let at = are.1 id small in
    let (next_menu, w'', loaded) =
      Returns-exists (IsSafe w') (menu_loadmenu at.minfo w')
        (menu_loadmenu-IsSafe menuinfos id small at w' (IsServed-KeepsMenus w w' safe.1 served)) in
    let behind = load reached at.found loaded in
    rw
      (
        run_menus,
        ◌>>=◌,
        gui_displayinfo-some ifnets w' (ap (λ n. n.ifnets) safe.1.3 ∙ there),
        menu_at-some menuinfos id at.minfo w' at.found,
        loaded,
      )
      (elim ((Reaches-IsSafe menuinfos w are served behind).0) [
        | inr over ↦ rw over (menu_exit, rw (← over) behind, inr (refl, refl))
        | inl small' ↦ rw (goes_on next_menu small') (
            run_menus-Follows rounds menuinfos next_menu ifnets w w'' are served there behind
              small')
      ])

-- The semaphore has used up its rounds or reports EXIT_SUCCESS, and what menus keep is kept.
abbrev pub Rests : World → Option ℕ → World → Type 0
Rests w code w' = ((code ≡ none) ⊎ (code ≡ some exit_success)) × KeepsMenus w w'

-- Where the system grants every request and serves the check for updates, and a proxy setting and the
-- interfaces are set, whatever the keys: for any number of rounds `menu_semaphore` on the menus of the
-- program is defined, and has either used up its rounds or reports EXIT_SUCCESS. The system, the
-- settings, the networks and the colours are as they were.
pub menu_semaphore-Rests :
    (rounds : ℕ) (net : Net) (godmode : Bool) (longest_cfg_entry : ℕ) (netrepo : Bytes)
    (config_items network_names : List Bytes) (ifnets : List Ifnet) (w : World)
    → IsServed w.os w.options
    → w.net.ifnets ≡ some ifnets
    → Returns (Rests w) (
        menu_semaphore rounds menu_id_main
          (menus net godmode longest_cfg_entry netrepo config_items network_names)
          w)
unfolding menu_semaphore
menu_semaphore-Rests rounds net godmode longest_cfg_entry netrepo config_items network_names ifnets
      w served there =
    let menuinfos = menus net godmode longest_cfg_entry netrepo config_items network_names in
    let are = menus-AreMenus net godmode longest_cfg_entry netrepo config_items network_names in
    Returns-and_then (Follows menuinfos w) (Rests w) (run_menus rounds menuinfos menu_id_main w) _
      (run_menus-Follows rounds menuinfos menu_id_main ifnets w w are served there start
        (omega arith))
      (λ last w1 (id, reached, ends).
        let safe = Reaches-IsSafe menuinfos w are served reached in
        elim ends [
          | inl used_up ↦ rw used_up (inl refl, safe.1)
          | inr (is, over) ↦ rw (is, over) (inr refl, safe.1)
        ])
