-- ===== src/Gui/Menu/Semaphore/Init.antt =====
-- `menu_init_all_menus` as a whole: its entries, its networks and the menus that the user leaves.
use central_node.Common.{
  ℕ, ◌*◌, ◌<◌, ◌≡◌, refl, ap, ◌∙◌, Bool, Option, some, is_some, List, length, arith, inl, inr,
  Option-cases,
}
use central_node.Common.Text.{Bytes}
use central_node.World.{World, exit_success}
use central_node.World.Networks.{Net, Network, Ifnet}
use central_node.World.Faults.{Returns, Returns-and_then, Returns-mono}
use central_node.World.Keeps.{KeepsProgram, KeepsProgram-trans}
use central_node.Net.NetworkList.Chain.{Holds}
use central_node.Gui.Menu.{menu_id_main}
use central_node.Gui.Menu.Entries.{menu_config_formatentries, menu_entries_load_networks}
use central_node.Gui.Menu.Entries.Granted.{
  Named, Formats, Loads, menu_config_formatentries-Formats, menu_entries_load_networks-Loads,
}
use central_node.Gui.Menu.Execute.Next.{IsServed, IsServed-same}
use central_node.Gui.Menu.Load.Keys.{Due}
use central_node.Gui.Menu.Semaphore.{menu_semaphore, menus, menu_init_all_menus}
use central_node.Gui.Menu.Semaphore.Exit.{Exits, menu_semaphore-Exits}

pub Holds-same : (net net' : Net) (xs : List Network) → net' ≡ net → Holds net xs → Holds net' xs
Holds-same net net' xs same holds = rw same holds

-- The menus ended with success, and left the state as they should.
abbrev pub Leaves : World → Option ℕ → World → Type 0
Leaves w code w' = (code ≡ some exit_success) × Exits w w'

Exits-KeepsProgram : (u v w : World) → KeepsProgram u v → Exits v w → Exits u w
Exits-KeepsProgram u v w (os, options, startup, screen, net, log)
      (os2, options2, startup2, net2, colors2, echo, cursor) =
    (
      os2 ∙ os,
      options2 ∙ options,
      startup2 ∙ startup,
      net2 ∙ net,
      colors2 ∙ ap (λ s. s.colors) screen,
      echo,
      cursor,
    )

-- The semaphore behind commands that keep the program.
semaphore-Leaves :
    (rounds : ℕ) (net : Net) (godmode : Bool) (longest_cfg_entry : ℕ) (netrepo : Bytes)
    (config_items names : List Bytes) (ifnets : List Ifnet) (w w' : World)
    → KeepsProgram w w'
    → IsServed w.os w.options
    → w.net.ifnets ≡ some ifnets
    → Due w.screen.keys
    → 2 * length w.screen.keys < rounds
    → Returns (Leaves w) (
        menu_semaphore rounds menu_id_main
          (menus net godmode longest_cfg_entry netrepo config_items names)
          w')
semaphore-Leaves rounds net godmode longest_cfg_entry netrepo config_items names ifnets w w' keeps
      served there due enough =
    let keys : w'.screen.keys ≡ w.screen.keys = ap (λ s. s.keys) keeps.3 in
    Returns-mono (Leaves w') (Leaves w)
      (menu_semaphore rounds menu_id_main
        (menus net godmode longest_cfg_entry netrepo config_items names) w')
      (λ code w2 (ended, exits). (ended, Exits-KeepsProgram w w' w2 keeps exits))
      (menu_semaphore-Exits rounds net godmode longest_cfg_entry netrepo config_items names ifnets
        w' (IsServed-same w.os w'.os w.options w'.options keeps.0 keeps.1 served)
        (ap (λ n. n.ifnets) keeps.4 ∙ there) (rw keys due) (omega (arith, enough, ap length keys)))

-- Where the system grants every request and serves the check for updates, the strings of the
-- configuration, the interfaces and a list of networks with names are set, and the next key is the
-- End key or it will be pressed twice in a row, then Enter or Ctrl-D and then the End key again:
-- with more rounds than twice the keys that are left, `menu_init_all_menus` is defined, ends and
-- reports EXIT_SUCCESS. The settings, the networks and all colours are then as they were, and the
-- echo and the cursor are on.
pub menu_init_all_menus-Leaves :
    (rounds : ℕ) (tincifnet netrepo : Bytes) (xs : List Network) (names : List Bytes)
    (ifnets : List Ifnet) (w : World)
    → IsServed w.os w.options
    → w.options.tincifnet ≡ some tincifnet
    → w.options.netrepo ≡ some netrepo
    → Holds w.net xs
    → Named xs names
    → w.net.ifnets ≡ some ifnets
    → Due w.screen.keys
    → 2 * length w.screen.keys < rounds
    → Returns (Leaves w) (menu_init_all_menus rounds menu_id_main w)
unfolding menu_init_all_menus
menu_init_all_menus-Leaves rounds tincifnet netrepo xs names ifnets w served device repo holds named
      there due enough =
    Returns-and_then (Formats w) (Leaves w) (menu_config_formatentries w) _
      (menu_config_formatentries-Formats tincifnet served.proxy netrepo w served.grants device
        served.proxied repo)
      (λ formatted w1 (some_items, keeps1). elim (Option-cases formatted) [
        | inl missing ↦ absurd (ground (arith, ap is_some missing, some_items))
        | inr (config_items, is) ↦
            let held = Holds-same w.net w1.net xs keeps1.4 holds in
            rw is (
              simp (repo) (
                Returns-and_then (Loads w1 names) (Leaves w) (menu_entries_load_networks w1) _
                  (menu_entries_load_networks-Loads xs names w1 (rw keeps1.0 served.grants) held.0
                    held.1 named)
                  (λ network_names w2 (same, keeps2).
                    let semaphore =
                      semaphore-Leaves rounds w.net w.options.godmode w.options.longest_cfg_entry
                        netrepo config_items network_names ifnets w w2
                        (KeepsProgram-trans w w1 w2 keeps1 keeps2) served there due enough in
                    Returns-and_then (Leaves w) (Leaves w)
                      (menu_semaphore rounds menu_id_main
                        (menus w.net w.options.godmode w.options.longest_cfg_entry netrepo
                          config_items network_names)
                        w2)
                      _ semaphore (λ code w3 (ended, exits). rw ended (refl, exits)))))
      ])
