-- ===== src/Main/Ends.antt =====
-- `main` behind the start and the terminal.
use central_node.Common.{
  ℕ, ◌*◌, ◌<◌, ◌≡◌, refl, ap, ◌∙◌, Bool, true, Option, none, some, List, length, arith, inl, inr,
  Bool-cases, if◌then◌else◌,
}
use central_node.Common.Text.{Bytes}
use central_node.World.{World, exit_success}
use central_node.World.Terminal.{Screen}
use central_node.World.Networks.{Network}
use central_node.World.Faults.{Returns, Returns-and_then, Returns-mono}
use central_node.Net.Ifs.{if_get_ifnet_names}
use central_node.Net.Ifs.Fetch.{Lists, if_get_ifnet_names-Lists}
use central_node.Net.NetworkList.Chain.{Holds}
use central_node.Base.Instance.{cnode_cleanup}
use central_node.Base.Instance.Exits.{Cleans, cnode_cleanup-Cleans}
use central_node.Gui.Menu.{menu_id_main}
use central_node.Gui.Menu.Entries.Granted.{Named}
use central_node.Gui.Menu.Execute.Next.{IsServed, IsServed-same}
use central_node.Gui.Menu.Load.Keys.{Due}
use central_node.Gui.Menu.Semaphore.{menu_init_all_menus}
use central_node.Gui.Menu.Semaphore.Init.{Leaves, Holds-same, menu_init_all_menus-Leaves}
use central_node.Main.{end_with, fetch_and_show}

-- The program ended with EXIT_SUCCESS. Its networks are forgotten, no path of a log file is left, and
-- the terminal has its colours, its echo and its cursor.
abbrev pub Ends : World → Option ℕ → World → Type 0
Ends w code w' =
    (code ≡ some exit_success)
    × (w'.net.network_info ≡ 0)
    × (w'.log.log_path ≡ none)
    × (w'.screen.colors ≡ w.screen.colors)
    × (w'.screen.echo ≡ true)
    × (w'.screen.cursor ≡ true)

-- What the clean-up makes of a terminal that has its echo and its cursor.
restored :
    (s s' : Screen)
    → s' ≡ (if s.mainwin then record s { echo = true; cursor = true } else s)
    → s.echo ≡ true
    → s.cursor ≡ true
    → (s'.colors ≡ s.colors) × (s'.echo ≡ true) × (s'.cursor ≡ true)
restored s s' is echo cursor = elim (Bool-cases s.mainwin) [
  | inl taken ↦
      let opened : s' ≡ record s { echo = true; cursor = true } =
        is ∙ ap {A = Bool} (λ b. if b then record s { echo = true; cursor = true } else s) taken in
      (ap (λ t. t.colors) opened, ap (λ t. t.echo) opened, ap (λ t. t.cursor) opened)
  | inr closed ↦
      let same : s' ≡ s =
        is ∙ ap {A = Bool} (λ b. if b then record s { echo = true; cursor = true } else s) closed in
      (ap (λ t. t.colors) same, ap (λ t. t.echo) same ∙ echo, ap (λ t. t.cursor) same ∙ cursor)
]

end_with-Ends :
    (xs : List Network) (w : World)
    → Holds w.net xs
    → w.screen.echo ≡ true
    → w.screen.cursor ≡ true
    → Returns (Ends w) (end_with exit_success w)
unfolding end_with
end_with-Ends xs w holds echo cursor =
    Returns-and_then (Cleans w holds.1) (Ends w) (cnode_cleanup w) _
      (cnode_cleanup-Cleans w holds.0 holds.1)
      (λ status w' (cleaned, list, cells, log, screen).
        let (colors, echo', cursor') = restored w.screen w'.screen screen echo cursor in
        (refl, list, ap (λ l. l.log_path) log, colors, echo', cursor'))

-- Where the system grants every request and serves the check for updates, the strings of the
-- configuration and a list of networks with names are set, and the next key is the End key or it
-- will be pressed twice in a row, then Enter or Ctrl-D and then the End key again: with more rounds
-- than twice the keys that are left, what `main` does behind the start and the terminal
-- (`fetch_and_show`) is defined and ends with EXIT_SUCCESS. The networks are then forgotten, no
-- path of a log file is left, all colours are as they were, and the echo and the cursor are on.
pub fetch_and_show-Ends :
    (rounds : ℕ) (tincifnet netrepo : Bytes) (xs : List Network) (names : List Bytes) (w : World)
    → IsServed w.os w.options
    → w.options.tincifnet ≡ some tincifnet
    → w.options.netrepo ≡ some netrepo
    → Holds w.net xs
    → Named xs names
    → Due w.screen.keys
    → 2 * length w.screen.keys < rounds
    → Returns (Ends w) (fetch_and_show rounds w)
unfolding fetch_and_show
fetch_and_show-Ends rounds tincifnet netrepo xs names w served device repo holds named due enough =
    Returns-and_then (Lists w) (Ends w) (if_get_ifnet_names w) _
      (if_get_ifnet_names-Lists w served.grants)
      (λ code w1 (ok, net, os, options, startup, screen, log).
        let listed = record w.net { ifnets = _ } in
        let held = Holds-same listed w1.net xs net holds in
        let keys : w1.screen.keys ≡ w.screen.keys = ap (λ s. s.keys) screen in
        rw ok (
          Returns-and_then (Leaves w1) (Ends w) (menu_init_all_menus rounds menu_id_main w1) _
            (menu_init_all_menus-Leaves rounds tincifnet netrepo xs names _ w1
              (IsServed-same w.os w1.os w.options w1.options os options served)
              (ap (λ o. o.tincifnet) options ∙ device) (ap (λ o. o.netrepo) options ∙ repo) held
              named (ap (λ n. n.ifnets) net) (rw keys due) (omega (arith, enough, ap length keys)))
            (λ menus w2 (ended, (os2, options2, startup2, net2, colors2, echo2, cursor2)).
              rw ended (
                Returns-mono (Ends w2) (Ends w) (end_with exit_success w2)
                  (λ last w3 (success, list, log3, colors3, echo3, cursor3). (
                    success,
                    list,
                    log3,
                    colors3 ∙ (colors2 ∙ ap (λ s. s.colors) screen),
                    echo3,
                    cursor3,
                  ))
                  (end_with-Ends xs w2 (Holds-same w1.net w2.net xs net2 held) echo2 cursor2)))))
