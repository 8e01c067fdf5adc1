-- ===== src/Gui/Menu/Semaphore/Exit.antt =====
-- The menus end: a user who presses the End key twice in a row, Enter, and the End key again leaves them.
use central_node.Common.{
  ℕ, zero, suc, ◌+◌, ◌*◌, ◌≤◌, ◌<◌, ◌≡◌, ◌≢◌, inl, inr, refl, ap, ◌∙◌, Bool, true, false, Option,
  some, List, ◌||◌, arith, ◌==◌, if◌then◌else◌, length, get_elem?, Bool-cases, ==_iff,
}
use central_node.Common.Text.{Bytes}
use central_node.World.{World, exit_success}
use central_node.World.Networks.{Net, Ifnet}
use central_node.World.Faults.{Returns, Returns-and_then, Returns-mono, ◌>>=◌}
use central_node.Gui.Menu.{MenuInfo, menu_id_main, menu_exit, menu_error, menu_nmenus}
use central_node.Gui.Menu.Execute.Next.{IsServed, IsServed-same}
use central_node.Gui.Menu.Load.{menu_loadmenu}
use central_node.Gui.Menu.Load.Keys.{Due, Leads}
use central_node.Gui.Menu.Load.Colors.{Loads, menu_loadmenu-Loads, menu_loadmenu-empty}
use central_node.Gui.Menu.Semaphore.{gui_displayinfo, menu_at, run_menus, menu_semaphore, menus}

-- The menu of a number. The main menu has items, and every menu returns to it.
pub record IsAt (menuinfos : List MenuInfo) (id : ℕ) : Type 0 where
  pub minfo : MenuInfo
  pub found : get_elem? menuinfos id ≡ some minfo
  pub numbered : minfo.mid ≡ id
  pub back : minfo.prev_mid ≡ menu_id_main
  pub items : id ≡ menu_id_main → minfo.nentries ≢ 0

pub menus-IsAt :
    (net : Net) (godmode : Bool) (longest : ℕ) (netrepo : Bytes) (config_items names : List Bytes)
    (id : ℕ)
    → id < menu_nmenus
    → IsAt (menus net godmode longest netrepo config_items names) id
unfolding menus
menus-IsAt net godmode longest netrepo config_items names zero small = record {
  minfo = _;
  found = refl;
  numbered = refl;
  back = refl;
  items = λ main empty. omega (arith, empty);
}
menus-IsAt net godmode longest netrepo config_items names (suc zero) small = record {
  minfo = _;
  found = refl;
  numbered = refl;
  back = refl;
  items = λ main empty. omega (arith, main);
}
menus-IsAt net godmode longest netrepo config_items names (suc (suc zero)) small = record {
  minfo = _;
  found = refl;
  numbered = refl;
  back = refl;
  items = λ main empty. omega (arith, empty);
}
menus-IsAt net godmode longest netrepo config_items names (suc (suc (suc zero))) small = record {
  minfo = _;
  found = refl;
  numbered = refl;
  back = refl;
  items = λ main empty. omega (arith, empty);
}
menus-IsAt net godmode longest netrepo config_items names (suc (suc (suc (suc zero)))) small =
    record {
      minfo = _;
      found = refl;
      numbered = refl;
      back = refl;
      items = λ main empty. omega (arith, empty);
    }
menus-IsAt net godmode longest netrepo config_items names (suc (suc (suc (suc (suc id))))) small =
    absurd (omega (arith, small))

-- The turn that a menu without items takes to lead to the main menu.
abbrev turns : ℕ → ℕ
turns id = if id == menu_id_main then 0 else 1

turns-≤ : (id : ℕ) → turns id ≤ 1
turns-≤ id = ground arith

-- What the menus leave: the settings, the networks and the colours as they were, and the echo and the
-- cursor on.
abbrev pub Exits : World → World → Type 0
Exits w w' =
    (w'.os ≡ w.os)
    × (w'.options ≡ w.options)
    × (w'.startup ≡ w.startup)
    × (w'.net ≡ w.net)
    × (w'.screen.colors ≡ w.screen.colors)
    × (w'.screen.echo ≡ true)
    × (w'.screen.cursor ≡ true)

abbrev Runs : World → Option ℕ → World → Type 0
Runs w last w' = (last ≡ some menu_exit) × Exits w w'

pub gui_displayinfo-some :
    (ifnets : List Ifnet) (w : World)
    → w.net.ifnets ≡ some ifnets
    → gui_displayinfo w ≡ some (tt, w)
unfolding gui_displayinfo
gui_displayinfo-some ifnets w there = rw there refl

pub menu_at-some :
    (menuinfos : List MenuInfo) (id : ℕ) (minfo : MenuInfo) (w : World)
    → get_elem? menuinfos id ≡ some minfo
    → menu_at menuinfos id w ≡ some (minfo, w)
unfolding menu_at
menu_at-some menuinfos id minfo w found = rw (menu_at, found) refl

pub goes_on : (id : ℕ) → id < menu_nmenus → (id == menu_exit || id == menu_error) ≡ false
goes_on id small = ground (arith, small)

Runs-trans : (w w1 w2 : World) (last : Option ℕ) → Exits w w1 → Runs w1 last w2 → Runs w last w2
Runs-trans w w1 w2 last (os, options, startup, net, colors, echo, cursor)
      (ends, (os2, options2, startup2, net2, colors2, echo2, cursor2)) =
    (
      ends,
      (
        os2 ∙ os,
        options2 ∙ options,
        startup2 ∙ startup,
        net2 ∙ net,
        colors2 ∙ colors,
        echo2,
        cursor2,
      ),
    )

run_menus-Runs :
    (rounds : ℕ) (menuinfos : List MenuInfo) (id : ℕ) (ifnets : List Ifnet) (w : World)
    → ((k : ℕ) → k < menu_nmenus → IsAt menuinfos k)
    → IsServed w.os w.options
    → w.net.ifnets ≡ some ifnets
    → id < menu_nmenus
    → Due w.screen.keys
    → 2 * length w.screen.keys + turns id < rounds
    → Returns (Runs w) (run_menus rounds menuinfos id w)
unfolding run_menus
run_menus-Runs zero menuinfos id ifnets w at served there small due enough =
    absurd (omega (arith, enough))
run_menus-Runs (suc rounds) menuinfos id ifnets w at served there small due enough =
    let menu = at id small in
    let minfo = menu.minfo in
    let back : minfo.prev_mid < menu_nmenus = omega (arith, menu.back) in
    elim (Bool-cases (minfo.nentries == 0)) [
      | inl empty ↦
          let other : turns id ≡ 1 = elim (Bool-cases (id == menu_id_main)) [
            | inl main ↦
                absurd
                  (menu.items ((==_iff id menu_id_main).0 main) ((==_iff minfo.nentries 0).0 empty))
            | inr other ↦ rw other refl
          ] in
          let main : turns minfo.prev_mid ≡ 0 = rw menu.back refl in
          rw
            (
              run_menus,
              ◌>>=◌,
              gui_displayinfo-some ifnets w there,
              menu_at-some menuinfos id minfo w menu.found,
              menu_loadmenu-empty minfo w ((==_iff minfo.nentries 0).0 empty),
              goes_on minfo.prev_mid back,
            )
            (run_menus-Runs rounds menuinfos minfo.prev_mid ifnets w at served there back due
              (omega (arith, enough, other, main)))
      | inr items ↦
          rw
            (
              run_menus,
              ◌>>=◌,
              gui_displayinfo-some ifnets w there,
              menu_at-some menuinfos id minfo w menu.found,
            )
            (Returns-and_then (Loads (Leads w.screen.keys) w.screen.colors w) (Runs w)
              (menu_loadmenu minfo w) _
              (menu_loadmenu-Loads minfo w served (rw menu.numbered small) (inl back)
                (ground (arith, items)) due)
              (λ next_menu w1 ((is, leaves), os, options, startup, net, colors, echo, cursor).
                let done : Exits w w1 = (os, options, startup, net, colors, echo, cursor) in
                elim leaves [
                  | inl over ↦ rw over (refl, done)
                  | inr (due', less) ↦ elim is [
                    | inr over ↦ rw over (refl, done)
                    | inl small' ↦ rw (goes_on next_menu small') (
                        Returns-mono (Runs w1) (Runs w) (run_menus rounds menuinfos next_menu w1)
                          (λ last w2 runs. Runs-trans w w1 w2 last done runs)
                          (run_menus-Runs rounds menuinfos next_menu ifnets w1 at
                            (IsServed-same w.os w1.os w.options w1.options os options served)
                            (ap (λ n. n.ifnets) net ∙ there) small' due'
                            (omega (arith, enough, less, turns-≤ next_menu))))
                  ]
                ]))
    ]

-- Where the system grants every request and serves the check for updates, and a proxy setting and
-- the interfaces are set, a user whose next key is the End key, or who will press it twice in a
-- row, then Enter or Ctrl-D and then the End key again, leaves the menus of the program from the
-- main menu: with more rounds than twice the keys that are left, `menu_semaphore` is defined, ends
-- and reports EXIT_SUCCESS. The settings, the networks and all colours are then as they were, and
-- the echo and the cursor are on.
pub menu_semaphore-Exits :
    (rounds : ℕ) (net : Net) (godmode : Bool) (longest_cfg_entry : ℕ) (netrepo : Bytes)
    (config_items network_names : List Bytes) (ifnets : List Ifnet) (w : World)
    → IsServed w.os w.options
    → w.net.ifnets ≡ some ifnets
    → Due w.screen.keys
    → 2 * length w.screen.keys < rounds
    → Returns
        (λ code w'. (code ≡ some exit_success) × Exits w w')
        (menu_semaphore rounds menu_id_main
          (menus net godmode longest_cfg_entry netrepo config_items network_names)
          w)
unfolding menu_semaphore
menu_semaphore-Exits rounds net godmode longest_cfg_entry netrepo config_items network_names ifnets
      w served there due enough =
    let menuinfos = menus net godmode longest_cfg_entry netrepo config_items network_names in
    Returns-and_then (Runs w) (λ code w'. (code ≡ some exit_success) × Exits w w')
      (run_menus rounds menuinfos menu_id_main w) _
      (run_menus-Runs rounds menuinfos menu_id_main ifnets w
        (menus-IsAt net godmode longest_cfg_entry netrepo config_items network_names) served there
        (omega arith) due (omega (arith, enough)))
      (λ last w1 (over, exits). rw over (refl, exits))
