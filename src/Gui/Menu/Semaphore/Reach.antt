-- ===== src/Gui/Menu/Semaphore/Reach.antt =====
-- The menus as a step relation, and what holds of every state that they reach.
use central_node.Common.{
  ℕ, ◌≤◌, ◌<◌, ◌≡◌, ◌⊎◌, inl, inr, refl, sym, ap, ◌∙◌, Bool, Option, none, some, List, arith, ◌==◌,
  length, get_elem?, get_elem?-none, Bool-cases, ==_iff,
}
use mathlib.Core.Option.{some-injective, none-ne-some}
use central_node.Common.Text.{Bytes}
use central_node.World.{World}
use central_node.World.Networks.{Net}
use central_node.World.Faults.{Returns, Returns-mono}
use central_node.Gui.Menu.{MenuInfo, menu_id_main, menu_exit, menu_nmenus}
use central_node.Gui.Menu.Execute.Next.{
  IsServed, IsServed-KeepsMenus, IsNext, KeepsMenus, KeepsMenus-refl, KeepsMenus-trans,
}
use central_node.Gui.Menu.Load.{menu_loadmenu}
use central_node.Gui.Menu.Load.Colors.{Loads, menu_loadmenu-empty}
use central_node.Gui.Menu.Load.AnyKeys.{Stays, menu_loadmenu-Stays}
use central_node.Gui.Menu.Semaphore.{menus}
use central_node.Gui.Menu.Semaphore.Exit.{IsAt, menus-IsAt}

-- The menu and the state that loading one menu after the other leads to.
pub data Reaches (menuinfos : List MenuInfo) (start_menu : ℕ) (w : World) : ℕ → World → Type 0 where
  start : Reaches menuinfos start_menu w start_menu w
  load :
      {id next_menu : ℕ} {minfo : MenuInfo} {w' w'' : World}
      → Reaches menuinfos start_menu w id w'
      → get_elem? menuinfos id ≡ some minfo
      → menu_loadmenu minfo w' ≡ some (next_menu, w'')
      → Reaches menuinfos start_menu w next_menu w''

-- A menu or the exit, with what menus keep kept and no keys added.
abbrev pub IsSafe : World → ℕ → World → Type 0
IsSafe w id w' = IsNext id × KeepsMenus w w' × (length w'.screen.keys ≤ length w.screen.keys)

-- The menu of this number can be loaded.
abbrev pub Goes : List MenuInfo → ℕ → World → Type 0
Goes menuinfos id w =
    (minfo : MenuInfo) × (next_menu : ℕ) × (w' : World) × (get_elem? menuinfos id ≡ some minfo)
    × (menu_loadmenu minfo w ≡ some (next_menu, w'))

Returns-some :
    (P : ℕ → World → Type 0) (r : Option (ℕ × World)) (a : ℕ) (w : World)
    → r ≡ some (a, w)
    → Returns P r
    → P a w
Returns-some P r a w is h = rw is at h

pub Returns-exists :
    (P : ℕ → World → Type 0) (r : Option (ℕ × World))
    → Returns P r
    → (a : ℕ) × (w : World) × (r ≡ some (a, w))
Returns-exists P none h = absurd h
Returns-exists P (some (a, w)) h = (a, w, refl)

-- The number of menus, each of which stands at its number.
abbrev pub AreMenus : List MenuInfo → Type 0
AreMenus menuinfos =
    (length menuinfos ≡ menu_nmenus) × ((id : ℕ) → id < menu_nmenus → IsAt menuinfos id)

pub menu_loadmenu-IsSafe :
    (menuinfos : List MenuInfo) (id : ℕ) (small : id < menu_nmenus) (at : IsAt menuinfos id)
    (w : World)
    → IsServed w.os w.options
    → Returns (IsSafe w) (menu_loadmenu at.minfo w)
menu_loadmenu-IsSafe menuinfos id small at w served =
    let back : at.minfo.prev_mid < menu_nmenus = omega (arith, at.back) in
    elim (Bool-cases (at.minfo.nentries == 0)) [
      | inl empty ↦
          rw (menu_loadmenu-empty at.minfo w ((==_iff at.minfo.nentries 0).0 empty))
            (inl back, KeepsMenus-refl w, omega arith)
      | inr items ↦
          Returns-mono (Loads (Stays w.screen.keys) w.screen.colors w) (IsSafe w)
            (menu_loadmenu at.minfo w)
            (λ next_menu w' ((is, fewer), os, options, startup, net, colors, echo, cursor).
              (is, (os, options, startup, net, colors), fewer))
            (menu_loadmenu-Stays at.minfo w served (omega (arith, at.numbered, small)) (inl back)
              (ground (arith, items)))
    ]

IsSafe-trans : (w w1 w2 : World) (id id2 : ℕ) → IsSafe w id w1 → IsSafe w1 id2 w2 → IsSafe w id2 w2
IsSafe-trans w w1 w2 id id2 (is, keeps, fewer) (is2, keeps2, fewer2) =
    (is2, KeepsMenus-trans w w1 w2 keeps keeps2, omega (arith, fewer, fewer2))

no_exit :
    (menuinfos : List MenuInfo) (minfo : MenuInfo) (id : ℕ)
    → length menuinfos ≡ menu_nmenus
    → id ≡ menu_exit
    → get_elem? menuinfos id ≡ some minfo
    → ⊥
no_exit menuinfos minfo id size over found =
    none-ne-some minfo (sym (get_elem?-none menuinfos id (omega (arith, size, over))) ∙ found)

-- Every state that the menus reach is safe.
pub Reaches-IsSafe :
    (menuinfos : List MenuInfo) (w : World)
    → AreMenus menuinfos
    → IsServed w.os w.options
    → {id : ℕ} {w' : World} → Reaches menuinfos menu_id_main w id w'
    → IsSafe w id w'
Reaches-IsSafe menuinfos w are served start = (inl (omega arith), KeepsMenus-refl w, omega arith)
Reaches-IsSafe menuinfos w are served
      (load {id} {next_menu} {minfo} {w'} {w''} reached found loaded) =
    let safe = Reaches-IsSafe menuinfos w are served reached in
    elim safe.0 [
      | inr over ↦ absurd (no_exit menuinfos minfo id are.0 over found)
      | inl small ↦
          let at = are.1 id small in
          IsSafe-trans w w' w'' id next_menu safe (
            Returns-some (IsSafe w') (menu_loadmenu at.minfo w') next_menu w''
              (ap (λ m. menu_loadmenu m w') (some-injective at.minfo minfo (sym at.found ∙ found))
                ∙ loaded)
              (menu_loadmenu-IsSafe menuinfos id small at w'
                (IsServed-KeepsMenus w w' safe.1 served)))
    ]

-- Every state that the menus reach is the exit, or its menu can be loaded.
pub Reaches-Goes :
    (menuinfos : List MenuInfo) (w : World)
    → AreMenus menuinfos
    → IsServed w.os w.options
    → (id : ℕ) (w' : World) → IsSafe w id w'
    → (id ≡ menu_exit) ⊎ Goes menuinfos id w'
Reaches-Goes menuinfos w are served id w' safe = elim safe.0 [
  | inr over ↦ inl over
  | inl small ↦
      let at = are.1 id small in
      let (next_menu, w'', loaded) =
        Returns-exists (IsSafe w') (menu_loadmenu at.minfo w') (
          menu_loadmenu-IsSafe menuinfos id small at w' (IsServed-KeepsMenus w w' safe.1 served)) in
      inr (at.minfo, next_menu, w'', at.found, loaded)
]

pub menus-AreMenus :
    (net : Net) (godmode : Bool) (longest : ℕ) (netrepo : Bytes) (config_items names : List Bytes)
    → AreMenus (menus net godmode longest netrepo config_items names)
unfolding menus
menus-AreMenus net godmode longest netrepo config_items names =
    (refl, λ id small. menus-IsAt net godmode longest netrepo config_items names id small)

-- Where the system grants every request and serves the check for updates, and a proxy setting is set,
-- whatever the keys: every menu and state that the menus of the program reach from the main menu, by
-- loading one menu after the other, is a menu or the exit with the system, the settings, the networks
-- and the colours as they were and no keys added, and either it is the exit or its menu can be loaded
-- without undefined behaviour.
pub menus-Reaches :
    (net : Net) (godmode : Bool) (longest_cfg_entry : ℕ) (netrepo : Bytes)
    (config_items network_names : List Bytes) (id : ℕ) (w w' : World)
    → IsServed w.os w.options
    → Reaches
        (menus net godmode longest_cfg_entry netrepo config_items network_names)
        menu_id_main
        w
        id
        w'
    → IsSafe w id w'
      × ((id ≡ menu_exit)
          ⊎ Goes (menus net godmode longest_cfg_entry netrepo config_items network_names) id w')
menus-Reaches net godmode longest_cfg_entry netrepo config_items network_names id w w' served
      reached =
    let menuinfos = menus net godmode longest_cfg_entry netrepo config_items network_names in
    let are = menus-AreMenus net godmode longest_cfg_entry netrepo config_items network_names in
    let safe = Reaches-IsSafe menuinfos w are served reached in
    (safe, Reaches-Goes menuinfos w are served id w' safe)
