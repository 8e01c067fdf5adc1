-- ===== src/Gui/Menu/Load/AnyKeys.antt =====
-- The keys of a menu, whatever they are.
use central_node.Common.{
  ℕ, zero, suc, ◌≤◌, ◌<◌, ◌≡◌, ◌≢◌, inl, inr, refl, ap, ◌∙◌, List, [], arith, ◌==◌, length,
  Bool-cases, List-cases,
}
use central_node.World.{World, current_item, ask_plain}
use central_node.World.Faults.{Returns, Returns-and_then, Returns-mono, ◌>>=◌}
use central_node.Sys.Sysctl.Granted.{GrantsAll}
use central_node.Gui.Menu.{MenuInfo, menu_nmenus}
use central_node.Gui.Menu.Execute.Next.{
  IsServed, IsServed-same, IsServed-KeepsMenus, KeepsMenus-refl, KeepsMenus-trans, IsNext,
}
use central_node.Gui.Menu.Load.{select_item, handle_key, key_loop, menu_loadmenu}
use central_node.Gui.Menu.Load.Keys.{
  Leaves, Handles, handle_key-Handles, select_item-granted, taken, read_key-first, read_key-none,
  length-Takes,
}
use central_node.Gui.Menu.Load.Colors.{Loads, menu_loadmenu-granted}

-- The next menu is a menu or the exit, and no keys are added.
abbrev pub Stays : List ℕ → ℕ → List ℕ → Type 0
Stays keys next_menu keys' = IsNext next_menu × (length keys' ≤ length keys)

key_loop-none :
    (rounds : ℕ) (minfo : MenuInfo) (w : World)
    → minfo.mid < menu_nmenus
    → w.screen.keys ≡ []
    → Returns
        (Leaves (λ next_menu keys. (next_menu ≡ minfo.mid) × (keys ≡ [])) w)
        (key_loop (suc rounds) minfo w)
unfolding key_loop
key_loop-none rounds minfo w is none_left =
    rw (key_loop, ◌>>=◌, read_key-none w none_left) ((refl, none_left), KeepsMenus-refl w)

-- Enough rounds lead out of the menu.
key_loop-Stays :
    (rounds : ℕ) (minfo : MenuInfo) (w : World)
    → IsServed w.os w.options
    → minfo.mid < menu_nmenus
    → IsNext minfo.prev_mid
    → length w.screen.keys < rounds
    → Returns (Leaves (Stays w.screen.keys) w) (key_loop rounds minfo w)
unfolding key_loop
key_loop-Stays zero minfo w served is back enough = absurd (omega (arith, enough))
key_loop-Stays (suc rounds) minfo w served is back enough = elim (List-cases w.screen.keys) [
  | inl none_left ↦
      Returns-mono (Leaves (λ next_menu keys. (next_menu ≡ minfo.mid) × (keys ≡ [])) w)
        (Leaves (Stays w.screen.keys) w) (key_loop (suc rounds) minfo w)
        (λ id w2 ((same, empty), keeps).
          ((inl (omega (arith, same, is)), omega (arith, ap length empty)), keeps))
        (key_loop-none rounds minfo w is none_left)
  | inr (key, keys, first) ↦
      let asked = (ask_plain current_item (taken w keys)).1 in
      let selected : select_item minfo.mid (taken w keys)
          ≡ ((w.os.selected w.io.calls, minfo.mid), asked) =
        select_item-granted minfo.mid (taken w keys) served.grants in
      let fewer : length keys < length w.screen.keys = rw (ap length first) (omega arith) in
      rw (key_loop, ◌>>=◌, read_key-first w key keys first, selected)
        (Returns-and_then (Handles asked key) (Leaves (Stays w.screen.keys) w)
          (handle_key minfo minfo.mid (w.os.selected w.io.calls) key asked) _
          (handle_key-Handles minfo minfo.mid (w.os.selected w.io.calls) key asked served back
            (inl is))
          (λ next_menu w' ((is_next, takes, keeps), ends).
            let less : length w'.screen.keys < length w.screen.keys =
              omega (arith, length-Takes keys w'.screen.keys takes, fewer) in
            elim (Bool-cases (next_menu == minfo.mid)) [
              | inl stays ↦ rw stays (
                  Returns-mono (Leaves (Stays w'.screen.keys) w') (Leaves (Stays w.screen.keys) w)
                    (key_loop rounds minfo w')
                    (λ id w2 ((is2, shorter), kept).
                      ((is2, omega (arith, less, shorter)), KeepsMenus-trans w w' w2 keeps kept))
                    (key_loop-Stays rounds minfo w' (IsServed-KeepsMenus w w' keeps served) is back
                      (omega (arith, enough, less))))
              | inr other ↦ rw other ((is_next, omega (arith, less)), keeps)
            ]))
]

-- Whatever the keys, a menu with items is left for a menu or the exit, and the terminal and the settings
-- are as they were.
pub menu_loadmenu-Stays :
    (minfo : MenuInfo) (w : World)
    → IsServed w.os w.options
    → minfo.mid < menu_nmenus
    → IsNext minfo.prev_mid
    → minfo.nentries ≢ 0
    → Returns (Loads (Stays w.screen.keys) w.screen.colors w) (menu_loadmenu minfo w)
menu_loadmenu-Stays minfo w served is back items =
    menu_loadmenu-granted (Stays w.screen.keys) minfo w served.grants items (λ w1 os options keys.
      Returns-mono (Leaves (Stays w1.screen.keys) w1) (Leaves (Stays w.screen.keys) w1)
        (key_loop (suc (length w1.screen.keys)) minfo w1)
        (λ id w2 ((is2, shorter), keeps). ((is2, omega (arith, shorter, ap length keys)), keeps))
        (key_loop-Stays (suc (length w1.screen.keys)) minfo w1
          (IsServed-same w.os w1.os w.options w1.options os options served) is back (omega arith)))

-- Without keys a menu with items leads to itself.
pub menu_loadmenu-none :
    (minfo : MenuInfo) (w : World)
    → GrantsAll w.os
    → minfo.mid < menu_nmenus
    → minfo.nentries ≢ 0
    → w.screen.keys ≡ []
    → Returns
        (Loads (λ next_menu keys. (next_menu ≡ minfo.mid) × (keys ≡ [])) w.screen.colors w)
        (menu_loadmenu minfo w)
menu_loadmenu-none minfo w grants is items none_left =
    menu_loadmenu-granted (λ next_menu keys. (next_menu ≡ minfo.mid) × (keys ≡ [])) minfo w grants
      items
      (λ w1 os options keys. key_loop-none (length w1.screen.keys) minfo w1 is (keys ∙ none_left))
