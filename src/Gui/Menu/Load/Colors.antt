-- ===== src/Gui/Menu/Load/Colors.antt =====
-- `menu_loadmenu` from its first colour to END_ROUTINE.
use central_node.Common.{
  ℕ, suc, ◌<◌, ◌≡◌, ◌≢◌, inl, inr, refl, ap, ◌∙◌, true, false, some, List, [], ◌∷◌, arith, ◌==◌,
  length, Bool-cases, ==_iff,
}
use mathlib.Core.Path.{fun_ext}
use central_node.World.{World, answer, num, str, color_content, malloc}
use central_node.World.Terminal.{Color}
use central_node.World.Faults.{Returns, Returns-mono, Returns-and_then, ◌>>=◌}
use central_node.Sys.Sysctl.Granted.{GrantsAll, asked_once}
use central_node.Sys.Logging.{log_write, log_debug}
use central_node.Gui.Colors.{
  rgb, clr_bg_default, write_color, ncurses_swap_color, ncurses_restore_color,
}
use central_node.Gui.Colors.Granted.{
  Recolors, ncurses_swap_color-granted, ncurses_restore_color-granted,
}
use central_node.Gui.Menu.{MenuInfo, menu_nmenus}
use central_node.Gui.Menu.Execute.Next.{IsServed, IsServed-same, IsNext}
use central_node.Gui.Menu.Load.{
  color_white, color_black, id_color_cyan, unwritten, key_loop, end_routine, show_menu, swap_colors,
  menu_loadmenu,
}
use central_node.Gui.Menu.Load.Opened.{opened, open_menu-granted}
use central_node.Gui.Menu.Load.Keys.{Due, Leads, Leaves, key_loop-Leaves}

-- What a menu leaves: the next menu and the keys that are left as said, the settings as they were, these
-- colours, and the echo and the cursor on.
abbrev pub Loads : (ℕ → List ℕ → Type 0) → (ℕ → Color) → World → ℕ → World → Type 0
Loads P colors w next_menu w' =
    P next_menu w'.screen.keys
    × (w'.os ≡ w.os)
    × (w'.options ≡ w.options)
    × (w'.startup ≡ w.startup)
    × (w'.net ≡ w.net)
    × (w'.screen.colors ≡ colors)
    × (w'.screen.echo ≡ true)
    × (w'.screen.cursor ≡ true)

-- A menu that is left as said, wherever the system, the options and the keys are these.
abbrev Loops : (ℕ → List ℕ → Type 0) → MenuInfo → World → Type 0
Loops P minfo w =
    (w1 : World)
    → w1.os ≡ w.os
    → w1.options ≡ w.options
    → w1.screen.keys ≡ w.screen.keys
    → Returns (Leaves P w1) (key_loop (suc (length w1.screen.keys)) minfo w1)

Ends : Color → Color → World → Unit {0} → World → Type 0
Ends white black w done w' =
    Recolors (write_color color_black black (write_color color_white white w.screen.colors)) w w'
    × (w'.screen.echo ≡ true)
    × (w'.screen.cursor ≡ true)

-- END_ROUTINE, with the two colours saved that stood before a swap.
end_routine-granted :
    (minfo : MenuInfo) (white black : Color) (w : World)
    → GrantsAll w.os
    → Returns (Ends white black w) (end_routine minfo true (some white) (some black) w)
unfolding end_routine Ends
end_routine-granted minfo white black w grants =
    let logged =
      (log_write log_debug "Entering END_ROUTINE for menu window %d" (num minfo.mid ∷ []) w).1 in
    let (os, options, startup, net, keys, colors) =
      ncurses_restore_color-granted white color_white logged grants in
    let w2 = (ncurses_restore_color (some white) color_white logged).1 in
    let (os2, options2, startup2, net2, keys2, colors2) =
      ncurses_restore_color-granted black color_black w2 (rw os grants) in
    (
      (
        os2 ∙ os,
        options2 ∙ options,
        startup2 ∙ startup,
        net2 ∙ net,
        keys2 ∙ keys,
        colors2 ∙ ap (write_color color_black black) colors,
      ),
      refl,
      refl,
    )

show_menu-Loads :
    (P : ℕ → List ℕ → Type 0) (minfo : MenuInfo) (white black : Color) (w : World)
    → GrantsAll w.os
    → Loops P minfo w
    → Returns
        (Loads P (write_color color_black black (write_color color_white white w.screen.colors)) w)
        (show_menu minfo (some white) (some black) w)
unfolding show_menu Ends answer
show_menu-Loads P minfo white black w grants loops =
    let quiet = record w { screen = record w.screen { echo = false; cursor = false } } in
    let logged =
      (log_write log_debug "Initializing new menu with %u items.." (num minfo.nentries ∷ [])
        (asked_once quiet)).1 in
    let w1 = opened logged in
    let restored = write_color color_black black (write_color color_white white w.screen.colors) in
    rw (show_menu, ◌>>=◌, grants w.io.calls malloc, open_menu-granted minfo logged grants)
      (Returns-and_then (Leaves P w1) (Loads P restored w)
        (key_loop (suc (length w.screen.keys)) minfo w1) _ (loops w1 refl refl refl)
        (λ next_menu w2 (leads, (os, options, startup, net, colors)).
          Returns-and_then (Ends white black w2) (Loads P restored w)
            (end_routine minfo true (some white) (some black) w2) _
            (end_routine-granted minfo white black w2 (rw os grants))
            (λ done w3 ((os3, options3, startup3, net3, keys3, colors3), echo, cursor). (
              rw keys3 leads,
              os3 ∙ os,
              options3 ∙ options,
              startup3 ∙ startup,
              net3 ∙ net,
              colors3
                  ∙ ap (λ c. write_color color_black black (write_color color_white white c))
                      colors,
              echo,
              cursor,
            ))))

-- Two colours that are written over and then written back.
written_back :
    (white black : Color) (colors swapped both : ℕ → Color)
    → swapped ≡ write_color color_white white colors
    → both ≡ write_color color_black black swapped
    → write_color color_black
        (swapped color_black)
        (write_color color_white (colors color_white) both)
      ≡ colors
written_back white black colors swapped both first second =
    rw (second, first)
      (fun_ext (λ c. elim (Bool-cases (c == color_black)) [
        | inl is_black ↦ rw (is_black, (==_iff c color_black).0 is_black) refl
        | inr other ↦ rw other (elim (Bool-cases (c == color_white)) [
          | inl is_white ↦ rw (is_white, (==_iff c color_white).0 is_white) refl
          | inr neither ↦ rw neither refl
        ])
      ]))

-- Where every request is granted, a menu with items that is left as said leaves the terminal and the
-- settings as they were.
pub menu_loadmenu-granted :
    (P : ℕ → List ℕ → Type 0) (minfo : MenuInfo) (w : World)
    → GrantsAll w.os
    → minfo.nentries ≢ 0
    → Loops P minfo w
    → Returns (Loads P w.screen.colors w) (menu_loadmenu minfo w)
unfolding menu_loadmenu swap_colors
menu_loadmenu-granted P minfo w grants items loops =
    let some_items : (minfo.nentries == 0) ≡ false = ground (arith, items) in
    let logged =
      (log_write log_debug "Loading menu ID '%u' titled '%s'"
        (num minfo.mid ∷ str (some minfo.menu_title) ∷ []) w).1 in
    let w1 = asked_once logged in
    let cyan = w.screen.colors id_color_cyan in
    let black = rgb clr_bg_default clr_bg_default clr_bg_default in
    let (saved1, (os1, options1, startup1, net1, keys1, colors1)) =
      ncurses_swap_color-granted unwritten cyan color_white w1 grants in
    let w2 = (ncurses_swap_color (some unwritten) color_white cyan w1).1 in
    let (saved2, (os2, options2, startup2, net2, keys2, colors2)) =
      ncurses_swap_color-granted unwritten black color_black w2 (rw os1 grants) in
    let w3 = (ncurses_swap_color (some unwritten) color_black black w2).1 in
    let restored =
      write_color color_black (w2.screen.colors color_black)
        (write_color color_white (w.screen.colors color_white) w3.screen.colors) in
    let shown =
      show_menu-Loads P minfo (w.screen.colors color_white) (w2.screen.colors color_black) w3
        (rw (os2 ∙ os1) grants)
        (λ w4 os options keys.
          loops w4 (os ∙ (os2 ∙ os1)) (options ∙ (options2 ∙ options1)) (keys ∙ (keys2 ∙ keys1))) in
    rw
      (
        menu_loadmenu,
        some_items,
        ◌>>=◌,
        grants logged.io.calls (color_content id_color_cyan),
        swap_colors,
        saved1,
        saved2,
      )
      (Returns-mono (Loads P restored w3) (Loads P w.screen.colors w)
        (show_menu minfo (some (w.screen.colors color_white)) (some (w2.screen.colors color_black))
          w3)
        (λ next_menu w4 (leads, os, options, startup, net, colors, echo, cursor). (
          leads,
          os ∙ (os2 ∙ os1),
          options ∙ (options2 ∙ options1),
          startup ∙ (startup2 ∙ startup1),
          net ∙ (net2 ∙ net1),
          colors
              ∙ written_back cyan black w.screen.colors w2.screen.colors w3.screen.colors colors1
                  colors2,
          echo,
          cursor,
        ))
        shown)

Leads-same :
    (keys keys' keys2 : List ℕ) (id : ℕ) → keys' ≡ keys → Leads keys' id keys2 → Leads keys id keys2
Leads-same keys keys' keys2 id same leads = rw (← same) leads

Due-same : (keys keys' : List ℕ) → keys' ≡ keys → Due keys → Due keys'
Due-same keys keys' same due = rw same due

-- Where the system grants every request and serves the check for updates, and the End key is next
-- or will be pressed twice in a row, then Enter or Ctrl-D and then the End key again, loading a
-- menu with items is free of undefined behaviour and ends. The colours are then the same as before,
-- the echo and the cursor are on, and the settings and the networks stay. The next menu is the
-- exit, or a menu with fewer keys left and the End key due still. The menu has its number, the one
-- it came from is a menu or the exit, and a proxy setting is set.
pub menu_loadmenu-Loads :
    (minfo : MenuInfo) (w : World)
    → IsServed w.os w.options
    → minfo.mid < menu_nmenus
    → IsNext minfo.prev_mid
    → minfo.nentries ≢ 0
    → Due w.screen.keys
    → Returns (Loads (Leads w.screen.keys) w.screen.colors w) (menu_loadmenu minfo w)
menu_loadmenu-Loads minfo w served is back items due =
    menu_loadmenu-granted (Leads w.screen.keys) minfo w served.grants items (λ w1 os options keys.
      Returns-mono (Leaves (Leads w1.screen.keys) w1) (Leaves (Leads w.screen.keys) w1)
        (key_loop (suc (length w1.screen.keys)) minfo w1)
        (λ id w2 (leads, keeps).
          (Leads-same w.screen.keys w1.screen.keys w2.screen.keys id keys leads, keeps))
        (key_loop-Leaves (suc (length w1.screen.keys)) minfo w1
          (IsServed-same w.os w1.os w.options w1.options os options served) is back
          (Due-same w.screen.keys w1.screen.keys keys due) (omega arith)))

-- A menu without items leads back.
pub menu_loadmenu-empty :
    (minfo : MenuInfo) (w : World)
    → minfo.nentries ≡ 0
    → menu_loadmenu minfo w ≡ some (minfo.prev_mid, w)
unfolding menu_loadmenu
menu_loadmenu-empty minfo w empty =
    let none_there : (minfo.nentries == 0) ≡ true = rw empty refl in rw none_there refl
