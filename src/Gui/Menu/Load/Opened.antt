-- ===== src/Gui/Menu/Load/Opened.antt =====
-- The set-up of a menu on a system that grants every request.
use central_node.Common.{◌+◌, ◌≡◌, refl, true, none, some, String}
use central_node.World.{
  World, Request, answer, new_menu, newwin, set_menu_win, set_menu_sub, set_menu_format,
  set_menu_mark, post_menu,
}
use central_node.World.Faults.{◌>>=◌}
use central_node.Sys.Sysctl.Granted.{GrantsAll, asked_once}
use central_node.Gui.Menu.{MenuInfo}
use central_node.Gui.Menu.Load.{set_up, set_up_menu, open_menu}

set_up-granted :
    (request : Request) (info function_name : String) (w : World)
    → GrantsAll w.os
    → set_up request info function_name w ≡ (true, asked_once w)
unfolding set_up
set_up-granted request info function_name w grants = rw (grants w.io.calls request) refl

set_up_menu-granted :
    (minfo : MenuInfo) (w : World)
    → GrantsAll w.os
    → set_up_menu minfo w
      ≡ some (none, asked_once (asked_once (asked_once (asked_once (asked_once w)))))
unfolding set_up_menu
set_up_menu-granted minfo w grants =
    let w1 = asked_once w in
    let w2 = asked_once w1 in
    let w3 = asked_once w2 in
    let w4 = asked_once w3 in
    rw
      (
        set_up_menu,
        ◌>>=◌,
        set_up-granted set_menu_win "Unable to associate menu with it's window:" "set_menu_win()" w
            grants,
        set_up-granted set_menu_sub "Unable to create subwindow for menu:" "set_menu_sub()" w1
            grants,
        set_up-granted set_menu_format "Unable to set menu size format:" "set_menu_format()" w2
            grants,
        set_up-granted set_menu_mark "Unable to set menu cursor mark:" "set_menu_mark()" w3 grants,
        set_up-granted post_menu "Unable to post ncurses menu:" "post_menu()" w4 grants,
      )
      refl

-- The state behind the calls that open a menu.
abbrev pub opened : World → World
opened w = record w { io = record w.io { calls = w.io.calls + 1 + 1 + 1 + 1 + 1 + 1 + 1 } }

pub open_menu-granted :
    (minfo : MenuInfo) (w : World) → GrantsAll w.os → open_menu minfo w ≡ some (none, opened w)
unfolding open_menu answer
open_menu-granted minfo w grants =
    rw
      (
        open_menu,
        ◌>>=◌,
        grants w.io.calls new_menu,
        grants (w.io.calls + 1) newwin,
        set_up_menu-granted minfo (asked_once (asked_once w)) grants,
      )
      refl
