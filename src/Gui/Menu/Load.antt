-- ===== src/Gui/Menu/Load.antt =====
-- `menu_loadmenu`: a menu is set up, its keys are handled, and the terminal is given back.
pub mod Colors
pub mod Opened
pub mod Keys
pub mod AnyKeys
use central_node.Common.{
  ℕ, zero, suc, ◌+◌, Bool, true, false, Option, none, some, List, [], ◌∷◌, String, ◌||◌, not, ◌==◌,
  if◌then◌else◌, length,
}
use central_node.World.{
  malloc, color_content, new_menu, newwin, set_menu_win, set_menu_sub, set_menu_format,
  set_menu_mark, post_menu, current_item, Request, num, str, World, M, pure, gets, modify, ask,
  ask_plain, exit_success,
}
use central_node.World.Terminal.{Color, Screen}
use central_node.World.Faults.{Run, ◌>>=◌, ◌>>◌, call, return, undefined}
use central_node.Sys.Logging.{
  log_write, log_write_trace, log_debug, log_error, set_last_err, set_last_errno, current_addr,
  enullptr,
}
use central_node.Gui.Colors.{
  rgb, clr_bg_default, eclrsave, einitwin, ncurses_swap_color, ncurses_restore_color,
}
use central_node.Gui.Menu.{
  MenuInfo, read_key, menu_geterror, menu_exit, menu_error, err, key_down, key_up, key_left,
  key_right, key_enter, key_bigenter, key_end, key_shome,
}
use central_node.Gui.Menu.Execute.{menu_execoption}

-- COLOR_WHITE and COLOR_BLACK of curses.h, and ID_COLOR_CYAN
abbrev pub color_white : ℕ
color_white = 7

abbrev pub color_black : ℕ
color_black = 0

abbrev pub id_color_cyan : ℕ
id_color_cyan = 23

-- A colour of the stack that is not written yet
abbrev pub unwritten : Color
unwritten = rgb 0 0 0

-- `item_index(current_item(menu_menu))`, and the next menu behind the check on it
pub select_item : ℕ → M (ℕ × ℕ)
select_item next_menu w =
    let asked = (ask_plain current_item w).1 in
    if w.os.refuse w.io.calls current_item == 0
    then ((w.os.selected w.io.calls, next_menu), asked)
    else (let failed = (set_last_err current_addr "" enullptr asked).1 in
        ((err, menu_error), (log_write_trace "menu_loadmenu()" "id_item_selected" failed).1))

-- The `switch` on the key: the next menu.
pub handle_key : MenuInfo → ℕ → ℕ → ℕ → Run ℕ
handle_key minfo next_menu id_item_selected key_pressed =
    if key_pressed == key_down || key_pressed == key_up
    then return next_menu
    else if key_pressed == key_left
    then return minfo.prev_mid
    else if key_pressed == key_bigenter || (key_pressed == key_enter || key_pressed == key_right)
    then (do
      next ← menu_execoption minfo next_menu id_item_selected
      call (log_write log_debug "Menu operation returned exit code '%d'" (num exit_success ∷ []))
      return next)
    else if key_pressed == key_shome
    then (do call (log_write log_debug "Spawning console" []); return next_menu)
    else if key_pressed == key_end
    then return menu_exit
    else do
      call (log_write log_debug "MENU_HANDLER: Unknown key pressed - '%d'" (num key_pressed ∷ []))
      return next_menu

-- The key handler. At its head the next menu is this one. Each round but the last takes a key, so that
-- their number is fuel enough.
pub key_loop : ℕ → MenuInfo → Run ℕ
key_loop zero minfo = undefined
key_loop (suc rounds) minfo = do
  key ← call read_key
  elim key [
    | none ↦ (do
      call (set_last_errno current_addr "An error has occured reading keyboard input:")
      call (log_write_trace "menu_loadmenu()" "wgetch() => key_pressed")
      return minfo.mid)
    | some key_pressed ↦ (do
      selected ← call (select_item minfo.mid)
      next_menu ← handle_key minfo selected.1 selected.0 key_pressed
      if next_menu == minfo.mid then key_loop rounds minfo else return next_menu)
  ]

-- One call that sets the menu up, and whether it succeeded.
set_up : Request → String → String → M Bool
set_up request info function_name w =
    let rstatus = (ask_plain request w).0 in
    let asked = (ask_plain request w).1 in
    if rstatus == 0
    then (true, asked)
    else (let failed =
          (set_last_err current_addr info (menu_geterror asked.io.errno rstatus) asked).1 in
        (false, (log_write_trace "menu_loadmenu()" function_name failed).1))

-- Behind the window: the first call that is refused ends it, with the next menu.
set_up_menu : MenuInfo → Run (Option ℕ)
set_up_menu minfo = do
  win ← call (set_up set_menu_win "Unable to associate menu with it's window:" "set_menu_win()")
  if not win then return (some menu_error) else do
    sub ← call (set_up set_menu_sub "Unable to create subwindow for menu:" "set_menu_sub()")
    if not sub then return (some menu_error) else do
      format ← call (set_up set_menu_format "Unable to set menu size format:" "set_menu_format()")
      if not format then return (some menu_error) else do
        mark ← call (set_up set_menu_mark "Unable to set menu cursor mark:" "set_menu_mark()")
        if not mark then return (some menu_error) else do
          posted ← call (set_up post_menu "Unable to post ncurses menu:" "post_menu()")
          return (if posted then none else some minfo.mid)

-- From the new menu on. A menu that cannot be made or posted leaves the next menu as it is.
pub open_menu : MenuInfo → Run (Option ℕ)
open_menu minfo = do
  menu ← call (ask new_menu)
  if menu == 0
      then (do
        window ← call (ask_plain newwin)
        if window == 0 then set_up_menu minfo else do
          call (set_last_err current_addr "" einitwin)
          call (
              log_write log_error "Unable to initialize new menu window for menu ID %d"
                (num minfo.mid ∷ []))
          return (some menu_error))
      else do
        call (set_last_errno current_addr "")
        error ← call (gets (λ w. w.error))
        call (
            log_write log_error "Unable to initialize new menu with ID %d - E%d"
              (num minfo.mid ∷ num error.last_errno ∷ []))
        return (some minfo.mid)

-- END_ROUTINE. Where the items could not be allocated, the loop over them reads through `NULL`.
end_routine : MenuInfo → Bool → Option Color → Option Color → Run (Unit {0})
end_routine minfo allocated white_backup black_backup = do
  call (log_write log_debug "Entering END_ROUTINE for menu window %d" (num minfo.mid ∷ []))
  white ← call (ncurses_restore_color white_backup color_white)
  black ← call (ncurses_restore_color black_backup color_black)
  if allocated
      then call (modify (λ w. record w { screen = record w.screen { echo = true; cursor = true } }))
      else undefined

-- Behind the colours: the result is the next menu.
show_menu : MenuInfo → Option Color → Option Color → Run ℕ
show_menu minfo white_backup black_backup = do
  call (modify (λ w. record w { screen = record w.screen { echo = false; cursor = false } }))
  refused ← call (ask malloc)
  if refused == 0
      then (do
        call (log_write log_debug "Initializing new menu with %u items.." (num minfo.nentries ∷ []))
        opened ← open_menu minfo
        rounds ← call (gets (λ w. suc (length w.screen.keys)))
        next_menu ← elim opened [ none ↦ key_loop rounds minfo | some next ↦ return next ]
        end_routine minfo true white_backup black_backup
        return next_menu)
      else do
        call (set_last_errno current_addr "Unable to allocate memory:")
        call (log_write_trace "menu_loadmenu()" "item_allitems")
        end_routine minfo false white_backup black_backup
        return menu_error

-- The colours of the menu library are swapped for the time of the menu. A colour that cannot be
-- swapped ends the menus, and what was swapped before stays.
swap_colors : MenuInfo → Color → Run ℕ
swap_colors minfo cyan = do
  white ← call (ncurses_swap_color (some unwritten) color_white cyan)
  if white.0 == exit_success
      then (do
        black ← call (
            ncurses_swap_color (some unwritten) color_black
              (rgb clr_bg_default clr_bg_default clr_bg_default))
        if black.0 == exit_success then show_menu minfo white.1 black.1 else return menu_error)
      else return menu_error

-- The result is `next_menu` of the semaphore; no caller reads `current_menu`. `minfo` is never `NULL`.
pub menu_loadmenu : MenuInfo → Run ℕ
menu_loadmenu minfo = if minfo.nentries == 0 then return minfo.prev_mid else do
  call (
      log_write log_debug "Loading menu ID '%u' titled '%s'"
        (num minfo.mid ∷ str (some minfo.menu_title) ∷ []))
  refused ← call (ask_plain (color_content id_color_cyan))
  if refused == 0
      then (do cyan ← call (gets (λ w. w.screen.colors id_color_cyan)); swap_colors minfo cyan)
      else do
        call (set_last_err current_addr "" eclrsave)
        call (
            log_write log_error "Unable to extract color values from color ID %d"
              (num id_color_cyan ∷ []))
        call (log_write_trace "menu_loadmenu()" "color_content()")
        return menu_error
