-- ===== src/Gui/Start.antt =====
-- src/gui/cursesctl.c: the start of the terminal (`ncurses_init_colors`, `ncurses_init_gui`). ncurses
-- grants or refuses each call. What is painted on the screen, and the texts of ncurses in a log message,
-- are left out.
pub mod Painted
pub mod Init
use central_node.Common.{
  ℕ, zero, suc, ◌+◌, ◌-◌, ◌*◌, ◌/◌, ◌^◌, Bool, true, false, not, ◌||◌, ◌&&◌, Option, none, some,
  List, [], ◌∷◌, String, ltb, ◌==◌, if◌then◌else◌, drop,
}
use central_node.World.{
  color_content, init_color, init_pair, initscr, has_colors, start_color, can_change_color, num,
  str, Arg, World, M, pure, ◌>>=◌, ◌>>◌, gets, modify, ask_plain, exit_success, exit_failure,
  einval,
}
use central_node.World.Terminal.{Color, Screen}
use central_node.Sys.Logging.{
  log_write, log_write_trace, log_debug, log_error, set_last_err, current_addr, no_addr_info,
  enullptr,
}
use central_node.Base.Args.{cnode_execution_exit}
use central_node.Gui.Colors.{
  ewinsz, einitclr, einitpair, einitwin, enocolor, estartclr, id_color_min, clr_bg_default,
  clr_max_val, term_min_x, term_min_y, err, rgb, set_color,
}

-- The colours that `ncurses_init_colors` applies, from ID_COLOR_MIN.
unfoldable pub nodecolors : List Color
nodecolors =
    rgb clr_bg_default clr_bg_default clr_bg_default
    ∷ rgb clr_max_val clr_bg_default clr_bg_default
    ∷ rgb clr_bg_default clr_max_val clr_bg_default
    ∷ rgb clr_max_val clr_max_val clr_bg_default
    ∷ rgb clr_bg_default clr_bg_default clr_max_val
    ∷ rgb clr_max_val clr_bg_default 467
    ∷ rgb clr_bg_default clr_max_val clr_max_val
    ∷ rgb clr_max_val clr_max_val clr_max_val
    ∷ rgb 703 51 753
    ∷ rgb 560 78 clr_bg_default
    ∷ rgb clr_max_val 275 clr_bg_default
    ∷ rgb clr_bg_default clr_bg_default clr_bg_default
    ∷ rgb 0 0 0
    ∷ rgb 784 784 784
    ∷ rgb clr_max_val clr_max_val clr_max_val
    ∷ []

-- The loop over the colours, from the number `clritr`.
init_each : ℕ → List Color → M ℕ
init_each clritr [] = pure exit_success
init_each clritr (color ∷ colors) = do
  let later = init_each (clritr + 1) colors
  log_write log_debug "Initializing color ID %d - nodecolor[%2d] with R: %4d G: %4d B: %4d" (
      num clritr
      ∷ num (clritr - id_color_min)
      ∷ num color.red
      ∷ num color.green
      ∷ num color.blue
      ∷ [])
  done ← set_color clritr color
  if done then later else do
    set_last_err current_addr "" einitclr
    log_write log_error "Unable to initialize ncurses color ID %hu - E%d"
        (num clritr ∷ num err ∷ [])
    log_write log_debug "I: %hu - ARR_ID: %hu"
        (num err ∷ num clritr ∷ num (clritr - id_color_min) ∷ [])
    log_write_trace "ncurses_init_colors()" "cret"
    pure exit_failure

-- The pairs: the number, the colour and its background.
unfoldable pub color_pairs : List (ℕ × ℕ × ℕ)
color_pairs =
    (17, 17, 17)
    ∷ (18, 18, 17)
    ∷ (19, 19, 17)
    ∷ (20, 20, 17)
    ∷ (21, 21, 17)
    ∷ (22, 22, 17)
    ∷ (23, 23, 17)
    ∷ (24, 24, 17)
    ∷ (25, 25, 17)
    ∷ (26, 26, 17)
    ∷ (27, 27, 17)
    ∷ (28, 28, 17)
    ∷ (29, 29, 29)
    ∷ (30, 17, 30)
    ∷ (34, 17, 18)
    ∷ []

abbrev pub write_pair : ℕ → (ℕ × ℕ) → (ℕ → Option (ℕ × ℕ)) → ℕ → Option (ℕ × ℕ)
write_pair id colors pairs p = if p == id then some colors else pairs p

-- All pairs are defined before the first result is looked at. The result is whether each succeeded.
define_pairs : List (ℕ × ℕ × ℕ) → M (List Bool)
define_pairs [] = pure []
define_pairs ((id, fg, bg) ∷ pairs) = do
  refused ← ask_plain (init_pair id)
  modify (λ w. record w {
    screen = record w.screen {
      pairs = if refused == 0 then write_pair id (fg, bg) w.screen.pairs else w.screen.pairs;
    };
  })
  rest ← define_pairs pairs
  pure ((refused == 0) ∷ rest)

check_pairs : ℕ → List Bool → M ℕ
check_pairs i [] = do
  log_write log_debug "Successfully initialized ncurses colors and color pairs" []
  pure exit_success
check_pairs i (defined ∷ rest) = do
  let later = check_pairs (i + 1) rest
  if defined then later else do
    set_last_err current_addr "" einitpair
    log_write log_error "Unable to initialize color pair ID %d - ARR_ID: %d - E%d"
        (num i ∷ num (i + id_color_min) ∷ num err ∷ [])
    log_write_trace "ncurses_init_colors()" "defined_pairs[]"
    pure exit_failure

-- `nodecolors` is never `NULL`: the one caller passes an array of `main`.
pub ncurses_init_colors : M ℕ
unfolding nodecolors color_pairs
ncurses_init_colors = do
  ret ← init_each id_color_min nodecolors
  if ret == exit_success
      then (do defined_pairs ← define_pairs color_pairs; check_pairs 0 defined_pairs)
      else pure exit_failure

-- Behind the checks of the terminal. A key is read after the calibration message.
show_calibration : M ℕ
show_calibration = do
  first ← gets (λ w. w.options.first_time_launch)
  test ← gets (λ w. w.startup.nc_color_test)
  if test || first
      then (do
        modify (λ w. record w { screen = record w.screen { keys = drop 1 w.screen.keys } })
        pure (if first then exit_success else cnode_execution_exit))
      else pure exit_success

-- Behind the colours: the size of the terminal is checked.
check_size : M ℕ
check_size = do
  size ← gets (λ w. w.os.terminal)
  if ltb size.0 term_min_x || ltb size.1 term_min_y
      then (do
        set_last_err no_addr_info "" ewinsz
        log_write log_error "Terminal size too small! MIN: %ux%u [current: %hux%hu]"
            (num term_min_x ∷ num term_min_y ∷ num size.0 ∷ num size.1 ∷ [])
        log_write_trace "ncurses_init_gui()" "dim_termx || dim_termy"
        pure exit_failure)
      else do log_write log_debug "Running ncurses version %s (%s)" []; show_calibration

-- Behind the start of the colours.
open_screen : M ℕ
open_screen = do
  log_write log_debug "Terminal includes support for color redefinition" []
  nc_color_init_ret ← ncurses_init_colors
  if nc_color_init_ret == exit_success then check_size else pure exit_failure

pub ncurses_init_gui : M ℕ
ncurses_init_gui = do
  window ← ask_plain initscr
  if window == 0
      then (do
        modify (λ w. record w {
          startup = record w.startup { winrunning = true };
          screen = record w.screen { mainwin = true };
        })
        colors ← ask_plain has_colors
        if colors == 0
            then (do
              started ← ask_plain start_color
              if started == 0
                  then (do
                    change ← ask_plain can_change_color
                    execname ← gets (λ w. w.startup.execname)
                    if change == 0 then open_screen else do
                      set_last_err no_addr_info "" enocolor
                      log_write log_error
                          "E%d: This terminal doesn't support color redefinition. See '%s --help' for more information."
                          (num enocolor ∷ str execname ∷ [])
                      log_write_trace "ncurses_init_gui()" "can_change_color()"
                      pure exit_failure)
                  else do
                    set_last_err no_addr_info "" estartclr
                    log_write log_error "Unable to start ncurses colors: E%d" (num err ∷ [])
                    log_write_trace "ncurses_init_gui()" "start_color()"
                    pure exit_failure)
            else do
              set_last_err no_addr_info "Unable to initialize ncurses colors" enocolor
              log_write log_debug "The target doesn't support ncurses colors" []
              log_write_trace "ncurses_init_gui()" "has_colors()"
              pure exit_failure)
      else do
        set_last_err current_addr "Unable to initialize ncurses window" einitwin
        pure exit_failure
