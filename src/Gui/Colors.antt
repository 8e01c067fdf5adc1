-- ===== src/Gui/Colors.antt =====
-- src/gui/cursesctl.c: the colours that are saved, swapped and restored. ncurses is a parameter: it
-- grants or refuses each call, and keeps the colours and the pairs that it is given. What is painted on
-- the screen is left out. Colour values are not negative.
pub mod RoundTrip
pub mod Granted
mod Tests
use central_node.Common.{
  ◌%◌, ℕ, zero, suc, ◌+◌, ◌-◌, ◌*◌, ◌/◌, ◌^◌, Bool, true, false, not, ◌||◌, ◌&&◌, Option, none,
  some, List, [], ◌∷◌, String, ltb, ◌==◌, if◌then◌else◌, drop,
}
use central_node.World.{
  color_content, init_color, init_pair, initscr, has_colors, start_color, can_change_color, num,
  str, Arg, World, M, pure, ◌>>=◌, ◌>>◌, gets, modify, ask_plain, exit_success, exit_failure,
  einval,
}
use central_node.World.Terminal.{Color, Screen}
use central_node.Sys.Logging.{
  log_write, log_write_trace, log_debug, log_error, set_last_err, current_addr, no_addr_info,
  enullptr,
}
use central_node.Base.Args.{cnode_execution_exit}

abbrev pub ewinsz : ℕ
ewinsz = 0x706

abbrev pub einitclr : ℕ
einitclr = 0x709

abbrev pub einitpair : ℕ
einitpair = 0x70a

abbrev pub einitwin : ℕ
einitwin = 0x70b

abbrev pub enocolor : ℕ
enocolor = 0x70c

abbrev pub estartclr : ℕ
estartclr = 0x70d

abbrev pub eclrsave : ℕ
eclrsave = 0x70f

abbrev pub id_color_min : ℕ
id_color_min = 17

abbrev pub clr_bg_default : ℕ
clr_bg_default = 10

abbrev pub clr_max_val : ℕ
clr_max_val = 1000

abbrev pub term_min_x : ℕ
term_min_x = 120

abbrev pub term_min_y : ℕ
term_min_y = 28

-- ERR of curses.h, -1, as a pattern of 32 bits
abbrev pub err : ℕ
err = 2 ^ 32 - 1

abbrev pub rgb : ℕ → ℕ → ℕ → Color
rgb r g b = record { red = r; green = g; blue = b }

-- A value from 0 to 255 as one of ncurses. It is stored in a `short`.
abbrev to_short : ℕ → ℕ
to_short value = value * clr_max_val / 255 % 2 ^ 16

-- The pointer may be `NULL`. The second component is the colour that it points at afterwards.
unfoldable pub ncurses_apply_rgb : Option Color → ℕ → ℕ → ℕ → M (ℕ × Option Color)
ncurses_apply_rgb none r g b = do
  set_last_err current_addr "" enullptr
  log_write_trace "ncurses_apply_rgb()" "nodecolor"
  pure (exit_failure, none)
ncurses_apply_rgb (some nodecolor) r g b =
    pure (exit_success, some (rgb (to_short r) (to_short g) (to_short b)))

unfoldable pub ncurses_apply_ncolor : Option Color → ℕ → ℕ → ℕ → M (ℕ × Option Color)
ncurses_apply_ncolor none r g b = do
  set_last_err current_addr "" enullptr
  log_write_trace "ncurses_apply_ncolor()" "nodecolor"
  pure (exit_failure, none)
ncurses_apply_ncolor (some nodecolor) r g b = pure (exit_success, some (rgb r g b))

abbrev pub write_color : ℕ → Color → (ℕ → Color) → ℕ → Color
write_color id color colors c = if c == id then color else colors c

-- `init_color`, and whether it succeeded
abbrev pub set_color : ℕ → Color → M Bool
set_color id color = do
  refused ← ask_plain (init_color id)
  modify (λ w. record w {
    screen = record w.screen {
      colors = if refused == 0 then write_color id color w.screen.colors else w.screen.colors;
    };
  })
  pure (refused == 0)

abbrev color_args : ℕ → Color → List Arg
color_args id color = num id ∷ num color.red ∷ num color.green ∷ num color.blue ∷ []

-- The status, and the colour that `color_backup` points at afterwards.
pub ncurses_swap_color : Option Color → ℕ → Color → M (ℕ × Option Color)
ncurses_swap_color none color_to_swap color = do
  set_last_err current_addr "" enullptr
  log_write_trace "ncurses_swap_colors()" "color_backup"
  pure (exit_failure, none)
ncurses_swap_color (some color_backup) color_to_swap color = do
  refused ← ask_plain (color_content color_to_swap)
  if refused == 0
      then (do
        saved ← gets (λ w. w.screen.colors color_to_swap)
        done ← set_color color_to_swap color
        if done
            then (do
              log_write log_debug
                  "Swapped default color ID %d with custom values: R: %4hd G: %4hd B: %4hd"
                  (color_args color_to_swap color)
              pure (exit_success, some saved))
            else do
              set_last_err current_addr "" einitclr
              log_write log_error "Unable to initialize color ID %d" (num color_to_swap ∷ [])
              log_write log_debug "init_color(%d, %4hd, %4hd, %4hd)"
                  (color_args color_to_swap color)
              log_write_trace "ncurses_swap_color()" "init_color()"
              pure (exit_failure, some saved))
      else do
        set_last_err current_addr "" eclrsave
        log_write_trace "ncurses_swap_colors()" "color_content()"
        pure (exit_failure, some color_backup)

pub ncurses_restore_color : Option Color → ℕ → M ℕ
ncurses_restore_color none color_to_restore = do
  set_last_err current_addr "" enullptr
  log_write_trace "ncurses_restore_color()" "color_backup"
  pure exit_failure
ncurses_restore_color (some color_backup) color_to_restore = do
  done ← set_color color_to_restore color_backup
  if done
      then (do
        log_write log_debug
            "Restored default color ID %d to predefined values: R: %4hd G: %4hd B: %4hd"
            (color_args color_to_restore color_backup)
        pure exit_success)
      else do
        set_last_err current_addr "" einitclr
        log_write log_error
            "Unable to restore color ID %d, some terminals may look funky because of this"
            (num color_to_restore ∷ [])
        log_write log_debug "init_color(%d, %hd, %hd, %hd)"
            (color_args color_to_restore color_backup)
        log_write_trace "ncurses_restore_color()" "init_color()"
        pure exit_failure
