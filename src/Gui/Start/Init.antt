-- ===== src/Gui/Start/Init.antt =====
-- The start of the terminal on a system that grants every request.
use central_node.Common.{
  ℕ, ◌+◌, ◌≡◌, refl, ◌∙◌, Bool, true, ◌||◌, List, [], ltb, if◌then◌else◌, drop, ap, Bool-cases, inl,
  inr,
}
use central_node.Sys.Logging.{log_write, log_debug}
use central_node.World.{
  initscr, has_colors, start_color, can_change_color, World, exit_success, exit_failure,
}
use central_node.Sys.Sysctl.Granted.{GrantsAll}
use central_node.Base.Args.{cnode_execution_exit}
use central_node.Gui.Colors.{id_color_min, term_min_x, term_min_y}
use central_node.Gui.Start.{
  nodecolors, ncurses_init_colors, show_calibration, check_size, open_screen, ncurses_init_gui,
}
use central_node.Gui.Start.Painted.{painted, input_of, KeepsAll, ncurses_init_colors-Painted}

-- The exit code of the start of the terminal: a terminal below 120 by 28 is refused, a test of the
-- colours ends the program, unless it is the first launch.
abbrev pub gui_code : (ℕ × ℕ) → Bool → Bool → ℕ
gui_code (x, y) first test =
    if ltb x term_min_x || ltb y term_min_y
    then exit_failure
    else if first
    then exit_success
    else if test
    then cnode_execution_exit
    else exit_success

abbrev pub code_of : World → ℕ
code_of w = gui_code w.os.terminal w.options.first_time_launch w.startup.nc_color_test

-- The keys that wait behind the start of the terminal. The calibration message takes one.
abbrev pub keys_left : (ℕ × ℕ) → Bool → Bool → List ℕ → List ℕ
keys_left (x, y) first test keys =
    if ltb x term_min_x || ltb y term_min_y
    then keys
    else if test || first
    then drop 1 keys
    else keys

abbrev pub left_of : World → List ℕ
left_of w =
    keys_left w.os.terminal w.options.first_time_launch w.startup.nc_color_test w.screen.keys

abbrev input_left : World → List ℕ × Bool × Bool
input_left w = (left_of w, w.screen.echo, w.screen.cursor)

-- What the start of the terminal leaves, but for its code, the colours and the mark of the window.
abbrev pub KeepsStart : World → World → Type 0
KeepsStart w w' =
    (w'.os ≡ w.os) × (w'.options ≡ w.options) × (w'.net ≡ w.net) × (input_of w' ≡ input_left w)

check_size-code :
    (w : World)
    → ((check_size w).0 ≡ code_of w)
      × ((check_size w).1.screen.colors ≡ w.screen.colors)
      × ((check_size w).1.startup ≡ w.startup)
      × KeepsStart w (check_size w).1
unfolding check_size show_calibration
check_size-code w =
    elim (Bool-cases (ltb w.os.terminal.0 term_min_x || ltb w.os.terminal.1 term_min_y)) [
      | inl small ↦ rw small (refl, refl, refl, (refl, refl, refl, refl))
      | inr fits ↦ elim (Bool-cases w.options.first_time_launch) [
        | inl first ↦ elim (Bool-cases w.startup.nc_color_test) [
          | inl test ↦ rw (fits, first, test) (refl, refl, refl, (refl, refl, refl, refl))
          | inr none_set ↦ rw (fits, first, none_set) (refl, refl, refl, (refl, refl, refl, refl))
        ]
        | inr later ↦ elim (Bool-cases w.startup.nc_color_test) [
          | inl test ↦ rw (fits, later, test) (refl, refl, refl, (refl, refl, refl, refl))
          | inr none_set ↦ rw (fits, later, none_set) (refl, refl, refl, (refl, refl, refl, refl))
        ]
      ]
    ]

abbrev Opens : World → ℕ → World → Type 0
Opens w code w' =
    (code ≡ code_of w)
    × ((c : ℕ) → w'.screen.colors c ≡ painted id_color_min nodecolors w.screen.colors c)
    × (w'.startup ≡ w.startup)
    × KeepsStart w w'

-- A state that keeps what `input_left` reads.
input_left-same : (u w : World) → KeepsAll w u → input_left u ≡ input_left w
input_left-same u w (os, options, startup, net, input) =
    let keys : u.screen.keys ≡ w.screen.keys = ap (λ i. i.0) input in
    let echo : u.screen.echo ≡ w.screen.echo = ap (λ i. i.1) input in
    let cursor : u.screen.cursor ≡ w.screen.cursor = ap (λ i. i.2) input in
    rw (os, options, startup, keys, echo, cursor) refl

open_screen-Opens : (w : World) → GrantsAll w.os → Opens w (open_screen w).0 (open_screen w).1
unfolding open_screen
open_screen-Opens w grants =
    let logged = (log_write log_debug "Terminal includes support for color redefinition" [] w).1 in
    let (success, colors, kept) = ncurses_init_colors-Painted logged grants in
    let w1 = (ncurses_init_colors logged).1 in
    let (code, same, startup, (os, options, net, input)) = check_size-code w1 in
    let (os1, options1, startup1, net1, input1) = kept in
    let settings : code_of w1 ≡ code_of w = rw (os1, options1, startup1) refl in
    rw success (
      code ∙ settings,
      λ c. rw same (colors c),
      startup ∙ startup1,
      (os ∙ os1, options ∙ options1, net ∙ net1, input ∙ input_left-same w1 logged kept),
    )

abbrev opened : World → World
opened w = record w {
  io = record w.io { calls = w.io.calls + 1 + 1 + 1 + 1 };
  startup = record w.startup { winrunning = true };
  screen = record w.screen { mainwin = true };
}

-- Where every request is granted, `ncurses_init_gui` gives each of the program's colours its value and
-- keeps the others, and marks the window as running. A terminal below 120 columns or 28 rows is refused;
-- otherwise a test of the colours ends the program unless it is the first launch, and else the start
-- succeeds. On the first launch and for a test one key is read; the other keys, the echo and the
-- cursor, the options and the networks stay.
pub ncurses_init_gui-Opens :
    (w : World)
    → GrantsAll w.os
    → ((ncurses_init_gui w).0 ≡ code_of w)
      × ((c : ℕ)
          → (ncurses_init_gui w).1.screen.colors c
            ≡ painted id_color_min nodecolors w.screen.colors c)
      × ((ncurses_init_gui w).1.startup ≡ record w.startup { winrunning = true })
      × KeepsStart w (ncurses_init_gui w).1
unfolding ncurses_init_gui
ncurses_init_gui-Opens w grants =
    rw
      (
        grants w.io.calls initscr,
        grants (w.io.calls + 1) has_colors,
        grants (w.io.calls + 1 + 1) start_color,
        grants (w.io.calls + 1 + 1 + 1) can_change_color,
      )
      (open_screen-Opens (opened w) grants)
