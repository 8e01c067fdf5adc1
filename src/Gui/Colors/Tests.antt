-- ===== src/Gui/Colors/Tests.antt =====
-- The colours at concrete inputs.
use central_node.Common.{ℕ, ◌≡◌, refl, true, some}
use central_node.World.{exit_success}
use central_node.World.Tests.{started}
use central_node.World.Terminal.{Color}
use central_node.Gui.Colors.{
  rgb, id_color_min, ncurses_apply_rgb, ncurses_apply_ncolor, ncurses_swap_color,
  ncurses_restore_color,
}
use central_node.Gui.Start.{nodecolors, ncurses_init_gui}
use central_node.Gui.Colors.RoundTrip.{ncurses_restore_color-swap_color}
use central_node.Gui.Start.Init.{code_of, KeepsStart, ncurses_init_gui-Opens}
use central_node.Gui.Start.Painted.{painted}

abbrev white : Color
white = rgb 1000 1000 1000

ncurses_restore_color-swap_color_example :
    ((ncurses_swap_color (some white) 7 white started).1.screen.colors 7 ≡ white)
    × ((c : ℕ)
        → (ncurses_restore_color
              (some (rgb 0 0 0))
              7
              (ncurses_swap_color (some white) 7 white started).1).1.screen.colors
            c
          ≡ started.screen.colors c)
unfolding ncurses_swap_color ncurses_restore_color
ncurses_restore_color-swap_color_example =
    ncurses_restore_color-swap_color white white 7 started refl refl

ncurses_init_gui-Opens_example :
    ((ncurses_init_gui started).0 ≡ code_of started)
    × ((c : ℕ)
        → (ncurses_init_gui started).1.screen.colors c
          ≡ painted id_color_min nodecolors started.screen.colors c)
    × ((ncurses_init_gui started).1.startup ≡ record started.startup { winrunning = true })
    × KeepsStart started (ncurses_init_gui started).1
ncurses_init_gui-Opens_example = ncurses_init_gui-Opens started (λ n r. refl)

-- RGB values are scaled to 1000, and values of ncurses are taken as they are.
scaled : (ncurses_apply_rgb (some white) 255 51 0 started).0 ≡ (exit_success, some (rgb 1000 200 0))
unfolding ncurses_apply_rgb
scaled = refl

taken :
    (ncurses_apply_ncolor (some white) 703 51 753 started).0 ≡ (exit_success, some (rgb 703 51 753))
unfolding ncurses_apply_ncolor
taken = refl
