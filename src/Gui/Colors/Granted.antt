-- ===== src/Gui/Colors/Granted.antt =====
-- A colour that is swapped or restored on a system that grants every request.
use central_node.Common.{ℕ, ◌+◌, ◌≡◌, refl, some}
use central_node.World.{World, exit_success, color_content, init_color}
use central_node.World.Terminal.{Color}
use central_node.Sys.Sysctl.Granted.{GrantsAll}
use central_node.Gui.Colors.{write_color, ncurses_swap_color, ncurses_restore_color}

-- Of what menus touch, the colours alone have changed.
abbrev pub Recolors : (ℕ → Color) → World → World → Type 0
Recolors colors w w' =
    (w'.os ≡ w.os)
    × (w'.options ≡ w.options)
    × (w'.startup ≡ w.startup)
    × (w'.net ≡ w.net)
    × (w'.screen.keys ≡ w.screen.keys)
    × (w'.screen.colors ≡ colors)

pub ncurses_swap_color-granted :
    (color_backup color : Color) (id : ℕ) (w : World)
    → GrantsAll w.os
    → ((ncurses_swap_color (some color_backup) id color w).0
        ≡ (exit_success, some (w.screen.colors id)))
      × Recolors
          (write_color id color w.screen.colors)
          w
          (ncurses_swap_color (some color_backup) id color w).1
unfolding ncurses_swap_color
ncurses_swap_color-granted color_backup color id w grants =
    rw (grants w.io.calls (color_content id), grants (w.io.calls + 1) (init_color id))
      (refl, (refl, refl, refl, refl, refl, refl))

pub ncurses_restore_color-granted :
    (color_backup : Color) (id : ℕ) (w : World)
    → GrantsAll w.os
    → Recolors
        (write_color id color_backup w.screen.colors)
        w
        (ncurses_restore_color (some color_backup) id w).1
unfolding ncurses_restore_color
ncurses_restore_color-granted color_backup id w grants =
    rw (grants w.io.calls (init_color id)) (refl, refl, refl, refl, refl, refl)
