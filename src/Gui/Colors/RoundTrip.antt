-- ===== src/Gui/Colors/RoundTrip.antt =====
-- A colour that is swapped and restored.
use central_node.Common.{ℕ, ◌≡◌, refl, true, some, arith, ◌==◌, ==_iff, Bool-cases, inl, inr}
use central_node.World.{World, exit_success}
use central_node.World.Terminal.{Color}
use central_node.Gui.Colors.{write_color, ncurses_swap_color, ncurses_restore_color}

-- A swap saves the old colour in `color_backup` and sets the new one where it succeeds.
ncurses_swap_color-success :
    (color_backup color : Color) (id : ℕ) (w : World)
    → (ncurses_swap_color (some color_backup) id color w).0.0 ≡ exit_success
    → ((ncurses_swap_color (some color_backup) id color w).0.1 ≡ some (w.screen.colors id))
      × ((ncurses_swap_color (some color_backup) id color w).1.screen.colors
          ≡ write_color id color w.screen.colors)
unfolding ncurses_swap_color
ncurses_swap_color-success color_backup color id w success = ground (arith, success)

ncurses_restore_color-success :
    (color_backup : Color) (id : ℕ) (w : World)
    → (ncurses_restore_color (some color_backup) id w).0 ≡ exit_success
    → (ncurses_restore_color (some color_backup) id w).1.screen.colors
      ≡ write_color id color_backup w.screen.colors
unfolding ncurses_restore_color
ncurses_restore_color-success color_backup id w success = ground (arith, success)

-- A colour that is swapped is saved, and restoring it from there brings all colours back, if both
-- calls succeed; in between the colour has the new value.
pub ncurses_restore_color-swap_color :
    (color_backup color : Color) (id : ℕ) (w : World)
    → let swapped = ncurses_swap_color (some color_backup) id color w in
      swapped.0.0 ≡ exit_success
      → (ncurses_restore_color swapped.0.1 id swapped.1).0 ≡ exit_success
      → (swapped.1.screen.colors id ≡ color)
        × ((c : ℕ)
            → (ncurses_restore_color swapped.0.1 id swapped.1).1.screen.colors c
              ≡ w.screen.colors c)
ncurses_restore_color-swap_color color_backup color id w swaps restores =
    let swapped = ncurses_swap_color (some color_backup) id color w in
    let (saved, colors) = ncurses_swap_color-success color_backup color id w swaps in
    let same : (id == id) ≡ true = ground arith in
    let back : (ncurses_restore_color swapped.0.1 id swapped.1).1.screen.colors
        ≡ write_color id (w.screen.colors id) swapped.1.screen.colors =
      rw saved
        (ncurses_restore_color-success (w.screen.colors id) id swapped.1 (rw (← saved) restores)) in
    (
      rw (colors, same) refl,
      λ c.
          rw (back, colors)
            (elim (Bool-cases (c == id)) [
              | inl here ↦ rw (here, (==_iff c id).0 here) refl
              | inr other ↦ rw other refl
            ]),
    )
