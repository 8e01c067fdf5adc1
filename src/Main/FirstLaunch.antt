-- ===== src/Main/FirstLaunch.antt =====
-- `main` as a whole on a first launch.
use central_node.Common.{
  ℕ, ◌*◌, ◌<◌, ◌≡◌, refl, Bool, true, false, Option, none, List, [], ltb, ◌==◌, length, drop,
}
use central_node.Common.Text.{Bytes}
use central_node.World.{World, exit_success}
use central_node.World.Faults.{Returns}
use central_node.Base.Instance.{defaults}
use central_node.Base.Instance.Starts.{fresh_options-strings, cnode_init_instance-Starts}
use central_node.Gui.Colors.{term_min_x, term_min_y}
use central_node.Gui.Start.Init.{gui_code, keys_left}
use central_node.Gui.Menu.Load.Keys.{Due}
use central_node.Main.{main}
use central_node.Base.Instance.Starts.{first_options}
use central_node.Main.Whole.{IsOnline, Runs, main-Starts}

-- On a first launch and a large terminal, the terminal starts and one key is read.
first-code :
    (size : ℕ × ℕ) (first test : Bool) (keys : List ℕ)
    → ltb size.0 term_min_x ≡ false
    → ltb size.1 term_min_y ≡ false
    → first ≡ true
    → (gui_code size first test ≡ exit_success) × (keys_left size first test keys ≡ drop 1 keys)
first-code (x, y) first true keys wide tall is = rw (wide, tall, is) (refl, refl)
first-code (x, y) first false keys wide tall is = rw (wide, tall, is) (refl, refl)

-- `main` for root, without arguments and without a configuration file, on a system that grants
-- every request, has a terminal of at least 120 by 28, and reaches a repository that serves names
-- and an update server that answers with a version: where, behind the first key, the next key is
-- the End key or it will be pressed twice in a row, then Enter or Ctrl-D and then the End key
-- again, and with more rounds than twice the keys behind the first one, the run is defined and ends
-- with EXIT_SUCCESS. The networks and the path of the log file are then forgotten, the colours are
-- those of the program, and the echo and the cursor are on.
pub main-Runs :
    (rounds : ℕ) (execname : Option Bytes) (names : List Bytes) (w : World)
    → IsOnline names (first_options execname w) w.os
    → (w.process.uid == 0) ≡ true
    → w.disk.cfg ≡ none
    → 0 < w.net.fresh
    → Due (drop 1 w.screen.keys)
    → 2 * length (drop 1 w.screen.keys) < rounds
    → Returns (Runs w) (main rounds execname [] w)
main-Runs rounds execname names w online root missing used due enough =
    let o = first_options execname w in
    let (tun, proxy, repo, https, first) = fresh_options-strings (defaults execname w).options in
    let (success, left) =
      first-code w.os.terminal o.first_time_launch w.startup.nc_color_test w.screen.keys online.wide
        online.tall first in
    main-Starts rounds execname names o w online
      (cnode_init_instance-Starts execname names w online.repository root missing used) success
      (rw left due) (rw left enough)
