-- ===== src/Main/Relaunch.antt =====
-- `main` as a whole with a configuration file.
use central_node.Common.{
  arith, inl, inr, Bool-cases, ℕ, ◌*◌, ◌<◌, ◌≡◌, refl, ◌∙◌, Bool, true, false, Option, some, List,
  [], ◌∷◌, ltb, ◌==◌, length,
}
use central_node.Common.Text.{Bytes}
use central_node.World.{World, Options, exit_success}
use central_node.World.Faults.{Returns}
use central_node.Base.Instance.{defaults}
use central_node.Gui.Colors.{term_min_x, term_min_y}
use central_node.Gui.Start.Init.{gui_code, keys_left}
use central_node.Gui.Menu.Load.Keys.{Due}
use central_node.Main.{main}
use central_node.Sys.Config.Entry.{cfg_nentries}
use central_node.Sys.Config.Eval.Switches.{put_entry, is_refused}
use central_node.Sys.Config.Eval.{Pointee}
use central_node.Sys.Config.Read.Line.{pointee, Setting, apply_setting}
use central_node.Sys.Config.Read.Lines.{lines_of, AllWritable, apply_settings}
use central_node.Base.Instance.Starts.{set_options, cnode_init_instance-lines_of}
use central_node.Main.Whole.{IsOnline, Runs, main-Starts}

put_entry-first :
    (e : ℕ) (v : Pointee) (o : Options) → (put_entry e v o).first_time_launch ≡ o.first_time_launch
unfolding put_entry
put_entry-first e v o = ground arith

apply_setting-first :
    (s : Setting) (o : Options) → (apply_setting s o).first_time_launch ≡ o.first_time_launch
apply_setting-first s o = elim (Bool-cases (is_refused s.entry (pointee s.value))) [
  | inl refused ↦ rw refused refl
  | inr taken ↦ rw taken (put_entry-first s.entry (pointee s.value) o)
]

-- No setting signals a first launch.
apply_settings-first :
    (ss : List Setting) (o : Options)
    → (apply_settings ss o).first_time_launch ≡ o.first_time_launch
apply_settings-first [] o = refl
apply_settings-first (s ∷ ss) o =
    apply_settings-first ss (apply_setting s o) ∙ apply_setting-first s o

-- On a later launch and a large terminal, without a test of the colours, the terminal starts and reads
-- no key.
later-code :
    (size : ℕ × ℕ) (first test : Bool) (keys : List ℕ)
    → ltb size.0 term_min_x ≡ false
    → ltb size.1 term_min_y ≡ false
    → first ≡ false
    → test ≡ false
    → (gui_code size first test ≡ exit_success) × (keys_left size first test keys ≡ keys)
later-code (x, y) first test keys wide tall is none_set = rw (wide, tall, is, none_set) (refl, refl)

-- `main` for root without arguments, with a configuration file of as many writable lines as there
-- are entries, on a system that grants every request, has a terminal of at least 120 by 28, and
-- reaches the repository that the file names, which serves names, and an update server that answers
-- with a version: where no test of the colours is asked for, the next key is the End key or it will
-- be pressed twice in a row, then Enter or Ctrl-D and then the End key again, and with more rounds
-- than twice the keys, the run is defined and ends with EXIT_SUCCESS. The networks and the path of
-- the log file are then forgotten, the colours are those of the program, and the echo and the
-- cursor are on.
pub main-lines_of :
    (rounds : ℕ) (execname : Option Bytes) (names : List Bytes) (ss : List Setting) (w : World)
    → IsOnline names (set_options ss execname w) w.os
    → (w.process.uid == 0) ≡ true
    → AllWritable ss
    → length ss ≡ cfg_nentries
    → w.disk.cfg ≡ some (lines_of ss)
    → w.startup.nc_color_test ≡ false
    → 0 < w.net.fresh
    → Due w.screen.keys
    → 2 * length w.screen.keys < rounds
    → Returns (Runs w) (main rounds execname [] w)
main-lines_of rounds execname names ss w online root writable size there no_test used due enough =
    let o = set_options ss execname w in
    let (success, left) =
      later-code w.os.terminal o.first_time_launch w.startup.nc_color_test w.screen.keys online.wide
        online.tall (apply_settings-first ss (defaults execname w).options) no_test in
    main-Starts rounds execname names o w online
      (cnode_init_instance-lines_of execname names ss w online.repository root writable size there
        used)
      success (rw left due) (rw left enough)
