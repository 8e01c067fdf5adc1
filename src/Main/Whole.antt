-- ===== src/Main/Whole.antt =====
-- `main` as a whole, where the start succeeds: the terminal, the menus and the clean-up.
use central_node.Common.{
  ℕ, ◌+◌, ◌*◌, ◌≤◌, ◌<◌, ◌≡◌, refl, ap, ◌∙◌, Bool, true, false, Option, none, some, List, [], ◌∷◌,
  ltb, length, drop,
}
use central_node.Common.Text.{Bytes}
use central_node.World.{World, Os, Options, exit_success}
use central_node.World.Faults.{Returns, Returns-and_then, Returns-mono}
use central_node.Net.Curl.Deliver.{Answers}
use central_node.Net.NetworkList.{new_network}
use central_node.Net.NetworkList.Chain.{Holds}
use central_node.Net.Ops.{atoi}
use central_node.Net.Ops.Names.{networks_of}
use central_node.Net.Ops.Update.{update_url, version_out}
use central_node.Base.Instance.{defaults, cnode_init_instance}
use central_node.Base.Instance.Starts.{Serves, Starts}
use central_node.Gui.Colors.{id_color_min, term_min_x, term_min_y}
use central_node.Gui.Start.{nodecolors, ncurses_init_gui}
use central_node.Gui.Start.Init.{code_of, left_of, gui_code, keys_left, ncurses_init_gui-Opens}
use central_node.Gui.Start.Painted.{painted}
use central_node.Sys.Sysctl.Granted.{GrantsAll}
use central_node.Gui.Menu.Entries.Granted.{Named}
use central_node.Gui.Menu.Execute.Next.{IsServed}
use central_node.Gui.Menu.Load.Keys.{Due}
use central_node.Main.{fetch_and_show, main}
use central_node.Main.Ends.{Ends, fetch_and_show-Ends}

-- A system that grants every request, whose repository serves names and whose update server answers with
-- a version, and whose terminal is large enough. The options name an interface.
pub record IsOnline (names : List Bytes) (o : Options) (os : Os) : Type 0 where
  pub repository : Serves names o os
  pub tincifnet : Bytes
  pub device : o.tincifnet ≡ some tincifnet
  pub response : Bytes
  pub version : Bool × ℕ
  pub answers : Answers update_url response os
  pub long : 5 ≤ length response
  pub number : atoi (drop 1 (version_out response)) ≡ some version
  pub wide : ltb os.terminal.0 term_min_x ≡ false
  pub tall : ltb os.terminal.1 term_min_y ≡ false

networks_of-Named : (id : ℕ) (names : List Bytes) → Named (networks_of id names) names
unfolding new_network
networks_of-Named id [] = tt
networks_of-Named id (name ∷ names) = (refl, networks_of-Named (id + 1) names)

-- The program ran to its end: it ended with EXIT_SUCCESS, the networks and the path of the log file are
-- forgotten, the colours are those that the program gives the terminal, and the echo and the cursor
-- are on.
abbrev pub Runs : World → Option ℕ → World → Type 0
Runs w code w' =
    (code ≡ some exit_success)
    × (w'.net.network_info ≡ 0)
    × (w'.log.log_path ≡ none)
    × ((c : ℕ) → w'.screen.colors c ≡ painted id_color_min nodecolors w.screen.colors c)
    × (w'.screen.echo ≡ true)
    × (w'.screen.cursor ≡ true)

-- The exit code of the start of the terminal with some options, and the keys that it leaves.
abbrev code_at : Options → World → ℕ
code_at o w = gui_code w.os.terminal o.first_time_launch w.startup.nc_color_test

abbrev keys_at : Options → World → List ℕ
keys_at o w = keys_left w.os.terminal o.first_time_launch w.startup.nc_color_test w.screen.keys

abbrev Opened : List Bytes → Options → World → World → Type 0
Opened names o w u =
    (u.os ≡ w.os)
    × (u.options ≡ o)
    × Holds u.net (networks_of 0 names)
    × (u.screen.keys ≡ keys_at o w)
    × ((c : ℕ) → u.screen.colors c ≡ painted id_color_min nodecolors w.screen.colors c)

-- What the start of the terminal reads of the state behind the start.
started-at :
    (o : Options) (w v : World)
    → v.os ≡ w.os
    → v.options ≡ o
    → v.startup.nc_color_test ≡ w.startup.nc_color_test
    → v.screen ≡ w.screen
    → (code_of v ≡ code_at o w) × (left_of v ≡ keys_at o w)
started-at o w v os options test screen =
    let keys : v.screen.keys ≡ w.screen.keys = ap (λ s. s.keys) screen in
    rw (os, options, test, keys) (refl, refl)

ncurses_init_gui-Opened :
    (names : List Bytes) (execname : Option Bytes) (o : Options) (w v : World)
    → GrantsAll w.os
    → Starts names o (defaults execname w) exit_success v
    → ((ncurses_init_gui v).0 ≡ code_at o w) × Opened names o w (ncurses_init_gui v).1
ncurses_init_gui-Opened names execname o w v grants
      (ok, os, options, startup, screen, held, count, known) =
    let (code, colors, running, (os1, options1, net1, input1)) =
      ncurses_init_gui-Opens v (rw os grants) in
    let (code_is, keys) = started-at o w v os options (ap (λ s. s.nc_color_test) startup) screen in
    (
      code ∙ code_is,
      (
        os1 ∙ os,
        options1 ∙ options,
        rw net1 held,
        ap (λ i. i.0) input1 ∙ keys,
        λ c. colors c ∙ ap (λ s. painted id_color_min nodecolors s.colors c) screen,
      ),
    )

fetch_and_show-Runs :
    (rounds : ℕ) (names : List Bytes) (o : Options) (w u : World)
    → IsOnline names o w.os
    → Opened names o w u
    → Due (keys_at o w)
    → 2 * length (keys_at o w) < rounds
    → Returns (Runs w) (fetch_and_show rounds u)
fetch_and_show-Runs rounds names o w u online (os, options, held, keys, colors) due enough =
    let served : IsServed u.os u.options = record {
      grants = rw os online.repository.grants;
      proxy = online.repository.proxy;
      proxied = ap (λ o. o.proxyaddr) options ∙ online.repository.proxied;
      response = online.response;
      version = online.version;
      answers = rw os online.answers;
      long = online.long;
      number = online.number;
    } in
    Returns-mono (Ends u) (Runs w) (fetch_and_show rounds u)
      (λ code w' (ended, list, log, colors', echo, cursor).
        (ended, list, log, λ c. ap (λ f. f c) colors' ∙ colors c, echo, cursor))
      (fetch_and_show-Ends rounds online.tincifnet online.repository.netrepo (networks_of 0 names)
        names u served (ap (λ o. o.tincifnet) options ∙ online.device)
        (ap (λ o. o.netrepo) options ∙ online.repository.repo) held (networks_of-Named 0 names)
        (rw keys due) (rw keys enough))

-- Behind a start that gave some options, `main` runs to its end where the terminal starts and the keys
-- that it leaves end the menus.
pub main-Starts :
    (rounds : ℕ) (execname : Option Bytes) (names : List Bytes) (o : Options) (w : World)
    → IsOnline names o w.os
    → Returns (Starts names o (defaults execname w)) (cnode_init_instance execname [] w)
    → code_at o w ≡ exit_success
    → Due (keys_at o w)
    → 2 * length (keys_at o w) < rounds
    → Returns (Runs w) (main rounds execname [] w)
unfolding main
main-Starts rounds execname names o w online starts success due enough =
    Returns-and_then (Starts names o (defaults execname w)) (Runs w)
      (cnode_init_instance execname [] w) _ starts
      (λ code v (ok, os, options, startup, screen, held, count, known).
        let (code_is, opened) =
          ncurses_init_gui-Opened names execname o w v online.repository.grants
            (refl, os, options, startup, screen, held, count, known) in
        rw (ok, code_is, success)
          (fetch_and_show-Runs rounds names o w (ncurses_init_gui v).1 online opened due enough))
