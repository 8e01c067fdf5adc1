-- ===== src/Main/Tests.antt =====
-- `main` at a concrete state behind its start.
use central_node.Common.{
  ◌≡◌, refl, true, false, none, some, List, [], ◌∷◌, arith, ◌==◌, if◌then◌else◌,
}
use central_node.Common.Text.{Bytes, codes, strncmp_eq, is_alnum}
use central_node.World.{World, Os, Options}
use central_node.World.Tests.{started, granting, updating}
use central_node.World.Networks.{Network, status_online}
use central_node.World.Faults.{Returns}
use central_node.Net.NetworkList.Chain.{Holds, nil, cons}
use central_node.Gui.Menu.{key_up, key_bigenter, key_end}
use central_node.Gui.Menu.Load.Keys.{Due, later, here, there}
use central_node.Gui.Menu.Tests.{updating-IsServed}
use central_node.Net.Tests.{newer_version}
use central_node.Net.Ops.{isspecial, is_one_of}
use central_node.Sys.Config.File.Default.{joined}
use central_node.Base.Instance.{defaults, cnode_init_instance}
use central_node.Base.Instance.Starts.{
  first_options, set_options, Serves, Starts, cnode_init_instance-Starts,
}
use central_node.Sys.Config.Eval.Switches.{put_entry}
use central_node.Sys.Config.Read.Lines.{lines_of}
use central_node.Sys.Config.Read.Fresh.{default_settings, default_settings-AllWritable}
use central_node.Main.{fetch_and_show, main}
use central_node.Main.Whole.{IsOnline, Runs}
use central_node.Main.FirstLaunch.{main-Runs}
use central_node.Main.Relaunch.{main-lines_of}
use central_node.Main.Ends.{Ends, fetch_and_show-Ends}

abbrev mesh : Network
mesh = record {
  network_name = some (codes "mesh");
  network_logo = none;
  net_local_id = 0;
  net_uuid = 0;
  network_status = status_online;
}

-- A program that has opened its terminal and knows one network, on a system with one interface.
abbrev opened : World
opened = record started {
  os = updating;
  options = record started.options {
    tincifnet = some (codes "tun0");
    proxyaddr = some (codes "NULL");
    netrepo = some (codes "repo.net");
    longest_cfg_entry = 16;
  };
  net = record started.net {
    netrepo_status = true;
    n_networks = 1;
    network_info = 1;
    fresh = 2;
    cells = λ p. if p == 1 then some (record { info = mesh; next = 0 }) else none;
  };
  screen = record started.screen {
    mainwin = true;
    keys = key_bigenter ∷ key_up ∷ key_end ∷ key_end ∷ key_bigenter ∷ key_end ∷ [];
  };
}

abbrev opened-Holds : Holds opened.net (mesh ∷ [])
opened-Holds = (omega arith, cons (omega arith) (omega arith) refl nil)

abbrev opened-Due : Due opened.screen.keys
opened-Due = later (there (there (here refl refl refl refl)))

fetch_and_show-Ends_example : Returns (Ends opened) (fetch_and_show 20 opened)
fetch_and_show-Ends_example =
    fetch_and_show-Ends 20 (codes "tun0") (codes "repo.net") (mesh ∷ []) (codes "mesh" ∷ []) opened
      (updating-IsServed opened.options refl) refl refl opened-Holds (refl, tt) opened-Due
      (omega arith)

-- A system with an update server and a repository of two networks.
abbrev reachable : Os
reachable = record granting {
  transfer = λ n t.
      if strncmp_eq t.url (codes "https://centralnode.xyz") 23
      then record { pieces = codes "mesh\nla" ∷ codes "b\n" ∷ []; result = 0; response_code = 200 }
      else record { pieces = codes "X9" ∷ codes "999" ∷ []; result = 0; response_code = 200 };
  interfaces = (1, some (codes "eth0")) ∷ [];
}

abbrev two_names : List Bytes
two_names = codes "mesh" ∷ codes "lab" ∷ []

two_names-Serves :
    (o : Options)
    → o.netrepo ≡ some (codes "centralnode.xyz")
    → o.proxyaddr ≡ some (codes "NULL")
    → o.net_nohttps ≡ false
    → Serves two_names o reachable
unfolding joined is_alnum isspecial is_one_of strncmp_eq
two_names-Serves o repo proxied https = record {
  grants = λ n r. refl;
  some_name = omega arith;
  servable = (
    (
      (refl, (refl, (refl, (refl, tt)))),
      (refl, (refl, (refl, (refl, tt)))),
      omega arith,
      omega arith,
    ),
    (((refl, (refl, (refl, tt))), (refl, (refl, (refl, tt))), omega arith, omega arith), tt),
  );
  allowed = (refl, (refl, (refl, (refl, (refl, (refl, (refl, (refl, (refl, tt)))))))));
  small = omega arith;
  netrepo = codes "centralnode.xyz";
  repo = repo;
  proxy = codes "NULL";
  proxied = proxied;
  answers = λ n t same. rw (same, https) (refl, refl);
}

reachable-IsOnline :
    (o : Options)
    → o.netrepo ≡ some (codes "centralnode.xyz")
    → o.proxyaddr ≡ some (codes "NULL")
    → o.net_nohttps ≡ false
    → o.tincifnet ≡ some (codes "tun0")
    → IsOnline two_names o reachable
unfolding strncmp_eq
reachable-IsOnline o repo proxied https device = record {
  repository = two_names-Serves o repo proxied https;
  tincifnet = codes "tun0";
  device = device;
  response = codes "X9999";
  version = (false, 9999);
  answers = λ n t same. rw same (refl, refl);
  long = omega arith;
  number = newer_version;
  wide = refl;
  tall = refl;
}

-- Root starts the program for the first time, passes the calibration message, goes down the main menu
-- and leaves.
abbrev first_started : World
first_started = record started {
  os = reachable;
  screen = record started.screen {
    keys = key_end ∷ key_up ∷ key_bigenter ∷ key_end ∷ key_end ∷ key_bigenter ∷ key_end ∷ [];
  };
}

main-Runs_example : Returns (Runs first_started) (main 20 (some (codes "cnode")) [] first_started)
unfolding put_entry
main-Runs_example =
    main-Runs 20 (some (codes "cnode")) two_names first_started
      (reachable-IsOnline (first_options (some (codes "cnode")) first_started) refl refl refl refl)
      refl refl (omega arith) (later (there (there (here refl refl refl refl)))) (omega arith)

-- The next start, with the file that the first one wrote.
abbrev next_started : World
next_started = record first_started {
  disk = record started.disk { cfg = some (lines_of default_settings) };
  screen = record started.screen {
    keys = key_up ∷ key_bigenter ∷ key_end ∷ key_end ∷ key_bigenter ∷ key_end ∷ [];
  };
}

main-lines_of_example : Returns (Runs next_started) (main 20 none [] next_started)
unfolding put_entry
main-lines_of_example =
    main-lines_of 20 none two_names default_settings next_started
      (reachable-IsOnline (set_options default_settings none next_started) refl refl refl refl) refl
      default_settings-AllWritable refl refl refl (omega arith)
      (later (there (there (here refl refl refl refl)))) (omega arith)

cnode_init_instance-Starts_example :
    Returns
      (Starts two_names (first_options none first_started) (defaults none first_started))
      (cnode_init_instance none [] first_started)
unfolding put_entry
cnode_init_instance-Starts_example =
    cnode_init_instance-Starts none two_names first_started
      (two_names-Serves (first_options none first_started) refl refl refl) refl refl (omega arith)
