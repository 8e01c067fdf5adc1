-- ===== src/Base/Instance/Starts.antt =====
-- `cnode_init_instance` where everything is granted: on a first launch, where there is no configuration
-- file yet, and with a configuration file.
use central_node.Common.{
  ℕ, ◌<◌, ◌≡◌, refl, ap, ◌∙◌, true, false, Option, none, some, List, [], ◌∷◌, arith, ◌==◌, length,
}
use central_node.Common.Text.{Bytes, codes}
use central_node.World.{World, Os, Options, Startup, exit_success}
use central_node.World.Keeps.{rest_of}
use central_node.World.Faults.{Returns, Returns-and_then, Returns-mono, and_then, ◌>>=◌}
use central_node.Sys.Logging.{log_write, log_debug}
use central_node.Sys.Sysctl.{rootchecker}
use central_node.Sys.Sysctl.Granted.{GrantsAll, log_set_path-granted}
use central_node.Sys.Config.File.Default.{joined}
use central_node.Sys.Config.Read.{config_readcfg}
use central_node.Sys.Config.Entry.{cfg_nentries}
use central_node.Sys.Config.Read.Line.{Setting}
use central_node.Sys.Config.Read.Lines.{lines_of, AllWritable, StoresAll, apply_settings}
use central_node.Sys.Config.Read.File.{config_readcfg-lines_of}
use central_node.Sys.Config.Read.Fresh.{
  default_settings, first_launch, Defaults, config_readcfg-none,
}
use central_node.Sys.Config.Eval.Switches.{put_entry}
use central_node.Net.Curl.{curl_node_init}
use central_node.Net.Curl.Deliver.{Answers, Same, curl_node_init-granted}
use central_node.Net.NetworkList.Chain.{nil, Holds}
use central_node.Net.Ops.{bufsiz, net_get_networks}
use central_node.Net.Ops.Names.{networks_of}
use central_node.Net.Ops.Served.{AreServable}
use central_node.Net.Ops.Fetch.{repository_url, AllAllowed, Fetches, net_get_networks-Fetches}
use central_node.Base.Args.Exits.{cnode_parse_sargs-nil}
use central_node.Base.Instance.{
  cnode_log_path, defaults, finish, load_settings, start, cnode_init_instance,
}
use central_node.Base.Instance.Finishes.{Finishes, finish-Finishes}

-- The options of a first launch.
abbrev fresh_options : Options → Options
fresh_options o = apply_settings default_settings (first_launch o)

pub fresh_options-strings :
    (o : Options)
    → ((fresh_options o).tincifnet ≡ some (codes "tun0"))
      × ((fresh_options o).proxyaddr ≡ some (codes "NULL"))
      × ((fresh_options o).netrepo ≡ some (codes "centralnode.xyz"))
      × ((fresh_options o).net_nohttps ≡ false)
      × ((fresh_options o).first_time_launch ≡ true)
unfolding put_entry
fresh_options-strings o = (refl, refl, refl, refl, refl)

-- The program has started: it has its options and the networks of the repository, and the system, the
-- switches but for the mark of WSL, and the terminal are as they were.
abbrev pub Starts : List Bytes → Options → World → ℕ → World → Type 0
Starts names o w code w' =
    (code ≡ exit_success)
    × (w'.os ≡ w.os)
    × (w'.options ≡ o)
    × (w'.startup ≡ record w.startup { is_sys_wsl = w'.startup.is_sys_wsl })
    × (w'.screen ≡ w.screen)
    × Holds w'.net (networks_of 0 names)
    × (w'.net.n_networks ≡ length names)
    × (w'.net.netrepo_status ≡ true)

-- A system that grants every request, and whose repository, by the options, serves names.
pub record Serves (names : List Bytes) (o : Options) (os : Os) : Type 0 where
  pub grants : GrantsAll os
  pub some_name : 0 < length names
  pub servable : AreServable names
  pub allowed : AllAllowed (joined names)
  pub small : length (joined names) < bufsiz
  pub netrepo : Bytes
  pub repo : o.netrepo ≡ some netrepo
  pub proxy : Bytes
  pub proxied : o.proxyaddr ≡ some proxy
  pub answers : Answers (repository_url o.net_nohttps netrepo) (joined names) os

fetched-Starts :
    (names : List Bytes) (o : Options) (w v : World)
    → Serves names o w.os
    → v.os ≡ w.os
    → v.options ≡ o
    → rest_of v ≡ rest_of w
    → w.net.network_info ≡ 0
    → 0 < w.net.fresh
    → Returns (Starts names o w) (and_then (net_get_networks v) finish)
fetched-Starts [] o w v serves os options rest none_yet used =
    absurd (omega (arith, serves.some_name))
fetched-Starts (name ∷ names) o w v serves os options rest none_yet used =
    let net : v.net ≡ w.net = ap (λ r. r.1) rest in
    let no_list : Holds v.net [] = rw (net, none_yet) (used, nil) in
    Returns-and_then (Fetches (name ∷ names) [] v) (Starts (name ∷ names) o w) (net_get_networks v)
      finish
      (net_get_networks-Fetches serves.netrepo serves.proxy name names [] v serves.servable
        serves.allowed serves.small (ap (λ o. o.netrepo) options ∙ serves.repo)
        (ap (λ o. o.proxyaddr) options ∙ serves.proxied) (rw (options, os) serves.answers) no_list
        (rw os serves.grants))
      (λ count u (sum, held, longest, known, options1, disk1, log1, os1, startup1, screen1).
        Returns-mono (Finishes count u) (Starts (name ∷ names) o w) _
          (λ code w' (success, os2, options2, startup2, screen2, net2). (
            success,
            os2 ∙ (os1 ∙ os),
            options2 ∙ (options1 ∙ options),
            startup2
                ∙ ap {A = Startup} (λ s. record s { is_sys_wsl = w'.startup.is_sys_wsl })
                    (startup1 ∙ ap (λ r. r.0) rest),
            screen2 ∙ (screen1 ∙ ap (λ r. r.2) rest),
            rw net2 held,
            ap (λ m. m.n_networks) net2 ∙ sum,
            ap (λ m. m.netrepo_status) net2 ∙ known,
          ))
          (finish-Finishes count (networks_of 0 (name ∷ names)) u held))

-- The configuration was read, and gave the options.
abbrev Configures : Options → World → ℕ → World → Type 0
Configures o w code w' =
    (code ≡ exit_success) × (w'.options ≡ o) × (w'.os ≡ w.os) × (rest_of w' ≡ rest_of w)

load_settings-Starts :
    (names : List Bytes) (o : Options) (w : World)
    → Serves names o w.os
    → Returns (Configures o w) (config_readcfg w)
    → w.net.network_info ≡ 0
    → 0 < w.net.fresh
    → Returns (Starts names o w) (load_settings w)
unfolding load_settings
load_settings-Starts names o w serves reads none_yet used =
    Returns-and_then (Configures o w) (Starts names o w) (config_readcfg w) _ reads
      (λ code w1 (ok, options1, os1, rest1).
        let logged = (log_write log_debug "Initializing cURL instance.." [] w1).1 in
        rw ok (
          Returns-and_then (λ code v. (code ≡ exit_success) × Same logged v) (Starts names o w)
            (curl_node_init logged) _ (curl_node_init-granted logged (rw os1 serves.grants))
            (λ curl v (opened, (options2, os2, disk2, log2, net2, process2, startup2, screen2)).
              rw opened (
                fetched-Starts names o w v serves (os2 ∙ os1) (options2 ∙ options1)
                  (rw (startup2, net2, screen2) rest1) none_yet used))))

-- Wherever the start reads the configuration, it gets the options.
abbrev Reads : Option Bytes → Options → World → Type 0
Reads execname o w =
    (v : World)
    → v.os ≡ w.os
    → v.disk ≡ w.disk
    → v.options ≡ (defaults execname w).options
    → Returns (Configures o v) (config_readcfg v)

cnode_init_instance-Reads :
    (execname : Option Bytes) (names : List Bytes) (o : Options) (w : World)
    → Serves names o w.os
    → (w.process.uid == 0) ≡ true
    → Reads execname o w
    → 0 < w.net.fresh
    → Returns (Starts names o (defaults execname w)) (cnode_init_instance execname [] w)
unfolding cnode_init_instance start rootchecker
cnode_init_instance-Reads execname names o w serves root reads used =
    let w1 = defaults execname w in
    rw
      (
        root,
        ◌>>=◌,
        log_set_path-granted cnode_log_path w1 serves.grants refl,
        cnode_parse_sargs-nil,
      )
      (load_settings-Starts names o _ serves (reads _ refl refl refl) refl used)

-- The options that a first launch gets.
abbrev pub first_options : Option Bytes → World → Options
first_options execname w = fresh_options (defaults execname w).options

-- A user who is root starts the program without arguments where there is no configuration file yet,
-- the system grants every request, and the default repository serves at least one name, as
-- `net_get_networks` expects them: `cnode_init_instance` is defined and succeeds. The options are those
-- of the default configuration on a first launch, the networks are those of the names in their order,
-- the repository counts as available, and the system and the terminal are as they were.
pub cnode_init_instance-Starts :
    (execname : Option Bytes) (names : List Bytes) (w : World)
    → Serves names (first_options execname w) w.os
    → (w.process.uid == 0) ≡ true
    → w.disk.cfg ≡ none
    → 0 < w.net.fresh
    → Returns
        (Starts names (first_options execname w) (defaults execname w))
        (cnode_init_instance execname [] w)
cnode_init_instance-Starts execname names w serves root missing used =
    cnode_init_instance-Reads execname names (first_options execname w) w serves root
      (λ v os disk options.
        Returns-mono (Defaults v) (Configures (first_options execname w) v) (config_readcfg v)
          (λ code w1 (ok, cfg, options1, os1, rest1).
            (ok, options1 ∙ ap fresh_options options, os1, rest1))
          (config_readcfg-none v (rw os serves.grants) (rw disk missing)))
      used

-- The options that a start with the settings of a configuration file gets.
abbrev pub set_options : List Setting → Option Bytes → World → Options
set_options ss execname w = apply_settings ss (defaults execname w).options

-- The same with a configuration file of as many writable lines as there are entries: the options are the
-- ones that evaluating its settings in their order leaves, and the repository is the one that they name.
pub cnode_init_instance-lines_of :
    (execname : Option Bytes) (names : List Bytes) (ss : List Setting) (w : World)
    → Serves names (set_options ss execname w) w.os
    → (w.process.uid == 0) ≡ true
    → AllWritable ss
    → length ss ≡ cfg_nentries
    → w.disk.cfg ≡ some (lines_of ss)
    → 0 < w.net.fresh
    → Returns
        (Starts names (set_options ss execname w) (defaults execname w))
        (cnode_init_instance execname [] w)
cnode_init_instance-lines_of execname names ss w serves root writable size there used =
    cnode_init_instance-Reads execname names (set_options ss execname w) w serves root
      (λ v os disk options.
        Returns-mono (StoresAll ss v) (Configures (set_options ss execname w) v) (config_readcfg v)
          (λ code w1 (ok, options1, (os1, disk1, process1, rest1)).
            (ok, options1 ∙ ap (apply_settings ss) options, os1, rest1))
          (config_readcfg-lines_of ss v writable size (rw os serves.grants) (rw disk there)))
      used
