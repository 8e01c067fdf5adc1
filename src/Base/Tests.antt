-- ===== src/Base/Tests.antt =====
-- The theorems on the start of the program at concrete inputs.
use central_node.Common.{
  ◌≡◌, refl, true, false, none, some, [], ◌∷◌, ◌++◌, arith, ◌==◌, if◌then◌else◌,
}
use central_node.Common.Text.{codes, strncmp_eq}
use central_node.World.{World, exit_success, exit_failure}
use central_node.World.Tests.{started}
use central_node.World.Faults.{Returns}
use central_node.World.Networks.{Network}
use central_node.Sys.Logging.{setloglvl, log_error, log_lvl_to_str}
use central_node.Sys.Logging.Level.{set_all}
use central_node.Net.NetworkList.{new_network}
use central_node.Net.NetworkList.Chain.{Chain, nil, cons}
use central_node.Base.Args.{cnode_parse_sargs, cnode_execution_exit, print_message_format_color}
use central_node.Base.Args.Exits.{
  ends_program, any, is_debug, locked, cnode_parse_sargs-code, cnode_parse_sargs-log,
}
use central_node.Base.Instance.{cnode_init_instance, cnode_cleanup}
use central_node.Base.Instance.Exits.{
  Refuses, Cleans, cnode_init_instance-Refuses, cnode_cleanup-Cleans,
}

cnode_parse_sargs-code_example :
    (cnode_parse_sargs (codes "--debug" ∷ codes "--cleanup" ∷ codes "x" ∷ []) started).0 ≡ (
      if any ends_program (codes "--debug" ∷ codes "--cleanup" ∷ codes "x" ∷ [])
      then cnode_execution_exit
      else exit_success)
cnode_parse_sargs-code_example =
    cnode_parse_sargs-code (codes "--debug" ∷ codes "--cleanup" ∷ codes "x" ∷ []) started

abbrev debug_started : World
debug_started = (cnode_parse_sargs (codes "--testcolor" ∷ codes "--debug" ∷ []) started).1

cnode_parse_sargs-log_example :
    (debug_started.log ≡ (
      if any is_debug (codes "--testcolor" ∷ codes "--debug" ∷ [])
      then locked started.log
      else started.log))
    × (setloglvl 3 false (set_all (0 ∷ 2 ∷ []) debug_started.log) ≡ (
        if any is_debug (codes "--testcolor" ∷ codes "--debug" ∷ [])
        then (exit_failure, locked started.log)
        else setloglvl 3 false (set_all (0 ∷ 2 ∷ []) started.log)))
cnode_parse_sargs-log_example =
    cnode_parse_sargs-log (codes "--testcolor" ∷ codes "--debug" ∷ []) (0 ∷ 2 ∷ []) 3 started

-- A user other than root.
abbrev user_started : World
user_started = record started { process = record { uid = 1000; gid = 1000 } }

cnode_init_instance-Refuses_example :
    Returns
      (Refuses user_started)
      (cnode_init_instance (some (codes "cnode")) (codes "--debug" ∷ []) user_started)
unfolding strncmp_eq
cnode_init_instance-Refuses_example =
    cnode_init_instance-Refuses (some (codes "cnode")) (codes "--debug" ∷ []) user_started refl refl

abbrev listed : Network
listed = new_network 0 (some (codes "node"))

-- A program that knows one network and has taken over the terminal.
abbrev running : World
running = record started {
  net = record started.net {
    network_info = 1;
    fresh = 2;
    cells = λ p. if p == 1 then some (record { info = listed; next = 0 }) else none;
  };
  screen = record started.screen { mainwin = true; echo = false; cursor = false };
}

abbrev running-Chain : Chain running.net.cells 2 0 1 (listed ∷ [])
running-Chain = cons (omega arith) (omega arith) refl nil

cnode_cleanup-Cleans_example : Returns (Cleans running running-Chain) (cnode_cleanup running)
cnode_cleanup-Cleans_example = cnode_cleanup-Cleans running (omega arith) running-Chain

-- An error message is marked on `stderr`, in red.
mark_error :
    print_message_format_color 2 log_error
    ≡ (false, b'[' ∷ 27 ∷ (codes "[0;31mERR" ++ 27 ∷ codes "[0m] "))
unfolding log_lvl_to_str
mark_error = refl
