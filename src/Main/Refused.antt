-- ===== src/Main/Refused.antt =====
-- `main` where the start fails.
use central_node.Common.{ℕ, ◌<◌, ◌≡◌, refl, false, Option, none, some, List, [], ap, ◌==◌}
use central_node.Common.Text.{Bytes}
use central_node.World.{World, exit_failure}
use central_node.World.Faults.{Returns, Returns-and_then}
use central_node.Net.NetworkList.Chain.{Chain, nil}
use central_node.Base.Instance.{asks_help}
use central_node.Base.Instance.{cnode_init_instance, cnode_cleanup}
use central_node.Base.Instance.Exits.{
  Refuses, Cleans, cnode_init_instance-Refuses, cnode_cleanup-Cleans,
}
use central_node.Main.{end_with, main}

-- The program ended with EXIT_FAILURE and was cleaned up: no networks and no path of a log file are left.
abbrev Ended : Option ℕ → World → Type 0
Ended code w' = (code ≡ some exit_failure) × (w'.net.network_info ≡ 0) × (w'.log.log_path ≡ none)

end_with-Ended :
    (code : ℕ) (w : World)
    → code ≡ exit_failure
    → w.net.network_info ≡ 0
    → 0 < w.net.fresh
    → Returns Ended (end_with code w)
unfolding end_with
end_with-Ended code w failed empty used =
    let chain : Chain w.net.cells w.net.fresh 0 w.net.network_info [] = rw empty nil in
    Returns-and_then (Cleans w chain) Ended (cnode_cleanup w) _ (cnode_cleanup-Cleans w used chain)
      (λ status w' (cleaned, list, cells, log, screen).
        (ap some failed, list, ap (λ l. l.log_path) log))

-- For a user other than root, unless the first argument is --help, `main` ends with EXIT_FAILURE behind
-- the clean-up, for any number of rounds. Addresses start at 1.
main-Ended :
    (rounds : ℕ) (execname : Option Bytes) (args : List Bytes) (w : World)
    → (w.process.uid == 0) ≡ false
    → asks_help args ≡ false
    → 0 < w.net.fresh
    → Returns Ended (main rounds execname args w)
unfolding main
main-Ended rounds execname args w user no_help used =
    Returns-and_then (Refuses w) Ended (cnode_init_instance execname args w) _
      (cnode_init_instance-Refuses execname args w user no_help)
      (λ code w' (failed, errno, status, disk, process, log, empty, fresh).
        rw failed (end_with-Ended exit_failure w' refl empty (rw fresh used)))
