-- ===== src/Base/Instance/Exits.antt =====
-- How the start of the program ends early, and what its clean-up leaves.
use central_node.Common.{
  ℕ, ◌<◌, ◌≡◌, refl, ap, true, false, Option, none, is_some, List, [], ◌==◌, if◌then◌else◌,
}
use central_node.Common.Text.{Bytes}
use central_node.World.{LogSettings, World, exit_success, exit_failure, eperm}
use central_node.World.Networks.{Network}
use central_node.World.Faults.{Returns, Returns-and_then}
use central_node.Sys.Logging.{log_debug, log_write}
use central_node.Sys.Sysctl.{rootchecker}
use central_node.Net.NetworkList.Chain.{Chain, has}
use central_node.Net.NetworkList.Final.{Frees, network_info_final-Frees}
use central_node.Base.Instance.{asks_help, start, cnode_init_instance, cnode_cleanup, log_if}

-- The start failed for the user: the error is EPERM, and neither the files nor the process changed.
abbrev pub Refuses : World → ℕ → World → Type 0
Refuses w code w' =
    (code ≡ exit_failure)
    × (w'.error.last_errno ≡ eperm)
    × (w'.error.exit_status ≡ exit_failure)
    × (w'.disk ≡ w.disk)
    × (w'.process ≡ w.process)
    × (w'.log.log_path ≡ none)
    × (w'.net.network_info ≡ 0)
    × (w'.net.fresh ≡ w.net.fresh)

-- For a user other than root the start is defined and fails with EPERM, whatever the arguments, unless
-- the first one is --help. The configuration and UUID files and the user of the process are what they
-- were, no path of a log file is set, and the list of networks is empty.
pub cnode_init_instance-Refuses :
    (execname : Option Bytes) (args : List Bytes) (w : World)
    → (w.process.uid == 0) ≡ false
    → asks_help args ≡ false
    → Returns (Refuses w) (cnode_init_instance execname args w)
unfolding cnode_init_instance start rootchecker
cnode_init_instance-Refuses execname args w user no_help =
    rw (no_help, user) (refl, refl, refl, refl, refl, refl, refl, refl)

-- The clean-up ended: the list is empty and its nodes are free, no path of a log file is left, and the
-- terminal that was taken over has its echo and its cursor again.
abbrev pub Cleans :
    {lo p : ℕ} {xs : List Network} (w : World)
    → Chain w.net.cells w.net.fresh lo p xs
    → ℕ
    → World
    → Type 0
Cleans w chain code w' =
    (code ≡ exit_success)
    × (w'.net.network_info ≡ 0)
    × ((a : ℕ) → w'.net.cells a ≡ (if has chain a then none else w.net.cells a))
    × (w'.log ≡ record w.log { log_path = none })
    × (w'.screen
        ≡ (if w.screen.mainwin then record w.screen { echo = true; cursor = true } else w.screen))

-- The state before the list is freed.
abbrev leaving : World → World
leaving w =
    let w1 = (log_if w.screen.mainwin log_debug "Restoring console window" [] w).1 in
    let w2 : World = record w1 {
      screen =
          if w.screen.mainwin then record w.screen { echo = true; cursor = true } else w.screen;
    } in
    let w3 = (log_if (is_some w.options.tincifnet) log_debug "Freeing malloc'd memory" [] w2).1 in
    (log_write log_debug "Freeing network list" [] w3).1

-- `cnode_cleanup` is defined and succeeds whatever networks the program keeps: all nodes of the list,
-- and no other ones, are free, the path of the log file is gone, and a terminal that was taken over has
-- its echo and its cursor again.
pub cnode_cleanup-Cleans :
    {xs : List Network} (w : World) (pos : 0 < w.net.fresh)
    (chain : Chain w.net.cells w.net.fresh 0 w.net.network_info xs)
    → Returns (Cleans w chain) (cnode_cleanup w)
unfolding cnode_cleanup
cnode_cleanup-Cleans w pos chain =
    Returns-and_then (λ _. Frees (leaving w) chain) (Cleans w chain) _ _
      (network_info_final-Frees (leaving w) pos chain)
      (λ _ w' (empty, cells, kept). (
        refl,
        empty,
        cells,
        ap {A = LogSettings} (λ log. record log { log_path = none }) kept.3,
        kept.8,
      ))
