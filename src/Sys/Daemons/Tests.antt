-- ===== src/Sys/Daemons/Tests.antt =====
-- Runs of src/sys/nodeWD/wdctl.c and src/sys/daemon/tincdctl.c.
use central_node.Common.{◌≡◌, refl, none, some}
use central_node.Common.Text.{codes}
use central_node.World.{exit_success, answer}
use central_node.World.Tests.{started}
use central_node.Sys.Logging.{enullptr}
use central_node.Sys.Sysctl.{finit_module_wrapper, file_exists}
use central_node.Sys.Daemons.{nodewd_load, nodewd_get_strstatus, tinc_check_installation}

runs :
    ((nodewd_load 3 (some (codes "nodewd.ko")) started).0 ≡ exit_success)
    × ((nodewd_load 3 none started).1.error.last_errno ≡ enullptr)
    × (nodewd_get_strstatus 1 ≡ "Disconnect")
    × ((tinc_check_installation none started).0 ≡ exit_success)
unfolding nodewd_load finit_module_wrapper nodewd_get_strstatus tinc_check_installation file_exists
    answer
runs = (refl, refl, refl, refl)
