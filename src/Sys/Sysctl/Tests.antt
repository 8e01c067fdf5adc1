-- ===== src/Sys/Sysctl/Tests.antt =====
-- src/sys/sysctl.c at a concrete state.
use central_node.Common.{◌≡◌, ◌≢◌, refl, true, false, none, some}
use central_node.Common.Text.{
  Bytes, codes, fgets, c_str, strstr, starts_with, strtol, strtol_overflows, numeral, signed_digits,
  digits_onto,
}
use central_node.World.{World, exit_success, ebadfd, open_read, answer}
use central_node.World.Tests.{started}
use central_node.Sys.Logging.{enullptr}
use central_node.Sys.Sysctl.{
  drop_to, uid_root, convert_id, set_ids, finit_module_wrapper, delete_module_wrapper, is_wsl,
}
use central_node.Sys.Sysctl.Privileges.{drop_to-nonroot}

-- A module is loaded and removed, and a descriptor that is not above 0 is turned down.
module_runs :
    ((finit_module_wrapper 3 started).0 ≡ exit_success)
    × ((finit_module_wrapper 0 started).1.error.last_errno ≡ ebadfd)
    × ((delete_module_wrapper (some (codes "nodewd")) started).0 ≡ exit_success)
    × ((delete_module_wrapper none started).1.error.last_errno ≡ enullptr)
unfolding finit_module_wrapper delete_module_wrapper answer
module_runs = (refl, refl, refl, refl)

abbrev on_kernel : Bytes → World
on_kernel release = record started { disk = record started.disk { osrelease = some release } }

wsl_runs :
    ((is_wsl (on_kernel (codes "4.4.0-19041-Microsoft\n"))).0 ≡ true)
    × ((is_wsl (on_kernel (codes "5.15.90.1-microsoft-standard-WSL2\n"))).0 ≡ true)
    × ((is_wsl (on_kernel (codes "6.1.0-18-amd64\n"))).0 ≡ false)
unfolding is_wsl open_read answer fgets c_str strstr starts_with
wsl_runs = (refl, refl, refl)

drop_to-nonroot_example :
    ((drop_to
        (some (codes "user"))
        (some (codes "1000"))
        (some (codes "1000"))
        started).1.process.uid
      ≢ uid_root)
    × ((drop_to
          (some (codes "user"))
          (some (codes "1000"))
          (some (codes "1000"))
          started).1.process.gid
        ≢ uid_root)
unfolding drop_to convert_id set_ids answer strtol strtol_overflows numeral signed_digits
    digits_onto
drop_to-nonroot_example =
    drop_to-nonroot (some (codes "user")) (some (codes "1000")) (some (codes "1000")) started refl
      refl
