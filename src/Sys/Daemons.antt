-- ===== src/Sys/Daemons.antt =====
-- src/sys/nodeWD/wdctl.c, which loads the nodeWD kernel module and names its status, and
-- `tinc_check_installation` of src/sys/daemon/tincdctl.c.
mod Tests
use central_node.Common.{
  ℕ, ◌+◌, Bool, true, false, not, Option, none, some, String, [], ◌==◌, if◌then◌else◌,
}
use central_node.Common.Text.{Bytes, codes}
use central_node.World.{
  FilePath, at, open_module, M, pure, ◌>>=◌, ◌>>◌, gets, ask, exit_success, exit_failure, enoent,
}
use central_node.Sys.Logging.{
  log_write, log_write_trace, log_error, log_notif, set_last_err, set_last_errno, current_addr,
  no_addr_info, enullptr, eudepend,
}
use central_node.Sys.Sysctl.{finit_module_wrapper, file_exists}

-- The path may be `NULL`. `open_fd` is the descriptor that the system gives for a module that it opens.
pub nodewd_load : ℕ → Option Bytes → M ℕ
nodewd_load open_fd none = do
  set_last_err current_addr "" enullptr
  log_write_trace "nodewd_load()" "kopath"
  pure exit_failure
nodewd_load open_fd (some kopath) = do
  refused ← ask open_module
  if refused == 0
      then (do
        load_ret ← finit_module_wrapper open_fd
        if load_ret == exit_success
            then (do log_write log_notif "Successfully loaded nodeWD" []; pure exit_success)
            else do log_write log_error "Failed to load nodeWD" []; pure exit_failure)
      else do
        set_last_errno current_addr "open() failed:"
        log_write_trace "nodewd_load()" "kofd"
        pure exit_failure

-- by `nodecfg.nodewd_status`
pub nodewd_get_strstatus : ℕ → String
nodewd_get_strstatus status =
    if status == 0
    then "Connect"
    else if status == 1
    then "Disconnect"
    else if status == 2
    then "Retry Connection"
    else "NODEWD - ERROR"

abbrev execpath : Option Bytes → Bytes
execpath (some tincdpath) = tincdpath
execpath none = codes "/usr/sbin/tincd"

-- Without a path, /usr/sbin/tincd is looked for.
pub tinc_check_installation : Option Bytes → M ℕ
tinc_check_installation tincdpath = do
  there ← file_exists (some (at (some (execpath tincdpath))))
  if there then pure exit_success else do
    e ← gets (λ w. w.io.errno)
    if e == enoent
        then (do
          set_last_err no_addr_info "" eudepend
          log_write log_error "No tinc installation found" []
          pure exit_failure)
        else do
          set_last_errno current_addr "An error has occures while checking for tincd installation:"
          log_write_trace "tinc_check_installation()" "access()"
          pure exit_failure
