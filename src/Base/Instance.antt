-- ===== src/Base/Instance.antt =====
-- The start of the program (`cnode_init_instance`), and its end (`cnode_cleanup`). Strings are values:
-- `free` of one leaves nothing to see. What is printed on the terminal is left out.
pub mod Exits
pub mod Starts
pub mod Finishes
use central_node.Common.{
  ℕ, zero, suc, ◌+◌, ◌%◌, ◌^◌, Bool, true, false, not, ◌&&◌, Option, none, some, is_some, List, [],
  ◌∷◌, String, ltb, ◌==◌, if◌then◌else◌,
}
use central_node.Common.Text.{Bytes, codes, strncmp_eq}
use central_node.World.{Arg, M, num, str, World, gets, modify, exit_success, exit_failure, eperm}
use central_node.World.Networks.{
  Network, Ptr, Net, NetworkStatus, status_error, status_uninitialized, status_online,
}
use central_node.World.Faults.{Run, ◌>>=◌, ◌>>◌, call, return, undefined}
use central_node.Sys.Logging.{
  log_write, log_debug, log_notif, log_warning, log_set_path, set_last_err, no_addr, no_addr_info,
}
use central_node.Sys.Sysctl.{rootchecker, is_wsl}
use central_node.Sys.Config.Read.{config_readcfg}
use central_node.Net.Curl.{curl_node_init}
use central_node.Net.NetworkList.{load, network_info_final}
use central_node.Net.Ops.{cnode_build_version, net_get_networks}
use central_node.Base.Args.{cnode_parse_sargs, cnode_execution_exit, cnode_sarg_cmplen}

abbrev pub cnode_log_path : Bytes
cnode_log_path = codes "/var/log/cnode.log"

-- The assignments at the start. The strings of the configuration but for the proxy stay as they are.
abbrev pub defaults : Option Bytes → World → World
defaults execname w = record w {
  error = record w.error { last_errno = exit_success; rsp64 = no_addr };
  log = record w.log { log_level = log_notif; log_path = none };
  startup = record w.startup {
    version = cnode_build_version;
    execname = execname;
    winrunning = false;
  };
  options = record w.options {
    first_time_launch = false;
    autofix = false;
    godmode = false;
    netlogos = true;
    nodewd_required = false;
    proxyaddr = none;
    longest_cfg_entry = 0;
  };
  net = record w.net { netrepo_status = false; network_info = 0; longest_net_entry = 0 };
}

abbrev is_online : NetworkStatus → Bool
is_online status_online = true
is_online status_error = false
is_online status_uninitialized = false

-- `if (test) log_write(…)`
abbrev log_if : Bool → ℕ → String → List Arg → M (Unit {0})
log_if test level format args w =
    (tt, record w { io = if test then (log_write level format args w).1.io else w.io })

-- The loop that logs the networks.
log_networks : ℕ → ℕ → Ptr → Run (Unit {0})
log_networks zero itr p = undefined
log_networks (suc rounds) itr p = if p == 0 then return tt else do
  node ← load p
  call (log_write log_debug "Network %hu: '%s'" (num itr ∷ str node.info.network_name ∷ []))
  log_networks rounds (if is_online node.info.network_status then (itr + 1) % 2 ^ 16 else itr)
      node.next

-- Behind the request for the networks. Its result is never below 0.
pub finish : ℕ → Run ℕ
finish network_fetch_retval = do
  call (modify (λ w. record w { net = record w.net { n_networks = network_fetch_retval } }))
  net ← call (gets (λ w. w.net))
  call (log_if (not net.netrepo_status) log_warning "Remote network repository is unavailable" [])
  call (
      log_if (net.netrepo_status && ltb net.n_networks 1) log_warning
        "Remote network repository is empty" [])
  log ← call (gets (λ w. w.log))
  if log.log_level == log_debug
      then (do
        call (log_write log_debug "Number of networks: %zu" (num net.n_networks ∷ []))
        log_networks (suc net.fresh) 0 net.network_info)
      else return tt
  wsl ← call is_wsl
  call (modify (λ w. record w { startup = record w.startup { is_sys_wsl = wsl } }))
  call (log_if wsl log_debug "Windows Subsystem Linux detected" [])
  return exit_success

-- Behind the start-up arguments.
load_settings : Run ℕ
load_settings = do
  read ← config_readcfg
  if read == exit_success
      then (do
        call (log_write log_debug "Initializing cURL instance.." [])
        curl ← curl_node_init
        if curl == exit_success
            then (do network_fetch_retval ← net_get_networks; finish network_fetch_retval)
            else return exit_failure)
      else return exit_failure

-- Behind the check for "--help".
start : List Bytes → Run ℕ
start args = do
  root ← call rootchecker
  if root == exit_success
      then (do
        path ← call (log_set_path (some cnode_log_path))
        if path == exit_success
            then (do
              call (
                  log_write log_debug "{1337-IMPOSSIBLE-NOTIFICATION} Setting LogFile path to: '%s'"
                    (str (some cnode_log_path) ∷ []))
              call (modify (λ w. record w { log = record w.log { logfile_available = true } }))
              version ← call (gets (λ w. w.startup.version))
              call (log_write log_notif "Starting Central Node 7 [build %d]" (num version ∷ []))
              arg_retcode ← call (cnode_parse_sargs args)
              if arg_retcode == cnode_execution_exit
                  then return cnode_execution_exit
                  else load_settings)
            else return exit_failure)
      else do
        call (set_last_err no_addr_info "Unable to start Central Node:" eperm)
        return exit_failure

abbrev pub asks_help : List Bytes → Bool
asks_help [] = false
asks_help (arg ∷ args) = strncmp_eq arg (codes "--help") cnode_sarg_cmplen

-- `argv[0]`, which is `NULL` without arguments, and the arguments behind it.
pub cnode_init_instance : Option Bytes → List Bytes → Run ℕ
cnode_init_instance execname args = do
  call (modify (defaults execname))
  if asks_help args then return cnode_execution_exit else start args

-- `gui_killgui` restores the echo and the cursor, and `curl_node_final` touches only libcurl.
pub cnode_cleanup : Run ℕ
cnode_cleanup = do
  mainwin ← call (gets (λ w. w.screen.mainwin))
  call (log_if mainwin log_debug "Restoring console window" [])
  call (
      modify (λ w. record w {
        screen = if mainwin then record w.screen { echo = true; cursor = true } else w.screen;
      }))
  tincifnet ← call (gets (λ w. w.options.tincifnet))
  call (log_if (is_some tincifnet) log_debug "Freeing malloc'd memory" [])
  call (log_write log_debug "Freeing network list" [])
  network_info_final
  error ← call (gets (λ w. w.error))
  call (
      log_if (not (error.rsp64 == no_addr)) log_debug
        "FINAL_TRACE_INFO:\n * 0x%llx\n * E%d\n * S%d\n"
        (num error.rsp64 ∷ num error.last_errno ∷ num error.exit_status ∷ []))
  call (log_write log_notif "Cleanup successful" [])
  call (modify (λ w. record w { log = record w.log { log_path = none } }))
  return exit_success
