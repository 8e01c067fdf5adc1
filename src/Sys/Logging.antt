-- ===== src/Sys/Logging.antt =====
-- src/sys/logging.c, the macro NODE_SETLASTERR of src/base/cnode.h, and the functions
-- `node_strerror` and `cnode_setloglvl` of src/base/cnode.c that logging rests on. A line of the log
-- file is kept as its prefix, its format and the arguments; the time stamp, the text that the C
-- library prints from them and the count of characters that `log_write` returns are left out.
pub mod Errors
pub mod Level
pub mod Path
mod Tests
use central_node.Common.{
  ℕ, zero, suc, ◌+◌, ◌-◌, Bool, true, false, not, ◌||◌, Option, none, some, List, [], ◌∷◌, ◌++◌,
  String, ltb, leb, ◌==◌, if◌then◌else◌, get_elem?, length,
}
use central_node.Common.Text.{Bytes, codes}
use central_node.World.{
  FilePath, fopen, at, malloc, Os, Arg, num, str, lit, LogLine, Io, LogSettings, LastError, World,
  M, pure, ◌>>=◌, ◌>>◌, gets, modify, answer, ask, exit_success, exit_failure, einval,
}

abbrev pub log_debug : ℕ
log_debug = 0

abbrev pub log_notif : ℕ
log_notif = 1

abbrev pub log_warning : ℕ
log_warning = 2

abbrev pub log_error : ℕ
log_error = 3

abbrev pub log_critical : ℕ
log_critical = 4

-- NO_ADDR: no address is worth tracing
abbrev pub no_addr : ℕ
no_addr = 0xc0d3

-- Central Node's own error numbers that the model raises.
abbrev pub enullptr : ℕ
enullptr = 0x700

abbrev pub eintegrity : ℕ
eintegrity = 0x701

abbrev pub einvcfg : ℕ
einvcfg = 0x704

abbrev pub efpread : ℕ
efpread = 0x707

abbrev pub efpwrite : ℕ
efpwrite = 0x708

abbrev pub einvusr : ℕ
einvusr = 0x710

abbrev pub eoutbnd : ℕ
eoutbnd = 0x712

abbrev pub ecurlinit : ℕ
ecurlinit = 0x713

abbrev pub ecrypto : ℕ
ecrypto = 0x714

abbrev pub eudepend : ℕ
eudepend = 0x715

-- __ELASTERR, one past the last
abbrev pub elasterr : ℕ
elasterr = 0x717

-- CNODE_NOTIF_OK, _INFO, _WARN and _ERR
abbrev pub notif_ok : ℕ
notif_ok = 0x100

unfoldable pub log_lvl_to_str : ℕ → Option String
log_lvl_to_str level =
    if level == log_debug
    then some "DBG"
    else if level == log_notif
    then some "INFO"
    else if level == log_warning
    then some "WARN"
    else if level == log_error
    then some "ERR"
    else if level == log_critical
    then some "CRIT"
    else if level == notif_ok
    then some "OK"
    else if level == 0x101
    then some "INFO"
    else if level == 0x102
    then some "WARN"
    else if level == 0x103
    then some "ERR"
    else none

-- The text before the message.
abbrev pub prefix_of : Option String → String
prefix_of (some s) = s
prefix_of none = "UNKNOWN"

-- What `log_write` does to the log file and to `errno`.
pub log_emit : ℕ → String → List Arg → Os → LogSettings → Io → Io
unfolding answer
log_emit level format args os log io =
    if ltb level log.log_level
    then io
    else if not log.logfile_available
    then io
    else (let (refused, asked) = answer (fopen (at log.log_path)) os io in
        let line : LogLine = record {
          prefix = prefix_of (log_lvl_to_str level);
          format = format;
          args = args;
        } in
        if refused == 0
        then record asked { log_written = true; log_file = asked.log_file ++ line ∷ [] }
        else asked)

-- Written so that every other part of the state is unchanged by computation.
abbrev pub log_write : ℕ → String → List Arg → M (Unit {0})
log_write level format args w = (tt, record w { io = log_emit level format args w.os w.log w.io })

-- Debug information on the last error, with the address where there is one.
abbrev pub log_write_trace : String → String → M (Unit {0})
log_write_trace function_name error_object = do
  e ← gets (λ w. w.error)
  let plain = e.rsp64 == no_addr
  let rest = num e.last_errno ∷ lit function_name ∷ lit error_object ∷ []
  let format : String = if plain then "TRACE: E%d - %s => %s" else "TRACE: [%#02llx] E%d - %s => %s"
  log_write log_debug format (if plain then rest else num e.rsp64 ∷ rest)

-- The texts of the error numbers from 0x700.
pub node_list_str_error : List String
node_list_str_error =
    "Attempted to pass NULL pointer" ∷ "Integrity check failure" ∷ "UUID authenctication failure"
    ∷ "UUID generation failure" ∷ "Invalid config entry" ∷ "Invalid length"
    ∷ "Terminal window size too small" ∷ "Generic read failure" ∷ "Generic write failure"
    ∷ "Unable to initialize ncurses color" ∷ "Unable to initialize ncurses color pair"
    ∷ "Unable to initialize ncurses window" ∷ "No color capabilities"
    ∷ "Unable to start ncurses color mode" ∷ "Unable to initialize ncurses menu"
    ∷ "Unable to save default terminal color values" ∷ "Operation refused for current user"
    ∷ "Unable to read environment variable" ∷ "Out of bounds error" ∷ "Unable to initialize cURL"
    ∷ "Generic crypto failure" ∷ "Unmet dependencies" ∷ "Auto Event Logger failure" ∷ []

-- The loop `for (i = 0x700; i < __ELASTERR; i++)`, by the rounds that are left.
find_error : ℕ → ℕ → ℕ → Option String
unfolding node_list_str_error
find_error zero i errid = none
find_error (suc rounds) i errid =
    let later = find_error rounds (i + 1) errid in
    if i == errid then get_elem? node_list_str_error (i - enullptr) else later

-- An error's text: the library's below 0x700, and `NULL` for an unknown number. The check that the
-- table has as many entries as there are numbers compares two constants, and holds.
pub data ErrorText : Type 0 where
  from_library : Bytes → ErrorText
  from_table : Option String → ErrorText

pub node_strerror : Os → ℕ → ErrorText
unfolding find_error
node_strerror os errid =
    if ltb errid enullptr
    then from_library (os.strerror errid)
    else from_table (find_error (elasterr - enullptr) enullptr errid)

abbrev pub text_arg : ErrorText → Arg
text_arg (from_library s) = str (some s)
text_arg (from_table (some s)) = lit s
text_arg (from_table none) = str none

-- The first argument of NODE_SETLASTERR: the stack address, or NO_ADDR.
pub data Addr : Type 0 where
  current_addr : Addr
  no_addr_info : Addr

abbrev addr_value : Addr → World → ℕ
addr_value current_addr w = w.os.stack_addr w.io.calls
addr_value no_addr_info w = no_addr

-- NODE_SETLASTERR(addr, info, errno): only the error and what logging changes differ afterwards.
abbrev pub set_last_err : Addr → String → ℕ → M (Unit {0})
set_last_err addr info errno = do
  a ← gets (addr_value addr)
  modify (λ w. record w {
    error = record { rsp64 = a; exit_status = exit_failure; last_errno = errno };
  })
  e ← gets (λ w. w.error)
  os ← gets (λ w. w.os)
  log_write log_error "%s %s" (lit info ∷ text_arg (node_strerror os e.last_errno) ∷ [])

-- NODE_SETLASTERR with `errno` as the error number.
abbrev pub set_last_errno : Addr → String → M (Unit {0})
set_last_errno addr info = do e ← gets (λ w. w.io.errno); set_last_err addr info e

abbrev pub path_max : ℕ
path_max = 4096

-- The first argument may be `NULL`.
unfoldable pub log_set_path : Option Bytes → M ℕ
log_set_path none = do set_last_err current_addr "" enullptr; pure exit_failure
log_set_path (some path) =
    if leb (path_max - 1) (length path)
    then (do set_last_err no_addr_info "Unable to set logfile path:" einval; pure exit_failure)
    else do
      refused ← ask malloc
      if refused == 0
          then (do
            modify (λ w. record w { log = record w.log { log_path = some path } })
            pure exit_success)
          else do
            modify (λ w. record w { log = record w.log { log_path = none } })
            set_last_errno current_addr "Unable to set logfile path:"
            log_write_trace "log_set_path()" "nodecfg.log_path"
            pure exit_failure

-- Empties the log file. Opening it for writing truncates it.
unfoldable pub log_reset : M ℕ
log_reset = do
  log ← gets (λ w. w.log)
  refused ← ask (fopen (at log.log_path))
  if refused == 0
      then (do
        modify (λ w. record w { io = record w.io { log_file = [] } })
        log_write log_debug "Logfile has been reset" []
        pure exit_success)
      else do
        set_last_errno current_addr "Unable to reset log file:"
        log_write_trace "log_reset()" "fp"
        pure exit_failure

-- `cnode_setloglvl`, on the settings that it touches.
pub setloglvl : ℕ → Bool → LogSettings → ℕ × LogSettings
setloglvl loglvl force log =
    let forced =
      if force then record log { log_level_force_set = true; log_level = loglvl } else log in
    if not forced.log_level_force_set
    then (exit_success, record forced { log_level = loglvl })
    else (exit_failure, forced)

abbrev pub cnode_setloglvl : ℕ → Bool → M ℕ
cnode_setloglvl loglvl force w =
    let r = setloglvl loglvl force w.log in (r.0, record w { log = r.1 })
