-- ===== src/Base/Args.antt =====
-- The start-up arguments, and the mark before a message on the terminal. What else the program prints
-- there is left out.
pub mod Exits
use central_node.Common.{
  ℕ, zero, suc, ◌+◌, Bool, true, false, Option, none, some, List, [], ◌∷◌, ◌++◌, String, ◌==◌,
  if◌then◌else◌, length,
}
use central_node.Common.Text.{Bytes, codes, strncmp_eq}
use central_node.World.{num, str, World, M, pure, ◌>>=◌, ◌>>◌, modify, exit_success}
use central_node.Sys.Logging.{
  log_write, log_debug, log_notif, log_warning, log_error, log_critical, log_lvl_to_str, prefix_of,
  cnode_setloglvl, notif_ok,
}
use central_node.Sys.Config.File.{config_read_uuid, config_create_uuid}

-- The escape sequence of a level: green, orange and red, and lime for a number that is no level.
abbrev message_color : ℕ → Bytes
message_color msg_level =
    if msg_level == log_debug
    then codes "[38;5;198m"
    else if msg_level == log_notif
    then codes "[0;32m"
    else if msg_level == log_warning
    then codes "[38;5;208m"
    else if msg_level == log_error
    then codes "[0;31m"
    else if msg_level == log_critical
    then codes "[1;38;5;203m"
    else if msg_level == notif_ok
    then codes "[0;32m"
    else if msg_level == 0x101
    then codes "[38;5;226m"
    else if msg_level == 0x102
    then codes "[38;5;208m"
    else if msg_level == 0x103
    then codes "[0;31m"
    else codes "[38;5;118m"

-- Whether the text goes to `stdout`, and the text.
abbrev pub print_message_format_color : ℕ → ℕ → Bool × Bytes
print_message_format_color fdno msg_level = (
  fdno == 1,
  b'['
      ∷ 27
      ∷ (message_color msg_level
          ++ codes (prefix_of (log_lvl_to_str msg_level))
          ++ 27 ∷ codes "[0m] "),
)

abbrev pub cnode_sarg_cmplen : ℕ
cnode_sarg_cmplen = 16

abbrev pub cnode_sarg_cleanup : ℕ
cnode_sarg_cleanup = 0

abbrev cnode_sarg_panic : ℕ
cnode_sarg_panic = 1

abbrev cnode_sarg_resetcfg : ℕ
cnode_sarg_resetcfg = 2

abbrev pub cnode_sarg_debug : ℕ
cnode_sarg_debug = 3

abbrev cnode_sarg_testclr : ℕ
cnode_sarg_testclr = 4

abbrev pub cnode_sarg_genuuid : ℕ
cnode_sarg_genuuid = 5

abbrev pub cnode_sarg_unknown : ℕ
cnode_sarg_unknown = 0xf

abbrev pub cnode_execution_exit : ℕ
cnode_execution_exit = 0xbeef

pub cnode_eval_sarg : Bytes → ℕ
cnode_eval_sarg str_sarg =
    if strncmp_eq str_sarg (codes "--cleanup") cnode_sarg_cmplen
    then cnode_sarg_cleanup
    else if strncmp_eq str_sarg (codes "--panic") cnode_sarg_cmplen
    then cnode_sarg_panic
    else if strncmp_eq str_sarg (codes "--resetcfg") cnode_sarg_cmplen
    then cnode_sarg_resetcfg
    else if strncmp_eq str_sarg (codes "--debug") cnode_sarg_cmplen
    then cnode_sarg_debug
    else if strncmp_eq str_sarg (codes "--testcolor") cnode_sarg_cmplen
    then cnode_sarg_testclr
    else if strncmp_eq str_sarg (codes "--genuuid") cnode_sarg_cmplen
    then cnode_sarg_genuuid
    else cnode_sarg_unknown

-- The case of the switch for --genuuid
gen_uuid : M (Unit {0})
gen_uuid = do
  log_write log_debug "Checking for existing UUID.." []
  found ← config_read_uuid
  if found.0 == exit_success
      then log_write log_warning "Attempted to overwrite existing UUID! Aborting.." []
      else do log_write log_notif "Generating new UUID.." []; created ← config_create_uuid; pure tt

-- One round of the loop: the exit code after an argument.
pub run_sarg : Bytes → ℕ → M ℕ
run_sarg arg ret_code =
    let sarg_id = cnode_eval_sarg arg in
    if sarg_id == cnode_sarg_cleanup
    then (do log_write log_notif "Performing cleanup" []; pure cnode_execution_exit)
    else if sarg_id == cnode_sarg_panic
    then (do log_write log_notif "PANIC" []; pure ret_code)
    else if sarg_id == cnode_sarg_resetcfg
    then (do log_write log_notif "RESETCFG" []; pure ret_code)
    else if sarg_id == cnode_sarg_debug
    then (do
      log_write log_notif "Setting LogLevel to LOG_DEBUG" []
      set ← cnode_setloglvl log_debug true
      pure ret_code)
    else if sarg_id == cnode_sarg_testclr
    then (do
      log_write log_notif "Preparing to test ncurses color compatibility" []
      modify (λ w. record w { startup = record w.startup { nc_color_test = true } })
      pure ret_code)
    else if sarg_id == cnode_sarg_genuuid
    then (do gen_uuid; pure cnode_execution_exit)
    else do
      log_write log_notif "Unknown startup parameter: '%s'" (str (some arg) ∷ [])
      pure ret_code

pub run_sargs : List Bytes → ℕ → M ℕ
run_sargs [] ret_code = pure ret_code
run_sargs (arg ∷ args) ret_code = do ret ← run_sarg arg ret_code; run_sargs args ret

-- The arguments are those behind the program's name.
pub cnode_parse_sargs : List Bytes → M ℕ
cnode_parse_sargs args = do
  ret_code ← run_sargs args exit_success
  log_write log_debug "Evaluated all known startup parameters [%d]" (num (length args + 1) ∷ [])
  pure ret_code
