-- ===== src/Sys/Logging/Tests.antt =====
-- Runs of src/sys/logging.c and its theorems at concrete states.
use central_node.Common.{◌≡◌, refl, true, false, [], ◌∷◌, ◌++◌, if◌then◌else◌}
use central_node.World.{answer, lit, exit_failure, einval}
use central_node.World.Tests.{started}
use central_node.Sys.Logging.{
  setloglvl, log_reset, log_write, log_emit, set_last_err, current_addr, log_error, log_debug,
  node_strerror, text_arg,
}
use central_node.Sys.Logging.Level.{set_all, setloglvl_lock}
use central_node.Sys.Logging.Errors.{set_last_err_lem, is_logged, line_of}

setloglvl_lock_example :
    ((set_all (3 ∷ 1 ∷ []) (setloglvl log_debug true started.log).1).log_level ≡ log_debug)
    × ((setloglvl 4 false (set_all (3 ∷ 1 ∷ []) (setloglvl log_debug true started.log).1)).0
        ≡ exit_failure)
setloglvl_lock_example = setloglvl_lock log_debug 4 (3 ∷ 1 ∷ []) started.log

set_last_err_lem_example :
    let w' = (set_last_err current_addr "here" einval started).1 in
    (w'.error.last_errno ≡ einval)
    × (w'.error.exit_status ≡ exit_failure)
    × (w'.io.log_file ≡ (
        if is_logged log_error started.os started.log started.io
        then started.io.log_file
          ++ line_of log_error "%s %s"
              (lit "here" ∷ text_arg (node_strerror started.os einval) ∷ [])
            ∷ []
        else started.io.log_file))
    × (w'.log ≡ started.log)
    × (w'.options ≡ started.options)
    × (w'.disk ≡ started.disk)
set_last_err_lem_example = set_last_err_lem current_addr "here" einval started

-- A log that is reset holds no old line.
reset_run : (log_reset (log_write log_error "old" [] started).1).1.io.log_file ≡ []
unfolding log_reset log_emit answer
reset_run = refl
