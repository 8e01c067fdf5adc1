-- ===== src/Sys/Logging/Path.antt =====
-- The log file's path and its reset: `log_set_path` and `log_reset` of src/sys/logging.c.
use central_node.Common.{◌-◌, ◌≡◌, some, arith, ltb, if◌then◌else◌, length}
use central_node.Common.Text.{Bytes}
use central_node.World.{World, malloc, answer, exit_success, exit_failure}
use central_node.Sys.Logging.{log_set_path, path_max}

-- Where memory is granted, `log_set_path` stores every path shorter than PATH_MAX - 1 and reports
-- success. A longer one leaves the old path and reports failure. The level and the flags of the log
-- stay as they were, and so do the options and the files.
log_set_path_lem :
    (path : Bytes) (w : World)
    → w.os.refuse w.io.calls malloc ≡ 0
    → let r = log_set_path (some path) w in
      let fits = ltb (length path) (path_max - 1) in
      (r.0 ≡ (if fits then exit_success else exit_failure))
      × (r.1.log ≡ record w.log { log_path = if fits then some path else w.log.log_path })
      × (r.1.options ≡ w.options)
      × (r.1.disk ≡ w.disk)
unfolding log_set_path answer
log_set_path_lem path w granted = ground (arith, granted)
