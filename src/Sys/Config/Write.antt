-- ===== src/Sys/Config/Write.antt =====
-- `config_writevalue` of src/sys/config.c: a value is written over the line of its entry, in place. The
-- entry number is not negative. A write that is refused leaves the file.
pub mod Line
mod Tests
use central_node.Common.{
  ◌^◌, ℕ, zero, suc, ◌+◌, ◌-◌, Bool, true, false, Option, none, some, List, [], ◌∷◌, ◌++◌, ltb, leb,
  ◌==◌, if◌then◌else◌, length, take, drop,
}
use central_node.Common.Text.{Bytes, codes, c_str, fgets, show, snprintf, strncmp_eq}
use central_node.World.{
  cfg_path, fopen, fseek, fwrite, num, str, World, M, pure, ◌>>=◌, ◌>>◌, gets, modify, ask,
  open_read, exit_success, exit_failure, einval,
}
use central_node.Sys.Logging.{
  log_write, log_write_trace, log_debug, log_error, log_notif, set_last_err, set_last_errno,
  current_addr, enullptr, einvcfg, efpwrite,
}
use central_node.Sys.Config.Entry.{
  cfg_arg_max, cfg_nentries, cfg_tundev, cfg_fmt_machine, config_entry_to_str, config_str_to_entry,
}
use central_node.Sys.Config.Eval.{Pointee}

-- The new line. The pointer is read as a string from CFG_TUNDEV on, and as a number below.
unfoldable pub format_line : Bytes → Pointee → Bytes
format_line entry_str wvalue = snprintf (cfg_arg_max - 1) (
    entry_str
    ++ codes "=\""
    ++ (if leb cfg_tundev (config_str_to_entry entry_str) then wvalue.text else show wvalue.word)
    ++ codes "\"\n")

-- The file when bytes are written over it from a position on.
abbrev pub overwrite : ℕ → Bytes → Bytes → Bytes
overwrite pos bytes text = take pos text ++ bytes ++ drop (pos + length bytes) text

-- The line that was read is replaced from its beginning.
replace_line : ℕ → Bytes → ℕ → ℕ → Bytes → M ℕ
replace_line entry_id format_buffer cur_pos line_len text = do
  let line_dif = cur_pos - line_len
  -- A refused `fseek` returns -1.
  sought ← ask fseek
  if sought == 0
      then (do
        written ← ask fwrite
        if written == 0
            then (do
              modify (λ w. record w {
                disk = record w.disk { cfg = some (overwrite line_dif format_buffer text) };
              })
              log_write log_notif "Updating config entry %d: [%s]"
                  (num entry_id ∷ str (some format_buffer) ∷ [])
              pure exit_success)
            else do
              errno ← gets (λ w. w.io.errno)
              set_last_err current_addr "An error has occured while writting to config file:"
                  (if errno == exit_success then efpwrite else errno)
              log_write log_debug "WSZ: %zu != FMTSZ: %zu" (num 0 ∷ num (length format_buffer) ∷ [])
              log_write_trace "config_writevalue()" "writesz"
              pure exit_failure)
      else do
        set_last_errno current_addr "An error has occured while reading the config file:"
        log_write log_debug "RET: %d [LINE_DIF: %zu LINE_LEN: %lu]"
            (num (2 ^ 32 - 1) ∷ num line_dif ∷ num line_len ∷ [])
        log_write_trace "config_writevalue()" "fseek()"
        pure exit_failure

-- The loop over the lines, by the rounds that are left: `pos` bytes of the text are read.
find_line : ℕ → ℕ → Bytes → Bytes → ℕ → Bytes → M ℕ
find_line zero entry_id entry_str format_buffer pos text = pure exit_success
find_line (suc rounds) entry_id entry_str format_buffer pos text =
    let read = (fgets (cfg_arg_max - 1) (drop pos text)).0 in
    let read_buffer = c_str read in
    let later = find_line rounds entry_id entry_str format_buffer (pos + length read) text in
    if strncmp_eq read_buffer entry_str 7
    then replace_line entry_id format_buffer (pos + length read) (length read_buffer) text
    else later

-- Behind `fopen`, which may have given `NULL`.
write_to : ℕ → Pointee → Option Bytes → M ℕ
write_to entry_id wvalue none = do
  set_last_errno current_addr "Unable to open config file for appending:"
  log_write_trace "config_writevalue()" "fp"
  pure exit_failure
write_to entry_id wvalue (some text) = elim (config_entry_to_str entry_id cfg_fmt_machine) [
  | none ↦ (do
    set_last_err current_addr "" einval
    log_write log_error "Unknown config entry specified: %d" (num entry_id ∷ [])
    log_write_trace "config_writevalue()" "entry_str"
    pure exit_failure)
  | some entry_str ↦ find_line cfg_nentries entry_id entry_str (format_line entry_str wvalue) 0 text
]

pub config_writevalue : ℕ → Option Pointee → M ℕ
config_writevalue entry_id none = do
  set_last_err current_addr "" enullptr
  log_write_trace "config_writevalue()" "wvalue"
  pure exit_failure
config_writevalue entry_id (some wvalue) =
    if ltb cfg_nentries entry_id
    then (do
      set_last_err current_addr "" einvcfg
      here ← gets (λ w. w.os.stack_addr w.io.calls)
      log_write log_error "Unable to write config entry %d (val: %lu [%p]): Invalid Entry"
          (num entry_id ∷ num wvalue.word ∷ num here ∷ [])
      log_write_trace "config_writevalue()" "entry_id"
      pure exit_failure)
    else do fp ← open_read cfg_path; write_to entry_id wvalue fp
