-- ===== src/Sys/Config/Read.antt =====
-- `config_readcfg` of src/sys/config.c: the configuration file is read line by line, and each value is
-- evaluated.
pub mod Names
pub mod Line
pub mod Lines
pub mod File
pub mod Fresh
pub mod Null
use central_node.Common.{
  ℕ, zero, suc, ◌+◌, ◌-◌, Bool, true, false, not, ◌||◌, Option, none, some, List, [], ◌∷◌, leb,
  ◌==◌, if◌then◌else◌, length, drop, take,
}
use central_node.Common.Text.{Bytes, c_str, fgets, strchr, strrchr, strtoul, plain_format}
use central_node.World.{
  cfg_path, malloc, num, str, Arg, World, M, gets, modify, ask, open_read, exit_success,
  exit_failure, einval,
}
use central_node.World.Faults.{Run, and_then, ◌>>=◌, ◌>>◌, call, return, undefined}
use central_node.Sys.Logging.{
  log_write, log_write_trace, log_debug, log_warning, log_error, set_last_err, set_last_errno,
  current_addr, einvcfg,
}
use central_node.Sys.Sysctl.{file_exists}
use central_node.Sys.Config.Entry.{
  config_entry_to_str, matches, find_entry, cfg_nentries, cfg_arg_max, cfg_null, cfg_tundev,
  cfg_fmt_machine, cfg_fmt_readable,
}
use central_node.Sys.Config.Eval.{config_evalentry, of_ulong, of_text}
use central_node.Sys.Config.File.{config_count_entries, config_createcfg}

-- How a round of the loop ends: `continue`, or a `return` of the function.
pub data Round : Type 0 where
  next : Round
  stop : ℕ → Round

-- config entries are 7 characters long
abbrev cfg_entry_len : ℕ
cfg_entry_len = 7

abbrev readable : ℕ → Arg
readable i = str (config_entry_to_str i cfg_fmt_readable)

-- The double quotes of a line: the first and the last, as indices.
pub record Quotes : Type 0 where
  pub fdq : ℕ
  pub ldq : ℕ

abbrev pub quotes_of : Option ℕ → Option ℕ → Option Quotes
quotes_of (some f) (some l) = some (record { fdq = f; ldq = l })
quotes_of (some f) none = none
quotes_of none l = none

-- A string entry. `snprintf` takes the value for its format, and is told to write as many bytes as
-- lie between the quotes, its zero byte included. With nothing to write the new memory is used as it
-- is.
read_string : ℕ → ℕ → Bytes → Option Quotes → Run Round
read_string i entry read_buffer quotes = do
  refused ← call (ask malloc)
  if refused == 0
      then elim quotes [
        | none ↦ undefined
        | some q ↦ elim (plain_format (drop (q.fdq + 1) read_buffer)) [
          | none ↦ undefined
          | some text ↦
              (let slen_diff = q.ldq - q.fdq in
                let strvalue = take (slen_diff - 1) text in
                if slen_diff == 0 then undefined else do
                  call (
                      log_write log_debug "Found config entry: '%s' with value \"%s\""
                        (readable i ∷ str (some strvalue) ∷ []))
                  evaluated ← call (config_evalentry entry (some (of_text strvalue)))
                  return next)
        ]
      ]
      else do
        call (set_last_errno current_addr "Unable to allocate memory:")
        call (log_write_trace "config_readcfg()" "strvalue")
        return (stop exit_failure)

-- A number entry. `strtoul` must stop at the last quote. The value CFG_NULL ends the whole read.
read_number : ℕ → ℕ → Bytes → Option Quotes → Run Round
read_number i entry read_buffer none = undefined
read_number i entry read_buffer (some q) =
    let parsed = strtoul (drop (q.fdq + 1) read_buffer) in
    let cvalue = parsed.value in
    if not (q.fdq + 1 + parsed.consumed == q.ldq)
    then (do
      call (log_write log_warning "Invalid Config Entry: %d" (num i ∷ []))
      here ← call (gets (λ w. w.os.stack_addr w.io.calls))
      call (
          log_write log_debug "\nTRACE: EINVAL : ['%s' - ID - %d - CVAL: %ld - RSP64: %llx]"
            (str (some read_buffer) ∷ num i ∷ num cvalue ∷ num here ∷ []))
      return next)
    else do
      call (
          log_write log_debug "Found config entry: '%s' with value '%d'"
            (readable i ∷ num cvalue ∷ []))
      if cvalue == cfg_null
          then (do
            call (set_last_err current_addr "" einvcfg)
            call (log_write log_error "Config Entry %d is CFG_NULL" (num i ∷ []))
            return (stop exit_failure))
          else do evaluated ← call (config_evalentry entry (some (of_ulong cvalue))); return next

-- The entry that a line names: the one of its place, or another one, and CFG_NULL if there is none.
pub entry_of : ℕ → Bytes → ℕ
entry_of i read_buffer =
    if matches read_buffer (config_entry_to_str i cfg_fmt_machine) cfg_entry_len
    then i
    else find_entry read_buffer cfg_entry_len cfg_nentries 0

-- One round: the line is in the buffer.
pub read_entry : ℕ → Bytes → Run Round
read_entry i read_buffer =
    let quotes = quotes_of (strchr b'"' read_buffer) (strrchr b'"' read_buffer) in
    let entry_to_pass = entry_of i read_buffer in
    elim (config_entry_to_str i cfg_fmt_machine) [
      | none ↦ (do
        call (set_last_err current_addr "" einval)
        call (log_write log_error "Unknown config entry: ID: %d" (num i ∷ []))
        call (log_write_trace "config_readcfg()" "cfgentry_str")
        return next)
      | some name ↦
          if entry_to_pass == cfg_null
          then (do
            call (
                log_write log_warning "Ignoring invalid config entry %d - '%s'"
                  (num i ∷ str (some read_buffer) ∷ []))
            return next)
          else if leb cfg_tundev entry_to_pass
          then read_string i entry_to_pass read_buffer quotes
          else read_number i entry_to_pass read_buffer quotes
    ]

-- the loop, by the rounds that are left
pub read_entries : ℕ → ℕ → Bytes → Run ℕ
read_entries zero i fp = do
  call (log_write log_debug "Evaluated all known config entries, closing the config file" [])
  return exit_success
read_entries (suc rounds) i fp = do
  let read = fgets (cfg_arg_max - 1) fp
  let later = read_entries rounds (i + 1) read.1
  round ← read_entry i (c_str read.0)
  elim round [ stop code ↦ return code | next ↦ later ]

pub read_file : Run ℕ
read_file = do
  fp ← call (open_read cfg_path)
  elim fp [
    | none ↦ (do
      call (set_last_errno current_addr "Unable to open config file for reading:")
      call (log_write_trace "config_readcfg()" "fp")
      return exit_failure)
    | some text ↦ read_entries cfg_nentries 0 text
  ]

-- A file that is missing, or holds another number of entries, is replaced by the default one first.
pub config_readcfg : Run ℕ
config_readcfg = do
  cfg_nentries_found ← call (config_count_entries false)
  there ← call (file_exists (some cfg_path))
  if not there || not (cfg_nentries_found == cfg_nentries)
      then (do
        call (modify (λ w. record w { options = record w.options { first_time_launch = true } }))
        backed_up ← (if cfg_nentries_found == 0 then return 0 else call (config_count_entries true))
        ret ← call config_createcfg
        if ret == exit_success then read_file else return exit_failure)
      else read_file
