-- ===== src/Sys/Config/File.antt =====
-- The files of src/sys/config.c: the default configuration (`config_createcfg`), the count of its
-- entries (`config_count_entries`), and the UUID file (`config_create_uuid`, `config_read_uuid`, with
-- `crypto_gen_safe_uuid` of src/sys/crypto/uuid.c).
pub mod Default
pub mod Uuid
use central_node.Common.{
  ℕ, zero, suc, ◌+◌, Bool, true, false, not, ◌&&◌, Option, none, some, List, [], ◌∷◌, ◌++◌, ltb,
  ◌==◌, if◌then◌else◌, length,
}
use central_node.Common.Text.{Bytes, codes, c_str, before_newline, fgets, first_byte}
use central_node.World.{
  FilePath, cfg_path, uuid_path, cfg_folder_path, fopen, mkdir, uuid_time_safe, num, str, lit, Disk,
  World, M, pure, ◌>>=◌, ◌>>◌, gets, modify, ask, set_errno, open_read, exit_success, exit_failure,
  enoent,
}
use central_node.Sys.Logging.{
  log_write, log_write_trace, log_debug, log_notif, log_warning, set_last_err, set_last_errno,
  current_addr, eintegrity, efpread,
}
use central_node.Sys.Sysctl.{file_exists, dir_exists}
use central_node.Sys.Config.Entry.{cfg_nentries}

-- `fopen(path, "wb")`: the file is emptied, and made if its folder is there.
unfoldable pub open_write : FilePath → (Disk → Disk) → M Bool
open_write path empty = do
  refused ← ask (fopen path)
  folder ← gets (λ w. w.disk.cfg_folder)
  if refused == 0
      then (if folder
          then (do modify (λ w. record w { disk = empty w.disk }); pure true)
          else do set_errno enoent; pure false)
      else pure false

-- The entries of the default configuration, in the order of their numbers.
unfoldable pub config_entries : List Bytes
config_entries =
    codes "AUTOFIX=\"0\""
    ∷ codes "GODMODE=\"0\""
    ∷ codes "NWDMODE=\"0\""
    ∷ codes "NETLOGO=\"1\""
    ∷ codes "ALLOWSU=\"0\""
    ∷ codes "NOHTTPS=\"0\""
    ∷ codes "NLOGLVL=\"1\""
    ∷ codes "TIMEOUT=\"15\""
    ∷ codes "NTUNDEV=\"tun0\""
    ∷ codes "S5PROXY=\"NULL\""
    ∷ codes "NETREPO=\"centralnode.xyz\""
    ∷ []

-- `fprintf(fp, …)` to the open configuration file
abbrev append_cfg : Bytes → M (Unit {0})
append_cfg line = modify (λ w. record w {
  disk = record w.disk {
    cfg = elim w.disk.cfg [ some text ↦ some (text ++ line) | none ↦ some line ];
  };
})

-- the loop that writes the entries
write_entries : List Bytes → M (Unit {0})
write_entries [] = pure tt
write_entries (e ∷ es) = do
  log_write log_debug "Setting default config value: [%s]" (str (some e) ∷ [])
  append_cfg (e ++ b'\n' ∷ [])
  write_entries es

-- behind the check of the folder
write_default : M ℕ
unfolding write_entries config_entries
write_default = do
  fp ← open_write cfg_path (λ d. record d { cfg = some [] })
  if fp then (do write_entries config_entries; pure exit_success) else do
    set_last_errno current_addr "Failed to create new config file:"
    log_write_trace "config_createcfg()" "fp"
    pure exit_failure

pub config_createcfg : M ℕ
config_createcfg = do
  there ← dir_exists (some cfg_folder_path)
  if there then write_default else do
    log_write log_notif "Creating Central Node configuration folder - '%s'" (lit "/etc/cnode" ∷ [])
    mkdir_ret ← ask mkdir
    if mkdir_ret == 0
        then (do
          modify (λ w. record w { disk = record w.disk { cfg_folder = true } })
          log_write log_notif "Successfully created new config directory" []
          write_default)
        else do
          set_last_errno current_addr "Unable to create Central Node config directory:"
          log_write_trace "config_createcfg()" "mkdir()"
          pure exit_failure

-- The loop of `fgets` with a buffer of 256, by fuel: the entries counted so far. A line that starts
-- with a newline does not count.
count_lines : ℕ → Bool → Bytes → ℕ → M ℕ
count_lines zero output text count = pure count
count_lines (suc fuel) output text count =
    let read = fgets 255 text in
    let counts = not (first_byte read.0 == b'\n') in
    let next = count_lines fuel output read.1 (if counts then count + 1 else count) in
    elim read.0 [
      | [] ↦ pure count
      | _ ∷ _ ↦ (do
        if counts && output
            then log_write log_debug "Outputting existing config value: '[%s]'"
                (str (some (before_newline (c_str read.0))) ∷ [])
            else pure tt
        next)
    ]

-- Each round reads a byte at least, so that the file's length is fuel enough.
pub config_count_entries : Bool → M ℕ
unfolding count_lines
config_count_entries output = do
  there ← file_exists (some cfg_path)
  if not there then pure 0 else do
    fp ← open_read cfg_path
    elim fp [
      | none ↦ (do
        set_last_errno current_addr "Unable to open config file for reading:"
        log_write_trace "config_count_entries()" "fp"
        pure 0)
      | some text ↦ (do
        entry_count ← count_lines (suc (length text)) output text 0
        log_write log_debug "Found total of %u valid config entries" (num entry_count ∷ [])
        pure entry_count)
    ]

-- `crypto_gen_safe_uuid`: libuuid's text of a new UUID. The caller's buffer is never `NULL`.
crypto_gen_safe_uuid : M (ℕ × Bytes)
crypto_gen_safe_uuid = do
  ret ← ask uuid_time_safe
  if ret == 0 then pure tt else do
    set_last_err current_addr
        "Could not generate cryptographically secure synchronization-free UUID:" eintegrity
    log_write log_warning "Falling back to unix high-quality randomness generator" []
  text ← gets (λ w. w.os.uuid_text w.io.calls)
  pure (exit_success, text)

-- The status, and the UUID that the optional output is given.
pub config_create_uuid : M (ℕ × Option Bytes)
unfolding crypto_gen_safe_uuid
config_create_uuid = do
  fp ← open_write uuid_path (λ d. record d { uuid = some [] })
  if fp
      then (do
        (ret, uuid_str) ← crypto_gen_safe_uuid
        if ret == exit_success
            then (do
              modify (λ w. record w { disk = record w.disk { uuid = some uuid_str } })
              pure (ret, some uuid_str))
            else pure (ret, none))
      else do
        set_last_errno current_addr "Unable to create new UUID file:"
        log_write_trace "config_create_uuid()" "fp"
        pure (exit_failure, none)

-- behind a successful `fopen`: the buffer holds UUID_STR_LEN, 37, bytes
read_line_of_uuid : Bytes → M (ℕ × Option Bytes)
read_line_of_uuid text = elim (fgets 36 text).0 [
  | [] ↦ (do
    set_last_err current_addr "Unable to read UUID file:" efpread
    log_write_trace "config_read_uuid()" "fgets() == NULL"
    pure (exit_failure, none))
  | c ∷ cs ↦ pure (exit_success, some (c_str (c ∷ cs)))
]

-- The label TRY_OPEN_FILE, by the rounds that `anti_deadlock` leaves: it is reached twice at most.
try_open_file : ℕ → M (ℕ × Option Bytes)
try_open_file zero = pure (exit_failure, none)
try_open_file (suc rounds) = do
  let again = try_open_file rounds
  fp ← open_read uuid_path
  elim fp [
    | some text ↦ read_line_of_uuid text
    | none ↦ (do
      (ret, created) ← config_create_uuid
      if ret == exit_success then again else do
        set_last_errno current_addr "Unable to create UUID file:"
        log_write_trace "config_read_uuid()" "confog_create_uuid()"
        pure (exit_failure, none))
  ]

pub config_read_uuid : M (ℕ × Option Bytes)
unfolding try_open_file read_line_of_uuid
config_read_uuid = try_open_file 2
