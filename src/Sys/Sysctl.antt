-- ===== src/Sys/Sysctl.antt =====
-- src/sys/sysctl.c: files and folders, the user of the process, and kernel modules.
pub mod Privileges
pub mod Granted
mod Tests
use central_node.Common.{
  ℕ, zero, suc, ◌+◌, ◌%◌, ◌^◌, Bool, true, false, not, ◌||◌, ◌&&◌, Option, none, some, List, [],
  ◌∷◌, ltb, ◌==◌, if◌then◌else◌, length, drop,
}
use central_node.Common.Text.{
  Bytes, codes, c_str, first_byte, fgets, strstr, strtol, strtol_overflows,
}
use central_node.World.{
  FilePath, osrelease_path, stat, opendir, setgid, setuid, finit_module, delete_module, num, str,
  lit, World, M, pure, ◌>>=◌, ◌>>◌, gets, modify, ask, set_errno, open_read, exists_at,
  exit_success, exit_failure, enoent, einval, erange, ebadfd,
}
use central_node.Sys.Logging.{
  log_write, log_write_trace, log_debug, log_error, log_critical, set_last_err, set_last_errno,
  current_addr, no_addr_info, enullptr, einvusr,
}

-- `sys_finit_module` is assembly of src/sys/kmodule.asm around a system call.
unfoldable pub finit_module_wrapper : ℕ → M ℕ
finit_module_wrapper fd =
    if ltb fd 1
    then (do
      set_last_err current_addr "" ebadfd
      log_write_trace "finit_module_wrapper()" "fd"
      pure exit_failure)
    else do
      refused ← ask finit_module
      if refused == 0 then pure exit_success else do
        set_last_errno current_addr "Unable to load kernel module:"
        log_write_trace "fint_module_wrapper()" "sys_finit_module()"
        pure exit_failure

pub delete_module_wrapper : Option Bytes → M ℕ
delete_module_wrapper none = do
  set_last_err current_addr "" enullptr
  log_write_trace "delete_module_warpper()" "name_user"
  pure exit_failure
delete_module_wrapper (some name_user) = do
  refused ← ask delete_module
  if refused == 0 then pure exit_success else do
    set_last_errno current_addr "Unable to remove kernel module:"
    log_write_trace "delete_module_wrapper()" "sys_delete_module()"
    pure exit_failure

abbrev pub uid_root : ℕ
uid_root = 0

unfoldable pub rootchecker : M ℕ
rootchecker = do
  uid ← gets (λ w. w.process.uid)
  pure (if uid == uid_root then exit_success else exit_failure)

-- The first 254 bytes of the first line of /proc/sys/kernel/osrelease are searched.
pub is_wsl : M Bool
is_wsl = do
  fp ← open_read osrelease_path
  elim fp [
    | none ↦ (do
      set_last_errno current_addr "fopen() error:"
      log_write_trace "is_wsl()" "fp"
      pure false)
    | some text ↦
        (let readbuffer = c_str (fgets 254 text).0 in
          pure (strstr readbuffer (codes "Microsoft") || strstr readbuffer (codes "microsoft")))
  ]

-- The path may be `NULL`.
unfoldable pub file_exists : Option FilePath → M Bool
file_exists none = do
  set_last_err current_addr "" enullptr
  log_write_trace "file_exists()" "filename"
  pure false
file_exists (some filename) = do
  refused ← ask (stat filename)
  there ← gets (λ w. exists_at filename w.disk)
  if refused == 0 && there
      then pure true
      else do if refused == 0 then set_errno enoent else pure tt; pure false

unfoldable pub dir_exists : Option FilePath → M Bool
dir_exists none = do
  set_last_err current_addr "" enullptr
  log_write_trace "dir_exists()" "dirpath"
  pure false
dir_exists (some dirpath) = do
  refused ← ask (opendir dirpath)
  there ← gets (λ w. exists_at dirpath w.disk)
  if refused == 0 && there then pure true else do
    if refused == 0 then set_errno enoent else pure tt
    e ← gets (λ w. w.io.errno)
    if e == enoent then pure false else do
      set_last_errno current_addr "Unable to retrieve directory information:"
      log_write_trace "dir_exists()" "UNKNOWN"
      pure false

-- One round of the loop over SUDO_UID and SUDO_GID: the identifier, or none where the function
-- returns EXIT_FAILURE. `strtol` leaves `errno` as it is unless the number overflows.
convert_id : Bytes → M (Option ℕ)
convert_id text = do
  if strtol_overflows text then set_errno erange else pure tt
  let id = (strtol text).value % 2 ^ 32
  e ← gets (λ w. w.io.errno)
  if id == 0
      then (if e == erange
          then (do
            set_last_err current_addr "Datatype conversion failure:" erange
            log_write log_debug "str_cptr: '%s'; base: %d" (str (some text) ∷ num 10 ∷ [])
            log_write_trace "drop_superuser()" "strtol(__str_cptr, PTR_ENDPTR_MASK, __base)"
            pure none)
          else if e == einval
          then (do
            set_last_err current_addr "Invalid conversion base specified:" einval
            log_write_trace "drop_superuser()" "strtol() => EINVAL(BASE_DECIMAL)"
            pure none)
          else do
            set_last_errno current_addr ""
            log_write log_critical
                "An unknown error has occured. Central Node will exit due to security reasons." []
            log_write log_critical
                "TRACE_CRITICAL: E%d - drop_superuser() => strtol(\"%s\", '%#02x', '%d')"
                (num e
                  ∷ str (some text)
                  ∷ num (first_byte (drop (strtol text).consumed text))
                  ∷ num 10
                  ∷ [])
            pure none)
      else if (strtol text).consumed == length text
      then pure (some id)
      else do
        set_last_err current_addr "Invalid conversion results:" einval
        log_write log_debug "endptr [%#02x]"
            (num (first_byte (drop (strtol text).consumed text)) ∷ [])
        log_write_trace "drop_superuser()" "endptr"
        pure none

-- Behind the loop: the group is set first, then the user.
set_ids : ℕ → ℕ → M ℕ
set_ids nonsu_uid nonsu_gid = do
  if nonsu_gid == 1 || nonsu_uid == 1
      then (do
        set_last_err current_addr "Invalid conversion results:" einval
        log_write_trace "drop_superuser()" "ERROR_HANDLER_FAILURE")
      else pure tt
  refused ← ask (setgid nonsu_gid)
  if refused == 0
      then (do
        modify (λ w. record w { process = record w.process { gid = nonsu_gid } })
        refused ← ask (setuid nonsu_uid)
        if refused == 0
            then (do
              modify (λ w. record w { process = record w.process { uid = nonsu_uid } })
              log_write log_debug "Successfully dropped superuser privileges" []
              pure exit_success)
            else do
              set_last_errno current_addr
                  "Unable to drop superuser privileges. Central Node is shutting down:"
              err ← gets (λ w. w.error)
              log_write log_critical "TRACE_CRITICAL: E%d - drop_superuser() => setuid('%u')"
                  (num err.last_errno ∷ num nonsu_uid ∷ [])
              pure exit_failure)
      else do
        set_last_errno current_addr
            "Unable to drop superuser privileges. Central Node is shutting down:"
        err ← gets (λ w. w.error)
        log_write log_critical "TRACE_CRITICAL: E%d - drop_superuser() => setgid('%u')"
            (num err.last_errno ∷ num nonsu_gid ∷ [])
        pure exit_failure

pub drop_to : Option Bytes → Option Bytes → Option Bytes → M ℕ
drop_to (some name) (some uid) (some gid) = do
  nonsu_uid ← convert_id uid
  elim nonsu_uid [
    | none ↦ pure exit_failure
    | some u ↦ (do
      nonsu_gid ← convert_id gid
      elim nonsu_gid [
        | none ↦ pure exit_failure
        | some g ↦ (do
          log_write log_debug "Dropping superuser privileges: Target user='%s' UID='%u' GID='%u'"
              (str (some name) ∷ num u ∷ num g ∷ [])
          set_ids u g)
      ])
  ]
drop_to _ _ _ = do
  set_last_err no_addr_info "Unable to read environment variable:" einvusr
  log_write_trace "drop_superuser()" "SUDO_UID | SUDO_GID | SUDO_USER"
  allowed ← gets (λ w. w.options.allow_root_execution)
  pure (if allowed then exit_success else exit_failure)

pub drop_superuser : M ℕ
drop_superuser = do
  root ← rootchecker
  -- `if (!rootchecker())`
  if root == 0
      then (do
        set_last_err no_addr_info "Unable to drop superuser privileges:" einvusr
        log_write log_debug
            "Attempted to drop superuser privileges, but current user is not superuser" []
        pure exit_failure)
      else do
        os ← gets (λ w. w.os)
        drop_to (os.env (codes "SUDO_USER")) (os.env (codes "SUDO_UID")) (os.env (codes "SUDO_GID"))
