-- ===== src/Sys/Config/Eval.antt =====
-- `config_evalentry` of src/sys/config.c: one value of the configuration is checked and stored. The
-- function is given a `void *` and reads what it points at as a number or as a string, by the entry.
pub mod Bounds
pub mod Switches
pub mod Same
use central_node.Common.{
  ℕ, zero, suc, ◌+◌, ◌*◌, ◌/◌, ◌%◌, ◌^◌, Bool, true, false, not, ◌&&◌, Option, none, some, List, [],
  ◌∷◌, String, ltb, leb, ◌==◌, if◌then◌else◌, length, take,
}
use central_node.Common.Text.{Bytes, codes, c_str, u64, strncmp_eq}
use central_node.World.{
  num, str, lit, Arg, Options, World, M, pure, ◌>>=◌, ◌>>◌, gets, modify, exit_success,
  exit_failure, einval,
}
use central_node.Data.{rtonm}
use central_node.Sys.Logging.{
  log_write, log_write_trace, log_debug, log_warning, log_error, log_critical, set_last_err,
  current_addr, no_addr_info, cnode_setloglvl, log_lvl_to_str, enullptr, einvcfg,
}
use central_node.Sys.Config.Entry.{
  cfg_autofix, cfg_godmode, cfg_nwdmode, cfg_netlogo, cfg_allowsu, cfg_nohttps, cfg_nloglvl,
  cfg_timeout, cfg_tundev, cfg_proxy, cfg_netrepo,
}

-- IF_DEV_MAXLEN (src/net/ifs.h): the system's IF_NAMESIZE is 16
abbrev pub if_dev_maxlen : ℕ
if_dev_maxlen = 15

abbrev pub proxy_maxlen : ℕ
proxy_maxlen = 96

-- NETREPO_NAME_MAX (src/net/networks.h)
abbrev pub netrepo_name_max : ℕ
netrepo_name_max = 64

-- What the pointer points at, as a `uint64_t` and as a C string.
pub record Pointee : Type 0 where
  pub word : ℕ
  pub text : Bytes

-- The bytes of a number, the least significant first, and the number that bytes stand for.
abbrev le_bytes : ℕ → ℕ → Bytes
le_bytes zero n = []
le_bytes (suc k) n = (n % 256) ∷ le_bytes k (n / 256)

abbrev le_word : Bytes → ℕ
le_word [] = 0
le_word (b ∷ bs) = b + 256 * le_word bs

abbrev pub of_ulong : ℕ → Pointee
of_ulong n = record { word = n; text = c_str (le_bytes 8 n) }

-- A string in a buffer that is zero behind it.
abbrev pub of_text : Bytes → Pointee
of_text s = record { word = le_word (take 8 s); text = s }

-- `*((bool *) entry_value)`: the lowest byte
abbrev pub as_bool : Pointee → Bool
as_bool v = not (v.word % 256 == 0)

abbrev pub as_uint : Pointee → ℕ
as_uint v = v.word % 2 ^ 32

abbrev debug_msg : Pointee → Arg
debug_msg v = lit (if as_bool v then "Enabled" else "Disabled")

abbrev pub set_options : (Options → Options) → M (Unit {0})
set_options f = modify (λ w. record w { options = f w.options })

-- A bool entry: it is stored, and the change is logged.
abbrev store_switch : (Bool → Options → Options) → String → Pointee → M ℕ
store_switch put format v = do
  set_options (put (as_bool v))
  log_write log_debug format (debug_msg v ∷ [])
  pure exit_success

store_allowsu : Pointee → M ℕ
store_allowsu v = do
  set_options (λ o. record o { allow_root_execution = as_bool v })
  let log =
      if as_bool v
      then log_write log_warning "Enabled non-setuid root execution" []
      else log_write log_debug "%s non-setuid root execution" (debug_msg v ∷ [])
  log
  pure exit_success

-- case CFG_NLOGLVL
store_loglvl : Pointee → M ℕ
store_loglvl v =
    if ltb log_critical (as_uint v)
    then (do
      set_last_err no_addr_info "" einvcfg
      log_write log_error "Ignoring invalid LogLevel value '%lu'" (num v.word ∷ [])
      log_write_trace "config_evalentry()" "entry_value"
      pure exit_failure)
    else do
      setlogret ← cnode_setloglvl (as_uint v) false
      if setlogret == exit_success
          then elim (log_lvl_to_str (as_uint v)) [
            | none ↦ (do
              set_last_err current_addr "" einval
              log_write log_error "Invalid logging level specified: %d" (num v.word ∷ [])
              log_write_trace "config_evalentry()" "loglvl_str"
              pure exit_failure)
            | some name ↦ (do
              log_write log_debug "Set LogLevel to LOG_%s" (lit name ∷ [])
              pure exit_success)
          ]
          else do
            log_write log_warning "LogLevel was forcibly set at startup. Ignoring config value." []
            pure exit_failure

-- `longest_cfg_entry` after a string of length `slen`
pub grow : ℕ → ℕ → ℕ
grow slen longest =
    let next_mul = rtonm ((slen + longest) % u64) 8 in
    if ltb longest slen then (if ltb longest next_mul then next_mul else longest) else longest

-- A string entry. One that is too long is reported, and overwritten in place by "ERROR", which is
-- what is stored; the length that counts for `longest_cfg_entry` is the one before.
store_string : ℕ → String → (Option Bytes → Options → Options) → Pointee → M (Bytes × ℕ)
store_string max format put v = do
  let slen = length v.text
  let long = ltb max slen
  let report =
      if long
      then (do
        set_last_err current_addr "" einval
        log_write log_error format (str (some v.text) ∷ [])
        log_write_trace "config_evalentry()" "slen")
      else pure tt
  let kept = if long then codes "ERROR" else v.text
  report
  set_options (put (some kept))
  set_options (λ o. record o { longest_cfg_entry = grow slen o.longest_cfg_entry })
  pure (kept, if long then exit_failure else exit_success)

store_proxy : Pointee → M ℕ
store_proxy v = do
  stored ←
      store_string proxy_maxlen "Invalid SOCKS5 Proxy '%s'" (λ s o. record o { proxyaddr = s }) v
  let log =
      if strncmp_eq stored.0 (codes "NULL") 4
      then log_write log_debug "No SOCKS5 Proxy set" []
      else log_write log_debug "Set SOCKS5 Proxy to '%s'" (str (some stored.0) ∷ [])
  log
  pure stored.1

store_tundev : Pointee → M ℕ
store_tundev v = do
  stored ←
      store_string if_dev_maxlen "Invalid tun device '%s'" (λ s o. record o { tincifnet = s }) v
  log_write log_debug "Set tun interface to '%s'" (str (some stored.0) ∷ [])
  pure stored.1

store_netrepo : Pointee → M ℕ
store_netrepo v = do
  stored ←
      store_string netrepo_name_max "Invalid repository name '%s'" (λ s o. record o { netrepo = s })
        v
  log_write log_debug "Set network repository to '%s'" (str (some stored.0) ∷ [])
  pure stored.1

store_timeout : Pointee → M ℕ
store_timeout v = do
  set_options (λ o. record o { net_timeout = v.word })
  log_write log_debug "Set network timeout to '%lu'" (num v.word ∷ [])
  pure exit_success

-- the switch on the entry
eval_switch : ℕ → Pointee → M ℕ
eval_switch cfg_entry v =
    if cfg_entry == cfg_autofix
    then store_switch (λ b o. record o { autofix = b }) "%s AutoFix" v
    else if cfg_entry == cfg_godmode
    then store_switch (λ b o. record o { godmode = b }) "%s GodMode" v
    else if cfg_entry == cfg_nwdmode
    then store_switch (λ b o. record o { nodewd_required = b }) "%s nodeWD strict/enforcing mode" v
    else if cfg_entry == cfg_netlogo
    then store_switch (λ b o. record o { netlogos = b }) "%s network logos" v
    else if cfg_entry == cfg_timeout
    then store_timeout v
    else if cfg_entry == cfg_allowsu
    then store_allowsu v
    else if cfg_entry == cfg_nohttps
    then store_switch (λ b o. record o { net_nohttps = b }) "%s No-HTTPS" v
    else if cfg_entry == cfg_nloglvl
    then store_loglvl v
    else if cfg_entry == cfg_tundev
    then store_tundev v
    else if cfg_entry == cfg_proxy
    then store_proxy v
    else if cfg_entry == cfg_netrepo
    then store_netrepo v
    else do
      set_last_err current_addr "" einvcfg
      log_write log_error "Invalid config entry: %d" (num cfg_entry ∷ [])
      log_write_trace "config_evalentry()" "cfg_entry"
      pure exit_failure

-- The pointer may be `NULL`. Every entry below CFG_TIMEOUT is taken for a bool.
pub config_evalentry : ℕ → Option Pointee → M ℕ
config_evalentry cfg_entry none = do
  log_write log_error "Attempted to pass NULL pointer" []
  log_write log_debug "\nTRACE: E%d - config_evalentry() => entry_value" (num enullptr ∷ [])
  pure exit_failure
config_evalentry cfg_entry (some v) =
    if ltb 1 v.word && ltb cfg_entry cfg_timeout
    then (do
      set_last_err current_addr "" einval
      log_write log_error "Invalid value specified for config entry %d - %lu"
          (num cfg_entry ∷ num v.word ∷ [])
      log_write_trace "config_evalentry()" "cfg_entry"
      pure exit_failure)
    else eval_switch cfg_entry v
