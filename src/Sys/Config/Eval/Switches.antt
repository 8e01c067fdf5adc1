-- ===== src/Sys/Config/Eval/Switches.antt =====
-- What `config_evalentry` stores, with the logging and error reports left out.
use central_node.Common.{
  ℕ, ap, ◌≡◌, Bool, true, false, not, ◌&&◌, ◌||◌, Option, some, arith, ltb, leb, ◌==◌,
  if◌then◌else◌, length, String, Bool-cases, inl, inr,
}
use central_node.Common.Text.{Bytes, codes}
use central_node.World.{Options, World, exit_success, exit_failure}
use central_node.Sys.Logging.Level.{setloglvl_lem, log_lvl_to_str-some}
use central_node.Sys.Logging.{log_critical}
use central_node.Sys.Config.Entry.{
  cfg_autofix, cfg_godmode, cfg_nwdmode, cfg_netlogo, cfg_allowsu, cfg_nohttps, cfg_nloglvl,
  cfg_timeout, cfg_tundev, cfg_proxy, cfg_netrepo,
}
use central_node.Sys.Config.Eval.{
  Pointee, as_bool, as_uint, config_evalentry, eval_switch, store_allowsu, store_loglvl,
  store_timeout, store_tundev, store_proxy, store_netrepo, store_string, grow, if_dev_maxlen,
  proxy_maxlen, netrepo_name_max,
}

-- A value that the check on bool entries turns down.
abbrev pub is_refused : ℕ → Pointee → Bool
is_refused e v = ltb 1 v.word && ltb e cfg_timeout

-- What is kept of a string, by its limit.
abbrev pub kept : ℕ → Bytes → Bytes
kept max s = if ltb max (length s) then codes "ERROR" else s

-- The options after an entry that is not refused, by the entry.
unfoldable pub put_entry : ℕ → Pointee → Options → Options
put_entry e v o =
    if e == cfg_autofix
    then record o { autofix = as_bool v }
    else if e == cfg_godmode
    then record o { godmode = as_bool v }
    else if e == cfg_nwdmode
    then record o { nodewd_required = as_bool v }
    else if e == cfg_netlogo
    then record o { netlogos = as_bool v }
    else if e == cfg_allowsu
    then record o { allow_root_execution = as_bool v }
    else if e == cfg_nohttps
    then record o { net_nohttps = as_bool v }
    else if e == cfg_timeout
    then record o { net_timeout = v.word }
    else if e == cfg_tundev
    then record o {
      tincifnet = some (kept if_dev_maxlen v.text);
      longest_cfg_entry = grow (length v.text) o.longest_cfg_entry;
    }
    else if e == cfg_proxy
    then record o {
      proxyaddr = some (kept proxy_maxlen v.text);
      longest_cfg_entry = grow (length v.text) o.longest_cfg_entry;
    }
    else if e == cfg_netrepo
    then record o {
      netrepo = some (kept netrepo_name_max v.text);
      longest_cfg_entry = grow (length v.text) o.longest_cfg_entry;
    }
    else o

module _ (v : Pointee) (w : World) where
  store_allowsu-options :
      (store_allowsu v w).1.options ≡ record w.options { allow_root_execution = as_bool v }
  unfolding store_allowsu
  store_allowsu-options = ground arith

  store_loglvl-options : (store_loglvl v w).1.options ≡ w.options
  unfolding store_loglvl
  store_loglvl-options = ground arith

  store_string-options :
      (max : ℕ) (format : String) (put : Option Bytes → Options → Options)
      → (store_string max format put v w).1.options ≡ (
          let o = put (some (kept max v.text)) w.options in
          record o { longest_cfg_entry = grow (length v.text) o.longest_cfg_entry })
  unfolding store_string
  store_string-options max format put = ground arith

  store_proxy-options : (store_proxy v w).1.options ≡ record w.options {
    proxyaddr = some (kept proxy_maxlen v.text);
    longest_cfg_entry = grow (length v.text) w.options.longest_cfg_entry;
  }
  unfolding store_proxy
  store_proxy-options = ground (
    arith,
    store_string-options proxy_maxlen "Invalid SOCKS5 Proxy '%s'"
        (λ s o. record o { proxyaddr = s }),
  )

  store_tundev-options : (store_tundev v w).1.options ≡ record w.options {
    tincifnet = some (kept if_dev_maxlen v.text);
    longest_cfg_entry = grow (length v.text) w.options.longest_cfg_entry;
  }
  unfolding store_tundev
  store_tundev-options = store_string-options if_dev_maxlen _ _

  store_netrepo-options : (store_netrepo v w).1.options ≡ record w.options {
    netrepo = some (kept netrepo_name_max v.text);
    longest_cfg_entry = grow (length v.text) w.options.longest_cfg_entry;
  }
  unfolding store_netrepo
  store_netrepo-options = store_string-options netrepo_name_max _ _

  eval_switch-options : (e : ℕ) → (eval_switch e v w).1.options ≡ put_entry e v w.options
  unfolding put_entry eval_switch store_timeout
  eval_switch-options e = ground (
    arith, store_allowsu-options, store_loglvl-options, store_proxy-options, store_tundev-options,
    store_netrepo-options,
  )

  store_string-code :
      (max : ℕ) (format : String) (put : Option Bytes → Options → Options)
      → (store_string max format put v w).0
        ≡ (kept max v.text, if leb (length v.text) max then exit_success else exit_failure)
  unfolding store_string
  store_string-code max format put = ground arith

  store_proxy-code :
      (store_proxy v w).0
      ≡ (if leb (length v.text) proxy_maxlen then exit_success else exit_failure)
  unfolding store_proxy
  store_proxy-code = ground (
    arith,
    store_string-code proxy_maxlen "Invalid SOCKS5 Proxy '%s'" (λ s o. record o { proxyaddr = s }),
  )

  store_tundev-code :
      (store_tundev v w).0
      ≡ (if leb (length v.text) if_dev_maxlen then exit_success else exit_failure)
  unfolding store_tundev
  store_tundev-code = ap (λ r. r.1) (store_string-code if_dev_maxlen _ _)

  store_netrepo-code :
      (store_netrepo v w).0
      ≡ (if leb (length v.text) netrepo_name_max then exit_success else exit_failure)
  unfolding store_netrepo
  store_netrepo-code = ap (λ r. r.1) (store_string-code netrepo_name_max _ _)

  store_loglvl-log : (store_loglvl v w).1.log ≡ (
      if ltb log_critical (as_uint v) || w.log.log_level_force_set
      then w.log
      else record w.log { log_level = as_uint v })
  unfolding store_loglvl
  store_loglvl-log = ground (arith, setloglvl_lem (as_uint v) w.log)

  store_loglvl-code : (store_loglvl v w).0 ≡ (
      if ltb log_critical (as_uint v) || w.log.log_level_force_set
      then exit_failure
      else exit_success)
  unfolding store_loglvl
  store_loglvl-code =
      ground (arith, setloglvl_lem (as_uint v) w.log, log_lvl_to_str-some (as_uint v))

  store_allowsu-code : (store_allowsu v w).0 ≡ exit_success
  unfolding store_allowsu
  store_allowsu-code = ground arith

-- Whether `config_evalentry` takes a value: a switch must be 0 or 1, the log level too and it must not
-- be locked, a string must keep its limit, and the timeout may be anything.
pub is_taken : ℕ → Pointee → Bool → Bool
is_taken e v locked =
    if ltb e cfg_nloglvl
    then leb v.word 1
    else if e == cfg_nloglvl
    then leb v.word 1 && not locked
    else if e == cfg_timeout
    then true
    else if e == cfg_tundev
    then leb (length v.text) if_dev_maxlen
    else if e == cfg_proxy
    then leb (length v.text) proxy_maxlen
    else if e == cfg_netrepo
    then leb (length v.text) netrepo_name_max
    else false

eval_switch-code :
    (e : ℕ) (v : Pointee) (w : World)
    → is_refused e v ≡ false
    → (eval_switch e v w).0
      ≡ (if is_taken e v w.log.log_level_force_set then exit_success else exit_failure)
unfolding eval_switch is_taken store_timeout
eval_switch-code e v w h = ground (
  arith,
  store_allowsu-code v w,
  store_loglvl-code v w,
  store_proxy-code v w,
  store_tundev-code v w,
  store_netrepo-code v w,
)

-- The options after a value, for every entry, value and state: they are unchanged if the check on
-- bool entries turns the value down, and otherwise the entry's own option is changed (with the
-- longest length, for a string).
pub config_evalentry-options :
    (e : ℕ) (v : Pointee) (w : World)
    → (config_evalentry e (some v) w).1.options
      ≡ (if is_refused e v then w.options else put_entry e v w.options)
unfolding config_evalentry
config_evalentry-options e v w = ground (arith, eval_switch-options v w e)

-- `config_evalentry` reports success exactly for the values that it takes.
pub config_evalentry-code :
    (e : ℕ) (v : Pointee) (w : World)
    → (config_evalentry e (some v) w).0
      ≡ (if is_taken e v w.log.log_level_force_set then exit_success else exit_failure)
unfolding config_evalentry
config_evalentry-code e v w = elim (Bool-cases (is_refused e v)) [
  | inl r ↦ rw r (unfold is_taken in ground arith)
  | inr t ↦ rw t (eval_switch-code e v w t)
]
