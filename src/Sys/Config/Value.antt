-- ===== src/Sys/Config/Value.antt =====
-- `config_get_value` of src/sys/config.c: the pointer to an option, as what it points at.
use central_node.Common.{ℕ, ◌≤◌, ◌<◌, ◌≡◌, Bool, Option, none, some, arith, ◌==◌, if◌then◌else◌}
use central_node.Common.Text.{Bytes}
use central_node.World.{World}
use central_node.Sys.Config.Entry.{
  cfg_autofix, cfg_godmode, cfg_nwdmode, cfg_netlogo, cfg_allowsu, cfg_nohttps, cfg_nloglvl,
  cfg_timeout, cfg_tundev, cfg_proxy, cfg_netrepo,
}
use central_node.Sys.Config.Eval.{Pointee, config_evalentry, as_bool}
use central_node.Sys.Config.Eval.Switches.{put_entry, config_evalentry-options}

-- A field of the struct, by its type.
pub data Field : Type 0 where
  flag : Bool → Field
  number : ℕ → Field
  string : Option Bytes → Field

pub config_get_value : ℕ → World → Option Field
config_get_value cfg_entry w =
    if cfg_entry == cfg_autofix
    then some (flag w.options.autofix)
    else if cfg_entry == cfg_godmode
    then some (flag w.options.godmode)
    else if cfg_entry == cfg_nwdmode
    then some (flag w.options.nodewd_required)
    else if cfg_entry == cfg_netlogo
    then some (flag w.options.netlogos)
    else if cfg_entry == cfg_allowsu
    then some (flag w.options.allow_root_execution)
    else if cfg_entry == cfg_nohttps
    then some (flag w.options.net_nohttps)
    else if cfg_entry == cfg_nloglvl
    then some (number w.log.log_level)
    else if cfg_entry == cfg_timeout
    then some (number w.options.net_timeout)
    else if cfg_entry == cfg_tundev
    then some (string w.options.tincifnet)
    else if cfg_entry == cfg_proxy
    then some (string w.options.proxyaddr)
    else if cfg_entry == cfg_netrepo
    then some (string w.options.netrepo)
    else none

-- After `config_evalentry` is given 0 or 1 for a switch, in any state, `config_get_value` finds that
-- value, and after any number for the timeout it finds that number.
pub config_get_value-evalentry :
    (e : ℕ) (v t : Pointee) (w : World)
    → e < cfg_nloglvl
    → v.word ≤ 1
    → (config_get_value e (config_evalentry e (some v) w).1 ≡ some (flag (as_bool v)))
      × (config_get_value cfg_timeout (config_evalentry cfg_timeout (some t) w).1
          ≡ some (number t.word))
unfolding config_get_value put_entry
config_get_value-evalentry e v t w h k =
    ground (arith, config_evalentry-options e v w, config_evalentry-options cfg_timeout t w)
