-- ===== src/Sys/Config/Eval/Same.antt =====
-- What `config_evalentry` leaves alone.
use central_node.Common.{ℕ, ◌≡◌, Option, some, arith, String}
use central_node.Common.Text.{Bytes}
use central_node.World.{Options, World}
use central_node.World.Keeps.{rest_of}
use central_node.Sys.Config.Eval.{
  Pointee, config_evalentry, eval_switch, store_allowsu, store_loglvl, store_timeout, store_tundev,
  store_proxy, store_netrepo, store_string, if_dev_maxlen, proxy_maxlen, netrepo_name_max,
}

-- What an evaluation leaves alone: the system, the files, the process, the start-up
-- switches, the networks and the terminal.
abbrev pub SameElsewhere : World → World → Type 0
SameElsewhere w w' =
    (w'.os ≡ w.os) × (w'.disk ≡ w.disk) × (w'.process ≡ w.process) × (rest_of w' ≡ rest_of w)

module _ (v : Pointee) (w : World) where
  store_allowsu-same : SameElsewhere w (store_allowsu v w).1
  unfolding store_allowsu
  store_allowsu-same = ground arith

  store_loglvl-same : SameElsewhere w (store_loglvl v w).1
  unfolding store_loglvl
  store_loglvl-same = ground arith

  store_string-same :
      (max : ℕ) (format : String) (put : Option Bytes → Options → Options)
      → SameElsewhere w (store_string max format put v w).1
  unfolding store_string
  store_string-same max format put = ground arith

  store_proxy-same : SameElsewhere w (store_proxy v w).1
  unfolding store_proxy
  store_proxy-same = ground (
    arith,
    store_string-same proxy_maxlen "Invalid SOCKS5 Proxy '%s'" (λ s o. record o { proxyaddr = s }),
  )

  store_tundev-same : SameElsewhere w (store_tundev v w).1
  unfolding store_tundev
  store_tundev-same = store_string-same if_dev_maxlen _ _

  store_netrepo-same : SameElsewhere w (store_netrepo v w).1
  unfolding store_netrepo
  store_netrepo-same = store_string-same netrepo_name_max _ _

eval_switch-same : (e : ℕ) (v : Pointee) (w : World) → SameElsewhere w (eval_switch e v w).1
unfolding eval_switch store_timeout
eval_switch-same e v w = ground (
  arith,
  store_allowsu-same v w,
  store_loglvl-same v w,
  store_proxy-same v w,
  store_tundev-same v w,
  store_netrepo-same v w,
)

pub config_evalentry-same :
    (e : ℕ) (v : Pointee) (w : World) → SameElsewhere w (config_evalentry e (some v) w).1
unfolding config_evalentry
config_evalentry-same e v w = ground (arith, eval_switch-same e v w)
