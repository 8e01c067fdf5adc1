-- ===== src/Sys/Config/Eval/Bounds.antt =====
-- Bounds on what `config_evalentry` stores, and what becomes of the log level.
use central_node.Common.{
  ℕ, ◌+◌, ◌%◌, ◌/◌, ◌≤◌, ◌<◌, ◌≡◌, Option, none, some, arith, length, Bool-cases, inl, inr,
}
use central_node.Common.Text.{Bytes, u64}
use central_node.World.{Options, World, exit_failure}
use central_node.Data.Bounds.{rtonm-IsLeastMultiple}
use central_node.Sys.Config.Entry.{cfg_nloglvl, cfg_arg_max}
use central_node.Sys.Config.Eval.{
  Pointee, config_evalentry, grow, if_dev_maxlen, proxy_maxlen, netrepo_name_max,
}
use central_node.Sys.Config.Eval.Switches.{is_refused, put_entry, kept, config_evalentry-options}

-- What is proved of the longest length: it is a multiple of 8 within a bound.
abbrev longest_bound : ℕ
longest_bound = 256

-- A string is absent, or within its own limit and the longest length.
abbrev FitsIn : Option Bytes → ℕ → ℕ → Type 0
FitsIn none max longest = Unit {0}
FitsIn (some s) max longest = (length s ≤ max) × (length s ≤ longest)

-- Every stored string is within its limit and within `longest_cfg_entry`, by which the menu's buffers
-- are sized.
pub record IsFitting (o : Options) : Type 0 where
  pub tun : FitsIn o.tincifnet if_dev_maxlen o.longest_cfg_entry
  pub proxy : FitsIn o.proxyaddr proxy_maxlen o.longest_cfg_entry
  pub repo : FitsIn o.netrepo netrepo_name_max o.longest_cfg_entry
  pub longest : o.longest_cfg_entry ≤ longest_bound
  pub multiple : o.longest_cfg_entry % 8 ≡ 0

-- After a string shorter than a configuration line, the longest length covers it and the old one, and
-- is still a multiple of 8 within the bound.
grow_lem :
    (slen longest : ℕ)
    → slen < cfg_arg_max
    → longest ≤ longest_bound
    → longest % 8 ≡ 0
    → (slen ≤ grow slen longest)
      × (longest ≤ grow slen longest)
      × (grow slen longest ≤ longest_bound)
      × (grow slen longest % 8 ≡ 0)
unfolding grow
grow_lem slen longest short bound mult =
    let up = rtonm-IsLeastMultiple ((slen + longest) % u64) 8 (omega arith) (omega arith) in
    ground (arith, up.multiple, up.above, up.least ((slen + longest) / 8 + 1))

FitsIn-mono :
    (s : Option Bytes) (max longest longest' : ℕ)
    → FitsIn s max longest
    → longest ≤ longest'
    → FitsIn s max longest'
FitsIn-mono none max longest longest' f h = tt
FitsIn-mono (some s) max longest longest' f h = omega arith

kept-FitsIn :
    (s : Bytes) (max longest : ℕ)
    → 5 ≤ max
    → length s ≤ longest
    → FitsIn (some (kept max s)) max longest
kept-FitsIn s max longest small h = ground arith

module _ (v : Pointee) {o : Options} (short : length v.text < cfg_arg_max) (f : IsFitting o) where
  put_entry-IsFitting : (e : ℕ) → IsFitting (put_entry e v o)
  unfolding put_entry
  put_entry-IsFitting e =
      let (long, more, bound, mult) =
        grow_lem (length v.text) o.longest_cfg_entry short f.longest f.multiple in
      let next = grow (length v.text) o.longest_cfg_entry in
      ground (
        arith,
        long,
        more,
        bound,
        mult,
        FitsIn-mono o.tincifnet if_dev_maxlen o.longest_cfg_entry next f.tun more,
        FitsIn-mono o.proxyaddr proxy_maxlen o.longest_cfg_entry next f.proxy more,
        FitsIn-mono o.netrepo netrepo_name_max o.longest_cfg_entry next f.repo more,
        kept-FitsIn v.text if_dev_maxlen next (omega arith) long,
        kept-FitsIn v.text proxy_maxlen next (omega arith) long,
        kept-FitsIn v.text netrepo_name_max next (omega arith) long,
      )

-- Whatever the entry, for a value whose text is shorter than a configuration line: if the stored
-- strings are within their limits and within `longest_cfg_entry`, and that is a multiple of 8 up to
-- 256, then the same holds after `config_evalentry`, whatever becomes of the log.
pub config_evalentry-IsFitting :
    (e : ℕ) (v : Pointee) (w : World)
    → length v.text < cfg_arg_max
    → IsFitting w.options
    → IsFitting (config_evalentry e (some v) w).1.options
config_evalentry-IsFitting e v w short f =
    rw (config_evalentry-options e v w) (elim (Bool-cases (is_refused e v)) [
      | inl r ↦ rw r f
      | inr t ↦ rw t (put_entry-IsFitting v short f e)
    ])

-- A log level from 2 on is turned down by `config_evalentry` with EXIT_FAILURE, in every state, and
-- the settings of the log stay as they were.
config_evalentry-loglvl :
    (v : Pointee) (w : World)
    → 2 ≤ v.word
    → ((config_evalentry cfg_nloglvl (some v) w).0 ≡ exit_failure)
      × ((config_evalentry cfg_nloglvl (some v) w).1.log ≡ w.log)
unfolding config_evalentry
config_evalentry-loglvl v w h = ground arith
