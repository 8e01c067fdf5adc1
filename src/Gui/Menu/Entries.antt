-- ===== src/Gui/Menu/Entries.antt =====
-- The entries of the menus that are made at the start: `menu_config_formatentries` and
-- `menu_entries_load_networks`.
mod Runs
pub mod Granted
use central_node.Common.{
  ℕ, zero, suc, ◌+◌, ◌-◌, ◌^◌, Bool, true, false, Option, none, some, List, [], ◌∷◌, ◌++◌, ltb,
  ◌==◌, if◌then◌else◌,
}
use central_node.Common.Text.{Bytes, codes, show, snprintf, u64}
use central_node.World.{malloc, num, World, M, pure, gets, ask, Options}
use central_node.World.Networks.{Ptr, Node}
use central_node.World.Faults.{Run, ◌>>=◌, ◌>>◌, call, return, undefined}
use central_node.Sys.Logging.{log_write, log_write_trace, log_debug, set_last_errno, current_addr}
use central_node.Sys.Config.Entry.{
  cfg_nentries, cfg_fmt_machine, config_entry_to_str, cfg_autofix, cfg_godmode, cfg_nwdmode,
  cfg_netlogo, cfg_allowsu, cfg_nohttps, cfg_nloglvl, cfg_timeout, cfg_tundev, cfg_proxy,
  cfg_netrepo,
}
use central_node.Net.NetworkList.{load}

abbrev pub cfg_entryfmt_maxlen : ℕ
cfg_entryfmt_maxlen = 12

-- `%ld` of a 64-bit pattern
unfoldable show_long : ℕ → Bytes
show_long n = if ltb n (2 ^ 63) then show n else b'-' ∷ show (u64 - n)

-- `%d` of a bool
abbrev show_bool : Bool → Bytes
show_bool b = if b then b'1' ∷ [] else b'0' ∷ []

-- Every entry below CFG_NENTRIES has a name.
abbrev machine_name : ℕ → Bytes
machine_name i = elim (config_entry_to_str i cfg_fmt_machine) [ some name ↦ name | none ↦ [] ]

unfoldable pub format_entry : ℕ → ℕ → Bytes → Bytes
format_entry longest_cfg_entry i value =
    snprintf (longest_cfg_entry + cfg_entryfmt_maxlen)
      (machine_name i ++ codes " = \"" ++ value ++ codes "\"")

-- `%s` with `NULL` is undefined.
text_of : Option Bytes → Run Bytes
text_of none = undefined
text_of (some s) = return s

-- The loop that allocates the entries, by the rounds that are left.
allocate_entries : ℕ → ℕ → Run Bool
allocate_entries zero i = return true
allocate_entries (suc rounds) i = do
  refused ← call (ask malloc)
  if refused == 0 then allocate_entries rounds (i + 1) else do
    call (set_last_errno current_addr "Unable to allocate memory:")
    call (log_write log_debug "Erroneous index: %d" (num i ∷ []))
    call (log_write_trace "menu_config_formatentries()" "menu_config_entries[%d]")
    return false

-- The entries, or none for EXIT_FAILURE. The pointer is never `NULL`: the one caller passes an array.
pub menu_config_formatentries : Run (Option (List Bytes))
menu_config_formatentries = do
  allocated ← allocate_entries cfg_nentries 0
  if allocated
      then (do
        o ← call (gets (λ w. w.options))
        log ← call (gets (λ w. w.log))
        tincifnet ← text_of o.tincifnet
        proxyaddr ← text_of o.proxyaddr
        netrepo ← text_of o.netrepo
        let entry : ℕ → Bytes → Bytes = λ i value. format_entry o.longest_cfg_entry i value
        return (
            some (
              entry cfg_autofix (show_bool o.autofix)
              ∷ entry cfg_godmode (show_bool o.godmode)
              ∷ entry cfg_nwdmode (show_bool o.nodewd_required)
              ∷ entry cfg_netlogo (show_bool o.netlogos)
              ∷ entry cfg_allowsu (show_bool o.allow_root_execution)
              ∷ entry cfg_nohttps (show_bool o.net_nohttps)
              ∷ entry cfg_nloglvl (show log.log_level)
              ∷ entry cfg_timeout (show_long o.net_timeout)
              ∷ entry cfg_tundev tincifnet
              ∷ entry cfg_proxy proxyaddr
              ∷ entry cfg_netrepo netrepo
              ∷ [])))
      else return none

-- The loop over the list of networks. At a network without a name it never goes on, and so has no
-- result. On a list, as many rounds are enough as addresses were given.
pub load_names : ℕ → Ptr → Run (List Bytes)
load_names zero p = undefined
load_names (suc rounds) p = if p == 0 then return [] else do
  node ← load p
  elim node.info.network_name [
    | none ↦ undefined
    | some name ↦ (do
      refused ← call (ask malloc)
      if refused == 0 then (do rest ← load_names rounds node.next; return (name ∷ rest)) else do
        call (set_last_errno current_addr "Unable to reallocate memory:")
        call (log_write_trace "menu_entries_load()" "realloc_menu_entries")
        return [])
  ]

-- The pointer to the count is never `NULL`, and the count is the length of the list.
pub menu_entries_load_networks : Run (List Bytes)
menu_entries_load_networks = do
  start ← call (gets (λ w. w.net.network_info))
  rounds ← call (gets (λ w. suc w.net.fresh))
  load_names rounds start
