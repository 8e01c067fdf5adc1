-- ===== src/Sys/Config/Entry.antt =====
-- The configuration entries of src/sys/config.h and their names: `config_entry_to_str` and
-- `config_str_to_entry` of src/sys/config.c.
pub mod RoundTrip
use central_node.Common.{
  ℕ, zero, suc, ◌+◌, Option, none, some, String, Bool, false, ◌==◌, if◌then◌else◌,
}
use central_node.Common.Text.{Bytes, codes, strncmp_eq}

abbrev pub cfg_arg_max : ℕ
cfg_arg_max = 127

abbrev pub cfg_autofix : ℕ
cfg_autofix = 0

abbrev pub cfg_godmode : ℕ
cfg_godmode = 1

abbrev pub cfg_nwdmode : ℕ
cfg_nwdmode = 2

abbrev pub cfg_netlogo : ℕ
cfg_netlogo = 3

abbrev pub cfg_allowsu : ℕ
cfg_allowsu = 4

abbrev pub cfg_nohttps : ℕ
cfg_nohttps = 5

abbrev pub cfg_nloglvl : ℕ
cfg_nloglvl = 6

abbrev pub cfg_timeout : ℕ
cfg_timeout = 7

abbrev pub cfg_tundev : ℕ
cfg_tundev = 8

abbrev pub cfg_proxy : ℕ
cfg_proxy = 9

abbrev pub cfg_netrepo : ℕ
cfg_netrepo = 10

-- CFG_NULL: no entry
abbrev pub cfg_null : ℕ
cfg_null = 0xff

abbrev pub cfg_nentries : ℕ
cfg_nentries = 11

abbrev pub cfg_fmt_machine : ℕ
cfg_fmt_machine = 0

abbrev pub cfg_fmt_readable : ℕ
cfg_fmt_readable = 1

abbrev pick : ℕ → String → String → Option Bytes
pick hread readable machine = some (if hread == 1 then codes readable else codes machine)

-- The name of an entry, for a reader (`hread` is 1) or as the file spells it. `NULL` is none.
unfoldable pub config_entry_to_str : ℕ → ℕ → Option Bytes
config_entry_to_str cfg_entry hread =
    if cfg_entry == cfg_autofix
    then pick hread "AutoFix" "AUTOFIX"
    else if cfg_entry == cfg_godmode
    then pick hread "GodMode" "GODMODE"
    else if cfg_entry == cfg_nwdmode
    then pick hread "nodeWD strict mode" "NWDMODE"
    else if cfg_entry == cfg_netlogo
    then pick hread "NetLogos" "NETLOGO"
    else if cfg_entry == cfg_nloglvl
    then pick hread "LogLevel" "NLOGLVL"
    else if cfg_entry == cfg_nohttps
    then pick hread "No-HTTPS" "NOHTTPS"
    else if cfg_entry == cfg_timeout
    then pick hread "Timeout" "TIMEOUT"
    else if cfg_entry == cfg_allowsu
    then pick hread "non-setuid root execution" "ALLOWSU"
    else if cfg_entry == cfg_tundev
    then pick hread "TUN interface" "NTUNDEV"
    else if cfg_entry == cfg_proxy
    then pick hread "Socks5 Proxy" "S5PROXY"
    else if cfg_entry == cfg_netrepo
    then pick hread "Network Repository" "NETREPO"
    else none

-- `strncmp(text, name, n) == 0`. The loops over the entries meet no `NULL` name.
abbrev pub matches : Bytes → Option Bytes → ℕ → Bool
matches text none n = false
matches text (some name) n = strncmp_eq text name n

-- The first entry from `i` on, of the `rounds` that are left, whose name is the text's first `n`
-- bytes; CFG_NULL if there is none.
unfoldable pub find_entry : Bytes → ℕ → ℕ → ℕ → ℕ
find_entry text n zero i = cfg_null
find_entry text n (suc rounds) i =
    let later = find_entry text n rounds (i + 1) in
    if matches text (config_entry_to_str i cfg_fmt_machine) n then i else later

unfoldable pub config_str_to_entry : Bytes → ℕ
unfolding find_entry
config_str_to_entry cfg_entry = find_entry cfg_entry cfg_arg_max cfg_nentries 0
