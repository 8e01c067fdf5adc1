-- ===== src/Net/Ifs.antt =====
-- src/net/ifs.c: the interfaces of the system. Its calls are parameters: a list of interfaces, up to the
-- entry that ends it, and their addresses as text.
pub mod Fetch
use central_node.Common.{
  ℕ, zero, suc, ◌+◌, Bool, true, false, Option, none, some, List, [], ◌∷◌, ◌++◌, ◌&&◌, not, ◌==◌,
  if◌then◌else◌, take, is_some,
}
use central_node.Common.Text.{Bytes}
use central_node.World.{
  socket, ioctl, if_nameindex, at, World, M, pure, gets, modify, ask, exit_success, exit_failure,
}
use central_node.World.Networks.{Ifnet, Net}
use central_node.World.Faults.{Run, call, return, undefined, and_then, ◌>>=◌, ◌>>◌}
use central_node.Sys.Logging.{log_write_trace, set_last_err, set_last_errno, current_addr, enullptr}
use central_node.Sys.Sysctl.{file_exists}

abbrev pub net_ifnet_nmax : ℕ
net_ifnet_nmax = 32

-- IF_NAMESIZE of net/if.h, which is not under src/
abbrev pub if_namesize : ℕ
if_namesize = 16

abbrev if_check_ifnet : Option Bytes → M Bool
if_check_ifnet ifnet = file_exists (elim ifnet [ none ↦ none | some path ↦ some (at (some path)) ])

-- The flag is whether the netmask is asked for. The name is never `NULL`: the callers pass an array.
pub if_get_ifnet_ipaddr : Bytes → Bool → Run (Option Bytes)
if_get_ifnet_ipaddr if_name if_flag = do
  fd ← call (ask socket)
  if fd == 0
      then (do
        ioctl_ret ← call (ask ioctl)
        if ioctl_ret == 0
            then (do os ← call (gets (λ w. w.os)); return (some (os.ipaddr if_name if_flag)))
            else do
              call (set_last_errno current_addr "I/O control operation failed:")
              call (log_write_trace "get_ifnet_ipaddr()" "ioctl()")
              return none)
      else do
        call (set_last_errno current_addr "Unable to open socket:")
        call (log_write_trace "get_ifnet_ipaddr()" "socket()")
        return none

-- `strncpy(…, IF_NAMESIZE)` to an array of the struct, which must not come from `NULL`. Names and
-- addresses are shorter, as the system documents.
copy_name : Option Bytes → Run Bytes
copy_name none = undefined
copy_name (some s) = return (take if_namesize s)

-- One round on an interface: its record, or none where an address is not found. Both addresses are
-- asked for a second time.
pub read_interface : Bytes → Run (Option Ifnet)
read_interface intf_name = do
  let name = take if_namesize intf_name
  if_net_addr ← if_get_ifnet_ipaddr name false
  if_net_mask ← if_get_ifnet_ipaddr name true
  if is_some if_net_addr && is_some if_net_mask
      then (do
        if_addr ← if_get_ifnet_ipaddr name false
        addr ← copy_name if_addr
        if_mask ← if_get_ifnet_ipaddr name true
        mask ← copy_name if_mask
        return (some (record { if_name = name; if_addr = addr; if_mask = mask })))
      else return none

-- The loop, by the rounds that are left, over the interfaces from `intf` on. An interface without an
-- address is tried again in the next round.
pub read_interfaces : ℕ → List (ℕ × Option Bytes) → List Ifnet → Run (List Ifnet)
read_interfaces zero intf found = return found
read_interfaces (suc rounds) [] found = return found
read_interfaces (suc rounds) ((if_index, none) ∷ intf) found = return found
read_interfaces (suc rounds) ((if_index, some if_name) ∷ intf) found =
    let again = read_interfaces rounds ((if_index, some if_name) ∷ intf) found in
    if if_index == 0 then return found else do
      read ← read_interface if_name
      elim read [ none ↦ again | some ifnet ↦ read_interfaces rounds intf (found ++ ifnet ∷ []) ]

-- The struct is never `NULL`: `main` passes its address, which `nodecfg.pifnets` keeps.
pub if_get_ifnet_names : Run ℕ
if_get_ifnet_names = do
  if_nidxs ← call (ask if_nameindex)
  if if_nidxs == 0
      then (do
        os ← call (gets (λ w. w.os))
        ifnets ← read_interfaces net_ifnet_nmax os.interfaces []
        call (modify (λ w. record w { net = record w.net { ifnets = some ifnets } }))
        return exit_success)
      else do
        call (set_last_errno current_addr "Unable to retrieve network interfaces:")
        call (log_write_trace "get_ifnet_names()" "if_nameindex()")
        return exit_failure
