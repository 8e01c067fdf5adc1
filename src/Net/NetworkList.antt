-- ===== src/Net/NetworkList.antt =====
-- The linked list of networks of src/net/netops.c: `network_info_entry_add` and `network_info_final`
-- on the list that `nodecfg.network_info` begins.
pub mod Chain
pub mod Add
pub mod Final
use central_node.Common.{ℕ, zero, suc, ◌+◌, Option, none, some, [], ◌∷◌, ◌==◌, if◌then◌else◌}
use central_node.Common.Text.{Bytes}
use central_node.World.{malloc, num, str, World, gets, modify, ask, exit_success, exit_failure}
use central_node.World.Networks.{Network, Node, Heap, Ptr, Net, status_online}
use central_node.World.Faults.{Run, ◌>>=◌, ◌>>◌, call, return, undefined}
use central_node.Sys.Logging.{log_write, log_write_trace, log_debug, set_last_errno, current_addr}

-- `*p = cell`, and `free(p)` where the cell is `none`
pub write : Heap → Ptr → Option Node → Heap
write h p cell q = if q == p then cell else h q

-- The node that a pointer points at. A pointer that is not allocated has none.
unfoldable pub load : Ptr → Run Node
load p w = elim (w.net.cells p) [ some node ↦ return node w | none ↦ undefined w ]

abbrev store : Ptr → Option Node → Run (Unit {0})
store p cell =
    call (modify (λ w. record w { net = record w.net { cells = write w.net.cells p cell } }))

-- `while (*netinfo)`: the last node behind `last`, or `last` itself. On a list, as many rounds are
-- enough as addresses were given.
pub find_last : ℕ → Ptr → Ptr → Run Ptr
find_last zero last p = undefined
find_last (suc rounds) last p =
    if p == 0 then return last else do node ← load p; find_last rounds p node.next

-- `strdup`
pub strdup : Bytes → Run (Option Bytes)
strdup s = do refused ← call (ask malloc); return (if refused == 0 then some s else none)

-- The node at the end of the list, `network_info` itself for an empty one, is given the address.
pub link : Ptr → Ptr → Run (Unit {0})
link last p =
    if last == 0
    then call (modify (λ w. record w { net = record w.net { network_info = p } }))
    else do node ← load last; store last (some (record node { next = p }))

unfoldable pub new_network : ℕ → Option Bytes → Network
new_network net_local_id name = record {
  network_name = name;
  network_logo = none;
  net_local_id = net_local_id;
  net_uuid = 0;
  network_status = status_online;
}

-- `malloc(sizeof(network_info_st))`: the node is not written yet. `NULL` is 0.
pub alloc_node : Run Ptr
alloc_node = do
  refused ← call (ask malloc)
  if refused == 0
      then (do
        p ← call (gets (λ w. w.net.fresh))
        call (modify (λ w. record w { net = record w.net { fresh = p + 1 } }))
        return p)
      else return 0

-- `network_info_entry_add(&nodecfg.network_info, net_local_id, network_name)`: neither pointer is
-- `NULL`, since the one caller passes the address of the field and of an array.
pub network_info_entry_add : ℕ → Bytes → Run ℕ
network_info_entry_add net_local_id network_name = do
  start ← call (gets (λ w. w.net.network_info))
  rounds ← call (gets (λ w. suc w.net.fresh))
  last ← find_last rounds 0 start
  p ← alloc_node
  if p == 0
      then (do
        link last 0
        call (set_last_errno current_addr "Unable to allocate memory:")
        call (log_write_trace "network_info_entry_add" "*netinfo")
        return exit_failure)
      else do
        name ← strdup network_name
        store p (some (record { info = new_network net_local_id name; next = 0 }))
        link last p
        return exit_success

-- The loop of `network_info_final`.
pub free_all : ℕ → Run (Unit {0})
free_all zero = undefined
free_all (suc rounds) = do
  p ← call (gets (λ w. w.net.network_info))
  if p == 0 then return tt else do
    node ← load p
    call (
        log_write log_debug "Freeing memory for network ID: %hu ['%s']"
          (num node.info.net_local_id ∷ str node.info.network_name ∷ []))
    call (modify (λ w. record w { net = record w.net { network_info = node.next } }))
    store p none
    free_all rounds

pub network_info_final : Run (Unit {0})
network_info_final = do rounds ← call (gets (λ w. suc w.net.fresh)); free_all rounds
