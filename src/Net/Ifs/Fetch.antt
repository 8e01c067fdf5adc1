-- ===== src/Net/Ifs/Fetch.antt =====
-- The interfaces that `if_get_ifnet_names` keeps.
use central_node.Common.{
  ℕ, zero, suc, ◌+◌, ◌≡◌, refl, sym, ap, ◌∙◌, Bool, true, false, Option, none, some, List, [], ◌∷◌,
  ◌++◌, take, arith, ◌==◌,
}
use central_node.Common.Text.{Bytes}
use central_node.World.{World, Os, answer, socket, ioctl, if_nameindex, exit_success}
use central_node.World.Keeps.{KeepsProgram}
use central_node.World.Networks.{Ifnet, Net}
use central_node.World.Faults.{Returns, Returns-and_then, Returns-mono, ◌>>=◌}
use central_node.Sys.Sysctl.Granted.{GrantsAll, asked_once}
use central_node.Net.Curl.Deliver.{append_assoc, append_nil}
use central_node.Net.Ifs.{
  net_ifnet_nmax, if_namesize, if_get_ifnet_ipaddr, copy_name, read_interface, read_interfaces,
  if_get_ifnet_names,
}

-- The record of an interface.
abbrev ifnet_of : Os → Bytes → Ifnet
ifnet_of os if_name =
    let name = take if_namesize if_name in
    record {
      if_name = name;
      if_addr = take if_namesize (os.ipaddr name false);
      if_mask = take if_namesize (os.ipaddr name true);
    }

-- The records of the interfaces up to the first entry without a number or a name.
abbrev described : Os → List (ℕ × Option Bytes) → List Ifnet
described os [] = []
described os ((zero, name) ∷ intf) = []
described os ((suc i, none) ∷ intf) = []
described os ((suc i, some name) ∷ intf) = ifnet_of os name ∷ described os intf

if_get_ifnet_ipaddr-granted :
    (name : Bytes) (flag : Bool) (w : World)
    → GrantsAll w.os
    → if_get_ifnet_ipaddr name flag w
      ≡ some (some (w.os.ipaddr name flag), asked_once (asked_once w))
unfolding if_get_ifnet_ipaddr answer
if_get_ifnet_ipaddr-granted name flag w grants =
    rw (grants w.io.calls socket, grants (w.io.calls + 1) ioctl) refl

abbrev asked_twice : World → World
asked_twice w = asked_once (asked_once w)

read_interface-granted :
    (if_name : Bytes) (w : World)
    → GrantsAll w.os
    → read_interface if_name w
      ≡ some (some (ifnet_of w.os if_name), asked_twice (asked_twice (asked_twice (asked_twice w))))
unfolding read_interface copy_name
read_interface-granted if_name w grants =
    let name = take if_namesize if_name in
    let w2 = asked_twice w in
    let w4 = asked_twice w2 in
    rw
      (
        read_interface,
        ◌>>=◌,
        if_get_ifnet_ipaddr-granted name false w grants,
        if_get_ifnet_ipaddr-granted name true w2 grants,
        if_get_ifnet_ipaddr-granted name false w4 grants,
        if_get_ifnet_ipaddr-granted name true (asked_twice w4) grants,
      )
      refl

Reads : World → List Ifnet → List Ifnet → World → Type 0
Reads w expected found w' = (found ≡ expected) × KeepsProgram w w'

read_interfaces-Reads :
    (rounds : ℕ) (intf : List (ℕ × Option Bytes)) (found : List Ifnet) (w : World)
    → GrantsAll w.os
    → Returns
        (Reads w (found ++ take rounds (described w.os intf)))
        (read_interfaces rounds intf found w)
unfolding read_interfaces Reads
read_interfaces-Reads zero intf found w grants =
    (sym (append_nil found), (refl, refl, refl, refl, refl, refl))
read_interfaces-Reads (suc rounds) [] found w grants =
    (sym (append_nil found), (refl, refl, refl, refl, refl, refl))
read_interfaces-Reads (suc rounds) ((zero, none) ∷ intf) found w grants =
    (sym (append_nil found), (refl, refl, refl, refl, refl, refl))
read_interfaces-Reads (suc rounds) ((suc i, none) ∷ intf) found w grants =
    (sym (append_nil found), (refl, refl, refl, refl, refl, refl))
read_interfaces-Reads (suc rounds) ((zero, some name) ∷ intf) found w grants =
    (sym (append_nil found), (refl, refl, refl, refl, refl, refl))
read_interfaces-Reads (suc rounds) ((suc i, some name) ∷ intf) found w grants =
    let w1 = asked_twice (asked_twice (asked_twice (asked_twice w))) in
    let ifnet = ifnet_of w.os name in
    let numbered : (suc i == 0) ≡ false = ground arith in
    let later = take rounds (described w.os intf) in
    rw (read_interfaces, numbered, ◌>>=◌, read_interface-granted name w grants)
      (Returns-mono (Reads w1 ((found ++ ifnet ∷ []) ++ later)) (Reads w (found ++ ifnet ∷ later))
        (read_interfaces rounds intf (found ++ ifnet ∷ []) w1)
        (λ all w2 (same, keeps). (same ∙ append_assoc found (ifnet ∷ []) later, keeps))
        (read_interfaces-Reads rounds intf (found ++ ifnet ∷ []) w1 grants))

-- The interfaces that the system lists are kept, 32 at most, and nothing else of the program changes.
abbrev pub Lists : World → ℕ → World → Type 0
Lists w code w' =
    (code ≡ exit_success)
    × (w'.net
        ≡ record w.net { ifnets = some (take net_ifnet_nmax (described w.os w.os.interfaces)) })
    × (w'.os ≡ w.os)
    × (w'.options ≡ w.options)
    × (w'.startup ≡ w.startup)
    × (w'.screen ≡ w.screen)
    × (w'.log ≡ w.log)

-- Where the system grants every request, `if_get_ifnet_names` is defined and reports EXIT_SUCCESS, and
-- the interfaces that are kept are the records of the first 32 that the system lists, in its order: the
-- name, the address and the netmask of each, cut to 16 bytes. The list ends at the first entry
-- without a number or a name. The rest of the network state, the options, the start-up switches, the
-- terminal and the log settings stay.
pub if_get_ifnet_names-Lists :
    (w : World) → GrantsAll w.os → Returns (Lists w) (if_get_ifnet_names w)
unfolding if_get_ifnet_names answer Reads
if_get_ifnet_names-Lists w grants =
    let w1 = asked_once w in
    rw (if_get_ifnet_names, ◌>>=◌, grants w.io.calls if_nameindex)
      (Returns-and_then (Reads w1 (take net_ifnet_nmax (described w.os w.os.interfaces))) (Lists w)
        (read_interfaces net_ifnet_nmax w.os.interfaces [] w1) _
        (read_interfaces-Reads net_ifnet_nmax w.os.interfaces [] w1 grants)
        (λ found w2 (same, (os, options, startup, screen, net, log)). (
          refl,
          ap {A = Net} (λ n. record n { ifnets = some found }) net
              ∙ ap {B = Net} (λ f. record w.net { ifnets = some f }) same,
          os,
          options,
          startup,
          screen,
          log,
        )))
