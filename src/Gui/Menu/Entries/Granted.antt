-- ===== src/Gui/Menu/Entries/Granted.antt =====
-- The entries on a system that grants every request.
use central_node.Common.{
  ℕ, zero, suc, ◌+◌, ◌<◌, ◌≡◌, refl, ap, ◌∙◌, Bool, true, false, Option, some, is_some, List, [],
  ◌∷◌, arith, ◌==◌, length,
}
use central_node.Common.Text.{Bytes}
use central_node.World.{World, answer, malloc}
use central_node.World.Networks.{Network, Node, Ptr}
use central_node.World.Faults.{Returns, Returns-and_then, ◌>>=◌}
use central_node.World.Keeps.{KeepsProgram}
use central_node.Sys.Sysctl.Granted.{GrantsAll, asked_once}
use central_node.Sys.Config.Entry.{cfg_nentries}
use central_node.Net.NetworkList.Chain.{Chain, nil, cons, length-Chain, load-here}
use central_node.Gui.Menu.Entries.{
  text_of, allocate_entries, load_names, menu_config_formatentries, menu_entries_load_networks,
}

-- The names of networks, each of which has one.
abbrev pub Named : List Network → List Bytes → Type 0
Named [] [] = Unit
Named [] (name ∷ names) = ⊥
Named (x ∷ xs) [] = ⊥
Named (x ∷ xs) (name ∷ names) = (x.network_name ≡ some name) × Named xs names

Allocates : World → Bool → World → Type 0
Allocates w allocated w' = (allocated ≡ true) × KeepsProgram w w'

allocate_entries-Allocates :
    (rounds i : ℕ) (w : World)
    → GrantsAll w.os
    → Returns (Allocates w) (allocate_entries rounds i w)
unfolding allocate_entries Allocates answer
allocate_entries-Allocates zero i w grants = (refl, (refl, refl, refl, refl, refl, refl))
allocate_entries-Allocates (suc rounds) i w grants =
    rw (allocate_entries, ◌>>=◌, grants w.io.calls malloc)
      (allocate_entries-Allocates rounds (i + 1) (asked_once w) grants)

abbrev pub Formats : World → Option (List Bytes) → World → Type 0
Formats w formatted w' = (is_some formatted ≡ true) × KeepsProgram w w'

text_of-some :
    (text : Option Bytes) (s : Bytes) (w : World) → text ≡ some s → text_of text w ≡ some (s, w)
unfolding text_of
text_of-some text s w there = rw there refl

pub menu_config_formatentries-Formats :
    (tincifnet proxyaddr netrepo : Bytes) (w : World)
    → GrantsAll w.os
    → w.options.tincifnet ≡ some tincifnet
    → w.options.proxyaddr ≡ some proxyaddr
    → w.options.netrepo ≡ some netrepo
    → Returns (Formats w) (menu_config_formatentries w)
unfolding menu_config_formatentries Allocates
menu_config_formatentries-Formats tincifnet proxyaddr netrepo w grants device proxied repo =
    Returns-and_then (Allocates w) (Formats w) (allocate_entries cfg_nentries 0 w) _
      (allocate_entries-Allocates cfg_nentries 0 w grants)
      (λ allocated w' (done, keeps).
        rw
          (
            done,
            ◌>>=◌,
            text_of-some w'.options.tincifnet tincifnet w' (ap (λ o. o.tincifnet) keeps.1 ∙ device),
            text_of-some w'.options.proxyaddr proxyaddr w'
                (ap (λ o. o.proxyaddr) keeps.1 ∙ proxied),
            text_of-some w'.options.netrepo netrepo w' (ap (λ o. o.netrepo) keeps.1 ∙ repo),
          )
          (refl, keeps))

abbrev pub Loads : World → List Bytes → List Bytes → World → Type 0
Loads w expected names w' = (names ≡ expected) × KeepsProgram w w'

load_names-Loads :
    {top lo p : Ptr} (rounds : ℕ) (xs : List Network) (names : List Bytes) (w : World)
    → GrantsAll w.os
    → Chain w.net.cells top lo p xs
    → Named xs names
    → length xs < rounds
    → Returns (Loads w names) (load_names rounds p w)
unfolding load_names answer
load_names-Loads zero xs names w grants chain named enough = absurd (omega (arith, enough))
load_names-Loads (suc rounds) [] [] w grants nil named enough =
    (refl, (refl, refl, refl, refl, refl, refl))
load_names-Loads (suc rounds) [] (name ∷ names) w grants chain named enough = absurd named
load_names-Loads (suc rounds) (x ∷ xs) [] w grants chain named enough = absurd named
load_names-Loads {p} (suc rounds) (x ∷ xs) (name ∷ names) w grants
      (cons {next} above below here rest) named enough =
    let full : (p == 0) ≡ false = ground (arith, above) in
    let node : Node = record { info = x; next = next } in
    rw (load_names, full, ◌>>=◌, load-here p node w here, named.0, grants w.io.calls malloc)
      (Returns-and_then (Loads w names) (Loads w (name ∷ names))
        (load_names rounds next (asked_once w)) _
        (load_names-Loads rounds xs names (asked_once w) grants rest named.1
          (omega (arith, enough)))
        (λ others w' (same, keeps). (ap (◌∷◌ name) same, keeps)))

pub menu_entries_load_networks-Loads :
    (xs : List Network) (names : List Bytes) (w : World)
    → GrantsAll w.os
    → 0 < w.net.fresh
    → Chain w.net.cells w.net.fresh 0 w.net.network_info xs
    → Named xs names
    → Returns (Loads w names) (menu_entries_load_networks w)
unfolding menu_entries_load_networks
menu_entries_load_networks-Loads xs names w grants used chain named =
    load_names-Loads (suc w.net.fresh) xs names w grants chain named
      (omega (arith, length-Chain chain used))
