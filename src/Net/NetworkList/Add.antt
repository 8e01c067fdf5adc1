-- ===== src/Net/NetworkList/Add.antt =====
-- `network_info_entry_add` appends to the list.
use central_node.Common.{
  ℕ, zero, suc, ◌+◌, ◌≤◌, ◌<◌, ◌≡◌, ◌≢◌, refl, ◌∙◌, false, some, List, [], ◌∷◌, ◌++◌, arith, ◌==◌,
  length,
}
use central_node.Common.Text.{Bytes}
use central_node.World.{World, Os, malloc, exit_success, answer}
use central_node.World.Faults.{Returns, ◌>>=◌, return}
use central_node.World.Networks.{Network, Heap, Ptr}
use central_node.Net.NetworkList.{
  write, find_last, link, strdup, new_network, alloc_node, network_info_entry_add,
}
use central_node.Net.NetworkList.Chain.{
  Chain, nil, cons, Holds, length-Chain, load-here, write-here, write-other, Chain-nil,
}

-- From `p` the links lead through nodes that hold `xs`. The last one is at `q` and holds `y`.
data EndsAt (h : Heap) (top : Ptr) : Ptr → List Network → Ptr → Network → Type 0 where
  one :
      {p : Ptr} {x : Network}
      → p < top
      → h p ≡ some (record { info = x; next = 0 })
      → EndsAt h top p (x ∷ []) p x
  more :
      {p next q : Ptr} {x y : Network} {xs : List Network}
      → p < next
      → h p ≡ some (record { info = x; next = next })
      → EndsAt h top next xs q y
      → EndsAt h top p (x ∷ xs) q y

-- A list is empty or has an end.
Chain-EndsAt :
    {h : Heap} {top lo p : Ptr} {x : Network} {xs : List Network}
    → Chain h top lo p (x ∷ xs)
    → (q : Ptr) × (y : Network) × EndsAt h top p (x ∷ xs) q y
Chain-EndsAt (cons {p} {x} above below here nil) = (p, x, one below here)
Chain-EndsAt (cons above below here (cons above' below' here' rest)) =
    let (q, y, ends) = Chain-EndsAt (cons above' below' here' rest) in (q, y, more above' here ends)

last-below :
    {h : Heap} {top p q : Ptr} {y : Network} {xs : List Network}
    → EndsAt h top p xs q y
    → (p ≤ q) × (q < top) × (h q ≡ some (record { info = y; next = 0 }))
last-below (one below here) = (omega arith, below, here)
last-below (more above here rest) =
    let (le, below, last) = last-below rest in (omega arith, below, last)

find_last-EndsAt :
    {top p q : Ptr} {y : Network} {xs : List Network} (k : ℕ) (last : Ptr) (w : World)
    → EndsAt w.net.cells top p xs q y
    → 0 < p
    → length xs < k
    → find_last k last p w ≡ some (q, w)
unfolding find_last
find_last-EndsAt zero last w ends pos fuel = absurd (omega arith)
find_last-EndsAt (suc zero) last w (one below here) pos fuel = absurd (omega arith)
find_last-EndsAt (suc (suc k)) last w (one {p} {x} below here) pos fuel =
    let some_node : (p == 0) ≡ false = ground arith in
    rw (some_node, ◌>>=◌, load-here p (record { info = x; next = 0 }) w here) refl
find_last-EndsAt (suc k) last w (more {p} {next} {x = x} above here rest) pos fuel =
    let some_node : (p == 0) ≡ false = ground arith in
    rw (some_node, ◌>>=◌, load-here p (record { info = x; next = next }) w here)
      (find_last-EndsAt k p w rest (omega arith) (omega arith))

Chain-head :
    {h : Heap} {top lo p : Ptr} {x : Network} {xs : List Network}
    → Chain h top lo p (x ∷ xs)
    → lo < p
Chain-head (cons above below here rest) = above

append-Chain :
    {h g : Heap} {top lo p q a : Ptr} {y z : Network} {xs : List Network}
    → EndsAt h top p xs q y
    → lo < p
    → top ≤ a
    → ((b : Ptr) → b < top → b ≢ q → g b ≡ h b)
    → g q ≡ some (record { info = y; next = a })
    → g a ≡ some (record { info = z; next = 0 })
    → Chain g (a + 1) lo p (xs ++ z ∷ [])
append-Chain (one below here) low le same linked new =
    cons low (omega arith) linked (cons (omega arith) (omega arith) new nil)
append-Chain (more {p} {next} above here rest) low le same linked new =
    let (after, below, _) = last-below rest in
    cons low (omega arith) (same p (omega arith) (λ e. absurd (omega arith)) ∙ here)
      (append-Chain rest above le same linked new)

alloc_node-granted :
    (w : World)
    → w.os.refuse w.io.calls malloc ≡ 0
    → alloc_node w
      ≡ some (
        w.net.fresh,
        record w {
          io = record w.io { calls = w.io.calls + 1 };
          net = record w.net { fresh = w.net.fresh + 1 };
        },
      )
unfolding alloc_node answer
alloc_node-granted w granted = rw granted refl

strdup-granted :
    (s : Bytes) (w : World)
    → w.os.refuse w.io.calls malloc ≡ 0
    → strdup s w ≡ some (some s, record w { io = record w.io { calls = w.io.calls + 1 } })
unfolding strdup answer
strdup-granted s w granted = rw granted refl

-- The state when the new node is written and nothing points at it.
abbrev stored : ℕ → Bytes → World → World
stored id name w = record w {
  io = record w.io { calls = w.io.calls + 1 + 1 };
  net = record w.net {
    fresh = w.net.fresh + 1;
    cells =
        write w.net.cells w.net.fresh
          (some (record { info = new_network id (some name); next = 0 }));
  };
}

abbrev pub GrantsMalloc : Os → Type 0
GrantsMalloc os = (n : ℕ) → os.refuse n malloc ≡ 0

network_info_entry_add-found :
    (id : ℕ) (name : Bytes) (last : Ptr) (w : World)
    → find_last (suc w.net.fresh) 0 w.net.network_info w ≡ some (last, w)
    → 0 < w.net.fresh
    → GrantsMalloc w.os
    → network_info_entry_add id name w
      ≡ (link last w.net.fresh >>= λ _. return exit_success) (stored id name w)
unfolding network_info_entry_add
network_info_entry_add-found id name last w found pos grants =
    let some_node : (w.net.fresh == 0) ≡ false = ground arith in
    rw
      (
        found,
        ◌>>=◌,
        alloc_node-granted w (grants w.io.calls),
        some_node,
        ◌>>=◌,
        strdup-granted name
            (record w {
              io = record w.io { calls = w.io.calls + 1 };
              net = record w.net { fresh = w.net.fresh + 1 };
            })
            (grants (w.io.calls + 1)),
      )
      refl

-- What a run leaves of the program's state, other than the list, the log file and the requests made.
abbrev pub KeepsRest : World → World → Type 0
KeepsRest w w' =
    (w'.options ≡ w.options)
    × (w'.os ≡ w.os)
    × (w'.disk ≡ w.disk)
    × (w'.log ≡ w.log)
    × (w'.net.longest_net_entry ≡ w.net.longest_net_entry)
    × (w'.net.netrepo_status ≡ w.net.netrepo_status)
    × (w'.process ≡ w.process)
    × (w'.startup ≡ w.startup)
    × (w'.screen ≡ w.screen)
    × (w'.error ≡ w.error)
    × (w'.net.n_networks ≡ w.net.n_networks)
    × (w'.net.ifnets ≡ w.net.ifnets)

abbrev pub Added : ℕ → Bytes → List Network → World → ℕ → World → Type 0
Added id name xs w code w' =
    (code ≡ exit_success) × Holds w'.net (xs ++ new_network id (some name) ∷ []) × KeepsRest w w'

-- Where memory is granted, a network is added at the end of the list, whatever the list holds: the run
-- is defined and reports success. The options, the last error, the log settings, the files, the
-- process, the start-up switches, the terminal, and of the networks their number, their status, the
-- longest entry and the interfaces stay.
pub network_info_entry_add-append :
    (id : ℕ) (name : Bytes) (xs : List Network) (w : World)
    → Holds w.net xs
    → GrantsMalloc w.os
    → Returns (Added id name xs w) (network_info_entry_add id name w)
unfolding link find_last
network_info_entry_add-append id name [] w (pos, holds) grants =
    let found : find_last (suc w.net.fresh) 0 w.net.network_info w ≡ some (0, w) =
      rw (Chain-nil holds, find_last) refl in
    rw (network_info_entry_add-found id name 0 w found pos grants) (
      refl,
      (omega arith, cons pos (omega arith) (write-here w.net.cells w.net.fresh _) nil),
      (refl, refl, refl, refl, refl, refl, refl, refl, refl, refl, refl, refl),
    )
network_info_entry_add-append id name (x ∷ xs) w (pos, holds) grants =
    let (q, y, ends) = Chain-EndsAt holds in
    let (after, below, here) = last-below ends in
    let head = Chain-head holds in
    let found =
      find_last-EndsAt (suc w.net.fresh) 0 w ends head (omega (arith, length-Chain holds pos)) in
    let some_node : (q == 0) ≡ false = ground arith in
    let there =
      write-other w.net.cells w.net.fresh q
        (some (record { info = new_network id (some name); next = 0 })) (λ e. absurd (omega arith))
      ∙ here in
    rw
      (
        network_info_entry_add-found id name q w found pos grants,
        link,
        some_node,
        ◌>>=◌,
        ◌>>=◌,
        load-here q (record { info = y; next = 0 }) (stored id name w) there,
      )
      (
        refl,
        (
          omega arith,
          append-Chain ends head (omega arith)
              (λ b below' other.
                write-other _ q b _ other
                ∙ write-other w.net.cells w.net.fresh b _ (λ e. absurd (omega arith)))
              (write-here _ q _)
              (write-other _ q w.net.fresh _ (λ e. absurd (omega arith))
                ∙ write-here w.net.cells w.net.fresh _),
        ),
        (refl, refl, refl, refl, refl, refl, refl, refl, refl, refl, refl, refl),
      )
