-- ===== src/Net/NetworkList/Final.antt =====
-- `network_info_final` frees the whole list.
use central_node.Common.{
  ℕ, zero, suc, ◌<◌, ◌≡◌, refl, ◌∙◌, false, none, some, List, [], ◌∷◌, arith, ◌==◌, if◌then◌else◌,
  length,
}
use central_node.World.{World, num, str}
use central_node.Sys.Logging.{log_write, log_debug}
use central_node.World.Faults.{Returns, Returns-mono, ◌>>=◌}
use central_node.World.Networks.{Network, Ptr}
use central_node.Net.NetworkList.{write, free_all, network_info_final}
use central_node.Net.NetworkList.Chain.{
  Chain, nil, cons, length-Chain, frame, load-here, write-other, has, has-frame,
}
use central_node.Net.NetworkList.Add.{KeepsRest}

-- The list is empty, its nodes are free, and no other one is.
abbrev pub Frees :
    {lo p : Ptr} {xs : List Network} (w : World)
    → Chain w.net.cells w.net.fresh lo p xs
    → World
    → Type 0
Frees w chain w' =
    (w'.net.network_info ≡ 0)
    × ((a : Ptr) → w'.net.cells a ≡ (if has chain a then none else w.net.cells a))
    × KeepsRest w w'

-- The state when the first node is freed.
abbrev freed : Network → Ptr → World → World
freed x next w =
    record (log_write log_debug "Freeing memory for network ID: %hu ['%s']"
      (num x.net_local_id ∷ str x.network_name ∷ []) w).1 {
        net = record w.net {
          network_info = next;
          cells = write w.net.cells w.net.network_info none;
        };
      }

free_all-here :
    (k : ℕ) (x : Network) (next : Ptr) (w : World)
    → 0 < w.net.network_info
    → w.net.cells w.net.network_info ≡ some (record { info = x; next = next })
    → free_all (suc k) w ≡ free_all k (freed x next w)
unfolding free_all
free_all-here k x next w pos here =
    let some_node : (w.net.network_info == 0) ≡ false = ground arith in
    rw (some_node, ◌>>=◌, load-here w.net.network_info (record { info = x; next = next }) w here)
      refl

free_all-Chain :
    {lo p : Ptr} {xs : List Network} (k : ℕ) (w : World)
    (chain : Chain w.net.cells w.net.fresh lo p xs)
    → w.net.network_info ≡ p
    → length xs < k
    → Returns (λ _. Frees w chain) (free_all k w)
unfolding has write
free_all-Chain zero w chain head fuel = absurd (omega arith)
free_all-Chain (suc k) w nil head fuel =
    unfold free_all in
    rw head
      (refl, λ a. refl, (refl, refl, refl, refl, refl, refl, refl, refl, refl, refl, refl, refl))
free_all-Chain (suc k) w (cons {p} {next} {x} above below here rest) head fuel =
    let w' = freed x next w in
    let same : (a : Ptr) → p < a → a < w.net.fresh → w'.net.cells a ≡ w.net.cells a = λ a over _.
      write-other w.net.cells w.net.network_info a none (λ e. absurd (omega (arith, head, e))) in
    let freed_cell : (a : Ptr)
        → (if has (frame rest same) a then none else w'.net.cells a)
          ≡ (if has (cons above below here rest) a then none else w.net.cells a) =
      λ a. rw (has-frame rest same a, head) (ground arith) in
    rw (free_all-here k x next w (rw head (omega arith)) (rw head here)) (
      Returns-mono (λ _. Frees w' (frame rest same)) (λ _. Frees w (cons above below here rest)) _
        (λ _ w'' (empty, cells, kept). (empty, λ a. cells a ∙ freed_cell a, kept))
        (free_all-Chain k w' (frame rest same) refl (omega arith)))

-- `network_info_final` frees exactly the nodes of the list, each once, and leaves an empty list. The
-- run is defined, whatever the list holds.
pub network_info_final-Frees :
    {xs : List Network} (w : World) (pos : 0 < w.net.fresh)
    (chain : Chain w.net.cells w.net.fresh 0 w.net.network_info xs)
    → Returns (λ _. Frees w chain) (network_info_final w)
unfolding network_info_final
network_info_final-Frees w pos chain =
    free_all-Chain (suc w.net.fresh) w chain refl (omega (arith, length-Chain chain pos))
