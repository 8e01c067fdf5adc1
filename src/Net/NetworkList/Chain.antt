-- ===== src/Net/NetworkList/Chain.antt =====
-- What it means that a heap holds a list of networks.
use central_node.Common.{
  ◌+◌, ◌≤◌, ◌<◌, ◌≡◌, ◌≢◌, refl, ap, ◌∙◌, Bool, false, ◌||◌, Option, some, List, [], ◌∷◌, arith,
  ◌==◌, length,
}
use central_node.World.{World}
use central_node.World.Networks.{Network, Node, Heap, Ptr, Net}
use central_node.Net.NetworkList.{write, load}

-- From `p` the links lead through nodes that hold `xs` to `NULL`. Their addresses grow, above `lo`
-- and below `top`.
pub data Chain (h : Heap) (top : Ptr) : Ptr → Ptr → List Network → Type 0 where
  nil : {lo : Ptr} → Chain h top lo 0 []
  cons :
      {lo p next : Ptr} {x : Network} {xs : List Network}
      → lo < p
      → p < top
      → h p ≡ some (record { info = x; next = next })
      → Chain h top p next xs
      → Chain h top lo p (x ∷ xs)

-- The networks that the program keeps.
abbrev pub Holds : Net → List Network → Type 0
Holds net xs = (0 < net.fresh) × Chain net.cells net.fresh 0 net.network_info xs

pub length-Chain :
    {h : Heap} {top lo p : Ptr} {xs : List Network}
    → Chain h top lo p xs
    → lo < top
    → length xs + lo < top
length-Chain nil low = omega arith
length-Chain (cons lo below here rest) low = omega (arith, length-Chain rest below)

-- A list survives what happens at or below `lo`, and from `top` on.
pub frame :
    {h g : Heap} {top lo p : Ptr} {xs : List Network}
    → Chain h top lo p xs
    → ((a : Ptr) → lo < a → a < top → g a ≡ h a)
    → Chain g top lo p xs
frame nil same = nil
frame (cons {p} above below here rest) same =
    cons above below (same p above below ∙ here)
      (frame rest λ a above' below'. same a (omega arith) below')

pub widen :
    {h : Heap} {top top' lo p : Ptr} {xs : List Network}
    → Chain h top lo p xs
    → top ≤ top'
    → Chain h top' lo p xs
widen nil le = nil
widen (cons above below here rest) le = cons above (omega arith) here (widen rest le)

pub load-here :
    (p : Ptr) (node : Node) (w : World) → w.net.cells p ≡ some node → load p w ≡ some (node, w)
unfolding load
load-here p node w here = rw (load, here) refl

pub write-here : (h : Heap) (p : Ptr) (cell : Option Node) → write h p cell p ≡ cell
unfolding write
write-here h p cell = ground arith

pub write-other : (h : Heap) (p q : Ptr) (cell : Option Node) → q ≢ p → write h p cell q ≡ h q
unfolding write
write-other h p q cell ne = ground arith

pub Chain-nil : {h : Heap} {top lo p : Ptr} → Chain h top lo p [] → p ≡ 0
Chain-nil nil = refl

-- Whether a node of the list stands at an address.
unfoldable pub has :
    {h : Heap} {top lo p : Ptr} {xs : List Network} → Chain h top lo p xs → Ptr → Bool
has nil a = false
has (cons {p} above below here rest) a = a == p || has rest a

pub has-frame :
    {h g : Heap} {top lo p : Ptr} {xs : List Network} (chain : Chain h top lo p xs)
    (same : (a : Ptr) → lo < a → a < top → g a ≡ h a) (a : Ptr)
    → has (frame chain same) a ≡ has chain a
unfolding has frame
has-frame nil same a = refl
has-frame (cons {p} above below here rest) same a =
    ap (λ b. a == p || b) (has-frame rest (λ a above' below'. same a (omega arith) below') a)
