-- ===== src/Net/Ops/Served.antt =====
-- The loop of `net_get_networks` on the names that a repository serves, a line for each.
use central_node.Common.{
  ℕ, zero, suc, ◌+◌, ◌-◌, ◌%◌, ◌^◌, ◌<◌, ◌≡◌, refl, ap, ◌∙◌, false, ◌||◌, some, List, [], ◌∷◌, ◌++◌,
  arith, ltb, leb, length, length-append,
}
use central_node.Common.Text.{Bytes, c_str, before_newline, fgets}
use central_node.Common.Text.Scan.{Lacks, Lacks-append, c_str-Lacks, fgets-line}
use central_node.World.{World}
use central_node.World.Faults.{Returns, ◌>>=◌, Returns-and_then, Returns-mono}
use central_node.World.Networks.{Network}
use central_node.Net.Curl.Deliver.{append_assoc, append_nil}
use central_node.Net.NetworkList.{new_network}
use central_node.Net.NetworkList.Chain.{Holds}
use central_node.Net.NetworkList.Add.{GrantsMalloc}
use central_node.Sys.Config.File.Default.{joined}
use central_node.Net.Ops.{grow_net, evaluate_network, read_networks, network_name_max}
use central_node.Net.Ops.Names.{networks_of, Keeps, Keeps-trans, Evaluated, evaluate_network-append}

-- A name that a repository can serve on a line of its own.
abbrev IsServable : Bytes → Type 0
IsServable name = Lacks b'\n' name × Lacks 0 name × (0 < length name) × (length name < 63)

abbrev pub AreServable : List Bytes → Type 0
AreServable [] = Unit {0}
AreServable (name ∷ names) = IsServable name × AreServable names

-- The longest entry, when the names are read in order.
abbrev pub grow_all : List Bytes → ℕ → ℕ
grow_all [] longest = longest
grow_all (name ∷ names) longest = grow_all names (grow_net (length name + 1) longest)

abbrev pub Serves : List Bytes → ℕ → List Network → World → ℕ → World → Type 0
Serves names n xs w count w' =
    (count ≡ n + length names)
    × Holds w'.net (xs ++ networks_of n names)
    × (w'.net.longest_net_entry ≡ grow_all names w.net.longest_net_entry)
    × Keeps w w'

before_newline-line : (s : Bytes) → Lacks b'\n' s → before_newline (s ++ b'\n' ∷ []) ≡ s
unfolding before_newline
before_newline-line [] h = refl
before_newline-line (c ∷ cs) h = rw h.0 (ap (◌∷◌ c) (before_newline-line cs h.1))

line-ne_nil : (s : Bytes) → (c : ℕ) × (cs : Bytes) × (s ++ b'\n' ∷ [] ≡ c ∷ cs)
line-ne_nil [] = (b'\n', [], refl)
line-ne_nil (c ∷ cs) = (c, cs ++ b'\n' ∷ [], refl)

line_fits : (m : ℕ) → 0 < m → m < 63 → (ltb (network_name_max - 1) (m + 1) || leb (m + 1) 1) ≡ false
line_fits m some_byte short = ground arith

-- A round on a line that is taken.
read_networks-taken :
    (k n c : ℕ) (fbp line cs rest : Bytes) (w : World) (Q : ℕ → World → Type 0)
    → fgets (network_name_max - 1) fbp ≡ (line, rest)
    → line ≡ c ∷ cs
    → c_str line ≡ line
    → (ltb (network_name_max - 1) (length line) || leb (length line) 1) ≡ false
    → Returns Q ((evaluate_network n (length line) line >>= λ _. read_networks k rest (n + 1)) w)
    → Returns Q (read_networks (suc k) fbp n w)
unfolding read_networks fgets
read_networks-taken k n c fbp line cs rest w Q got nonempty whole taken later =
    let first : (fgets (network_name_max - 1) fbp).0 ≡ c ∷ cs = rw got nonempty in
    let read : c_str (fgets (network_name_max - 1) fbp).0 ≡ line = rw got whole in
    let left : (fgets (network_name_max - 1) fbp).1 ≡ rest = rw got refl in
    rw (first, read, taken, left) later

-- A round on a line that holds a name.
read_networks-line :
    (k n : ℕ) (name rest : Bytes) (w : World) (Q : ℕ → World → Type 0)
    → IsServable name
    → Returns Q (
        (evaluate_network n (length name + 1) (name ++ b'\n' ∷ []) >>= λ _.
        read_networks k rest (n + 1))
          w)
    → Returns Q (read_networks (suc k) (name ++ b'\n' ∷ rest) n w)
read_networks-line k n name rest w Q (newline, nul, some_byte, short) later =
    let (c, cs, nonempty) = line-ne_nil name in
    let size : length (name ++ b'\n' ∷ []) ≡ length name + 1 =
      omega (arith, length-append name (b'\n' ∷ [])) in
    read_networks-taken k n c (name ++ b'\n' ∷ rest) (name ++ b'\n' ∷ []) cs rest w Q
      (fgets-line (network_name_max - 1) name rest newline (omega arith)) nonempty
      (c_str-Lacks (name ++ b'\n' ∷ []) (Lacks-append 0 name (b'\n' ∷ []) nul (refl, tt)))
      (rw size (line_fits (length name) some_byte short)) (rw size later)

-- The loop over a list of names, each on a line of its own, with the byte behind them.
pub read_networks-joined :
    (k n : ℕ) (names : List Bytes) (xs : List Network) (w : World)
    → AreServable names
    → length (joined names) + 1 < k
    → Holds w.net xs
    → GrantsMalloc w.os
    → Returns (Serves names n xs w) (read_networks k (joined names ++ 0 ∷ []) n w)
unfolding joined
read_networks-joined zero n names xs w served fuel holds grants = absurd (omega arith)
read_networks-joined (suc zero) n names xs w served fuel holds grants = absurd (omega arith)
read_networks-joined (suc (suc k)) n [] xs w served fuel holds grants =
    unfold read_networks in
    unfold fgets in
    unfold c_str in
    rw (append_nil xs) (omega arith, holds, refl, (refl, refl, refl, refl, refl, refl, refl, refl))
read_networks-joined (suc (suc k)) n (name ∷ names) xs w (ok, served) fuel holds grants =
    let text = joined names ++ 0 ∷ [] in
    let less : length (joined names) + 1 < suc k =
      omega (arith, length-append name (b'\n' ∷ joined names)) in
    rw (append_assoc name (b'\n' ∷ joined names) (0 ∷ [])) (
      read_networks-line (suc k) n name text w (Serves (name ∷ names) n xs w) ok (
        Returns-and_then (Evaluated n (length name + 1) (before_newline (name ++ b'\n' ∷ [])) xs w)
          (Serves (name ∷ names) n xs w) _ _
          (evaluate_network-append n (length name + 1) (name ++ b'\n' ∷ []) xs w holds grants)
          (λ code w' (list, longest, kept).
            let list' : Holds w'.net (xs ++ new_network (n % 2 ^ 16) (some name) ∷ []) =
              rw (← before_newline-line name ok.0) list in
            Returns-mono (Serves names (n + 1) (xs ++ new_network (n % 2 ^ 16) (some name) ∷ []) w')
              (Serves (name ∷ names) n xs w) _
              (λ count w'' (sum, all, longest', kept'). (
                omega arith,
                rw
                    (← append_assoc xs (new_network (n % 2 ^ 16) (some name) ∷ [])
                      (networks_of (n + 1) names))
                    all,
                longest' ∙ ap (grow_all names) longest,
                Keeps-trans w w' w'' kept kept',
              ))
              (read_networks-joined (suc k) (n + 1) names _ w' served less list'
                (rw kept.1 grants)))))
