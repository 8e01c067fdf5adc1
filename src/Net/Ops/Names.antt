-- ===== src/Net/Ops/Names.antt =====
-- The loop of `net_get_networks` over the lines that a repository serves.
use central_node.Common.{
  ℕ, zero, suc, ◌+◌, ◌-◌, ◌%◌, ◌^◌, ◌≤◌, ◌<◌, ◌≡◌, refl, ◌∙◌, ◌||◌, some, List, [], ◌∷◌, ◌++◌,
  arith, ltb, leb, ◌==◌, length, Bool-cases, List-cases, inl, inr,
}
use central_node.Common.Text.{Bytes, c_str, before_newline, fgets}
use central_node.Common.Text.Scan.{Lacks}
use central_node.World.{World, num}
use central_node.Sys.Logging.{log_write, log_debug}
use central_node.World.Faults.{Returns, Returns-and_then, Returns-mono}
use central_node.World.Networks.{Network}
use central_node.Net.Curl.Deliver.{append_assoc, append_nil}
use central_node.Net.NetworkList.{new_network}
use central_node.Net.NetworkList.Chain.{Holds}
use central_node.Net.NetworkList.Add.{GrantsMalloc, Added, network_info_entry_add-append}
use central_node.Net.Ops.{grow_net, evaluate_network, read_networks, network_name_max}

-- The networks of the names, numbered from `id` in 16 bits.
abbrev pub networks_of : ℕ → List Bytes → List Network
networks_of id [] = []
networks_of id (name ∷ names) = new_network (id % 2 ^ 16) (some name) ∷ networks_of (id + 1) names

abbrev pub Keeps : World → World → Type 0
Keeps w w' =
    (w'.options ≡ w.options)
    × (w'.os ≡ w.os)
    × (w'.disk ≡ w.disk)
    × (w'.log ≡ w.log)
    × (w'.net.netrepo_status ≡ w.net.netrepo_status)
    × (w'.process ≡ w.process)
    × (w'.startup ≡ w.startup)
    × (w'.screen ≡ w.screen)

abbrev pub Keeps-trans : (u v w : World) → Keeps u v → Keeps v w → Keeps u w
Keeps-trans u v w (a, b, c, d, e, f, g, h) (a', b', c', d', e', f', g', h') =
    (a' ∙ a, b' ∙ b, c' ∙ c, d' ∙ d, e' ∙ e, f' ∙ f, g' ∙ g, h' ∙ h)

abbrev pub Evaluated : ℕ → ℕ → Bytes → List Network → World → ℕ → World → Type 0
Evaluated id slen name xs w code w' =
    Holds w'.net (xs ++ new_network (id % 2 ^ 16) (some name) ∷ [])
    × (w'.net.longest_net_entry ≡ grow_net slen w.net.longest_net_entry)
    × Keeps w w'

abbrev evaluating : ℕ → ℕ → World → World
evaluating id slen w =
    (log_write log_debug "Evaluating network: %hu" (num id ∷ []) (record w {
      net = record w.net { longest_net_entry = grow_net slen w.net.longest_net_entry };
    })).1

pub evaluate_network-append :
    (id slen : ℕ) (line : Bytes) (xs : List Network) (w : World)
    → Holds w.net xs
    → GrantsMalloc w.os
    → Returns (Evaluated id slen (before_newline line) xs w) (evaluate_network id slen line w)
unfolding evaluate_network
evaluate_network-append id slen line xs w holds grants =
    Returns-mono (Added (id % 2 ^ 16) (before_newline line) xs (evaluating id slen w))
      (Evaluated id slen (before_newline line) xs w) _
      (λ code w'
          (
            _,
            list,
            (
              options, os, disk, log, longest, status, process, startup, screen, error, count,
              ifnets,
            ),
          ).
        (list, longest, (options, os, disk, log, status, process, startup, screen)))
      (network_info_entry_add-append (id % 2 ^ 16) (before_newline line) xs (evaluating id slen w)
        holds grants)

-- What a name of the list satisfies.
abbrev IsName : Bytes → Type 0
IsName name = Lacks b'\n' name × Lacks 0 name × (length name < network_name_max)

abbrev AreNames : List Bytes → Type 0
AreNames [] = Unit {0}
AreNames (name ∷ names) = IsName name × AreNames names

before_newline-Lacks :
    (s : Bytes) → Lacks b'\n' (before_newline s) × (length (before_newline s) ≤ length s)
unfolding before_newline
before_newline-Lacks [] = (tt, omega arith)
before_newline-Lacks (c ∷ cs) =
    let (lacks, le) = before_newline-Lacks cs in
    elim (Bool-cases (c == b'\n')) [
      | inl stop ↦ rw stop (tt, omega arith)
      | inr other ↦ rw other ((other, lacks), omega arith)
    ]

before_newline-zero : (s : Bytes) → Lacks 0 s → Lacks 0 (before_newline s)
unfolding before_newline
before_newline-zero [] h = tt
before_newline-zero (c ∷ cs) h = elim (Bool-cases (c == b'\n')) [
  | inl stop ↦ rw stop tt
  | inr other ↦ rw other (h.0, before_newline-zero cs h.1)
]

c_str-whole : (s : Bytes) → Lacks 0 (c_str s) × (length (c_str s) ≤ length s)
unfolding c_str
c_str-whole [] = (tt, omega arith)
c_str-whole (c ∷ cs) =
    let (lacks, le) = c_str-whole cs in
    elim (Bool-cases (c == 0)) [
      | inl stop ↦ rw stop (tt, omega arith)
      | inr other ↦ rw other ((other, lacks), omega arith)
    ]

fgets-sizes :
    (n : ℕ) (s : Bytes)
    → (length (fgets n s).0 ≤ n) × (length (fgets n s).0 + length (fgets n s).1 ≡ length s)
unfolding fgets
fgets-sizes zero s = (omega arith, omega arith)
fgets-sizes (suc n) [] = (omega arith, omega arith)
fgets-sizes (suc n) (c ∷ cs) =
    let (le, sum) = fgets-sizes n cs in
    elim (Bool-cases (c == b'\n')) [
      | inl stop ↦ rw stop (omega arith, omega arith)
      | inr other ↦ rw other (omega arith, omega arith)
    ]

-- The loop ends with the number behind the last network, and the list holds exactly the networks of
-- some names behind the old ones.
abbrev pub Lists : ℕ → List Network → World → ℕ → World → Type 0
Lists n xs w count w' =
    (names : List Bytes) × AreNames names
    × (count ≡ n + length names)
    × Holds w'.net (xs ++ networks_of n names)
    × Keeps w w'

-- Whatever bytes a repository serves, where memory is granted and the fuel is above their number, the
-- loop over them is defined and ends: its result is the number behind the last network, and the list
-- holds the old networks and as many new ones as were counted, numbered in order, each with a name that
-- fits the buffer. The options, the files and the other settings are what they were.
pub read_networks-Lists :
    (k n : ℕ) (fbp : Bytes) (xs : List Network) (w : World)
    → length fbp < k
    → Holds w.net xs
    → GrantsMalloc w.os
    → Returns (Lists n xs w) (read_networks k fbp n w)
unfolding read_networks fgets
read_networks-Lists zero n fbp xs w fuel holds grants = absurd (omega arith)
read_networks-Lists (suc k) n fbp xs w fuel holds grants =
    let (le, sum) = fgets-sizes (network_name_max - 1) fbp in
    elim (List-cases (fgets (network_name_max - 1) fbp).0) [
      | inl end ↦ rw (end) (
        [],
        tt,
        omega arith,
        rw (append_nil xs) holds,
        (refl, refl, refl, refl, refl, refl, refl, refl),
      )
      | inr (c, cs, line) ↦
          let some_byte : 0 < length (fgets (network_name_max - 1) fbp).0 = rw line (omega arith) in
          let less : length (fgets (network_name_max - 1) fbp).1 < k = omega arith in
          elim (Bool-cases (
            ltb (network_name_max - 1) (length (c_str (fgets (network_name_max - 1) fbp).0))
            || leb (length (c_str (fgets (network_name_max - 1) fbp).0)) 1)) [
              | inl skipped ↦ rw (line, skipped) (read_networks-Lists k n _ xs w less holds grants)
              | inr taken ↦
                  let name = before_newline (c_str (fgets (network_name_max - 1) fbp).0) in
                  let (newline, shorter) =
                    before_newline-Lacks (c_str (fgets (network_name_max - 1) fbp).0) in
                  let (nul, whole) = c_str-whole (fgets (network_name_max - 1) fbp).0 in
                  rw (line, taken)
                    (Returns-and_then
                      (Evaluated n (length (c_str (fgets (network_name_max - 1) fbp).0)) name xs w)
                      (Lists n xs w) _ _
                      (evaluate_network-append n
                        (length (c_str (fgets (network_name_max - 1) fbp).0))
                        (c_str (fgets (network_name_max - 1) fbp).0) xs w holds grants)
                      (λ code w' (list, longest, kept).
                        Returns-mono
                          (Lists (n + 1) (xs ++ new_network (n % 2 ^ 16) (some name) ∷ []) w')
                          (Lists n xs w) _
                          (λ count w'' (names, are, sum', list', kept'). (
                            name ∷ names,
                            ((newline, before_newline-zero _ nul, omega arith), are),
                            omega arith,
                            rw
                                (← append_assoc xs (new_network (n % 2 ^ 16) (some name) ∷ [])
                                  (networks_of (n + 1) names))
                                list',
                            Keeps-trans w w' w'' kept kept',
                          ))
                          (read_networks-Lists k (n + 1) _ _ w' less list (rw kept.1 grants))))
            ]
    ]
