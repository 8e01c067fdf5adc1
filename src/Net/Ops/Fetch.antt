-- ===== src/Net/Ops/Fetch.antt =====
-- `net_get_networks` as a whole: the list that a repository serves becomes the program's list.
use central_node.Common.{
  ℕ, zero, suc, ◌+◌, ◌-◌, ◌<◌, ◌≡◌, refl, ap, ◌∙◌, Bool, true, false, not, ◌&&◌, ◌||◌, none, some,
  List, [], ◌∷◌, ◌++◌, arith, ltb, ◌==◌, if◌then◌else◌, length, take, length-append,
}
use central_node.Common.Text.{Bytes, codes, c_str, is_alnum, first_byte}
use central_node.Common.Text.Scan.{Lacks, Lacks-append, c_str-Lacks, take-append}
use central_node.World.{World, fmemopen, malloc, answer, exit_success}
use central_node.World.Networks.{Network}
use central_node.World.Faults.{Returns, Returns-and_then, Returns-mono, ◌>>=◌}
use central_node.Sys.Sysctl.Granted.{GrantsAll, asked_once}
use central_node.Sys.Config.File.Default.{joined}
use central_node.Sys.Logging.{log_write, log_debug}
use central_node.Net.Curl.{Response}
use central_node.Net.Curl.Request.{curl_sendrequest-Copies}
use central_node.Net.Curl.Deliver.{Answers, Copies}
use central_node.Net.NetworkList.Chain.{Holds}
use central_node.Net.Ops.Names.{networks_of}
use central_node.Net.Ops.Served.{AreServable, grow_all, Serves, read_networks-joined}
use central_node.Net.Ops.{
  netop_get_networks, bufsiz, net_format_url, isspecial, first_invalid, list_networks,
  net_get_networks,
}

-- The URL of the list of networks.
abbrev pub repository_url : Bool → Bytes → Bytes
repository_url net_nohttps netrepo = take 127 (
    codes (if net_nohttps then "http://" else "https://") ++ netrepo ++ codes "/router/getnetworks")

-- The bytes that a list may hold.
abbrev pub AllAllowed : Bytes → Type 0
AllAllowed [] = Unit {0}
AllAllowed (c ∷ cs) = ((is_alnum c || isspecial c) ≡ true) × AllAllowed cs

allowed-not : (a b : Bool) → (a || b) ≡ true → (not a && not b) ≡ false
allowed-not a b h = ground (arith, h)

first_invalid-AllAllowed : (n : ℕ) (s : Bytes) → AllAllowed s → first_invalid (take n s) ≡ none
unfolding first_invalid
first_invalid-AllAllowed zero s h = refl
first_invalid-AllAllowed (suc n) [] h = refl
first_invalid-AllAllowed (suc n) (c ∷ s) h =
    rw (allowed-not (is_alnum c) (isspecial c) h.0) (first_invalid-AllAllowed n s h.1)

joined-Lacks : (names : List Bytes) → AreServable names → Lacks 0 (joined names)
unfolding joined
joined-Lacks [] h = tt
joined-Lacks (name ∷ names) (ok, h) =
    Lacks-append 0 name (b'\n' ∷ joined names) ok.1 (refl, joined-Lacks names h)

first_byte-name :
    (name rest : Bytes) → Lacks 0 name → 0 < length name → (first_byte (name ++ rest) == 0) ≡ false
first_byte-name [] rest nul some_byte = absurd (omega arith)
first_byte-name (c ∷ name) rest nul some_byte = nul.0

net_format_url-repository :
    (netrepo : Bytes) (w : World)
    → w.options.netrepo ≡ some netrepo
    → net_format_url netop_get_networks w
      ≡ some (some (repository_url w.options.net_nohttps netrepo), w)
unfolding net_format_url
net_format_url-repository netrepo w there = simp (there) refl

list_networks-joined :
    (name : Bytes) (names : List Bytes) (xs : List Network) (r : Response) (w : World)
    → AreServable (name ∷ names)
    → AllAllowed (joined (name ∷ names))
    → length (joined (name ∷ names)) < bufsiz
    → r.copied ≡ joined (name ∷ names)
    → r.strout_sz ≡ length (joined (name ∷ names))
    → Holds w.net xs
    → GrantsAll w.os
    → Returns (Serves (name ∷ names) 0 xs w) (list_networks r w)
unfolding list_networks answer
list_networks-joined name names xs r w served allowed small copied size holds grants =
    let text = joined (name ∷ names) in
    let begins : (first_byte text == 0) ≡ false =
      unfold joined in first_byte-name name _ served.0.1 served.0.2 in
    let logged = (log_write log_debug "Checking remote network data.." [] w).1 in
    let whole : c_str text ≡ text = c_str-Lacks text (joined-Lacks (name ∷ names) served) in
    let valid = first_invalid-AllAllowed (bufsiz - 1) text allowed in
    let fits : ltb (length text) bufsiz ≡ true = ground arith in
    rw (copied, begins, ◌>>=◌, whole, valid, grants logged.io.calls fmemopen, size, fits, copied)
      (read_networks-joined (suc (length text + 1)) 0 (name ∷ names) xs (asked_once logged) served
        (omega arith) holds (λ n. grants n malloc))

-- The run ends with the number of the networks, which follow the old ones in the program's list, in
-- the order of the names and numbered from 0; the repository is known to be there.
abbrev pub Fetches : List Bytes → List Network → World → ℕ → World → Type 0
Fetches names xs w count w' =
    (count ≡ length names)
    × Holds w'.net (xs ++ networks_of 0 names)
    × (w'.net.longest_net_entry ≡ grow_all names w.net.longest_net_entry)
    × (w'.net.netrepo_status ≡ true)
    × (w'.options ≡ w.options)
    × (w'.disk ≡ w.disk)
    × (w'.log ≡ w.log)
    × (w'.os ≡ w.os)
    × (w'.startup ≡ w.startup)
    × (w'.screen ≡ w.screen)

abbrev available : World → World
available w = record w { net = record w.net { netrepo_status = true } }

-- Where every request is granted, and the transfers of the list succeed and bring at least one name,
-- each on a line of its own, of at most 62 bytes and of the allowed characters, less than BUFSIZ
-- bytes together, `net_get_networks` is defined and returns the number of names: the networks of the
-- names follow the old ones in the program's list, in their order and numbered from 0, the longest
-- entry has grown for them, and the repository counts as available. The options, the files, the log
-- settings, the start-up switches and the terminal stay. A repository and a proxy setting are set.
pub net_get_networks-Fetches :
    (netrepo proxy name : Bytes) (names : List Bytes) (xs : List Network) (w : World)
    → AreServable (name ∷ names)
    → AllAllowed (joined (name ∷ names))
    → length (joined (name ∷ names)) < bufsiz
    → w.options.netrepo ≡ some netrepo
    → w.options.proxyaddr ≡ some proxy
    → Answers (repository_url w.options.net_nohttps netrepo) (joined (name ∷ names)) w.os
    → Holds w.net xs
    → GrantsAll w.os
    → Returns (Fetches (name ∷ names) xs w) (net_get_networks w)
unfolding net_get_networks
net_get_networks-Fetches netrepo proxy name names xs w served allowed small there proxied answers
      holds grants =
    let text = joined (name ∷ names) in
    let url = repository_url w.options.net_nohttps netrepo in
    let some_byte : 0 < length text =
      unfold joined in omega (arith, length-append name (b'\n' ∷ joined names), served.0.2) in
    rw (net_format_url-repository netrepo w there, ◌>>=◌)
      (Returns-and_then (Copies text (length text) w) (Fetches (name ∷ names) xs w) _ _
        (curl_sendrequest-Copies url proxy text bufsiz 0 w grants answers proxied some_byte
          (omega arith) (omega arith))
        (λ r w' (status, copied, size, (options, os, disk, log, net, process, startup, screen)).
          let ok : (r.status == exit_success) ≡ true = rw status refl in
          rw ok (
            Returns-mono (Serves (name ∷ names) 0 xs (available w')) (Fetches (name ∷ names) xs w) _
              (λ count w''
                  (
                    sum,
                    list,
                    longest,
                    (options', os', disk', log', known, process', startup', screen'),
                  ).
                (
                  omega arith,
                  list,
                  longest ∙ ap (λ n. grow_all (name ∷ names) n.longest_net_entry) net,
                  known,
                  options' ∙ options,
                  disk' ∙ disk,
                  log' ∙ log,
                  os' ∙ os,
                  startup' ∙ startup,
                  screen' ∙ screen,
                ))
              (list_networks-joined name names xs r (available w') served allowed small
                (copied ∙ take-append text (0 ∷ [])) size (rw net holds) (rw os grants)))))
