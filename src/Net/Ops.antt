-- ===== src/Net/Ops.antt =====
-- src/net/netops.c: the URL of the network repository, the list that it serves, and the check for
-- updates.
pub mod Fetch
pub mod Names
pub mod Served
pub mod Update
use central_node.Common.{
  ℕ, zero, suc, ◌+◌, ◌-◌, ◌*◌, ◌%◌, ◌^◌, Bool, true, false, not, ◌&&◌, ◌||◌, Option, none, some,
  List, [], ◌∷◌, ◌++◌, ltb, leb, ◌==◌, if◌then◌else◌, length, take, drop,
}
use central_node.Common.Text.{
  Bytes, codes, c_str, before_newline, fgets, first_byte, is_alnum, is_digit, is_space, snprintf,
  u64,
}
use central_node.World.{
  fmemopen, num, str, World, gets, modify, ask, exit_success, exit_failure, einval,
}
use central_node.World.Faults.{Run, ◌>>=◌, ◌>>◌, call, return, undefined}
use central_node.Sys.Logging.{
  log_write, log_write_trace, log_debug, log_notif, log_error, set_last_err, set_last_errno,
  current_addr, enullptr,
}
use central_node.Data.{rtonm}
use central_node.Net.NetworkList.{network_info_entry_add}
use central_node.Net.Curl.{Response, curl_sendrequest}

abbrev net_url_max : ℕ
net_url_max = 128

abbrev pub netop_get_networks : ℕ
netop_get_networks = 1

abbrev pub network_name_max : ℕ
network_name_max = 64

-- BUFSIZ of stdio.h in glibc
abbrev pub bufsiz : ℕ
bufsiz = 8192

-- The URL, or none where the function fails. The output is never `NULL`: the one caller passes an
-- array. `%s` with `NULL` is undefined.
pub net_format_url : ℕ → Run (Option Bytes)
net_format_url netop =
    if netop == netop_get_networks
    then (do
      options ← call (gets (λ w. w.options))
      elim options.netrepo [
        | none ↦ undefined
        | some netrepo ↦ return (
            some (
              snprintf net_url_max (
                codes (if options.net_nohttps then "http://" else "https://")
                ++ netrepo
                ++ codes "/router/getnetworks")))
      ])
    else do
      call (set_last_err current_addr "" einval)
      call (log_write_trace "net_format_url()" "netop")
      return none

abbrev allowed_special_chars : Bytes
allowed_special_chars = b'.' ∷ b'-' ∷ b'_' ∷ b'[' ∷ b']' ∷ b'*' ∷ b' ' ∷ b'\n' ∷ []

unfoldable pub is_one_of : ℕ → Bytes → Bool
is_one_of c [] = false
is_one_of c (x ∷ xs) = c == x || is_one_of c xs

unfoldable pub isspecial : ℕ → Bool
unfolding is_one_of
isspecial c = is_one_of c allowed_special_chars

-- The check of the received characters, up to the first that is not allowed.
pub first_invalid : Bytes → Option ℕ
first_invalid [] = none
first_invalid (c ∷ cs) =
    let later = first_invalid cs in if not (is_alnum c) && not (isspecial c) then some c else later

-- The longest name, rounded up.
pub grow_net : ℕ → ℕ → ℕ
grow_net slen longest =
    let next_mul = rtonm ((longest + slen) % u64) 8 in
    if ltb longest slen then (if ltb longest next_mul then next_mul else longest) else longest

-- The body of the loop behind its checks: the line has `slen` bytes.
pub evaluate_network : ℕ → ℕ → Bytes → Run ℕ
evaluate_network num_networks slen line = do
  call (
      modify (λ w. record w {
        net = record w.net { longest_net_entry = grow_net slen w.net.longest_net_entry };
      }))
  call (log_write log_debug "Evaluating network: %hu" (num num_networks ∷ []))
  network_info_entry_add (num_networks % 2 ^ 16) (before_newline line)

-- The loop over the lines. Each round but the last reads a byte, so that the number of bytes is fuel
-- enough. The status of `network_info_entry_add` is not looked at.
pub read_networks : ℕ → Bytes → ℕ → Run ℕ
read_networks zero fbp num_networks = undefined
read_networks (suc rounds) fbp num_networks =
    let read = fgets (network_name_max - 1) fbp in
    let line = c_str read.0 in
    let skip = read_networks rounds read.1 num_networks in
    let next = read_networks rounds read.1 (num_networks + 1) in
    elim read.0 [
      | [] ↦ return num_networks
      | _ ∷ _ ↦
          if ltb (network_name_max - 1) (length line) || leb (length line) 1
          then skip
          else do added ← evaluate_network num_networks (length line) line; next
    ]

-- Behind the successful request. `fmemopen` maps the response and the byte behind it, which must
-- both lie in the array.
list_networks : Response → Run ℕ
list_networks received =
    if first_byte received.copied == 0
    then (do
      call (set_last_err current_addr "" enullptr)
      call (log_write_trace "net_get_networks()" "net_get_networks")
      return 0)
    else do
      call (log_write log_debug "Checking remote network data.." [])
      elim (first_invalid (take (bufsiz - 1) (c_str received.copied))) [
        | some c ↦ (do
          call (
              log_write log_debug "Remote network data contains invalid character: '%c' - (0x%02x)"
                (num c ∷ num c ∷ []))
          return 0)
        | none ↦ (do
          refused ← call (ask fmemopen)
          if refused == 0
              then (if ltb received.strout_sz bufsiz
                  then read_networks (suc (received.strout_sz + 1)) (received.copied ++ 0 ∷ []) 0
                  else undefined)
              else do
                call (set_last_errno current_addr "Unable to map memory for reading:")
                call (log_write_trace "net_get_networks()" "fmemopen() => fbp")
                return 0)
      ]

pub net_get_networks : Run ℕ
net_get_networks = do
  url ← net_format_url netop_get_networks
  elim url [
    | none ↦ return 0
    | some net_cmd_getnet_url ↦ (do
      received ← curl_sendrequest (some net_cmd_getnet_url) bufsiz 0
      call (
          modify (λ w. record w {
            net = record w.net { netrepo_status = received.status == exit_success };
          }))
      if received.status == exit_success then list_networks received else return 0)
  ]

-- `atoi` on the last bytes of an array: the sign and the number, and none where it reads past the
-- end. No number is 0.
digits_end : ℕ → Bytes → Option ℕ
digits_end acc [] = none
digits_end acc (c ∷ cs) =
    let more = digits_end (acc * 10 + (c - b'0')) cs in if is_digit c then more else some acc

unfoldable pub atoi : Bytes → Option (Bool × ℕ)
unfolding digits_end
atoi [] = none
atoi (c ∷ cs) =
    let later = atoi cs in
    let rest = if c == b'-' || c == b'+' then digits_end 0 cs else digits_end 0 (c ∷ cs) in
    if is_space c then later else elim rest [ some n ↦ some (c == b'-', n) | none ↦ none ]

-- An `int` by its sign and its size, as a pattern of 32 bits.
abbrev int_bits : Bool × ℕ → ℕ
int_bits (negative, n) = if negative then (2 ^ 32 - n) % 2 ^ 32 else n

abbrev pub cnode_build_version : ℕ
cnode_build_version = 7111

-- Without a terminating byte of its own, the version must stop before the end of the array of 6.
pub net_checkupdate : Run Bool
net_checkupdate = do
  received ←
      curl_sendrequest
        (some (codes "https://raw.githubusercontent.com/x0reaxeax/CentralNode-Status/main/version"))
        6 6
  if received.status == exit_success
      then (if first_byte received.copied == b'X'
          then elim (atoi (drop 1 received.copied)) [
            | none ↦ undefined
            | some version ↦
                if not version.0 && ltb cnode_build_version version.1
                then (do
                  call (log_write log_notif "Update available: v%d" (num version.1 ∷ []))
                  return true)
                else do
                  call (
                      log_write log_debug "No updates available (%d == %u)"
                        (num (int_bits version) ∷ num cnode_build_version ∷ []))
                  return false
          ]
          else do call (log_write log_error "Invalid remote version data" []); return false)
      else do call (log_write log_error "Unable to retrieve update status" []); return false
