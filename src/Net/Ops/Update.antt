-- ===== src/Net/Ops/Update.antt =====
-- `net_checkupdate`: what the update server's answer decides.
use central_node.Common.{
  ℕ, ◌≤◌, ◌≡◌, refl, Bool, true, not, ◌&&◌, some, [], ◌∷◌, ◌++◌, arith, ltb, ◌==◌, length, take,
  drop, Bool-cases, inl, inr,
}
use central_node.Common.Text.{Bytes, codes, first_byte}
use central_node.World.{World, exit_success}
use central_node.World.Faults.{Returns, Returns-and_then}
use central_node.Sys.Sysctl.Granted.{GrantsAll}
use central_node.Net.Curl.{curl_sendrequest}
use central_node.Net.Curl.Request.{curl_sendrequest-Copies}
use central_node.Net.Curl.Deliver.{Same, Answers, Copies}
use central_node.Net.Ops.{atoi, cnode_build_version, net_checkupdate}

abbrev pub update_url : Bytes
update_url = codes "https://raw.githubusercontent.com/x0reaxeax/CentralNode-Status/main/version"

-- The six bytes that are kept of an answer.
abbrev pub version_out : Bytes → Bytes
version_out response = take 6 (response ++ 0 ∷ [])

abbrev is_newer : Bytes → Bool × ℕ → Bool
is_newer response version =
    first_byte (version_out response) == b'X'
    && (not version.0 && ltb cnode_build_version version.1)

abbrev pub Decides : Bytes → Bool × ℕ → World → Bool → World → Type 0
Decides response version w update w' = (update ≡ is_newer response version) × Same w w'

-- Where every request is granted and the update server answers with at least five bytes, in which a
-- number behind the first byte stops within the six bytes that are kept, `net_checkupdate` is defined
-- and reports an update exactly if the first byte is X and the number is above the build's. Only the
-- log, the error and the requests change. A proxy setting is set.
pub net_checkupdate-Decides :
    (proxy response : Bytes) (version : Bool × ℕ) (w : World)
    → GrantsAll w.os
    → Answers update_url response w.os
    → w.options.proxyaddr ≡ some proxy
    → 5 ≤ length response
    → atoi (drop 1 (version_out response)) ≡ some version
    → Returns (Decides response version w) (net_checkupdate w)
unfolding net_checkupdate
net_checkupdate-Decides proxy response version w grants answers proxied long number =
    Returns-and_then (Copies response 6 w) (Decides response version w)
      (curl_sendrequest (some update_url) 6 6 w) _
      (curl_sendrequest-Copies update_url proxy response 6 6 w grants answers proxied (omega arith)
        (omega arith) (omega arith))
      (λ r w' (status, copied, size, same).
        let ok : (r.status == exit_success) ≡ true = rw status refl in
        elim (Bool-cases (first_byte (version_out response) == b'X')) [
          | inr other ↦ rw (ok, copied, other) (rw other refl, same)
          | inl marked ↦ elim (Bool-cases (not version.0 && ltb cnode_build_version version.1)) [
            | inl newer ↦ rw (ok, copied, marked, number, newer) (rw (marked, newer) refl, same)
            | inr older ↦ rw (ok, copied, marked, number, older) (rw (marked, older) refl, same)
          ]
        ])
