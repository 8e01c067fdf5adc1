-- ===== src/Net/Curl/Request.antt =====
-- What a request by cURL gives its caller.
use central_node.Common.{
  ℕ, ◌+◌, ◌≤◌, ◌<◌, ◌≡◌, refl, true, false, not, Option, none, some, [], ◌∷◌, ◌++◌, arith, leb,
  ◌==◌, if◌then◌else◌, length, take,
}
use central_node.Common.Text.{Bytes}
use central_node.World.{World}
use central_node.World.Networks.{Transfer}
use central_node.World.Faults.{Returns, Returns-and_then, Returns-mono, and_then-none, ◌>>=◌}
use central_node.Sys.Sysctl.Granted.{GrantsAll, asked_once}
use central_node.Net.Curl.{
  MemChunk, bytes_of, curle_ok, proxy_used, curl_easy_perform, copy_out, evaluate, curl_sendrequest,
  is_null,
}
use central_node.Sys.Logging.{log_write, log_debug}
use central_node.Common.Text.{codes, strncmp_eq}
use central_node.World.{str, num, curl_easy_init}
use central_node.Net.Curl.Deliver.{
  Same-trans, Answers, Performs, curl_easy_perform-Performs, Copies,
}

abbrev copied_size : ℕ → Bytes → ℕ
copied_size max_read_sz response = if max_read_sz == 0 then length response else max_read_sz

is_null-bytes :
    (r : Option Bytes) → 0 < length (bytes_of (record { response = r })) → is_null r ≡ false
unfolding is_null
is_null-bytes none pos = absurd (omega arith)
is_null-bytes (some s) pos = refl

copy_out-fits :
    (capacity cpysz : ℕ) (mem : MemChunk) (w : World)
    → 0 < length (bytes_of mem)
    → cpysz ≤ capacity
    → cpysz ≤ length (bytes_of mem) + 1
    → copy_out capacity cpysz mem w ≡ some (take cpysz (bytes_of mem ++ 0 ∷ []), w)
unfolding copy_out
copy_out-fits capacity cpysz mem w pos room within =
    let some_bytes = is_null-bytes mem.response pos in
    let fits : leb cpysz capacity ≡ true = ground arith in
    let behind : leb cpysz (length (bytes_of mem) + 1) ≡ true = ground arith in
    rw (fits, behind, some_bytes) (ground arith)

evaluate-Copies :
    (capacity max_read_sz curl_res_code error_code : ℕ) (response : Bytes) (mem : MemChunk)
    (w : World)
    → curl_res_code ≡ curle_ok
    → bytes_of mem ≡ response
    → 0 < length response
    → copied_size max_read_sz response ≤ capacity
    → copied_size max_read_sz response ≤ length response + 1
    → Returns
        (Copies response (copied_size max_read_sz response) w)
        (evaluate capacity max_read_sz (curl_res_code, mem, error_code) w)
unfolding evaluate
evaluate-Copies capacity max_read_sz curl_res_code error_code response mem w ok bytes pos room
      within =
    let logged = (log_write log_debug "CURL_STRDATA: \n---\n%s---" (str mem.response ∷ []) w).1 in
    rw
      (
        ok,
        copy_out-fits capacity (copied_size max_read_sz (bytes_of mem)) mem logged (rw bytes pos)
            (rw bytes room) (rw bytes within),
        ◌>>=◌,
      )
      (refl, rw bytes refl, rw bytes refl, (refl, refl, refl, refl, refl, refl, refl, refl))

proxy_used-proxied :
    (proxyaddr : Option Bytes) (proxy : Bytes) (w : World)
    → proxyaddr ≡ some proxy
    → proxy_used proxyaddr w
      ≡ some (if strncmp_eq proxy (codes "NULL") 4 then none else some proxy, w)
unfolding proxy_used
proxy_used-proxied proxyaddr proxy w proxied = rw proxied refl

-- Where every request is granted and the transfers from the URL succeed, `curl_sendrequest` succeeds:
-- it copies the response, all of it or the first bytes if their number is given, and returns its size.
-- The response is not empty, the bytes fit the caller's array, and they are at most the response and
-- the zero byte behind it.
pub curl_sendrequest-Copies :
    (url proxy response : Bytes) (capacity max_read_sz : ℕ) (w : World)
    → GrantsAll w.os
    → Answers url response w.os
    → w.options.proxyaddr ≡ some proxy
    → 0 < length response
    → copied_size max_read_sz response ≤ capacity
    → copied_size max_read_sz response ≤ length response + 1
    → Returns
        (Copies response (copied_size max_read_sz response) w)
        (curl_sendrequest (some url) capacity max_read_sz w)
unfolding curl_sendrequest
curl_sendrequest-Copies url proxy response capacity max_read_sz w grants answers proxied pos room
      within =
    let t : Transfer = record {
      url = url;
      verify = not w.options.net_nohttps;
      proxy = if strncmp_eq proxy (codes "NULL") 4 then none else some proxy;
      timeout = w.options.net_timeout;
    } in
    rw
      (
        grants w.io.calls curl_easy_init,
        ◌>>=◌,
        proxy_used-proxied w.options.proxyaddr proxy (asked_once w) proxied,
      )
      (Returns-and_then (Performs response (asked_once w))
        (Copies response (copied_size max_read_sz response) w) (curl_easy_perform t (asked_once w))
        _ (curl_easy_perform-Performs t response (asked_once w) grants answers)
        (λ result w' (ok, bytes, same).
          let logged = (log_write log_debug "cURL result code: %#02x" (num result.0 ∷ []) w').1 in
          Returns-mono (Copies response (copied_size max_read_sz response) logged)
            (Copies response (copied_size max_read_sz response) w) _
            (λ r w'' (status, copied, size, same').
              (status, copied, size, Same-trans w w' w'' same same'))
            (evaluate-Copies capacity max_read_sz result.0 result.2 response result.1 logged ok
              bytes pos room within)))

evaluate_overflow :
    (capacity curl_res_code error_code : ℕ) (mem : MemChunk) (w : World)
    → curl_res_code ≡ curle_ok
    → capacity < length (bytes_of mem)
    → evaluate capacity 0 (curl_res_code, mem, error_code) w ≡ none
unfolding evaluate copy_out
evaluate_overflow capacity curl_res_code error_code mem w ok over =
    let large : leb (length (bytes_of mem)) capacity ≡ false = ground arith in rw (ok, large) refl

-- Where every request is granted and the transfers from the URL succeed, `curl_sendrequest` without a
-- number of bytes has undefined behaviour for every response that is longer than the caller's array:
-- the copy leaves the array.
pub curl_sendrequest_overflow :
    (url proxy response : Bytes) (capacity : ℕ) (w : World)
    → GrantsAll w.os
    → Answers url response w.os
    → w.options.proxyaddr ≡ some proxy
    → capacity < length response
    → curl_sendrequest (some url) capacity 0 w ≡ none
unfolding curl_sendrequest
curl_sendrequest_overflow url proxy response capacity w grants answers proxied over =
    let t : Transfer = record {
      url = url;
      verify = not w.options.net_nohttps;
      proxy = if strncmp_eq proxy (codes "NULL") 4 then none else some proxy;
      timeout = w.options.net_timeout;
    } in
    rw
      (
        grants w.io.calls curl_easy_init,
        ◌>>=◌,
        proxy_used-proxied w.options.proxyaddr proxy (asked_once w) proxied,
      )
      (and_then-none (Performs response (asked_once w)) (curl_easy_perform t (asked_once w)) _
        (curl_easy_perform-Performs t response (asked_once w) grants answers)
        (λ result w' (ok, bytes, same).
          evaluate_overflow capacity result.0 result.2 result.1
            (log_write log_debug "cURL result code: %#02x" (num result.0 ∷ []) w').1 ok
            (rw bytes over)))
