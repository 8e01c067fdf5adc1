-- ===== src/Net/Curl.antt =====
-- src/net/curlcomm.c. libcurl is a parameter: for the options that a transfer is set up with, the system
-- answers with the pieces of data that it passes to the write callback and with its result codes.
pub mod Request
pub mod Deliver
use central_node.Common.{
  ℕ, zero, suc, ◌+◌, ◌-◌, Bool, true, false, not, ◌&&◌, Option, none, some, List, [], ◌∷◌, ◌++◌,
  ltb, leb, ◌==◌, if◌then◌else◌, length, take,
}
use central_node.Common.Text.{Bytes, codes, c_str, strncmp_eq}
use central_node.World.{
  curl_global_init, curl_easy_init, malloc, num, str, World, M, pure, gets, modify, ask, ask_plain,
  exit_success, exit_failure,
}
use central_node.World.Networks.{Transfer, Transferred}
use central_node.World.Faults.{Run, ◌>>=◌, ◌>>◌, call, return, undefined}
use central_node.Sys.Logging.{
  log_write, log_write_trace, log_debug, log_error, set_last_err, set_last_errno, current_addr,
  enullptr, ecurlinit,
}

-- `struct curl_memchunk`. `size` is the length of the response; `NULL` holds no byte.
pub record MemChunk : Type 0 where
  pub response : Option Bytes

abbrev pub bytes_of : MemChunk → Bytes
bytes_of mem = elim mem.response [ some s ↦ s | none ↦ [] ]

abbrev pub curle_ok : ℕ
curle_ok = 0

-- What libcurl documents for a write callback that takes another number of bytes than it is given
abbrev curle_write_error : ℕ
curle_write_error = 23

pub curl_node_init : Run ℕ
curl_node_init = do
  retcode ← call (ask_plain curl_global_init)
  if retcode == curle_ok
      then (do
        call (log_write log_debug "Initialized global cURL instance" [])
        return exit_success)
      else do
        call (set_last_err current_addr "Unable to initialize cURL instance:" retcode)
        call (log_write_trace "curl_node_init()" "curl_global_init()")
        return exit_failure

-- The number of bytes taken, and the new contents of the chunk.
pub curl_writefunc : Bytes → MemChunk → Run (ℕ × MemChunk)
curl_writefunc bytes mem = do
  refused ← call (ask malloc)
  if refused == 0
      then return (length bytes, record { response = some (bytes_of mem ++ bytes) })
      else do
        call (set_last_errno current_addr "Unable to reallocate memory:")
        call (log_write_trace "curl_write_callback()" "realloc()")
        return (0, mem)

-- libcurl passes on the pieces in order, and stops when the callback does not take one whole. The
-- first component is whether it took them all.
pub deliver : List Bytes → MemChunk → Run (Bool × MemChunk)
deliver [] mem = return (true, mem)
deliver (piece ∷ pieces) mem = do
  taken ← curl_writefunc piece mem
  if taken.0 == length piece then deliver pieces taken.1 else return (false, taken.1)

-- `strncmp(nodecfg.proxyaddr, "NULL", 4) != 0`: the proxy that is used. It must not be `NULL`.
proxy_used : Option Bytes → Run (Option Bytes)
proxy_used none = undefined
proxy_used (some proxyaddr) =
    return (if strncmp_eq proxyaddr (codes "NULL") 4 then none else some proxyaddr)

-- `curl_easy_perform`, with the response code
pub curl_easy_perform : Transfer → Run (ℕ × MemChunk × ℕ)
curl_easy_perform options = do
  result ← call (gets (λ w. w.os.transfer w.io.calls options))
  delivered ← deliver result.pieces (record { response = none })
  return
      (if delivered.0 then result.result else curle_write_error, delivered.1, result.response_code)

-- `memcpy(strout, curlstr.response, cpysz)`: the response has a zero byte behind it, and neither
-- array may be left.
is_null : Option Bytes → Bool
is_null none = true
is_null (some s) = false

copy_out : ℕ → ℕ → MemChunk → Run Bytes
copy_out capacity cpysz mem =
    if leb cpysz capacity
      && (leb cpysz (length (bytes_of mem) + 1) && not (ltb 0 cpysz && is_null mem.response))
    then return (take cpysz (bytes_of mem ++ 0 ∷ []))
    else undefined

-- What a request gives its caller: the status, the bytes that were copied to `strout`, and the size
-- of the response where the request succeeded.
pub record Response : Type 0 where
  pub status : ℕ
  pub copied : Bytes
  pub strout_sz : ℕ

failed : Response
failed = record { status = exit_failure; copied = []; strout_sz = 0 }

-- The `switch` on the result code.
evaluate : ℕ → ℕ → (ℕ × MemChunk × ℕ) → Run Response
evaluate capacity max_read_sz (curl_res_code, mem, error_code) =
    if curl_res_code == curle_ok
    then (do
      call (log_write log_debug "CURL_STRDATA: \n---\n%s---" (str mem.response ∷ []))
      copied ←
          copy_out capacity (if max_read_sz == 0 then length (bytes_of mem) else max_read_sz) mem
      return (record { status = exit_success; copied = copied; strout_sz = length (bytes_of mem) }))
    else if leb 400 error_code && leb error_code 599
    then (do
      call (log_write log_error "Remote repository returned HTTP error %ld" (num error_code ∷ []))
      return failed)
    else do
      call (
          log_write log_error
            "An unknown error has occured trying to communicate with remote repository" [])
      call (
          log_write log_debug "\nTRACE: HTTP_RES='%ld'; cURL_RES='%ld'"
            (num error_code ∷ num curl_res_code ∷ []))
      return failed

-- `strout` has room for `capacity` bytes.
pub curl_sendrequest : Option Bytes → ℕ → ℕ → Run Response
curl_sendrequest none capacity max_read_sz = do
  call (set_last_err current_addr "" enullptr)
  call (log_write_trace "curl_sendrequest()" "curl_http_desturl")
  return failed
curl_sendrequest (some url) capacity max_read_sz = do
  refused ← call (ask_plain curl_easy_init)
  if refused == 0
      then (do
        options ← call (gets (λ w. w.options))
        proxy ← proxy_used options.proxyaddr
        result ← curl_easy_perform (record {
          url = url;
          verify = not options.net_nohttps;
          proxy = proxy;
          timeout = options.net_timeout;
        })
        call (log_write log_debug "cURL result code: %#02x" (num result.0 ∷ []))
        evaluate capacity max_read_sz result)
      else do
        call (set_last_err current_addr "Unable to initialize new cURL instance:" ecurlinit)
        call (log_write_trace "curl_sendrequest()" "curl_instance")
        return failed
