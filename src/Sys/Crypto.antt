-- ===== src/Sys/Crypto.antt =====
-- src/sys/crypto/md5.c: the MD5 sum of a file and of a string. OpenSSL is a parameter: each call succeeds
-- or fails, and the digest is a function of the bytes. An array is its bytes; a text in it ends at the
-- first zero byte.
pub mod Hash
pub mod Digits
mod Tests
use central_node.Common.{
  ℕ, zero, suc, ◌+◌, ◌-◌, ◌*◌, ◌/◌, ◌%◌, Bool, true, false, Option, none, some, List, [], ◌∷◌, ◌++◌,
  ltb, leb, ◌==◌, if◌then◌else◌, length, take, drop,
}
use central_node.Common.Text.{Bytes, codes, c_str}
use central_node.World.{
  FilePath, fopen, at, md5_init, md5_update, md5_final, num, str, World, gets, ask, ask_plain,
  exit_success, exit_failure,
}
use central_node.World.Faults.{Run, ◌>>=◌, ◌>>◌, call, return, undefined}
use central_node.Sys.Logging.{
  log_write, log_write_trace, log_debug, log_error, set_last_err, set_last_errno, current_addr,
  enullptr, ecrypto, eoutbnd, eintegrity,
}

-- MD5_DIGEST_LENGTH of openssl/md5.h, which is not under src/, and MD5_LEN
abbrev pub md5_digest_length : ℕ
md5_digest_length = 16

abbrev md5_len : ℕ
md5_len = 32

-- BUFSIZ of stdio.h in glibc
abbrev pub bufsiz : ℕ
bufsiz = 8192

abbrev hex_digit : ℕ → ℕ
hex_digit d = if ltb d 10 then b'0' + d else b'a' + (d - 10)

-- `%02x` of a byte
unfoldable pub hex_byte : ℕ → Bytes
hex_byte b = hex_digit (b / 16) ∷ hex_digit (b % 16) ∷ []

-- `snprintf(hashout + pos, 4, "%02x", b)` writes two digits and a zero byte, which must lie in the
-- array.
pub write_hex : ℕ → ℕ → Bytes → Run Bytes
write_hex pos b hashout =
    if leb (pos + 3) (length hashout)
    then return (take pos hashout ++ hex_byte b ++ 0 ∷ drop (pos + 3) hashout)
    else undefined

-- `do … while (crypto_bytes > 0)`, by the bytes that are left: whether every block was taken.
hash_blocks : ℕ → Bytes → Run Bool
hash_blocks zero fp = undefined
hash_blocks (suc rounds) fp = do
  updated ← call (ask_plain md5_update)
  if updated == 0
      then (if length (take bufsiz fp) == 0
          then return true
          else hash_blocks rounds (drop bufsiz fp))
      else do
        call (set_last_err current_addr "Unable to hash stream input:" ecrypto)
        call (log_write_trace "crypto_md5hash_file()" "MD5_Update() => ctx")
        return false

-- The loop of `crypto_md5hash_file` from the index `i` on, with its check: the array, and whether the
-- check held.
convert_checked : ℕ → Bytes → Bytes → Run (Bool × Bytes)
convert_checked i [] hashout = return (true, hashout)
convert_checked i (b ∷ digest) hashout =
    if ltb (i * 2 + 1) md5_digest_length
    then (do written ← write_hex (i * 2) b hashout; convert_checked (i + 1) digest written)
    else do
      call (set_last_err current_addr "Attempted to write out of bounds:" eoutbnd)
      call (log_write_trace "crypto_md5hash_file()" "hashout")
      return (false, hashout)

-- Behind the digest: the status and the array.
convert_digest : Bytes → Bytes → Run (ℕ × Bytes)
convert_digest digest hashout = do
  converted ← convert_checked 0 (take md5_digest_length digest) hashout
  if converted.0
      then (if length (c_str converted.1) == md5_len then return (exit_success, converted.1) else do
        call (set_last_err current_addr "MD5 hash integrity check failed:" eintegrity)
        call (
            log_write log_debug "Crypto mismatch: hashout_len [%zu] != MD5_LEN"
              (num (length (c_str converted.1)) ∷ []))
        call (log_write_trace "crypto_md5hash_file()" "hashout_len")
        return (exit_failure, converted.1))
      else return (exit_failure, converted.1)

-- Behind `fopen`, with the bytes of the file.
hash_file : Bytes → Bytes → Run (ℕ × Bytes)
hash_file text hashout = do
  init ← call (ask_plain md5_init)
  if init == 0
      then (do
        hashed ← hash_blocks (suc (length text)) text
        if hashed
            then (do
              final ← call (ask_plain md5_final)
              if final == 0
                  then (do os ← call (gets (λ w. w.os)); convert_digest (os.md5 text) hashout)
                  else do
                    call (set_last_err current_addr "Unable to finalize MD5 hash:" ecrypto)
                    call (log_write_trace "crypto_md5hash_file()" "MD5_Final() => ctx")
                    return (exit_failure, hashout))
            else return (exit_failure, hashout))
      else do
        call (set_last_err current_addr "Unable to initialize MD5 CTX:" ecrypto)
        call (log_write_trace "crypto_md5hash_file()" "MD5_Init() => ctx")
        return (exit_failure, hashout)

pub crypto_md5hash_file : Option Bytes → Bytes → Run (ℕ × Bytes)
crypto_md5hash_file none hashout = do
  call (set_last_err current_addr "" enullptr)
  call (log_write_trace "crypto_md5hash_file()" "filepath")
  return (exit_failure, hashout)
crypto_md5hash_file (some filepath) hashout = do
  fp ← call (ask (fopen (at (some filepath))))
  if fp == 0
      then (do
        call (log_write log_debug "Hashing file input - '%s'" (str (some filepath) ∷ []))
        os ← call (gets (λ w. w.os))
        hash_file (os.contents filepath) hashout)
      else do
        call (set_last_errno current_addr "")
        error ← call (gets (λ w. w.error))
        call (
            log_write log_error "Unable to open file '%s' for binary reading: E%d"
              (str (some filepath) ∷ num error.last_errno ∷ []))
        call (log_write_trace "crypto_md5hash_file()" "filepath")
        return (exit_failure, hashout)

-- The loop of `crypto_md5hash_strinput`.
convert : ℕ → Bytes → Bytes → Run Bytes
convert i [] hashout = return hashout
convert i (b ∷ digest) hashout = do
  written ← write_hex (i * 2) b hashout
  convert (i + 1) digest written

pub crypto_md5hash_strinput : Option Bytes → Option Bytes → Run (ℕ × Option Bytes)
crypto_md5hash_strinput none hashout = do
  call (set_last_err current_addr "" enullptr)
  call (log_write_trace "crypto_md5hash_strinput()" "strinput || hashout")
  return (exit_failure, hashout)
crypto_md5hash_strinput (some strinput) none = do
  call (set_last_err current_addr "" enullptr)
  call (log_write_trace "crypto_md5hash_strinput()" "strinput || hashout")
  return (exit_failure, none)
crypto_md5hash_strinput (some strinput) (some hashout) = do
  call (log_write log_debug "Hashing string input - '%s'" (str (some strinput) ∷ []))
  init ← call (ask_plain md5_init)
  if init == 0
      then (do
        updated ← call (ask_plain md5_update)
        if updated == 0
            then (do
              final ← call (ask_plain md5_final)
              if final == 0
                  then (do
                    os ← call (gets (λ w. w.os))
                    converted ← convert 0 (take md5_digest_length (os.md5 strinput)) hashout
                    return (exit_success, some converted))
                  else do
                    call (set_last_err current_addr "Unable to finalize MD5 hash:" ecrypto)
                    call (log_write_trace "crypto_md5hash_file()" "MD5_Final() => ctx")
                    return (exit_failure, some hashout))
            else do
              call (set_last_err current_addr "Unable to hash stream input:" ecrypto)
              call (log_write_trace "crypto_md5hash_strinput()" "MD5_Update() => ctx")
              return (exit_failure, some hashout))
      else do
        call (set_last_err current_addr "Unable to initialize MD5 CTX:" ecrypto)
        call (log_write_trace "crypto_md5hash_strinput()" "MD5_Init() => ctx")
        return (exit_failure, some hashout)
