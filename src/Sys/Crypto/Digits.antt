-- ===== src/Sys/Crypto/Digits.antt =====
-- The text that `crypto_md5hash_strinput` writes.
use central_node.Common.{
  ℕ, zero, suc, ◌+◌, ◌*◌, ◌≤◌, ◌<◌, ◌≡◌, refl, sym, ap, ◌∙◌, some, [], ◌∷◌, ◌++◌, take, drop,
  length, arith, length-append, length-drop,
}
use central_node.Common.Text.{Bytes}
use central_node.Common.Text.Scan.{take-append}
use central_node.World.{World, exit_success, md5_init, md5_update, md5_final, str}
use central_node.World.Faults.{Returns, ◌>>=◌}
use central_node.Sys.Sysctl.Granted.{GrantsAll, asked_once}
use central_node.Sys.Logging.{log_write, log_debug}
use central_node.Net.Curl.Deliver.{append_assoc}
use central_node.Sys.Crypto.{md5_digest_length, hex_byte, convert, crypto_md5hash_strinput}
use central_node.Sys.Crypto.Hash.{written, write_hex-fits}

-- Two digits for each byte.
abbrev pub hexes : Bytes → Bytes
hexes [] = []
hexes (b ∷ bytes) = hex_byte b ++ hexes bytes

-- What stands behind the digits when those of a digest are written over the start.
abbrev after : Bytes → Bytes → Bytes
after [] rest = rest
after (b ∷ digest) rest = after digest (0 ∷ drop 3 rest)

drop-nil : (n : ℕ) → drop {A = ℕ} n [] ≡ []
drop-nil zero = refl
drop-nil (suc n) = refl

drop-drop : (n : ℕ) (xs : Bytes) → drop n (drop 3 xs) ≡ drop (suc (suc (suc n))) xs
drop-drop n [] = drop-nil n
drop-drop n (a ∷ []) = drop-nil n
drop-drop n (a ∷ b ∷ []) = drop-nil n
drop-drop n (a ∷ b ∷ c ∷ xs) = refl

after-cons :
    (b : ℕ) (digest rest : Bytes) → after (b ∷ digest) rest ≡ 0 ∷ drop (2 * length digest + 3) rest
after-cons b [] rest = refl
after-cons b (d ∷ digest) rest =
    let fewer : 2 * length digest + 3 ≡ suc (2 * length digest + 2) = omega arith in
    let more : 2 * suc (length digest) + 3 ≡ suc (suc (suc (2 * length digest + 2))) =
      omega arith in
    after-cons d digest (0 ∷ drop 3 rest)
    ∙ ap (λ n. 0 ∷ drop n (0 ∷ drop 3 rest)) fewer
    ∙ ap (◌∷◌ 0) (drop-drop (2 * length digest + 2) rest)
    ∙ ap (λ n. 0 ∷ drop n rest) (sym more)

after-digest :
    (digest rest : Bytes) → length digest ≡ md5_digest_length → after digest rest ≡ 0 ∷ drop 33 rest
after-digest [] rest size = absurd (omega (arith, size))
after-digest (b ∷ digest) rest size =
    let here : 2 * length digest + 3 ≡ 33 = omega (arith, size) in
    after-cons b digest rest ∙ ap (λ n. 0 ∷ drop n rest) here

drop-append_more : (xs ys : Bytes) (n : ℕ) → drop (length xs + n) (xs ++ ys) ≡ drop n ys
drop-append_more [] ys n = ap (λ k. drop k ys) (omega arith)
drop-append_more (x ∷ xs) ys n =
    let shifted : suc (length xs) + n ≡ suc (length xs + n) = omega arith in
    ap (λ k. drop k (x ∷ xs ++ ys)) shifted ∙ drop-append_more xs ys n

written-append :
    (pos b : ℕ) (done rest : Bytes)
    → length done ≡ pos
    → written pos b (done ++ rest) ≡ (done ++ hex_byte b) ++ 0 ∷ drop 3 rest
written-append pos b done rest here =
    rw (← here) (rw (take-append done rest, drop-append_more done rest 3) refl)

length-hex_byte : (b : ℕ) → length (hex_byte b) ≡ 2
unfolding hex_byte
length-hex_byte b = refl

convert-Hexes :
    (i : ℕ) (digest done rest : Bytes) (w : World)
    → length done ≡ i * 2
    → 2 * length digest < length rest
    → convert i digest (done ++ rest) w ≡ some (done ++ (hexes digest ++ after digest rest), w)
unfolding convert
convert-Hexes i [] done rest w here fits = refl
convert-Hexes i (b ∷ digest) done rest w here fits =
    let inside : i * 2 + 3 ≤ length (done ++ rest) =
      omega (arith, here, fits, length-append done rest) in
    let here' : length (done ++ hex_byte b) ≡ (i + 1) * 2 =
      omega (arith, here, length-append done (hex_byte b), length-hex_byte b) in
    let fits' : 2 * length digest < length (0 ∷ drop 3 rest) =
      omega (arith, fits, length-drop 3 rest) in
    let later = after digest (0 ∷ drop 3 rest) in
    rw
      (
        convert,
        ◌>>=◌,
        write_hex-fits (i * 2) b (done ++ rest) w inside,
        written-append (i * 2) b done rest here,
        convert-Hexes (i + 1) digest (done ++ hex_byte b) (0 ∷ drop 3 rest) w here' fits',
      )
      (ap (λ text. some (text, w))
        (append_assoc done (hex_byte b) (hexes digest ++ later)
          ∙ ap (λ t. done ++ t) (sym (append_assoc (hex_byte b) (hexes digest) later))))

take-length : (xs : Bytes) → take (length xs) xs ≡ xs
take-length [] = refl
take-length (x ∷ xs) = ap (◌∷◌ x) (take-length xs)

-- Where every call of OpenSSL succeeds, with a digest of 16 bytes and room for 33 bytes or more,
-- `crypto_md5hash_strinput` is defined and reports EXIT_SUCCESS, and the output begins with the two
-- hexadecimal digits of each byte of the digest, in order, and a zero byte. Nothing behind them is
-- touched.
pub crypto_md5hash_strinput-Hexes :
    (strinput hashout : Bytes) (w : World)
    → GrantsAll w.os
    → length (w.os.md5 strinput) ≡ md5_digest_length
    → 33 ≤ length hashout
    → Returns
        (λ result w'.
          result ≡ (exit_success, some (hexes (w.os.md5 strinput) ++ 0 ∷ drop 33 hashout)))
        (crypto_md5hash_strinput (some strinput) (some hashout) w)
unfolding crypto_md5hash_strinput
crypto_md5hash_strinput-Hexes strinput hashout w grants size large =
    let logged =
      (log_write log_debug "Hashing string input - '%s'" (str (some strinput) ∷ []) w).1 in
    let digest = w.os.md5 strinput in
    let all : take md5_digest_length digest ≡ digest =
      ap (λ n. take n digest) (sym size) ∙ take-length digest in
    let fits : 2 * length digest < length hashout = omega (arith, size, large) in
    rw
      (
        crypto_md5hash_strinput,
        ◌>>=◌,
        grants logged.io.calls md5_init,
        grants (logged.io.calls + 1) md5_update,
        grants (logged.io.calls + 1 + 1) md5_final,
        all,
        convert-Hexes 0 digest [] hashout (asked_once (asked_once (asked_once logged))) refl fits,
        after-digest digest hashout size,
      )
      refl
