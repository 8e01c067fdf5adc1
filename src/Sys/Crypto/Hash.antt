-- ===== src/Sys/Crypto/Hash.antt =====
-- What the two functions say of a hash.
use central_node.Common.{
  ℕ, zero, suc, ◌+◌, ◌*◌, ◌≤◌, ◌<◌, ◌≡◌, refl, ap, ◌∙◌, Bool, true, false, Option, none, some, [],
  ◌∷◌, ◌++◌, take, drop, length, min, arith, ◌==◌, ltb, leb, Bool-cases, inl, inr, length-append,
  length-take, length-drop,
}
use central_node.Common.Text.{Bytes}
use central_node.World.{World, answer, exit_failure, md5_init, md5_update, md5_final, fopen, at}
use central_node.World.{str}
use central_node.Sys.Logging.{log_write, log_debug}
use central_node.Sys.Sysctl.Granted.{asked_once}
use central_node.World.Faults.{Returns, Returns-and_then, ◌>>=◌}
use central_node.Sys.Crypto.{
  md5_digest_length, bufsiz, hex_byte, write_hex, hash_blocks, convert_checked, convert_digest,
  hash_file, crypto_md5hash_file,
}

-- The bytes where two digits and a zero byte are written.
abbrev pub written : ℕ → ℕ → Bytes → Bytes
written pos b hashout = take pos hashout ++ hex_byte b ++ 0 ∷ drop (pos + 3) hashout

pub write_hex-fits :
    (pos b : ℕ) (hashout : Bytes) (w : World)
    → pos + 3 ≤ length hashout
    → write_hex pos b hashout w ≡ some (written pos b hashout, w)
unfolding write_hex
write_hex-fits pos b hashout w fits =
    let inside : leb (pos + 3) (length hashout) ≡ true = ground (arith, fits) in
    rw (write_hex, inside) refl

length-written :
    (pos b : ℕ) (hashout : Bytes)
    → pos + 3 ≤ length hashout
    → length (written pos b hashout) ≡ length hashout
unfolding hex_byte
length-written pos b hashout fits =
    length-append (take pos hashout ++ hex_byte b) (0 ∷ drop (pos + 3) hashout)
    ∙ omega (
      arith,
      fits,
      length-append (take pos hashout) (hex_byte b),
      length-take pos hashout,
      length-drop (pos + 3) hashout,
    )

Unconverted : World → Bool × Bytes → World → Type 0
Unconverted w converted w' = converted.0 ≡ false

-- The check lets half of the digest through.
convert_checked-Unconverted :
    (i : ℕ) (digest hashout : Bytes) (w : World)
    → 17 ≤ length hashout
    → i ≤ 8
    → 8 < i + length digest
    → Returns (Unconverted w) (convert_checked i digest hashout w)
unfolding convert_checked Unconverted
convert_checked-Unconverted i [] hashout w large few more = absurd (omega arith)
convert_checked-Unconverted i (b ∷ digest) hashout w large few more =
    elim (Bool-cases (ltb (i * 2 + 1) md5_digest_length)) [
      | inr outside ↦ rw (convert_checked, outside) refl
      | inl inside ↦
          let less : i < 8 = ground (arith, inside) in
          let fits : i * 2 + 3 ≤ length hashout = omega (arith, less, large) in
          let same = length-written (i * 2) b hashout fits in
          rw (convert_checked, inside, ◌>>=◌, write_hex-fits (i * 2) b hashout w fits)
            (convert_checked-Unconverted (i + 1) digest (written (i * 2) b hashout) w
              (omega (arith, same, large)) (omega (arith, less)) (omega (arith, more)))
    ]

Fails : ℕ × Bytes → World → Type 0
Fails result w = result.0 ≡ exit_failure

convert_digest-Fails :
    (digest hashout : Bytes) (w : World)
    → length digest ≡ md5_digest_length
    → 17 ≤ length hashout
    → Returns Fails (convert_digest digest hashout w)
unfolding convert_digest Fails Unconverted
convert_digest-Fails digest hashout w size large =
    let all : length (take md5_digest_length digest) ≡ md5_digest_length =
      length-take md5_digest_length digest ∙ ap (min md5_digest_length) size in
    Returns-and_then (Unconverted w) Fails
      (convert_checked 0 (take md5_digest_length digest) hashout w) _
      (convert_checked-Unconverted 0 (take md5_digest_length digest) hashout w large (omega arith)
        (omega (arith, all)))
      (λ converted w' unconverted. rw unconverted refl)

SameOs : World → Bool → World → Type 0
SameOs w hashed w' = w'.os ≡ w.os

hash_blocks-SameOs :
    (rounds : ℕ) (fp : Bytes) (w : World)
    → length fp < rounds
    → Returns (SameOs w) (hash_blocks rounds fp w)
unfolding hash_blocks SameOs
hash_blocks-SameOs zero fp w enough = absurd (omega (arith, enough))
hash_blocks-SameOs (suc rounds) fp w enough =
    elim (Bool-cases (w.os.refuse w.io.calls md5_update == 0)) [
      | inr refused ↦ rw (hash_blocks, refused) refl
      | inl updated ↦ elim (Bool-cases (length (take bufsiz fp) == 0)) [
        | inl end ↦ rw (hash_blocks, updated, end) refl
        | inr more ↦
            let some_left : 0 < length fp = ground (arith, more, length-take bufsiz fp) in
            let shorter : length (drop bufsiz fp) < rounds =
              omega (arith, length-drop bufsiz fp, some_left, enough) in
            rw (hash_blocks, updated, more)
              (hash_blocks-SameOs rounds (drop bufsiz fp)
                (record w { io = record w.io { calls = w.io.calls + 1 } }) shorter)
      ]
    ]

hash_file-Fails :
    (text hashout : Bytes) (w : World)
    → length (w.os.md5 text) ≡ md5_digest_length
    → 17 ≤ length hashout
    → Returns Fails (hash_file text hashout w)
unfolding hash_file Fails SameOs
hash_file-Fails text hashout w size large =
    elim (Bool-cases (w.os.refuse w.io.calls md5_init == 0)) [
      | inr refused ↦ rw (hash_file, refused) refl
      | inl init ↦
          let w1 = record w { io = record w.io { calls = w.io.calls + 1 } } in
          rw (hash_file, init)
            (Returns-and_then (SameOs w1) Fails (hash_blocks (suc (length text)) text w1) _
              (hash_blocks-SameOs (suc (length text)) text w1 (omega arith))
              (λ hashed w2 os. elim (Bool-cases hashed) [
                | inr failed ↦ rw failed refl
                | inl done ↦ elim (Bool-cases (w2.os.refuse w2.io.calls md5_final == 0)) [
                  | inr refused ↦ rw (done, refused) refl
                  | inl final ↦
                      rw (done, final)
                        (convert_digest-Fails (w2.os.md5 text) hashout
                          (record w2 { io = record w2.io { calls = w2.io.calls + 1 } })
                          (ap (λ o. length (o.md5 text)) os ∙ size) large)
                ]
              ]))
    ]

-- Whatever the system and OpenSSL answer, with digests of 16 bytes and room for 17 bytes or more,
-- `crypto_md5hash_file` is defined and reports EXIT_FAILURE: no file is ever hashed with success.
pub crypto_md5hash_file-Fails :
    (filepath : Option Bytes) (hashout : Bytes) (w : World)
    → ((text : Bytes) → length (w.os.md5 text) ≡ md5_digest_length)
    → 17 ≤ length hashout
    → Returns (λ result w'. result.0 ≡ exit_failure) (crypto_md5hash_file filepath hashout w)
unfolding crypto_md5hash_file answer Fails
crypto_md5hash_file-Fails none hashout w size large = refl
crypto_md5hash_file-Fails (some filepath) hashout w size large =
    elim (Bool-cases (w.os.refuse w.io.calls (fopen (at (some filepath))) == 0)) [
      | inr refused ↦ rw (crypto_md5hash_file, answer, refused, refused) refl
      | inl opened ↦
          rw (crypto_md5hash_file, answer, opened)
            (hash_file-Fails (w.os.contents filepath) hashout
              (log_write log_debug "Hashing file input - '%s'" (str (some filepath) ∷ [])
                (asked_once w)).1
              (size (w.os.contents filepath)) large)
    ]
