-- ===== src/Sys/Crypto/Tests.antt =====
-- The MD5 functions at concrete inputs.
use central_node.Common.{◌≡◌, refl, some, ◌++◌, ◌∷◌, drop, arith}
use central_node.Common.Text.{Bytes, codes}
use central_node.World.{exit_success, exit_failure}
use central_node.World.Tests.{started}
use central_node.World.Faults.{Returns}
use central_node.Sys.Crypto.{crypto_md5hash_file, crypto_md5hash_strinput}
use central_node.Sys.Crypto.Hash.{crypto_md5hash_file-Fails}
use central_node.Sys.Crypto.Digits.{hexes, crypto_md5hash_strinput-Hexes}

-- An array of 40 bytes.
abbrev array : Bytes
array = codes "----------------------------------------"

crypto_md5hash_file-Fails_example :
    Returns
      (λ result w'. result.0 ≡ exit_failure)
      (crypto_md5hash_file (some (codes "/bin/tincd")) array started)
crypto_md5hash_file-Fails_example =
    crypto_md5hash_file-Fails (some (codes "/bin/tincd")) array started (λ text. refl) (omega arith)

crypto_md5hash_strinput-Hexes_example :
    Returns
      (λ result w'.
        result ≡ (exit_success, some (hexes (codes "0123456789abcdef") ++ 0 ∷ drop 33 array)))
      (crypto_md5hash_strinput (some (codes "text")) (some array) started)
crypto_md5hash_strinput-Hexes_example =
    crypto_md5hash_strinput-Hexes (codes "text") array started (λ n r. refl) refl (omega arith)
