-- ===== src/Net/Curl/Deliver.antt =====
-- What libcurl passes on is collected: the pieces of a transfer become one response.
use central_node.Common.{
  ℕ, ◌≡◌, refl, sym, ap, ◌∙◌, Bool, true, none, some, List, [], ◌∷◌, ◌++◌, arith, ◌==◌, length,
  take,
}
use central_node.Common.Text.{Bytes}
use central_node.World.{World, Os, malloc, answer, exit_success}
use central_node.World.Networks.{Transfer}
use central_node.World.Faults.{Returns, Returns-and_then, Returns-mono, ◌>>=◌}
use central_node.Sys.Sysctl.Granted.{GrantsAll, asked_once}
use central_node.Net.Curl.{
  MemChunk, bytes_of, curle_ok, curl_writefunc, deliver, curl_easy_perform, Response,
  curl_node_init,
}
use central_node.World.{curl_global_init}

-- What is the same when only the log, the error and the requests differ.
abbrev pub Same : World → World → Type 0
Same w w' =
    (w'.options ≡ w.options)
    × (w'.os ≡ w.os)
    × (w'.disk ≡ w.disk)
    × (w'.log ≡ w.log)
    × (w'.net ≡ w.net)
    × (w'.process ≡ w.process)
    × (w'.startup ≡ w.startup)
    × (w'.screen ≡ w.screen)

abbrev pub Same-trans : (u v w : World) → Same u v → Same v w → Same u w
Same-trans u v w (a, b, c, d, e, f, g, h) (a', b', c', d', e', f', g', h') =
    (a' ∙ a, b' ∙ b, c' ∙ c, d' ∙ d, e' ∙ e, f' ∙ f, g' ∙ g, h' ∙ h)

-- The start of libcurl touches the log and counts its request.
pub curl_node_init-granted :
    (w : World)
    → GrantsAll w.os
    → Returns (λ code w'. (code ≡ exit_success) × Same w w') (curl_node_init w)
unfolding curl_node_init
curl_node_init-granted w grants =
    rw (grants w.io.calls curl_global_init) (refl, (refl, refl, refl, refl, refl, refl, refl, refl))

abbrev concat : List Bytes → Bytes
concat [] = []
concat (piece ∷ pieces) = piece ++ concat pieces

pub append_assoc {ℓ} : {A : Type ℓ} (xs ys zs : List A) → (xs ++ ys) ++ zs ≡ xs ++ (ys ++ zs)
append_assoc [] ys zs = refl
append_assoc (x ∷ xs) ys zs = ap (◌∷◌ x) (append_assoc xs ys zs)

pub append_nil {ℓ} : {A : Type ℓ} (xs : List A) → xs ++ [] ≡ xs
append_nil [] = refl
append_nil (x ∷ xs) = ap (◌∷◌ x) (append_nil xs)

abbrev Collects : List Bytes → MemChunk → World → (Bool × MemChunk) → World → Type 0
Collects pieces mem w taken w' =
    (taken.0 ≡ true) × (bytes_of taken.1 ≡ bytes_of mem ++ concat pieces) × Same w w'

same_length : (n : ℕ) → (n == n) ≡ true
same_length n = ground arith

curl_writefunc-granted :
    (piece : Bytes) (mem : MemChunk) (w : World)
    → GrantsAll w.os
    → curl_writefunc piece mem w
      ≡ some ((length piece, record { response = some (bytes_of mem ++ piece) }), asked_once w)
unfolding curl_writefunc answer
curl_writefunc-granted piece mem w grants = rw (grants w.io.calls malloc) refl

-- Where memory is granted, every piece is taken, and the chunk holds them in order.
deliver-Collects :
    (pieces : List Bytes) (mem : MemChunk) (w : World)
    → GrantsAll w.os
    → Returns (Collects pieces mem w) (deliver pieces mem w)
unfolding deliver
deliver-Collects [] mem w grants =
    (refl, sym (append_nil (bytes_of mem)), (refl, refl, refl, refl, refl, refl, refl, refl))
deliver-Collects (piece ∷ pieces) mem w grants =
    rw (curl_writefunc-granted piece mem w grants, ◌>>=◌, same_length (length piece))
      (Returns-mono
        (Collects pieces (record { response = some (bytes_of mem ++ piece) }) (asked_once w))
        (Collects (piece ∷ pieces) mem w) _
        (λ r w' (all, bytes, same).
          (all, bytes ∙ append_assoc (bytes_of mem) piece (concat pieces), same))
        (deliver-Collects pieces (record { response = some (bytes_of mem ++ piece) }) (asked_once w)
          grants))

-- A system whose transfers from a URL succeed, and bring a response in some pieces.
abbrev pub Answers : Bytes → Bytes → Os → Type 0
Answers url response os =
    (n : ℕ) (t : Transfer)
    → t.url ≡ url
    → ((os.transfer n t).result ≡ curle_ok) × (concat (os.transfer n t).pieces ≡ response)

abbrev pub Performs : Bytes → World → (ℕ × MemChunk × ℕ) → World → Type 0
Performs response w result w' = (result.0 ≡ curle_ok) × (bytes_of result.1 ≡ response) × Same w w'

pub curl_easy_perform-Performs :
    (t : Transfer) (response : Bytes) (w : World)
    → GrantsAll w.os
    → Answers t.url response w.os
    → Returns (Performs response w) (curl_easy_perform t w)
unfolding curl_easy_perform
curl_easy_perform-Performs t response w grants answers =
    let result = w.os.transfer w.io.calls t in
    let (ok, bytes) = answers w.io.calls t refl in
    Returns-and_then (Collects result.pieces (record { response = none }) w) (Performs response w) _
      _ (deliver-Collects result.pieces (record { response = none }) w grants)
      (λ r w' (all, collected, same). (rw all ok, collected ∙ bytes, same))

-- The result of a successful request: the response, or its first bytes, is copied to the caller.
abbrev pub Copies : Bytes → ℕ → World → Response → World → Type 0
Copies response cpysz w r w' =
    (r.status ≡ exit_success)
    × (r.copied ≡ take cpysz (response ++ 0 ∷ []))
    × (r.strout_sz ≡ length response)
    × Same w w'
