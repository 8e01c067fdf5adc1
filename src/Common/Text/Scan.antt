-- ===== src/Common/Text/Scan.antt =====
-- Searching and reading C strings: `fgets` finds a line, `strchr` and `strrchr` the first and the last
-- occurrence of a byte, and a format with no percent sign prints itself.
use Prim.Native.Nat.{ℕ, zero, suc, ◌<◌}
use mathlib.Core.Path.{◌≡◌, refl, ap}
use mathlib.Core.Bool.{false}
use mathlib.Core.List.{[], ◌∷◌, ◌++◌}
use mathlib.Core.Option.{none, some}
use native.Mathlib.Omega.{arith}
use central_node.Common.Tests.{◌==◌}
use central_node.Common.Lists.{length, drop, take}
use central_node.Common.Text.{Bytes, fgets, c_str, strchr, strrchr, plain_format, strncmp_eq}

-- No byte of the string is `c`.
abbrev pub Lacks : ℕ → Bytes → Type 0
Lacks c [] = Unit {0}
Lacks c (x ∷ xs) = ((x == c) ≡ false) × Lacks c xs

pub Lacks-append : (c : ℕ) (xs ys : Bytes) → Lacks c xs → Lacks c ys → Lacks c (xs ++ ys)
Lacks-append c [] ys h k = k
Lacks-append c (x ∷ xs) ys h k = (h.0, Lacks-append c xs ys h.1 k)

-- `fgets` reads one line that fits the buffer, with its newline, and leaves the rest.
pub fgets-line :
    (n : ℕ) (l rest : Bytes)
    → Lacks b'\n' l
    → length l < n
    → fgets n (l ++ b'\n' ∷ rest) ≡ (l ++ b'\n' ∷ [], rest)
unfolding fgets
fgets-line zero l rest h fits = absurd (omega arith)
fgets-line (suc n) [] rest h fits = refl
fgets-line (suc n) (c ∷ l) rest h fits =
    rw h.0 (ap (λ r. (c ∷ r.0, r.1)) (fgets-line n l rest h.1 (omega arith)))

pub c_str-Lacks : (l : Bytes) → Lacks 0 l → c_str l ≡ l
unfolding c_str
c_str-Lacks [] h = refl
c_str-Lacks (c ∷ l) h = rw h.0 (ap (◌∷◌ c) (c_str-Lacks l h.1))

pub strchr-append :
    (c : ℕ) (before behind : Bytes)
    → Lacks c before
    → strchr c (before ++ c ∷ behind) ≡ some (length before)
unfolding strchr
strchr-append c [] behind h = ground arith
strchr-append c (x ∷ before) behind h = rw (h.0, strchr-append c before behind h.1)

strrchr-Lacks : (c : ℕ) (xs : Bytes) → Lacks c xs → strrchr c xs ≡ none
unfolding strrchr
strrchr-Lacks c [] h = refl
strrchr-Lacks c (x ∷ xs) h = rw (strrchr-Lacks c xs h.1, h.0)

pub strrchr-append :
    (c : ℕ) (before behind : Bytes)
    → Lacks c behind
    → strrchr c (before ++ c ∷ behind) ≡ some (length before)
unfolding strrchr
strrchr-append c [] behind h = rw (strrchr-Lacks c behind h) (ground arith)
strrchr-append c (x ∷ before) behind h = rw (strrchr-append c before behind h)

pub drop-append : (xs ys : Bytes) → drop (length xs) (xs ++ ys) ≡ ys
drop-append [] ys = refl
drop-append (x ∷ xs) ys = drop-append xs ys

pub take-append : (xs ys : Bytes) → take (length xs) (xs ++ ys) ≡ xs
take-append [] ys = refl
take-append (x ∷ xs) ys = ap (◌∷◌ x) (take-append xs ys)

pub plain_format-Lacks : (s : Bytes) → Lacks b'%' s → plain_format s ≡ some s
unfolding plain_format
plain_format-Lacks [] h = refl
plain_format-Lacks (c ∷ []) h = rw h.0
plain_format-Lacks (c ∷ d ∷ s) h = rw (h.0, plain_format-Lacks (d ∷ s) h.1)

-- A comparison of as many bytes as both strings have does not see what follows.
pub strncmp_eq-append :
    (a b rest : Bytes) (n : ℕ)
    → length a ≡ n
    → length b ≡ n
    → strncmp_eq (a ++ rest) b n ≡ strncmp_eq a b n
unfolding strncmp_eq
strncmp_eq-append a b rest zero p q = refl
strncmp_eq-append [] b rest (suc n) p q = absurd (omega arith)
strncmp_eq-append (x ∷ a) [] rest (suc n) p q = absurd (omega arith)
strncmp_eq-append (x ∷ a) (y ∷ b) rest (suc n) p q =
    rw (strncmp_eq-append a b rest n (omega arith) (omega arith))
