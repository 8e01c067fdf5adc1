-- ===== src/Common/Text/Numbers.antt =====
-- Decimal numbers: `strtoul` reads back what `%lu` prints.
use Prim.Native.Nat.{ℕ, zero, suc, ◌+◌, ◌-◌, ◌*◌, ◌/◌, ◌%◌, ◌^◌, ◌≤◌, ◌<◌}
use mathlib.Core.Path.{◌≡◌, refl, ◌∙◌}
use mathlib.Core.Bool.{true, false}
use mathlib.Core.Logic.{inl, inr}
use mathlib.Core.List.{[], ◌∷◌, ◌++◌}
use native.Mathlib.Nat.{pow-suc}
use native.Mathlib.Omega.{arith}
use central_node.Common.Tests.{ltb, Bool-cases}
use central_node.Common.Lists.{length, length-append}
use central_node.Common.Text.Scan.{Lacks}
use central_node.Common.Text.{
  Bytes, digits_onto, digits_of, show, is_digit, signed_digits, numeral, strtoul, u64,
}

abbrev AllDigits : Bytes → Type 0
AllDigits [] = Unit {0}
AllDigits (c ∷ cs) = (is_digit c ≡ true) × AllDigits cs

-- the number that digits add up to behind `acc`
abbrev value_from : ℕ → Bytes → ℕ
value_from acc [] = acc
value_from acc (c ∷ cs) = value_from (acc * 10 + (c - b'0')) cs

value_from-concat :
    (acc : ℕ) (ds : Bytes) (d : ℕ)
    → value_from acc (ds ++ d ∷ []) ≡ value_from acc ds * 10 + (d - b'0')
value_from-concat acc [] d = refl
value_from-concat acc (c ∷ ds) d = value_from-concat (acc * 10 + (c - b'0')) ds d

AllDigits-concat :
    (ds : Bytes) (d : ℕ) → AllDigits ds → is_digit d ≡ true → AllDigits (ds ++ d ∷ [])
AllDigits-concat [] d h k = (k, tt)
AllDigits-concat (c ∷ ds) d h k = (h.0, AllDigits-concat ds d h.1 k)

digits_of-AllDigits : (k n : ℕ) → AllDigits (digits_of k n)
unfolding digits_of
digits_of-AllDigits zero n = tt
digits_of-AllDigits (suc k) n = elim (Bool-cases (ltb n 10)) [
  | inl small ↦ rw small (ground arith, tt)
  | inr large ↦ rw large (AllDigits-concat _ _ (digits_of-AllDigits k (n / 10)) (ground arith))
]

digits_of-value : (k n : ℕ) → n < 10 ^ k → value_from 0 (digits_of k n) ≡ n
unfolding digits_of
digits_of-value zero n h = omega arith
digits_of-value (suc k) n h = elim (Bool-cases (ltb n 10)) [
  | inl small ↦ rw small (omega arith)
  | inr large ↦
      rw (large, value_from-concat 0 (digits_of k (n / 10)) (b'0' + n % 10))
        (omega (arith, digits_of-value k (n / 10) (omega (arith, pow-suc 10 k))))
]

digits_of-ne_nil : (k n : ℕ) → 0 < length (digits_of (suc k) n)
unfolding digits_of
digits_of-ne_nil k n = ground (arith, length-append (digits_of k (n / 10)) ((b'0' + n % 10) ∷ []))

length-digits_of-le : (k n : ℕ) → length (digits_of k n) ≤ k
unfolding digits_of
length-digits_of-le zero n = omega arith
length-digits_of-le (suc k) n = ground (
  arith,
  length-append (digits_of k (n / 10)) ((b'0' + n % 10) ∷ []),
  length-digits_of-le k (n / 10),
)

-- No byte that is not a digit stands in a printed number.
AllDigits-Lacks : (ds : Bytes) (c : ℕ) → AllDigits ds → is_digit c ≡ false → Lacks c ds
AllDigits-Lacks [] c h k = tt
AllDigits-Lacks (d ∷ ds) c h k = (ground arith, AllDigits-Lacks ds c h.1 k)

pub show-Lacks : (n c : ℕ) → is_digit c ≡ false → Lacks c (show n)
unfolding show
show-Lacks n c h = AllDigits-Lacks (digits_of 20 n) c (digits_of-AllDigits 20 n) h

pub length-show-le : (n : ℕ) → length (show n) ≤ 20
unfolding show
length-show-le n = length-digits_of-le 20 n

digits_onto-AllDigits :
    (ds : Bytes) (acc c : ℕ) (rest : Bytes)
    → AllDigits ds
    → is_digit c ≡ false
    → digits_onto acc (ds ++ c ∷ rest) ≡ record { value = value_from acc ds; consumed = length ds }
unfolding digits_onto
digits_onto-AllDigits [] acc c rest h stop = rw stop
digits_onto-AllDigits (d ∷ ds) acc c rest h stop =
    rw (h.0, digits_onto-AllDigits ds (acc * 10 + (d - b'0')) c rest h.1 stop)

-- Behind the digits stands a byte that is no digit.
strtoul-AllDigits :
    (ds : Bytes) (c : ℕ) (rest : Bytes)
    → AllDigits ds
    → 0 < length ds
    → value_from 0 ds < u64
    → is_digit c ≡ false
    → strtoul (ds ++ c ∷ rest) ≡ record { value = value_from 0 ds; consumed = length ds }
unfolding strtoul numeral signed_digits
strtoul-AllDigits [] c rest h ne fits stop = absurd (omega arith)
strtoul-AllDigits (d ∷ ds) c rest h ne fits stop =
    ground (arith, digits_onto-AllDigits (d ∷ ds) 0 c rest h stop)

-- `strtoul` reads back every 64-bit number that `%lu` printed, and stops right behind it.
pub strtoul-show :
    (n c : ℕ) (rest : Bytes)
    → n < u64
    → is_digit c ≡ false
    → strtoul (show n ++ c ∷ rest) ≡ record { value = n; consumed = length (show n) }
unfolding show
strtoul-show n c rest fits stop =
    let same = digits_of-value 20 n (omega arith) in
    strtoul-AllDigits (digits_of 20 n) c rest (digits_of-AllDigits 20 n) (digits_of-ne_nil 19 n)
      (omega (arith, same)) stop
    ∙ rw same
