-- ===== src/Common/Text.antt =====
-- C strings as lists of byte values that hold no zero byte, and the functions of the C library
-- on them that the program calls.
pub mod Scan
pub mod Numbers
use Prim.Native.Nat.{ℕ, zero, suc, ◌+◌, ◌-◌, ◌*◌, ◌/◌, ◌%◌, ◌^◌, min}
use Prim.Native.Char.{code}
use Prim.Native.String.{String}
use mathlib.Core.Bool.{Bool, true, false, ◌&&◌, ◌||◌}
use mathlib.Core.List.{List, [], ◌∷◌, ◌++◌}
use mathlib.Core.Option
use mathlib.Core.Option.{Option, none, some}
use central_node.Common.Tests.{ltb, leb, ◌==◌, if◌then◌else◌}
use central_node.Common.Lists.{take}

abbrev pub Bytes : Type 0
Bytes = List ℕ

-- The bytes of an ASCII literal.
abbrev pub codes : String → Bytes
codes String.[] = []
codes (String.◌∷◌ c s) = code c ∷ codes s

-- The C string in a buffer: the bytes before the first zero byte.
unfoldable pub c_str : Bytes → Bytes
c_str [] = []
c_str (c ∷ cs) = if c == 0 then [] else c ∷ c_str cs

-- The byte that a pointer to a C string reads.
abbrev pub first_byte : Bytes → ℕ
first_byte [] = 0
first_byte (c ∷ cs) = c

-- `strncmp(a, b, n) == 0`
unfoldable pub strncmp_eq : Bytes → Bytes → ℕ → Bool
strncmp_eq a b zero = true
strncmp_eq [] [] (suc n) = true
strncmp_eq (x ∷ a) (y ∷ b) (suc n) = x == y && strncmp_eq a b n
strncmp_eq _ _ (suc n) = false

-- `strchr`, as the index of the first occurrence
unfoldable pub strchr : ℕ → Bytes → Option ℕ
strchr c [] = none
strchr c (x ∷ xs) = if x == c then some 0 else Option.map suc (strchr c xs)

-- `strrchr`, as the index of the last occurrence
unfoldable pub strrchr : ℕ → Bytes → Option ℕ
strrchr c [] = none
strrchr c (x ∷ xs) = elim (strrchr c xs) [
  | some i ↦ some (suc i)
  | none ↦ if x == c then some 0 else none
]

-- `s[strcspn(s, "\n")] = 0`: the bytes before the first newline
unfoldable pub before_newline : Bytes → Bytes
before_newline [] = []
before_newline (c ∷ cs) = if c == b'\n' then [] else c ∷ before_newline cs

-- `fgets(buf, n + 1, fp)` on what is left of the file: the bytes read and the rest. It reads at
-- most `n` bytes, up to and with a newline. No byte read is its `NULL`.
unfoldable pub fgets : ℕ → Bytes → Bytes × Bytes
fgets zero rest = ([], rest)
fgets (suc n) [] = ([], [])
fgets (suc n) (c ∷ cs) =
    let more = fgets n cs in if c == b'\n' then (c ∷ [], cs) else (c ∷ more.0, more.1)

abbrev pub is_digit : ℕ → Bool
is_digit c = leb b'0' c && leb c b'9'

abbrev pub is_space : ℕ → Bool
is_space c = c == b' ' || (leb 9 c && leb c 13)

-- `isalnum` in the C locale
unfoldable pub is_alnum : ℕ → Bool
is_alnum c = is_digit c || (leb b'a' c && leb c b'z') || (leb b'A' c && leb c b'Z')

abbrev pub u64 : ℕ
u64 = 2 ^ 64

-- What a number parser finds: the value and the number of bytes that it consumed.
pub record Parsed : Type 0 where
  pub value : ℕ
  pub consumed : ℕ

unfoldable pub digits_onto : ℕ → Bytes → Parsed
digits_onto acc [] = record { value = acc; consumed = 0 }
digits_onto acc (c ∷ cs) =
    let more = digits_onto (acc * 10 + (c - b'0')) cs in
    if is_digit c
    then record more { consumed = suc more.consumed }
    else record { value = acc; consumed = 0 }

-- A signed numeral behind white space. No digit means that nothing is consumed.
pub record Numeral : Type 0 where
  pub negative : Bool
  pub magnitude : ℕ
  pub length : ℕ

unfoldable pub signed_digits : Bytes → Numeral
unfolding digits_onto
signed_digits [] = record { negative = false; magnitude = 0; length = 0 }
signed_digits (c ∷ cs) =
    let signed = c == b'-' || c == b'+' in
    let body = if signed then digits_onto 0 cs else digits_onto 0 (c ∷ cs) in
    record {
      negative = c == b'-';
      magnitude = body.value;
      length =
          if body.consumed == 0 then 0 else (if signed then suc body.consumed else body.consumed);
    }

unfoldable pub numeral : Bytes → Numeral
unfolding signed_digits
numeral [] = record { negative = false; magnitude = 0; length = 0 }
numeral (c ∷ cs) =
    let more = numeral cs in
    if is_space c
    then (if more.length == 0 then more else record more { length = suc more.length })
    else signed_digits (c ∷ cs)

-- `strtoul(s, &end, 10)`: past `ULONG_MAX` the value is `ULONG_MAX`, and a minus sign negates in 64
-- bits.
unfoldable pub strtoul : Bytes → Parsed
unfolding numeral
strtoul s =
    let n = numeral s in
    record {
      value =
          if leb u64 n.magnitude
          then u64 - 1
          else (if n.negative then (u64 - n.magnitude) % u64 else n.magnitude);
      consumed = n.length;
    }

-- `strtol(s, &end, 10)` as a 64-bit pattern, within `LONG_MIN` and `LONG_MAX`
unfoldable pub strtol : Bytes → Parsed
unfolding numeral
strtol s =
    let n = numeral s in
    record {
      value =
          if n.negative
          then (u64 - min n.magnitude (2 ^ 63)) % u64
          else min n.magnitude (2 ^ 63 - 1);
      consumed = n.length;
    }

-- `strtol` sets `errno` to ERANGE.
unfoldable pub strtol_overflows : Bytes → Bool
unfolding numeral
strtol_overflows s =
    let n = numeral s in if n.negative then ltb (2 ^ 63) n.magnitude else leb (2 ^ 63) n.magnitude

-- `strstr(text, sub) != NULL`
unfoldable pub starts_with : Bytes → Bytes → Bool
starts_with text [] = true
starts_with [] (y ∷ sub) = false
starts_with (x ∷ text) (y ∷ sub) = x == y && starts_with text sub

unfoldable pub strstr : Bytes → Bytes → Bool
unfolding starts_with
strstr [] sub = starts_with [] sub
strstr (c ∷ text) sub = starts_with (c ∷ text) sub || strstr text sub

-- The decimal digits of a number, by `%lu`. Twenty rounds are enough for 64 bits.
unfoldable pub digits_of : ℕ → ℕ → Bytes
digits_of zero n = []
digits_of (suc k) n =
    let more = digits_of k (n / 10) in
    if ltb n 10 then (b'0' + n) ∷ [] else more ++ (b'0' + n % 10) ∷ []

unfoldable pub show : ℕ → Bytes
unfolding digits_of
show n = digits_of 20 n

-- A string used as a format with no arguments: `%%` prints a percent sign, and the behaviour of
-- any other conversion is undefined.
unfoldable pub plain_format : Bytes → Option Bytes
plain_format [] = some []
plain_format (c ∷ []) = if c == b'%' then none else some (c ∷ [])
plain_format (c ∷ d ∷ cs) =
    let after = plain_format cs in
    let next = plain_format (d ∷ cs) in
    if c == b'%'
    then (if d == b'%' then Option.map (◌∷◌ c) after else none)
    else Option.map (◌∷◌ c) next

-- What `snprintf(buf, size, …)` leaves in `buf` as a C string, for `size` above 0.
abbrev pub snprintf : ℕ → Bytes → Bytes
snprintf size text = take (size - 1) text
