-- ===== src/Data/Bounds.antt =====
-- What src/data/data.c computes, against an independent description.
use central_node.Common.{
  ℕ, ◌+◌, ◌-◌, ◌*◌, ◌%◌, ◌/◌, ◌^◌, ◌≤◌, ◌<◌, ◌≡◌, ◌≢◌, refl, inl, inr, arith, ◌==◌, Bool-cases,
  ==_iff,
}
use native.Mathlib.Decide.{dec_lt}
use native.Mathlib.Nat.{mul-le-mul_right, mul-mod_left, mod-add-div', mod-lt, mod-le, mod_self}
use central_node.Common.Text.{u64}
use central_node.Data.{rtonm, x_numdigits}

-- `x_numdigits` counts the decimal digits of every 64-bit number above 0.
x_numdigits_bounds :
    (n : ℕ) → 0 < n → n < u64 → (10 ^ (x_numdigits n - 1) ≤ n) × (n < 10 ^ x_numdigits n)
unfolding x_numdigits
x_numdigits_bounds n pos fits = ground arith

-- The three ways through `rtonm` for a multiple above 0.
rtonm-zero : (m : ℕ) → rtonm 0 m ≡ m
unfolding rtonm
rtonm-zero m = refl

rtonm_exact : (n m : ℕ) → 0 < n → n % m ≡ 0 → rtonm n m ≡ n
unfolding rtonm
rtonm_exact n m pos exact = ground arith

rtonm_up : (n m : ℕ) → 0 < m → n % m ≢ 0 → rtonm n m ≡ ((n + m) % u64 + u64 - n % m) % u64
unfolding rtonm
rtonm_up n m pos rest = ground (arith, mod-le n m)

rtonm_fits : (n m : ℕ) → 0 < m → n % m ≢ 0 → n + m < u64 → rtonm n m ≡ (n / m + 1) * m
rtonm_fits n m pos rest fits = omega (arith, rtonm_up n m pos rest, mod-add-div' n m, mod-lt n pos)

multiple-le : (n m k : ℕ) → n % m ≢ 0 → n ≤ k * m → n / m + 1 ≤ k
multiple-le n m k rest h = elim (dec_lt (n / m) k) [
  | yes p ↦ omega arith
  | no p ↦
      let low : k * m ≤ n / m * m = mul-le-mul_right m (omega arith) in
      absurd (omega (arith, mod-add-div' n m))
]

-- `r` is the least multiple of `m` above 0 that is not below `n`.
pub record IsLeastMultiple (n m r : ℕ) : Type 0 where
  pub multiple : r % m ≡ 0
  pub above : n ≤ r
  pub positive : 0 < r
  pub least : (k : ℕ) → 0 < k → n ≤ k * m → r ≤ k * m

up-IsLeastMultiple : (n m : ℕ) → 0 < m → n % m ≢ 0 → IsLeastMultiple n m ((n / m + 1) * m)
up-IsLeastMultiple n m pos rest = record {
  multiple = mul-mod_left (n / m + 1) m;
  above = omega (arith, mod-add-div' n m, mod-lt n pos);
  positive = omega (arith, mod-add-div' n m, mod-lt n pos);
  least = λ k _ h. mul-le-mul_right m (multiple-le n m k rest h);
}

zero-IsLeastMultiple : (m : ℕ) → 0 < m → IsLeastMultiple 0 m m
zero-IsLeastMultiple m pos = record {
  multiple = mod_self m;
  above = omega arith;
  positive = pos;
  least = λ k kp _. omega (arith, mul-le-mul_right {m = 1} {n = k} m kp);
}

-- For a multiple above 0, and where `number + multiple` fits 64 bits, `rtonm` gives the least
-- multiple above 0 that is not below the number.
pub rtonm-IsLeastMultiple : (n m : ℕ) → 0 < m → n + m < u64 → IsLeastMultiple n m (rtonm n m)
rtonm-IsLeastMultiple n m pos fits = elim (Bool-cases (n == 0)) [
  | inl z ↦ rw ((==_iff n 0).0 z, rtonm-zero m) (zero-IsLeastMultiple m pos)
  | inr nz ↦ elim (Bool-cases (n % m == 0)) [
    | inl exact ↦ rw (rtonm_exact n m (ground arith) (ground arith)) (record {
      multiple = ground arith;
      above = omega arith;
      positive = ground arith;
      least = λ k _ h. h;
    })
    | inr rest ↦
        rw (rtonm_fits n m pos (ground arith) fits) (up-IsLeastMultiple n m pos (ground arith))
  ]
]

-- Where rounding up passes 64 bits the result wraps, to less than the number.
rtonm_wraps : (n m : ℕ) → n < u64 → m < u64 → n % m ≢ 0 → u64 ≤ n + m - n % m → rtonm n m < n
rtonm_wraps n m fits fits' rest past = omega (arith, rtonm_up n m (ground arith) rest)
