-- ===== src/Data.antt =====
-- src/data/data.c: operations on 64-bit numbers. A result wraps at 2 ^ 64 where the code's does.
pub mod Bounds
mod Tests
use central_node.Common.{ℕ, ◌+◌, ◌-◌, ◌%◌, ◌^◌, ltb, ◌==◌, if◌then◌else◌}
use central_node.Common.Text.{u64}

-- `unsigned char x_ctoi(char c)`
pub x_ctoi : ℕ → ℕ
x_ctoi c = (c + 256 - 48) % 256

-- Rounds up to a multiple. 0 is rounded to `multiple` itself.
unfoldable pub rtonm : ℕ → ℕ → ℕ
rtonm number multiple =
    if number == 0
    then multiple
    else if multiple == 0
    then number
    else if number % multiple == 0
    then number
    else ((number + multiple) % u64 + u64 - number % multiple) % u64

-- The branches that a compiler without `_X___SIZEOF_INT128__` keeps.
pub x_numdigits : ℕ → ℕ
x_numdigits n =
    if ltb n 10
    then 1
    else if ltb n 100
    then 2
    else if ltb n 1000
    then 3
    else if ltb n 10000
    then 4
    else if ltb n 100000
    then 5
    else if ltb n 1000000
    then 6
    else if ltb n 10000000
    then 7
    else if ltb n 100000000
    then 8
    else if ltb n 1000000000
    then 9
    else if ltb n 10000000000
    then 10
    else if ltb n 100000000000
    then 11
    else if ltb n 1000000000000
    then 12
    else if ltb n 10000000000000
    then 13
    else if ltb n 100000000000000
    then 14
    else if ltb n 1000000000000000
    then 15
    else if ltb n 10000000000000000
    then 16
    else if ltb n 100000000000000000
    then 17
    else if ltb n 1000000000000000000
    then 18
    else if ltb n 10000000000000000000
    then 19
    else 20
