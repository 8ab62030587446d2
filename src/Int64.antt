-- ===== src/Int64.antt =====
-- Go's `int64` and `int32`: the bit pattern of a value, as a number below `2 ^ 64` (`2 ^ 32`).
-- `bias` carries the signed order to the order of the naturals: it is the value plus `2 ^ 63`.
use razpravljalnica.Base.{
  ℕ, ◌+◌, ◌-◌, ◌%◌, ◌^◌, ◌<◌, ◌≡◌, Bool, ◌||◌, arith, ltb, leb, nat_beq, if◌then◌else◌,
}

abbrev pub Int64 : Type 0
Int64 = ℕ

abbrev pub Int32 : Type 0
Int32 = ℕ

-- The largest non-negative value is `half - 1`.
abbrev pub half : ℕ
half = 2 ^ 63

abbrev pub minus_one : Int64
minus_one = 2 ^ 64 - 1

-- `x++` and `x + 1`
abbrev pub inc : Int64 → Int64
inc x = (x + 1) % 2 ^ 64

-- `x - 1`
abbrev pub dec : Int64 → Int64
dec x = (x + (2 ^ 64 - 1)) % 2 ^ 64

abbrev pub add_64 : Int64 → Int64 → Int64
add_64 x y = (x + y) % 2 ^ 64

abbrev pub bias : Int64 → ℕ
bias x = (x + 2 ^ 63) % 2 ^ 64

-- `x < y`
abbrev pub slt : Int64 → Int64 → Bool
slt x y = ltb (bias x) (bias y)

-- `x <= y`
abbrev pub sle : Int64 → Int64 → Bool
sle x y = leb (bias x) (bias y)

-- `x <= 0` on an int64
abbrev pub not_positive : Int64 → Bool
not_positive x = nat_beq x 0 || leb half x

-- `x <= 0` on an int32
abbrev pub not_positive_32 : Int32 → Bool
not_positive_32 x = nat_beq x 0 || leb (2 ^ 31) x

-- `int64(x)` of an int32 keeps the sign.
abbrev pub int64 : Int32 → Int64
int64 x = if ltb x (2 ^ 31) then x else x + (2 ^ 64 - 2 ^ 32)

-- `x++` on an int32
abbrev pub inc_32 : Int32 → Int32
inc_32 x = (x + 1) % 2 ^ 32

pub inc-small : (x : Int64) → x < half → inc x ≡ x + 1
inc-small x h = omega arith
