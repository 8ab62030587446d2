-- ===== src/Cli/Helpers.antt =====
-- pkg/client/cli/cli_helpers.go: how an argument is read as a number, with Go's `strconv.ParseInt`.
use Prim.Native.Char.{code}
use razpravljalnica.Base.{
  nat_eq, ℕ, Bool, List, Option, String, false, if◌then◌else◌, none, some, true, ◌+◌, ◌*◌, ◌-◌, ◌^◌,
  ◌%◌, ◌||◌, ◌==◌, ltb, leb, length,
}
use razpravljalnica.Int64.{Int64}

-- Decimal digits after those that made `n`
abbrev pub digits : String → ℕ → Option ℕ
digits String.[] n = some n
digits (String.◌∷◌ c s) n =
    if ltb (code c) b'0' || ltb b'9' (code c) then none else digits s (n * 10 + (code c - b'0'))

abbrev pub magnitude : String → Option ℕ
magnitude String.[] = none
magnitude (String.◌∷◌ c s) = digits (String.◌∷◌ c s) 0

-- A number with its sign in `bits` bits, as an int64; `none` out of range
abbrev pub in_range : ℕ → Bool → ℕ → Option Int64
in_range bits false n = if ltb n (2 ^ (bits - 1)) then some n else none
in_range bits true n =
    if leb n (2 ^ (bits - 1)) then some (if n == 0 then 0 else 2 ^ 64 - n) else none

abbrev pub signed : ℕ → Bool → Option ℕ → Option Int64
signed bits negative none = none
signed bits negative (some n) = in_range bits negative n

-- `strconv.ParseInt(arg, 10, bits)`; `none` is its error.
unfoldable pub parse_int : ℕ → String → Option Int64
parse_int bits String.[] = none
parse_int bits (String.◌∷◌ c s) =
    if code c == b'-'
    then signed bits true (magnitude s)
    else if code c == b'+'
    then signed bits false (magnitude s)
    else signed bits false (magnitude (String.◌∷◌ c s))

-- The error is a validation error.
unfoldable pub parse_id : String → Option Int64
unfolding parse_int
parse_id arg = parse_int 64 arg

-- `int32(val)` of the value keeps its low 32 bits.
unfoldable pub parse_int32 : String → Option ℕ
unfolding parse_int
parse_int32 arg = elim (parse_int 32 arg) [ none ↦ none | some val ↦ some (val % 2 ^ 32) ]

-- It parses with 32 bits.
unfoldable pub parse_int64 : String → Option Int64
unfolding parse_int
parse_int64 arg = parse_int 32 arg

-- The error is the usage line.
abbrev pub require_args : List String → ℕ → Bool
require_args args expected = leb expected (length args)
