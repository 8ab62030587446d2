-- ===== src/Cli/Parses.antt =====
-- pkg/client/cli/cli_helpers.go: which ids a subscription takes.
use razpravljalnica.Base.{
  nat_eq, ℕ, Bool, Option, String, arith, false, if◌then◌else◌, none, some, true, ◌-◌, ◌^◌, ◌≡◌,
  ◌||◌, ltb, leb, refl,
}
use razpravljalnica.Int64.{Int64}
use razpravljalnica.Cli.Helpers.{signed, magnitude, parse_int, parse_id, parse_int64}

-- An int64 that fits in 32 bits with its sign
abbrev pub fits_32 : Int64 → Bool
fits_32 n = ltb n (2 ^ 31) || leb (2 ^ 64 - 2 ^ 31) n

abbrev pub only_32 : Option Int64 → Option Int64
only_32 none = none
only_32 (some n) = if fits_32 n then some n else none

signed-only_32 :
    (negative : Bool) (o : Option ℕ) → signed 32 negative o ≡ only_32 (signed 64 negative o)
signed-only_32 false none = refl
signed-only_32 true none = refl
signed-only_32 false (some n) = ground arith
signed-only_32 true (some n) = ground arith

-- A subscription takes an id as the other commands do, if it fits in 32 bits with its sign, and
-- refuses every other id.
pub parse_int64_lem : (arg : String) → parse_int64 arg ≡ only_32 (parse_id arg)
unfolding parse_int64 parse_id parse_int
parse_int64_lem String.[] = refl
parse_int64_lem (String.◌∷◌ c s) = ground (
  arith,
  signed-only_32 true (magnitude s),
  signed-only_32 false (magnitude s),
  signed-only_32 false (magnitude (String.◌∷◌ c s)),
)
