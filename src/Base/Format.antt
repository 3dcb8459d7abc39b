-- ===== src/Base/Format.antt =====
-- The verb `%d` of Go's `fmt`.
use Prim.Native.Nat.{ℕ, zero, suc, ◌/◌, ◌%◌}
use Prim.Native.String.{String, ◌++◌ as ◌<>◌}
use internal_transfers_syste.Base.Tests.{ltb, ◌==◌, if◌then◌else◌}
use internal_transfers_syste.Base.Int.{ℤ, pos, negsuc}

abbrev pub digit : ℕ → String
digit d =
    if d == 0
    then "0"
    else if d == 1
    then "1"
    else if d == 2
    then "2"
    else if d == 3
    then "3"
    else if d == 4
    then "4"
    else if d == 5
    then "5"
    else if d == 6
    then "6"
    else if d == 7
    then "7"
    else if d == 8
    then "8"
    else "9"

-- The decimal digits of `n`, highest first. Each round divides by ten, so fuel `n` is enough.
unfoldable pub digits : ℕ → ℕ → String
digits zero n = digit n
digits (suc fuel) n =
    let rest = digits fuel (n / 10) <> digit (n % 10) in if ltb n 10 then digit n else rest

-- `%d`
unfoldable pub format_int : ℤ → String
unfolding digits
format_int (pos n) = digits n n
format_int (negsuc n) = "-" <> digits (suc n) (suc n)
