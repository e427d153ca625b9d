-- ===== src/Prelude/Decimal.antt =====
-- Python's `str(n)` of a number that is not negative.
use Prim.Native.Nat.{ℕ, zero, suc, ◌+◌, ◌/◌, ◌%◌}
use Prim.Native.String.{String, ◌++◌}
use mathlib.Core.Path.{◌≡◌, refl}
use mathlib.Core.Bool.{true, false}
use hashgraph.Prelude.Tests.{ltb, nat_beq, if◌then◌else◌}

digit : ℕ → String
digit d =
    if nat_beq d 0
    then "0"
    else if nat_beq d 1
    then "1"
    else if nat_beq d 2
    then "2"
    else if nat_beq d 3
    then "3"
    else if nat_beq d 4
    then "4"
    else if nat_beq d 5
    then "5"
    else if nat_beq d 6
    then "6"
    else if nat_beq d 7
    then "7"
    else if nat_beq d 8
    then "8"
    else "9"

digits_from : ℕ → ℕ → String
digits_from zero n = ""
digits_from (suc fuel) n = elim (ltb n 10) [
  | true ↦ digit n
  | false ↦ digits_from fuel (n / 10) ++ digit (n % 10)
]

-- A number has no more digits than its value and one.
unfoldable pub decimal : ℕ → String
unfolding digit digits_from
decimal n = digits_from (n + 1) n

decimal_sample : decimal 1090 ≡ "1090"
unfolding decimal
decimal_sample = refl
