-- ===== src/Prelude/Numbers.antt =====
-- Numbers as texts: Rust's `parse` and `to_string`.
use Prim.Native.Nat.{zero, suc, ◌/◌, ◌%◌, ℕ, ◌+◌, ◌-◌, ◌*◌}
use Prim.Native.Char.{code}
use Prim.Native.String
use Prim.Native.String.{String}
use mathlib.Core.Path.{◌≡◌, refl}
use mathlib.Core.Option.{Option, none, some}
use keelos.Prelude.Tests.{ltb, leb, ◌==◌, if◌then◌else◌}
use keelos.Prelude.Text.{is_digit}

-- `parse::<u32>` of a text of digits (the texts that the program hands over hold digits only, so
-- the sign that Rust accepts too is left out): `none` when empty, not a digit, or past the width.
digits_value : ℕ → String → Option ℕ
digits_value acc String.[] = some acc
digits_value acc (String.◌∷◌ c s) =
    let rest = digits_value (acc * 10 + (code c - b'0')) s in if is_digit c then rest else none

unfoldable pub parse_u32 : String → Option ℕ
unfolding digits_value
parse_u32 String.[] = none
parse_u32 s = elim (digits_value 0 s) [
  | none ↦ none
  | some n ↦ if leb n 4294967295 then some n else none
]

unfoldable pub parse_u64 : String → Option ℕ
unfolding digits_value
parse_u64 String.[] = none
parse_u64 s = elim (digits_value 0 s) [
  | none ↦ none
  | some n ↦ if ltb n 18446744073709551616 then some n else none
]

-- `to_string` of a number, on fuel: a number has at most as many digits as its successor.
digit : ℕ → String
digit n =
    if n == 0
    then "0"
    else if n == 1
    then "1"
    else if n == 2
    then "2"
    else if n == 3
    then "3"
    else if n == 4
    then "4"
    else if n == 5
    then "5"
    else if n == 6
    then "6"
    else if n == 7
    then "7"
    else if n == 8
    then "8"
    else "9"

decimal : ℕ → ℕ → String
decimal zero n = ""
decimal (suc f) n =
    let front = decimal f (n / 10) in
    if ltb n 10 then digit n else String.◌++◌ front (digit (n % 10))

unfoldable pub show : ℕ → String
unfolding digit decimal
show n = decimal (n + 1) n

show_test : (show 0 ≡ "0") × (show 9050 ≡ "9050")
unfolding show
show_test = (refl, refl)

parse_test : (parse_u32 "0042" ≡ some 42) × (parse_u32 "4294967296" ≡ none)
unfolding parse_u32
parse_test = (refl, refl)
