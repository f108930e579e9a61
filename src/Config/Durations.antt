-- ===== src/Config/Durations.antt =====
-- `time.ParseDuration`, in nanoseconds. A fraction is cut to whole nanoseconds, without the rounding
-- of Go's intermediate `float64`.
mod Rounds
use clickhouse_backup.Base.{
  ℕ, zero, suc, ◌+◌, ◌-◌, ◌*◌, ◌/◌, ◌^◌, Text, codes, ◌==◌, ◌++◌, Bool, true, false, ◌&&◌, ◌||◌,
  not, Option, none, some, [], ◌∷◌, leb, nat_beq, length, Result, ok, err, errorf, ℤ, pos, negsuc,
  if◌then◌else◌,
}

abbrev is_digit : ℕ → Bool
is_digit c = leb b'0' c && leb c b'9'

abbrev starts_number : ℕ → Bool
starts_number c = nat_beq c b'.' || is_digit c

-- The digits at the front, their value and their number, and what follows.
leading_int : ℕ → ℕ → Text → ℕ × ℕ × Text
leading_int value count [] = (value, count, [])
leading_int value count (c ∷ s) =
    let rest = leading_int (value * 10 + (c - b'0')) (count + 1) s in
    if is_digit c then rest else (value, count, c ∷ s)

-- The unit at the front: all up to the next digit or period.
leading_unit : Text → Text × Text
leading_unit [] = ([], [])
leading_unit (c ∷ s) =
    let (u, rest) = leading_unit s in if starts_number c then ([], c ∷ s) else (c ∷ u, rest)

abbrev unit_of : Text → Option ℕ
unit_of u =
    if u == codes "ns"
    then some 1
    else if u == codes "us"
    then some 1000
    else if u == 0xc2 ∷ 0xb5 ∷ b's' ∷ []
    then some 1000
    else if u == 0xce ∷ 0xbc ∷ b's' ∷ []
    then some 1000
    else if u == codes "ms"
    then some 1000000
    else if u == codes "s"
    then some 1000000000
    else if u == codes "m"
    then some 60000000000
    else if u == codes "h"
    then some 3600000000000
    else none

abbrev fraction : Text → ℕ × ℕ × Text
fraction (c ∷ s) = if nat_beq c b'.' then leading_int 0 0 s else (0, 0, c ∷ s)
fraction [] = (0, 0, [])

abbrev first_is_number : Text → Bool
first_is_number [] = false
first_is_number (c ∷ s) = starts_number c

abbrev max_int64 : ℕ
max_int64 = 2 ^ 63 - 1

-- One number with its unit: what it adds to the sum, and what follows.
leading_duration : Text → Option (ℕ × Text)
leading_duration s =
    let (whole, digits, rest) = leading_int 0 0 s in
    let (part, places, rest') = fraction rest in
    let (u, rest'') = leading_unit rest' in
    if not (first_is_number s) || nat_beq (digits + places) 0 || leb (max_int64 + 1) whole
    then none
    else elim (unit_of u) [
      | none ↦ none
      | some unit ↦
          let value = whole * unit + part * unit / 10 ^ places in
          if leb value max_int64 then some (value, rest'') else none
    ]

-- The loop, with the length of the text as fuel: each round reads at least one byte.
durations : ℕ → ℕ → Text → Option ℕ
durations fuel total [] = some total
durations zero total (c ∷ s) = none
durations (suc fuel) total (c ∷ s) = elim (leading_duration (c ∷ s)) [
  | none ↦ none
  | some (value, rest) ↦
      let more = durations fuel (total + value) rest in
      if leb (total + value) max_int64 then more else none
]

abbrev negated : Bool → ℕ → ℤ
negated true (suc n) = negsuc n
negated _ n = pos n

abbrev signed : Text → Bool × Text
signed [] = (false, [])
signed (c ∷ s) = if nat_beq c b'-' then (true, s) else (false, if nat_beq c b'+' then s else c ∷ s)

unfoldable pub parse_duration : Text → Result ℤ
unfolding durations leading_duration leading_int leading_unit
parse_duration text =
    let (negative, s) = signed text in
    let failure : Result ℤ = err (errorf (codes "time: invalid duration " ++ text)) in
    if s == codes "0" then ok (pos 0) else elim s [
      | [] ↦ failure
      | c ∷ r ↦ elim (durations (length (c ∷ r)) 0 (c ∷ r)) [
        | none ↦ failure
        | some n ↦ ok (negated negative n)
      ]
    ]
