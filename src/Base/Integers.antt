-- ===== src/Base/Integers.antt =====
-- Go's `int` over the native numbers, and its order. No value here comes near 2 ^ 63.
use Prim.Native.Nat.{ℕ, zero, suc, ◌+◌, ◌-◌, ◌*◌, ◌^◌}
use mathlib.Core.Bool.{Bool, ◌&&◌}
use mathlib.Core.Option.{Option, none, some}
use mathlib.Core.List.{[], ◌∷◌}
use clickhouse_backup.Base.Texts.{Text}
use clickhouse_backup.Base.Tests.{ltb, leb, nat_beq, if◌then◌else◌}

-- `negsuc n` is -(n + 1).
pub data ℤ : Type 0 where
  pos : ℕ → ℤ
  negsuc : ℕ → ℤ

abbrev pub pos_part : ℤ → ℕ
pos_part (pos n) = n
pos_part (negsuc n) = 0

abbrev pub neg_part : ℤ → ℕ
neg_part (pos n) = 0
neg_part (negsuc n) = suc n

-- `a < b`
abbrev pub ltb_ℤ : ℤ → ℤ → Bool
ltb_ℤ a b = ltb (pos_part a + neg_part b) (pos_part b + neg_part a)

-- The value of a text of decimal digits.
digits_value : ℕ → Text → Option ℕ
digits_value acc [] = some acc
digits_value acc (c ∷ s) =
    let rest = digits_value (acc * 10 + (c - 48)) s in if leb 48 c && leb c 57 then rest else none

abbrev in_range : Option ℕ → ℕ → Option ℕ
in_range none bound = none
in_range (some n) bound = if leb n bound then some n else none

abbrev digits_of : Text → ℕ → Option ℕ
digits_of [] bound = none
digits_of (c ∷ s) bound = in_range (digits_value 0 (c ∷ s)) bound

abbrev negative : ℕ → ℤ
negative zero = pos 0
negative (suc n) = negsuc n

-- `strconv.Atoi(s)` for 64-bit integers, with `none` for its errors.
unfoldable pub atoi : Text → Option ℤ
unfolding digits_value
atoi [] = none
atoi (c ∷ s) =
    if nat_beq c b'-'
    then (elim (digits_of s (2 ^ 63)) [ none ↦ none | some n ↦ some (negative n) ])
    else elim (digits_of (if nat_beq c b'+' then s else c ∷ s) (2 ^ 63 - 1)) [
      | none ↦ none
      | some n ↦ some (pos n)
    ]
