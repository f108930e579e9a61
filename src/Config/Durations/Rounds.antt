-- ===== src/Config/Durations/Rounds.antt =====
-- The rounds of `time.ParseDuration`: the length of the text is fuel enough.
use clickhouse_backup.Base.{
  ℕ, zero, suc, ◌+◌, ◌-◌, ◌*◌, ◌≤◌, ◌<◌, Text, ◌≡◌, refl, ap, Bool, true, false, Option, none, some,
  [], ◌∷◌, length, Option-cases, inl, inr, leb, if◌then◌else◌, ◌==◌, ◌/◌, ◌^◌, arith,
}
use clickhouse_backup.Config.Durations.{
  leading_int, leading_unit, fraction, unit_of, leading_duration, durations, max_int64,
}

-- The digits at the front are taken off.
length-leading_int : (value count : ℕ) (s : Text) → length (leading_int value count s).2 ≤ length s
unfolding leading_int
length-leading_int value count [] = omega arith
length-leading_int value count (c ∷ s) =
    ground (arith, length-leading_int (value * 10 + (c - b'0')) (count + 1) s)

length-leading_unit : (s : Text) → length (leading_unit s).0 + length (leading_unit s).1 ≡ length s
unfolding leading_unit
length-leading_unit [] = refl
length-leading_unit (c ∷ s) = ground (arith, length-leading_unit s)

length-fraction : (s : Text) → length (fraction s).2 ≤ length s
length-fraction [] = omega arith
length-fraction (c ∷ s) = ground (arith, length-leading_int 0 0 s)

-- No unit is empty.
length-unit : (u : Text) (unit : ℕ) → unit_of u ≡ some unit → 0 < length u
unfolding ◌==◌
length-unit [] unit h = ground arith
length-unit (c ∷ u) unit h = omega arith

-- A round that succeeds found a unit, and leaves what stands behind it.
round_kept :
    (refused : Bool) (unit : Option ℕ) (amount : ℕ → ℕ) (behind rest : Text) (value : ℕ)
    → ◌≡◌ {A = Option (ℕ × Text)}
        (if refused then none else elim unit [
          | none ↦ none
          | some n ↦ if leb (amount n) max_int64 then some (amount n, behind) else none
        ])
        (some (value, rest))
    → ((n : ℕ) × (unit ≡ some n)) × (behind ≡ rest)
round_kept true unit amount behind rest value h = cc
round_kept false none amount behind rest value h = cc
round_kept false (some n) amount behind rest value h = ((n, refl), ground arith)

-- A round reads at least the unit.
length-leading_duration :
    (s : Text) (value : ℕ) (rest : Text)
    → leading_duration s ≡ some (value, rest)
    → length rest < length s
unfolding leading_duration
length-leading_duration s value rest h =
    let (whole, digits, after) = leading_int 0 0 s in
    let (part, places, after') = fraction after in
    let (u, behind) = leading_unit after' in
    let ((n, found), same) =
      round_kept _ (unit_of u) (λ n. whole * n + part * n / 10 ^ places) behind rest value h in
    omega (
      arith,
      length-leading_int 0 0 s,
      length-fraction after,
      length-leading_unit after',
      length-unit u n found,
      ap length same,
    )

-- Any fuel that is at least the length of the text gives the same sum.
durations-enough :
    (m n total : ℕ) (s : Text)
    → length s ≤ m
    → length s ≤ n
    → durations m total s ≡ durations n total s
unfolding durations
durations-enough m n total [] h h' = refl
durations-enough zero n total (c ∷ s) h h' = absurd (omega (arith, h))
durations-enough (suc m) zero total (c ∷ s) h h' = absurd (omega (arith, h'))
durations-enough (suc m) (suc n) total (c ∷ s) h h' =
    elim (Option-cases (leading_duration (c ∷ s))) [
      | inl is_none ↦ rw (is_none, durations) refl
      | inr ((value, rest), is_some) ↦
          let shorter = length-leading_duration (c ∷ s) value rest is_some in
          rw
            (
              is_some,
              durations,
              durations-enough m n (total + value) rest (omega (arith, shorter, h))
                  (omega (arith, shorter, h')),
            )
            refl
    ]
