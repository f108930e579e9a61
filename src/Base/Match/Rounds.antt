-- ===== src/Base/Match/Rounds.antt =====
-- The rounds of `filepath.Match` over a pattern: its length is fuel enough.
use Prim.Native.Nat.{ℕ, zero, suc, ◌+◌, ◌-◌, ◌*◌, ◌≤◌, ◌<◌}
use mathlib.Core.Path.{◌≡◌, refl}
use mathlib.Core.Logic.{inl, inr}
use mathlib.Core.Bool.{Bool, true, false}
use mathlib.Core.Option.{Option, none, some}
use mathlib.Core.List.{List, [], ◌∷◌}
use native.Mathlib.Omega.{arith}
use clickhouse_backup.Base.Tests.{leb, nat_beq, if◌then◌else◌, Bool-cases, Option-cases}
use clickhouse_backup.Base.Lists.{length}
use clickhouse_backup.Base.Texts.{Text}
use clickhouse_backup.Base.Match.{
  is_pair, is_triple, is_quadruple, decode_rune, Token, range_end, range_from, checked_end,
  non_empty, one_range, ranges, read_class, read_token, parts_of,
}

-- Whatever the tests choose, no more is left than was there.
length-chosen :
    (p q r t : Bool) (v w x y z : ℕ) (b c d : ℕ) (s : Text)
    → let chosen : ℕ × Text =
        if p
        then (v, b ∷ c ∷ d ∷ s)
        else if q
        then (w, c ∷ d ∷ s)
        else if r
        then (x, d ∷ s)
        else if t
        then (y, s)
        else (z, b ∷ c ∷ d ∷ s) in
      length chosen.1 ≤ length (b ∷ c ∷ d ∷ s)
length-chosen true q r t v w x y z b c d s = omega arith
length-chosen false true r t v w x y z b c d s = omega arith
length-chosen false false true t v w x y z b c d s = omega arith
length-chosen false false false true v w x y z b c d s = omega arith
length-chosen false false false false v w x y z b c d s = omega arith

length-decode_rune : (a : ℕ) (s : Text) → length (decode_rune a s).1 ≤ length s
unfolding decode_rune
length-decode_rune a (b ∷ c ∷ d ∷ s) =
    length-chosen (leb a 0x7f) (is_pair a b) (is_triple a b c) (is_quadruple a b c d) a
      ((a - 0xc0) * 64 + (b - 0x80)) ((a - 0xe0) * 4096 + (b - 0x80) * 64 + (c - 0x80))
      ((a - 0xf0) * 262144 + (b - 0x80) * 4096 + (c - 0x80) * 64 + (d - 0x80)) 0xfffd b c d s
length-decode_rune a (b ∷ c ∷ []) = ground arith
length-decode_rune a (b ∷ []) = ground arith
length-decode_rune a [] = omega arith

-- A chain that succeeds has a first result.
then_some {ℓ} :
    {A B : Type ℓ} (o : Option A) (f : A → Option B) (y : B)
    → (elim o [ none ↦ none | some a ↦ f a ]) ≡ some y
    → (a : A) × (o ≡ some a) × (f a ≡ some y)
then_some none f y h = absurd (ground arith)
then_some (some a) f y h = (a, refl, h)

-- One end of a range reads at least one byte.
length-range_end :
    (s : Text) (r : ℕ) (rest : Text) → range_end s ≡ some (r, rest) → length rest < length s
unfolding range_end
length-range_end [] r rest h = ground arith
length-range_end (c ∷ []) r rest h = ground arith
length-range_end (c ∷ d ∷ []) r rest h = ground (arith, length-decode_rune c (d ∷ []))
length-range_end (c ∷ d ∷ e ∷ s) r rest h =
    ground (arith, length-decode_rune c (d ∷ e ∷ s), length-decode_rune d (e ∷ s))

non_empty_same :
    (x : ℕ) (behind : Text) (r : ℕ) (rest : Text)
    → non_empty (x, behind) ≡ some (r, rest)
    → length rest ≡ length behind
non_empty_same x [] r rest h = ground arith
non_empty_same x (c ∷ s) r rest h = ground arith

length-checked_end :
    (s : Text) (r : ℕ) (rest : Text) → checked_end s ≡ some (r, rest) → length rest < length s
length-checked_end s r rest h =
    let ((x, behind), found, kept) = then_some (range_end s) non_empty (r, rest) h in
    omega (arith, length-range_end s x behind found, non_empty_same x behind r rest kept)

length-range_from :
    (lo : ℕ) (s : Text) (r : ℕ × ℕ) (rest : Text)
    → range_from lo s ≡ some (r, rest)
    → length rest ≤ length s
length-range_from lo [] r rest h = ground arith
length-range_from lo (c ∷ s) r rest h = elim (Option-cases (checked_end s)) [
  | inl is_none ↦ ground arith
  | inr ((hi, rest'), is_some) ↦ ground (arith, length-checked_end s hi rest' is_some)
]

length-one_range :
    (s : Text) (r : ℕ × ℕ) (rest : Text) → one_range s ≡ some (r, rest) → length rest < length s
unfolding one_range
length-one_range s r rest h =
    let ((lo, behind), found, kept) =
      then_some (checked_end s) (λ e. range_from e.0 e.1) (r, rest) h in
    omega (arith, length-checked_end s lo behind found, length-range_from lo behind r rest kept)

length-ranges :
    (fuel : ℕ) (first : Bool) (s : Text) (rs : List (ℕ × ℕ)) (rest : Text)
    → ranges fuel first s ≡ some (rs, rest)
    → length rest < length s
unfolding ranges
length-ranges zero first s rs rest h = ground arith
length-ranges (suc fuel) first [] rs rest h = ground arith
length-ranges (suc fuel) first (c ∷ s) rs rest h = elim (Option-cases (one_range (c ∷ s))) [
  | inl is_none ↦ ground arith
  | inr ((r, behind), is_some) ↦ elim (Option-cases (ranges fuel false behind)) [
    | inl none_behind ↦ ground arith
    | inr ((rs', rest'), some_behind) ↦ ground (
      arith,
      length-one_range (c ∷ s) r behind is_some,
      length-ranges fuel false behind rs' rest' some_behind,
    )
  ]
]

-- Any fuel above the length gives the same ranges.
ranges-enough :
    (m n : ℕ) (first : Bool) (s : Text)
    → length s < m
    → length s < n
    → ranges m first s ≡ ranges n first s
unfolding ranges
ranges-enough zero n first s h h' = absurd (omega (arith, h))
ranges-enough (suc m) zero first s h h' = absurd (omega (arith, h'))
ranges-enough (suc m) (suc n) first [] h h' = refl
ranges-enough (suc m) (suc n) first (c ∷ s) h h' = elim (Option-cases (one_range (c ∷ s))) [
  | inl is_none ↦ rw (is_none, ranges) refl
  | inr ((r, rest), is_some) ↦
      let shorter = length-one_range (c ∷ s) r rest is_some in
      rw
        (
          is_some,
          ranges,
          ranges-enough m n false rest (omega (arith, shorter, h)) (omega (arith, shorter, h')),
        )
        refl
]

length-read_class :
    (s : Text) (t : Token) (rest : Text) → read_class s ≡ some (t, rest) → length rest ≤ length s
length-read_class [] t rest h = ground arith
length-read_class (c ∷ s) t rest h =
    let body = if nat_beq c b'^' then s else c ∷ s in
    elim (Option-cases (ranges (suc (length body)) true body)) [
      | inl is_none ↦ ground arith
      | inr ((rs, behind), is_some) ↦
          ground (arith, length-ranges (suc (length body)) true body rs behind is_some)
    ]

length-read_token :
    (c : ℕ) (s : Text) (t : Token) (rest : Text)
    → read_token c s ≡ some (t, rest)
    → length rest ≤ length s
length-read_token c s t rest h = ground (arith, length-read_class s t rest)

-- Any fuel that is at least the length of the pattern gives the same parts.
parts_of-enough : (m n : ℕ) (s : Text) → length s ≤ m → length s ≤ n → parts_of m s ≡ parts_of n s
unfolding parts_of
parts_of-enough m n [] h h' = refl
parts_of-enough zero n (c ∷ s) h h' = absurd (omega (arith, h))
parts_of-enough (suc m) zero (c ∷ s) h h' = absurd (omega (arith, h'))
parts_of-enough (suc m) (suc n) (c ∷ s) h h' = elim (Bool-cases (nat_beq c b'*')) [
  | inl star ↦
      rw (star, parts_of, parts_of-enough m n s (omega (arith, h)) (omega (arith, h'))) refl
  | inr other ↦ elim (Option-cases (read_token c s)) [
    | inl is_none ↦ rw (other, is_none, parts_of) refl
    | inr ((t, rest), is_some) ↦
        let shorter = length-read_token c s t rest is_some in
        rw
          (
            other,
            is_some,
            parts_of,
            parts_of-enough m n rest (omega (arith, shorter, h)) (omega (arith, shorter, h')),
          )
          refl
  ]
]
