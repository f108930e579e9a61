-- ===== src/Base/Match.antt =====
-- `filepath.Match` on slash-separated names, without its error: a malformed pattern matches nothing.
mod Rounds
use Prim.Native.Nat.{ℕ, zero, suc, ◌+◌, ◌-◌, ◌*◌}
use mathlib.Core.Bool.{Bool, true, false, not, ◌&&◌, ◌||◌}
use mathlib.Core.Option.{Option, none, some}
use mathlib.Core.List.{List, [], ◌∷◌}
use clickhouse_backup.Base.Tests.{leb, nat_beq, if◌then◌else◌}
use clickhouse_backup.Base.Lists.{any, length}
use clickhouse_backup.Base.Texts.{Text}
use clickhouse_backup.Base.Paths.{is_empty}

abbrev is_tail : ℕ → Bool
is_tail c = leb 0x80 c && leb c 0xbf

abbrev within : ℕ → ℕ → ℕ → Bool
within lo hi c = leb lo c && leb c hi

-- Two, three and four bytes of UTF-8, as `utf8.DecodeRuneInString` accepts them.
abbrev is_pair : ℕ → ℕ → Bool
is_pair a b = within 0xc2 0xdf a && is_tail b

abbrev is_triple : ℕ → ℕ → ℕ → Bool
is_triple a b c =
    within 0xe0 0xef a
    && is_tail b
    && is_tail c
    && not (nat_beq a 0xe0 && not (leb 0xa0 b))
    && not (nat_beq a 0xed && leb 0xa0 b)

abbrev is_quadruple : ℕ → ℕ → ℕ → ℕ → Bool
is_quadruple a b c d =
    within 0xf0 0xf4 a
    && is_tail b
    && is_tail c
    && is_tail d
    && not (nat_beq a 0xf0 && not (leb 0x90 b))
    && not (nat_beq a 0xf4 && leb 0x90 b)

-- The first rune and what follows; a byte that begins no rune stands for U+FFFD.
decode_rune : ℕ → Text → ℕ × Text
decode_rune a (b ∷ c ∷ d ∷ s) =
    if leb a 0x7f
    then (a, b ∷ c ∷ d ∷ s)
    else if is_pair a b
    then ((a - 0xc0) * 64 + (b - 0x80), c ∷ d ∷ s)
    else if is_triple a b c
    then ((a - 0xe0) * 4096 + (b - 0x80) * 64 + (c - 0x80), d ∷ s)
    else if is_quadruple a b c d
    then ((a - 0xf0) * 262144 + (b - 0x80) * 4096 + (c - 0x80) * 64 + (d - 0x80), s)
    else (0xfffd, b ∷ c ∷ d ∷ s)
decode_rune a (b ∷ c ∷ []) =
    if leb a 0x7f
    then (a, b ∷ c ∷ [])
    else if is_pair a b
    then ((a - 0xc0) * 64 + (b - 0x80), c ∷ [])
    else if is_triple a b c
    then ((a - 0xe0) * 4096 + (b - 0x80) * 64 + (c - 0x80), [])
    else (0xfffd, b ∷ c ∷ [])
decode_rune a (b ∷ []) =
    if leb a 0x7f
    then (a, b ∷ [])
    else if is_pair a b
    then ((a - 0xc0) * 64 + (b - 0x80), [])
    else (0xfffd, b ∷ [])
decode_rune a [] = (if leb a 0x7f then a else 0xfffd, [])

pub data Token : Type 0 where
  byte : ℕ → Token
  any_rune : Token
  class : Bool → List (ℕ × ℕ) → Token

-- `getEsc`: one end of a range.
range_end : Text → Option (ℕ × Text)
range_end [] = none
range_end (c ∷ []) = none
range_end (c ∷ d ∷ s) =
    if nat_beq c b'-' || nat_beq c b']'
    then none
    else if nat_beq c 0x5c
    then (elim s [ [] ↦ none | e ∷ r ↦ some (decode_rune d (e ∷ r)) ])
    else some (decode_rune c (d ∷ s))

abbrev non_empty : ℕ × Text → Option (ℕ × Text)
non_empty (r, []) = none
non_empty (r, c ∷ s) = some (r, c ∷ s)

abbrev checked_end : Text → Option (ℕ × Text)
checked_end s = elim (range_end s) [ none ↦ none | some e ↦ non_empty e ]

-- The range that begins with `lo`.
abbrev range_from : ℕ → Text → Option ((ℕ × ℕ) × Text)
range_from lo [] = none
range_from lo (c ∷ after) =
    if nat_beq c b'-'
    then (elim (checked_end after) [ none ↦ none | some (hi, rest') ↦ some ((lo, hi), rest') ])
    else some ((lo, lo), c ∷ after)

-- One range, `lo` or `lo-hi`.
one_range : Text → Option ((ℕ × ℕ) × Text)
one_range s = elim (checked_end s) [ none ↦ none | some (lo, rest) ↦ range_from lo rest ]

-- The ranges up to the closing bracket, of which there is at least one.
ranges : ℕ → Bool → Text → Option (List (ℕ × ℕ) × Text)
ranges zero first s = none
ranges (suc fuel) first [] = none
ranges (suc fuel) first (c ∷ s) =
    if nat_beq c b']' && not first then some ([], s) else elim (one_range (c ∷ s)) [
      | none ↦ none
      | some (r, rest) ↦ elim (ranges fuel false rest) [
        | none ↦ none
        | some (rs, rest') ↦ some (r ∷ rs, rest')
      ]
    ]

abbrev read_class : Text → Option (Token × Text)
read_class [] = none
read_class (c ∷ s) =
    let negated = nat_beq c b'^' in
    let body = if negated then s else c ∷ s in
    elim (ranges (suc (length body)) true body) [
      | none ↦ none
      | some (rs, rest) ↦ some (class negated rs, rest)
    ]

-- A pattern: the parts between stars, each with whether a star stands in front.
abbrev Part : Type 0
Part = Bool × List Token

abbrev read_token : ℕ → Text → Option (Token × Text)
read_token c s =
    if nat_beq c b'?'
    then some (any_rune, s)
    else if nat_beq c b'['
    then read_class s
    else if nat_beq c 0x5c
    then (elim s [ [] ↦ none | d ∷ r ↦ some (byte d, r) ])
    else some (byte c, s)

-- Consecutive stars count as one.
abbrev starred : List Part → List Part
starred [] = (true, []) ∷ []
starred ((true, ts) ∷ parts) = (true, ts) ∷ parts
starred ((false, ts) ∷ parts) = (true, ts) ∷ parts

abbrev with_token : Token → List Part → List Part
with_token t [] = (false, t ∷ []) ∷ []
with_token t ((true, ts) ∷ parts) = (false, t ∷ []) ∷ (true, ts) ∷ parts
with_token t ((false, ts) ∷ parts) = (false, t ∷ ts) ∷ parts

parts_of : ℕ → Text → Option (List Part)
parts_of fuel [] = some []
parts_of zero (c ∷ s) = none
parts_of (suc fuel) (c ∷ s) =
    if nat_beq c b'*'
    then (elim (parts_of fuel s) [ none ↦ none | some parts ↦ some (starred parts) ])
    else elim (read_token c s) [
      | none ↦ none
      | some (t, rest) ↦ elim (parts_of fuel rest) [
        | none ↦ none
        | some parts ↦ some (with_token t parts)
      ]
    ]

abbrev in_class : Bool → List (ℕ × ℕ) → ℕ → Bool
in_class negated rs r =
    let found = any rs (λ e. leb e.0 r && leb r e.1) in if negated then not found else found

-- `matchChunk`: what is left of the name behind the tokens.
match_chunk : List Token → Text → Option Text
match_chunk [] name = some name
match_chunk (t ∷ ts) [] = none
match_chunk (byte b ∷ ts) (x ∷ name) =
    let rest = match_chunk ts name in if nat_beq b x then rest else none
match_chunk (any_rune ∷ ts) (x ∷ name) =
    let rest = match_chunk ts (decode_rune x name).1 in if nat_beq x b'/' then none else rest
match_chunk (class negated rs ∷ ts) (x ∷ name) =
    let (r, behind) = decode_rune x name in
    let rest = match_chunk ts behind in if in_class negated rs r then rest else none

-- A part at this place; the last part must exhaust the name.
abbrev match_here : Bool → List Token → Text → Option Text
match_here last ts name = elim (match_chunk ts name) [
  | none ↦ none
  | some rest ↦ if not last || is_empty rest then some rest else none
]

-- Behind a star: at the first place, not past a slash, where the part fits.
match_later : Bool → List Token → Text → Option Text
match_later last ts [] = none
match_later last ts (x ∷ name) =
    let later = match_later last ts name in
    if nat_beq x b'/'
    then none
    else elim (match_here last ts name) [ some rest ↦ some rest | none ↦ later ]

abbrev match_part : Bool → Part → Text → Option Text
match_part last (star, ts) name = elim (match_here last ts name) [
  | some rest ↦ some rest
  | none ↦ if star then match_later last ts name else none
]

abbrev no_slash : Text → Bool
no_slash name = not (any name (λ c. nat_beq c b'/'))

match_parts : List Part → Text → Bool
match_parts [] name = is_empty name
match_parts ((true, []) ∷ parts) name = no_slash name
match_parts (part ∷ []) name = elim (match_part true part name) [
  | none ↦ false
  | some rest ↦ is_empty rest
]
match_parts (part ∷ next ∷ parts) name = elim (match_part false part name) [
  | none ↦ false
  | some rest ↦ match_parts (next ∷ parts) rest
]

-- `matched, _ := filepath.Match(pattern, name)`
unfoldable pub matched : Text → Text → Bool
unfolding parts_of ranges one_range range_end decode_rune match_parts match_later match_chunk
matched pattern name = elim (parts_of (length pattern) pattern) [
  | none ↦ false
  | some parts ↦ match_parts parts name
]
