-- ===== src/Names.antt =====
-- Names of databases and tables in file names: `TablePathEncode` of pkg/chbackup/utils.go and
-- `url.PathUnescape`, which reads them back.
pub mod Roundtrip
use clickhouse_backup.Base.{
  ℕ, zero, suc, ◌+◌, ◌-◌, ◌*◌, ◌/◌, ◌%◌, Text, codes, Bool, ◌&&◌, ◌||◌, Option, none, some, List,
  [], ◌∷◌, ◌++◌, leb, ltb, nat_beq, if◌then◌else◌,
}

abbrev within : ℕ → ℕ → ℕ → Bool
within lo hi c = leb lo c && leb c hi

-- What `url.PathEscape` leaves as it is.
abbrev is_unreserved : ℕ → Bool
is_unreserved c =
    within b'a' b'z' c
    || within b'A' b'Z' c
    || within b'0' b'9' c
    || nat_beq c b'-'
    || nat_beq c b'_'
    || nat_beq c b'.'
    || nat_beq c b'~'
    || nat_beq c b'$'
    || nat_beq c b'&'
    || nat_beq c b'+'
    || nat_beq c b'='
    || nat_beq c b':'
    || nat_beq c b'@'

-- An upper-case hexadecimal digit.
abbrev pub hex_digit : ℕ → ℕ
hex_digit n = if ltb n 10 then b'0' + n else b'A' + n - 10

abbrev pub escaped : ℕ → Text
escaped c = b'%' ∷ hex_digit (c / 16) ∷ hex_digit (c % 16) ∷ []

unfoldable pub path_escape : Text → Text
path_escape [] = []
path_escape (c ∷ s) =
    let rest = path_escape s in if is_unreserved c then c ∷ rest else escaped c ++ rest

-- `strings.ReplaceAll(s, old, new)` for an `old` of one byte.
unfoldable pub replace_all : ℕ → Text → Text → Text
replace_all old new [] = []
replace_all old new (c ∷ s) =
    let rest = replace_all old new s in if nat_beq c old then new ++ rest else c ∷ rest

unfoldable pub table_path_encode : Text → Text
table_path_encode s =
    replace_all b'-' (codes "%2D") (replace_all b'.' (codes "%2E") (path_escape s))

-- The value of a hexadecimal digit of either case.
abbrev pub unhex : ℕ → Option ℕ
unhex c =
    if within b'0' b'9' c
    then some (c - b'0')
    else if within b'a' b'f' c
    then some (c - b'a' + 10)
    else if within b'A' b'F' c
    then some (c - b'A' + 10)
    else none

abbrev hex_pair : Option ℕ → Option ℕ → Option ℕ
hex_pair (some a) (some b) = some (a * 16 + b)
hex_pair _ _ = none

abbrev pub cons_to : Option ℕ → Option Text → Option Text
cons_to (some c) (some s) = some (c ∷ s)
cons_to _ _ = none

-- `url.PathUnescape`, where `none` is the error.
unfoldable pub path_unescape : Text → Option Text
path_unescape [] = some []
path_unescape (c ∷ []) = if nat_beq c b'%' then none else some (c ∷ [])
path_unescape (c ∷ d ∷ []) =
    if nat_beq c b'%' then none else cons_to (some c) (path_unescape (d ∷ []))
path_unescape (c ∷ d ∷ e ∷ s) =
    let taken = cons_to (hex_pair (unhex d) (unhex e)) (path_unescape s) in
    let kept = cons_to (some c) (path_unescape (d ∷ e ∷ s)) in
    if nat_beq c b'%' then taken else kept

-- The first result of `url.PathUnescape`, which is empty on an error.
unfoldable pub unescaped : Text → Text
unescaped s = elim (path_unescape s) [ none ↦ [] | some name ↦ name ]
